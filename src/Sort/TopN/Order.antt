-- ===== src/Sort/TopN/Order.antt =====
-- The order of rows that `less` and `greater` of TopNSort in sql/sort.cpp are, where no column is null.
use cat_db.Prelude.{◌≡◌, ◌≢◌, refl, sym, Bool, true, false, List, [], ◌∷◌, arith}
use cat_db.Expr.{Expression, plain}
use cat_db.Object.{ObjectClass}
use cat_db.Row.{Row}
use cat_db.Sort.{less, greater, topn_less, topn_greater}
use cat_db.Sort.Order.{IsStrictWeak, IsRanked, AllRanked, before-IsStrictWeak, agree}
use cat_db.Sort.TopN.{topn_before, topn_behind}

module _ {O : Type 0} ⦃class : ObjectClass O⦄ (Q : Row O → Type 0) where
  -- No column is null in the rows of `Q`.
  abbrev pub AllPresent : List (Expression O) → Type 0
  AllPresent [] = Unit
  AllPresent (e ∷ es) = ((r : Row O) → Q r → class.is_null (e (plain r)) ≡ false) × AllPresent es

  less_present :
      (es : List (Expression O)) (l r : Row O)
      → AllPresent es
      → Q l
      → Q r
      → topn_less es l r ≡ less es l r
  unfolding less topn_less
  less_present [] l r h ql qr = refl
  less_present (e ∷ es) l r h ql qr =
      let nl = h.0 l ql in
      let nr = h.0 r qr in let ih = less_present es l r h.1 ql qr in ground (arith, nl, nr, ih)

  greater_present :
      (es : List (Expression O)) (l r : Row O)
      → AllPresent es
      → Q l
      → Q r
      → topn_greater es l r ≡ greater es l r
  unfolding greater topn_greater
  greater_present [] l r h ql qr = refl
  greater_present (e ∷ es) l r h ql qr =
      let nl = h.0 l ql in
      let nr = h.0 r qr in let ih = greater_present es l r h.1 ql qr in ground (arith, nl, nr, ih)

  pub topn_before-IsStrictWeak :
      (asc : Bool) (es : List (Expression O))
      → AllRanked Q es
      → AllPresent es
      → IsStrictWeak Q (topn_before asc es)
  topn_before-IsStrictWeak true es h p =
      agree Q (less es) (topn_less es) (λ a b. less_present es a b p)
        (before-IsStrictWeak Q true es h)
  topn_before-IsStrictWeak false es h p =
      agree Q (greater es) (topn_greater es) (λ a b. greater_present es a b p)
        (before-IsStrictWeak Q false es h)

  rank-positive :
      (e : Expression O) (h : IsRanked Q e)
      → ((r : Row O) → Q r → class.is_null (e (plain r)) ≡ false)
      → (r : Row O) → Q r
      → h.rank r ≢ 0
  rank-positive e h p r q = let n = h.null_is r q in let m = p r q in ground (arith, n, m)

  greater_turned :
      (es : List (Expression O)) (a b : Row O)
      → AllRanked Q es
      → AllPresent es
      → Q a
      → Q b
      → topn_greater es a b ≡ topn_less es b a
  unfolding topn_less topn_greater
  greater_turned [] a b h p qa qb = refl
  greater_turned (e ∷ es) a b h p qa qb =
      let pa = rank-positive e h.0 p.0 a qa in
      let pb = rank-positive e h.0 p.0 b qb in
      let eq = h.0.equal_is a b qa qb pa pb in
      let eq' = h.0.equal_is b a qb qa pb pa in
      let gt = h.0.greater_is a b qa qb pa pb in
      let gt' = h.0.greater_is b a qb qa pb pa in
      let ih = greater_turned es a b h.1 p.1 qa qb in ground (arith, eq, eq', gt, gt', ih)

  -- `greater(row, rows[0])` is the order of the heap the other way round.
  pub topn_behind-turned :
      (asc : Bool) (es : List (Expression O))
      → AllRanked Q es
      → AllPresent es
      → (a b : Row O) → Q a
      → Q b
      → topn_behind asc es a b ≡ topn_before asc es b a
  topn_behind-turned true es h p a b qa qb = greater_turned es a b h p qa qb
  topn_behind-turned false es h p a b qa qb = sym (greater_turned es b a h p qb qa)
