-- ===== src/Sort/Order.antt =====
-- The order of rows that `less` and `greater` of sql/sort.cpp are.
use cat_db.Prelude.{
  ℕ, ◌≡◌, ◌≢◌, refl, sym, ◌∙◌, ◌⊎◌, inl, inr, Bool, true, false, not, ◌&&◌, ◌||◌, List, [], ◌∷◌,
  if◌then◌else◌, ltb, ◌==◌, ap, subst, arith,
}
use cat_db.Expr.{Expression, plain}
use cat_db.Object.{ObjectClass}
use cat_db.Row.{Row}
use cat_db.Sort.{less, greater, before}

dec_eq : (m n : ℕ) → (m ≡ n) ⊎ (m ≢ n)
dec_eq m n = ground arith

true≢false : true ≢ false
true≢false e = cc

-- What `std::sort` asks of an order, for the rows that it is given.
pub record IsStrictWeak {R : Type 0} (Q : R → Type 0) (lt : R → R → Bool) : Type 0 where
  pub asym : (a b : R) → Q a → Q b → lt a b ≡ true → lt b a ≡ false
  pub cotrans : (a b c : R) → Q a → Q b → Q c → lt a c ≡ true → (lt a b ≡ true) ⊎ (lt b c ≡ true)

-- A strict linear order of the numbers.
pub record IsLinear (low : ℕ → ℕ → Bool) : Type 0 where
  pub apart : (m n : ℕ) → low m n ≡ true → low n m ≡ false
  pub through : (k m n : ℕ) → low k m ≡ true → low m n ≡ true → low k n ≡ true
  pub total : (m n : ℕ) → m ≢ n → (low m n ≡ true) ⊎ (low n m ≡ true)

ltb-IsLinear : IsLinear ltb
ltb-IsLinear = record {
  apart = λ m n h. ground (arith, h);
  through = λ k m n h g. ground (arith, h, g);
  total = λ m n ne. ground (arith, ne);
}

-- 0 first, and then the greater number first.
abbrev pub falling : ℕ → ℕ → Bool
falling m n = not (n == 0) && (m == 0 || ltb n m)

falling-IsLinear : IsLinear falling
falling-IsLinear = record {
  apart = λ m n h. ground (arith, h);
  through = λ k m n h g. ground (arith, h, g);
  total = λ m n ne. ground (arith, ne);
}

module _ {R : Type 0} (rank : R → ℕ) (low : ℕ → ℕ → Bool) (lt : R → R → Bool) where
  -- The rows are compared by `rank`, and `lt` decides where it is the same.
  abbrev pub refined : R → R → Bool
  refined a b = if rank a == rank b then lt a b else low (rank a) (rank b)

  refined_same : (a b : R) → rank a ≡ rank b → refined a b ≡ lt a b
  refined_same a b e = let same : (rank a == rank b) ≡ true = ground (arith, e) in rw same refl

  refined_apart : (a b : R) → rank a ≢ rank b → refined a b ≡ low (rank a) (rank b)
  refined_apart a b ne =
      let other : (rank a == rank b) ≡ false = ground (arith, ne) in rw other refl

  refined-IsStrictWeak :
      (Q : R → Type 0) → IsLinear low → IsStrictWeak Q lt → IsStrictWeak Q refined
  refined-IsStrictWeak Q hl h = record {
    asym = λ a b qa qb e. elim (dec_eq (rank a) (rank b)) [
      | inl same ↦ refined_same b a (sym same) ∙ h.asym a b qa qb (sym (refined_same a b same) ∙ e)
      | inr ne ↦
          refined_apart b a (λ s. ne (sym s))
          ∙ hl.apart (rank a) (rank b) (sym (refined_apart a b ne) ∙ e)
    ];
    cotrans = λ a b c qa qb qc e. elim (dec_eq (rank a) (rank c)) [
      | inl same ↦ elim (dec_eq (rank a) (rank b)) [
        | inl same' ↦ elim (h.cotrans a b c qa qb qc (sym (refined_same a c same) ∙ e)) [
          | inl l ↦ inl (refined_same a b same' ∙ l)
          | inr r ↦ inr (refined_same b c (sym same' ∙ same) ∙ r)
        ]
        | inr ne ↦ elim (hl.total (rank a) (rank b) ne) [
          | inl l ↦ inl (refined_apart a b ne ∙ l)
          | inr r ↦
              inr (refined_apart b c (λ s. ne (same ∙ sym s)) ∙ ap (low (rank b)) (sym same) ∙ r)
        ]
      ]
      | inr ne ↦
          let less_ac = sym (refined_apart a c ne) ∙ e in
          elim (dec_eq (rank a) (rank b)) [
            | inl same ↦ inr (
                refined_apart b c (λ s. ne (same ∙ s))
                ∙ ap (λ k. low k (rank c)) (sym same)
                ∙ less_ac)
            | inr ne' ↦ elim (hl.total (rank a) (rank b) ne') [
              | inl l ↦ inl (refined_apart a b ne' ∙ l)
              | inr r ↦
                  let less_bc = hl.through (rank b) (rank a) (rank c) r less_ac in
                  inr (refined_apart b c (λ s. ne_of (rank b) (rank c) less_bc s) ∙ less_bc)
            ]
          ]
    ];
  }
    where
      ne_of : (m n : ℕ) → low m n ≡ true → m ≢ n
      ne_of m n l s =
          let self : low n n ≡ true = subst (λ k. low k n ≡ true) s l in
          absurd (true≢false (sym self ∙ hl.apart n n self))

module _ {O : Type 0} ⦃class : ObjectClass O⦄ where
  -- The values of a column compare like numbers, on the rows of `Q`; nulls like 0.
  pub record IsRanked (Q : Row O → Type 0) (e : Expression O) : Type 0 where
    pub rank : Row O → ℕ
    pub null_is : (r : Row O) → Q r → class.is_null (e (plain r)) ≡ (rank r == 0)
    pub equal_is :
        (l r : Row O)
        → Q l
        → Q r
        → rank l ≢ 0
        → rank r ≢ 0
        → class.bool_value (class.equal (e (plain l)) (e (plain r))) ≡ (rank l == rank r)
    pub greater_is :
        (l r : Row O)
        → Q l
        → Q r
        → rank l ≢ 0
        → rank r ≢ 0
        → class.bool_value (class.greater (e (plain l)) (e (plain r))) ≡ ltb (rank r) (rank l)

  abbrev pub AllRanked : (Row O → Type 0) → List (Expression O) → Type 0
  AllRanked Q [] = Unit
  AllRanked Q (e ∷ es) = IsRanked Q e × AllRanked Q es

  less_ranked :
      (Q : Row O → Type 0) (e : Expression O) (es : List (Expression O))
      → (h : IsRanked Q e) → (l r : Row O) → Q l
      → Q r
      → less (e ∷ es) l r ≡ refined h.rank ltb (less es) l r
  unfolding less
  less_ranked Q e es h l r ql qr =
      let nl = h.null_is l ql in
      let nr = h.null_is r qr in
      elim (dec_eq (h.rank l) 0) [
        | inl zl ↦ ground (arith, nl, nr, zl)
        | inr pl ↦ elim (dec_eq (h.rank r) 0) [
          | inl zr ↦ ground (arith, nl, nr, zr, pl)
          | inr pr ↦
              let eq = h.equal_is l r ql qr pl pr in
              let gt = h.greater_is l r ql qr pl pr in ground (arith, nl, nr, eq, gt, pl, pr)
        ]
      ]

  greater_ranked :
      (Q : Row O → Type 0) (e : Expression O) (es : List (Expression O))
      → (h : IsRanked Q e) → (l r : Row O) → Q l
      → Q r
      → greater (e ∷ es) l r ≡ refined h.rank falling (greater es) l r
  unfolding greater
  greater_ranked Q e es h l r ql qr =
      let nl = h.null_is l ql in
      let nr = h.null_is r qr in
      elim (dec_eq (h.rank l) 0) [
        | inl zl ↦ ground (arith, nl, nr, zl)
        | inr pl ↦ elim (dec_eq (h.rank r) 0) [
          | inl zr ↦ ground (arith, nl, nr, zr, pl)
          | inr pr ↦
              let eq = h.equal_is l r ql qr pl pr in
              let gt = h.greater_is l r ql qr pl pr in ground (arith, nl, nr, eq, gt, pl, pr)
        ]
      ]

  pub agree :
      (Q : Row O → Type 0) (lt lt' : Row O → Row O → Bool)
      → ((a b : Row O) → Q a → Q b → lt' a b ≡ lt a b)
      → IsStrictWeak Q lt
      → IsStrictWeak Q lt'
  agree Q lt lt' same h = record {
    asym = λ a b qa qb e. same b a qb qa ∙ h.asym a b qa qb (sym (same a b qa qb) ∙ e);
    cotrans = λ a b c qa qb qc e. elim (h.cotrans a b c qa qb qc (sym (same a c qa qc) ∙ e)) [
      | inl l ↦ inl (same a b qa qb ∙ l)
      | inr r ↦ inr (same b c qb qc ∙ r)
    ];
  }

  nothing-IsStrictWeak : (Q : Row O → Type 0) → IsStrictWeak Q (λ a b. false)
  nothing-IsStrictWeak Q = record {
    asym = λ a b qa qb e. refl;
    cotrans = λ a b c qa qb qc e. absurd (true≢false (sym e));
  }

  less-IsStrictWeak :
      (Q : Row O → Type 0) (es : List (Expression O)) → AllRanked Q es → IsStrictWeak Q (less es)
  unfolding less
  less-IsStrictWeak Q [] h = nothing-IsStrictWeak Q
  less-IsStrictWeak Q (e ∷ es) h =
      agree Q (refined h.0.rank ltb (less es)) (less (e ∷ es)) (less_ranked Q e es h.0)
        (refined-IsStrictWeak h.0.rank ltb (less es) Q ltb-IsLinear (less-IsStrictWeak Q es h.1))

  greater-IsStrictWeak :
      (Q : Row O → Type 0) (es : List (Expression O)) → AllRanked Q es → IsStrictWeak Q (greater es)
  unfolding greater
  greater-IsStrictWeak Q [] h = nothing-IsStrictWeak Q
  greater-IsStrictWeak Q (e ∷ es) h =
      agree Q (refined h.0.rank falling (greater es)) (greater (e ∷ es)) (greater_ranked Q e es h.0)
        (refined-IsStrictWeak h.0.rank falling (greater es) Q falling-IsLinear
          (greater-IsStrictWeak Q es h.1))

  -- Over columns whose values compare like numbers, the order that Sort hands to `std::sort` is a
  -- strict weak one, in both directions, nulls included: what `std::sort` asks for.
  pub before-IsStrictWeak :
      (Q : Row O → Type 0) (asc : Bool) (es : List (Expression O))
      → AllRanked Q es
      → IsStrictWeak Q (before asc es)
  before-IsStrictWeak Q true es h = less-IsStrictWeak Q es h
  before-IsStrictWeak Q false es h = greater-IsStrictWeak Q es h
