-- ===== src/Tests/Sort.antt =====
-- The theorems on Sort and TopNSort at a scripted child, with an insertion sort for `std::sort`.
use cat_db.Prelude.{
  ℕ, suc, ◌≡◌, ◌≢◌, refl, inl, inr, Bool, true, false, List, [], ◌∷◌, some, ◌==◌, arith, ltb,
  if◌then◌else◌, length, Bool-cases, get_or,
}
use Prim.Native.Nat.{min}
use mathlib.Core.List.{Perm, perm_append_singleton, ◌++◌}
use mathlib.Core.List.Perm
use cat_db.Error.{success, no_more_rows}
use cat_db.Expr.{Expression, plain}
use cat_db.Operator.{Delivers}
use cat_db.Relation.{AllOf}
use cat_db.Row.{Row}
use cat_db.Sort
use cat_db.Sort.Order.{IsStrictWeak, IsRanked}
use cat_db.Sort.Rows.{IsSorted, Sorts}
use cat_db.Sort.TopN
use cat_db.Sort.TopN.{StdHeap, topn_before}
use cat_db.Sort.TopN.Kept.{IsHeap, IsBehind}
use cat_db.Sort.TopN.Order.{topn_before-IsStrictWeak}
use cat_db.Sort.TopN.Rows.{topn_sort-Delivers}
use cat_db.Tests.Source.{Cell, null, missing, truth, num, cell_class, row, source, source-Delivers}

module _ {R : Type 0} where
  abbrev put : (R → R → Bool) → R → List R → List R
  put lt x [] = x ∷ []
  put lt x (y ∷ ys) = if lt y x then y ∷ put lt x ys else x ∷ y ∷ ys

  abbrev insertion_sort : (R → R → Bool) → List R → List R
  insertion_sort lt [] = []
  insertion_sort lt (x ∷ xs) = put lt x (insertion_sort lt xs)

  put-Perm : (lt : R → R → Bool) (x : R) (ys : List R) → Perm (x ∷ ys) (put lt x ys)
  put-Perm lt x [] = Perm.rfl
  put-Perm lt x (y ∷ ys) = elim (Bool-cases (lt y x)) [
    | inl t ↦ rw t (Perm.trans (Perm.swap y x ys) (Perm.cons y (put-Perm lt x ys)))
    | inr f ↦ rw f Perm.rfl
  ]

  put-AllOf :
      (Q : R → Type 0) (lt : R → R → Bool) (x : R) (ys : List R)
      → Q x
      → AllOf Q ys
      → AllOf Q (put lt x ys)
  put-AllOf Q lt x [] q h = (q, h)
  put-AllOf Q lt x (y ∷ ys) q h = elim (Bool-cases (lt y x)) [
    | inl t ↦ rw t (h.0, put-AllOf Q lt x ys q h.1)
    | inr f ↦ rw f (q, h)
  ]

  -- A row that is not behind the first is behind no later one.
  behind_all :
      (Q : R → Type 0) (lt : R → R → Bool) (h : IsStrictWeak Q lt) (x y : R) (ys : List R)
      → Q x
      → Q y
      → AllOf Q ys
      → lt y x ≡ false
      → AllOf (λ s. lt s y ≡ false) ys
      → AllOf (λ s. lt s x ≡ false) ys
  behind_all Q lt h x y [] qx qy qs f a = tt
  behind_all Q lt h x y (s ∷ ys) qx qy qs f a = (
    elim (Bool-cases (lt s x)) [
      | inl t ↦ elim (h.cotrans s y x qs.0 qy qx t) [
        | inl u ↦ ground (arith, a.0, u)
        | inr u ↦ ground (arith, f, u)
      ]
      | inr g ↦ g
    ],
    behind_all Q lt h x y ys qx qy qs.1 f a.1,
  )

  put-IsSorted :
      (Q : R → Type 0) (lt : R → R → Bool) (h : IsStrictWeak Q lt) (x : R) (ys : List R)
      → Q x
      → AllOf Q ys
      → IsSorted lt ys
      → IsSorted lt (put lt x ys)
  put-IsSorted Q lt h x [] qx qs s = (tt, tt)
  put-IsSorted Q lt h x (y ∷ ys) qx qs s = elim (Bool-cases (lt y x)) [
    | inl t ↦ rw t (
      put-AllOf (λ s. lt s y ≡ false) lt x ys (h.asym y x qs.0 qx t) s.0,
      put-IsSorted Q lt h x ys qx qs.1 s.1,
    )
    | inr f ↦ rw f ((f, behind_all Q lt h x y ys qx qs.0 qs.1 f s.0), s)
  ]

  insertion_sort-AllOf :
      (Q : R → Type 0) (lt : R → R → Bool) (xs : List R)
      → AllOf Q xs
      → AllOf Q (insertion_sort lt xs)
  insertion_sort-AllOf Q lt [] h = h
  insertion_sort-AllOf Q lt (x ∷ xs) h =
      put-AllOf Q lt x (insertion_sort lt xs) h.0 (insertion_sort-AllOf Q lt xs h.1)

  insertion_sort-Sorts : Sorts insertion_sort
  insertion_sort-Sorts Q lt [] all h = (Perm.rfl, tt)
  insertion_sort-Sorts Q lt (x ∷ xs) all h =
      let (p, s) = insertion_sort-Sorts Q lt xs all.1 h in
      let rest = insertion_sort lt xs in
      (
        Perm.trans (Perm.cons x p) (put-Perm lt x rest),
        put-IsSorted Q lt h x rest all.0 (insertion_sort-AllOf Q lt xs all.1) s,
      )

abbrev cell_rank : Cell → ℕ
cell_rank (num n) = suc n
cell_rank _ = 0

abbrev first : Expression Cell
first (plain r) = get_or r.cells 0 null
first _ = null

-- The first column is null or a number.
abbrev IsNumeric : Cell → Type 0
IsNumeric null = Unit
IsNumeric (num n) = Unit
IsNumeric _ = ⊥

first-IsRanked : IsRanked (λ r. IsNumeric (first (plain r))) first
first-IsRanked = record {
  rank = λ r. cell_rank (first (plain r));
  null_is = λ r q. null_case (first (plain r)) q;
  equal_is = λ l r ql qr pl pr. equal_case (first (plain l)) (first (plain r)) ql qr pl pr;
  greater_is = λ l r ql qr pl pr. greater_case (first (plain l)) (first (plain r)) ql qr pl pr;
}
  where
    null_case : (x : Cell) → IsNumeric x → cell_class.is_null x ≡ (cell_rank x == 0)
    null_case null q = refl
    null_case (num n) q = ground arith
    null_case missing q = elim q [ ]
    null_case (truth b) q = elim q [ ]

    equal_case :
        (x y : Cell)
        → IsNumeric x
        → IsNumeric y
        → cell_rank x ≢ 0
        → cell_rank y ≢ 0
        → cell_class.bool_value (cell_class.equal x y) ≡ (cell_rank x == cell_rank y)
    equal_case (num m) (num n) _ _ _ _ = ground arith
    equal_case null y _ _ p _ = absurd (p refl)
    equal_case missing y _ _ p _ = absurd (p refl)
    equal_case (truth b) y _ _ p _ = absurd (p refl)
    equal_case (num m) null _ _ _ p = absurd (p refl)
    equal_case (num m) missing _ _ _ p = absurd (p refl)
    equal_case (num m) (truth b) _ _ _ p = absurd (p refl)

    greater_case :
        (x y : Cell)
        → IsNumeric x
        → IsNumeric y
        → cell_rank x ≢ 0
        → cell_rank y ≢ 0
        → cell_class.bool_value (cell_class.greater x y) ≡ ltb (cell_rank y) (cell_rank x)
    greater_case (num m) (num n) _ _ _ _ = ground arith
    greater_case null y _ _ p _ = absurd (p refl)
    greater_case missing y _ _ p _ = absurd (p refl)
    greater_case (truth b) y _ _ p _ = absurd (p refl)
    greater_case (num m) null _ _ _ p = absurd (p refl)
    greater_case (num m) missing _ _ _ p = absurd (p refl)
    greater_case (num m) (truth b) _ _ _ p = absurd (p refl)

abbrev unsorted : List (Row Cell)
unsorted =
    row 1 (num 4 ∷ []) ∷ row 1 (null ∷ []) ∷ row 1 (num 9 ∷ []) ∷ row 1 (num 4 ∷ num 1 ∷ []) ∷ []

module _ {R : Type 0} where
  abbrev flipped : (R → R → Bool) → R → R → Bool
  flipped lt a b = lt b a

  abbrev front_to_back : List R → List R
  front_to_back [] = []
  front_to_back (x ∷ xs) = xs ++ x ∷ []

  -- A heap that is sorted, with the last row in front.
  abbrev sorted_heap : StdHeap R
  sorted_heap = record {
    make_heap = λ lt. insertion_sort (flipped lt);
    pop_heap = λ lt. front_to_back;
    push_heap = λ lt. insertion_sort (flipped lt);
    std_sort = insertion_sort;
  }

  flipped-IsStrictWeak :
      (Q : R → Type 0) (lt : R → R → Bool) → IsStrictWeak Q lt → IsStrictWeak Q (flipped lt)
  flipped-IsStrictWeak Q lt h = record {
    asym = λ a b qa qb. h.asym b a qb qa;
    cotrans =
        λ a b c qa qb qc t. elim (h.cotrans c b a qc qb qa t) [ inl l ↦ inr l | inr r ↦ inl r ];
  }

  sorted_heap-IsHeap :
      (Q : R → Type 0) (lt : R → R → Bool) → IsStrictWeak Q lt → IsHeap sorted_heap Q lt
  sorted_heap-IsHeap Q lt h =
      let sorts : (rows : List R)
          → AllOf Q rows
          → Perm rows (insertion_sort (flipped lt) rows)
            × IsSorted (flipped lt) (insertion_sort (flipped lt) rows) =
        λ rows all. insertion_sort-Sorts Q (flipped lt) rows all (flipped-IsStrictWeak Q lt h) in
      record {
        Heaped = IsSorted (flipped lt);
        made = sorts;
        top = λ x rows s. s.0;
        popped = λ x rows s. (rows, refl, Perm.rfl, s.1);
        pushed = λ rest row s all.
            let (p, s') = sorts (rest ++ row ∷ []) all in
            (Perm.trans (Perm.symm (perm_append_singleton row rest)) p, s');
      }

abbrev IsPositive : Cell → Type 0
IsPositive (num n) = Unit
IsPositive _ = ⊥

IsPositive-prop : (x : Cell) → IsProp (IsPositive x)
IsPositive-prop (num n) = hlevel
IsPositive-prop missing = hlevel
IsPositive-prop null = hlevel
IsPositive-prop (truth b) = hlevel

IsPositive-IsNumeric : (x : Cell) → IsPositive x → IsNumeric x
IsPositive-IsNumeric (num n) h = tt
IsPositive-IsNumeric null h = elim h [ ]
IsPositive-IsNumeric missing h = elim h [ ]
IsPositive-IsNumeric (truth b) h = elim h [ ]

IsPositive-present : (x : Cell) → IsPositive x → cell_class.is_null x ≡ false
IsPositive-present (num n) h = refl
IsPositive-present null h = elim h [ ]
IsPositive-present missing h = elim h [ ]
IsPositive-present (truth b) h = elim h [ ]

abbrev IsPlain : Row Cell → Type 0
IsPlain r = IsPositive (first (plain r))

first-IsRanked_narrow : IsRanked IsPlain first
first-IsRanked_narrow =
    let numeric : (r : Row Cell) → IsPlain r → IsNumeric (first (plain r)) =
      λ r. IsPositive-IsNumeric (first (plain r)) in
    record {
      rank = first-IsRanked.rank;
      null_is = λ r q. first-IsRanked.null_is r (numeric r q);
      equal_is = λ l r ql qr. first-IsRanked.equal_is l r (numeric l ql) (numeric r qr);
      greater_is = λ l r ql qr. first-IsRanked.greater_is l r (numeric l ql) (numeric r qr);
    }

abbrev positives : List (Row Cell)
positives =
    row 1 (num 4 ∷ []) ∷ row 1 (num 7 ∷ []) ∷ row 1 (num 2 ∷ []) ∷ row 1 (num 4 ∷ num 1 ∷ []) ∷ []

topn_sort-Delivers_example :
    (t : List (Row Cell) × List (Row Cell) × ℕ) × (sorted : List (Row Cell)) × (dropped : List
      (Row Cell))
    × (TopN.open_op sorted_heap 2 (first ∷ []) true 9 source (positives, [], 3) ≡ some (success, t))
    × Delivers (TopN.get_next_row sorted_heap 2 (first ∷ []) true 9 source) no_more_rows sorted t
    × Perm positives (sorted ++ dropped)
    × IsSorted (topn_before true (first ∷ [])) sorted
    × AllOf (IsBehind (topn_before true (first ∷ [])) sorted) dropped
    × (length sorted ≡ min 2 (length positives))
topn_sort-Delivers_example =
    topn_sort-Delivers sorted_heap 2 (first ∷ []) true 9 source IsPlain positives positives
      positives [] 3 no_more_rows (λ r. IsPositive-prop (first (plain r)))
      (sorted_heap-IsHeap IsPlain (topn_before true (first ∷ [])) (
        topn_before-IsStrictWeak IsPlain true (first ∷ []) (first-IsRanked_narrow, tt)
          ((λ r. IsPositive-present (first (plain r))), tt)))
      insertion_sort-Sorts (first-IsRanked_narrow, tt)
      ((λ r. IsPositive-present (first (plain r))), tt) (tt, (tt, (tt, (tt, tt)))) (omega arith)
      (omega arith) refl (source-Delivers positives)
