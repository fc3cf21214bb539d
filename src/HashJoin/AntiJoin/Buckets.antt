-- ===== src/HashJoin/AntiJoin/Buckets.antt =====
-- The rows that `get_next_row` of HashNullAwareAntiJoin in sql/hash_join.cpp takes from the buckets.
use cat_db.Prelude.{
  ℕ, zero, suc, ◌+◌, ◌-◌, ◌≤◌, ◌<◌, ◌≡◌, refl, sym, ap, ◌∙◌, subst, List, [], ◌∷◌, ◌++◌, length,
  get_or, arith, ◌⊎◌, inl, inr,
}
use cat_db.Error.{Code, success}
use cat_db.HashTable.{next_from, skip_empty}
use cat_db.Row.{Row}

module _ {R : Type 0} where
  -- The rows of `n` buckets from `k` on.
  abbrev pub chunks : List (List R) → ℕ → ℕ → List R
  chunks bs k zero = []
  chunks bs k (suc n) = get_or bs k [] ++ chunks bs (k + 1) n

  get_or-end : (bs : List (List R)) (k : ℕ) → length bs ≤ k → get_or bs k [] ≡ []
  get_or-end [] k h = refl
  get_or-end (b ∷ bs) zero h = absurd (omega arith)
  get_or-end (b ∷ bs) (suc k) h = get_or-end bs k (omega arith)

  list_cases : (xs : List R) → (xs ≡ []) ⊎ ((y : R) × (ys : List R) × (xs ≡ y ∷ ys))
  list_cases [] = inl refl
  list_cases (y ∷ ys) = inr (y, ys, refl)

module _ {O : Type 0} where
  next_from-empty :
      (bs : List (List (Row O))) (i n : ℕ)
      → get_or bs (i + 1) [] ≡ []
      → next_from bs i (suc n) ≡ next_from bs (i + 1) n
  unfolding next_from
  next_from-empty bs i n e = rw (e, next_from) refl

  next_from-full :
      (bs : List (List (Row O))) (i n : ℕ) (x : Row O) (xs : List (Row O))
      → get_or bs (i + 1) [] ≡ x ∷ xs
      → next_from bs i (suc n) ≡ (success, i + 1)
  unfolding next_from
  next_from-full bs i n x xs e = rw (e, next_from) refl

  -- What is left from the bucket that a search has come to.
  pub record IsNext (bs : List (List (Row O))) (i n j : ℕ) : Type 0 where
    pub further : i < j
    pub within : j ≤ length bs
    pub same : chunks bs (i + 1) n ≡ chunks bs j (length bs - j)

  -- The next bucket that has rows: those that are passed over have none.
  pub next_from-IsNext :
      (bs : List (List (Row O))) (n i : ℕ)
      → i + suc n ≡ length bs
      → IsNext bs i n (next_from bs i (suc n)).1
  unfolding next_from
  next_from-IsNext bs zero i h =
      let none_there = get_or-end bs (i + 1) (omega (arith, h)) in
      let none_left : length bs - (i + 1) ≡ 0 = omega (arith, h) in
      subst (λ (r : Code × ℕ). IsNext bs i zero r.1) (sym (next_from-empty bs i zero none_there))
        (record {
          further = omega arith;
          within = omega (arith, h);
          same = ap (chunks bs (i + 1)) (sym none_left);
        })
  next_from-IsNext bs (suc n) i h = elim (list_cases (get_or bs (i + 1) [])) [
    | inl e ↦
        let ih = next_from-IsNext bs n (i + 1) (omega (arith, h)) in
        subst (λ (r : Code × ℕ). IsNext bs i (suc n) r.1) (sym (next_from-empty bs i (suc n) e))
          (record {
            further = omega (arith, ih.further);
            within = ih.within;
            same = ap (λ b. b ++ chunks bs (i + 1 + 1) n) e ∙ ih.same;
          })
    | inr full ↦
        let (x, xs, e) = full in
        let left : length bs - (i + 1) ≡ suc n = omega (arith, h) in
        subst (λ (r : Code × ℕ). IsNext bs i (suc n) r.1) (sym (next_from-full bs i (suc n) x xs e))
          (record {
            further = omega arith;
            within = omega (arith, h);
            same = ap (chunks bs (i + 1)) (sym left);
          })
  ]

  -- The first bucket that has rows.
  pub skip_empty-chunks :
      (bs : List (List (Row O))) (n i : ℕ)
      → i + n ≡ length bs
      → (skip_empty bs i n ≤ length bs)
        × (chunks bs i n ≡ chunks bs (skip_empty bs i n) (length bs - skip_empty bs i n))
  unfolding skip_empty
  skip_empty-chunks bs zero i h =
      let none_left : length bs - i ≡ 0 = omega (arith, h) in
      (omega (arith, h), ap (chunks bs i) (sym none_left))
  skip_empty-chunks bs (suc n) i h = elim (list_cases (get_or bs i [])) [
    | inl e ↦
        let (le, same) = skip_empty-chunks bs n (i + 1) (omega (arith, h)) in
        let skipped : skip_empty bs i (suc n) ≡ skip_empty bs (i + 1) n = rw (e, skip_empty) refl in
        subst (λ j. (j ≤ length bs) × (chunks bs i (suc n) ≡ chunks bs j (length bs - j)))
          (sym skipped) (le, ap (λ b. b ++ chunks bs (i + 1) n) e ∙ same)
    | inr full ↦
        let (x, xs, e) = full in
        let here : skip_empty bs i (suc n) ≡ i = rw (e, skip_empty) refl in
        let left : length bs - i ≡ suc n = omega (arith, h) in
        subst (λ j. (j ≤ length bs) × (chunks bs i (suc n) ≡ chunks bs j (length bs - j)))
          (sym here) (omega (arith, h), ap (chunks bs i) (sym left))
  ]
