-- ===== src/Relation.antt =====
-- What the set operators of sql/hash_set.cpp and sql/hash_distinct.cpp promise, over lists of rows and
-- a test by which an earlier row stands for a later one. Nothing here models code.
use cat_db.Prelude.{
  ◌≡◌, refl, ap, sym, ◌∙◌, subst, ◌⊎◌, inl, inr, Bool, true, false, ◌||◌, List, [], ◌∷◌, ◌++◌,
  if◌then◌else◌, Bool-cases, arith,
}
use mathlib.Core.List.{append_assoc}

module _ {R : Type 0} where
  -- The list comes in order from the other, by leaving rows out.
  abbrev pub IsPart : List R → List R → Type 0
  IsPart xs [] = xs ≡ []
  IsPart xs (r ∷ rows) = IsPart xs rows ⊎ ((rest : List R) × (xs ≡ r ∷ rest) × IsPart rest rows)

  abbrev pub AllOf : (R → Type 0) → List R → Type 0
  AllOf Q [] = Unit
  AllOf Q (r ∷ rows) = Q r × AllOf Q rows

  pub AllOf-map :
      (P Q : R → Type 0) (rows : List R) → ((r : R) → P r → Q r) → AllOf P rows → AllOf Q rows
  AllOf-map P Q [] f h = tt
  AllOf-map P Q (r ∷ rows) f h = (f r h.0, AllOf-map P Q rows f h.1)

  -- The rows of the list that pass the test.
  unfoldable pub keep : (R → Bool) → List R → List R
  keep p [] = []
  keep p (r ∷ rows) = let rest = keep p rows in if p r then r ∷ rest else rest

  pub AllOf-keep :
      (Q : R → Type 0) (p : R → Bool) (rows : List R) → AllOf Q rows → AllOf Q (keep p rows)
  unfolding keep
  AllOf-keep Q p [] h = tt
  AllOf-keep Q p (r ∷ rows) h = elim (Bool-cases (p r)) [
    | inl y ↦ rw y (h.0, AllOf-keep Q p rows h.1)
    | inr n ↦ rw n (AllOf-keep Q p rows h.1)
  ]

module _ {R : Type 0} (f : R → R → Bool) where
  -- Some row of the list stands for `b`.
  unfoldable pub meets : List R → R → Bool
  meets [] b = false
  meets (a ∷ rows) b = f a b || meets rows b

  -- The rows that none before them stands for, `seen` counted among those before.
  unfoldable pub unique : List R → List R → List R
  unique seen [] = []
  unique seen (r ∷ rows) =
      let rest = unique (seen ++ r ∷ []) rows in
      let others = unique seen rows in if meets seen r then others else r ∷ rest

  -- No row of `seen`, and none of the list, stands for a later one of the list.
  abbrev pub IsUnique : List R → List R → Type 0
  IsUnique seen [] = Unit
  IsUnique seen (r ∷ rows) = (meets seen r ≡ false) × IsUnique (seen ++ r ∷ []) rows

  pub unique-IsUnique : (seen rows : List R) → IsUnique seen (unique seen rows)
  unfolding unique
  unique-IsUnique seen [] = tt
  unique-IsUnique seen (r ∷ rows) = elim (Bool-cases (meets seen r)) [
    | inl e ↦ rw e (unique-IsUnique seen rows)
    | inr e ↦ rw e (e, unique-IsUnique (seen ++ r ∷ []) rows)
  ]

  meets_one : (a b : R) → meets (a ∷ []) b ≡ f a b
  unfolding meets
  meets_one a b = ground arith

  pub meets-append : (xs ys : List R) (b : R) → meets (xs ++ ys) b ≡ meets xs b || meets ys b
  unfolding meets
  meets-append [] ys b = refl
  meets-append (x ∷ xs) ys b = ground (arith, meets-append xs ys b)

  pub unique-IsPart : (seen rows : List R) → IsPart (unique seen rows) rows
  unfolding unique
  unique-IsPart seen [] = refl
  unique-IsPart seen (r ∷ rows) = elim (Bool-cases (meets seen r)) [
    | inl e ↦ rw e (inl (unique-IsPart seen rows))
    | inr e ↦ rw e (inr (_, refl, unique-IsPart (seen ++ r ∷ []) rows))
  ]

  -- Some row of `out` stands for each row of the list.
  abbrev pub Covers : List R → List R → Type 0
  Covers out [] = Unit
  Covers out (r ∷ rows) = (meets out r ≡ true) × Covers out rows

  pub unique_nil : (seen : List R) → unique seen [] ≡ []
  unfolding unique
  unique_nil seen = refl

  pub unique_old :
      (seen : List R) (r : R) (rows : List R)
      → meets seen r ≡ true
      → unique seen (r ∷ rows) ≡ unique seen rows
  unfolding unique
  unique_old seen r rows e = rw e

  pub unique_new :
      (seen : List R) (r : R) (rows : List R)
      → meets seen r ≡ false
      → unique seen (r ∷ rows) ≡ r ∷ unique (seen ++ r ∷ []) rows
  unfolding unique
  unique_new seen r rows e = rw e

  pub unique-Covers :
      (seen rows : List R) → AllOf (λ r. f r r ≡ true) rows → Covers (seen ++ unique seen rows) rows
  unique-Covers seen [] itself = tt
  unique-Covers seen (r ∷ rows) itself = elim (Bool-cases (meets seen r)) [
    | inl e ↦
        subst (λ (o : List R). Covers o (r ∷ rows))
          (ap (◌++◌ seen) (sym (unique_old seen r rows e)))
          (ground (arith, meets-append seen (unique seen rows) r), unique-Covers seen rows itself.1)
    | inr e ↦
        let rest = unique (seen ++ r ∷ []) rows in
        subst (λ (o : List R). Covers o (r ∷ rows))
          (append_assoc seen (r ∷ []) rest ∙ ap (◌++◌ seen) (sym (unique_new seen r rows e)))
          (
            ground (
              arith,
              meets-append (seen ++ r ∷ []) rest r,
              meets-append seen (r ∷ []) r,
              meets_one r r,
              itself.0,
            ),
            unique-Covers (seen ++ r ∷ []) rows itself.1,
          )
  ]

  -- Of rows that are all stood for, none is new.
  pub unique_covered : (seen rows : List R) → Covers seen rows → unique seen rows ≡ []
  unique_covered seen [] h = unique_nil seen
  unique_covered seen (r ∷ rows) h = unique_old seen r rows h.0 ∙ unique_covered seen rows h.1
