-- ===== src/Sort/TopN/Kept.antt =====
-- The rows that TopNSort of sql/sort.cpp keeps, and those that it drops.
use cat_db.Relation.{AllOf, AllOf-map}
use cat_db.Prelude.{◌≡◌, inl, inr, Bool, false, List, [], ◌∷◌, ◌++◌, arith, Bool-cases}
use mathlib.Core.Bool.{Bool-set}
use mathlib.Core.List.{Perm}
use cat_db.Sort.Order.{IsStrictWeak}
use cat_db.Sort.Perms.{AllOf-zip, AllOf-Perm}
use cat_db.Sort.TopN.{StdHeap}

-- What the standard library says of its heaps: the first row of a heap comes before no other, `pop_heap`
-- leaves a heap of the others and the first row behind it, and `push_heap` takes the last row in.
pub record IsHeap {R : Type 0} (heap : StdHeap R) (Q : R → Type 0) (lt : R → R → Bool)
    : Type 1 where
  pub Heaped : List R → Type 0
  pub made :
      (rows : List R)
      → AllOf Q rows
      → Perm rows (heap.make_heap lt rows) × Heaped (heap.make_heap lt rows)
  pub top : (h : R) (rows : List R) → Heaped (h ∷ rows) → AllOf (λ k. lt h k ≡ false) rows
  pub popped :
      (h : R) (rows : List R)
      → Heaped (h ∷ rows)
      → (rest : List R) × (heap.pop_heap lt (h ∷ rows) ≡ rest ++ h ∷ [])
        × Perm rows rest
        × Heaped rest
  pub pushed :
      (rest : List R) (row : R)
      → Heaped rest
      → AllOf Q (rest ++ row ∷ [])
      → Perm (row ∷ rest) (heap.push_heap lt (rest ++ row ∷ []))
        × Heaped (heap.push_heap lt (rest ++ row ∷ []))

module _ {R : Type 0} (lt : R → R → Bool) where
  -- A dropped row comes before none of the rows that are kept.
  abbrev pub IsBehind : List R → R → Type 0
  IsBehind kept d = AllOf (λ k. lt d k ≡ false) kept

  pub IsBehind-Perm : {xs ys : List R} → Perm xs ys → (d : R) → IsBehind xs d → IsBehind ys d
  IsBehind-Perm p d = AllOf-Perm (λ k. lt d k ≡ false) (λ k. Bool-set (lt d k) false) p

  pub AllOf-IsBehind-Perm :
      {xs ys : List R}
      → Perm xs ys
      → (dropped : List R) → AllOf (IsBehind xs) dropped
      → AllOf (IsBehind ys) dropped
  AllOf-IsBehind-Perm {xs} {ys} p dropped =
      AllOf-map (IsBehind xs) (IsBehind ys) dropped (λ d. IsBehind-Perm p d)

  -- A row that comes before no `h` comes before none of the rows that `h` does not come before.
  pub IsBehind-trans :
      (Q : R → Type 0)
      → IsStrictWeak Q lt
      → (d h : R) (kept : List R) → Q d
      → Q h
      → AllOf Q kept
      → lt d h ≡ false
      → IsBehind kept h
      → IsBehind kept d
  IsBehind-trans Q sw d h kept qd qh qs dh hk =
      AllOf-zip Q (λ k. lt h k ≡ false) (λ k. lt d k ≡ false) kept
        (λ k qk hk. elim (Bool-cases (lt d k)) [
          | inl t ↦ elim (sw.cotrans d h k qd qh qk t) [
            | inl u ↦ ground (arith, dh, u)
            | inr u ↦ ground (arith, hk, u)
          ]
          | inr f ↦ f
        ])
        qs hk

  -- The rows behind `h` and the others stay behind when a row that `h` does not come before takes its place.
  pub AllOf-IsBehind-replaced :
      (Q : R → Type 0)
      → IsStrictWeak Q lt
      → (h row : R) (ks dropped : List R) → Q h
      → Q row
      → AllOf Q dropped
      → lt h row ≡ false
      → AllOf (IsBehind (h ∷ ks)) dropped
      → AllOf (IsBehind (row ∷ ks)) dropped
  AllOf-IsBehind-replaced Q sw h row ks dropped qh qr qd hr =
      AllOf-zip Q (IsBehind (h ∷ ks)) (IsBehind (row ∷ ks)) dropped
        (λ d qd b. (
          (elim (Bool-cases (lt d row)) [
            | inl t ↦ elim (sw.cotrans d h row qd qh qr t) [
              | inl u ↦ ground (arith, b.0, u)
              | inr u ↦ ground (arith, hr, u)
            ]
            | inr f ↦ f
          ]),
          b.1,
        ))
        qd
