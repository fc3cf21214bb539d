-- ===== src/HashJoin/AntiJoin/Table.antt =====
-- The rows that the table of HashNullAwareAntiJoin in sql/hash_join.cpp holds.
use cat_db.Prelude.{
  ℕ, zero, suc, ◌+◌, ◌≤◌, ◌≡◌, refl, ap, ◌∙◌, subst, Bool, true, false, not, ◌&&◌, ◌||◌, List, [],
  ◌∷◌, ◌++◌, Option, length, arith, Bool-cases, inl, inr, ltb, leb, ◌==◌,
}
use mathlib.Core.List.{append-nil, append_assoc, Perm}
use mathlib.Core.List.Perm
use cat_db.Expr.{Expression}
use cat_db.HashJoin.AntiJoin.{null_column, build_left, drop_found}
use cat_db.HashJoin.AntiJoin.Buckets.{chunks}
use cat_db.HashJoin.Rows.{either-Perm, keep_none}
use cat_db.HashTable.{HashTable, StdHash, build}
use cat_db.HashTable.Stored.{
  IsStored, AllMeeting, build-IsStored, drop-IsStored, keep-keep, keep-same,
}
use cat_db.Object.{ObjectClass}
use cat_db.Operator.Drain.{fold}
use cat_db.Relation.{AllOf-keep, AllOf-map, keep, meets}
use cat_db.Row.{Row}

keep_all : {R : Type 0} (xs : List R) → keep (λ x. true) xs ≡ xs
unfolding keep
keep_all [] = refl
keep_all (x ∷ xs) = ap (◌∷◌ x) (keep_all xs)

module _ {O : Type 0} ⦃class : ObjectClass O⦄ ⦃std : StdHash⦄ (home want : Row O → ℕ)
    (holds : Row O → Row O → Bool) where
  chunks-Perm :
      (t : HashTable O) (rows : List (Row O))
      → IsStored home want holds t rows
      → (n k : ℕ) → k + n ≤ length t.buckets
      → Perm (chunks t.buckets k n) (keep (λ a. leb k (home a) && ltb (home a) (k + n)) rows)
  chunks-Perm t rows h zero k le =
      let nothing =
        keep-same (λ a. leb k (home a) && ltb (home a) (k + 0)) (λ a. false) rows
          (λ a. ground arith) in
      rw (nothing, keep_none rows) Perm.rfl
  chunks-Perm t rows h (suc n) k le =
      let p = λ (a : Row O). home a == k in
      let q = λ (a : Row O). leb (k + 1) (home a) && ltb (home a) (k + 1 + n) in
      let later = chunks-Perm t rows h n (k + 1) (omega (arith, le)) in
      let apart = keep-same q (λ a. not (p a) && q a) rows (λ a. ground arith) in
      let either =
        keep-same (λ a. p a || q a) (λ a. leb k (home a) && ltb (home a) (k + suc n)) rows
          (λ a. ground arith) in
      rw (h.bucket_is k (omega (arith, le))) (
        subst (Perm (keep p rows ++ chunks t.buckets (k + 1) n)) either (
          Perm.trans
            (Perm.append_left (keep p rows) (subst (Perm (chunks t.buckets (k + 1) n)) apart later))
            (either-Perm p q rows)))

  -- The buckets have the rows of the table.
  pub stored-Perm :
      (t : HashTable O) (rows : List (Row O))
      → IsStored home want holds t rows
      → Perm (chunks t.buckets 0 (length t.buckets)) rows
  stored-Perm t rows h =
      let n = length t.buckets in
      let within =
        keep-same (λ a. leb 0 (home a) && ltb (home a) (0 + n)) (λ a. true) rows
          (λ a. let lt = h.home-lt a in ground (arith, lt)) in
      subst (Perm (chunks t.buckets 0 n)) (within ∙ keep_all rows)
        (chunks-Perm t rows h n 0 (omega arith))

  pub build_left-IsStored :
      (col : Option (Expression O)) (right_empty : Bool) (rest rows : List (Row O))
      (t : HashTable O)
      → IsStored home want holds t rows
      → IsStored home want holds
          (fold (build_left col right_empty) t rest)
          (rows ++ keep (λ l. not (not right_empty && null_column col l)) rest)
  unfolding fold keep
  build_left-IsStored col right_empty [] rows t h = rw append-nil h
  build_left-IsStored col right_empty (r ∷ rest) rows t h =
      elim (Bool-cases (not right_empty && null_column col r)) [
        | inl y ↦ rw y (build_left-IsStored col right_empty rest rows t h)
        | inr n ↦ rw n (
            subst
              (λ l. IsStored home want holds (fold (build_left col right_empty) (build t r) rest) l)
              (append_assoc rows (r ∷ []) _)
              (build_left-IsStored col right_empty rest (rows ++ r ∷ []) (build t r)
                (build-IsStored home want holds t rows r h)))
      ]

  pub drop_found-IsStored :
      (rest rows : List (Row O)) (t : HashTable O)
      → AllMeeting home want holds rest rows
      → IsStored home want holds t rows
      → IsStored home want holds
          (fold drop_found t rest)
          (keep (λ l. not (meets holds rest l)) rows)
  unfolding fold meets
  drop_found-IsStored [] rows t meet h = rw keep_all h
  drop_found-IsStored (r ∷ rest) rows t meet h =
      let both =
        keep-keep (λ l. not (meets holds rest l)) (λ l. not (holds r l)) rows
        ∙ keep-same (λ l. not (holds r l) && not (meets holds rest l))
            (λ l. not (holds r l || meets holds rest l)) rows (λ l. ground arith) in
      subst (IsStored home want holds (fold drop_found (drop_found t r) rest)) both (
        drop_found-IsStored rest (keep (λ l. not (holds r l)) rows) (drop_found t r)
          (AllOf-map _ _ rest (λ r'. AllOf-keep _ (λ l. not (holds r l)) rows) meet.1)
          (drop-IsStored home want holds t rows r meet.0 h))
