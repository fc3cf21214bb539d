-- ===== src/HashJoin/Rows.antt =====
-- The rows that the joins of sql/hash_join.cpp deliver.
use cat_db.Prelude.{
  ℕ, ◌<◌, ◌≡◌, refl, sym, ap, ◌∙◌, subst, Bool, false, not, ◌&&◌, ◌||◌, List, [], ◌∷◌, ◌++◌, some,
  length, get_or, Bool-cases, inl, inr,
}
use mathlib.Core.List.{Perm, perm_middle}
use mathlib.Core.List.Perm
use cat_db.Error.{Code, success, no_more_rows}
use cat_db.HashJoin.{State, open_op, build_hash_table, join, semi_join, get_next_row, no_probe_row}
use cat_db.HashJoin.Probing.{pairs, outs, probing-Delivers}
use cat_db.NestedLoop.{inner_join, semi_join_type}
use cat_db.HashTable.{HashTable, StdHash, slot, build, probe_holds, probe_and_drop}
use cat_db.HashTable.Probe.{IsTable}
use cat_db.HashTable.Stored.{
  IsStored, AllMeeting, empty-IsStored, fold-IsStored, drop-IsStored, keep-keep,
}
use cat_db.Object.{ObjectClass}
use cat_db.Operator.{PhyOperator, Delivers}
use cat_db.Operator.Drain.{drain-fold, fold}
use cat_db.Relation.{AllOf-keep, keep, meets}
use cat_db.Row.{Row, join_row}

keep_out :
    {R : Type 0} (p : R → Bool) (x : R) (xs : List R) → p x ≡ false → keep p (x ∷ xs) ≡ keep p xs
unfolding keep
keep_out p x xs n = rw n refl

module _ {O : Type 0} ⦃class : ObjectClass O⦄ (holds : Row O → Row O → Bool) where
  -- Each right row in turn with the left rows that belong to it.
  abbrev pub hash_product : List (Row O) → List (Row O) → List (Row O)
  hash_product = pairs holds (λ r ls. ls) (λ l r. join_row l r)

module _ {O : Type 0} (holds : Row O → Row O → Bool) where
  abbrev pub others : Row O → List (Row O) → List (Row O)
  others r ls = keep (λ l. not (holds r l)) ls

  abbrev pub semi_rows : List (Row O) → List (Row O) → List (Row O)
  semi_rows = pairs holds others (λ l r. l)

  outs_same : (r : Row O) (ls : List (Row O)) → outs holds others (λ l r. l) r ls ≡ ls
  outs_same r [] = refl
  outs_same r (l ∷ ls) = ap (◌∷◌ l) (outs_same r ls)

  others_none : (r : Row O) (ls : List (Row O)) → keep (holds r) ls ≡ [] → others r ls ≡ ls
  unfolding keep
  others_none r [] e = refl
  others_none r (l ∷ ls) e = elim (Bool-cases (holds r l)) [
    | inl y ↦ absurd cc
    | inr n ↦ rw n (ap (◌∷◌ l) (others_none r ls (sym (keep_out (holds r) l ls n) ∙ e)))
  ]

pub keep_none : {R : Type 0} (xs : List R) → keep (λ x. false) xs ≡ []
unfolding keep
keep_none [] = refl
keep_none (x ∷ xs) = keep_none xs

module _ {R : Type 0} (p q : R → Bool) where
  pub either-Perm :
      (xs : List R)
      → Perm (keep p xs ++ keep (λ x. not (p x) && q x) xs) (keep (λ x. p x || q x) xs)
  unfolding keep
  either-Perm [] = Perm.rfl
  either-Perm (x ∷ xs) = elim (Bool-cases (p x)) [
    | inl y ↦ rw y (Perm.cons x (either-Perm xs))
    | inr n ↦ elim (Bool-cases (q x)) [
      | inl y ↦
          rw (n, y)
            (Perm.trans (perm_middle (keep p xs) (keep (λ x. not (p x) && q x) xs))
              (Perm.cons x (either-Perm xs)))
      | inr n' ↦ rw (n, n') (either-Perm xs)
    ]
  ]

module _ {O : Type 0} (holds : Row O → Row O → Bool) where
  -- Semi join: once each, the left rows that belong to some right row.
  pub semi_rows-Perm :
      (rs ls : List (Row O)) → Perm (semi_rows holds ls rs) (keep (λ l. meets holds rs l) ls)
  unfolding meets keep
  semi_rows-Perm [] ls = rw (keep_none ls) Perm.rfl
  semi_rows-Perm (r ∷ rs) ls =
      let later = semi_rows-Perm rs (others holds r ls) in
      let flat = keep-keep (λ l. meets holds rs l) (λ l. not (holds r l)) ls in
      rw (outs_same holds r (keep (holds r) ls)) (
        Perm.trans
          (Perm.append_left (keep (holds r) ls)
            (subst (Perm (semi_rows holds (others holds r ls) rs)) flat later))
          (either-Perm (holds r) (λ l. meets holds rs l) ls))

module _ {O : Type 0} ⦃class : ObjectClass O⦄ ⦃std : StdHash⦄ where
  -- A table without rows.
  pub record IsReady (t : HashTable O) : Type 0 where
    pub table : IsTable t
    pub empty : (k : ℕ) → get_or t.buckets k [] ≡ []

  -- Each row of `rs` is hashed as those of `ls` are that pass the condition with it.
  abbrev pub AllHashedAlike : HashTable O → List (Row O) → List (Row O) → Type 0
  AllHashedAlike t rs ls =
      AllMeeting (slot t t.hash_cols) (slot t t.probe_cols) (probe_holds t) rs ls

module _ {O : Type 0} ⦃class : ObjectClass O⦄ ⦃std : StdHash⦄ (fuel : ℕ)
    (left right : PhyOperator O) where
  module _ (t : HashTable O) (ready : IsReady t) where
    -- After open, the table holds the left rows.
    open_op-IsStored :
        (sl sl' : left.State) (sr sr' : right.State) (ls : List (Row O)) (c : Code)
        → length ls < fuel
        → left.open_op sl ≡ some (success, sl')
        → right.open_op sr ≡ some (success, sr')
        → Delivers left.get_next_row c ls sl'
        → (sl'' : left.State) × (t' : HashTable O) × (open_op fuel left right (
          (sl, sr),
          record { hash_table = t; probe_result = []; last_probe_row = no_probe_row },
        )
            ≡ some (
              success,
              (
                (sl'', sr'),
                record { hash_table = t'; probe_result = []; last_probe_row = no_probe_row },
              ),
            ))
          × IsStored (slot t t.hash_cols) (slot t t.probe_cols) (probe_holds t) t' ls
    unfolding open_op build_hash_table
    open_op-IsStored sl sl' sr sr' ls c h el er d =
        let (sl'', run, ended) = drain-fold left.get_next_row build fuel t sl' c ls d h in
        (
          sl'',
          fold build t ls,
          rw (el, er, run) refl,
          fold-IsStored (slot t t.hash_cols) (slot t t.probe_cols) (probe_holds t) ls [] t
              (empty-IsStored t ready.table ready.empty),
        )

    -- A hash join over a table without rows opens, and delivers for each right row in turn the left rows
    -- that pass the condition with it, joined with it. The condition is that a left and a right row of
    -- the children which pass together are hashed alike; the fuel exceeds the number of their rows.
    pub hash_join-Delivers :
        (sl sl' : left.State) (sr sr' : right.State) (ls rs : List (Row O)) (c d : Code)
        → length ls < fuel
        → length rs < fuel
        → AllHashedAlike t rs ls
        → left.open_op sl ≡ some (success, sl')
        → right.open_op sr ≡ some (success, sr')
        → Delivers left.get_next_row c ls sl'
        → Delivers right.get_next_row d rs sr'
        → (p : State fuel left right) × (open_op fuel left right (
          (sl, sr),
          record { hash_table = t; probe_result = []; last_probe_row = no_probe_row },
        )
            ≡ some (success, p))
          × Delivers
              (get_next_row fuel left right inner_join)
              no_more_rows
              (hash_product (probe_holds t) ls rs)
              p
    unfolding get_next_row join
    hash_join-Delivers sl sl' sr sr' ls rs c d hl hr meet el er dl dr =
        let (sl'', t', run, stored) = open_op-IsStored sl sl' sr sr' ls c hl el er dl in
        (
          (
            (sl'', sr'),
            record { hash_table = t'; probe_result = []; last_probe_row = no_probe_row },
          ),
          run,
          probing-Delivers fuel left right (λ t r. t) (λ l r. join_row l r) (slot t t.hash_cols)
              (slot t t.probe_cols) (probe_holds t) (λ r ls. ls) (λ t ls r m h. h) (λ r r' ls m. m)
              (λ r ls e. refl) rs ls sl'' sr' t' no_probe_row d hr meet stored dr,
        )

    -- A hash semi join over a table without rows opens, and delivers the left rows that pass the
    -- condition with some right row, each once and in some order. The condition is that a left and a
    -- right row of the children which pass together are hashed alike; the fuel exceeds the number of
    -- their rows.
    pub semi_join-Delivers :
        (sl sl' : left.State) (sr sr' : right.State) (ls rs : List (Row O)) (c d : Code)
        → length ls < fuel
        → length rs < fuel
        → AllHashedAlike t rs ls
        → left.open_op sl ≡ some (success, sl')
        → right.open_op sr ≡ some (success, sr')
        → Delivers left.get_next_row c ls sl'
        → Delivers right.get_next_row d rs sr'
        → (p : State fuel left right) × (out : List (Row O)) × (open_op fuel left right (
          (sl, sr),
          record { hash_table = t; probe_result = []; last_probe_row = no_probe_row },
        )
            ≡ some (success, p))
          × Delivers (get_next_row fuel left right semi_join_type) no_more_rows out p
          × Perm out (keep (λ l. meets (probe_holds t) rs l) ls)
    unfolding get_next_row semi_join
    semi_join-Delivers sl sl' sr sr' ls rs c d hl hr meet el er dl dr =
        let (sl'', t', run, stored) = open_op-IsStored sl sl' sr sr' ls c hl el er dl in
        (
          (
            (sl'', sr'),
            record { hash_table = t'; probe_result = []; last_probe_row = no_probe_row },
          ),
          semi_rows (probe_holds t) ls rs,
          run,
          probing-Delivers fuel left right (λ t r. (probe_and_drop t r).1) (λ l r. l)
              (slot t t.hash_cols) (slot t t.probe_cols) (probe_holds t) (others (probe_holds t))
              (drop-IsStored (slot t t.hash_cols) (slot t t.probe_cols) (probe_holds t))
              (λ r r' ls. AllOf-keep _ (λ l. not (probe_holds t r l)) ls)
              (others_none (probe_holds t)) rs ls sl'' sr' t' no_probe_row d hr meet stored dr,
          semi_rows-Perm (probe_holds t) rs ls,
        )
