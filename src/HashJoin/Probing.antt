-- ===== src/HashJoin/Probing.antt =====
-- The loop that `join` and `semi_join` of sql/hash_join.cpp share, call after call.
use cat_db.Prelude.{
  ℕ, zero, suc, ◌<◌, ◌≡◌, refl, sym, ap, ◌∙◌, subst, Bool, List, [], ◌∷◌, ◌++◌, length, get_or,
  arith,
}
use cat_db.Error.{Code, success, row_not_found, no_more_rows}
use cat_db.HashJoin.{State, take_probed, probe_loop, next_probed}
use cat_db.HashTable.{HashTable, StdHash, slot, matching, probe_out}
use cat_db.HashTable.Stored.{IsStored, Meeting, AllMeeting, matching-IsStored}
use cat_db.Object.{ObjectClass}
use cat_db.Operator.{
  PhyOperator, Fetch, fetched, failed, Delivers, Ended, Ended-next, Ended-intro, Yields,
  Yields-Delivers,
}
use cat_db.Relation.{AllOf-map, keep}
use cat_db.Row.{Row}

module _ {O : Type 0} (holds : Row O → Row O → Bool)
    (left_over : Row O → List (Row O) → List (Row O)) (out : Row O → Row O → Row O) where
  abbrev pub outs : Row O → List (Row O) → List (Row O)
  outs r [] = []
  outs r (l ∷ ls) = out l r ∷ outs r ls

  -- Each row on the right in turn finds the rows that belong to it, among those that are left over.
  abbrev pub pairs : List (Row O) → List (Row O) → List (Row O)
  pairs ls [] = []
  pairs ls (r ∷ rs) = outs r (keep (holds r) ls) ++ pairs (left_over r ls) rs

module _ {O : Type 0} ⦃class : ObjectClass O⦄ ⦃std : StdHash⦄ where
  probe_out_queue :
      (t : HashTable O) (r : Row O) (rows : List (Row O))
      → matching t r (get_or t.buckets (slot t t.probe_cols r) []) ≡ rows
      → probe_out t r [] ≡ (elim rows [ [] ↦ row_not_found | x ∷ xs ↦ success ], rows)
  unfolding probe_out
  probe_out_queue t r rows e =
      ap (λ (l : List (Row O)). (elim l [ [] ↦ row_not_found | x ∷ xs ↦ success ], l)) e

module _ {O : Type 0} ⦃class : ObjectClass O⦄ ⦃std : StdHash⦄ (fuel : ℕ)
    (left right : PhyOperator O) (found : HashTable O → Row O → HashTable O)
    (out : Row O → Row O → Row O) (home want : Row O → ℕ) (holds : Row O → Row O → Bool)
    (left_over : Row O → List (Row O) → List (Row O))
    (found-IsStored : (t : HashTable O) (rows : List (Row O)) (r : Row O)
      → Meeting home want holds r rows
      → IsStored home want holds t rows
      → IsStored home want holds (found t r) (left_over r rows))
    (left_over-Meeting : (r r' : Row O) (rows : List (Row O))
      → Meeting home want holds r' rows
      → Meeting home want holds r' (left_over r rows))
    (left_over_none : (r : Row O) (rows : List (Row O))
      → keep (holds r) rows ≡ []
      → left_over r rows ≡ rows) where
  abbrev next : State fuel left right → Fetch (State fuel left right) (Row O)
  next = next_probed fuel left right found out

  abbrev at : left.State → right.State → HashTable O → List (Row O) → Row O → State fuel left right
  at sl s t queue row =
      ((sl, s), record { hash_table = t; probe_result = queue; last_probe_row = row })

  loop_ended :
      (f : ℕ) (sl : left.State) (s s' : right.State) (t : HashTable O) (row : Row O) (c : Code)
      → 0 < f
      → right.get_next_row s ≡ failed c s'
      → probe_loop fuel left right found out f (at sl s t [] row)
        ≡ failed no_more_rows (at sl s' t [] row)
  unfolding probe_loop
  loop_ended zero sl s s' t row c pos e = absurd (omega arith)
  loop_ended (suc f) sl s s' t row c pos e = rw (e, probe_loop) refl

  at_end :
      (sl : left.State) (s : right.State) (t : HashTable O) (row : Row O) (c : Code)
      → 0 < fuel
      → Ended right.get_next_row c s
      → Ended next no_more_rows (at sl s t [] row)
  unfolding next_probed
  at_end sl s t row c pos ended n =
      Ended-intro next
        (λ p. (s : right.State) × (p ≡ at sl s t [] row) × Ended right.get_next_row c s)
        no_more_rows
        (λ p (s0, here, ended0).
          let (s', e, ended') = Ended-next right.get_next_row c s0 ended0 in
          (
            at sl s' t [] row,
            ap next here ∙ loop_ended fuel sl s0 s' t row c pos e,
            (s', refl, ended'),
          ))
        n (at sl s t [] row) (s, refl, ended)

  -- The queue is delivered first.
  queue_first :
      (sl : left.State) (s : right.State) (t : HashTable O) (row : Row O)
      (rest queue : List (Row O))
      → Delivers next no_more_rows rest (at sl s t [] row)
      → Delivers next no_more_rows
          (outs holds left_over out row queue ++ rest)
          (at sl s t queue row)
  unfolding next_probed take_probed
  queue_first sl s t row rest [] d = d
  queue_first sl s t row rest (l ∷ queue) d =
      (at sl s t queue row, refl, queue_first sl s t row rest queue d)

  -- Where the row has found none, the loop goes on.
  abbrev after_probe :
      ℕ
      → left.State
      → right.State
      → HashTable O
      → Row O
      → Row O
      → List (Row O)
      → Fetch (State fuel left right) (Row O)
  after_probe f sl s t row r [] = probe_loop fuel left right found out f (at sl s t [] row)
  after_probe f sl s t row r (l ∷ ls) = fetched (out l r) (at sl s (found t r) ls r)

  probe_round :
      (f : ℕ) (sl : left.State) (s s' : right.State) (t : HashTable O) (row r : Row O)
      (rows : List (Row O))
      → right.get_next_row s ≡ fetched r s'
      → matching t r (get_or t.buckets (slot t t.probe_cols r) []) ≡ rows
      → probe_loop fuel left right found out (suc f) (at sl s t [] row)
        ≡ after_probe f sl s' t row r rows
  unfolding probe_loop take_probed
  probe_round f sl s s' t row r [] e m = rw (e, probe_loop, probe_out_queue t r [] m) refl
  probe_round f sl s s' t row r (l ∷ ls) e m =
      rw (e, probe_loop, probe_out_queue t r (l ∷ ls) m) refl

  round-Yields :
      (f : ℕ) (sl : left.State) (s : right.State) (t : HashTable O) (row r : Row O)
      (rs ls rows : List (Row O))
      → keep (holds r) ls ≡ rows
      → Delivers next no_more_rows
          (pairs holds left_over out (left_over r ls) rs)
          (at sl s (found t r) [] r)
      → Yields next no_more_rows
          (pairs holds left_over out ls rs)
          (probe_loop fuel left right found out f (at sl s t [] row))
      → Yields next no_more_rows
          (pairs holds left_over out ls (r ∷ rs))
          (after_probe f sl s t row r rows)
  round-Yields f sl s t row r rs ls [] e later same =
      let rest : pairs holds left_over out ls (r ∷ rs) ≡ pairs holds left_over out ls rs =
        ap (λ l. outs holds left_over out r l ++ pairs holds left_over out (left_over r ls) rs) e
        ∙ ap (λ l. pairs holds left_over out l rs) (left_over_none r ls e) in
      subst (λ o. Yields next no_more_rows o (after_probe f sl s t row r [])) (sym rest) same
  round-Yields f sl s t row r rs ls (l ∷ more) e later same =
      let rest = pairs holds left_over out (left_over r ls) rs in
      let whole : pairs holds left_over out ls (r ∷ rs)
          ≡ out l r ∷ (outs holds left_over out r more ++ rest) =
        ap (λ l. outs holds left_over out r l ++ rest) e in
      subst (λ o. Yields next no_more_rows o (after_probe f sl s t row r (l ∷ more))) (sym whole)
        (at sl s (found t r) more r, refl, queue_first sl s (found t r) r rest more later)

  loop-Yields :
      (rs ls : List (Row O)) (f : ℕ) (sl : left.State) (s : right.State) (t : HashTable O)
      (row : Row O) (c : Code)
      → length rs < f
      → length rs < fuel
      → AllMeeting home want holds rs ls
      → IsStored home want holds t ls
      → Delivers right.get_next_row c rs s
      → Yields next no_more_rows
          (pairs holds left_over out ls rs)
          (probe_loop fuel left right found out f (at sl s t [] row))
  unfolding next_probed
  loop-Yields rs ls zero sl s t row c hf h meet stored d = absurd (omega arith)
  loop-Yields [] ls (suc f) sl s t row c hf h meet stored d =
      let (s', e, ended) = Ended-next right.get_next_row c s d in
      (
        at sl s' t [] row,
        loop_ended (suc f) sl s s' t row c (omega arith) e,
        at_end sl s' t row c (omega arith) ended,
      )
  loop-Yields (r ∷ rs) ls (suc f) sl s t row c hf h meet stored (s', e, d) =
      rw
        (probe_round f sl s s' t row r (keep (holds r) ls) e
          (matching-IsStored home want holds t ls r meet.0 stored))
        (round-Yields f sl s' t row r rs ls (keep (holds r) ls) refl
          (Yields-Delivers next no_more_rows _ (at sl s' (found t r) [] r) (
            loop-Yields rs (left_over r ls) fuel sl s' (found t r) r c (omega arith) (omega arith)
              (AllOf-map _ _ rs (λ r'. left_over-Meeting r r' ls) meet.1)
              (found-IsStored t ls r meet.0 stored) d))
          (loop-Yields rs ls f sl s' t row c (omega arith) (omega arith) meet.1 stored d))

  -- From a call on with an empty queue, the rows that are found are delivered.
  pub probing-Delivers :
      (rs ls : List (Row O)) (sl : left.State) (s : right.State) (t : HashTable O) (row : Row O)
      (c : Code)
      → length rs < fuel
      → AllMeeting home want holds rs ls
      → IsStored home want holds t ls
      → Delivers right.get_next_row c rs s
      → Delivers next no_more_rows (pairs holds left_over out ls rs) (at sl s t [] row)
  unfolding next_probed
  probing-Delivers rs ls sl s t row c h meet stored d =
      Yields-Delivers next no_more_rows _ (at sl s t [] row)
        (loop-Yields rs ls fuel sl s t row c h h meet stored d)
