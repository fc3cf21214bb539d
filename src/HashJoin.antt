-- ===== src/HashJoin.antt =====
-- sql/hash_join.cpp: HashJoin. The left child is built into the hash table, the right one probes it.
-- `init_hash_table` walks over an expression; the table that it makes is given.
pub mod Probing
pub mod Rows
pub mod AntiJoin
use cat_db.Prelude.{
  ℕ, zero, suc, Bool, true, false, ◌&&◌, List, [], ◌∷◌, ◌++◌, Option, some, if◌then◌else◌, get_or,
  drop,
}
use cat_db.Error.{Code, success, no_more_rows, is_success}
use cat_db.HashTable.{HashTable, StdHash, clear, build, probe_out, probe_and_drop}
use cat_db.NestedLoop.{
  JoinType, inner_join, semi_join_type, anti_join_type, left_outer_type, right_outer_type,
  full_outer_type,
}
use cat_db.Object.{ObjectClass}
use cat_db.Operator.{PhyOperator, Fetch, fetched, failed, running, ◌>>=◌}
use cat_db.Operator.Drain.{drain}
use cat_db.Row.{Row, join_row, make_row}
use cat_db.RowDesc.{make_desc}

-- A null `last_probe_row` is a row without columns; it is not read before it is set.
pub record HashJoin (O : Type 0) : Type 0 where
  pub hash_table : HashTable O
  pub probe_result : List (Row O)
  pub last_probe_row : Row O

module _ {O : Type 0} ⦃class : ObjectClass O⦄ where
  abbrev pub no_probe_row : Row O
  no_probe_row = make_row (make_desc 0)

  -- The queue is emptied, and the row forgotten.
  abbrev pub forget : HashJoin O → HashJoin O
  forget j = record j { probe_result = []; last_probe_row = no_probe_row }

module _ {O : Type 0} ⦃class : ObjectClass O⦄ ⦃std : StdHash⦄ (fuel : ℕ)
    (left right : PhyOperator O) where
  abbrev pub State : Type 0
  State = (left.State × right.State) × HashJoin O

  unfoldable pub build_hash_table : State → Option (Code × State)
  build_hash_table p = drain left.get_next_row build fuel (clear p.1.hash_table) p.0.0 >>= λ r.
      some (success, ((r.0, p.0.1), record p.1 { hash_table = r.1 }))

  unfoldable pub open_op : State → Option (Code × State)
  unfolding build_hash_table
  open_op p = left.open_op p.0.0 >>= λ l.
      let rest = right.open_op p.0.1 >>= λ r.
      let built = build_hash_table ((l.1, r.1), p.1) in
      if is_success r.0 then built else some (r.0, ((l.1, r.1), p.1)) in
      if is_success l.0 then rest else some (l.0, ((l.1, p.0.1), p.1))

  unfoldable pub close : State → Code × State
  close p =
      let l = left.close p.0.0 in
      let r = right.close p.0.1 in
      (if is_success l.0 && is_success r.0 then success else r.0, ((l.1, r.1), p.1))

  unfoldable pub reset : State → Code × State
  reset p =
      let l = left.reset p.0.0 in
      let r = right.reset p.0.1 in
      if is_success l.0
      then (if is_success r.0
          then (success, ((l.1, r.1), forget p.1))
          else (r.0, ((l.1, r.1), p.1)))
      else (l.0, ((l.1, p.0.1), p.1))

  -- The table is built whatever the children answer.
  unfoldable pub reopen : Row O → State → Option (Code × State)
  unfolding build_hash_table
  reopen row p = left.reopen row p.0.0 >>= λ l. right.reopen row p.0.1 >>= λ r.
      build_hash_table ((l.1, r.1), p.1) >>= λ b.
      some (if is_success l.0 then r.0 else l.0, (b.1.0, forget b.1.1))

  module _ (found : HashTable O → Row O → HashTable O) (out : Row O → Row O → Row O) where
    -- The queue has rows: the first is returned, with the row that found it.
    unfoldable pub take_probed :
        State → right.State → HashTable O → List (Row O) → Row O → Fetch State (Row O)
    take_probed p s t queue row =
        fetched (out (get_or queue 0 row) row)
          ((p.0.0, s), record { hash_table = t; probe_result = drop 1 queue; last_probe_row = row })

    -- The loop over the right child.
    unfoldable pub probe_loop : ℕ → State → Fetch State (Row O)
    unfolding take_probed
    probe_loop zero p = running p
    probe_loop (suc f) p = elim (right.get_next_row p.0.1) [
      | failed c s ↦ failed no_more_rows ((p.0.0, s), p.1)
      | running s ↦ running ((p.0.0, s), p.1)
      | fetched row s ↦
          let probed = probe_out p.1.hash_table row p.1.probe_result in
          let rest = probe_loop f ((p.0.0, s), record p.1 { probe_result = probed.1 }) in
          if is_success probed.0
          then take_probed p s (found p.1.hash_table row) probed.1 row
          else rest
    ]

    unfoldable pub next_probed : State → Fetch State (Row O)
    unfolding probe_loop take_probed
    next_probed p = elim (p.1.probe_result) [
      | [] ↦ probe_loop fuel p
      | l ∷ ls ↦ take_probed p p.0.1 p.1.hash_table (l ∷ ls) p.1.last_probe_row
    ]

  unfoldable pub join : State → Fetch State (Row O)
  unfolding next_probed
  join p = next_probed (λ t row. t) (λ left_row row. join_row left_row row) p

  -- A left row is returned once: those that the row finds are dropped from the table.
  unfoldable pub semi_join : State → Fetch State (Row O)
  unfolding next_probed
  semi_join p = next_probed (λ t row. (probe_and_drop t row).1) (λ left_row row. left_row) p

  -- The outer joins are not implemented, and an anti join is not offered.
  pub get_next_row : JoinType → State → Fetch State (Row O)
  unfolding join semi_join
  get_next_row inner_join p = join p
  get_next_row semi_join_type p = semi_join p
  get_next_row anti_join_type p = failed no_more_rows p
  get_next_row left_outer_type p = failed no_more_rows p
  get_next_row right_outer_type p = failed no_more_rows p
  get_next_row full_outer_type p = failed no_more_rows p
