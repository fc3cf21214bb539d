-- ===== src/HashJoin/AntiJoin.antt =====
-- sql/hash_join.cpp: HashNullAwareAntiJoin, for NOT IN. The left rows that some right row finds are dropped
-- from the table, and what is left is delivered bucket by bucket.
-- The columns of the condition, and the table with its columns, are what `init_hash_table` makes of it.
pub mod Buckets
pub mod Rounds
pub mod Table
pub mod Rows
use cat_db.Prelude.{
  ℕ, zero, suc, ◌+◌, Bool, true, false, not, ◌&&◌, List, [], ◌∷◌, Option, none, some, if◌then◌else◌,
  ltb, ◌==◌, length, get_or,
}
use cat_db.Error.{Code, success, no_more_rows, is_success}
use cat_db.Expr.{Expression, plain}
use cat_db.HashJoin.{no_probe_row}
use cat_db.HashTable.{
  HashTable, StdHash, clear, build, probe_and_drop, begin_bucket, end_bucket, bucket,
  next_none_empty_bucket,
}
use cat_db.Object.{ObjectClass}
use cat_db.Operator.{PhyOperator, Fetch, fetched, failed, running, ◌>>=◌}
use cat_db.Operator.Drain.{drain}
use cat_db.Row.{Row}

pub record AntiJoin (O : Type 0) : Type 0 where
  pub hash_table : HashTable O
  pub cur_bucket : ℕ
  pub cur_bucket_pos : ℕ

module _ {O : Type 0} where
  abbrev pub rewound : AntiJoin O → AntiJoin O
  rewound j = record j { cur_bucket = begin_bucket j.hash_table; cur_bucket_pos = 0 }

  abbrev pub next_bucket : AntiJoin O → AntiJoin O
  next_bucket j = record j {
    cur_bucket = (next_none_empty_bucket j.hash_table j.cur_bucket).1;
    cur_bucket_pos = 0;
  }

module _ {O : Type 0} ⦃class : ObjectClass O⦄ where
  -- A column of the condition that is null in the row; without a column, none is.
  abbrev pub null_column : Option (Expression O) → Row O → Bool
  null_column none r = false
  null_column (some e) r = class.is_null (e (plain r))

  -- `get_next_row`, with the rounds that its loop may take: a round for each bucket, and one to see the end.
  unfoldable pub next_in : ℕ → AntiJoin O → Fetch (AntiJoin O) (Row O)
  next_in zero j = running j
  next_in (suc n) j =
      let rest = next_in n (next_bucket j) in
      let rows = bucket j.hash_table j.cur_bucket in
      if j.cur_bucket == end_bucket j.hash_table
      then failed no_more_rows j
      else if ltb j.cur_bucket_pos (length rows)
      then fetched (get_or rows j.cur_bucket_pos no_probe_row)
          (record j { cur_bucket_pos = j.cur_bucket_pos + 1 })
      else rest

module _ {O : Type 0} ⦃class : ObjectClass O⦄ ⦃std : StdHash⦄ where
  abbrev pub drop_found : HashTable O → Row O → HashTable O
  drop_found t r = (probe_and_drop t r).1

module _ {O : Type 0} ⦃class : ObjectClass O⦄ ⦃std : StdHash⦄
    (anti_build_col : Option (Expression O)) where
  -- A left row that is null is passed over, unless the right child has no rows.
  abbrev pub build_left : Bool → HashTable O → Row O → HashTable O
  build_left right_empty t r =
      if not right_empty && null_column anti_build_col r then t else build t r

module _ {O : Type 0} ⦃class : ObjectClass O⦄ ⦃std : StdHash⦄ (fuel : ℕ)
    (anti_build_col anti_probe_col : Option (Expression O)) (left right : PhyOperator O) where
  abbrev pub State : Type 0
  State = (left.State × right.State) × AntiJoin O

  -- The first loop over the right child, up to a null: whether it has no rows, and whether it has a null.
  unfoldable pub look : ℕ → Bool → right.State → Option (right.State × Bool × Bool)
  look zero right_empty s = none
  look (suc f) right_empty s = elim (right.get_next_row s) [
    | failed c s' ↦ some (s', right_empty, false)
    | running s' ↦ none
    | fetched r s' ↦
        let rest = look f false s' in
        if null_column anti_probe_col r then some (s', false, true) else rest
  ]

  -- It is left out where the condition has no column of the right child.
  unfoldable pub look_right : right.State → Option (right.State × Bool × Bool)
  unfolding look
  look_right s = elim anti_probe_col [ none ↦ some (s, true, false) | some e ↦ look fuel true s ]

  unfoldable pub fill : Bool → State → Option State
  fill right_empty p =
      drain left.get_next_row (build_left anti_build_col right_empty) fuel p.1.hash_table p.0.0
      >>= λ l.
          let r = right.reset p.0.1 in
          drain right.get_next_row drop_found fuel l.1 r.1 >>= λ q.
          some ((l.0, q.0), record p.1 { hash_table = q.1 })

  unfoldable pub build_hash_table : State → Option (Code × State)
  unfolding look_right fill
  build_hash_table p = look_right p.0.1 >>= λ seen.
      let p' : State = ((p.0.0, seen.0), record p.1 { hash_table = clear p.1.hash_table }) in
      (if seen.2 then some p' else fill seen.1 p') >>= λ q. some (success, (q.0, rewound q.1))

  unfoldable pub open_op : State → Option (Code × State)
  unfolding build_hash_table
  open_op p = left.open_op p.0.0 >>= λ l.
      let rest = right.open_op p.0.1 >>= λ r.
      let built = build_hash_table ((l.1, r.1), p.1) in
      if is_success r.0 then built else some (r.0, ((l.1, r.1), p.1)) in
      if is_success l.0 then rest else some (l.0, ((l.1, p.0.1), p.1))

  unfoldable pub close : State → Code × State
  close p =
      let l = left.close p.0.0 in
      let r = right.close p.0.1 in
      (if is_success l.0 && is_success r.0 then success else r.0, ((l.1, r.1), p.1))

  -- The buckets stay where they are.
  unfoldable pub reset : State → Code × State
  reset p =
      let l = left.reset p.0.0 in
      let r = right.reset p.0.1 in
      if is_success l.0 then (r.0, ((l.1, r.1), p.1)) else (l.0, ((l.1, p.0.1), p.1))

  unfoldable pub reopen : Row O → State → Option (Code × State)
  unfolding build_hash_table
  reopen row p = left.reopen row p.0.0 >>= λ l. right.reopen row p.0.1 >>= λ r.
      build_hash_table ((l.1, r.1), p.1) >>= λ b. some (if is_success l.0 then r.0 else l.0, b.1)

  -- The children are left alone.
  abbrev pub beside : left.State × right.State → Fetch (AntiJoin O) (Row O) → Fetch State (Row O)
  beside x (fetched r j) = fetched r (x, j)
  beside x (failed c j) = failed c (x, j)
  beside x (running j) = running (x, j)

  unfoldable pub get_next_row : State → Fetch State (Row O)
  unfolding next_in
  get_next_row p = beside p.0 (next_in (suc (length p.1.hash_table.buckets)) p.1)
