-- ===== src/HashJoin/AntiJoin/Rows.antt =====
-- The rows that HashNullAwareAntiJoin of sql/hash_join.cpp delivers.
use cat_db.Prelude.{
  ℕ, Bool, true, false, not, ◌&&◌, ◌||◌, List, [], ◌∷◌, Option, none, some, if◌then◌else◌,
}
use cat_db.Expr.{Expression}
use cat_db.HashJoin.AntiJoin.{AntiJoin, State, null_column, get_next_row}
use cat_db.HashJoin.Rows.{IsReady}
use cat_db.HashTable.{HashTable, StdHash, slot}
use cat_db.Object.{ObjectClass}
use cat_db.Operator.{PhyOperator, Fetch}
use cat_db.Relation.{keep, meets}
use cat_db.Row.{Row}

module _ {O : Type 0} ⦃class : ObjectClass O⦄ where
  -- Whether the first loop over the right rows has seen none, and whether it has seen a null.
  abbrev pub none_seen : Bool → List (Row O) → Bool
  none_seen e [] = e
  none_seen e (r ∷ rs) = false

  abbrev pub any_null : Option (Expression O) → List (Row O) → Bool
  any_null col [] = false
  any_null col (r ∷ rs) = null_column col r || any_null col rs

  abbrev pub right_empty : Option (Expression O) → List (Row O) → Bool
  right_empty none rs = true
  right_empty (some e) rs = none_seen true rs

  -- The left rows that are built: those that are null are left out where there are right rows.
  abbrev pub built_rows :
      Option (Expression O) → Option (Expression O) → List (Row O) → List (Row O) → List (Row O)
  built_rows build_col probe_col ls rs =
      keep (λ l. not (not (right_empty probe_col rs) && null_column build_col l)) ls

  -- The specification: nothing where a right row is null, and otherwise the left rows that are built and
  -- pass with no right row.
  abbrev pub anti_rows :
      (Row O → Row O → Bool)
      → Option (Expression O)
      → Option (Expression O)
      → List (Row O)
      → List (Row O)
      → List (Row O)
  anti_rows holds build_col probe_col ls rs =
      if any_null probe_col rs
      then []
      else keep (λ l. not (meets holds rs l)) (built_rows build_col probe_col ls rs)

module _ {O : Type 0} ⦃class : ObjectClass O⦄ ⦃std : StdHash⦄ (fuel : ℕ)
    (anti_build_col anti_probe_col : Option (Expression O)) (left right : PhyOperator O) where
  abbrev Op : Type 0
  Op = State fuel anti_build_col anti_probe_col left right

module _ {O : Type 0} ⦃class : ObjectClass O⦄ ⦃std : StdHash⦄ (fuel : ℕ)
    (build_col probe_col : Option (Expression O)) (left right : PhyOperator O) where
  abbrev next :
      State fuel build_col probe_col left right
      → Fetch (State fuel build_col probe_col left right) (Row O)
  next = get_next_row fuel build_col probe_col left right

  module _ (t : HashTable O) (ready : IsReady t) where
    abbrev home : Row O → ℕ
    home = slot t t.hash_cols

    abbrev want : Row O → ℕ
    want = slot t t.probe_cols
