-- ===== src/TableScan.antt =====
-- sql/table_scan.cpp: TableScan, which takes its rows from a table space.
pub mod Rows
use cat_db.Prelude.{ℕ, zero, suc, Bool, true, false, List, Option, none, some, if◌then◌else◌, ◌==◌}
use cat_db.Error.{Code, Result, ok, err, success, end_of_table_space, no_more_rows}
use cat_db.Expr.{Expression, plain, passes}
use cat_db.Object.{ObjectClass}
use cat_db.Operator.{PhyOperator, Fetch, fetched, failed, running}
use cat_db.Row.{Row, make_row}
use cat_db.RowDesc.{RowDesc}
use cat_db.Storage.Format.{Stored}
use cat_db.Storage.TableSpace.{TableSpace, Next, open_space, close_space}
use cat_db.Storage.TableSpace

abbrev pub State : Type 0 → Type 0
State O = TableSpace × Option (Expression O)

module _ {O : Type 0} ⦃class : ObjectClass O⦄ where
  -- What the loop makes of a call of the table space, with `go` for the next round.
  abbrev pub taken :
      (Row O → State O → Fetch (State O) (Row O)) → State O → Next O → Fetch (State O) (Row O)
  taken go s none = running s
  taken go s (some (err c, ts)) =
      failed (if c == end_of_table_space then no_more_rows else c) (ts, s.1)
  taken go s (some (ok row, ts)) =
      if passes s.1 (plain row) then fetched row (ts, s.1) else go row (ts, s.1)

module _ {O : Type 0} ⦃class : ObjectClass O⦄ ⦃stored : Stored O⦄ where
  -- The row that a round has filled is the one that the next fills. `pages` bounds the rounds of a call
  -- of the table space.
  unfoldable pub fetch_from : ℕ → ℕ → Row O → State O → Fetch (State O) (Row O)
  fetch_from pages zero row s = running s
  fetch_from pages (suc n) row s =
      taken (fetch_from pages n) s (TableSpace.get_next_row (some row) pages s.0)

  unfoldable pub get_next_row : ℕ → ℕ → RowDesc → State O → Fetch (State O) (Row O)
  unfolding fetch_from
  get_next_row pages fuel access_desc s = fetch_from pages fuel (make_row access_desc) s

-- `creatable` is that of the file.
unfoldable pub open_op : {O : Type 0} → Bool → State O → Option (Code × State O)
open_op creatable s = some (success, (open_space creatable s.0, s.1))

unfoldable pub close : {O : Type 0} → State O → Code × State O
close s = (success, (close_space s.0, s.1))

unfoldable pub reset : {O : Type 0} → State O → Code × State O
reset s = (success, (TableSpace.reset s.0, s.1))

-- `reset_expr` is `Expression::reset`, and leaves a null filter as it is.
unfoldable pub reopen :
    {O : Type 0}
    → Bool
    → (Row O → Option (Expression O) → Option (Expression O))
    → Row O
    → State O
    → Option (Code × State O)
reopen creatable reset_expr row s = some (success, (open_space creatable s.0, reset_expr row s.1))

module _ {O : Type 0} ⦃class : ObjectClass O⦄ ⦃stored : Stored O⦄ where
  abbrev pub table_scan :
      Bool
      → ℕ
      → ℕ
      → (Row O → Option (Expression O) → Option (Expression O))
      → RowDesc
      → PhyOperator O
  table_scan creatable pages fuel reset_expr access_desc = record {
    State = State O;
    open_op = open_op creatable;
    close = close;
    reset = reset;
    reopen = reopen creatable reset_expr;
    get_next_row = get_next_row pages fuel access_desc;
  }
