-- ===== src/Tests/TableSpace.antt =====
-- The theorems on table spaces at a table with one row.
use cat_db.Prelude.{
  ℕ, zero, suc, ◌+◌, ◌≤◌, ◌<◌, ◌≡◌, refl, true, false, List, [], ◌∷◌, some, arith, get_or,
}
use cat_db.Error.{ok, success, end_of_table_space, no_more_rows}
use cat_db.Row.{Row}
use cat_db.Storage.Address.{get_beg_row_id_from_page_offset}
use cat_db.Storage.Format.{row_width, width_from}
use cat_db.RowDesc.{RowDesc, make_column}
use cat_db.Storage.Page.{Page, have_free_space_insert}
use cat_db.Storage.Page
use cat_db.Storage.Page.Contents.{Entry}
use cat_db.Storage.Page.Select.{stored_row}
use cat_db.Storage.IoService.{make_io_service, open_io}
use cat_db.Storage.TableSpace.{
  TableSpace, make_table_space, insert_row, delete_row, close_space, open_space, reset, new_page,
  delete_all_row, create_table, table_space_size,
}
use cat_db.Storage.TableSpace.Held.{IsSpace, IsPageOf, append-IsSpace}
use cat_db.Storage.TableSpace.Insert.{
  IsPlaced, insert_row-IsSpace, insert-IsPageOf, new_page-IsPageOf,
}
use cat_db.Storage.TableSpace.Delete.{delete_row-IsSpace}
use cat_db.Storage.TableSpace.Release.{open_space-close_space}
use cat_db.Storage.TableSpace.Clear.{delete_all_row-empties, create_table-empty}
use cat_db.Storage.TableSpace.Errors.{insert_row-closed}
use cat_db.Storage.TableSpace.Scan.{scan, scan-IsSpace}
use cat_db.Storage.Page.Project.{IsAccess, accessed}
use cat_db.Operator.{Delivers}
use cat_db.Relation.{keep}
use cat_db.Expr.{Expression, plain, agent, passes}
use cat_db.TableScan.{get_next_row}
use cat_db.TableScan.Rows.{table_scan-Delivers}
use cat_db.Tests.Source.{Cell, missing, null, num, cell_class, row}
use cat_db.Tests.Storage.{stored_cell, person, person-IsStoredRow}

-- A new file that is open, and no page in memory.
abbrev empty : TableSpace
empty = record (make_table_space (make_io_service true []) 7) {
  io = record { file_handle = true; present = true; file = [] };
}

abbrev no_rows : List (List (Entry Cell))
no_rows = []

empty-IsSpace : IsSpace empty no_rows
empty-IsSpace = record {
  opened = refl;
  ordered = tt;
  held = λ k lt. absurd (omega arith);
  within = λ k p found. absurd (ground arith);
  short = omega arith;
  small = omega arith;
}

person_fits : row_width person + 8 ≤ 16344
unfolding row_width width_from
person_fits = omega arith

room : have_free_space_insert (new_page empty 0) person ≡ true
unfolding have_free_space_insert row_width width_from
room = refl

insert_row-IsSpace_example :
    (ts' : TableSpace) × (ess' : List (List (Entry Cell))) × (e : Entry Cell) × (insert_row empty
        person
      ≡ (success, ts'))
    × (e.gone ≡ false)
    × (e.cells ≡ person.cells)
    × IsPlaced no_rows e ess'
    × IsSpace ts' ess'
insert_row-IsSpace_example =
    insert_row-IsSpace empty no_rows person empty-IsSpace person-IsStoredRow (omega arith)
      person_fits (omega arith)

abbrev first : Entry Cell
first = record { id = 0; gone = false; cells = person.cells }

abbrev rows : List (List (Entry Cell))
rows = (first ∷ []) ∷ []

first_page :
    (p : Page) × (Page.insert_row (new_page empty 0) person ≡ (ok (new_page empty 0).end_row_id, p))
    × IsPageOf 7 0 p
        (record { id = (new_page empty 0).end_row_id; gone = false; cells = person.cells } ∷ [])
    × (p.is_dirty ≡ true)
    × ((new_page empty 0).end_row_id ≡ 0)
first_page =
    insert-IsPageOf 7 0 (new_page empty 0) [] person (new_page-IsPageOf empty 0 (omega arith))
      person-IsStoredRow (omega arith) room (omega arith)

abbrev page : Page
page = first_page.0

-- The table with that page in memory.
abbrev table : TableSpace
table = record empty { pages = (0, page) ∷ [] }

table-IsSpace : IsSpace table rows
unfolding get_beg_row_id_from_page_offset
table-IsSpace =
    append-IsSpace empty no_rows page (first ∷ []) empty-IsSpace (omega arith) first_page.2
      first_page.3

delete_row-IsSpace_example :
    (ts' : TableSpace) × (delete_row table 0 ≡ (success, ts'))
    × IsSpace ts' ((record first { gone = true } ∷ []) ∷ [])
delete_row-IsSpace_example = delete_row-IsSpace table rows 0 table-IsSpace

open_space-close_space_example :
    IsSpace
      (open_space false (make_table_space (make_io_service true (close_space table).io.file) 7))
      rows
open_space-close_space_example = open_space-close_space table rows false table-IsSpace

scan-IsSpace_example :
    (ts' : TableSpace) × (scan 2 2 (reset table)
      ≡ (stored_row 7 first ∷ [], some (end_of_table_space, ts')))
    × IsSpace ts' rows
scan-IsSpace_example = scan-IsSpace 2 2 table rows table-IsSpace (omega arith) (omega arith)

insert_row-closed_example :
    insert_row (make_table_space (make_io_service true []) 7) person
    ≡ (success, make_table_space (make_io_service true []) 7)
insert_row-closed_example =
    insert_row-closed (make_table_space (make_io_service true []) 7) person refl refl
      person-IsStoredRow person_fits

-- The middle column of the row gets a number.
abbrev change : Row Cell
change = record {
  cells = num 4 ∷ [];
  row_desc = record {
    column_desc = record { table_id = 7; column_id = 1; data_type = 0 } ∷ [];
    column_count = 1;
  };
  row_id = 0;
  alias_table_id = 0;
}

abbrev changed_person : Row Cell
changed_person = record (row 7 (num 3 ∷ num 4 ∷ num 9 ∷ [])) { alias_table_id = 0 }

delete_all_row-empties_example :
    ((delete_all_row false table).0 ≡ success)
    × IsSpace {O = Cell}
        (open_space false (make_table_space (close_space (delete_all_row false table).1).io 7))
        []
delete_all_row-empties_example = delete_all_row-empties table false refl

create_table-empty_example :
    ((create_table true (make_io_service false [])).0 ≡ success)
    × (table_space_size (create_table true (make_io_service false [])).1 ≡ 0)
    × IsSpace {O = Cell}
        (open_space false (make_table_space (create_table true (make_io_service false [])).1 7))
        []
create_table-empty_example = create_table-empty (make_io_service false []) 7 refl

-- The columns 2 and 0 of the table.
abbrev two_columns : RowDesc
two_columns = record {
  column_desc =
      record { table_id = 7; column_id = 2; data_type = 0 }
      ∷ record { table_id = 7; column_id = 0; data_type = 0 }
      ∷ [];
  column_count = 2;
}

two_columns-IsAccess : IsAccess 3 two_columns
two_columns-IsAccess = record { count_is = refl; inside = inside }
  where
    inside : (k : ℕ) → k < 2 → (get_or two_columns.column_desc k make_column).column_id < 3
    inside zero lt = omega arith
    inside (suc zero) lt = omega arith
    inside (suc (suc k)) lt = absurd (omega arith)

abbrev nines : Expression Cell
nines (plain r) = cell_class.equal (get_or r.cells 0 missing) (num 9)
nines (agent rs) = null

table_scan-Delivers_example :
    Delivers
      (get_next_row 2 2 two_columns)
      no_more_rows
      (keep (λ r. passes (some nines) (plain r)) (accessed two_columns 0 first ∷ []))
      (open_space false table, some nines)
unfolding open_io
table_scan-Delivers_example =
    table_scan-Delivers false 2 2 two_columns 3 (some nines) table rows table-IsSpace (omega arith)
      (omega arith) two_columns-IsAccess (refl, tt)
