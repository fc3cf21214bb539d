-- ===== src/Tests/Storage.antt =====
-- The theorems on pages and addresses at a page with one row.
use cat_db.Prelude.{ℕ, ◌≡◌, ◌<◌, refl, true, false, List, [], ◌∷◌, none, arith}
use cat_db.Error.{ok, err, success, row_id_not_found}
use cat_db.Row.{Row}
use cat_db.Storage.Format.{Stored, row_width, width_from}
use cat_db.Storage.Page.{
  Page, make_page, insert_row, delete_row, select_row, row_id_exists, rewind,
  have_free_space_insert,
}
use cat_db.Storage.Page.Layout.{IsStored}
use cat_db.Storage.Page.Contents.{Entry, IsPage}
use cat_db.Storage.Page.Insert.{IsStoredRow, insert_row-IsPage}
use cat_db.Storage.Page.Select.{stored_row}
use cat_db.Storage.Page.Delete.{select_row-delete_row, select_row-insert_row}
use cat_db.Storage.Page.Reached.{Reached-IsPage, fresh, inserted_row, deleted_row}
use cat_db.Storage.Page.Exists.{row_id_exists-find}
use cat_db.Storage.Page.Scan.{scan, scan-IsPage}
use cat_db.Tests.Source.{Cell, null, num, cell_class, row}

-- A number is one byte, and everything else is stored as a null.
abbrev code : Cell → ℕ
code (num n) = 1
code _ = 5

abbrev bytes_of : Cell → List ℕ
bytes_of (num n) = n ∷ []
bytes_of _ = []

abbrev width_of : Cell → ℕ
width_of (num n) = 1
width_of _ = 0

abbrev made : ℕ → List ℕ → Cell
made t [] = null
made t (b ∷ bytes) = num b

instance abbrev pub stored_cell : Stored Cell
stored_cell = record {
  width = width_of;
  type_code = code;
  payload = bytes_of;
  serial_code = λ x. success;
  make_object = made;
}

pub num-IsStored : (n : ℕ) → n < 256 → IsStored (num n)
num-IsStored n h = record {
  payload_length = refl;
  payload-IsBytes = (h, tt);
  type_small = omega arith;
  width_small = omega arith;
  serial_ok = refl;
  remade = refl;
}

null-IsStored : IsStored null
null-IsStored = record {
  payload_length = refl;
  payload-IsBytes = tt;
  type_small = omega arith;
  width_small = omega arith;
  serial_ok = refl;
  remade = refl;
}

abbrev pub person : Row Cell
person = row 7 (num 3 ∷ null ∷ num 9 ∷ [])

pub person-IsStoredRow : IsStoredRow person
person-IsStoredRow = record {
  cells_are = refl;
  all_stored = (num-IsStored 3 (omega arith), (null-IsStored, (num-IsStored 9 (omega arith), tt)));
}

abbrev empty : Page
empty = make_page 7 1 0 2 1024

abbrev nothing : List (Entry Cell)
nothing = []

empty-IsPage : IsPage empty nothing
empty-IsPage = record {
  entries_are = tt;
  count_is = refl;
  end_is = refl;
  end_small = omega arith;
  offset_is = refl;
  size_is = refl;
}

empty_has_room : have_free_space_insert empty person ≡ true
unfolding have_free_space_insert row_width width_from
empty_has_room = refl

abbrev first : Entry Cell
first = record { id = 1024; gone = false; cells = person.cells }

insert_row-IsPage_example :
    (p' : Page) × (insert_row empty person ≡ (ok 1024, p'))
    × ((p'.table_id ≡ 7) × (p'.beg_row_id ≡ 1024))
    × IsPage p' (first ∷ nothing)
insert_row-IsPage_example =
    insert_row-IsPage empty nothing person empty-IsPage person-IsStoredRow empty_has_room
      (omega arith)

-- The page with the row.
with_person :
    (p : Page) × (insert_row empty person ≡ (ok 1024, p))
    × ((p.table_id ≡ 7) × (p.beg_row_id ≡ 1024))
    × IsPage p (first ∷ nothing)
with_person =
    insert_row-IsPage empty nothing person empty-IsPage person-IsStoredRow empty_has_room
      (omega arith)

abbrev page : Page
page = with_person.0

select_row-insert_row_example :
    ((insert_row empty person).0 ≡ ok 1024)
    × (select_row (insert_row empty person).1 1024 none ≡ ok (stored_row 7 first))
select_row-insert_row_example =
    select_row-insert_row empty nothing person 1024 empty-IsPage person-IsStoredRow empty_has_room
      (omega arith)

select_row-delete_row_example :
    select_row {O = Cell} (delete_row page 1024).1 1024 none ≡ err row_id_not_found
select_row-delete_row_example = select_row-delete_row page (first ∷ nothing) 1024 1024 with_person.3

row_id_exists-find_example : row_id_exists page 1024 ≡ success
row_id_exists-find_example = row_id_exists-find page (first ∷ nothing) 1024 with_person.3

scan-IsPage_example : scan 3 (rewind page) ≡ stored_row page.table_id first ∷ []
scan-IsPage_example = scan-IsPage 3 page (first ∷ nothing) with_person.3 (omega arith)

-- A row is put in, and deleted again.
Reached-IsPage_example :
    IsPage (delete_row (insert_row empty person).1 1024).1 (record first { gone = true } ∷ nothing)
    × ((delete_row (insert_row empty person).1 1024).1.beg_row_id ≡ 1024)
Reached-IsPage_example =
    Reached-IsPage 1024 (delete_row (insert_row empty person).1 1024).1
      (record first { gone = true } ∷ nothing) (omega arith)
      (deleted_row (insert_row empty person).1 (first ∷ nothing) 1024
        (inserted_row empty nothing person (fresh 7 1 0 2) person-IsStoredRow empty_has_room))
