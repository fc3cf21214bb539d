-- ===== src/Storage/Page.antt =====
-- storage/page.h and storage/page.cpp: a page of 16384 bytes, its records behind the headers and its
-- row infos from the end towards them.
-- Addresses are taken from `records_space_`, which stands behind the two headers (40 bytes); the
-- header fields and the array `row_info_[0 ..]`, newest row first, are kept apart from the bytes.
pub mod Layout
pub mod Contents
pub mod Record
pub mod Insert
pub mod Search
pub mod Select
pub mod Delete
pub mod Exists
pub mod Scan
pub mod Reached
pub mod Cursor
pub mod Project
use cat_db.Prelude.{
  ℕ, zero, suc, ◌+◌, ◌-◌, ◌*◌, ◌/◌, ◌%◌, ◌^◌, Bool, true, false, ◌&&◌, not, List, [], ◌∷◌, Option,
  none, some, if◌then◌else◌, ltb, leb, ◌==◌, length, get_or,
}
use cat_db.Error.{
  Code, Result, ok, err, success, no_more_page_free_space, no_more_rows, row_id_not_found,
  row_id_deleted as code_row_id_deleted, row_data_too_long, is_success, value_or, code_of,
}
use cat_db.Object.{ObjectClass}
use cat_db.Row.{Row, make_row, get_cell, set_cell}
use cat_db.RowDesc.{
  RowDesc, ColumnDesc, make_column, make_desc, set_tid_cid, set_column_desc, get_column_desc,
  get_column_idx,
}
use cat_db.Storage.Format.{
  Stored, fix_descs, width_from, row_width, put_object, object_end, serialize_from, object_at,
  read_object, project,
}
use cat_db.Storage.Memory.{Memory, put8, put16, get16, write, read}

pub record RowInfo : Type 0 where
  pub row_id : ℕ
  pub offset : ℕ

pub record Page : Type 0 where
  pub table_id : ℕ
  pub page_offset : ℕ
  pub page_pre : ℕ
  pub page_next : ℕ
  pub beg_row_id : ℕ
  pub end_row_id : ℕ
  pub row_count : ℕ
  pub free_offset : ℕ
  pub free_size : ℕ
  pub memory : Memory
  -- `free_space_ - records_space_`
  pub free_space : ℕ
  pub row_info : List RowInfo
  pub row_idx : ℕ
  pub is_dirty : Bool

abbrev pub page_size : ℕ
page_size = 16384

-- `sizeof(FileHeader) + sizeof(PageHeader)`, and `sizeof(RowInfo)`.
abbrev pub headers_size : ℕ
headers_size = 40

abbrev pub row_info_size : ℕ
row_info_size = 8

abbrev pub make_page : ℕ → ℕ → ℕ → ℕ → ℕ → Page
make_page table_id page_offset page_pre page_next beg_row_id = record {
  table_id = table_id;
  page_offset = page_offset;
  page_pre = page_pre;
  page_next = page_next;
  beg_row_id = beg_row_id;
  end_row_id = beg_row_id;
  row_count = 0;
  free_offset = headers_size;
  free_size = page_size - headers_size;
  memory = λ i. 0;
  free_space = 0;
  row_info = [];
  row_idx = 0;
  is_dirty = false;
}

-- `row_id & 0x80000000` and `row_id | 0x80000000` on 32-bit ids.
unfoldable pub row_id_deleted : ℕ → Bool
row_id_deleted row_id = row_id / 2 ^ 31 % 2 == 1

unfoldable pub set_row_id_deleted : ℕ → ℕ
set_row_id_deleted row_id = if row_id_deleted row_id then row_id else row_id + 2 ^ 31

-- Beyond the array the code reads other bytes of the page, or behind it; no result depends on them.
abbrev pub beyond : RowInfo
beyond = record { row_id = 0; offset = 0 }

-- The loop of `search_row` over the row infos from `i` on: the index of the row's.
unfoldable pub search_from : ℕ → List RowInfo → ℕ → ℕ → Result ℕ
search_from row_id infos i zero = err row_id_not_found
search_from row_id infos i (suc n) =
    let info = get_or infos i beyond in
    if row_id == info.row_id && not (row_id_deleted info.row_id)
    then ok i
    else search_from row_id infos (i + 1) n

unfoldable pub search_row : Page → ℕ → Result ℕ
search_row p row_id = search_from row_id p.row_info 0 p.row_count

unfoldable pub exists_from : ℕ → List RowInfo → ℕ → ℕ → Code
exists_from row_id infos i zero = row_id_not_found
exists_from row_id infos i (suc n) =
    let info = get_or infos i beyond in
    if row_id == info.row_id
    then (if row_id_deleted info.row_id then code_row_id_deleted else success)
    else exists_from row_id infos (i + 1) n

unfoldable pub row_id_exists : Page → ℕ → Code
unfolding exists_from
row_id_exists p row_id =
    if ltb row_id p.beg_row_id
    then row_id_not_found
    else if leb p.end_row_id row_id
    then row_id_not_found
    else exists_from row_id p.row_info 0 p.row_count

unfoldable pub mark_deleted : ℕ → List RowInfo → List RowInfo
mark_deleted i [] = []
mark_deleted zero (info ∷ infos) = record info { row_id = set_row_id_deleted info.row_id } ∷ infos
mark_deleted (suc i) (info ∷ infos) = info ∷ mark_deleted i infos

unfoldable pub delete_row : Page → ℕ → Code × Page
delete_row p row_id = elim (search_row p row_id) [
  | err e ↦ (e, p)
  | ok i ↦ (success, record p { row_info = mark_deleted i p.row_info; is_dirty = true })
]

-- The scan: `open`, `reset` and `close` alike go back to the first row info.
abbrev pub rewind : Page → Page
rewind p = record p { row_idx = 0 }

-- A page that was read from its file: the pointers are found from the header again. That to the row
-- infos is the end of the free space, from which on `row_info` is what stands there.
unfoldable pub reset_page : Page → Page
reset_page p = record p { free_space = p.free_offset - headers_size; row_idx = p.row_count }

-- The loops of `get_next_row` and `have_row`: on to the next row that is not deleted.
unfoldable pub skip_deleted : List RowInfo → ℕ → ℕ → ℕ
skip_deleted infos i zero = i
skip_deleted infos i (suc n) =
    let rest = skip_deleted infos (i + 1) n in
    if row_id_deleted (get_or infos i beyond).row_id then rest else i

unfoldable pub have_row : Page → Bool
have_row p = ltb (skip_deleted p.row_info p.row_idx (p.row_count - p.row_idx)) p.row_count

module _ {O : Type 0} ⦃class : ObjectClass O⦄ ⦃stored : Stored O⦄ where
  unfoldable pub have_free_space_insert : Page → Row O → Bool
  have_free_space_insert p row = leb (row_width row + row_info_size) p.free_size

  unfoldable pub serialize_row : Page → Row O → Result Memory
  unfolding serialize_from
  serialize_row p row =
      let beg = p.free_space in
      let count = row.row_desc.column_count % 65536 in
      let m = put16 p.memory beg count in
      serialize_from row beg count 0 count
        (if ltb 0 count then put16 m (beg + 2) (4 + count * 4) else m)

  abbrev pub inserted : Page → Row O → Memory → Page
  inserted p row m = record p {
    end_row_id = (p.end_row_id + 1) % 2 ^ 32;
    row_count = p.row_count + 1;
    free_offset = p.free_offset + row_width row;
    free_size = p.free_size - (row_width row + row_info_size);
    memory = m;
    free_space = p.free_space + row_width row;
    row_info = record { row_id = p.end_row_id; offset = p.free_space % 65536 } ∷ p.row_info;
    is_dirty = true;
  }

  -- The call also gives the row the id that it returns. What is written when the serialization fails is
  -- free space still.
  unfoldable pub insert_row : Page → Row O → Result ℕ × Page
  insert_row p row =
      if ltb p.free_size (row_width row + row_info_size)
      then (err no_more_page_free_space, p)
      else elim (serialize_row p row) [
        | err e ↦ (err e, p)
        | ok m ↦ (ok p.end_row_id, inserted p row m)
      ]

  unfoldable pub deserialize_row : Page → RowInfo → Option (Row O) → Row O
  unfolding fix_descs
  deserialize_row p info given =
      let beg = info.offset in
      let count = get16 p.memory beg in
      let row : Row O = elim given [
        | some row ↦ row
        | none ↦ make_row (fix_descs p.table_id 0 count (make_desc count))
      ] in
      let filled = project p.memory beg 0 row.row_desc.column_count row in
      record filled { row_id = info.row_id }

  unfoldable pub select_row : Page → ℕ → Option (Row O) → Result (Row O)
  select_row p row_id given = elim (search_row p row_id) [
    | err e ↦ err e
    | ok i ↦ ok (deserialize_row p (get_or p.row_info i beyond) given)
  ]

  -- The loop of `update_none_fix_row`: a column that the old row lacks ends it.
  unfoldable pub overlay : Row O → ℕ → ℕ → Row O → Row O
  overlay row i zero old = old
  overlay row i (suc n) old =
      let c = value_or make_column (get_column_desc row.row_desc i) in
      let x = value_or class.nullptr (get_cell row i) in
      elim (get_column_idx old.row_desc c) [
        | err e ↦ old
        | ok idx ↦ overlay row (i + 1) n (set_cell old idx x).1
      ]

  -- `update_row`: the page is not changed; the caller gets the whole new row, to insert it anew.
  unfoldable pub update_row : Page → ℕ → Row O → Code × Row O
  unfolding overlay
  update_row p row_id row = elim (search_row p row_id) [
    | err e ↦ (e, row)
    | ok i ↦ (
      row_data_too_long,
      overlay row 0 row.row_desc.column_count (deserialize_row p (get_or p.row_info i beyond) none),
    )
  ]

  unfoldable pub get_next_row : Page → Option (Row O) → Result (Row O) × Page
  get_next_row p given =
      let i = skip_deleted p.row_info p.row_idx (p.row_count - p.row_idx) in
      if leb p.row_count i
      then (err no_more_rows, record p { row_idx = i })
      else (ok (deserialize_row p (get_or p.row_info i beyond) given), record p { row_idx = i + 1 })
