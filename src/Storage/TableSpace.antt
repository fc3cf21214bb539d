-- ===== src/Storage/TableSpace.antt =====
-- storage/table_space.h and storage/table_space.cpp: a table as the pages of its file, some of which
-- are in memory.
-- A `Page_s` is the page in `pages` that it points to, so a call on it changes `pages`. A page that
-- goes out of memory runs its destructor, `~Page` of storage/page.cpp. Paths and names are left out:
-- `table_id` is the hash of the table's.
pub mod Held
pub mod Lookup
pub mod Last
pub mod Insert
pub mod Delete
pub mod Release
pub mod Update
pub mod Errors
pub mod Clear
pub mod Turn
pub mod Round
pub mod Scan
use cat_db.Prelude.{
  ℕ, zero, suc, ◌+◌, ◌-◌, ◌%◌, ◌^◌, Bool, true, false, List, [], ◌∷◌, Option, none, some, ◌||◌,
  if◌then◌else◌, ltb, ◌==◌,
}
use cat_db.Error.{
  Code, Result, ok, err, success, end_of_table_space, empty_table_space, row_data_too_long,
  is_success, code_of,
}
use cat_db.Object.{ObjectClass}
use cat_db.Row.{Row}
use cat_db.Storage.Address.{get_page_offset_from_row_id, get_beg_row_id_from_page_offset}
use cat_db.Storage.Format.{Stored}
use cat_db.Storage.Page.{Page, make_page, rewind, have_row, have_free_space_insert}
use cat_db.Storage.Page
use cat_db.Storage.IoService.{
  IoService, open_io, read_page, write_page, end_offset, clear_file, delete_file, get_file_size,
  close_io, hole,
}
use cat_db.Storage.IoService
use cat_db.Storage.PageMap.{PageMap, find, put, erase, last_key, map_pages}

pub record TableSpace : Type 0 where
  pub io : IoService
  pub table_id : ℕ
  pub pages : PageMap
  pub cur_page_offset : ℕ

abbrev pub make_table_space : IoService → ℕ → TableSpace
make_table_space io table_id = record {
  io = io;
  table_id = table_id;
  pages = [];
  cur_page_offset = 0;
}

-- `~Page`: a dirty page is written, if the file is open. A write's error is only logged.
unfoldable pub destroy : Page → IoService → IoService
destroy p io = if p.is_dirty then (if io.file_handle then (write_page io p).1 else io) else io

-- The destructor of the page that the out-parameter held before the call.
abbrev pub release : Option Page → TableSpace → TableSpace
release none ts = ts
release (some p) ts = record ts { io = destroy p ts.io }

unfoldable pub reset_all_page : TableSpace → TableSpace
reset_all_page ts = record ts { pages = map_pages rewind ts.pages }

unfoldable pub reset : TableSpace → TableSpace
reset ts = reset_all_page (record ts { cur_page_offset = 0 })

-- The result of `io->open` is not looked at.
unfoldable pub open_space : Bool → TableSpace → TableSpace
open_space creatable ts = reset (record ts { io = (open_io creatable ts.io).1 })

-- `pages_copy` and `pages` are emptied from the front.
unfoldable pub close_pages : PageMap → IoService → IoService
close_pages [] io = io
close_pages ((k, p) ∷ ps) io = close_pages ps (destroy (rewind p) io)

unfoldable pub close_space : TableSpace → TableSpace
unfolding close_pages
close_space ts = record ts { pages = []; io = close_pages ts.pages ts.io }

-- `read_page` once the end of the file is known.
abbrev pub read_after : ℕ → TableSpace → Code × ℕ → Code × TableSpace
read_after page_offset ts (code, offset) =
    if code == empty_table_space || ltb offset page_offset
    then (end_of_table_space, ts)
    else elim (IoService.read_page ts.io page_offset) [
      | err e ↦ (e, ts)
      | ok p ↦ (success, record ts { pages = put ts.pages page_offset (rewind p) })
    ]

-- `held` is the page that goes when `page` is assigned. The end of the file is looked up before.
unfoldable pub read_into : Option Page → TableSpace → ℕ → Code × TableSpace
read_into held ts page_offset = read_after page_offset (release held ts) (end_offset ts.io)

-- After `SUCCESS` the page is in `pages`, under its offset.
unfoldable pub get_page_into : Option Page → TableSpace → ℕ → Code × TableSpace
get_page_into held ts page_offset = elim (find ts.pages page_offset) [
  | none ↦ read_into held ts page_offset
  | some p ↦ (success, release held ts)
]

abbrev pub get_page_from_offset : TableSpace → ℕ → Code × TableSpace
get_page_from_offset ts page_offset = get_page_into none ts page_offset

abbrev pub get_page_from_row_id : TableSpace → ℕ → Code × TableSpace
get_page_from_row_id ts row_id = get_page_into none ts (get_page_offset_from_row_id row_id)

abbrev pub new_page : TableSpace → ℕ → Page
new_page ts page_offset =
    let page_pre = if page_offset == 0 then 0 else page_offset - 1 in
    let page_next = (page_offset + 1) % 2 ^ 32 in
    make_page ts.table_id page_offset page_pre page_next
      (get_beg_row_id_from_page_offset page_offset)

unfoldable pub create_page : TableSpace → ℕ → TableSpace
create_page ts page_offset = record ts {
  pages = put ts.pages page_offset (rewind (new_page ts page_offset));
}

-- The key of the last page, or the code for which the page is in no map.
abbrev pub last_in_memory : ℕ → Code × TableSpace → Result ℕ × TableSpace
last_in_memory offset (code, ts) =
    if is_success code
    then elim (last_key ts.pages) [
      | none ↦ (ok offset, ts)
      | some k ↦ (ok (if ltb offset k then k else offset), ts)
    ]
    else (err code, ts)

abbrev pub last_after : TableSpace → Code × ℕ → Result ℕ × TableSpace
last_after ts (code, offset) =
    if code == empty_table_space
    then elim (last_key ts.pages) [
      | none ↦ (ok offset, create_page ts offset)
      | some k ↦ (ok k, ts)
    ]
    else last_in_memory offset (get_page_from_offset ts offset)

unfoldable pub get_last_page : TableSpace → Result ℕ × TableSpace
get_last_page ts = last_after ts (end_offset ts.io)

-- `page` of a call that gives the key `k`.
abbrev pub page_at : TableSpace → ℕ → Page
page_at ts k = elim (find ts.pages k) [ some p ↦ p | none ↦ hole ]

-- `get_last_page` without an open file leaves the caller a new page with offset 0 that is in no map.
abbrev pub detached : TableSpace → Page
detached ts = make_page ts.table_id 0 0 0 0

-- The offset of the page that `get_last_page` gave; a detached page's is 0.
abbrev pub offset_of : TableSpace → Result ℕ → ℕ
offset_of ts (ok k) = (page_at ts k).page_offset
offset_of ts (err e) = 0

module _ {O : Type 0} ⦃class : ObjectClass O⦄ ⦃stored : Stored O⦄ where
  -- `insert_row` of the page under `k`.
  abbrev pub insert_into : TableSpace → ℕ → Row O → Code × TableSpace
  insert_into ts k row =
      let (result, p) = Page.insert_row (page_at ts k) row in
      (code_of result, record ts { pages = put ts.pages k p })

  -- A row that goes into the detached page is lost with it: the file is not open.
  unfoldable pub insert_detached : TableSpace → Row O → Code × TableSpace
  insert_detached ts row =
      let p = detached ts in
      if have_free_space_insert p row
      then (code_of (Page.insert_row p row).0, ts)
      else insert_into (create_page ts 0) 0 row

  abbrev pub insert_last : Row O → Result ℕ × TableSpace → Code × TableSpace
  insert_last row (err e, ts) = insert_detached ts row
  insert_last row (ok k, ts) =
      let p = page_at ts k in
      if have_free_space_insert p row
      then insert_into ts k row
      else insert_into (create_page ts p.page_next) p.page_next row

  unfoldable pub insert_row : TableSpace → Row O → Code × TableSpace
  unfolding insert_detached
  insert_row ts row = insert_last row (get_last_page ts)

abbrev pub delete_from : ℕ → Code × TableSpace → Code × TableSpace
delete_from row_id (code, ts) =
    if is_success code
    then (let k = get_page_offset_from_row_id row_id in
        let (code', p) = Page.delete_row (page_at ts k) row_id in
        (code', record ts { pages = put ts.pages k p }))
    else (code, ts)

unfoldable pub delete_row : TableSpace → ℕ → Code × TableSpace
delete_row ts row_id = delete_from row_id (get_page_from_row_id ts row_id)

-- The static operations on the file of a table, which no other service has open.
unfoldable pub table_space_size : IoService → ℕ
table_space_size io = get_file_size io

unfoldable pub delete_table : IoService → Code × IoService
delete_table io = delete_file io

unfoldable pub create_table : Bool → IoService → Code × IoService
create_table creatable io =
    let (code, io') = open_io creatable io in
    if is_success code then (success, close_io io') else (code, io')

abbrev pub delete_after : ℕ → Code × TableSpace → Code × TableSpace
delete_after row_id (code, ts) = if is_success code then delete_row ts row_id else (code, ts)

unfoldable pub delete_all_row : Bool → TableSpace → Code × TableSpace
delete_all_row creatable ts =
    let (code, io) = clear_file creatable ts.io in (code, record ts { io = io })

abbrev pub Next : Type 0 → Type 0
Next O = Option (Result (Row O) × TableSpace)

module _ {O : Type 0} ⦃class : ObjectClass O⦄ ⦃stored : Stored O⦄ where
  -- A changed row is put in anew, and the old one deleted.
  abbrev pub update_from : Row O → Code × TableSpace → Code × TableSpace
  update_from row (code, ts) =
      if is_success code
      then (let k = get_page_offset_from_row_id row.row_id in
          let (code', whole) = Page.update_row (page_at ts k) row.row_id row in
          if code' == row_data_too_long
          then delete_after row.row_id (insert_row ts whole)
          else (code', ts))
      else (code, ts)

  unfoldable pub update_row : TableSpace → Row O → Code × TableSpace
  update_row ts row = update_from row (get_page_from_row_id ts row.row_id)

  -- The page has a row. `given` is the row to fill, if there is one.
  unfoldable pub row_of_page : Option (Row O) → TableSpace → Next O
  row_of_page given ts =
      let cur = ts.cur_page_offset in
      let (result, p) = Page.get_next_row (page_at ts cur) given in
      some (result, record ts { pages = put ts.pages cur p })

  -- The round with `go` for what follows: out of memory with the page `p`, and on to the next one.
  abbrev pub went_on : (TableSpace → Next O) → Code × TableSpace → Next O
  went_on go (code, ts) = if is_success code then go ts else some (err code, ts)

  abbrev pub go_on : (TableSpace → Next O) → Page → Result ℕ × TableSpace → Next O
  go_on go p (last, ts) =
      if ts.cur_page_offset == offset_of ts last
      then some (err end_of_table_space, ts)
      else (let ts' = record ts {
        pages = erase ts.pages ts.cur_page_offset;
        cur_page_offset = p.page_next;
      } in
          went_on go (get_page_into (some p) ts' p.page_next))

  abbrev pub round : Option (Row O) → (TableSpace → Next O) → TableSpace → Next O
  round given go ts =
      let p = page_at ts ts.cur_page_offset in
      if have_row p then row_of_page given ts else go_on go p (get_last_page ts)

  -- The page under `cur_page_offset` has no more rows: on to the next one, until one has. Without an
  -- open file the last page is a detached one, of offset 0. `none` is running out of rounds.
  unfoldable pub next_page : Option (Row O) → ℕ → TableSpace → Next O
  next_page given zero ts = none
  next_page given (suc fuel) ts = round given (next_page given fuel) ts

  unfoldable pub get_next_row : Option (Row O) → ℕ → TableSpace → Next O
  unfolding next_page
  get_next_row given fuel ts =
      went_on (next_page given fuel) (get_page_from_offset ts ts.cur_page_offset)
