-- ===== src/Storage/TableSpace/Errors.antt =====
-- `insert_row` of storage/table_space.cpp, when the file is not open or the row is too wide.
use cat_db.Prelude.{ℕ, ◌+◌, ◌≤◌, ◌≡◌, refl, ◌∙◌, ap, true, false, [], none, arith}
use cat_db.Error.{Result, err, success, table_file_not_exists, code_of}
use cat_db.Object.{ObjectClass}
use cat_db.Row.{Row}
use cat_db.Storage.Format.{Stored, row_width}
use cat_db.Storage.Page.{Page, have_free_space_insert}
use cat_db.Storage.Page.Contents.{IsPage}
use cat_db.Storage.Page.Insert.{IsStoredRow, insert_row-IsPage}
use cat_db.Storage.IoService.{IoService, end_offset, read_page}
use cat_db.Storage.PageMap.{find}
use cat_db.Storage.TableSpace.{
  TableSpace, detached, get_last_page, last_after, last_in_memory, insert_last, insert_detached,
  insert_row, read_after, get_page_from_offset,
}
use cat_db.Storage.TableSpace.Turn.{get_page_absent}

closed_end : (io : IoService) → io.file_handle ≡ false → end_offset io ≡ (table_file_not_exists, 0)
unfolding end_offset
closed_end io shut = rw (end_offset, shut) refl

closed_read :
    (io : IoService) (k : ℕ) → io.file_handle ≡ false → read_page io k ≡ err table_file_not_exists
unfolding read_page
closed_read io k shut = rw (read_page, shut) refl

closed_last :
    (ts : TableSpace)
    → ts.io.file_handle ≡ false
    → find ts.pages 0 ≡ none
    → get_last_page ts ≡ (err table_file_not_exists, ts)
unfolding get_last_page
closed_last ts shut absent =
    let page : get_page_from_offset ts 0 ≡ (table_file_not_exists, ts) =
      get_page_absent none ts 0 absent
      ∙ ap (read_after 0 ts) (closed_end ts.io shut)
      ∙ rw (closed_read ts.io 0 shut) refl in
    ap (last_after ts) (closed_end ts.io shut) ∙ ap (last_in_memory 0) page

module _ {O : Type 0} ⦃class : ObjectClass O⦄ ⦃stored : Stored O⦄ where
  detached_room :
      (ts : TableSpace) (row : Row O)
      → row_width row + 8 ≤ 16344
      → have_free_space_insert (detached ts) row ≡ true
  unfolding have_free_space_insert
  detached_room ts row fits = ground (arith, fits)

  -- Without an open file and its first page, an insertion of a row that can be stored and fits an empty
  -- page (its width and 8 are at most 16344) returns `SUCCESS`, and the row is nowhere: the table space is as it was.
  pub insert_row-closed :
      (ts : TableSpace) (row : Row O)
      → ts.io.file_handle ≡ false
      → find ts.pages 0 ≡ none
      → IsStoredRow row
      → row_width row + 8 ≤ 16344
      → insert_row ts row ≡ (success, ts)
  unfolding insert_row insert_detached
  insert_row-closed ts row shut absent good fits =
      let page : IsPage {O = O} (detached ts) [] = record {
        entries_are = tt;
        count_is = refl;
        end_is = refl;
        end_small = omega arith;
        offset_is = refl;
        size_is = refl;
      } in
      let room = detached_room ts row fits in
      let (p', run, kept, page') =
        insert_row-IsPage (detached ts) [] row page good room (omega arith) in
      ap (insert_last row) (closed_last ts shut absent)
      ∙ rw room (ap (λ (r : Result ℕ × Page). (code_of r.0, ts)) run)
