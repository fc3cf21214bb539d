-- ===== src/Storage/TableSpace/Update.antt =====
-- `update_row` of storage/table_space.cpp: the changed row is put in, and the old one deleted.
use cat_db.Prelude.{ℕ}
use cat_db.Object.{ObjectClass}
use cat_db.Row.{Row}
use cat_db.Storage.Format.{Stored}
use cat_db.Storage.Page.{Page, overlay}
use cat_db.Storage.Page
use cat_db.Storage.Page.Contents.{Entry}
use cat_db.Storage.Page.Search.{find as find_row}
use cat_db.Storage.Page.Select.{stored_row}
use cat_db.Storage.TableSpace.{TableSpace}

module _ {O : Type 0} ⦃class : ObjectClass O⦄ ⦃stored : Stored O⦄ where
  -- The row that `Page::update_row` makes of the old one and the columns of `row`.
  abbrev pub changed : ℕ → Entry O → Row O → Row O
  changed table_id old row = overlay row 0 row.row_desc.column_count (stored_row table_id old)
