-- ===== src/Storage/Format.antt =====
-- How a row stands in the bytes of a page, storage/page.cpp: the number of columns, an offset for each, and
-- the objects, each with its length and type.
use cat_db.Prelude.{ℕ, zero, suc, ◌+◌, ◌-◌, ◌*◌, ◌%◌, true, false, List, if◌then◌else◌, ltb}
use cat_db.Error.{Code, Result, ok, err, is_success, value_or}
use cat_db.Object.{ObjectClass}
use cat_db.Row.{Row, get_cell, set_cell}
use cat_db.RowDesc.{RowDesc, make_column, set_tid_cid, set_column_desc, get_column_desc}
use cat_db.Storage.Memory.{Memory, put8, put16, get16, write, read}

-- How objects are stored (`serialization`, `width`, and `make_object` of common/object.cpp).
pub record Stored (O : Type 0) : Type 0 where
  pub width : O → ℕ
  pub type_code : O → ℕ
  -- The bytes behind `data`; the call's code, and the object that a type and bytes stand for.
  pub payload : O → List ℕ
  pub serial_code : O → Code
  pub make_object : ℕ → List ℕ → O

-- `fix_row_desc`: with no row given, all the columns of the record.
unfoldable pub fix_descs : ℕ → ℕ → ℕ → RowDesc → RowDesc
fix_descs table_id i zero d = d
fix_descs table_id i (suc n) d =
    fix_descs table_id (i + 1) n (set_column_desc d i (set_tid_cid make_column table_id i))

module _ {O : Type 0} ⦃class : ObjectClass O⦄ ⦃stored : Stored O⦄ where
  -- The sum of `row_width`, over the columns from `i` on; `sizeof(RawData)` is 4.
  unfoldable pub width_from : Row O → ℕ → ℕ → ℕ
  width_from row i zero = 0
  width_from row i (suc n) =
      stored.width (value_or class.nullptr (get_cell row i)) + 4 + width_from row (i + 1) n

  -- `sizeof(RawRecord)` is 4, and four bytes are reckoned to a column offset.
  unfoldable pub row_width : Row O → ℕ
  unfolding width_from
  row_width row = let count = row.row_desc.column_count in width_from row 0 count + 4 + count * 4

  -- `Object::serialization`: length, type and data at `a`, and the address behind them.
  unfoldable pub put_object : Memory → ℕ → O → Memory
  put_object m a x =
      write (put8 (put16 m a (stored.width x % 65536)) (a + 2) (stored.type_code x)) (a + 3)
        (stored.payload x)

  unfoldable pub object_end : ℕ → O → ℕ
  object_end a x = a + (4 + stored.width x % 65536) % 65536

  -- The loop of `serialize_row`, with `n` columns left of `count`.
  unfoldable pub serialize_from : Row O → ℕ → ℕ → ℕ → ℕ → Memory → Result Memory
  unfolding object_end
  serialize_from row beg count i zero m = ok m
  serialize_from row beg count i (suc n) m = elim (get_cell row i) [
    | err e ↦ err e
    | ok x ↦
        let a = beg + get16 m (beg + 2 + 2 * i) in
        let m' = put_object m a x in
        let next = put16 m' (beg + 2 + 2 * (i + 1)) (object_end a x - beg) in
        elim (is_success (stored.serial_code x)) [
          | false ↦ err (stored.serial_code x)
          | true ↦ serialize_from row beg count (i + 1) n (if ltb i (count - 1) then next else m')
        ]
  ]

  -- One column of `deserialize_row`: the object at the column's offset in the record.
  unfoldable pub object_at : Memory → ℕ → O
  object_at m a = stored.make_object (m (a + 2)) (read m (a + 3) (get16 m a))

  unfoldable pub read_object : Memory → ℕ → ℕ → O
  read_object m beg column_id = object_at m (beg + get16 m (beg + 2 + 2 * column_id))

  unfoldable pub project : Memory → ℕ → ℕ → ℕ → Row O → Row O
  project m beg i zero row = row
  project m beg i (suc n) row = elim (get_column_desc row.row_desc i) [
    -- Not met: `i` is below the number of columns.
    | err e ↦ row
    | ok c ↦
        let filled = (set_cell row i (read_object m beg c.column_id)).1 in
        project m beg (i + 1) n (if ltb c.column_id (get16 m beg) then filled else row)
  ]
