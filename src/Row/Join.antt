-- ===== src/Row/Join.antt =====
-- What the loops of the three joins of common/row.cpp build.
use cat_db.Prelude.{
  ℕ, [], zero, suc, ◌+◌, ◌≤◌, ◌≡◌, refl, ap, sym, List, ◌++◌, arith, length, replicate, copy_list,
  copy_list_two, length-replicate, get_or-replicate, lt→ltb,
}
use cat_db.Object.{ObjectClass}
use cat_db.RowDesc.{RowDesc, ColumnDesc, make_column}
use cat_db.Row.{
  Row, copy_descs, copy_cells, null_cells, join_desc, join_row, left_outer_join_row,
  right_outer_join_row,
}

pub record IsDesc (d : RowDesc) : Type 0 where
  pub desc_length : length d.column_desc ≡ d.column_count

pub record IsRow {O : Type 0} (r : Row O) : Type 0 where
  pub desc : IsDesc r.row_desc
  pub cells_length : length r.cells ≡ r.row_desc.column_count

copy_descs-copy_list :
    (src : RowDesc) (off i n : ℕ) (dst : RowDesc)
    → i + n ≤ src.column_count
    → copy_descs src off i n dst
      ≡ record dst { column_desc = copy_list make_column src.column_desc off i n dst.column_desc }
unfolding copy_descs copy_list
copy_descs-copy_list src off i zero dst h = refl
copy_descs-copy_list src off i (suc n) dst h =
    rw (lt→ltb i src.column_count (omega arith))
      (copy_descs-copy_list src off (i + 1) n _ (omega arith))

-- The description of a joined row is the left one followed by the right one.
pub join_desc-append :
    (l r : RowDesc)
    → IsDesc l
    → IsDesc r
    → join_desc l r ≡ record {
      column_desc = l.column_desc ++ r.column_desc;
      column_count = l.column_count + r.column_count;
    }
unfolding join_desc
join_desc-append l r dl dr =
    rw
      (
        copy_descs-copy_list l 0 0 l.column_count _ (omega arith),
        copy_descs-copy_list r l.column_count 0 r.column_count _ (omega arith),
      )
      (ap
        (λ (cs : List ColumnDesc). record {
          column_desc = cs;
          column_count = l.column_count + r.column_count;
        })
        (copy_list_two l.column_desc r.column_desc _ make_column make_column l.column_count
          r.column_count (sym dl.desc_length) (sym dr.desc_length)
          (length-replicate _ make_column)))

module _ {O : Type 0} ⦃class : ObjectClass O⦄ where
  copy_cells-copy_list :
      (src : Row O) (off i n : ℕ) (dst : Row O)
      → i + n ≤ src.row_desc.column_count
      → off + (i + n) ≤ dst.row_desc.column_count
      → copy_cells src off i n dst
        ≡ record dst { cells = copy_list class.nullptr src.cells off i n dst.cells }
  unfolding copy_cells copy_list
  copy_cells-copy_list src off i zero dst h k = refl
  copy_cells-copy_list src off i (suc n) dst h k =
      rw
        (
          lt→ltb i src.row_desc.column_count (omega arith),
          lt→ltb (off + i) dst.row_desc.column_count (omega arith),
        )
        (copy_cells-copy_list src off (i + 1) n _ (omega arith) (omega arith))

  null_cells-copy_list :
      (m off i n : ℕ) (dst : Row O)
      → i + n ≤ m
      → off + (i + n) ≤ dst.row_desc.column_count
      → null_cells off i n dst ≡ record dst {
        cells =
            copy_list class.make_null_object (replicate m class.make_null_object) off i n dst.cells;
      }
  unfolding null_cells copy_list
  null_cells-copy_list m off i zero dst h k = refl
  null_cells-copy_list m off i (suc n) dst h k =
      rw
        (
          lt→ltb (off + i) dst.row_desc.column_count (omega arith),
          get_or-replicate m i class.make_null_object,
        )
        (null_cells-copy_list m off (i + 1) n _ (omega arith) (omega arith))

  -- A row made of the cells and the description of two others.
  abbrev pub appended : RowDesc → List O → RowDesc → List O → Row O
  appended ld ls rd rs = record {
    cells = ls ++ rs;
    row_desc = record {
      column_desc = ld.column_desc ++ rd.column_desc;
      column_count = ld.column_count + rd.column_count;
    };
    row_id = 0;
    alias_table_id = 0;
  }

  -- `join_row` puts the left row's columns and cells before the right row's.
  pub join_row-append :
      (l r : Row O)
      → IsRow l
      → IsRow r
      → join_row l r ≡ appended l.row_desc l.cells r.row_desc r.cells
  unfolding join_row
  join_row-append l r wl wr =
      let n = l.row_desc.column_count in
      let start : Row O = record (appended l.row_desc [] r.row_desc []) {
        cells = replicate (n + r.row_desc.column_count) class.nullptr;
      } in
      rw (join_desc-append l.row_desc r.row_desc wl.desc wr.desc) (
        rw
          (
            copy_cells-copy_list l 0 0 n start (omega arith) (omega arith),
            copy_cells-copy_list r n 0 r.row_desc.column_count
                (record start { cells = copy_list class.nullptr l.cells 0 0 n start.cells })
                (omega arith) (omega arith),
          )
          (ap
            (λ (cs : List O). record (appended l.row_desc l.cells r.row_desc r.cells) {
              cells = cs;
            })
            (copy_list_two l.cells r.cells _ class.nullptr class.nullptr l.row_desc.column_count
              r.row_desc.column_count (sym wl.cells_length) (sym wr.cells_length)
              (length-replicate _ class.nullptr))))

  -- `left_outer_join_row` pads the left row with nulls for the right table's columns.
  pub left_outer_join_row-append :
      (l : Row O) (rd : RowDesc)
      → IsRow l
      → IsDesc rd
      → left_outer_join_row l rd
        ≡ appended l.row_desc l.cells rd (replicate rd.column_count class.make_null_object)
  unfolding left_outer_join_row
  left_outer_join_row-append l rd wl dr =
      let nulls = replicate rd.column_count class.make_null_object in
      let n = l.row_desc.column_count in
      let start : Row O = record (appended l.row_desc [] rd []) {
        cells = replicate (n + rd.column_count) class.nullptr;
      } in
      rw (join_desc-append l.row_desc rd wl.desc dr) (
        rw
          (
            copy_cells-copy_list l 0 0 n start (omega arith) (omega arith),
            null_cells-copy_list rd.column_count n 0 rd.column_count
                (record start { cells = copy_list class.nullptr l.cells 0 0 n start.cells })
                (omega arith) (omega arith),
          )
          (ap (λ (cs : List O). record (appended l.row_desc l.cells rd nulls) { cells = cs })
            (copy_list_two l.cells nulls _ class.nullptr class.make_null_object
              l.row_desc.column_count rd.column_count (sym wl.cells_length)
              (sym (length-replicate rd.column_count class.make_null_object))
              (length-replicate _ class.nullptr))))

  -- `right_outer_join_row` puts nulls for the left table's columns before the right row.
  pub right_outer_join_row-append :
      (ld : RowDesc) (r : Row O)
      → IsDesc ld
      → IsRow r
      → right_outer_join_row ld r
        ≡ appended ld (replicate ld.column_count class.make_null_object) r.row_desc r.cells
  unfolding right_outer_join_row
  right_outer_join_row-append ld r dl wr =
      let nulls = replicate ld.column_count class.make_null_object in
      let n = ld.column_count in
      let start : Row O = record (appended ld [] r.row_desc []) {
        cells = replicate (n + r.row_desc.column_count) class.nullptr;
      } in
      rw (join_desc-append ld r.row_desc dl wr.desc) (
        rw
          (
            null_cells-copy_list n 0 0 n start (omega arith) (omega arith),
            copy_cells-copy_list r n 0 r.row_desc.column_count
                (record start { cells = copy_list class.make_null_object nulls 0 0 n start.cells })
                (omega arith) (omega arith),
          )
          (ap (λ (cs : List O). record (appended ld nulls r.row_desc r.cells) { cells = cs })
            (copy_list_two nulls r.cells _ class.make_null_object class.nullptr ld.column_count
              r.row_desc.column_count
              (sym (length-replicate ld.column_count class.make_null_object)) (sym wr.cells_length)
              (length-replicate _ class.nullptr))))
