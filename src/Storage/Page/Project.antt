-- ===== src/Storage/Page/Project.antt =====
-- `deserialize_row` of storage/page.cpp into a row that names the columns it wants.
use cat_db.Prelude.{
  ℕ, zero, suc, ◌+◌, ◌≡◌, ◌<◌, refl, sym, ◌∙◌, ap, true, List, [], ◌∷◌, ◌++◌, some, map, length,
  get_or, set, ltb, lt→ltb, false, arith, length-append, get_or-append_length, set-append_length,
}
use mathlib.Core.List.{append_assoc}
use cat_db.Error.{ok}
use cat_db.Object.{ObjectClass}
use cat_db.Row.{Row, set_cell}
use cat_db.RowDesc.{RowDesc, ColumnDesc, make_column, get_column_desc}
use cat_db.Storage.Memory.{Memory, get16}
use cat_db.Storage.Format.{Stored, project, read_object}
use cat_db.Storage.Page.{Page, RowInfo, deserialize_row}
use cat_db.Storage.Page.Layout.{object_at-StoredAt}
use cat_db.Storage.Page.Record.{AllStored, IsRecord}
use cat_db.Storage.Page.Contents.{Entry, IsEntry}
use cat_db.Storage.Page.Select.{project_column}

-- The description has the columns that it counts, and all are among the first `w` of a table.
pub record IsAccess (w : ℕ) (d : RowDesc) : Type 0 where
  pub count_is : length d.column_desc ≡ d.column_count
  pub inside : (k : ℕ) → k < d.column_count → (get_or d.column_desc k make_column).column_id < w

module _ {O : Type 0} ⦃class : ObjectClass O⦄ ⦃stored : Stored O⦄ where
  -- The cell of a column of the table.
  abbrev pub picked : List O → ColumnDesc → O
  picked xs c = get_or xs c.column_id class.nullptr

  -- The row that an entry is read as through a description of the columns.
  abbrev pub accessed : RowDesc → ℕ → Entry O → Row O
  accessed d alias_table_id e = record {
    cells = map (picked e.cells) d.column_desc;
    row_desc = d;
    row_id = e.id;
    alias_table_id = alias_table_id;
  }

  read_object-IsRecord :
      (xs : List O) (m : Memory) (limit beg i k : ℕ)
      → AllStored xs
      → IsRecord m limit beg i xs
      → k < length xs
      → read_object m beg (i + k) ≡ get_or xs k class.nullptr
  unfolding read_object
  read_object-IsRecord [] m limit beg i k hs there lt = absurd (omega arith)
  read_object-IsRecord (x ∷ xs) m limit beg i zero hs there lt =
      let at : i + 0 ≡ i = omega arith in
      rw (read_object, at) (object_at-StoredAt m _ x hs.0 there.2)
  read_object-IsRecord (x ∷ xs) m limit beg i (suc k) hs there lt =
      let at : i + suc k ≡ (i + 1) + k = omega arith in
      rw at (read_object-IsRecord xs m limit beg (i + 1) k hs.1 there.3 (omega arith))

  project-picked :
      (cs before : List ColumnDesc) (pre rest xs : List O) (m : Memory) (limit beg i n : ℕ)
      (row : Row O)
      → AllStored xs
      → IsRecord m limit beg 0 xs
      → IsAccess (length xs) row.row_desc
      → get16 m beg ≡ length xs
      → row.row_desc.column_desc ≡ before ++ cs
      → row.cells ≡ pre ++ rest
      → i ≡ length before
      → i ≡ length pre
      → n ≡ length cs
      → n ≡ length rest
      → project m beg i n row ≡ record row { cells = pre ++ map (picked xs) cs }
  unfolding project
  project-picked [] before pre [] xs m limit beg i zero row hs there access ec ed er ei ep en em =
      ap (λ l. (record row { cells = l })) er
  project-picked [] before pre (r ∷ rest) xs m limit beg i zero row hs there access ec ed er ei ep
        en em =
      absurd (omega arith)
  project-picked [] before pre rest xs m limit beg i (suc n) row hs there access ec ed er ei ep en
        em =
      absurd (omega arith)
  project-picked (c ∷ cs) before pre rest xs m limit beg i zero row hs there access ec ed er ei ep
        en em =
      absurd (omega arith)
  project-picked (c ∷ cs) before pre [] xs m limit beg i (suc n) row hs there access ec ed er ei ep
        en em =
      absurd (omega arith)
  project-picked (c ∷ cs) before pre (r ∷ rest) xs m limit beg i (suc n) row hs there access ec ed
        er ei ep en em =
      let d = row.row_desc in
      let at : get_or d.column_desc i make_column ≡ c =
        rw (ed, ei) (get_or-append_length before cs c make_column) in
      let total = length-append before (c ∷ cs) in
      let size : d.column_count ≡ length before + suc (length cs) =
        sym access.count_is ∙ ap length ed ∙ total in
      let lt : i < d.column_count = omega (arith, size, ei) in
      let below : c.column_id < length xs = rw (← at) (access.inside i lt) in
      let here : ltb i d.column_count ≡ true = lt→ltb i d.column_count lt in
      let desc : get_column_desc d i ≡ ok c = rw (here, at) refl in
      let zeroth : 0 + c.column_id ≡ c.column_id = omega arith in
      let object : read_object m beg c.column_id ≡ picked xs c =
        ap (read_object m beg) (sym zeroth)
        ∙ read_object-IsRecord xs m limit beg 0 c.column_id hs there below in
      let row' : Row O = record row { cells = set row.cells i (picked xs c) } in
      let filled : (set_cell row i (read_object m beg c.column_id)).1 ≡ row' =
        rw (object, here) refl in
      let cells' : row'.cells ≡ (pre ++ picked xs c ∷ []) ++ rest =
        rw (er, ep, set-append_length pre rest r (picked xs c), append_assoc) refl in
      let ih =
        project-picked cs (before ++ c ∷ []) (pre ++ picked xs c ∷ []) rest xs m limit beg (i + 1) n
          row' hs there access ec (ed ∙ sym (append_assoc before (c ∷ []) cs)) cells'
          (rw length-append (omega arith)) (rw length-append (omega arith)) (omega arith)
          (omega arith) in
      project_column m beg i n row c desc (rw ec below)
      ∙ rw filled (
          ih
          ∙ ap (λ l. (record row { cells = l }))
              (append_assoc pre (picked xs c ∷ []) (map (picked xs) cs)))

  -- The columns that the row names are read, whatever it holds before.
  pub deserialize_row-accessed :
      (p : Page) (limit : ℕ) (info : RowInfo) (e : Entry O) (row : Row O)
      → IsEntry p.memory limit info e
      → e.gone ≡ false
      → IsAccess (length e.cells) row.row_desc
      → length row.cells ≡ row.row_desc.column_count
      → deserialize_row p info (some row) ≡ accessed row.row_desc row.alias_table_id e
  unfolding deserialize_row
  deserialize_row-accessed p limit info e row h alive access cells =
      let filled =
        project-picked row.row_desc.column_desc [] [] row.cells e.cells p.memory limit info.offset 0
          row.row_desc.column_count row h.all_stored h.record_is access h.count_is refl refl refl
          refl (sym access.count_is) (sym cells) in
      let id : info.row_id ≡ e.id = h.id_is ∙ rw alive refl in rw (deserialize_row, filled, id) refl
