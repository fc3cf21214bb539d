-- ===== src/Storage/Page/Insert.antt =====
-- `insert_row`, `serialize_row` and `row_width` of storage/page.cpp, on the list of rows that the page stands
-- for.
use cat_db.Prelude.{
  ℕ, zero, suc, ◌+◌, ◌*◌, ◌%◌, ◌^◌, ◌≤◌, ◌<◌, ◌≡◌, refl, ap, sym, subst, ◌∙◌, ◌⊎◌, inl, inr, true,
  false, List, [], ◌∷◌, length, ltb, arith, get_or-append_length, length-append, lt→ltb, ◌++◌,
}
use mathlib.Core.List.{append_assoc}
use cat_db.Error.{Result, Result-cases, ok, err, no_more_page_free_space}
use cat_db.Object.{ObjectClass}
use cat_db.Row.{Row, get_cell}
use cat_db.Storage.Memory.{Memory, put16, get16, get16_congr, put16_other, get16-put16}
use cat_db.Storage.Format.{Stored, width_from, row_width, serialize_from}
use cat_db.Storage.Page.{Page, have_free_space_insert, serialize_row, insert_row, inserted}
use cat_db.Storage.Page.Record.{
  AllStored, objects_width, IsRecord, link, link_other, link_there, serialize_from-Written,
}
use cat_db.Storage.Page.Contents.{Entry, IsPage, keep-IsEntries}

module _ {O : Type 0} ⦃class : ObjectClass O⦄ ⦃stored : Stored O⦄ where
  -- A row that can be stored: a cell for each column, and the objects sound.
  pub record IsStoredRow (row : Row O) : Type 0 where
    pub cells_are : length row.cells ≡ row.row_desc.column_count
    pub all_stored : AllStored row.cells

  width_from-objects_width :
      (xs pre : List O) (row : Row O) (i n : ℕ)
      → row.cells ≡ pre ++ xs
      → row.row_desc.column_count ≡ i + n
      → i ≡ length pre
      → n ≡ length xs
      → width_from row i n ≡ objects_width xs
  unfolding width_from
  width_from-objects_width [] pre row i zero ec ed ei en = refl
  width_from-objects_width [] pre row i (suc n) ec ed ei en = absurd (omega arith)
  width_from-objects_width (x ∷ xs) pre row i zero ec ed ei en = absurd (omega arith)
  width_from-objects_width (x ∷ xs) pre row i (suc n) ec ed ei en =
      let cell : get_cell row i ≡ ok x =
        rw
          (
            ed,
            lt→ltb i (i + suc n) (omega arith),
            ec,
            ei,
            get_or-append_length pre xs x class.nullptr,
          )
          refl in
      let rest =
        width_from-objects_width xs (pre ++ x ∷ []) row (i + 1) n
          (ec ∙ sym (append_assoc pre (x ∷ []) xs)) (omega arith) (rw length-append (omega arith))
          (omega arith) in
      rw (cell, rest) (omega arith)

  pub row_width-objects_width :
      (row : Row O)
      → IsStoredRow row
      → row_width row ≡ objects_width row.cells + 4 + length row.cells * 4
  unfolding row_width
  row_width-objects_width row h =
      let w =
        width_from-objects_width row.cells [] row 0 row.row_desc.column_count refl (omega arith)
          refl (sym h.cells_are) in
      rw (w, h.cells_are) refl

  serialize_row-link :
      (p : Page) (row : Row O) (c : ℕ)
      → row.row_desc.column_count % 65536 ≡ c
      → serialize_row p row
        ≡ serialize_from row p.free_space c 0 c
            (link (ltb 0 c) (put16 p.memory p.free_space c) (p.free_space + 2) (4 + c * 4))
  unfolding serialize_row link
  serialize_row-link p row c e = rw (serialize_row, e, link) refl

  pub serialize_row-IsRecord :
      (p : Page) (row : Row O)
      → IsStoredRow row
      → row_width row < 65536
      → (m' : Memory) × (serialize_row p row ≡ ok m')
        × ((j : ℕ) → j < p.free_space → m' j ≡ p.memory j)
        × (get16 m' p.free_space ≡ length row.cells)
        × IsRecord m' (p.free_space + row_width row) p.free_space 0 row.cells
  serialize_row-IsRecord p row h small =
      let beg = p.free_space in
      let c = length row.cells in
      let width = row_width-objects_width row h in
      let m1 = put16 p.memory beg c in
      let m2 = link (ltb 0 c) m1 (beg + 2) (4 + c * 4) in
      let linked : (j : ℕ) → (j < beg + 2) ⊎ (beg + 2 + 1 < j) → m2 j ≡ m1 j =
        link_other (ltb 0 c) m1 (beg + 2) (4 + c * 4) in
      let zeroth : beg + 2 + 2 * 0 ≡ beg + 2 = omega arith in
      let first : 0 < c → get16 m2 (beg + 2 + 2 * 0) ≡ 4 + c * 4 = λ q.
        ap (get16 m2) zeroth
        ∙ link_there (ltb 0 c) m1 (beg + 2) (4 + c * 4) (lt→ltb 0 c q) (omega arith) in
      let (m', run, frame, record') =
        serialize_from-Written row.cells [] row (beg + row_width row) beg c 0 c (4 + c * 4) m2 refl
          (sym h.cells_are) refl refl (omega arith) h.all_stored (omega arith) (omega arith)
          (omega arith) first in
      let counted : get16 m' beg ≡ c =
        get16_congr m' m1 beg (frame beg (inl (omega arith)) ∙ linked beg (inl (omega arith)))
          (frame (beg + 1) (inl (omega arith)) ∙ linked (beg + 1) (inl (omega arith)))
        ∙ omega (arith, get16-put16 p.memory beg c) in
      (
        m',
        serialize_row-link p row c (omega (arith, h.cells_are)) ∙ run,
        (λ j q.
            frame j (inl (omega arith))
            ∙ linked j (inl (omega arith))
            ∙ put16_other p.memory beg c j (inl q)),
        counted,
        record',
      )

  insert_row-inserted :
      (p : Page) (row : Row O) (m : Memory)
      → have_free_space_insert p row ≡ true
      → serialize_row p row ≡ ok m
      → insert_row p row ≡ (ok p.end_row_id, inserted p row m)
  unfolding insert_row have_free_space_insert
  insert_row-inserted p row m room e =
      let fits : ltb p.free_size (row_width row + 8) ≡ false = ground arith in
      rw (insert_row, fits, e) refl

  pub insert_row-refuses :
      (p : Page) (row : Row O)
      → have_free_space_insert p row ≡ false
      → insert_row p row ≡ (err no_more_page_free_space, p)
  unfolding insert_row have_free_space_insert
  insert_row-refuses p row full =
      let over : ltb p.free_size (row_width row + 8) ≡ true = ground arith in
      rw (insert_row, over) refl

  -- A page that stands for `es` takes a row that it has the room for: the call returns the next id,
  -- and the page stands for the row with the new id in front of `es`; below 2^31 ids.
  pub insert_row-IsPage :
      (p : Page) (es : List (Entry O)) (row : Row O)
      → IsPage p es
      → IsStoredRow row
      → have_free_space_insert p row ≡ true
      → p.end_row_id + 1 < 2 ^ 31
      → (p' : Page) × (insert_row p row ≡ (ok p.end_row_id, p'))
        × ((p'.table_id ≡ p.table_id) × (p'.beg_row_id ≡ p.beg_row_id))
        × IsPage p' (record { id = p.end_row_id; gone = false; cells = row.cells } ∷ es)
  unfolding have_free_space_insert
  insert_row-IsPage p es row h good room ids =
      let fits : row_width row + 8 ≤ p.free_size = ground arith in
      let (m, run, same, counted, record') =
        serialize_row-IsRecord p row good (omega (arith, fits, h.size_is)) in
      let at_free : p.free_space % 65536 ≡ p.free_space =
        omega (arith, fits, h.size_is, h.offset_is) in
      let wide = row_width-objects_width row good in
      (
        inserted p row m,
        insert_row-inserted p row m room run,
        (refl, refl),
        record {
          entries_are = (
            record {
              id_is = refl;
              id_small = omega arith;
              all_stored = good.all_stored;
              count_is = ap (get16 m) at_free ∙ counted;
              count_fits = omega arith;
              record_is =
                  subst (λ o. IsRecord m (p.free_space + row_width row) o 0 row.cells) (sym at_free)
                    record';
            },
            h.end_is,
            keep-IsEntries p.row_info es p.memory m p.free_space _ p.beg_row_id same (omega arith)
                h.entries_are,
          );
          count_is = omega (arith, h.count_is);
          end_is = omega (arith, h.end_is);
          end_small = omega arith;
          offset_is = omega (arith, h.offset_is);
          size_is = omega (arith, h.size_is);
        },
      )

  -- A page that takes the row is the page with the row put in.
  pub insert_row_page :
      (p p' : Page) (row : Row O) (id : ℕ)
      → have_free_space_insert p row ≡ true
      → insert_row p row ≡ (ok id, p')
      → (m : Memory) × (p' ≡ inserted p row m)
  unfolding insert_row have_free_space_insert
  insert_row_page p p' row id room run =
      let fits : ltb p.free_size (row_width row + 8) ≡ false = ground arith in
      elim (Result-cases (serialize_row p row)) [
        | inl (m, e) ↦ (m, ap (λ (r : Result ℕ × Page). r.1) (sym run) ∙ rw (fits, e) refl)
        | inr (c, e) ↦
            let fails : insert_row p row ≡ (err c, p) = rw (insert_row, fits, e) refl in
            let other : ok id ≡ err c = ap (λ (r : Result ℕ × Page). r.0) (sym run ∙ fails) in
            absurd cc
      ]
