-- ===== src/Storage/Page/Select.antt =====
-- `select_row`, `deserialize_row`, and `fix_row_desc` of storage/page.cpp, on the list of rows
-- that the page stands for.
use cat_db.Prelude.{
  ℕ, zero, suc, ◌+◌, ◌≤◌, ◌<◌, ◌≡◌, refl, ap, sym, subst, ◌∙◌, ◌⊎◌, inl, inr, true, false, List, [],
  ◌∷◌, ◌++◌, length, get_or, set, replicate, ltb, arith, lt→ltb, Option, none, some, length-append,
  length-set, length-replicate, get_or-set_self, get_or-set_ne, set-append_length,
}
use mathlib.Core.List.{append_assoc}
use cat_db.Error.{Result, ok, err, row_id_not_found}
use cat_db.Object.{ObjectClass}
use cat_db.Row.{Row, make_row, set_cell}
use cat_db.RowDesc.{RowDesc, ColumnDesc, make_column, make_desc, set_tid_cid, get_column_desc}
use cat_db.Storage.Memory.{Memory, get16}
use cat_db.Storage.Format.{Stored, fix_descs, project, read_object}
use cat_db.Storage.Page.{Page, RowInfo, deserialize_row, select_row, beyond}
use cat_db.Storage.Page.Layout.{object_at-StoredAt}
use cat_db.Storage.Page.Record.{AllStored, IsRecord}
use cat_db.Storage.Page.Search.{find, search_row-Searched}
use cat_db.Storage.Page.Contents.{Entry, IsEntry, IsPage}

le_cases : (i k : ℕ) → i ≤ k → (i ≡ k) ⊎ (i < k)
le_cases i k h = ground arith

fix_descs_below :
    (n tid i : ℕ) (d : RowDesc) (k : ℕ)
    → k < i
    → get_or (fix_descs tid i n d).column_desc k make_column ≡ get_or d.column_desc k make_column
unfolding fix_descs
fix_descs_below zero tid i d k h = refl
fix_descs_below (suc n) tid i d k h =
    fix_descs_below n tid (i + 1) _ k (omega arith)
    ∙ get_or-set_ne d.column_desc i k (set_tid_cid make_column tid i) make_column
        (λ e. omega (arith, h, e))

fix_descs_count : (n tid i : ℕ) (d : RowDesc) → (fix_descs tid i n d).column_count ≡ d.column_count
unfolding fix_descs
fix_descs_count zero tid i d = refl
fix_descs_count (suc n) tid i d = fix_descs_count n tid (i + 1) _

fix_descs-get_or :
    (n tid i : ℕ) (d : RowDesc) (k : ℕ)
    → i + n ≤ length d.column_desc
    → i ≤ k
    → k < i + n
    → get_or (fix_descs tid i n d).column_desc k make_column ≡ set_tid_cid make_column tid k
unfolding fix_descs
fix_descs-get_or zero tid i d k len lo hi = absurd (omega arith)
fix_descs-get_or (suc n) tid i d k len lo hi = elim (le_cases i k lo) [
  | inl e ↦
      fix_descs_below n tid (i + 1) _ k (omega arith)
      ∙ subst
          (λ k.
            get_or (set d.column_desc i (set_tid_cid make_column tid i)) k make_column
            ≡ set_tid_cid make_column tid k)
          e
          (get_or-set_self d.column_desc i (set_tid_cid make_column tid i) make_column
            (omega arith))
  | inr lt ↦
      fix_descs-get_or n tid (i + 1) _ k (rw length-set (omega arith)) (omega arith) (omega arith)
]

-- Column `k` is column `k` of the record.
abbrev pub IsFixed : ℕ → RowDesc → Type 0
IsFixed count d =
    (d.column_count ≡ count)
    × ((k : ℕ) → k < count → (get_or d.column_desc k make_column).column_id ≡ k)

fix_descs-IsFixed : (tid n : ℕ) → IsFixed n (fix_descs tid 0 n (make_desc n))
fix_descs-IsFixed tid n = (
  fix_descs_count n tid 0 (make_desc n),
  λ k h.
      ap (λ c. c.column_id)
        (fix_descs-get_or n tid 0 (make_desc n) k (rw length-replicate (omega arith)) (omega arith)
          (omega arith)),
)

module _ {O : Type 0} ⦃class : ObjectClass O⦄ ⦃stored : Stored O⦄ where
  pub project_column :
      (m : Memory) (beg i n : ℕ) (row : Row O) (c : ColumnDesc)
      → get_column_desc row.row_desc i ≡ ok c
      → c.column_id < get16 m beg
      → project m beg i (suc n) row
        ≡ project m beg (i + 1) n (set_cell row i (read_object m beg c.column_id)).1
  unfolding project read_object
  project_column m beg i n row c e lt = rw (project, e, lt→ltb c.column_id (get16 m beg) lt) refl

  project-IsRecord :
      (xs pre rest : List O) (m : Memory) (limit beg count i n : ℕ) (row : Row O)
      → AllStored xs
      → IsRecord m limit beg i xs
      → IsFixed count row.row_desc
      → get16 m beg ≡ count
      → row.cells ≡ pre ++ rest
      → i ≡ length pre
      → n ≡ length xs
      → n ≡ length rest
      → i + n ≡ count
      → project m beg i n row ≡ record row { cells = pre ++ xs }
  unfolding project read_object
  project-IsRecord [] pre [] m limit beg count i zero row hs there fixed ec er ei en em et =
      ap (λ cs. (record row { cells = cs })) er
  project-IsRecord [] pre (r ∷ rest) m limit beg count i zero row hs there fixed ec er ei en em et =
      absurd (omega arith)
  project-IsRecord [] pre rest m limit beg count i (suc n) row hs there fixed ec er ei en em et =
      absurd (omega arith)
  project-IsRecord (x ∷ xs) pre rest m limit beg count i zero row hs there fixed ec er ei en em et =
      absurd (omega arith)
  project-IsRecord (x ∷ xs) pre [] m limit beg count i (suc n) row hs there fixed ec er ei en em
        et =
      absurd (omega arith)
  project-IsRecord (x ∷ xs) pre (r ∷ rest) m limit beg count i (suc n) row hs there fixed ec er ei
        en em et =
      let c = get_or row.row_desc.column_desc i make_column in
      let at_i : c.column_id ≡ i = fixed.1 i (omega arith) in
      let inside : ltb i row.row_desc.column_count ≡ true =
        rw fixed.0 (lt→ltb i count (omega arith)) in
      let desc : get_column_desc row.row_desc i ≡ ok c = rw inside refl in
      let object : read_object m beg c.column_id ≡ x =
        rw (read_object, at_i) (object_at-StoredAt m _ x hs.0 there.2) in
      let row' : Row O = record row { cells = set row.cells i x } in
      let stored_cell : (set_cell row i (read_object m beg c.column_id)).1 ≡ row' =
        rw (object, inside) refl in
      let cells' : row'.cells ≡ (pre ++ x ∷ []) ++ rest =
        rw (er, ei, set-append_length pre rest r x, append_assoc) refl in
      let ih =
        project-IsRecord xs (pre ++ x ∷ []) rest m limit beg count (i + 1) n row' hs.1 there.3 fixed
          ec cells' (rw length-append (omega arith)) (omega arith) (omega arith) (omega arith) in
      project_column m beg i n row c desc (omega arith)
      ∙ rw stored_cell (ih ∙ ap (λ cs. (record row { cells = cs })) (append_assoc pre (x ∷ []) xs))

  -- The row that an entry is read as: column `k` of it is column `k` of the table.
  unfoldable pub stored_row : ℕ → Entry O → Row O
  stored_row table_id e =
      let n = length e.cells in
      record {
        cells = e.cells;
        row_desc = fix_descs table_id 0 n (make_desc n);
        row_id = e.id;
        alias_table_id = 0;
      }

  pub deserialize_row-IsEntry :
      (p : Page) (limit : ℕ) (info : RowInfo) (e : Entry O)
      → IsEntry p.memory limit info e
      → e.gone ≡ false
      → deserialize_row p info none ≡ stored_row p.table_id e
  unfolding deserialize_row stored_row
  deserialize_row-IsEntry p limit info e h alive =
      let n = length e.cells in
      let d = fix_descs p.table_id 0 n (make_desc n) in
      let counted : d.column_count ≡ n = fix_descs_count n p.table_id 0 (make_desc n) in
      let filled =
        project-IsRecord e.cells [] (replicate d.column_count class.nullptr) p.memory limit
          info.offset n 0 d.column_count (make_row d) h.all_stored h.record_is
          (fix_descs-IsFixed p.table_id n) h.count_is refl refl counted
          (sym (length-replicate d.column_count class.nullptr)) (omega (arith, counted)) in
      let id : info.row_id ≡ e.id = h.id_is ∙ rw alive refl in
      rw (deserialize_row, h.count_is, filled, id) refl

  abbrev pub selected : ℕ → Option (Entry O) → Result (Row O)
  selected table_id (some e) = ok (stored_row table_id e)
  selected table_id none = err row_id_not_found

  -- `select_row` without a row to fill gives the row that the page stands for under the id, if it is there
  -- and not deleted.
  pub select_row-find :
      (p : Page) (es : List (Entry O)) (id : ℕ)
      → IsPage p es
      → select_row p id none ≡ selected p.table_id (find id es)
  unfolding select_row
  select_row-find p es id h = elim (search_row-Searched p es id h) [
    | inl (r, f) ↦ rw (select_row, r, f) refl
    | inr (k, e, r, f, alive, entry, entries) ↦
        let at_k : 0 + k ≡ k = omega arith in
        rw (select_row, r, at_k, f)
          (ap (λ row. ok row)
            (deserialize_row-IsEntry p p.free_space (get_or p.row_info k beyond) e entry alive))
  ]
