-- ===== src/Storage/Page/Delete.antt =====
-- `delete_row` of storage/page.cpp, and `select_row` after an insertion or a deletion.
use cat_db.Prelude.{
  ℕ, ◌+◌, ◌^◌, ◌≤◌, ◌<◌, ◌≡◌, ◌≢◌, refl, ap, sym, subst, ◌∙◌, ◌⊎◌, inl, inr, true, false, ◌&&◌,
  List, [], ◌∷◌, length, if◌then◌else◌, ◌==◌, arith, Option, none, some, Bool-cases,
}
use cat_db.Error.{Code, ok, err, success, row_id_not_found}
use cat_db.Object.{ObjectClass}
use cat_db.Row.{Row}
use cat_db.Storage.Memory.{Memory}
use cat_db.Storage.Format.{Stored}
use cat_db.Storage.Page.{
  Page, RowInfo, insert_row, delete_row, select_row, mark_deleted, have_free_space_insert,
}
use cat_db.Storage.Page.Contents.{Entry, IsEntries, IsPage}
use cat_db.Storage.Page.Search.{live, find, erase, length-erase, search_row-Searched}
use cat_db.Storage.Page.Select.{stored_row, select_row-find}
use cat_db.Storage.Page.Insert.{IsStoredRow, insert_row-IsPage}

some≢none : {O : Type 0} {e : Entry O} → some e ≢ none
some≢none h = cc

pub erase_absent :
    {O : Type 0} (id : ℕ) (es : List (Entry O)) → find id es ≡ none → erase id es ≡ es
erase_absent id [] h = refl
erase_absent id (e ∷ es) h = elim (Bool-cases (live id e)) [
  | inl y ↦ let found : find id (e ∷ es) ≡ some e = rw y refl in absurd (some≢none (sym found ∙ h))
  | inr nay ↦
      let found : find id (e ∷ es) ≡ find id es = rw nay refl in
      rw nay (ap (◌∷◌ e) (erase_absent id es (sym found ∙ h)))
]

module _ {O : Type 0} ⦃class : ObjectClass O⦄ ⦃stored : Stored O⦄ where
  abbrev pub found_code : Option (Entry O) → Code
  found_code (some e) = success
  found_code none = row_id_not_found

  -- `delete_row` finds the row as `select_row` does, and the page then stands for the same rows, that
  -- one deleted; when there is none, the page is left as it is.
  pub delete_row-IsPage :
      (p : Page) (es : List (Entry O)) (id : ℕ)
      → IsPage p es
      → (p' : Page) × (delete_row p id ≡ (found_code (find id es), p'))
        × ((p'.table_id ≡ p.table_id) × (p'.beg_row_id ≡ p.beg_row_id))
        × IsPage p' (erase id es)
  unfolding delete_row
  delete_row-IsPage p es id h = elim (search_row-Searched p es id h) [
    | inl (r, f) ↦ (
      p,
      rw (delete_row, r, f) refl,
      (refl, refl),
      subst (λ es'. IsPage p es') (sym (erase_absent id es f)) h,
    )
    | inr (k, e, r, f, alive, entry, entries) ↦ (
      record p { row_info = mark_deleted k p.row_info; is_dirty = true },
      (let at_k : 0 + k ≡ k = omega arith in rw (delete_row, r, at_k, f) refl),
      (refl, refl),
      record {
        entries_are = entries;
        count_is = rw length-erase h.count_is;
        end_is = rw length-erase h.end_is;
        end_small = h.end_small;
        offset_is = h.offset_is;
        size_is = h.size_is;
      },
    )
  ]

  -- The page is left as it is when it has no such row, and is dirty otherwise.
  pub delete_row_page :
      (p : Page) (es : List (Entry O)) (id : ℕ)
      → IsPage p es
      → (((delete_row p id).1 ≡ p) × (find id es ≡ none))
        ⊎ ((infos : List RowInfo) × ((delete_row p id).1
              ≡ record p { row_info = infos; is_dirty = true }))
  unfolding delete_row
  delete_row_page p es id h = elim (search_row-Searched p es id h) [
    | inl (r, f) ↦ inl (rw (delete_row, r) refl, f)
    | inr (k, e, r, f, alive, entry, entries) ↦
        inr (mark_deleted (0 + k) p.row_info, rw (delete_row, r) refl)
  ]

  -- The ids of a page's rows lie from its first on.
  pub find_beyond :
      (infos : List RowInfo) (es : List (Entry O)) (m : Memory) (limit beg id : ℕ)
      → IsEntries m limit beg infos es
      → (id < beg) ⊎ (beg + length es ≤ id)
      → find id es ≡ none
  find_beyond infos [] m limit beg id h o = refl
  find_beyond [] (e ∷ es) m limit beg id h o = elim h [ ]
  find_beyond (info ∷ infos) (e ∷ es) m limit beg id h o =
      let miss : live id e ≡ false = ground (arith, h.1) in
      rw miss (find_beyond infos es m limit beg id h.2 (ground arith))

  find-erase_self :
      (infos : List RowInfo) (es : List (Entry O)) (m : Memory) (limit beg id : ℕ)
      → IsEntries m limit beg infos es
      → find id (erase id es) ≡ none
  find-erase_self infos [] m limit beg id h = refl
  find-erase_self [] (e ∷ es) m limit beg id h = elim h [ ]
  find-erase_self (info ∷ infos) (e ∷ es) m limit beg id h = elim (Bool-cases (live id e)) [
    | inl y ↦
        let own : id ≡ e.id = ground (arith, y) in
        let dead : (id == e.id && false) ≡ false = ground arith in
        rw (y, dead) (find_beyond infos es m limit beg id h.2 (inr (omega (arith, own, h.1))))
    | inr nay ↦ rw (nay, nay) (find-erase_self infos es m limit beg id h.2)
  ]

  find-erase_other :
      (es : List (Entry O)) (id id' : ℕ) → id ≢ id' → find id' (erase id es) ≡ find id' es
  find-erase_other [] id id' ne = refl
  find-erase_other (e ∷ es) id id' ne = elim (Bool-cases (live id e)) [
    | inl y ↦
        let other : live id' e ≡ false = ground (arith, y, ne) in
        let dead : (id' == e.id && false) ≡ false = ground arith in rw (y, dead, other) refl
    | inr nay ↦ rw (nay, find-erase_other es id id' ne) refl
  ]

  -- After `delete_row` of an id, `select_row` finds it no more, and gives what it gave before on every
  -- other.
  pub select_row-delete_row :
      (p : Page) (es : List (Entry O)) (id id' : ℕ)
      → IsPage p es
      → select_row {O = O} (delete_row p id).1 id' none
        ≡ (if id == id' then err row_id_not_found else select_row {O = O} p id' none)
  select_row-delete_row p es id id' h =
      let (p', run, table, h') = delete_row-IsPage p es id h in
      elim (Bool-cases (id == id')) [
        | inl y ↦
            let own : id ≡ id' = ground (arith, y) in
            let lost : find id' (erase id es) ≡ none =
              subst (λ k. find k (erase id es) ≡ none) own
                (find-erase_self p.row_info es p.memory p.free_space p.beg_row_id id
                  h.entries_are) in
            rw (run, y) (select_row-find p' (erase id es) id' h' ∙ rw lost refl)
        | inr nay ↦
            let other : id ≢ id' = λ e. ground (arith, nay, e) in
            rw (run, nay)
              (select_row-find p' (erase id es) id' h'
                ∙ rw (table.0, find-erase_other es id id' other) (sym (select_row-find p es id' h)))
      ]

  -- A page that has the room takes a row; the id that the call returns then selects the row's objects,
  -- in the order of the table's columns, and every other id selects what it did.
  pub select_row-insert_row :
      (p : Page) (es : List (Entry O)) (row : Row O) (id : ℕ)
      → IsPage p es
      → IsStoredRow row
      → have_free_space_insert p row ≡ true
      → p.end_row_id + 1 < 2 ^ 31
      → ((insert_row p row).0 ≡ ok p.end_row_id)
        × (select_row (insert_row p row).1 id none ≡ (
            if id == p.end_row_id
            then ok (
                stored_row p.table_id
                  (record { id = p.end_row_id; gone = false; cells = row.cells }))
            else select_row p id none))
  select_row-insert_row p es row id h good room ids =
      let (p', run, table, h') = insert_row-IsPage p es row h good room ids in
      let new : Entry O = record { id = p.end_row_id; gone = false; cells = row.cells } in
      rw run (
        refl,
        elim (Bool-cases (id == p.end_row_id)) [
          | inl y ↦ rw y (select_row-find p' (new ∷ es) id h' ∙ rw (y, table.0) refl)
          | inr nay ↦ rw nay (
              select_row-find p' (new ∷ es) id h'
              ∙ rw (nay, table.0) (sym (select_row-find p es id h)))
        ],
      )
