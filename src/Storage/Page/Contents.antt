-- ===== src/Storage/Page/Contents.antt =====
-- What a page of storage/page.cpp stands for: a list of rows, the newest first, each with its id, whether
-- it is deleted, and its objects.
use cat_db.Prelude.{
  ℕ, suc, ◌+◌, ◌-◌, ◌*◌, ◌^◌, ◌≤◌, ◌<◌, ◌≡◌, ◌∙◌, refl, ap, Bool, List, [], ◌∷◌, length,
  if◌then◌else◌, arith,
}
use cat_db.Object.{ObjectClass}
use cat_db.Storage.Memory.{Memory, get16, get16_congr}
use cat_db.Storage.Format.{Stored}
use cat_db.Storage.Page.{Page, RowInfo, reset_page}
use cat_db.Storage.Page.Record.{AllStored, IsRecord, keep-IsRecord}

pub record Entry (O : Type 0) : Type 0 where
  pub id : ℕ
  pub gone : Bool
  pub cells : List O

abbrev pub info_id : ℕ → Bool → ℕ
info_id id gone = if gone then id + 2 ^ 31 else id

module _ {O : Type 0} ⦃class : ObjectClass O⦄ ⦃stored : Stored O⦄ where
  -- A row info and the record behind it stand for the entry.
  pub record IsEntry (m : Memory) (limit : ℕ) (info : RowInfo) (e : Entry O) : Type 0 where
    pub id_is : info.row_id ≡ info_id e.id e.gone
    pub id_small : e.id < 2 ^ 31
    pub all_stored : AllStored e.cells
    pub count_is : get16 m info.offset ≡ length e.cells
    pub count_fits : info.offset + 2 ≤ limit
    pub record_is : IsRecord m limit info.offset 0 e.cells

  -- The ids go up by one from row to row.
  abbrev pub IsEntries : (m : Memory) (limit beg : ℕ) → List RowInfo → List (Entry O) → Type 0
  IsEntries m limit beg [] [] = Unit
  IsEntries m limit beg [] (e ∷ es) = ⊥
  IsEntries m limit beg (info ∷ infos) [] = ⊥
  IsEntries m limit beg (info ∷ infos) (e ∷ es) =
      IsEntry m limit info e × (e.id ≡ beg + length es) × IsEntries m limit beg infos es

  pub record IsPage (p : Page) (es : List (Entry O)) : Type 0 where
    pub entries_are : IsEntries p.memory p.free_space p.beg_row_id p.row_info es
    pub count_is : p.row_count ≡ length es
    pub end_is : p.end_row_id ≡ p.beg_row_id + length es
    pub end_small : p.end_row_id ≤ 2 ^ 31
    -- The free space lies between the records and the row infos.
    pub offset_is : p.free_offset ≡ 40 + p.free_space
    pub size_is : p.free_offset + p.free_size + 8 * p.row_count ≡ 16384

  pub keep-IsEntries :
      (infos : List RowInfo) (es : List (Entry O)) (m m' : Memory) (limit limit' beg : ℕ)
      → ((j : ℕ) → j < limit → m' j ≡ m j)
      → limit ≤ limit'
      → IsEntries m limit beg infos es
      → IsEntries m' limit' beg infos es
  keep-IsEntries [] [] m m' limit limit' beg same le h = tt
  keep-IsEntries [] (e ∷ es) m m' limit limit' beg same le h = h
  keep-IsEntries (info ∷ infos) [] m m' limit limit' beg same le h = h
  keep-IsEntries (info ∷ infos) (e ∷ es) m m' limit limit' beg same le (h, id, rest) =
      let h' : IsEntry m' limit' info e = record {
        id_is = h.id_is;
        id_small = h.id_small;
        all_stored = h.all_stored;
        count_is =
            get16_congr m' m info.offset (same _ (omega (arith, h.count_fits)))
              (same _ (omega (arith, h.count_fits)))
            ∙ h.count_is;
        count_fits = (omega (arith, h.count_fits));
        record_is = keep-IsRecord e.cells m m' limit limit' info.offset 0 same le h.record_is;
      } in
      (h', id, keep-IsEntries infos es m m' limit limit' beg same le rest)

  pub length-IsEntries :
      (infos : List RowInfo) (es : List (Entry O)) (m : Memory) (limit beg : ℕ)
      → IsEntries m limit beg infos es
      → length infos ≡ length es
  length-IsEntries [] [] m limit beg h = refl
  length-IsEntries [] (e ∷ es) m limit beg h = elim h [ ]
  length-IsEntries (info ∷ infos) [] m limit beg h = elim h [ ]
  length-IsEntries (info ∷ infos) (e ∷ es) m limit beg h =
      ap suc (length-IsEntries infos es m limit beg h.2)

  -- On a page that stands for rows, `reset_page` finds the free space where it was, and the row infos
  -- begin behind it: they take the last `8 * row_count` of the 16384 bytes.
  pub reset_page-IsPage :
      (p : Page) (es : List (Entry O))
      → IsPage p es
      → (reset_page p ≡ record p { row_idx = p.row_count })
        × (p.free_offset + p.free_size ≡ 16384 - 8 * length es)
  unfolding reset_page
  reset_page-IsPage p es h =
      let back : p.free_offset - 40 ≡ p.free_space = omega (arith, h.offset_is) in
      (rw (reset_page, back) refl, omega (arith, h.size_is, h.count_is))
