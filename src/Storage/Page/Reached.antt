-- ===== src/Storage/Page/Reached.antt =====
-- The pages that the operations of storage/page.cpp lead to from a new one, in whatever order they are called.
use cat_db.Prelude.{
  ℕ, ◌+◌, ◌-◌, ◌^◌, ◌<◌, ◌≡◌, refl, ◌∙◌, true, false, List, [], ◌∷◌, Option, leb, arith, Bool-cases,
  inl, inr,
}
use cat_db.Object.{ObjectClass}
use cat_db.Row.{Row}
use cat_db.Storage.Format.{Stored}
use cat_db.Storage.Page.{
  Page, make_page, insert_row, delete_row, get_next_row, reset_page, rewind, have_free_space_insert,
  skip_deleted,
}
use cat_db.Storage.Page.Contents.{Entry, IsPage, reset_page-IsPage}
use cat_db.Storage.Page.Insert.{IsStoredRow, insert_row-IsPage, insert_row-refuses}
use cat_db.Storage.Page.Search.{erase}
use cat_db.Storage.Page.Delete.{delete_row-IsPage}

module _ {O : Type 0} ⦃class : ObjectClass O⦄ ⦃stored : Stored O⦄ where
  -- A page whose first row id is `beg`, reached by calls, and the rows that were put into it.
  pub data Reached (beg : ℕ) : Page → List (Entry O) → Type 0 where
    fresh :
        (table_id page_offset page_pre page_next : ℕ)
        → Reached beg (make_page table_id page_offset page_pre page_next beg) []
    inserted_row :
        (p : Page) (es : List (Entry O)) (row : Row O)
        → Reached beg p es
        → IsStoredRow row
        → have_free_space_insert p row ≡ true
        → Reached beg
            (insert_row p row).1
            (record { id = p.end_row_id; gone = false; cells = row.cells } ∷ es)
    refused_row :
        (p : Page) (es : List (Entry O)) (row : Row O)
        → Reached beg p es
        → have_free_space_insert p row ≡ false
        → Reached beg (insert_row p row).1 es
    deleted_row :
        (p : Page) (es : List (Entry O)) (id : ℕ)
        → Reached beg p es
        → Reached beg (delete_row p id).1 (erase id es)
    scanned :
        (p : Page) (es : List (Entry O)) (given : Option (Row O))
        → Reached beg p es
        → Reached beg (get_next_row p given).1 es
    rewound : (p : Page) (es : List (Entry O)) → Reached beg p es → Reached beg (rewind p) es
    read_again : (p : Page) (es : List (Entry O)) → Reached beg p es → Reached beg (reset_page p) es

  at_index :
      (p : Page) (es : List (Entry O)) (i : ℕ) → IsPage p es → IsPage (record p { row_idx = i }) es
  at_index p es i h = record {
    entries_are = h.entries_are;
    count_is = h.count_is;
    end_is = h.end_is;
    end_small = h.end_small;
    offset_is = h.offset_is;
    size_is = h.size_is;
  }

  next_index :
      (p : Page) (given : Option (Row O))
      → (i : ℕ) × ((get_next_row p given).1 ≡ record p { row_idx = i })
  unfolding get_next_row
  next_index p given =
      let i = skip_deleted p.row_info p.row_idx (p.row_count - p.row_idx) in
      elim (Bool-cases (leb p.row_count i)) [
        | inl y ↦ (i, rw y refl)
        | inr nay ↦ (i + 1, rw nay refl)
      ]

  -- Every page that the operations lead to stands for the rows that were put into it and those marked
  -- deleted since, and keeps its first row id; when that is below 2^31 - 2044.
  pub Reached-IsPage :
      (beg : ℕ) (p : Page) (es : List (Entry O))
      → beg + 2044 < 2 ^ 31
      → Reached beg p es
      → IsPage p es × (p.beg_row_id ≡ beg)
  Reached-IsPage beg p es small (fresh table_id page_offset page_pre page_next) = (
    record {
      entries_are = tt;
      count_is = refl;
      end_is = omega arith;
      end_small = omega arith;
      offset_is = refl;
      size_is = refl;
    },
    refl,
  )
  Reached-IsPage beg p es small (inserted_row q es' row h good room) =
      let (page, first) = Reached-IsPage beg q es' small h in
      let few : q.end_row_id + 1 < 2 ^ 31 =
        omega (arith, small, first, page.end_is, page.count_is, page.offset_is, page.size_is) in
      let (p', run, kept, page') = insert_row-IsPage q es' row page good room few in
      rw run (page', kept.1 ∙ first)
  Reached-IsPage beg p es small (refused_row q es' row h full) =
      rw (insert_row-refuses q row full) (Reached-IsPage beg q es' small h)
  Reached-IsPage beg p es small (deleted_row q es' id h) =
      let (page, first) = Reached-IsPage beg q es' small h in
      let (p', run, kept, page') = delete_row-IsPage q es' id page in rw run (page', kept.1 ∙ first)
  Reached-IsPage beg p es small (scanned q es' given h) =
      let (page, first) = Reached-IsPage beg q es' small h in
      let (i, run) = next_index q given in rw run (at_index q es' i page, first)
  Reached-IsPage beg p es small (rewound q es' h) =
      let (page, first) = Reached-IsPage beg q es' small h in (at_index q es' 0 page, first)
  Reached-IsPage beg p es small (read_again q es' h) =
      let (page, first) = Reached-IsPage beg q es' small h in
      rw ((reset_page-IsPage q es' page).0) (at_index q es' q.row_count page, first)
