-- ===== src/Storage/Page/Cursor.antt =====
-- `have_row` and `get_next_row` of storage/page.cpp on a page that has been read up to some row.
use cat_db.Prelude.{
  ℕ, suc, ◌+◌, ◌-◌, ◌≡◌, ◌<◌, refl, sym, ◌∙◌, ap, ◌⊎◌, inl, inr, true, false, List, [], ◌∷◌, ◌++◌,
  Option, length, get_or, arith, length-append, get_or-append_length, ltb,
}
use mathlib.Core.List.{append_assoc}
use cat_db.Error.{ok}
use cat_db.Object.{ObjectClass}
use cat_db.Row.{Row}
use cat_db.Storage.Format.{Stored}
use cat_db.Storage.Page.{Page, RowInfo, have_row, get_next_row, beyond, deserialize_row}
use cat_db.Storage.Page.Contents.{Entry, IsEntry, IsEntries, IsPage, length-IsEntries}
use cat_db.Storage.Page.Scan.{kept, skip_deleted-Skipped, get_next_row-next}

module _ {O : Type 0} ⦃class : ObjectClass O⦄ ⦃stored : Stored O⦄ where
  -- The rows that are still to be read.
  pub record IsLeft (p : Page) (es : List (Entry O)) : Type 0 where
    pub passed : List RowInfo
    pub infos : List RowInfo
    pub entries_are : IsEntries p.memory p.free_space p.beg_row_id infos es
    pub all_is : p.row_info ≡ passed ++ infos
    pub idx_is : p.row_idx ≡ length passed
    pub count_is : p.row_count ≡ length passed + length infos

  pub rewound-IsLeft : (p : Page) (es : List (Entry O)) → IsPage p es → p.row_idx ≡ 0 → IsLeft p es
  rewound-IsLeft p es h rewound =
      let len = length-IsEntries p.row_info es p.memory p.free_space p.beg_row_id h.entries_are in
      record {
        passed = [];
        infos = p.row_info;
        entries_are = h.entries_are;
        all_is = refl;
        idx_is = rewound;
        count_is = omega (arith, len, h.count_is);
      }

  -- The row is read from a record that stands for the entry, and filled in as `given` says.
  abbrev pub IsReading : ℕ → Option (Row O) → Entry O → Row O → Type 0
  IsReading table_id given e row =
      (p : Page) × (info : RowInfo) × IsEntry p.memory p.free_space info e
      × (p.table_id ≡ table_id)
      × (e.gone ≡ false)
      × (row ≡ deserialize_row p info given)

  -- Either there is no row left, and `have_row` says so, or it says that there is, and `get_next_row`
  -- gives the first and goes behind it.
  pub get_next_row-IsLeft :
      (p : Page) (es : List (Entry O)) (given : Option (Row O))
      → IsLeft p es
      → ((kept es ≡ []) × (have_row p ≡ false))
        ⊎ ((i : ℕ) × (e : Entry O) × (es' : List (Entry O)) × (row : Row O) × (kept es
              ≡ e ∷ kept es')
            × (have_row p ≡ true)
            × (get_next_row p given ≡ (ok row, record p { row_idx = i }))
            × IsReading p.table_id given e row
            × IsLeft (record p { row_idx = i }) es')
  unfolding have_row
  get_next_row-IsLeft p es given h =
      elim (skip_deleted-Skipped h.infos h.passed es p.row_info p.memory p.free_space p.beg_row_id
        p.row_idx (p.row_count - p.row_idx) h.entries_are h.all_is h.idx_is
        (omega (arith, h.idx_is, h.count_is))) [
          | inl (r, k) ↦
              let over : ltb (p.row_idx + length h.infos) p.row_count ≡ false =
                ground (arith, h.idx_is, h.count_is) in
              inl (k, rw (have_row, r) over)
          | inr (passed, info, infos', e, es', r, split, k, alive, entry, entries) ↦
              let j = p.row_idx + length passed in
              let parts : length h.infos ≡ length passed + suc (length infos') =
                rw split (length-append passed (info ∷ infos')) in
              let before = h.passed ++ passed in
              let all : p.row_info ≡ before ++ info ∷ infos' =
                h.all_is
                ∙ ap (◌++◌ h.passed) split
                ∙ sym (append_assoc h.passed passed (info ∷ infos')) in
              let here : j ≡ length before =
                omega (arith, length-append h.passed passed, h.idx_is) in
              let at : get_or p.row_info j beyond ≡ info =
                rw (all, here) (get_or-append_length before infos' info beyond) in
              let within : j < p.row_count = omega (arith, parts, h.idx_is, h.count_is) in
              let there : ltb j p.row_count ≡ true = ground (arith, within) in
              let lengths = length-append before (info ∷ []) in
              inr (
                j + 1,
                e,
                es',
                deserialize_row p info given,
                k,
                rw (have_row, r) there,
                get_next_row-next p j info given r at within,
                (p, info, entry, refl, alive, refl),
                record {
                  passed = before ++ info ∷ [];
                  infos = infos';
                  entries_are = entries;
                  all_is = all ∙ sym (append_assoc before (info ∷ []) infos');
                  idx_is = omega (arith, lengths, here);
                  count_is = omega (arith, lengths, here, parts, h.idx_is, h.count_is);
                },
              )
        ]
