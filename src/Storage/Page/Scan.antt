-- ===== src/Storage/Page/Scan.antt =====
-- The scan of a page, storage/page.cpp: `open`, then `get_next_row` until it gives no more.
use cat_db.Prelude.{
  ℕ, zero, suc, ◌+◌, ◌-◌, ◌≤◌, ◌<◌, ◌≡◌, refl, ap, sym, subst, ◌∙◌, ◌⊎◌, inl, inr, true, false,
  List, [], ◌∷◌, ◌++◌, map, length, get_or, if◌then◌else◌, leb, arith, Option, none, length-append,
  get_or-append_length, Bool-cases,
}
use mathlib.Core.List.{append_assoc}
use cat_db.Error.{Result, ok, err, no_more_rows}
use cat_db.Object.{ObjectClass}
use cat_db.Row.{Row}
use cat_db.Storage.Memory.{Memory}
use cat_db.Storage.Format.{Stored}
use cat_db.Storage.Page.{Page, RowInfo, skip_deleted, rewind, get_next_row, deserialize_row, beyond}
use cat_db.Storage.Page.Contents.{Entry, IsEntry, IsEntries, IsPage, length-IsEntries}
use cat_db.Storage.Page.Search.{row_id_deleted-info_id}
use cat_db.Storage.Page.Select.{stored_row, deserialize_row-IsEntry}

-- The rows that are not deleted.
abbrev pub kept : {O : Type 0} → List (Entry O) → List (Entry O)
kept [] = []
kept (e ∷ es) = if e.gone then kept es else e ∷ kept es

module _ {O : Type 0} ⦃class : ObjectClass O⦄ ⦃stored : Stored O⦄ where
  -- At most `fuel` calls of `get_next_row`, until one fails.
  unfoldable pub scan : ℕ → Page → List (Row O)
  scan zero p = []
  scan (suc fuel) p =
      let (result, p') = get_next_row p none in
      let rest = scan fuel p' in elim result [ ok row ↦ row ∷ rest | err e ↦ [] ]

  scan_next :
      (fuel : ℕ) (p p' : Page) (row : Row O)
      → get_next_row p none ≡ (ok row, p')
      → scan (suc fuel) p ≡ row ∷ scan fuel p'
  unfolding scan
  scan_next fuel p p' row e =
      subst
        (λ (r : Result (Row O) × Page).
          elim r.0 [ ok x ↦ x ∷ scan fuel r.1 | err c ↦ [] ] ≡ row ∷ scan fuel p')
        (sym e) refl

  get_next_row-ended :
      (p : Page) (j : ℕ)
      → skip_deleted p.row_info p.row_idx (p.row_count - p.row_idx) ≡ j
      → p.row_count ≤ j
      → get_next_row {O = O} p none ≡ (err no_more_rows, record p { row_idx = j })
  unfolding get_next_row
  get_next_row-ended p j e h =
      let over : leb p.row_count j ≡ true = ground arith in rw (get_next_row, e, over) refl

  pub get_next_row-next :
      (p : Page) (j : ℕ) (info : RowInfo) (given : Option (Row O))
      → skip_deleted p.row_info p.row_idx (p.row_count - p.row_idx) ≡ j
      → get_or p.row_info j beyond ≡ info
      → j < p.row_count
      → get_next_row {O = O} p given
        ≡ (ok (deserialize_row p info given), record p { row_idx = j + 1 })
  unfolding get_next_row
  get_next_row-next p j info given e at h =
      let within : leb p.row_count j ≡ false = ground arith in rw (get_next_row, e, within, at) refl

  -- What the loop over deleted rows comes to from row info `i` on.
  abbrev pub Skipped : (m : Memory) (limit beg i : ℕ) → List RowInfo → List (Entry O) → ℕ → Type 0
  Skipped m limit beg i infos es result =
      ((result ≡ i + length infos) × (kept es ≡ []))
      ⊎ ((passed : List RowInfo) × (info : RowInfo) × (infos' : List RowInfo) × (e : Entry O)
          × (es' : List (Entry O)) × (result ≡ i + length passed)
          × (infos ≡ passed ++ info ∷ infos')
          × (kept es ≡ e ∷ kept es')
          × (e.gone ≡ false)
          × IsEntry m limit info e
          × IsEntries m limit beg infos' es')

  pub skip_deleted-Skipped :
      (infos pre : List RowInfo) (es : List (Entry O)) (all : List RowInfo) (m : Memory)
      (limit beg i n : ℕ)
      → IsEntries m limit beg infos es
      → all ≡ pre ++ infos
      → i ≡ length pre
      → n ≡ length infos
      → Skipped m limit beg i infos es (skip_deleted all i n)
  unfolding skip_deleted
  skip_deleted-Skipped [] pre [] all m limit beg i zero h ea ei en = inl (omega arith, refl)
  skip_deleted-Skipped [] pre [] all m limit beg i (suc n) h ea ei en = absurd (omega arith)
  skip_deleted-Skipped [] pre (e ∷ es) all m limit beg i n h ea ei en = elim h [ ]
  skip_deleted-Skipped (info ∷ infos) pre [] all m limit beg i n h ea ei en = elim h [ ]
  skip_deleted-Skipped (info ∷ infos) pre (e ∷ es) all m limit beg i zero h ea ei en =
      absurd (omega arith)
  skip_deleted-Skipped (info ∷ infos) pre (e ∷ es) all m limit beg i (suc n) h ea ei en =
      let at : get_or all i beyond ≡ info =
        rw (ea, ei, get_or-append_length pre infos info beyond) refl in
      let step : skip_deleted all i (suc n) ≡ (if e.gone then skip_deleted all (i + 1) n else i) =
        rw (skip_deleted, at, h.0.id_is, row_id_deleted-info_id e.id e.gone h.0.id_small) refl in
      elim (Bool-cases e.gone) [
        | inr alive ↦ inr (
          [],
          info,
          infos,
          e,
          es,
          step ∙ rw alive (omega arith),
          refl,
          rw alive refl,
          alive,
          h.0,
          h.2,
        )
        | inl y ↦
            let on : skip_deleted all i (suc n) ≡ skip_deleted all (i + 1) n = step ∙ rw y refl in
            let less : kept (e ∷ es) ≡ kept es = rw y refl in
            elim (skip_deleted-Skipped infos (pre ++ info ∷ []) es all m limit beg (i + 1) n h.2
              (ea ∙ sym (append_assoc pre (info ∷ []) infos)) (rw length-append (omega arith))
              (omega arith)) [
                | inl (r, k) ↦ inl (on ∙ r ∙ omega arith, less ∙ k)
                | inr (passed, info', infos', e', es', r, split, k, alive, entry, entries) ↦ inr (
                  info ∷ passed,
                  info',
                  infos',
                  e',
                  es',
                  on ∙ r ∙ omega arith,
                  ap (◌∷◌ info) split,
                  less ∙ k,
                  alive,
                  entry,
                  entries,
                )
              ]
      ]

  scan_from :
      (fuel : ℕ) (infos pre : List RowInfo) (es : List (Entry O)) (p : Page)
      → IsEntries p.memory p.free_space p.beg_row_id infos es
      → p.row_info ≡ pre ++ infos
      → p.row_idx ≡ length pre
      → p.row_count ≡ length pre + length infos
      → length infos < fuel
      → scan fuel p ≡ map (stored_row p.table_id) (kept es)
  unfolding scan
  scan_from zero infos pre es p h ei ex ec lt = absurd (omega arith)
  scan_from (suc fuel) infos pre es p h ei ex ec lt =
      elim (skip_deleted-Skipped infos pre es p.row_info p.memory p.free_space p.beg_row_id
        p.row_idx (p.row_count - p.row_idx) h ei ex (omega arith)) [
          | inl (r, k) ↦
              let last = get_next_row-ended p (p.row_idx + length infos) r (omega arith) in
              rw (scan, last, k) refl
          | inr (passed, info, infos', e, es', r, split, k, alive, entry, entries) ↦
              let j = p.row_idx + length passed in
              let parts : length infos ≡ length passed + suc (length infos') =
                rw split (length-append passed (info ∷ infos')) in
              let all : p.row_info ≡ (pre ++ passed) ++ info ∷ infos' =
                ei ∙ ap (◌++◌ pre) split ∙ sym (append_assoc pre passed (info ∷ infos')) in
              let lengths = length-append pre passed in
              let here : j ≡ length (pre ++ passed) = omega (arith, lengths, ex) in
              let at : get_or p.row_info j beyond ≡ info =
                rw (all, here) (get_or-append_length (pre ++ passed) infos' info beyond) in
              let next = get_next_row-next p j info none r at (omega (arith, parts, ex, ec)) in
              let lengths' = length-append (pre ++ passed) (info ∷ []) in
              let ih =
                scan_from fuel infos' ((pre ++ passed) ++ info ∷ []) es'
                  (record p { row_idx = j + 1 }) entries
                  (all ∙ sym (append_assoc (pre ++ passed) (info ∷ []) infos'))
                  (omega (arith, lengths', here)) (omega (arith, lengths', lengths, parts, ec))
                  (omega (arith, parts)) in
              scan_next fuel p (record p { row_idx = j + 1 }) (deserialize_row p info none) next
              ∙ rw (k, ih)
                  (ap (λ row. row ∷ map (stored_row p.table_id) (kept es'))
                    (deserialize_row-IsEntry p p.free_space info e entry alive))
        ]

  -- A scan of a page gives the rows that the page stands for and that are not deleted, the newest first.
  pub scan-IsPage :
      (fuel : ℕ) (p : Page) (es : List (Entry O))
      → IsPage p es
      → length es < fuel
      → scan fuel (rewind p) ≡ map (stored_row p.table_id) (kept es)
  scan-IsPage fuel p es h lt =
      let len = length-IsEntries p.row_info es p.memory p.free_space p.beg_row_id h.entries_are in
      scan_from fuel p.row_info [] es (rewind p) h.entries_are refl refl
        (omega (arith, len, h.count_is)) (omega arith)
