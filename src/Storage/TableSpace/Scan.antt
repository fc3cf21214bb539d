-- ===== src/Storage/TableSpace/Scan.antt =====
-- `get_next_row` of storage/table_space.cpp, call after call.
use cat_db.Prelude.{
  ℕ, zero, suc, ◌<◌, ◌≡◌, refl, sym, ◌∙◌, ap, inl, inr, List, [], ◌∷◌, Option, none, some, length,
  map, arith,
}
use cat_db.Error.{Code, success, ok, err, end_of_table_space}
use cat_db.Object.{ObjectClass}
use cat_db.Row.{Row}
use cat_db.Storage.Format.{Stored}
use cat_db.Storage.Page.{Page, rewind}
use cat_db.Storage.Page.Contents.{Entry}
use cat_db.Storage.Page.Select.{stored_row, deserialize_row-IsEntry}
use cat_db.Storage.Page.Cursor.{rewound-IsLeft}
use cat_db.Storage.PageMap.{find, found_in_map_pages}
use cat_db.Storage.TableSpace.{
  TableSpace, Next, get_page_from_offset, went_on, next_page, get_next_row, reset, reset_all_page,
}
use cat_db.Storage.TableSpace.Held.{IsSpace}
use cat_db.Storage.TableSpace.Lookup.{get_page-IsLoaded, get_page_beyond}
use cat_db.Storage.TableSpace.Release.{reset-IsSpace}
use cat_db.Storage.TableSpace.Turn.{IsScan, all_kept, to_come}
use cat_db.Storage.TableSpace.Round.{get_next_row-Stepped, found_there}

-- The rows of a scan, and how it ended: the code and the state, when it did.
abbrev pub Scanned : Type 0 → Type 0
Scanned O = List (Row O) × Option (Code × TableSpace)

abbrev pub collect : {O : Type 0} → (TableSpace → Scanned O) → Next O → Scanned O
collect go none = ([], none)
collect go (some (ok row, ts)) = (row ∷ (go ts).0, (go ts).1)
collect go (some (err c, ts)) = ([], some (c, ts))

module _ {O : Type 0} ⦃class : ObjectClass O⦄ ⦃stored : Stored O⦄ where
  -- Calls of `get_next_row` until one fails, at most `fuel`, and `pages` rounds in each.
  unfoldable pub scan : ℕ → ℕ → TableSpace → Scanned O
  scan zero pages ts = ([], none)
  scan (suc fuel) pages ts = collect (scan fuel pages) (get_next_row none pages ts)

  scan_step :
      (fuel pages : ℕ) (ts : TableSpace) (r : Next O)
      → get_next_row none pages ts ≡ r
      → scan (suc fuel) pages ts ≡ collect (scan fuel pages) r
  unfolding scan
  scan_step fuel pages ts r e = ap (collect (scan fuel pages)) e

  -- From a state in which the first call finds its page.
  scan_ready :
      (fuel pages : ℕ) (ts0 ts : TableSpace) (ess : List (List (Entry O))) (rest : List (Entry O))
      → get_page_from_offset ts0 ts0.cur_page_offset ≡ (success, ts)
      → IsScan ts ess rest
      → length (to_come ts ess rest) < fuel
      → length ess < pages
      → (ts' : TableSpace) × (scan fuel pages ts0
          ≡ (map (stored_row ts.table_id) (to_come ts ess rest), some (end_of_table_space, ts')))
        × IsSpace ts' ess
  scan_ready zero pages ts0 ts ess rest e h enough rounds = absurd (omega arith)
  scan_ready (suc fuel) pages ts0 ts ess rest e h enough rounds =
      let first = scan_step fuel pages ts0 (get_next_row none pages ts0) refl in
      elim (get_next_row-Stepped none pages ts0 ts ess rest e h rounds) [
        | inl (none_left, (ts', rest', run, over, same, h')) ↦
            (ts', first ∙ ap (collect (scan fuel pages)) run ∙ rw none_left refl, h'.is_space)
        | inr (x, rest', ts1, row, coming, run, (p, info, entry, table, alive, is), same, h') ↦
            let shorter : length (to_come ts1 ess rest') < fuel =
              omega (arith, enough, ap length coming) in
            let (ts', more, space) =
              scan_ready fuel pages ts1 ts1 ess rest' (found_there ts1 h'.page h'.found) h' shorter
                rounds in
            let read : row ≡ stored_row ts.table_id x =
              is
              ∙ deserialize_row-IsEntry p p.free_space info x entry alive
              ∙ ap (λ id. stored_row id x) table in
            (
              ts',
              first
                  ∙ ap (collect (scan fuel pages)) run
                  ∙ ap (λ (s : Scanned O). (row ∷ s.0, s.1)) more
                  ∙ ap (λ l. (l, some (end_of_table_space, ts')))
                      (rw (read, same) (ap (map (stored_row ts.table_id)) (sym coming))),
              space,
            )
      ]

  -- The first call after `reset` finds the first page, with all its rows to read.
  pub reset-IsScan :
      (ts : TableSpace) (es : List (Entry O)) (ess : List (List (Entry O)))
      → IsSpace ts (es ∷ ess)
      → (ts' : TableSpace) × (get_page_from_offset (reset ts) (reset ts).cur_page_offset
          ≡ (success, ts'))
        × IsScan ts' (es ∷ ess) es
        × (to_come ts' (es ∷ ess) es ≡ all_kept (es ∷ ess))
        × (ts'.table_id ≡ ts.table_id)
  unfolding reset reset_all_page
  reset-IsScan ts es ess h =
      let space = reset-IsSpace ts (es ∷ ess) h in
      let (ts1, run, loaded) = get_page-IsLoaded (reset ts) (es ∷ ess) 0 space (omega arith) in
      let rewound : (j : ℕ) (p : Page) → find ts1.pages j ≡ some p → p.row_idx ≡ 0 = λ j p f.
        elim (loaded.new_page j p f) [
          | inl f' ↦
              let (q, f'', same) = found_in_map_pages rewind ts.pages j p f' in
              ap (λ (r : Page). r.row_idx) (sym same)
          | inr e ↦ e
        ] in
      (
        ts1,
        run,
        record {
          is_space = loaded.is_space;
          page = loaded.page;
          found = rw loaded.cur_is loaded.found;
          is_left =
              rewound-IsLeft loaded.page es loaded.is_page.is_page
                (rewound 0 loaded.page loaded.found);
          reach = rw loaded.cur_is (omega arith);
          ahead = λ j p below f. rewound j p f;
        },
        rw loaded.cur_is refl,
        loaded.table_is,
      )

  -- In a table without pages there is none.
  pub get_next_row_empty :
      (given : Option (Row O)) (pages : ℕ) (ts : TableSpace)
      → IsSpace {O = O} ts []
      → get_next_row given pages ts ≡ some (err end_of_table_space, ts)
  unfolding get_next_row
  get_next_row_empty given pages ts h =
      ap (went_on (next_page given pages))
        (get_page_beyond none ts [] ts.cur_page_offset h (omega arith))

  -- A scan from `reset` on ends with `END_OF_TABLE_SPACE` and gives the rows of the table that are not
  -- deleted, page by page, the newest of each page first; the table has the same rows after it. It
  -- takes a call more than there are rows, and in a call no more rounds than a page more than there are.
  pub scan-IsSpace :
      (fuel pages : ℕ) (ts : TableSpace) (ess : List (List (Entry O)))
      → IsSpace ts ess
      → length (all_kept ess) < fuel
      → length ess < pages
      → (ts' : TableSpace) × (scan fuel pages (reset ts)
          ≡ (map (stored_row ts.table_id) (all_kept ess), some (end_of_table_space, ts')))
        × IsSpace ts' ess
  scan-IsSpace zero pages ts ess h enough rounds = absurd (omega arith)
  scan-IsSpace (suc fuel) pages ts [] h enough rounds =
      let space = reset-IsSpace ts [] h in
      (
        reset ts,
        scan_step fuel pages (reset ts) (some (err end_of_table_space, reset ts))
            (get_next_row_empty none pages (reset ts) space),
        space,
      )
  scan-IsSpace (suc fuel) pages ts (es ∷ ess) h enough rounds =
      let (ts1, run, scan', coming, same) = reset-IsScan ts es ess h in
      let (ts', all, after) =
        scan_ready (suc fuel) pages (reset ts) ts1 (es ∷ ess) es run scan' (rw coming enough)
          rounds in
      (ts', all ∙ rw (same, coming) refl, after)
