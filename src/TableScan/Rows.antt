-- ===== src/TableScan/Rows.antt =====
-- The rows that sql/table_scan.cpp delivers.
use cat_db.Prelude.{
  ℕ, zero, suc, ◌<◌, ◌≡◌, refl, ◌∙◌, ap, subst, ◌⊎◌, inl, inr, Bool, List, [], ◌∷◌, Option, some,
  map, length, arith, Bool-cases, length-replicate, length-map,
}
use cat_db.Error.{success, no_more_rows}
use cat_db.Expr.{Expression, plain, passes}
use cat_db.Object.{ObjectClass}
use cat_db.Operator.{Fetch, fetched, failed, Delivers, Ended, Ended-intro, Ended-failed}
use cat_db.Relation.{keep}
use cat_db.Row.{Row, make_row}
use cat_db.RowDesc.{RowDesc}
use cat_db.Storage.Format.{Stored}
use cat_db.Storage.Page.Contents.{Entry}
use cat_db.Storage.Page.Cursor.{IsReading}
use cat_db.Storage.Page.Project.{IsAccess, picked, accessed, deserialize_row-accessed}
use cat_db.Storage.IoService.{open_io}
use cat_db.Storage.TableSpace.{TableSpace, get_page_from_offset, open_space, reset}
use cat_db.Storage.TableSpace.Held.{IsSpace}
use cat_db.Storage.TableSpace.Release.{reset-IsSpace}
use cat_db.Storage.TableSpace.Scan.{reset-IsScan, get_next_row_empty}
use cat_db.Storage.TableSpace.Turn.{IsScan, all_kept, to_come}
use cat_db.Storage.TableSpace.Round.{get_next_row-Stepped, found_there}
use cat_db.TableScan.{State, taken, fetch_from, get_next_row}

module _ {O : Type 0} where
  -- The rows of the table have `w` cells.
  abbrev pub IsWide : ℕ → List (Entry O) → Type 0
  IsWide w [] = Unit
  IsWide w (e ∷ es) = (length e.cells ≡ w) × IsWide w es

module _ {O : Type 0} ⦃class : ObjectClass O⦄ ⦃stored : Stored O⦄ (pages : ℕ) (desc : RowDesc)
    (w : ℕ) (filter : Option (Expression O)) (ess : List (List (Entry O))) where
  -- What is still to be delivered of the rows to come.
  abbrev pub wanted : List (Entry O) → List (Row O)
  wanted es = keep (λ r. passes filter (plain r)) (map (accessed desc 0) es)

  abbrev IsTarget : Row O → Type 0
  IsTarget row =
      (row.row_desc ≡ desc)
      × (length row.cells ≡ row.row_desc.column_count)
      × (row.alias_table_id ≡ 0)

  read_accessed :
      (tid : ℕ) (row row' : Row O) (e : Entry O)
      → IsTarget row
      → IsAccess w desc
      → length e.cells ≡ w
      → IsReading tid (some row) e row'
      → row' ≡ accessed desc 0 e
  read_accessed tid row row' e (ed, ec, ea) access wide (p, info, entry, table, alive, is) =
      is
      ∙ deserialize_row-accessed p p.free_space info e row entry alive (rw (ed, wide) access) ec
      ∙ rw (ed, ea) refl

  accessed-IsTarget : (e : Entry O) → IsAccess w desc → IsTarget (accessed desc 0 e)
  accessed-IsTarget e access =
      (refl, length-map desc.column_desc (picked e.cells) ∙ access.count_is, refl)

  -- A call of the loop either comes to the end, or fetches the first row that is wanted.
  abbrev Fetched : List (Entry O) → Fetch (State O) (Row O) → Type 0
  Fetched coming result =
      ((wanted coming ≡ [])
        × ((ts : TableSpace) × (rest : List (Entry O)) × (result ≡ failed no_more_rows (ts, filter))
            × (to_come ts ess rest ≡ [])
            × IsScan ts ess rest))
      ⊎ ((r : Row O) × (ts : TableSpace) × (rest : List (Entry O)) × (wanted coming
            ≡ r ∷ wanted (to_come ts ess rest))
          × (result ≡ fetched r (ts, filter))
          × (length (to_come ts ess rest) < length coming)
          × IsWide w (to_come ts ess rest)
          × IsScan ts ess rest)

  fetch_from-Fetched :
      (n : ℕ) (row : Row O) (ts0 ts : TableSpace) (rest : List (Entry O))
      → get_page_from_offset ts0 ts0.cur_page_offset ≡ (success, ts)
      → IsScan ts ess rest
      → length (to_come ts ess rest) < n
      → length ess < pages
      → IsTarget row
      → IsAccess w desc
      → IsWide w (to_come ts ess rest)
      → Fetched (to_come ts ess rest) (fetch_from pages n row (ts0, filter))
  unfolding fetch_from keep
  fetch_from-Fetched zero row ts0 ts rest e h enough rounds target access wide =
      absurd (omega arith)
  fetch_from-Fetched (suc n) row ts0 ts rest e h enough rounds target access wide =
      elim (get_next_row-Stepped (some row) pages ts0 ts ess rest e h rounds) [
        | inl (none_left, (ts', rest', run, over, same, h')) ↦ inl (
          ap wanted none_left,
          (ts', rest', ap (taken (fetch_from pages n) (ts0, filter)) run, over, h'),
        )
        | inr (x, rest', ts', row', coming, run, reading, same, h') ↦
            let wide' : IsWide w (x ∷ to_come ts' ess rest') = subst (IsWide w) coming wide in
            let read = read_accessed ts.table_id row row' x target access wide'.0 reading in
            let shorter : length (to_come ts ess rest) ≡ suc (length (to_come ts' ess rest')) =
              ap length coming in
            elim (Bool-cases (passes filter (plain (accessed desc 0 x)))) [
              | inl y ↦ inr (
                accessed desc 0 x,
                ts',
                rest',
                ap wanted coming ∙ rw y refl,
                ap (taken (fetch_from pages n) (ts0, filter)) run ∙ rw (read, y) refl,
                omega (arith, shorter),
                wide'.1,
                h',
              )
              | inr nay ↦
                  let on : fetch_from pages (suc n) row (ts0, filter)
                      ≡ fetch_from pages n (accessed desc 0 x) (ts', filter) =
                    ap (taken (fetch_from pages n) (ts0, filter)) run ∙ rw (read, nay) refl in
                  let less : wanted (to_come ts ess rest) ≡ wanted (to_come ts' ess rest') =
                    ap wanted coming ∙ rw nay refl in
                  elim (fetch_from-Fetched n (accessed desc 0 x) ts' ts' rest'
                    (found_there ts' h'.page h'.found) h' (omega (arith, enough, shorter)) rounds
                    (accessed-IsTarget x access) access wide'.1) [
                      | inl (nothing, (t, r, ended, over, scan)) ↦
                          inl (less ∙ nothing, (t, r, on ∙ ended, over, scan))
                      | inr (r, t, rest'', found, got, shrinks, wide'', scan) ↦ inr (
                        r,
                        t,
                        rest'',
                        less ∙ found,
                        on ∙ got,
                        omega (arith, shrinks, shorter),
                        wide'',
                        scan,
                      )
                    ]
            ]
      ]

  module _ (fuel : ℕ) where
    abbrev next : State O → Fetch (State O) (Row O)
    next = get_next_row pages fuel desc

    new_row-IsTarget : IsTarget (make_row desc)
    new_row-IsTarget = (refl, length-replicate desc.column_count class.nullptr, refl)

    -- The scan has come to the end of the table.
    abbrev Over : State O → Type 0
    Over s =
        (ts : TableSpace) × (rest : List (Entry O)) × (get_page_from_offset s.0 s.0.cur_page_offset
          ≡ (success, ts))
        × IsScan ts ess rest
        × (to_come ts ess rest ≡ [])
        × (s.1 ≡ filter)

    fetch_from-Over :
        0 < fuel
        → length ess < pages
        → IsAccess w desc
        → (s : State O) → Over s
        → (s' : State O) × (next s ≡ failed no_more_rows s') × Over s'
    unfolding get_next_row
    fetch_from-Over some_fuel rounds access s (ts, rest, e, h, over, same) =
        elim (fetch_from-Fetched fuel (make_row desc) s.0 ts rest e h (rw over some_fuel) rounds
          new_row-IsTarget access (rw over tt)) [
            | inl (nothing, (ts', rest', run, over', h')) ↦ (
              (ts', filter),
              ap (λ f. fetch_from pages fuel (make_row desc) (s.0, f)) same ∙ run,
              (ts', rest', found_there ts' h'.page h'.found, h', over', refl),
            )
            | inr (r, ts', rest', found, run, shrinks, wide, h') ↦
                absurd (omega (arith, shrinks, ap length over))
          ]

    ended :
        0 < fuel
        → length ess < pages
        → IsAccess w desc
        → (s : State O) → Over s
        → Ended next no_more_rows s
    ended some_fuel rounds access s over n =
        Ended-intro next Over no_more_rows (fetch_from-Over some_fuel rounds access) n s over

    delivers :
        (k : ℕ) (ts0 ts : TableSpace) (rest : List (Entry O))
        → get_page_from_offset ts0 ts0.cur_page_offset ≡ (success, ts)
        → IsScan ts ess rest
        → length (to_come ts ess rest) < k
        → length (to_come ts ess rest) < fuel
        → length ess < pages
        → IsAccess w desc
        → IsWide w (to_come ts ess rest)
        → Delivers next no_more_rows (wanted (to_come ts ess rest)) (ts0, filter)
    unfolding get_next_row
    delivers zero ts0 ts rest e h bound enough rounds access wide = absurd (omega arith)
    delivers (suc k) ts0 ts rest e h bound enough rounds access wide =
        elim (fetch_from-Fetched fuel (make_row desc) ts0 ts rest e h enough rounds new_row-IsTarget
          access wide) [
            | inl (nothing, (ts', rest', run, over, h')) ↦ rw nothing (
                Ended-failed next no_more_rows (ts0, filter) (ts', filter) run
                  (ended (omega (arith, enough)) rounds access (ts', filter)
                    (ts', rest', found_there ts' h'.page h'.found, h', over, refl)))
            | inr (r, ts', rest', found, run, shrinks, wide', h') ↦ rw found (
              (ts', filter),
              run,
              delivers k ts' ts' rest' (found_there ts' h'.page h'.found) h'
                  (omega (arith, shrinks, bound)) (omega (arith, shrinks, enough)) rounds access
                  wide',
            )
          ]

    -- A table without pages.
    empty_step :
        0 < fuel
        → (s : State O) → IsSpace {O = O} s.0 []
        → (s' : State O) × (next s ≡ failed no_more_rows s') × IsSpace {O = O} s'.0 []
    unfolding get_next_row fetch_from
    empty_step some_fuel s h = first fuel some_fuel
      where
        first :
            (n : ℕ)
            → 0 < n
            → (s' : State O) × (fetch_from pages n (make_row desc) s ≡ failed no_more_rows s')
              × IsSpace {O = O} s'.0 []
        first zero lt = absurd (omega arith)
        first (suc n) lt = (
          s,
          ap (taken (fetch_from pages n) s) (get_next_row_empty (some (make_row desc)) pages s.0 h),
          h,
        )

-- After `open`, a table scan delivers the rows of the table that are not deleted and that pass the
-- filter, page by page, the newest of each page first, each with the columns that its description names.
-- The rows of the table have `w` cells, and the columns are among them; there is fuel for a round more
-- than there are rows, and a page more than there are.
pub table_scan-Delivers :
    {O : Type 0} ⦃class : ObjectClass O⦄ ⦃stored : Stored O⦄ (creatable : Bool) (pages fuel : ℕ)
    (desc : RowDesc) (w : ℕ) (filter : Option (Expression O)) (ts : TableSpace)
    (ess : List (List (Entry O)))
    → IsSpace (record ts { io = (open_io creatable ts.io).1 }) ess
    → length (all_kept ess) < fuel
    → length ess < pages
    → IsAccess w desc
    → IsWide w (all_kept ess)
    → Delivers
        (get_next_row pages fuel desc)
        no_more_rows
        (keep (λ r. passes filter (plain r)) (map (accessed desc 0) (all_kept ess)))
        (open_space creatable ts, filter)
unfolding open_space keep
table_scan-Delivers creatable pages fuel desc w filter ts [] h enough rounds access wide = λ n.
    let opened = record ts { io = (open_io creatable ts.io).1 } in
    Ended-intro (get_next_row pages fuel desc) (λ s. IsSpace s.0 []) no_more_rows
      (empty_step pages desc w filter [] fuel (omega (arith, enough))) n (reset opened, filter)
      (reset-IsSpace opened [] h)
table_scan-Delivers creatable pages fuel desc w filter ts (es ∷ ess) h enough rounds access wide =
    let opened = record ts { io = (open_io creatable ts.io).1 } in
    let (ts1, run, scan, coming, same) = reset-IsScan opened es ess h in
    subst
      (λ es'.
        Delivers (get_next_row pages fuel desc) no_more_rows
          (wanted pages desc w filter (es ∷ ess) es') (reset opened, filter))
      coming
      (delivers pages desc w filter (es ∷ ess) fuel fuel (reset opened) ts1 es run scan
        (rw coming enough) (rw coming enough) rounds access (rw coming wide))
