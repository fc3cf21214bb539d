-- ===== src/Storage/TableSpace/Round.antt =====
-- `get_next_row` of storage/table_space.cpp: the loop over the pages without rows.
use cat_db.Prelude.{
  ℕ, zero, suc, ◌+◌, ◌-◌, ◌<◌, ◌≡◌, ◌≢◌, refl, ◌∙◌, ap, ◌⊎◌, inl, inr, true, false, List, [],
  Option, some, if◌then◌else◌, ◌==◌, length, get_or, drop, drop_all, arith, Bool-cases,
}
use cat_db.Error.{success, ok, err, end_of_table_space}
use cat_db.Object.{ObjectClass}
use cat_db.Row.{Row}
use cat_db.Storage.Format.{Stored}
use cat_db.Storage.Page.{Page, have_row}
use cat_db.Storage.Page.Contents.{Entry}
use cat_db.Storage.Page.Scan.{kept}
use cat_db.Storage.Page.Cursor.{get_next_row-IsLeft}
use cat_db.Storage.PageMap.{find, erase}
use cat_db.Storage.TableSpace.{
  TableSpace, Next, page_at, offset_of, get_last_page, get_page_from_offset, get_page_into,
  row_of_page, went_on, go_on, round, next_page, get_next_row,
}
use cat_db.Storage.TableSpace.Last.{get_last_page-IsLoaded}
use cat_db.Storage.TableSpace.Insert.{page_at-find}
use cat_db.Storage.TableSpace.Release.{held_safe}
use cat_db.Storage.TableSpace.Turn.{
  IsScan, Stepped, to_come, row_of_page-Stepped, turn_page, to_come_next,
}

pub found_there :
    (ts : TableSpace) (p : Page)
    → find ts.pages ts.cur_page_offset ≡ some p
    → get_page_from_offset ts ts.cur_page_offset ≡ (success, ts)
unfolding get_page_into
found_there ts p e = rw (get_page_into, e) refl

module _ {O : Type 0} ⦃class : ObjectClass O⦄ ⦃stored : Stored O⦄ where
  round_more :
      (given : Option (Row O)) (go : TableSpace → Next O) (ts : TableSpace) (p : Page)
      → page_at ts ts.cur_page_offset ≡ p
      → have_row p ≡ true
      → round given go ts ≡ row_of_page given ts
  round_more given go ts p at more =
      ap (λ q. if have_row q then row_of_page given ts else go_on go q (get_last_page ts)) at
      ∙ rw more refl

  round_done :
      (given : Option (Row O)) (go : TableSpace → Next O) (ts : TableSpace) (p : Page)
      → page_at ts ts.cur_page_offset ≡ p
      → have_row p ≡ false
      → round given go ts ≡ go_on go p (get_last_page ts)
  round_done given go ts p at done =
      ap (λ q. if have_row q then row_of_page given ts else go_on go q (get_last_page ts)) at
      ∙ rw done refl

  go_on_end :
      (go : TableSpace → Next O) (p : Page) (ts : TableSpace) (m : ℕ)
      → offset_of ts (ok m) ≡ m
      → ts.cur_page_offset ≡ m
      → go_on go p (ok m, ts) ≡ some (err end_of_table_space, ts)
  go_on_end go p ts m offset here =
      let last : (ts.cur_page_offset == offset_of ts (ok m)) ≡ true =
        ground (arith, offset, here) in
      rw last refl

  go_on_next :
      (go : TableSpace → Next O) (p : Page) (ts : TableSpace) (m n : ℕ)
      → offset_of ts (ok m) ≡ m
      → ts.cur_page_offset ≢ m
      → p.page_next ≡ n
      → go_on go p (ok m, ts)
        ≡ went_on go (
            get_page_into
              (some p)
              (record ts { pages = erase ts.pages ts.cur_page_offset; cur_page_offset = n })
              n)
  go_on_next go p ts m n offset other next =
      let not_last : (ts.cur_page_offset == offset_of ts (ok m)) ≡ false =
        ground (arith, offset, other) in
      rw not_last (
        ap
          (λ k. went_on go (
            get_page_into (some p)
              (record ts { pages = erase ts.pages ts.cur_page_offset; cur_page_offset = k }) k))
          next)

  along-Stepped :
      (given : Option (Row O)) (ts ts' : TableSpace) (ess : List (List (Entry O)))
      (coming coming' : List (Entry O)) (r r' : Next O)
      → coming ≡ coming'
      → r ≡ r'
      → ts'.table_id ≡ ts.table_id
      → Stepped given ts' ess coming' r'
      → Stepped given ts ess coming r
  along-Stepped given ts ts' ess coming coming' r r' ec er et
        (inl (none_left, (t, rest, run, over, same, scan))) =
      inl (ec ∙ none_left, (t, rest, er ∙ run, over, same ∙ et, scan))
  along-Stepped given ts ts' ess coming coming' r r' ec er et
        (inr (e, rest, t, row, next, run, (p, info, entry, table, alive, is), same, scan)) =
      inr (
        e,
        rest,
        t,
        row,
        ec ∙ next,
        er ∙ run,
        (p, info, entry, table ∙ et, alive, is),
        same ∙ et,
        scan,
      )

  -- On the last page there is no other to go on to, and from any other page the scan goes on at the
  -- start of the next.
  turned :
      (given : Option (Row O)) (go : TableSpace → Next O) (ts : TableSpace)
      (ess : List (List (Entry O))) (rest : List (Entry O))
      → (h : IsScan ts ess rest) → kept rest ≡ []
      → have_row h.page ≡ false
      → ((to_come ts ess rest ≡ [])
          × ((ts' : TableSpace) × (round given go ts ≡ some (err end_of_table_space, ts'))
              × (to_come ts' ess rest ≡ [])
              × (ts'.table_id ≡ ts.table_id)
              × IsScan ts' ess rest))
        ⊎ ((ts' : TableSpace) × (rest' : List (Entry O)) × (to_come ts ess rest
              ≡ to_come ts' ess rest')
            × (round given go ts ≡ go ts')
            × (ts'.table_id ≡ ts.table_id)
            × (ts'.cur_page_offset ≡ ts.cur_page_offset + 1)
            × IsScan ts' ess rest')
  turned given go ts ess rest h none_left done =
      let cur = ts.cur_page_offset in
      let m = length ess - 1 in
      let lt = h.is_space.within cur h.page h.found in
      let len : length ess ≡ suc m = omega (arith, lt) in
      let (ts1, last, loaded) = get_last_page-IsLoaded ts ess m h.is_space len in
      let offset : offset_of ts1 (ok m) ≡ m =
        ap (λ (p : Page). p.page_offset) (page_at-find ts1 m loaded.page loaded.found)
        ∙ loaded.is_page.offset_is in
      let left =
        round_done given go ts h.page (page_at-find ts cur h.page h.found) done
        ∙ ap (go_on go h.page) last in
      let found1 : find ts1.pages ts1.cur_page_offset ≡ some h.page =
        rw loaded.cur_is (loaded.old_page cur h.page h.found) in
      elim (Bool-cases (cur == m)) [
        | inl y ↦
            let here : ts1.cur_page_offset ≡ m = ground (arith, y, loaded.cur_is) in
            let over : drop (suc cur) ess ≡ [] = drop_all (suc cur) ess (ground (arith, y, len)) in
            inl (
              rw (none_left, over) refl,
              (
                ts1,
                left ∙ go_on_end go h.page ts1 m offset here,
                rw (loaded.cur_is, none_left, over) refl,
                loaded.table_is,
                record {
                  is_space = loaded.is_space;
                  page = h.page;
                  found = found1;
                  is_left = h.is_left;
                  reach = rw (loaded.cur_is, loaded.io_is) h.reach;
                  ahead = λ j p below f. elim (loaded.new_page j p f) [
                    | inl f' ↦ h.ahead j p (omega (arith, below, loaded.cur_is)) f'
                    | inr rewound ↦ rewound
                  ];
                },
              ),
            )
        | inr nay ↦
            let other : ts1.cur_page_offset ≢ m = λ e. ground (arith, nay, e, loaded.cur_is) in
            let before : ts1.cur_page_offset + 1 < length ess =
              omega (arith, other, len, lt, loaded.cur_is) in
            let (page, safe) =
              held_safe ts1 ess ts1.cur_page_offset h.page loaded.is_space found1 in
            let (ts', run, same, cur', scan) =
              turn_page go ts1 ess h.page loaded.is_space found1
                (rw loaded.cur_is (rw loaded.io_is h.reach))
                (λ j p below f. elim (loaded.new_page j p f) [
                  | inl f' ↦ h.ahead j p (omega (arith, below, loaded.cur_is)) f'
                  | inr rewound ↦ rewound
                ])
                before in
            let at : ts'.cur_page_offset ≡ suc cur = omega (arith, cur', loaded.cur_is) in
            inr (
              ts',
              get_or ess (ts1.cur_page_offset + 1) [],
              to_come_next ts ts' ess rest (ts1.cur_page_offset + 1) none_left
                  (omega (arith, loaded.cur_is)) at (omega (arith, before, loaded.cur_is)),
              left
                  ∙ go_on_next go h.page ts1 m (ts1.cur_page_offset + 1) offset other page.next_is
                  ∙ run,
              same ∙ loaded.table_is,
              omega (arith, at),
              scan,
            )
      ]

  next_page-Stepped :
      (given : Option (Row O)) (fuel : ℕ) (ts : TableSpace) (ess : List (List (Entry O)))
      (rest : List (Entry O))
      → IsScan ts ess rest
      → length ess < fuel + ts.cur_page_offset
      → Stepped given ts ess (to_come ts ess rest) (next_page given fuel ts)
  unfolding next_page
  next_page-Stepped given zero ts ess rest h enough =
      absurd (omega (arith, enough, h.is_space.within ts.cur_page_offset h.page h.found))
  next_page-Stepped given (suc fuel) ts ess rest h enough =
      let go = next_page given fuel in
      let coming = to_come ts ess rest in
      elim (get_next_row-IsLeft h.page rest given h.is_left) [
        | inr (i, e, rest', row, k, more, run, reading, left) ↦
            along-Stepped given ts ts ess coming coming (round given go ts) (row_of_page given ts)
              refl
              (round_more given go ts h.page (page_at-find ts ts.cur_page_offset h.page h.found)
                more)
              refl (row_of_page-Stepped given ts ess rest rest' e i row h k run reading left)
        | inl (k, done) ↦ elim (turned given go ts ess rest h k done) [
          | inl (none_left, (ts', run, over, same, scan)) ↦
              inl (none_left, (ts', rest, run, over, same, scan))
          | inr (ts', rest', same_rows, run, same, next, scan) ↦
              along-Stepped given ts ts' ess coming (to_come ts' ess rest') (round given go ts)
                (go ts') same_rows run same
                (next_page-Stepped given fuel ts' ess rest' scan (omega (arith, enough, next)))
        ]
      ]

  -- A call that finds its page.
  pub get_next_row-Stepped :
      (given : Option (Row O)) (fuel : ℕ) (ts0 ts : TableSpace) (ess : List (List (Entry O)))
      (rest : List (Entry O))
      → get_page_from_offset ts0 ts0.cur_page_offset ≡ (success, ts)
      → IsScan ts ess rest
      → length ess < fuel
      → Stepped given ts ess (to_come ts ess rest) (get_next_row given fuel ts0)
  unfolding get_next_row
  get_next_row-Stepped given fuel ts0 ts ess rest e h enough =
      along-Stepped given ts ts ess (to_come ts ess rest) (to_come ts ess rest)
        (get_next_row given fuel ts0) (next_page given fuel ts) refl
        (ap (went_on (next_page given fuel)) e) refl
        (next_page-Stepped given fuel ts ess rest h (omega (arith, enough)))
