-- ===== src/Storage/TableSpace/Turn.antt =====
-- `get_next_row` of storage/table_space.cpp: a row of a page, and the step to the next page.
use cat_db.Prelude.{
  ℕ, zero, suc, ◌+◌, ◌-◌, ◌^◌, ◌≤◌, ◌<◌, ◌≡◌, refl, sym, ◌∙◌, ap, subst, ◌⊎◌, inl, inr, true, List,
  [], ◌∷◌, ◌++◌, Option, none, some, length, get_or, drop, arith,
}
use cat_db.Error.{Result, ok, err, end_of_table_space}
use cat_db.Object.{ObjectClass}
use cat_db.Row.{Row}
use cat_db.Storage.Format.{Stored}
use cat_db.Storage.Page.{Page, rewind, have_row}
use cat_db.Storage.Page
use cat_db.Storage.Page.Contents.{Entry}
use cat_db.Storage.Page.Scan.{kept}
use cat_db.Storage.Page.Cursor.{IsLeft, IsReading, rewound-IsLeft}
use cat_db.Storage.PageMap.{find, put, erase, find-put_self, find-put_ne, find-erase_ne}
use cat_db.Storage.IoService.{end_offset}
use cat_db.Storage.TableSpace.{
  TableSpace, Next, get_page_into, read_into, read_after, release, row_of_page, went_on,
}
use cat_db.Storage.TableSpace.Held.{
  IsHeld, IsSpace, put-IsSpace, at_index-IsPageOf, set-get_or_self,
}
use cat_db.Storage.TableSpace.Lookup.{end_offset_last, get_page-IsLoaded}
use cat_db.Storage.TableSpace.Insert.{page_at-find}
use cat_db.Storage.TableSpace.Release.{held_safe, released, released-IsSpace}

pub get_page_absent :
    (held : Option Page) (ts : TableSpace) (k : ℕ)
    → find ts.pages k ≡ none
    → get_page_into held ts k ≡ read_after k (release held ts) (end_offset ts.io)
unfolding get_page_into read_into
get_page_absent held ts k absent = rw (get_page_into, absent) refl

module _ {O : Type 0} ⦃class : ObjectClass O⦄ ⦃stored : Stored O⦄ where
  abbrev pub all_kept : List (List (Entry O)) → List (Entry O)
  all_kept [] = []
  all_kept (es ∷ ess) = kept es ++ all_kept ess

  -- The rows to come: of the page under `cur_page_offset` and of those behind it.
  abbrev pub to_come : TableSpace → List (List (Entry O)) → List (Entry O) → List (Entry O)
  to_come ts ess rest = kept rest ++ all_kept (drop (suc ts.cur_page_offset) ess)

  -- A scan that is on the page under `cur_page_offset`, and has `rest` of its rows to read.
  pub record IsScan (ts : TableSpace) (ess : List (List (Entry O))) (rest : List (Entry O))
      : Type 0 where
    pub is_space : IsSpace ts ess
    pub page : Page
    pub found : find ts.pages ts.cur_page_offset ≡ some page
    pub is_left : IsLeft page rest
    pub reach : ts.cur_page_offset ≤ length ts.io.file
    pub ahead :
        (j : ℕ) (p : Page) → ts.cur_page_offset < j → find ts.pages j ≡ some p → p.row_idx ≡ 0

  -- What a call of `get_next_row` comes to.
  abbrev pub Stepped :
      Option (Row O) → TableSpace → List (List (Entry O)) → List (Entry O) → Next O → Type 0
  Stepped given ts ess coming result =
      ((coming ≡ [])
        × ((ts' : TableSpace) × (rest : List (Entry O)) × (result
              ≡ some (err end_of_table_space, ts'))
            × (to_come ts' ess rest ≡ [])
            × (ts'.table_id ≡ ts.table_id)
            × IsScan ts' ess rest))
      ⊎ ((e : Entry O) × (rest : List (Entry O)) × (ts' : TableSpace) × (row : Row O) × (coming
            ≡ e ∷ to_come ts' ess rest)
          × (result ≡ some (ok row, ts'))
          × IsReading ts.table_id given e row
          × (ts'.table_id ≡ ts.table_id)
          × IsScan ts' ess rest)

  -- The page has a row.
  pub row_of_page-Stepped :
      (given : Option (Row O)) (ts : TableSpace) (ess : List (List (Entry O)))
      (rest rest' : List (Entry O)) (e : Entry O) (i : ℕ) (row : Row O)
      → (h : IsScan ts ess rest) → kept rest ≡ e ∷ kept rest'
      → Page.get_next_row h.page given ≡ (ok row, record h.page { row_idx = i })
      → IsReading h.page.table_id given e row
      → IsLeft (record h.page { row_idx = i }) rest'
      → Stepped given ts ess (to_come ts ess rest) (row_of_page given ts)
  unfolding row_of_page
  row_of_page-Stepped given ts ess rest rest' e i row h k run reading left =
      let cur = ts.cur_page_offset in
      let (page, safe) = held_safe ts ess cur h.page h.is_space h.found in
      let p' = record h.page { row_idx = i } in
      let ts' = record ts { pages = put ts.pages cur p' } in
      inr (
        e,
        rest',
        ts',
        row,
        ap (λ l. l ++ all_kept (drop (suc cur) ess)) k,
        ap (λ (r : Result (Row O) × Page). some (r.0, record ts { pages = put ts.pages cur r.1 }))
            (ap (λ q. Page.get_next_row q given) (page_at-find ts cur h.page h.found) ∙ run),
        (let (p, info, entry, table, alive, is) = reading in
            (p, info, entry, table ∙ page.table_is, alive, is)),
        refl,
        record {
          is_space = subst (IsSpace ts') (set-get_or_self ess cur []) (
              put-IsSpace ts ess cur p' (get_or ess cur []) h.is_space
                (h.is_space.within cur h.page h.found)
                (at_index-IsPageOf ts.table_id cur h.page (get_or ess cur []) i h.page.is_dirty
                  page)
                safe);
          page = p';
          found = find-put_self ts.pages cur p';
          is_left = left;
          reach = h.reach;
          ahead = λ j p below f.
              h.ahead j p below
                (sym (find-put_ne ts.pages cur j p' (λ e. omega (arith, e, below))) ∙ f);
        },
      )

  -- The page that goes does not hinder the next one's lookup: when that is in the file only, the file
  -- keeps its length.
  get_page_into-release :
      (ts : TableSpace) (ess : List (List (Entry O))) (k : ℕ) (p : Page) (es : List (Entry O))
      → ts.io.file_handle ≡ true
      → (release (some p) ts).io.file_handle ≡ true
      → IsHeld (release (some p) ts) k es
      → (k < length (release (some p) ts).io.file
          → length (release (some p) ts).io.file ≡ length ts.io.file)
      → length ts.io.file ≤ 2 ^ 21
      → get_page_into (some p) ts k ≡ get_page_into none (release (some p) ts) k
  unfolding get_page_into
  get_page_into-release ts ess k p es opened opened' held same few = elim held [
    | inl (q, found, page, safe) ↦ rw (get_page_into, found) refl
    | inr (absent, (lt, filed)) ↦
        let o = length ts.io.file - 1 in
        let size = same lt in
        let ends = end_offset_last ts.io o opened (omega (arith, size, lt)) (omega (arith, few)) in
        let ends' =
          end_offset_last (release (some p) ts).io o opened' (omega (arith, size, lt))
            (omega (arith, few)) in
        get_page_absent (some p) ts k absent
        ∙ ap (read_after k (release (some p) ts)) (ends ∙ sym ends')
        ∙ sym (get_page_absent none (release (some p) ts) k absent)
  ]

  -- The page under `cur_page_offset` goes, and the next one comes, in memory before or not.
  pub turn_page :
      (go : TableSpace → Next O) (ts : TableSpace) (ess : List (List (Entry O))) (p : Page)
      → IsSpace ts ess
      → find ts.pages ts.cur_page_offset ≡ some p
      → ts.cur_page_offset ≤ length ts.io.file
      → ((j : ℕ) (q : Page) → ts.cur_page_offset < j → find ts.pages j ≡ some q → q.row_idx ≡ 0)
      → ts.cur_page_offset + 1 < length ess
      → (ts' : TableSpace) × (went_on go (
            get_page_into
              (some p)
              (record ts {
                pages = erase ts.pages ts.cur_page_offset;
                cur_page_offset = ts.cur_page_offset + 1;
              })
              (ts.cur_page_offset + 1))
          ≡ go ts')
        × (ts'.table_id ≡ ts.table_id)
        × (ts'.cur_page_offset ≡ ts.cur_page_offset + 1)
        × IsScan ts' ess (get_or ess (ts.cur_page_offset + 1) [])
  turn_page go ts ess p h found reach ahead lt =
      let k = ts.cur_page_offset in
      let n = k + 1 in
      let (page, safe) = held_safe ts ess k p h found in
      let (space, inside, same) =
        released-IsSpace ts ess k n p h (omega (arith, lt)) reach page safe in
      let r = released ts k p n in
      let swap =
        get_page_into-release (record ts { pages = erase ts.pages k; cur_page_offset = n }) ess n p
          (get_or ess n []) h.opened space.opened (space.held n lt) same
          (omega (arith, h.short, h.small)) in
      let (ts', run, loaded) = get_page-IsLoaded r ess n space lt in
      let older : (j : ℕ) (q : Page) → k < j → find ts'.pages j ≡ some q → q.row_idx ≡ 0 =
        λ j q below f. elim (loaded.new_page j q f) [
          | inl f' ↦
              ahead j q below (sym (find-erase_ne ts.pages k j (λ e. omega (arith, e, below))) ∙ f')
          | inr rewound ↦ rewound
        ] in
      (
        ts',
        ap (went_on go) (swap ∙ run),
        loaded.table_is,
        loaded.cur_is,
        record {
          is_space = loaded.is_space;
          page = loaded.page;
          found = rw loaded.cur_is loaded.found;
          is_left =
              rewound-IsLeft loaded.page (get_or ess n []) loaded.is_page.is_page
                (older n loaded.page (omega arith) loaded.found);
          reach = rw loaded.cur_is (rw loaded.io_is (omega (arith, inside)));
          ahead = λ j q below f. older j q (omega (arith, below, loaded.cur_is)) f;
        },
      )

  drop_next :
      (ess : List (List (Entry O))) (i : ℕ)
      → i < length ess
      → drop i ess ≡ get_or ess i [] ∷ drop (suc i) ess
  drop_next [] i h = absurd (omega arith)
  drop_next (es ∷ ess) zero h = refl
  drop_next (es ∷ ess) (suc i) h = drop_next ess i (omega arith)

  pub to_come_next :
      (ts ts' : TableSpace) (ess : List (List (Entry O))) (rest : List (Entry O)) (n : ℕ)
      → kept rest ≡ []
      → n ≡ suc ts.cur_page_offset
      → ts'.cur_page_offset ≡ suc ts.cur_page_offset
      → suc ts.cur_page_offset < length ess
      → to_come ts ess rest ≡ to_come ts' ess (get_or ess n [])
  to_come_next ts ts' ess rest n none_left en ec lt =
      rw (none_left, ec, en) (ap all_kept (drop_next ess (suc ts.cur_page_offset) lt))
