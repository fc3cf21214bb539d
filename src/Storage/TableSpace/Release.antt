-- ===== src/Storage/TableSpace/Release.antt =====
-- `~Page` of storage/page.cpp, `close` and `open` of storage/table_space.cpp: what goes to the file.
use cat_db.Prelude.{
  ℕ, zero, suc, ◌+◌, ◌≤◌, ◌<◌, ◌≡◌, ◌≢◌, refl, sym, ◌∙◌, ap, subst, ◌⊎◌, inl, inr, Bool, true,
  false, List, [], ◌∷◌, some, ltb, ◌==◌, length, get_or, arith, Bool-cases, some-injective,
}
use cat_db.Object.{ObjectClass}
use cat_db.Storage.Format.{Stored}
use cat_db.Storage.Page.{Page, rewind}
use cat_db.Storage.Page.Contents.{Entry}
use cat_db.Storage.IoService.{
  IoService, make_io_service, hole, open_io, write_page, write_at, length-write_at,
  get_or-write_at_self, get_or-write_at_ne,
}
use cat_db.Storage.PageMap.{
  PageMap, find, erase, IsOrdered, find-erase_self, find-erase_ne, erase-IsOrdered, find_below,
  find-map_pages-some, find-map_pages-none, found_in_map_pages, map_pages-IsOrdered,
}
use cat_db.Storage.TableSpace.{
  TableSpace, make_table_space, destroy, close_pages, close_space, reset, reset_all_page,
  open_space,
}
use cat_db.Storage.TableSpace.Held.{IsPageOf, IsFiled, IsHeld, IsSpace, at_index-IsPageOf}

destroy-dirty :
    (p : Page) (io : IoService) (k : ℕ)
    → io.file_handle ≡ true
    → p.is_dirty ≡ true
    → p.page_offset ≡ k
    → destroy p io ≡ record io { file = write_at io.file k p }
unfolding destroy write_page
destroy-dirty p io k opened dirty offset = simp (dirty, opened, offset) refl

destroy-clean : (p : Page) (io : IoService) → p.is_dirty ≡ false → destroy p io ≡ io
unfolding destroy
destroy-clean p io clean = rw (destroy, clean) refl

-- The state without the page, which `~Page` has written when it was dirty.
abbrev pub released : TableSpace → ℕ → Page → ℕ → TableSpace
released ts k q c = record ts {
  pages = erase ts.pages k;
  io = destroy q ts.io;
  cur_page_offset = c;
}

erase_first : (ps : PageMap) (k : ℕ) (p : Page) → IsOrdered (k + 1) ps → erase ((k, p) ∷ ps) k ≡ ps
erase_first ps k p h =
    let self : (k == k) ≡ true = ground arith in rw self (erase_below ps (k + 1) k h (omega arith))
  where
    erase_below : (ps : PageMap) (low k : ℕ) → IsOrdered low ps → k < low → erase ps k ≡ ps
    erase_below [] low k h lt = refl
    erase_below ((j, q) ∷ ps) low k h lt =
        let other : (k == j) ≡ false = ground (arith, h.0, lt) in
        rw (other, erase_below ps (j + 1) k h.1 (omega (arith, h.0))) refl

module _ {O : Type 0} ⦃class : ObjectClass O⦄ ⦃stored : Stored O⦄ where
  -- A page that is in memory can be written as it is there.
  pub held_safe :
      (ts : TableSpace) (ess : List (List (Entry O))) (k : ℕ) (p : Page)
      → IsSpace ts ess
      → find ts.pages k ≡ some p
      → IsPageOf ts.table_id k p (get_or ess k [])
        × ((p.is_dirty ≡ true) ⊎ IsFiled ts k (get_or ess k []))
  held_safe ts ess k p h found = elim (h.held k (h.within k p found)) [
    | inl (q, found', page, safe) ↦
        subst
          (λ (r : Page).
            IsPageOf ts.table_id k r (get_or ess k [])
            × ((r.is_dirty ≡ true) ⊎ IsFiled ts k (get_or ess k [])))
          (some-injective (sym found' ∙ found)) (page, safe)
    | inr (absent, filed) ↦ absurd (ground (arith, found, absent))
  ]

  erased-IsHeld :
      (ts : TableSpace) (k j c : ℕ) (es : List (Entry O)) (file : List Page)
      → j ≢ k
      → (j < length ts.io.file
          → (j < length file) × (get_or file j hole ≡ get_or ts.io.file j hole))
      → IsHeld ts j es
      → IsHeld
          (record ts {
            pages = erase ts.pages k;
            io = record ts.io { file = file };
            cur_page_offset = c;
          })
          j
          es
  erased-IsHeld ts k j c es file ne kept (inl (p, found, page, inl dirty)) =
      inl (p, find-erase_ne ts.pages k j ne ∙ found, page, inl dirty)
  erased-IsHeld ts k j c es file ne kept (inl (p, found, page, inr (lt, filed))) =
      let (lt', same) = kept lt in
      inl (p, find-erase_ne ts.pages k j ne ∙ found, page, inr (lt', rw same filed))
  erased-IsHeld ts k j c es file ne kept (inr (absent, (lt, filed))) =
      let (lt', same) = kept lt in
      inr (find-erase_ne ts.pages k j ne ∙ absent, (lt', rw same filed))

  -- The page under `k` leaves memory, and the file gets `file`, in which it is.
  erased-IsSpace :
      (ts : TableSpace) (ess : List (List (Entry O))) (k c : ℕ) (file : List Page)
      → IsSpace ts ess
      → (k < length file) × IsPageOf ts.table_id k (get_or file k hole) (get_or ess k [])
      → length file ≤ length ess
      → ((j : ℕ)
          → j ≢ k
          → j < length ts.io.file
          → (j < length file) × (get_or file j hole ≡ get_or ts.io.file j hole))
      → IsSpace
          (record ts {
            pages = erase ts.pages k;
            io = record ts.io { file = file };
            cur_page_offset = c;
          })
          ess
  erased-IsSpace ts ess k c file h filed short kept =
      let ts' = record ts {
        pages = erase ts.pages k;
        io = record ts.io { file = file };
        cur_page_offset = c;
      } in
      record {
        opened = h.opened;
        ordered = erase-IsOrdered ts.pages 0 k h.ordered;
        held = λ j lt. elim (Bool-cases (j == k)) [
          | inl y ↦
              let here : k ≡ j = ground (arith, y) in
              subst (λ i. IsHeld ts' i (get_or ess i [])) here
                (inr (find-erase_self ts.pages k, filed))
          | inr nay ↦
              let ne : j ≢ k = λ e. ground (arith, e, nay) in
              erased-IsHeld ts k j c (get_or ess j []) file ne (kept j ne) (h.held j lt)
        ];
        within = λ j q found. elim (Bool-cases (j == k)) [
          | inl y ↦ let here : j ≡ k = ground (arith, y) in omega (arith, filed.0, short, here)
          | inr nay ↦
              h.within j q (sym (find-erase_ne ts.pages k j (λ e. ground (arith, e, nay))) ∙ found)
        ];
        short = short;
        small = h.small;
      }

  -- A page leaves memory, and all pages before it are in the file.
  pub released-IsSpace :
      (ts : TableSpace) (ess : List (List (Entry O))) (k c : ℕ) (q : Page)
      → IsSpace ts ess
      → k < length ess
      → k ≤ length ts.io.file
      → IsPageOf ts.table_id k q (get_or ess k [])
      → (q.is_dirty ≡ true) ⊎ IsFiled ts k (get_or ess k [])
      → IsSpace (released ts k q c) ess
        × (k < length (released ts k q c).io.file)
        × (k + 1 < length (released ts k q c).io.file
            → length (released ts k q c).io.file ≡ length ts.io.file)
  released-IsSpace ts ess k c q h lt reach page safe = elim (Bool-cases q.is_dirty) [
    | inl dirty ↦
        let file = write_at ts.io.file k q in
        let (longer, inside, most, same) = length-write_at ts.io.file k q reach in
        let most_pages : length file ≤ length ess = elim (Bool-cases (ltb k (length ts.io.file))) [
          | inl y ↦ omega (arith, same (ground (arith, y)), h.short)
          | inr nay ↦ ground (arith, nay, most, reach, lt)
        ] in
        let there = get_or-write_at_self ts.io.file k q hole in
        let space =
          erased-IsSpace ts ess k c file h (inside, rw there page) most_pages
            (λ j ne below.
              (omega (arith, longer), get_or-write_at_ne ts.io.file k j q hole ne below)) in
        rw (destroy-dirty q ts.io k h.opened dirty page.offset_is)
          (space, inside, λ l. same (omega (arith, l, most)))
    | inr clean ↦
        let filed : IsFiled ts k (get_or ess k []) = elim safe [
          | inl dirty ↦ absurd (ground (arith, dirty, clean))
          | inr filed ↦ filed
        ] in
        let space =
          erased-IsSpace ts ess k c ts.io.file h filed h.short (λ j ne below. (below, refl)) in
        rw (destroy-clean q ts.io clean) (space, filed.0, λ l. refl)
  ]

  -- All pages before the first one in memory are in the file.
  first_reach :
      (ts : TableSpace) (ess : List (List (Entry O))) (k : ℕ)
      → IsSpace ts ess
      → IsOrdered k ts.pages
      → k < length ess
      → k ≤ length ts.io.file
  first_reach ts ess zero h above lt = omega arith
  first_reach ts ess (suc j) h above lt = elim (h.held j (omega arith)) [
    | inl (p, found, page, safe) ↦
        absurd (ground (arith, found, find_below ts.pages (suc j) j above (omega arith)))
    | inr (absent, filed) ↦ omega (arith, filed.0)
  ]

  close_pages-IsSpace :
      (ps : PageMap) (ts : TableSpace) (ess : List (List (Entry O)))
      → IsSpace ts ess
      → ts.pages ≡ ps
      → IsSpace (record ts { pages = []; io = close_pages ps ts.io }) ess
  unfolding close_pages
  close_pages-IsSpace [] ts ess h e = subst (λ ps. IsSpace (record ts { pages = ps }) ess) e h
  close_pages-IsSpace ((k, p) ∷ ps) ts ess h e =
      let self : (k == k) ≡ true = ground arith in
      let found : find ts.pages k ≡ some p = rw (e, self) refl in
      let order : IsOrdered 0 ((k, p) ∷ ps) = subst (IsOrdered 0) e h.ordered in
      let above : IsOrdered k ts.pages = rw e (omega arith, order.1) in
      let lt = h.within k p found in
      let (page, safe) = held_safe ts ess k p h found in
      let (space, inside, same) =
        released-IsSpace ts ess k ts.cur_page_offset (rewind p) h lt
          (first_reach ts ess k h above lt)
          (at_index-IsPageOf ts.table_id k p (get_or ess k []) 0 p.is_dirty page) safe in
      close_pages-IsSpace ps (released ts k (rewind p) ts.cur_page_offset) ess space
        (ap (λ qs. erase qs k) e ∙ erase_first ps k p order.1)

  -- After `close` no page is in memory, and the file has the whole table.
  pub close_space-IsSpace :
      (ts : TableSpace) (ess : List (List (Entry O)))
      → IsSpace ts ess
      → IsSpace (close_space ts) ess
  unfolding close_space
  close_space-IsSpace ts ess h = close_pages-IsSpace ts.pages ts ess h refl

  -- `reset` leaves the rows as they are.
  pub reset-IsSpace :
      (ts : TableSpace) (ess : List (List (Entry O))) → IsSpace ts ess → IsSpace (reset ts) ess
  unfolding reset reset_all_page
  reset-IsSpace ts ess h = record {
    opened = h.opened;
    ordered = map_pages-IsOrdered rewind ts.pages 0 h.ordered;
    held = λ k lt. elim (h.held k lt) [
      | inl (p, found, page, safe) ↦ inl (
        rewind p,
        find-map_pages-some rewind ts.pages k p found,
        at_index-IsPageOf ts.table_id k p (get_or ess k []) 0 p.is_dirty page,
        safe,
      )
      | inr (absent, filed) ↦ inr (find-map_pages-none rewind ts.pages k absent, filed)
    ];
    within = λ k q found.
        let (p, found', same) = found_in_map_pages rewind ts.pages k q found in h.within k p found';
    short = h.short;
    small = h.small;
  }

  -- A table space that is closed, and another that is opened on the file, have the same rows.
  pub open_space-close_space :
      (ts : TableSpace) (ess : List (List (Entry O))) (creatable : Bool)
      → IsSpace ts ess
      → IsSpace
          (open_space creatable
            (make_table_space (make_io_service true (close_space ts).io.file) ts.table_id))
          ess
  unfolding open_space open_io close_space
  open_space-close_space ts ess creatable h =
      reset-IsSpace
        (record {
          io = record { file_handle = true; present = true; file = (close_space ts).io.file };
          table_id = ts.table_id;
          pages = [];
          cur_page_offset = 0;
        })
        ess
        (let closed = close_space-IsSpace ts ess h in
          record {
            opened = refl;
            ordered = tt;
            held = closed.held;
            within = λ k p found. absurd (ground arith);
            short = closed.short;
            small = closed.small;
          })
