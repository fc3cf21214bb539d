-- ===== src/Storage/TableSpace/Delete.antt =====
-- `delete_row` of storage/table_space.cpp: on the page that the row's id leads to.
use cat_db.Prelude.{
  ℕ, zero, suc, ◌/◌, ◌≤◌, ◌<◌, ◌≡◌, ◌≢◌, refl, sym, ◌∙◌, ap, subst, ◌⊎◌, inl, inr, true, List, [],
  ◌∷◌, none, some, if◌then◌else◌, ltb, length, get_or, set, arith, Bool-cases, map,
}
use cat_db.Error.{Code, success, end_of_table_space}
use cat_db.Object.{ObjectClass}
use cat_db.Storage.Address.{get_page_offset_from_row_id}
use cat_db.Storage.Format.{Stored}
use cat_db.Storage.Page.{Page}
use cat_db.Storage.Page
use cat_db.Storage.Page.Contents.{Entry}
use cat_db.Storage.Page.Search.{find as find_row, erase}
use cat_db.Storage.Page.Delete.{
  found_code, delete_row-IsPage, delete_row_page, find_beyond, erase_absent,
}
use cat_db.Storage.PageMap.{find, put}
use cat_db.Storage.TableSpace.{TableSpace, delete_row, delete_from}
use cat_db.Storage.TableSpace.Held.{IsPageOf, IsFiled, IsHeld, IsSpace, put-IsSpace}
use cat_db.Storage.TableSpace.Lookup.{get_page-IsLoaded, get_page_beyond}
use cat_db.Storage.TableSpace.Insert.{page_at-find}

some-none : (p : Page) → some p ≢ none
some-none p h = cc

delete_from-run :
    (ts : TableSpace) (id : ℕ) (p p' : Page) (c : Code)
    → find ts.pages (id / 1024) ≡ some p
    → Page.delete_row p id ≡ (c, p')
    → delete_from id (success, ts) ≡ (c, record ts { pages = put ts.pages (id / 1024) p' })
unfolding get_page_offset_from_row_id
delete_from-run ts id p p' c found run =
    ap (λ (r : Code × Page). (r.0, record ts { pages = put ts.pages (id / 1024) r.1 }))
      (ap (λ q. Page.delete_row q id) (page_at-find ts (id / 1024) p found) ∙ run)

module _ {O : Type 0} ⦃class : ObjectClass O⦄ ⦃stored : Stored O⦄ where
  -- An id leads to the page that has it.
  find_elsewhere :
      (table_id k : ℕ) (p : Page) (es : List (Entry O)) (id : ℕ)
      → IsPageOf table_id k p es
      → id / 1024 ≢ k
      → find_row id es ≡ none
  find_elsewhere table_id k p es id h ne =
      find_beyond p.row_info es p.memory p.free_space p.beg_row_id id h.is_page.entries_are (
        ground (
          arith, ne, h.beg_is, h.roomy, h.is_page.count_is, h.is_page.offset_is, h.is_page.size_is,
        ))

  -- The page of a row that is held somewhere.
  pub held_page :
      (ts : TableSpace) (k : ℕ) (es : List (Entry O))
      → IsHeld ts k es
      → (p : Page) × IsPageOf ts.table_id k p es
  held_page ts k es (inl (p, found, page, safe)) = (p, page)
  held_page ts k es (inr (absent, filed)) = (_, filed.1)

  erase_nowhere :
      (ess : List (List (Entry O))) (id : ℕ)
      → ((j : ℕ) → j < length ess → find_row id (get_or ess j []) ≡ none)
      → map (erase id) ess ≡ ess
  erase_nowhere [] id absent = refl
  erase_nowhere (es ∷ ess) id absent =
      rw
        (
          erase_absent id es (absent 0 (omega arith)),
          erase_nowhere ess id (λ j lt. absent (suc j) (omega arith)),
        )
        refl

  -- Erasing on one page is erasing everywhere.
  erase_all :
      (ess : List (List (Entry O))) (id k : ℕ)
      → k < length ess
      → ((j : ℕ) → j < length ess → j ≢ k → find_row id (get_or ess j []) ≡ none)
      → set ess k (erase id (get_or ess k [])) ≡ map (erase id) ess
  erase_all [] id k h absent = absurd (omega arith)
  erase_all (es ∷ ess) id zero h absent =
      rw (erase_nowhere ess id (λ j lt. absent (suc j) (omega arith) (λ e. omega arith))) refl
  erase_all (es ∷ ess) id (suc k) h absent =
      rw
        (
          erase_absent id es (absent 0 (omega arith) (λ e. omega arith)),
          erase_all ess id k (omega arith)
              (λ j lt ne. absent (suc j) (omega arith) (λ e. ne (omega arith))),
        )
        refl

  -- The page after `delete_row`, and why it is safe still.
  deleted_page :
      (ts : TableSpace) (k id : ℕ) (p : Page) (es : List (Entry O))
      → IsPageOf ts.table_id k p es
      → (p.is_dirty ≡ true) ⊎ IsFiled ts k es
      → (p' : Page) × (Page.delete_row p id ≡ (found_code (find_row id es), p'))
        × IsPageOf ts.table_id k p' (erase id es)
        × ((p'.is_dirty ≡ true) ⊎ IsFiled ts k (erase id es))
  deleted_page ts k id p es h safe =
      let (p', run, kept, page) = delete_row-IsPage p es id h.is_page in
      let after : (Page.delete_row p id).1 ≡ p' = ap (λ (r : Code × Page). r.1) run in
      elim (delete_row_page p es id h.is_page) [
        | inl (same, f) ↦
            let e : p' ≡ p = sym after ∙ same in
            let es' = erase_absent id es f in (p', run, rw (e, es') h, rw (e, es') safe)
        | inr (infos, changed) ↦
            let e : p' ≡ record p { row_info = infos; is_dirty = true } = sym after ∙ changed in
            (
              p',
              run,
              record {
                is_page = page;
                table_is = rw e h.table_is;
                offset_is = rw e h.offset_is;
                next_is = rw e h.next_is;
                beg_is = rw e h.beg_is;
                roomy = rw e h.roomy;
              },
              inl (rw e refl),
            )
      ]

  -- The row with the id is marked, wherever in the table it is, and nothing else changes: the code is
  -- that of the lookup, or that of a page that the table does not have.
  pub delete_row-IsSpace :
      (ts : TableSpace) (ess : List (List (Entry O))) (id : ℕ)
      → IsSpace ts ess
      → (ts' : TableSpace) × (delete_row ts id ≡ (
        (if ltb (id / 1024) (length ess)
            then found_code (find_row id (get_or ess (id / 1024) []))
            else end_of_table_space),
        ts',
      ))
        × IsSpace ts' (map (erase id) ess)
  unfolding delete_row get_page_offset_from_row_id
  delete_row-IsSpace ts ess id h =
      let k = id / 1024 in
      let elsewhere : (j : ℕ) → j < length ess → j ≢ k → find_row id (get_or ess j []) ≡ none =
        λ j lt ne.
          let (p, page) = held_page ts j (get_or ess j []) (h.held j lt) in
          find_elsewhere ts.table_id j p (get_or ess j []) id page (λ e. ne (sym e)) in
      elim (Bool-cases (ltb k (length ess))) [
        | inl y ↦
            let lt : k < length ess = ground (arith, y) in
            let (ts1, run, loaded) = get_page-IsLoaded ts ess k h lt in
            elim (loaded.is_space.held k lt) [
              | inl (p, found, page, safe) ↦
                  let (p', deleted, page', safe') =
                    deleted_page ts1 k id p (get_or ess k []) page safe in
                  (
                    record ts1 { pages = put ts1.pages k p' },
                    ap (delete_from id) run
                        ∙ delete_from-run ts1 id p p' (found_code (find_row id (get_or ess k [])))
                            found deleted
                        ∙ rw y refl,
                    subst (IsSpace (record ts1 { pages = put ts1.pages k p' }))
                        (erase_all ess id k lt elsewhere)
                        (put-IsSpace ts1 ess k p' (erase id (get_or ess k [])) loaded.is_space lt
                          page' safe'),
                  )
              | inr (absent, filed) ↦ absurd (some-none loaded.page (sym loaded.found ∙ absent))
            ]
        | inr nay ↦
            let over : length ess ≤ k = ground (arith, nay) in
            (
              ts,
              ap (delete_from id) (get_page_beyond none ts ess k h over) ∙ rw nay refl,
              subst (IsSpace ts)
                  (sym (
                    erase_nowhere ess id
                      (λ j lt. elsewhere j lt (λ e. omega (arith, e, lt, over)))))
                  h,
            )
      ]
