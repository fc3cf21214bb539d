-- ===== src/Storage/TableSpace/Last.antt =====
-- `get_last_page` of storage/table_space.cpp.
use cat_db.Prelude.{
  ℕ, suc, ◌-◌, ◌≤◌, ◌≡◌, refl, ◌∙◌, ap, subst, inl, inr, true, List, [], ◌∷◌, none, some,
  if◌then◌else◌, ltb, leb, ◌==◌, length, get_or, arith, Bool-cases,
}
use cat_db.Error.{ok}
use cat_db.Object.{ObjectClass}
use cat_db.Storage.Format.{Stored}
use cat_db.Storage.Page.{Page}
use cat_db.Storage.Page.Contents.{Entry}
use cat_db.Storage.IoService.{IoService}
use cat_db.Storage.PageMap.{PageMap, find, last_key, last_key_lem}
use cat_db.Storage.TableSpace.{TableSpace, get_last_page, create_page, last_after, last_in_memory}
use cat_db.Storage.TableSpace.Held.{IsPageOf, IsSpace}
use cat_db.Storage.TableSpace.Lookup.{
  IsLoaded, get_page-IsLoaded, end_offset_empty, end_offset_last,
}

last_key_empty : (ps : PageMap) → ((k : ℕ) (p : Page) → find ps k ≡ some p → ⊥) → last_key ps ≡ none
last_key_empty [] h = refl
last_key_empty ((j, q) ∷ ps) h =
    let self : (j == j) ≡ true = ground arith in absurd (h j q (rw self refl))

module _ {O : Type 0} ⦃class : ObjectClass O⦄ ⦃stored : Stored O⦄ where
  -- The last page is in memory after the file's last page is.
  last_page :
      (ts' : TableSpace) (ess : List (List (Entry O))) (m o : ℕ) (ts : TableSpace)
      → IsLoaded ts ts' o ess
      → length ts.io.file ≡ suc o
      → length ess ≡ suc m
      → (p : Page) × (find ts'.pages m ≡ some p) × IsPageOf ts'.table_id m p (get_or ess m [])
  last_page ts' ess m o ts loaded last len = elim (loaded.is_space.held m (omega (arith, len))) [
    | inl (p, found, page, safe) ↦ (p, found, page)
    | inr (absent, filed) ↦
        let file : length ts'.io.file ≡ length ts.io.file =
          ap (λ (i : IoService). length i.file) loaded.io_is in
        let same : o ≡ m = omega (arith, file, filed.0, last, loaded.is_space.short, len) in
        (
          loaded.page,
          subst (λ i. find ts'.pages i ≡ some loaded.page) same loaded.found,
          subst (λ i. IsPageOf ts'.table_id i loaded.page (get_or ess i [])) same loaded.is_page,
        )
  ]

  -- `get_last_page` of a table space with pages.
  pub get_last_page-IsLoaded :
      (ts : TableSpace) (ess : List (List (Entry O))) (m : ℕ)
      → IsSpace ts ess
      → length ess ≡ suc m
      → (ts' : TableSpace) × (get_last_page ts ≡ (ok m, ts')) × IsLoaded ts ts' m ess
  unfolding get_last_page
  get_last_page-IsLoaded ts ess m h len =
      let top : (t : TableSpace)
          → IsSpace t ess
          → (j : ℕ) (q : Page) → find t.pages j ≡ some q
          → j ≤ m =
        λ t space j q f. omega (arith, space.within j q f, len) in
      elim (Bool-cases (leb 1 (length ts.io.file))) [
        | inl y ↦
            let o = length ts.io.file - 1 in
            let last : length ts.io.file ≡ suc o = ground (arith, y) in
            let ends =
              end_offset_last ts.io o h.opened last (omega (arith, h.short, h.small, last)) in
            let (ts', run, loaded) = get_page-IsLoaded ts ess o h (omega (arith, h.short, last)) in
            let (p, found, page) = last_page ts' ess m o ts loaded last len in
            let key =
              last_key_lem ts'.pages 0 m p loaded.is_space.ordered found
                (top ts' loaded.is_space) in
            let pick : (if ltb o m then m else o) ≡ m = ground (arith, last, h.short, len) in
            (
              ts',
              ap (last_after ts) ends ∙ ap (last_in_memory o) run ∙ rw (key, pick) refl,
              record {
                is_space = loaded.is_space;
                page = p;
                found = found;
                is_page = page;
                cur_is = loaded.cur_is;
                table_is = loaded.table_is;
                io_is = loaded.io_is;
                old_page = loaded.old_page;
                new_page = loaded.new_page;
              },
            )
        | inr nay ↦
            let ends = end_offset_empty ts.io h.opened (ground (arith, nay)) in
            elim (h.held m (omega (arith, len))) [
              | inl (p, found, page, safe) ↦
                  let key = last_key_lem ts.pages 0 m p h.ordered found (top ts h) in
                  (
                    ts,
                    ap (last_after ts) ends ∙ rw key refl,
                    record {
                      is_space = h;
                      page = p;
                      found = found;
                      is_page = page;
                      cur_is = refl;
                      table_is = refl;
                      io_is = refl;
                      old_page = λ j q f. f;
                      new_page = λ j q f. inl f;
                    },
                  )
              | inr (absent, filed) ↦ absurd (ground (arith, nay, filed.0))
            ]
      ]

  -- And of one without.
  pub get_last_page_empty :
      (ts : TableSpace) → IsSpace {O = O} ts [] → get_last_page ts ≡ (ok 0, create_page ts 0)
  unfolding get_last_page
  get_last_page_empty ts h =
      let ends = end_offset_empty ts.io h.opened (omega (arith, h.short)) in
      let key = last_key_empty ts.pages (λ k p f. omega (arith, h.within k p f)) in
      ap (last_after ts) ends ∙ rw key refl
