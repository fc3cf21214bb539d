-- ===== src/Storage/TableSpace/Lookup.antt =====
-- `read_page` and `get_page_from_offset` of storage/table_space.cpp.
use cat_db.Prelude.{
  ℕ, suc, ◌-◌, ◌*◌, ◌/◌, ◌^◌, ◌≤◌, ◌<◌, ◌≡◌, ◌≢◌, refl, sym, ◌∙◌, subst, ◌⊎◌, inl, inr, true, false,
  List, [], Option, none, some, ltb, leb, ◌==◌, length, get_or, arith, Bool-cases, Option-cases,
  some-injective,
}
use cat_db.Error.{success, ok, empty_table_space, end_of_table_space}
use cat_db.Object.{ObjectClass}
use cat_db.Storage.Address.{get_virtual_page_offset}
use cat_db.Storage.Format.{Stored}
use cat_db.Storage.Page.{Page, rewind, reset_page}
use cat_db.Storage.Page.Contents.{Entry, reset_page-IsPage}
use cat_db.Storage.IoService.{IoService, hole, end_offset, read_page}
use cat_db.Storage.PageMap.{find, put, find-put_self, find-put_ne}
use cat_db.Storage.TableSpace.{TableSpace, release, read_into, get_page_into, get_page_from_offset}
use cat_db.Storage.TableSpace.Held.{
  IsPageOf, IsFiled, IsSpace, put-IsSpace, at_index-IsPageOf, set-get_or_self,
}

pub end_offset_empty :
    (io : IoService)
    → io.file_handle ≡ true
    → length io.file ≡ 0
    → end_offset io ≡ (empty_table_space, 0)
unfolding end_offset
end_offset_empty io opened len =
    let short : leb 16384 (length io.file * 16384) ≡ false = ground (arith, len) in
    rw (end_offset, opened, short) refl

pub end_offset_last :
    (io : IoService) (n : ℕ)
    → io.file_handle ≡ true
    → length io.file ≡ suc n
    → n < 2 ^ 31
    → end_offset io ≡ (success, n)
unfolding end_offset get_virtual_page_offset
end_offset_last io n opened len small =
    let long : leb 16384 (length io.file * 16384) ≡ true = ground (arith, len) in
    let off : (length io.file * 16384 - 16384) / 2 ^ 14 ≡ n = omega (arith, len) in
    let fits : ltb 0x7FFFFFFF n ≡ false = ground (arith, small) in
    rw (end_offset, opened, long, get_virtual_page_offset, off, fits) refl

read_page_there :
    (io : IoService) (k : ℕ)
    → io.file_handle ≡ true
    → k < length io.file
    → read_page io k ≡ ok (reset_page (record (get_or io.file k hole) { is_dirty = false }))
unfolding read_page
read_page_there io k opened lt =
    let inside : leb (length io.file) k ≡ false = ground (arith, lt) in simp (opened, inside) refl

module _ {O : Type 0} ⦃class : ObjectClass O⦄ ⦃stored : Stored O⦄ where
  reread-IsPageOf :
      (table_id k : ℕ) (q : Page) (es : List (Entry O))
      → IsPageOf table_id k q es
      → IsPageOf table_id k (rewind (reset_page (record q { is_dirty = false }))) es
  reread-IsPageOf table_id k q es page =
      let clean = at_index-IsPageOf table_id k q es q.row_idx false page in
      rw ((reset_page-IsPage (record q { is_dirty = false }) es clean.is_page).0)
        (at_index-IsPageOf table_id k q es 0 false page)

  -- A page that is in the file is read into `pages`.
  pub read_into-filed :
      (ts : TableSpace) (k : ℕ) (es : List (Entry O))
      → ts.io.file_handle ≡ true
      → length ts.io.file ≤ 2 ^ 21
      → IsFiled ts k es
      → (q : Page) × (read_into none ts k ≡ (success, record ts { pages = put ts.pages k q }))
        × IsPageOf ts.table_id k q es
        × (q.row_idx ≡ 0)
  unfolding read_into read_page
  read_into-filed ts k es opened few (lt, page) =
      let image = record (get_or ts.io.file k hole) { is_dirty = false } in
      let last : length ts.io.file ≡ suc (length ts.io.file - 1) = omega (arith, lt) in
      let ends =
        end_offset_last ts.io (length ts.io.file - 1) opened last (omega (arith, few, lt)) in
      let there = read_page_there ts.io k opened lt in
      let before : ltb (length ts.io.file - 1) k ≡ false = ground (arith, lt) in
      (
        rewind (reset_page image),
        rw (read_into, ends, before, there) refl,
        reread-IsPageOf ts.table_id k (get_or ts.io.file k hole) es page,
        refl,
      )

  -- What `get_page_from_offset` may have done to the table space.
  pub record IsLoaded (ts ts' : TableSpace) (k : ℕ) (ess : List (List (Entry O))) : Type 0 where
    pub is_space : IsSpace ts' ess
    pub page : Page
    pub found : find ts'.pages k ≡ some page
    pub is_page : IsPageOf ts'.table_id k page (get_or ess k [])
    pub cur_is : ts'.cur_page_offset ≡ ts.cur_page_offset
    pub table_is : ts'.table_id ≡ ts.table_id
    pub io_is : ts'.io ≡ ts.io
    pub old_page : (j : ℕ) (p : Page) → find ts.pages j ≡ some p → find ts'.pages j ≡ some p
    pub new_page :
        (j : ℕ) (p : Page)
        → find ts'.pages j ≡ some p
        → (find ts.pages j ≡ some p) ⊎ (p.row_idx ≡ 0)

  pub get_page-IsLoaded :
      (ts : TableSpace) (ess : List (List (Entry O))) (k : ℕ)
      → IsSpace ts ess
      → k < length ess
      → (ts' : TableSpace) × (get_page_from_offset ts k ≡ (success, ts')) × IsLoaded ts ts' k ess
  unfolding get_page_into
  get_page-IsLoaded ts ess k h lt = elim (h.held k lt) [
    | inl (p, found, page, safe) ↦ (
      ts,
      rw (get_page_into, found) refl,
      record {
        is_space = h;
        page = p;
        found = found;
        is_page = page;
        cur_is = refl;
        table_is = refl;
        io_is = refl;
        old_page = λ j q f. f;
        new_page = λ j q f. inl f;
      },
    )
    | inr (absent, filed) ↦
        let (q, run, page, rewound) =
          read_into-filed ts k (get_or ess k []) h.opened (omega (arith, h.short, h.small)) filed in
        let put_there = put-IsSpace ts ess k q (get_or ess k []) h lt page (inr filed) in
        (
          record ts { pages = put ts.pages k q },
          rw (get_page_into, absent) run,
          record {
            is_space =
                subst (IsSpace (record ts { pages = put ts.pages k q })) (set-get_or_self ess k [])
                  put_there;
            page = q;
            found = find-put_self ts.pages k q;
            is_page = page;
            cur_is = refl;
            table_is = refl;
            io_is = refl;
            old_page = λ j p f.
                let ne : j ≢ k = λ e. ground (arith, f, absent, e) in
                find-put_ne ts.pages k j q ne ∙ f;
            new_page = λ j p f. elim (Bool-cases (j == k)) [
              | inl y ↦
                  let here : j ≡ k = ground (arith, y) in
                  inr (
                    subst (λ (r : Page). r.row_idx ≡ 0)
                      (some-injective (
                        sym (find-put_self ts.pages k q)
                        ∙ subst (λ i. find (put ts.pages k q) i ≡ some p) here f))
                      rewound)
              | inr nay ↦ inl (sym (find-put_ne ts.pages k j q (λ e. ground (arith, e, nay))) ∙ f)
            ];
          },
        )
  ]

  -- Behind the last page there is none.
  pub get_page_beyond :
      (held : Option Page) (ts : TableSpace) (ess : List (List (Entry O))) (k : ℕ)
      → IsSpace ts ess
      → length ess ≤ k
      → get_page_into held ts k ≡ (end_of_table_space, release held ts)
  unfolding get_page_into read_into
  get_page_beyond held ts ess k h le =
      let absent : find ts.pages k ≡ none = elim (Option-cases (find ts.pages k)) [
        | inl e ↦ e
        | inr (p, e) ↦ absurd (omega (arith, h.within k p e, le))
      ] in
      elim (Bool-cases (leb 1 (length ts.io.file))) [
        | inl y ↦
            let last : length ts.io.file ≡ suc (length ts.io.file - 1) = ground (arith, y) in
            let ends =
              end_offset_last ts.io (length ts.io.file - 1) h.opened last
                (omega (arith, h.short, h.small)) in
            let before : ltb (length ts.io.file - 1) k ≡ true = ground (arith, h.short, le, y) in
            rw (get_page_into, absent, read_into, ends, before) refl
        | inr nay ↦
            let ends = end_offset_empty ts.io h.opened (ground (arith, nay)) in
            rw (get_page_into, absent, read_into, ends) refl
      ]
