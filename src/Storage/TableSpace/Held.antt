-- ===== src/Storage/TableSpace/Held.antt =====
-- What a table space of storage/table_space.cpp stands for: for each page offset the rows of its page,
-- which is in memory, in the file, or in both.
use cat_db.Prelude.{
  ℕ, zero, suc, ◌+◌, ◌*◌, ◌^◌, ◌≤◌, ◌<◌, ◌≡◌, ◌≢◌, refl, sym, ◌∙◌, ap, subst, ◌⊎◌, inl, inr, Bool,
  true, List, [], ◌∷◌, ◌++◌, none, some, ◌==◌, length, get_or, set, arith, Bool-cases, length-set,
  length-append, get_or-set_self, get_or-set_ne, get_or-append_length,
}
use cat_db.Object.{ObjectClass}
use cat_db.Storage.Format.{Stored}
use cat_db.Storage.Page.{Page}
use cat_db.Storage.Page.Contents.{Entry, IsPage}
use cat_db.Storage.IoService.{hole}
use cat_db.Storage.PageMap.{find, put, IsOrdered, find-put_self, find-put_ne, put-IsOrdered}
use cat_db.Storage.TableSpace.{TableSpace}

module _ {ℓ} {A : Type ℓ} where
  pub set-get_or_self : (xs : List A) (i : ℕ) (d : A) → set xs i (get_or xs i d) ≡ xs
  set-get_or_self [] i d = refl
  set-get_or_self (x ∷ xs) zero d = refl
  set-get_or_self (x ∷ xs) (suc i) d = ap (◌∷◌ x) (set-get_or_self xs i d)

  pub get_or-append_left :
      (xs ys : List A) (i : ℕ) (d : A) → i < length xs → get_or (xs ++ ys) i d ≡ get_or xs i d
  get_or-append_left [] ys i d h = absurd (omega arith)
  get_or-append_left (x ∷ xs) ys zero d h = refl
  get_or-append_left (x ∷ xs) ys (suc i) d h = get_or-append_left xs ys i d (omega arith)

module _ {O : Type 0} ⦃class : ObjectClass O⦄ ⦃stored : Stored O⦄ where
  -- The page of a table with offset `k`, whose ids start at `k * 1024`; a row takes 12 bytes or more.
  pub record IsPageOf (table_id k : ℕ) (p : Page) (es : List (Entry O)) : Type 0 where
    pub is_page : IsPage p es
    pub table_is : p.table_id ≡ table_id
    pub offset_is : p.page_offset ≡ k
    pub next_is : p.page_next ≡ k + 1
    pub beg_is : p.beg_row_id ≡ k * 1024
    pub roomy : 12 * p.row_count ≤ p.free_space

  abbrev pub IsFiled : TableSpace → ℕ → List (Entry O) → Type 0
  IsFiled ts k es = (k < length ts.io.file) × IsPageOf ts.table_id k (get_or ts.io.file k hole) es

  -- A page that is in memory and not dirty is in the file too.
  abbrev pub IsHeld : TableSpace → ℕ → List (Entry O) → Type 0
  IsHeld ts k es =
      ((p : Page) × (find ts.pages k ≡ some p)
        × IsPageOf ts.table_id k p es
        × ((p.is_dirty ≡ true) ⊎ IsFiled ts k es))
      ⊎ ((find ts.pages k ≡ none) × IsFiled ts k es)

  pub record IsSpace (ts : TableSpace) (ess : List (List (Entry O))) : Type 0 where
    pub opened : ts.io.file_handle ≡ true
    pub ordered : IsOrdered 0 ts.pages
    pub held : (k : ℕ) → k < length ess → IsHeld ts k (get_or ess k [])
    pub within : (k : ℕ) (p : Page) → find ts.pages k ≡ some p → k < length ess
    pub short : length ts.io.file ≤ length ess
    pub small : length ess ≤ 2 ^ 21

  pub at_index-IsPageOf :
      (table_id k : ℕ) (p : Page) (es : List (Entry O)) (i : ℕ) (b : Bool)
      → IsPageOf table_id k p es
      → IsPageOf table_id k (record p { row_idx = i; is_dirty = b }) es
  at_index-IsPageOf table_id k p es i b h = record {
    is_page = record {
      entries_are = h.is_page.entries_are;
      count_is = h.is_page.count_is;
      end_is = h.is_page.end_is;
      end_small = h.is_page.end_small;
      offset_is = h.is_page.offset_is;
      size_is = h.is_page.size_is;
    };
    table_is = h.table_is;
    offset_is = h.offset_is;
    next_is = h.next_is;
    beg_is = h.beg_is;
    roomy = h.roomy;
  }

  other_page :
      (ts : TableSpace) (k j : ℕ) (p : Page) (es : List (Entry O))
      → j ≢ k
      → IsHeld ts j es
      → IsHeld (record ts { pages = put ts.pages k p }) j es
  other_page ts k j p es ne (inl (q, f, page, safe)) =
      inl (q, find-put_ne ts.pages k j p ne ∙ f, page, safe)
  other_page ts k j p es ne (inr (f, filed)) = inr (find-put_ne ts.pages k j p ne ∙ f, filed)

  -- The page with offset `k` stands for `es` from now on.
  pub put-IsSpace :
      (ts : TableSpace) (ess : List (List (Entry O))) (k : ℕ) (p : Page) (es : List (Entry O))
      → IsSpace ts ess
      → k < length ess
      → IsPageOf ts.table_id k p es
      → (p.is_dirty ≡ true) ⊎ IsFiled ts k es
      → IsSpace (record ts { pages = put ts.pages k p }) (set ess k es)
  put-IsSpace ts ess k p es h lt page safe =
      let len = length-set ess k es in
      record {
        opened = h.opened;
        ordered = put-IsOrdered ts.pages 0 k p (omega arith) h.ordered;
        held = λ j below. elim (Bool-cases (j == k)) [
          | inl y ↦
              let here : k ≡ j = ground (arith, y) in
              subst
                (λ i.
                  IsHeld (record ts { pages = put ts.pages k p }) i (get_or (set ess k es) i []))
                here
                (rw (get_or-set_self ess k es [] lt)
                  (inl (p, find-put_self ts.pages k p, page, safe)))
          | inr nay ↦
              let ne : j ≢ k = λ e. ground (arith, e, nay) in
              rw (get_or-set_ne ess k j es [] (λ e. ne (sym e)))
                (other_page ts k j p (get_or ess j []) ne (h.held j (omega (arith, len))))
        ];
        within = λ j q found. elim (Bool-cases (j == k)) [
          | inl y ↦ ground (arith, y, lt, len)
          | inr nay ↦
              let ne : j ≢ k = λ e. ground (arith, e, nay) in
              let old = h.within j q (sym (find-put_ne ts.pages k j p ne) ∙ found) in
              omega (arith, len, old)
        ];
        short = omega (arith, len, h.short);
        small = omega (arith, len, h.small);
      }

  -- The page behind the last one.
  pub append-IsSpace :
      (ts : TableSpace) (ess : List (List (Entry O))) (p : Page) (es : List (Entry O))
      → IsSpace ts ess
      → length ess < 2 ^ 21
      → IsPageOf ts.table_id (length ess) p es
      → p.is_dirty ≡ true
      → IsSpace (record ts { pages = put ts.pages (length ess) p }) (ess ++ es ∷ [])
  append-IsSpace ts ess p es h few page dirty =
      let n = length ess in
      let ts' = record ts { pages = put ts.pages n p } in
      let len = length-append ess (es ∷ []) in
      record {
        opened = h.opened;
        ordered = put-IsOrdered ts.pages 0 n p (omega arith) h.ordered;
        held = λ j below. elim (Bool-cases (j == n)) [
          | inl y ↦
              let here : n ≡ j = ground (arith, y) in
              subst (λ i. IsHeld ts' i (get_or (ess ++ es ∷ []) i [])) here
                (rw (get_or-append_length ess [] es [])
                  (inl (p, find-put_self ts.pages n p, page, inl dirty)))
          | inr nay ↦
              let ne : j ≢ n = λ e. ground (arith, e, nay) in
              let lt : j < n = omega (arith, ne, len, below) in
              rw (get_or-append_left ess (es ∷ []) j [] lt)
                (other_page ts n j p (get_or ess j []) ne (h.held j lt))
        ];
        within = λ j q found. elim (Bool-cases (j == n)) [
          | inl y ↦ ground (arith, y, len)
          | inr nay ↦
              let ne : j ≢ n = λ e. ground (arith, e, nay) in
              let old = h.within j q (sym (find-put_ne ts.pages n j p ne) ∙ found) in
              omega (arith, len, old)
        ];
        short = omega (arith, len, h.short);
        small = omega (arith, len, few);
      }
