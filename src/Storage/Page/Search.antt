-- ===== src/Storage/Page/Search.antt =====
-- `search_row` of storage/page.cpp: the loop over the row infos, and its counterpart on a list of rows.
use cat_db.Prelude.{
  ℕ, zero, suc, ◌+◌, ◌^◌, ◌<◌, ◌≡◌, refl, ap, sym, subst, ◌∙◌, ◌⊎◌, inl, inr, Bool, true, false,
  not, ◌&&◌, List, [], ◌∷◌, ◌++◌, length, get_or, if◌then◌else◌, ◌==◌, arith, Option, none, some,
  length-append, get_or-append_length, Bool-cases,
}
use mathlib.Core.List.{append_assoc}
use cat_db.Error.{Result, ok, err, row_id_not_found}
use cat_db.Object.{ObjectClass}
use cat_db.Storage.Memory.{Memory}
use cat_db.Storage.Format.{Stored}
use cat_db.Storage.Page.{
  Page, RowInfo, search_row, search_from, row_id_deleted, set_row_id_deleted, mark_deleted, beyond,
}
use cat_db.Storage.Page.Contents.{Entry, IsEntry, IsEntries, IsPage, info_id, length-IsEntries}

abbrev pub live : {O : Type 0} → ℕ → Entry O → Bool
live id e = id == e.id && not e.gone

abbrev pub find : {O : Type 0} → ℕ → List (Entry O) → Option (Entry O)
find id [] = none
find id (e ∷ es) = if live id e then some e else find id es

abbrev pub erase : {O : Type 0} → ℕ → List (Entry O) → List (Entry O)
erase id [] = []
erase id (e ∷ es) = if live id e then record e { gone = true } ∷ es else e ∷ erase id es

pub length-erase : {O : Type 0} (id : ℕ) (es : List (Entry O)) → length (erase id es) ≡ length es
length-erase id [] = refl
length-erase id (e ∷ es) = elim (Bool-cases (live id e)) [
  | inl y ↦ rw y refl
  | inr n ↦ rw n (ap suc (length-erase id es))
]

pub row_id_deleted-info_id :
    (id : ℕ) (gone : Bool) → id < 2 ^ 31 → row_id_deleted (info_id id gone) ≡ gone
unfolding row_id_deleted
row_id_deleted-info_id id true h = ground arith
row_id_deleted-info_id id false h = ground arith

set_row_id_deleted-info_id : (id : ℕ) → id < 2 ^ 31 → set_row_id_deleted id ≡ info_id id true
unfolding set_row_id_deleted row_id_deleted
set_row_id_deleted-info_id id h = ground arith

live_same :
    (id own : ℕ) (gone : Bool)
    → own < 2 ^ 31
    → (id == info_id own gone && not (row_id_deleted (info_id own gone))) ≡ (id == own && not gone)
live_same id own true h = rw (row_id_deleted-info_id own true h) (ground arith)
live_same id own false h = rw (row_id_deleted-info_id own false h) refl

live_gone : {O : Type 0} (id : ℕ) (e : Entry O) → live id e ≡ true → e.gone ≡ false
live_gone id e h = ground arith

module _ {O : Type 0} ⦃class : ObjectClass O⦄ ⦃stored : Stored O⦄ where
  -- What comes of the search from row info `i` on, when `infos` are left and stand for `es`.
  abbrev pub Searched :
      (m : Memory) (limit beg id i : ℕ) → List RowInfo → List (Entry O) → Result ℕ → Type 0
  Searched m limit beg id i infos es result =
      ((result ≡ err row_id_not_found) × (find id es ≡ none))
      ⊎ ((k : ℕ) × (e : Entry O) × (result ≡ ok (i + k))
          × (find id es ≡ some e)
          × (e.gone ≡ false)
          × IsEntry m limit (get_or infos k beyond) e
          × IsEntries m limit beg (mark_deleted k infos) (erase id es))

  mark-IsEntry :
      (m : Memory) (limit : ℕ) (info : RowInfo) (e : Entry O)
      → IsEntry m limit info e
      → e.gone ≡ false
      → IsEntry m limit
          (record info { row_id = set_row_id_deleted info.row_id })
          (record e { gone = true })
  mark-IsEntry m limit info e h alive = record {
    id_is = rw (h.id_is, alive) (set_row_id_deleted-info_id e.id h.id_small);
    id_small = h.id_small;
    all_stored = h.all_stored;
    count_is = h.count_is;
    count_fits = h.count_fits;
    record_is = h.record_is;
  }

  search_step :
      (all : List RowInfo) (id i n : ℕ) (info : RowInfo) (e : Entry O) (m : Memory) (limit : ℕ)
      → get_or all i beyond ≡ info
      → IsEntry m limit info e
      → search_from id all i (suc n) ≡ (if live id e then ok i else search_from id all (i + 1) n)
  unfolding search_from
  search_step all id i n info e m limit at h =
      rw (at, h.id_is, live_same id e.id e.gone h.id_small) refl

  search_from-Searched :
      (infos pre : List RowInfo) (es : List (Entry O)) (all : List RowInfo) (m : Memory)
      (limit beg id i n : ℕ)
      → IsEntries m limit beg infos es
      → all ≡ pre ++ infos
      → i ≡ length pre
      → n ≡ length infos
      → Searched m limit beg id i infos es (search_from id all i n)
  unfolding search_from mark_deleted
  search_from-Searched [] pre [] all m limit beg id i zero h ea ei en = inl (refl, refl)
  search_from-Searched [] pre [] all m limit beg id i (suc n) h ea ei en = absurd (omega arith)
  search_from-Searched [] pre (e ∷ es) all m limit beg id i n h ea ei en = elim h [ ]
  search_from-Searched (info ∷ infos) pre [] all m limit beg id i n h ea ei en = elim h [ ]
  search_from-Searched (info ∷ infos) pre (e ∷ es) all m limit beg id i zero h ea ei en =
      absurd (omega arith)
  search_from-Searched (info ∷ infos) pre (e ∷ es) all m limit beg id i (suc n) h ea ei en =
      let at : get_or all i beyond ≡ info =
        rw (ea, ei, get_or-append_length pre infos info beyond) refl in
      let step = search_step all id i n info e m limit at h.0 in
      elim (Bool-cases (live id e)) [
        | inl y ↦
            let step' : search_from id all i (suc n) ≡ ok (i + 0) =
              step ∙ rw y (ap (λ j. ok j) (omega arith)) in
            let erased : erase id (e ∷ es) ≡ record e { gone = true } ∷ es = rw y refl in
            let alive = live_gone id e y in
            inr (
              0,
              e,
              step',
              rw y refl,
              alive,
              h.0,
              subst (λ es'. IsEntries m limit beg (mark_deleted 0 (info ∷ infos)) es') (sym erased)
                  (mark-IsEntry m limit info e h.0 alive, h.1, h.2),
            )
        | inr nay ↦
            let step' : search_from id all i (suc n) ≡ search_from id all (i + 1) n =
              step ∙ rw nay refl in
            let found : find id (e ∷ es) ≡ find id es = rw nay refl in
            let erased : erase id (e ∷ es) ≡ e ∷ erase id es = rw nay refl in
            elim (search_from-Searched infos (pre ++ info ∷ []) es all m limit beg id (i + 1) n h.2
              (ea ∙ sym (append_assoc pre (info ∷ []) infos)) (rw length-append (omega arith))
              (omega arith)) [
                | inl (r, f) ↦ inl (step' ∙ r, found ∙ f)
                | inr (k, e', r, f, alive, entry, entries) ↦ inr (
                  suc k,
                  e',
                  step' ∙ r ∙ ap (λ j. ok j) (omega arith),
                  found ∙ f,
                  alive,
                  entry,
                  subst (λ es'. IsEntries m limit beg (info ∷ mark_deleted k infos) es')
                      (sym erased) (h.0, rw length-erase h.1, entries),
                )
              ]
      ]

  pub search_row-Searched :
      (p : Page) (es : List (Entry O)) (id : ℕ)
      → IsPage p es
      → Searched p.memory p.free_space p.beg_row_id id 0 p.row_info es (search_row p id)
  unfolding search_row
  search_row-Searched p es id h =
      let len = length-IsEntries p.row_info es p.memory p.free_space p.beg_row_id h.entries_are in
      search_from-Searched p.row_info [] es p.row_info p.memory p.free_space p.beg_row_id id 0
        p.row_count h.entries_are refl refl (omega (arith, len, h.count_is))
