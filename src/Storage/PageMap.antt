-- ===== src/Storage/PageMap.antt =====
-- `std::map<u32, Page_s>` of storage/table_space.h, as a list of pages in the order of their keys.
use cat_db.Prelude.{
  ℕ, ◌+◌, ◌≤◌, ◌<◌, ◌≡◌, ◌≢◌, refl, sym, ◌∙◌, ap, subst, true, false, List, [], ◌∷◌, Option, none,
  some, if◌then◌else◌, ltb, ◌==◌, arith, Bool-cases, Option-cases, some-injective, inl, inr,
}
use cat_db.Storage.Page.{Page}

abbrev pub PageMap : Type 0
PageMap = List (ℕ × Page)

abbrev pub find : PageMap → ℕ → Option Page
find [] k = none
find ((j, p) ∷ ps) k = if k == j then some p else find ps k

abbrev pub put : PageMap → ℕ → Page → PageMap
put [] k p = (k, p) ∷ []
put ((j, q) ∷ ps) k p =
    let rest = put ps k p in
    if k == j then (k, p) ∷ ps else if ltb k j then (k, p) ∷ (j, q) ∷ ps else (j, q) ∷ rest

abbrev pub erase : PageMap → ℕ → PageMap
erase [] k = []
erase ((j, q) ∷ ps) k = let rest = erase ps k in if k == j then rest else (j, q) ∷ rest

-- `--end()`: the greatest key.
abbrev pub last_key : PageMap → Option ℕ
last_key [] = none
last_key ((j, q) ∷ []) = some j
last_key (_ ∷ jq ∷ ps) = last_key (jq ∷ ps)

abbrev pub map_pages : (Page → Page) → PageMap → PageMap
map_pages f [] = []
map_pages f ((j, q) ∷ ps) = (j, f q) ∷ map_pages f ps

-- The keys go up, from `low` on.
abbrev pub IsOrdered : ℕ → PageMap → Type 0
IsOrdered low [] = Unit
IsOrdered low ((j, q) ∷ ps) = (low ≤ j) × IsOrdered (j + 1) ps

pub IsOrdered-weaken :
    (ps : PageMap) (low low' : ℕ) → low' ≤ low → IsOrdered low ps → IsOrdered low' ps
IsOrdered-weaken [] low low' le h = tt
IsOrdered-weaken ((j, q) ∷ ps) low low' le h = (omega (arith, h.0), h.1)

pub find-put_self : (ps : PageMap) (k : ℕ) (p : Page) → find (put ps k p) k ≡ some p
find-put_self [] k p = let self : (k == k) ≡ true = ground arith in rw self refl
find-put_self ((j, q) ∷ ps) k p =
    let self : (k == k) ≡ true = ground arith in
    elim (Bool-cases (k == j)) [
      | inl y ↦ rw (y, self) refl
      | inr nay ↦ elim (Bool-cases (ltb k j)) [
        | inl y ↦ rw (nay, y, self) refl
        | inr not_below ↦ rw (nay, not_below, nay) (find-put_self ps k p)
      ]
    ]

pub find-put_ne : (ps : PageMap) (k j : ℕ) (p : Page) → j ≢ k → find (put ps k p) j ≡ find ps j
find-put_ne [] k j p ne = let other : (j == k) ≡ false = ground (arith, ne) in rw other refl
find-put_ne ((i, q) ∷ ps) k j p ne =
    let other : (j == k) ≡ false = ground (arith, ne) in
    elim (Bool-cases (k == i)) [
      | inl y ↦ let other' : (j == i) ≡ false = ground (arith, ne, y) in rw (y, other, other') refl
      | inr nay ↦ elim (Bool-cases (ltb k i)) [
        | inl y ↦ rw (nay, y, other) refl
        | inr not_below ↦ rw (nay, not_below, find-put_ne ps k j p ne) refl
      ]
    ]

pub find-erase_self : (ps : PageMap) (k : ℕ) → find (erase ps k) k ≡ none
find-erase_self [] k = refl
find-erase_self ((i, q) ∷ ps) k = elim (Bool-cases (k == i)) [
  | inl y ↦ rw y (find-erase_self ps k)
  | inr nay ↦ rw (nay, nay) (find-erase_self ps k)
]

pub find-erase_ne : (ps : PageMap) (k j : ℕ) → j ≢ k → find (erase ps k) j ≡ find ps j
find-erase_ne [] k j ne = refl
find-erase_ne ((i, q) ∷ ps) k j ne = elim (Bool-cases (k == i)) [
  | inl y ↦
      let other : (j == i) ≡ false = ground (arith, ne, y) in
      rw (y, other) (find-erase_ne ps k j ne)
  | inr nay ↦ rw (nay, find-erase_ne ps k j ne) refl
]

pub put-IsOrdered :
    (ps : PageMap) (low k : ℕ) (p : Page) → low ≤ k → IsOrdered low ps → IsOrdered low (put ps k p)
put-IsOrdered [] low k p le h = (le, tt)
put-IsOrdered ((j, q) ∷ ps) low k p le h = elim (Bool-cases (k == j)) [
  | inl y ↦ let same : k ≡ j = ground (arith, y) in rw y (le, rw same h.1)
  | inr nay ↦ elim (Bool-cases (ltb k j)) [
    | inl y ↦ rw (nay, y) (le, (ground (arith, y), h.1))
    | inr not_below ↦
        rw (nay, not_below) (h.0, put-IsOrdered ps (j + 1) k p (ground (arith, nay, not_below)) h.1)
  ]
]

pub erase-IsOrdered : (ps : PageMap) (low k : ℕ) → IsOrdered low ps → IsOrdered low (erase ps k)
erase-IsOrdered [] low k h = tt
erase-IsOrdered ((j, q) ∷ ps) low k h = elim (Bool-cases (k == j)) [
  | inl y ↦
      rw y (erase-IsOrdered ps low k (IsOrdered-weaken ps (j + 1) low (omega (arith, h.0)) h.1))
  | inr nay ↦ rw nay (h.0, erase-IsOrdered ps (j + 1) k h.1)
]

pub find_below : (ps : PageMap) (low k : ℕ) → IsOrdered low ps → k < low → find ps k ≡ none
find_below [] low k h lt = refl
find_below ((j, q) ∷ ps) low k h lt =
    let other : (k == j) ≡ false = ground (arith, h.0, lt) in
    rw other (find_below ps (j + 1) k h.1 (omega (arith, h.0)))

-- A key that is in the map and that no key exceeds is the last.
pub last_key_lem :
    (ps : PageMap) (low k : ℕ) (p : Page)
    → IsOrdered low ps
    → find ps k ≡ some p
    → ((j : ℕ) (q : Page) → find ps j ≡ some q → j ≤ k)
    → last_key ps ≡ some k
last_key_lem [] low k p h e top = absurd (ground arith)
last_key_lem ((j, q) ∷ []) low k p h e top = elim (Bool-cases (k == j)) [
  | inl y ↦ ap some (ground (arith, y))
  | inr nay ↦ absurd (ground (arith, e, nay))
]
last_key_lem ((j, q) ∷ (j', q') ∷ ps) low k p h e top = elim (Bool-cases (k == j)) [
  | inl y ↦
      let self : (j' == j') ≡ true = ground arith in
      let other : (j' == j) ≡ false = ground (arith, h.1.0) in
      let over : j' ≤ k = top j' q' (rw (other, self) refl) in absurd (ground (arith, y, h.1.0))
  | inr nay ↦
      let there : find ((j', q') ∷ ps) k ≡ some p =
        subst (λ b. (if b then some q else find ((j', q') ∷ ps) k) ≡ some p) nay e in
      last_key_lem ((j', q') ∷ ps) (j + 1) k p h.1 there (λ i r found. elim (Bool-cases (i == j)) [
        | inl y ↦
            let at : i ≡ j = ground (arith, y) in
            let none_there = find_below ((j', q') ∷ ps) (j + 1) i h.1 (omega (arith, at)) in
            absurd (ground (arith, none_there, found))
        | inr nay' ↦ top i r (rw nay' found)
      ])
]

pub find-map_pages :
    (f : Page → Page) (ps : PageMap) (k : ℕ)
    → find (map_pages f ps) k ≡ elim (find ps k) [ none ↦ none | some p ↦ some (f p) ]
find-map_pages f [] k = refl
find-map_pages f ((j, q) ∷ ps) k = elim (Bool-cases (k == j)) [
  | inl y ↦ rw y refl
  | inr nay ↦ rw nay (find-map_pages f ps k)
]

pub map_pages-IsOrdered :
    (f : Page → Page) (ps : PageMap) (low : ℕ) → IsOrdered low ps → IsOrdered low (map_pages f ps)
map_pages-IsOrdered f [] low h = tt
map_pages-IsOrdered f ((j, q) ∷ ps) low h = (h.0, map_pages-IsOrdered f ps (j + 1) h.1)

pub put-put : (ps : PageMap) (k : ℕ) (p q : Page) → put (put ps k p) k q ≡ put ps k q
put-put [] k p q = let self : (k == k) ≡ true = ground arith in rw self refl
put-put ((j, r) ∷ ps) k p q =
    let self : (k == k) ≡ true = ground arith in
    elim (Bool-cases (k == j)) [
      | inl y ↦ rw (y, self) refl
      | inr nay ↦ elim (Bool-cases (ltb k j)) [
        | inl y ↦ rw (nay, y, self) refl
        | inr not_below ↦ rw (nay, not_below, nay, not_below, put-put ps k p q) refl
      ]
    ]

pub find-map_pages-some :
    (f : Page → Page) (ps : PageMap) (k : ℕ) (p : Page)
    → find ps k ≡ some p
    → find (map_pages f ps) k ≡ some (f p)
find-map_pages-some f ps k p e = find-map_pages f ps k ∙ rw e refl

pub find-map_pages-none :
    (f : Page → Page) (ps : PageMap) (k : ℕ) → find ps k ≡ none → find (map_pages f ps) k ≡ none
find-map_pages-none f ps k e = find-map_pages f ps k ∙ rw e refl

pub found_in_map_pages :
    (f : Page → Page) (ps : PageMap) (k : ℕ) (q : Page)
    → find (map_pages f ps) k ≡ some q
    → (p : Page) × (find ps k ≡ some p) × (f p ≡ q)
found_in_map_pages f ps k q e = elim (Option-cases (find ps k)) [
  | inl absent ↦ absurd (ground (arith, find-map_pages-none f ps k absent, e))
  | inr (p, found) ↦ (p, found, some-injective (sym (find-map_pages-some f ps k p found) ∙ e))
]
