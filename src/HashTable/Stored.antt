-- ===== src/HashTable/Stored.antt =====
-- The rows that the buckets of a hash table of common/hash_table.cpp hold, as one list.
use cat_db.Prelude.{
  get_or-replicate, ℕ, ◌<◌, ◌%◌, ◌≡◌, refl, sym, ap, ◌∙◌, subst, Bool, true, false, not, ◌&&◌, List,
  [], ◌∷◌, ◌++◌, ◌==◌, length, get_or, set, length-set, get_or-set_self, get_or-set_ne, arith, inl,
  inr, Bool-cases,
}
use mathlib.Core.List.{append-nil, append_assoc}
use native.Mathlib.Decide.{ℕ_discrete}
use cat_db.Expr.{Expression, plain}
use cat_db.HashTable.{
  new_table, hash_value, hash_exprs, HashTable, StdHash, slot, build, probe_holds, matching,
  not_matching, probe_and_drop,
}
use cat_db.HashTable.Probe.{IsTable, slot-lt}
use cat_db.Object.{ObjectClass}
use cat_db.Operator.Drain.{fold}
use cat_db.Relation.{AllOf, AllOf-map, keep}
use cat_db.Row.{Row}

module _ {R : Type 0} where
  pub keep-append : (p : R → Bool) (xs ys : List R) → keep p (xs ++ ys) ≡ keep p xs ++ keep p ys
  unfolding keep
  keep-append p [] ys = refl
  keep-append p (x ∷ xs) ys = ground (arith, keep-append p xs ys)

  pub keep-keep : (p q : R → Bool) (xs : List R) → keep p (keep q xs) ≡ keep (λ x. q x && p x) xs
  unfolding keep
  keep-keep p q [] = refl
  keep-keep p q (x ∷ xs) = elim (Bool-cases (q x)) [
    | inl t ↦ rw (t, keep, keep-keep p q xs) refl
    | inr f ↦ rw (f, keep, keep-keep p q xs) refl
  ]

  pub keep-same : (p q : R → Bool) (xs : List R) → ((x : R) → p x ≡ q x) → keep p xs ≡ keep q xs
  unfolding keep
  keep-same p q [] h = refl
  keep-same p q (x ∷ xs) h = rw (h x, keep-same p q xs h) refl

  keep-same_on : (p q : R → Bool) (xs : List R) → AllOf (λ x. p x ≡ q x) xs → keep p xs ≡ keep q xs
  unfolding keep
  keep-same_on p q [] h = refl
  keep-same_on p q (x ∷ xs) h = rw (h.0, keep-same_on p q xs h.1) refl

module _ {R : Type 0} (home want : R → ℕ) (holds : R → R → Bool) where
  -- The rows that belong to `r` are in its bucket.
  abbrev pub Meeting : R → List R → Type 0
  Meeting r rows = AllOf (λ a. holds r a ≡ true → home a ≡ want r) rows

  abbrev pub AllMeeting : List R → List R → Type 0
  AllMeeting rs rows = AllOf (λ r. Meeting r rows) rs

module _ {O : Type 0} ⦃class : ObjectClass O⦄ ⦃std : StdHash⦄ where
  -- The table holds the rows of the list, each in its bucket and in the order of the list; `home` is the
  -- bucket of a row that is built in, `want` that of one that probes, and `holds` the probe condition.
  pub record IsStored (home want : Row O → ℕ) (holds : Row O → Row O → Bool) (t : HashTable O)
      (rows : List (Row O)) : Type 0 where
    pub home_is : (a : Row O) → slot t t.hash_cols a ≡ home a
    pub want_is : (r : Row O) → slot t t.probe_cols r ≡ want r
    pub holds_is : (r a : Row O) → probe_holds t r a ≡ holds r a
    pub home-lt : (a : Row O) → home a < length t.buckets
    pub want-lt : (r : Row O) → want r < length t.buckets
    pub bucket_is :
        (k : ℕ) → k < length t.buckets → get_or t.buckets k [] ≡ keep (λ a. home a == k) rows

  pub new_table-empty : (num k : ℕ) → get_or (new_table {O = O} num).buckets k [] ≡ []
  unfolding new_table
  new_table-empty num k = rw get_or-replicate

  pub empty-IsStored :
      (t : HashTable O)
      → IsTable t
      → ((k : ℕ) → get_or t.buckets k [] ≡ [])
      → IsStored (slot t t.hash_cols) (slot t t.probe_cols) (probe_holds t) t []
  unfolding keep
  empty-IsStored t table empty = record {
    home_is = λ a. refl;
    want_is = λ r. refl;
    holds_is = λ r a. refl;
    home-lt = λ a. slot-lt t t.hash_cols a table;
    want-lt = λ r. slot-lt t t.probe_cols r table;
    bucket_is = λ k lt. empty k;
  }

  matching-keep :
      (t : HashTable O) (r : Row O) (xs : List (Row O))
      → matching t r xs ≡ keep (probe_holds t r) xs
  unfolding matching keep
  matching-keep t r [] = refl
  matching-keep t r (x ∷ xs) = rw (matching-keep t r xs) refl

  not_matching-keep :
      (t : HashTable O) (r : Row O) (xs : List (Row O))
      → not_matching t r xs ≡ keep (λ x. not (probe_holds t r x)) xs
  unfolding not_matching keep
  not_matching-keep t r [] = refl
  not_matching-keep t r (x ∷ xs) = ground (arith, not_matching-keep t r xs)

  module _ (home want : Row O → ℕ) (holds : Row O → Row O → Bool) where
    build_bucket :
        (t : HashTable O) (rows : List (Row O)) (r : Row O)
        → IsStored home want holds t rows
        → (k : ℕ) → k < length t.buckets
        → get_or (build t r).buckets k [] ≡ keep (λ a. home a == k) (rows ++ r ∷ [])
    unfolding build keep
    build_bucket t rows r h k lt =
        let at = h.home_is r in
        let was = h.bucket_is k lt in
        let split = keep-append (λ a. home a == k) rows (r ∷ []) in
        elim (ℕ_discrete (home r) k) [
          | yes e ↦
              let here : (home r == k) ≡ true = ground (arith, e) in
              rw (at, split, here)
                (subst
                  (λ i.
                    get_or (set t.buckets i (get_or t.buckets i [] ++ r ∷ [])) k []
                    ≡ keep (λ a. home a == k) rows ++ r ∷ [])
                  (sym e)
                  (get_or-set_self t.buckets k (get_or t.buckets k [] ++ r ∷ []) [] lt
                    ∙ ap (λ b. b ++ r ∷ []) was))
          | no ne ↦
              let there : (home r == k) ≡ false = ground (arith, ne) in
              rw (at, split, there)
                (get_or-set_ne t.buckets (home r) k _ [] ne
                  ∙ was
                  ∙ sym (append-nil (keep (λ a. home a == k) rows)))
        ]

    pub build-IsStored :
        (t : HashTable O) (rows : List (Row O)) (r : Row O)
        → IsStored home want holds t rows
        → IsStored home want holds (build t r) (rows ++ r ∷ [])
    unfolding build slot probe_holds
    build-IsStored t rows r h = record {
      home_is = h.home_is;
      want_is = h.want_is;
      holds_is = h.holds_is;
      home-lt = λ a. subst (λ n. home a < n) (sym (length-set t.buckets _ _)) (h.home-lt a);
      want-lt = λ a. subst (λ n. want a < n) (sym (length-set t.buckets _ _)) (h.want-lt a);
      bucket_is =
          λ k lt. build_bucket t rows r h k (subst (λ n. k < n) (length-set t.buckets _ _) lt);
    }

    -- Where the rows that belong to a row are in its bucket, a probe finds them all.
    pub matching-IsStored :
        (t : HashTable O) (rows : List (Row O)) (r : Row O)
        → Meeting home want holds r rows
        → IsStored home want holds t rows
        → matching t r (get_or t.buckets (slot t t.probe_cols r) []) ≡ keep (holds r) rows
    matching-IsStored t rows r meet h =
        matching-keep t r (get_or t.buckets (slot t t.probe_cols r) [])
        ∙ keep-same (probe_holds t r) (holds r) _ (h.holds_is r)
        ∙ ap (keep (holds r))
            (ap (λ k. get_or t.buckets k []) (h.want_is r) ∙ h.bucket_is (want r) (h.want-lt r))
        ∙ keep-keep (holds r) (λ a. home a == want r) rows
        ∙ keep-same_on (λ a. (home a == want r) && holds r a) (holds r) rows
            (AllOf-map _ _ rows
              (λ a at. elim (Bool-cases (holds r a)) [
                | inl y ↦ let here = at y in ground (arith, here, y)
                | inr n ↦ ground (arith, n)
              ])
              meet)

    drop_bucket :
        (t : HashTable O) (rows : List (Row O)) (r : Row O)
        → Meeting home want holds r rows
        → IsStored home want holds t rows
        → (k : ℕ) → k < length t.buckets
        → get_or (probe_and_drop t r).1.buckets k []
          ≡ keep (λ a. home a == k) (keep (λ a. not (holds r a)) rows)
    unfolding probe_and_drop
    drop_bucket t rows r meet h k lt =
        let at = h.want_is r in
        let was = h.bucket_is k lt in
        let left = λ (i : ℕ). not_matching t r (get_or t.buckets i []) in
        let flat = keep-keep (λ a. home a == k) (λ a. not (holds r a)) rows in
        elim (ℕ_discrete (want r) k) [
          | yes e ↦
              let placed : get_or
                    (set t.buckets (slot t t.probe_cols r) (left (slot t t.probe_cols r))) k []
                  ≡ left k =
                ap (λ i. get_or (set t.buckets i (left i)) k []) (at ∙ e)
                ∙ get_or-set_self t.buckets k (left k) [] lt in
              placed
              ∙ not_matching-keep t r (get_or t.buckets k [])
              ∙ keep-same (λ x. not (probe_holds t r x)) (λ x. not (holds r x)) _
                  (λ a. ap not (h.holds_is r a))
              ∙ ap (keep (λ a. not (holds r a))) was
              ∙ keep-keep (λ a. not (holds r a)) (λ a. home a == k) rows
              ∙ keep-same _ _ rows (λ a. ground arith)
              ∙ sym flat
          | no ne ↦
              let other : get_or
                    (set t.buckets (slot t t.probe_cols r) (left (slot t t.probe_cols r))) k []
                  ≡ get_or t.buckets k [] =
                ap (λ i. get_or (set t.buckets i (left i)) k []) at
                ∙ get_or-set_ne t.buckets (want r) k (left (want r)) [] ne in
              other
              ∙ was
              ∙ keep-same_on (λ a. home a == k) (λ a. not (holds r a) && (home a == k)) rows
                  (AllOf-map _ _ rows
                    (λ a at. elim (Bool-cases (holds r a)) [
                      | inl y ↦ let here = at y in ground (arith, here, y, ne)
                      | inr n ↦ ground (arith, n)
                    ])
                    meet)
              ∙ sym flat
        ]

    -- What a row finds is dropped, and the others stay.
    pub drop-IsStored :
        (t : HashTable O) (rows : List (Row O)) (r : Row O)
        → Meeting home want holds r rows
        → IsStored home want holds t rows
        → IsStored home want holds (probe_and_drop t r).1 (keep (λ a. not (holds r a)) rows)
    unfolding probe_and_drop slot probe_holds
    drop-IsStored t rows r meet h = record {
      home_is = h.home_is;
      want_is = h.want_is;
      holds_is = h.holds_is;
      home-lt = λ a. subst (λ n. home a < n) (sym (length-set t.buckets _ _)) (h.home-lt a);
      want-lt = λ a. subst (λ n. want a < n) (sym (length-set t.buckets _ _)) (h.want-lt a);
      bucket_is =
          λ k lt. drop_bucket t rows r meet h k (subst (λ n. k < n) (length-set t.buckets _ _) lt);
    }

    pub fold-IsStored :
        (rest rows : List (Row O)) (t : HashTable O)
        → IsStored home want holds t rows
        → IsStored home want holds (fold build t rest) (rows ++ rest)
    unfolding fold
    fold-IsStored [] rows t h = rw append-nil h
    fold-IsStored (r ∷ rest) rows t h =
        subst (λ l. IsStored home want holds (fold build (build t r) rest) l)
          (append_assoc rows (r ∷ []) rest)
          (fold-IsStored rest (rows ++ r ∷ []) (build t r) (build-IsStored t rows r h))

module _ {O : Type 0} ⦃class : ObjectClass O⦄ ⦃std : StdHash⦄ where
  -- The columns hash alike, one by one.
  abbrev pub HashAlike : List (Expression O) → Row O → List (Expression O) → Row O → Type 0
  HashAlike [] a [] b = Unit
  HashAlike [] a (e' ∷ es') b = ⊥
  HashAlike (e ∷ es) a [] b = ⊥
  HashAlike (e ∷ es) a (e' ∷ es') b =
      (class.is_error (e (plain a)) ≡ class.is_error (e' (plain b)))
      × (class.hash (e (plain a)) ≡ class.hash (e' (plain b)))
      × HashAlike es a es' b

  hash_exprs-alike :
      (es es' : List (Expression O)) (a b : Row O) (value : ℕ)
      → HashAlike es a es' b
      → hash_exprs es a value ≡ hash_exprs es' b value
  unfolding hash_exprs
  hash_exprs-alike [] [] a b value h = refl
  hash_exprs-alike [] (e' ∷ es') a b value h = elim h [ ]
  hash_exprs-alike (e ∷ es) [] a b value h = elim h [ ]
  hash_exprs-alike (e ∷ es) (e' ∷ es') a b value h =
      rw (h.0, h.1) (hash_exprs-alike es es' a b _ h.2)

  pub slot-alike :
      (t : HashTable O) (e e' : Expression O) (es es' : List (Expression O)) (a b : Row O)
      → HashAlike (e ∷ es) a (e' ∷ es') b
      → slot t (e ∷ es) a ≡ slot t (e' ∷ es') b
  unfolding slot hash_value
  slot-alike t e e' es es' a b h =
      ap (λ v. v % t.bucket_num) (hash_exprs-alike (e ∷ es) (e' ∷ es') a b 0 h)
