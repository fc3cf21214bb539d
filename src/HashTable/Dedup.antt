-- ===== src/HashTable/Dedup.antt =====
-- The bodies that HashDistinct, HashUnion, HashIntersect and HashExcept share (sql/hash_distinct.cpp,
-- sql/hash_set.cpp): probe the table for a row, and build the row in where it is new.
use cat_db.Prelude.{
  ◌≡◌, refl, ap, sym, ◌∙◌, Bool, true, false, List, [], ◌∷◌, ◌++◌, if◌then◌else◌, Bool-cases, inl,
  inr,
}
use mathlib.Core.List.{append-nil, append_assoc}
use cat_db.Error.{success, row_not_found, is_success}
use cat_db.HashTable.{HashTable, StdHash, build, probe}
use cat_db.HashTable.Probe.{IsTable, matches, any_matches, build_all, probe-build_all}
use cat_db.Object.{ObjectClass}
use cat_db.Operator.Drain.{fold}
use cat_db.Operator.Until.{select, select_kept, select_passed}
use cat_db.Relation.{unique, unique_old, unique_new}
use cat_db.Row.{Row}

module _ {O : Type 0} ⦃class : ObjectClass O⦄ ⦃std : StdHash⦄ where
  -- A row that is found is passed over; one that is new is built in and returned.
  unfoldable pub dedup_body : HashTable O → Row O → Bool × HashTable O
  dedup_body t r = if is_success (probe t r) then (false, t) else (true, build t r)

  -- The body of `build_hash_table` of HashIntersect and HashExcept.
  unfoldable pub build_new : HashTable O → Row O → HashTable O
  build_new t r = if is_success (probe t r) then t else build t r

  -- A table of the right shape in which no probe finds anything.
  pub record IsFresh (t : HashTable O) : Type 0 where
    pub table : IsTable t
    pub finds_nothing : (b : Row O) → probe t b ≡ row_not_found

  build_all-append :
      (t : HashTable O) (rows : List (Row O)) (r : Row O)
      → build_all t (rows ++ r ∷ []) ≡ build (build_all t rows) r
  unfolding build_all
  build_all-append t [] r = refl
  build_all-append t (x ∷ rows) r = build_all-append (build t x) rows r

  module _ (t : HashTable O) (seen : List (Row O)) (r : Row O) (w : IsFresh t) where
    pub probe-seen :
        probe (build_all t seen) r ≡ (if any_matches t seen r then success else row_not_found)
    probe-seen = rw (probe-build_all t seen r w.table, w.finds_nothing r)

    pub dedup_old :
        any_matches t seen r ≡ true → dedup_body (build_all t seen) r ≡ (false, build_all t seen)
    unfolding dedup_body
    dedup_old e = rw (probe-seen, e)

    pub dedup_new :
        any_matches t seen r ≡ false
        → dedup_body (build_all t seen) r ≡ (true, build_all t (seen ++ r ∷ []))
    unfolding dedup_body
    dedup_new e = rw (probe-seen, e, build_all-append t seen r)

    build_old : any_matches t seen r ≡ true → build_new (build_all t seen) r ≡ build_all t seen
    unfolding build_new
    build_old e = rw (probe-seen, e)

    build_add :
        any_matches t seen r ≡ false → build_new (build_all t seen) r ≡ build_all t (seen ++ r ∷ [])
    unfolding build_new
    build_add e = rw (probe-seen, e, build_all-append t seen r)

  -- Over a fresh table with `seen` built in, the loop returns the rows that are new.
  pub select-unique :
      (t : HashTable O) (seen rows : List (Row O))
      → IsFresh t
      → select dedup_body (build_all t seen) rows ≡ unique (matches t) seen rows
  unfolding select unique
  select-unique t seen [] w = refl
  select-unique t seen (r ∷ rows) w = elim (Bool-cases (any_matches t seen r)) [
    | inl e ↦
        select_passed dedup_body _ _ r rows (dedup_old t seen r w e)
        ∙ select-unique t seen rows w
        ∙ sym (unique_old (matches t) seen r rows e)
    | inr e ↦
        select_kept dedup_body _ _ r rows (dedup_new t seen r w e)
        ∙ ap (◌∷◌ r) (select-unique t (seen ++ r ∷ []) rows w)
        ∙ sym (unique_new (matches t) seen r rows e)
  ]

  -- Building a table leaves it with the rows that are new.
  pub fold-build_new :
      (t : HashTable O) (seen rows : List (Row O))
      → IsFresh t
      → fold build_new (build_all t seen) rows ≡ build_all t (seen ++ unique (matches t) seen rows)
  unfolding fold unique
  fold-build_new t seen [] w = rw append-nil
  fold-build_new t seen (r ∷ rows) w = elim (Bool-cases (any_matches t seen r)) [
    | inl e ↦ rw (e, build_old t seen r w e) (fold-build_new t seen rows w)
    | inr e ↦
        rw (e, build_add t seen r w e)
          (fold-build_new t (seen ++ r ∷ []) rows w
            ∙ ap (build_all t) (append_assoc seen (r ∷ []) _))
  ]
