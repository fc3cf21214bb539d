-- ===== src/HashTable/Probe.antt =====
-- What `probe` finds after `build`, in common/hash_table.cpp.
use cat_db.Prelude.{
  ℕ, zero, suc, ◌+◌, ◌<◌, ◌≡◌, refl, ◌∙◌, Bool, true, ◌&&◌, ◌||◌, List, [], ◌∷◌, ◌++◌, ◌==◌,
  if◌then◌else◌, length, get_or, length-set, get_or-set_self, get_or-set_ne, get_or-replicate,
  length-replicate, arith, ◌⊎◌, none, some,
}
use cat_db.Error.{success, row_not_found, value_or}
use cat_db.Expr.{Expression, plain}
use cat_db.HashTable.{
  HashTable, StdHash, new_table, slot, equal_rows, build, any_equal, probe, equal_column,
  equal_cells, equal_exprs,
}
use native.Mathlib.Decide.{ℕ_discrete}
use cat_db.Object.{ObjectClass, EqualsItself}
use cat_db.Relation.{AllOf, meets}
use cat_db.Row.{Row, get_cell}

pub record IsTable {O : Type 0} (t : HashTable O) : Type 0 where
  pub width : length t.buckets ≡ t.bucket_num
  pub positive : 0 < t.bucket_num

pub new_table-IsTable : {O : Type 0} (num : ℕ) → IsTable (new_table {O = O} num)
unfolding new_table
new_table-IsTable {O} num = record {
  width = length-replicate {A = List (Row O)} _ [];
  positive = omega arith;
}

module _ {O : Type 0} ⦃class : ObjectClass O⦄ ⦃std : StdHash⦄ where
  -- A probe for `b` finds the stored row `a`: they meet in one bucket, and `equal` holds.
  pub matches : HashTable O → Row O → Row O → Bool
  matches t a b = slot t t.hash_cols a == slot t t.probe_cols b && equal_rows t.probe_cols a b

  abbrev pub any_matches : HashTable O → List (Row O) → Row O → Bool
  any_matches t = meets (matches t)

  unfoldable pub build_all : HashTable O → List (Row O) → HashTable O
  build_all t [] = t
  build_all t (r ∷ rs) = build_all (build t r) rs

  pub slot-lt :
      (t : HashTable O) (cols : List (Expression O)) (r : Row O)
      → IsTable t
      → slot t cols r < length t.buckets
  unfolding slot
  slot-lt t cols r w = rw w.width (let p = w.positive in omega arith)

  any_equal-append :
      (cols : List (Expression O)) (xs : List (Row O)) (a r : Row O)
      → any_equal cols (xs ++ a ∷ []) r ≡ any_equal cols xs r || equal_rows cols a r
  unfolding any_equal
  any_equal-append cols [] a r = ground arith
  any_equal-append cols (x ∷ xs) a r = ground (arith, any_equal-append cols xs a r)

  pub build-IsTable : (t : HashTable O) (r : Row O) → IsTable t → IsTable (build t r)
  unfolding build
  build-IsTable t r w = record { width = length-set t.buckets _ _ ∙ w.width; positive = w.positive }

  slot-build :
      (t : HashTable O) (a b : Row O) (cols : List (Expression O))
      → slot (build t a) cols b ≡ slot t cols b
  unfolding slot build
  slot-build t a b cols = refl

  pub matches-build : (t : HashTable O) (r a b : Row O) → matches (build t r) a b ≡ matches t a b
  unfolding matches build slot
  matches-build t r a b = refl

  any_matches-build :
      (t : HashTable O) (r : Row O) (rs : List (Row O)) (b : Row O)
      → any_matches (build t r) rs b ≡ any_matches t rs b
  unfolding meets
  any_matches-build t r [] b = refl
  any_matches-build t r (a ∷ rs) b = rw (matches-build t r a b, any_matches-build t r rs b)

  -- Building a row in adds exactly the probes that it matches.
  pub probe-build :
      (t : HashTable O) (a b : Row O)
      → IsTable t
      → probe (build t a) b ≡ (if matches t a b then success else probe t b)
  unfolding probe matches build
  probe-build t a b w =
      let h = slot t t.hash_cols a in
      let k = slot t t.probe_cols b in
      let old = get_or t.buckets h [] in
      let inside = slot-lt t t.hash_cols a w in
      elim (ℕ_discrete h k) [
        | yes e ↦
            rw
              (
                slot-build t a b t.probe_cols,
                ← e,
                get_or-set_self t.buckets h (old ++ a ∷ []) [] inside,
              )
              (ground (arith, any_equal-append t.probe_cols old a b))
        | no ne ↦
            rw (slot-build t a b t.probe_cols, get_or-set_ne t.buckets h k (old ++ a ∷ []) [] ne)
              (ground arith)
      ]

  -- A probe of a table with the rows `rs` built in succeeds exactly if one of them matches, or it
  -- did before.
  pub probe-build_all :
      (t : HashTable O) (rs : List (Row O)) (b : Row O)
      → IsTable t
      → probe (build_all t rs) b ≡ (if any_matches t rs b then success else probe t b)
  unfolding build_all meets
  probe-build_all t [] b w = refl
  probe-build_all t (r ∷ rs) b w =
      probe-build_all (build t r) rs b (build-IsTable t r w)
      ∙ ground (arith, probe-build t r b w, any_matches-build t r rs b)

  -- A new table has no row to find.
  pub probe-new_table : (num : ℕ) (b : Row O) → probe (new_table num) b ≡ row_not_found
  unfolding probe new_table any_equal
  probe-new_table num b = rw get_or-replicate

  equal_column_self :
      (x : O) → EqualsItself class x → (equal_column x x ≡ none) ⊎ (equal_column x x ≡ some true)
  unfolding equal_column
  equal_column_self x h = ground (arith, h)

  -- The cell that `equal` reads at a column.
  abbrev pub cell_of : Row O → ℕ → O
  cell_of r i = value_or class.nullptr (get_cell r i)

  equal_cells_self :
      (r : Row O) (i n : ℕ)
      → ((j : ℕ) → j < i + n → EqualsItself class (cell_of r j))
      → equal_cells r r i n ≡ true
  unfolding equal_cells
  equal_cells_self r i zero h = refl
  equal_cells_self r i (suc n) h = ground (
    arith,
    equal_column_self (cell_of r i) (h i (omega arith)),
    equal_cells_self r (i + 1) n (λ j lt. h j (omega (arith, lt))),
  )

  equal_exprs_self :
      (r : Row O) (es : List (Expression O))
      → AllOf (λ e. EqualsItself class (e (plain r))) es
      → equal_exprs es r r ≡ true
  unfolding equal_exprs
  equal_exprs_self r [] h = refl
  equal_exprs_self r (e ∷ es) h =
      ground (arith, equal_column_self (e (plain r)) h.0, equal_exprs_self r es h.1)

  -- The values by which the row is compared equal themselves: those of the columns that are given, or
  -- the cells of the row where none are.
  abbrev pub ValuesEqualThemselves : List (Expression O) → Row O → Type 0
  ValuesEqualThemselves [] r =
      (i : ℕ) → i < r.row_desc.column_count → EqualsItself class (cell_of r i)
  ValuesEqualThemselves (e ∷ es) r = AllOf (λ e. EqualsItself class (e (plain r))) (e ∷ es)

  equal_rows_self :
      (r : Row O) (es : List (Expression O)) → ValuesEqualThemselves es r → equal_rows es r r ≡ true
  unfolding equal_rows
  equal_rows_self r [] h =
      ground (arith, equal_cells_self r 0 r.row_desc.column_count (λ j lt. h j (omega (arith, lt))))
  equal_rows_self r (e ∷ es) h = equal_exprs_self r (e ∷ es) h

  -- A table hashed and probed by the same columns finds a row equal to itself.
  pub matches_self :
      (t : HashTable O) (r : Row O)
      → ValuesEqualThemselves t.probe_cols r
      → t.hash_cols ≡ t.probe_cols
      → matches t r r ≡ true
  unfolding matches
  matches_self t r h e = rw e (ground (arith, equal_rows_self r t.probe_cols h))

  pub all-matches_self :
      (t : HashTable O) (rows : List (Row O))
      → AllOf (ValuesEqualThemselves t.probe_cols) rows
      → t.hash_cols ≡ t.probe_cols
      → AllOf (λ r. matches t r r ≡ true) rows
  all-matches_self t [] h e = tt
  all-matches_self t (r ∷ rows) h e = (matches_self t r h.0 e, all-matches_self t rows h.1 e)
