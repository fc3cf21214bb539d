-- ===== src/HashTable.antt =====
-- common/hash_table.h and common/hash_table.cpp: buckets of rows, hashed and compared by expressions.
-- Iterators over the buckets are indices, and `end()` is the number of buckets.
pub mod Probe
pub mod Dedup
pub mod Stored
use cat_db.Prelude.{
  ℕ, zero, suc, ◌+◌, ◌-◌, ◌%◌, ◌^◌, Bool, true, false, ◌&&◌, ◌||◌, List, [], ◌∷◌, ◌++◌, Option,
  none, some, if◌then◌else◌, ltb, ◌==◌, length, get_or, set, replicate,
}
use cat_db.Error.{Code, success, row_not_found, end_of_buckets, err_bucket_idx, value_or}
use cat_db.Expr.{Expression, View, plain, agent, get_result}
use cat_db.Object.{ObjectClass}
use cat_db.Row.{Row, get_cell}

-- `std::hash<u32>`, which the standard leaves to the implementation.
pub record StdHash : Type 0 where
  pub hash_u32 : ℕ → ℕ

abbrev prime_list : List ℕ
prime_list =
    53 ∷ 97 ∷ 193 ∷ 389 ∷ 769 ∷ 1543 ∷ 3079 ∷ 6151 ∷ 12289 ∷ 24593 ∷ 49157 ∷ 98317 ∷ 196613 ∷ 393241
    ∷ 786433 ∷ 1572869 ∷ 3145739 ∷ 6291469 ∷ 12582917 ∷ 25165843 ∷ 50331653 ∷ 100663319 ∷ 201326611
    ∷ 402653189 ∷ []

-- `*std::lower_bound(first, last, n)`, or the last element where there is none.
lower_bound_or : ℕ → ℕ → List ℕ → ℕ
lower_bound_or last n [] = last
lower_bound_or last n (p ∷ ps) = if ltb p n then lower_bound_or last n ps else p

cal_next_prime : ℕ → ℕ
unfolding lower_bound_or
cal_next_prime n = if ltb 0 n then lower_bound_or 402653189 n prime_list else n

pub record HashTable (O : Type 0) : Type 0 where
  pub buckets : List (List (Row O))
  pub hash_cols : List (Expression O)
  pub probe_cols : List (Expression O)
  pub probe_condition : Option (Expression O)
  pub bucket_num : ℕ
  pub is_empty : Bool

-- The constructor overwrites its argument with 50000.
unfoldable pub new_table : {O : Type 0} → ℕ → HashTable O
unfolding cal_next_prime
new_table num = record {
  buckets = replicate (cal_next_prime 50000) [];
  hash_cols = [];
  probe_cols = [];
  probe_condition = none;
  bucket_num = cal_next_prime 50000;
  is_empty = true;
}

-- The body of `clear` is commented out.
abbrev pub clear : {O : Type 0} → HashTable O → HashTable O
clear t = t

module _ {O : Type 0} where
  abbrev pub add_hash_column : HashTable O → Expression O → HashTable O
  add_hash_column t e = record t { hash_cols = t.hash_cols ++ e ∷ [] }

  abbrev pub clear_hash_columns : HashTable O → HashTable O
  clear_hash_columns t = record t { hash_cols = [] }

  abbrev pub add_probe_column : HashTable O → Expression O → HashTable O
  add_probe_column t e = record t { probe_cols = t.probe_cols ++ e ∷ [] }

  abbrev pub clear_probe_columns : HashTable O → HashTable O
  clear_probe_columns t = record t { probe_cols = [] }

  abbrev pub set_probe_condition : HashTable O → Option (Expression O) → HashTable O
  set_probe_condition t e = record t { probe_condition = e }

module _ ⦃std : StdHash⦄ where
  -- `value = hash(value + obj->hash())` on 32-bit values.
  mix : ℕ → ℕ → ℕ
  mix value h = std.hash_u32 ((value + h) % 2 ^ 32) % 2 ^ 32

module _ {O : Type 0} ⦃class : ObjectClass O⦄ ⦃std : StdHash⦄ where
  hash_cells : Row O → ℕ → ℕ → ℕ → ℕ
  unfolding mix
  hash_cells r i zero value = value
  hash_cells r i (suc n) value =
      hash_cells r (i + 1) n (mix value (class.hash (value_or class.nullptr (get_cell r i))))

  hash_exprs : List (Expression O) → Row O → ℕ → ℕ
  unfolding mix
  hash_exprs [] r value = value
  hash_exprs (e ∷ es) r value =
      let x = e (plain r) in
      hash_exprs es r (if class.is_error x then value else mix value (class.hash x))

  hash_value : List (Expression O) → Row O → ℕ
  unfolding hash_cells hash_exprs
  hash_value [] r = hash_cells r 0 r.row_desc.column_count 0
  hash_value (e ∷ es) r = hash_exprs (e ∷ es) r 0

  -- `hash(cols, row)`
  pub slot : HashTable O → List (Expression O) → Row O → ℕ
  unfolding hash_value
  slot t cols r = hash_value cols r % t.bucket_num

  -- One column of `equal`: `none` goes on with the next, `some b` returns `b`.
  equal_column : O → O → Option Bool
  equal_column a b =
      if class.is_null a && class.is_null b
      then some true
      else if class.bool_value (class.equal a b)
      then none
      else some false

  equal_cells : Row O → Row O → ℕ → ℕ → Bool
  unfolding equal_column
  equal_cells l r i zero = true
  equal_cells l r i (suc n) =
      let a = value_or class.nullptr (get_cell l i) in
      let b = value_or class.nullptr (get_cell r i) in
      elim (equal_column a b) [ some x ↦ x | none ↦ equal_cells l r (i + 1) n ]

  equal_exprs : List (Expression O) → Row O → Row O → Bool
  unfolding equal_column
  equal_exprs [] l r = true
  equal_exprs (e ∷ es) l r = elim (equal_column (e (plain l)) (e (plain r))) [
    | some x ↦ x
    | none ↦ equal_exprs es l r
  ]

  -- `equal(lhs, rhs)` for given `probe_cols`.
  pub equal_rows : List (Expression O) → Row O → Row O → Bool
  unfolding equal_cells equal_exprs
  equal_rows [] l r =
      if l.row_desc.column_count == r.row_desc.column_count
      then equal_cells l r 0 l.row_desc.column_count
      else false
  equal_rows (e ∷ es) l r = equal_exprs (e ∷ es) l r

  unfoldable pub build : HashTable O → Row O → HashTable O
  build t r =
      let h = slot t t.hash_cols r in
      record t { buckets = set t.buckets h (get_or t.buckets h [] ++ r ∷ []); is_empty = false }

  -- The loop of `probe`.
  pub any_equal : List (Expression O) → List (Row O) → Row O → Bool
  any_equal cols [] r = false
  any_equal cols (x ∷ xs) r = equal_rows cols x r || any_equal cols xs r

  unfoldable pub probe : HashTable O → Row O → Code
  probe t r =
      if any_equal t.probe_cols (get_or t.buckets (slot t t.probe_cols r) []) r
      then success
      else row_not_found

  -- `probe_condition` on the probing row and a stored one; an error counts as false.
  unfoldable pub probe_holds : HashTable O → Row O → Row O → Bool
  probe_holds t r x =
      let result = get_result t.probe_condition (agent (r ∷ x ∷ [])) in
      if class.is_error result then false else class.bool_value result

  pub matching : HashTable O → Row O → List (Row O) → List (Row O)
  matching t r [] = []
  matching t r (x ∷ xs) = let rest = matching t r xs in if probe_holds t r x then x ∷ rest else rest

  pub not_matching : HashTable O → Row O → List (Row O) → List (Row O)
  not_matching t r [] = []
  not_matching t r (x ∷ xs) =
      let rest = not_matching t r xs in if probe_holds t r x then rest else x ∷ rest

  -- `probe(row, out_rows)` with the queue before the call; the code tells whether it ends up empty.
  unfoldable pub probe_out : HashTable O → Row O → List (Row O) → Code × List (Row O)
  probe_out t r out =
      let out' = out ++ matching t r (get_or t.buckets (slot t t.probe_cols r) []) in
      (elim out' [ [] ↦ row_not_found | x ∷ xs ↦ success ], out')

  unfoldable pub probe_and_drop : HashTable O → Row O → Code × HashTable O
  probe_and_drop t r =
      let h = slot t t.probe_cols r in
      let bucket = get_or t.buckets h [] in
      (
        elim (matching t r bucket) [ [] ↦ row_not_found | x ∷ xs ↦ success ],
        record t { buckets = set t.buckets h (not_matching t r bucket) },
      )

module _ {O : Type 0} ⦃class : ObjectClass O⦄ where
  -- `less(lhs, rhs)` for given `hash_cols`.
  less : List (Expression O) → Row O → Row O → Bool
  less [] l r = false
  less (e ∷ es) l r =
      let a = e (plain l) in
      let b = e (plain r) in
      let rest = less es l r in
      if class.is_null a && class.is_null b
      then rest
      else if class.is_null a
      then true
      else if class.is_null b
      then false
      else if class.bool_value (class.equal a b)
      then rest
      else if class.bool_value (class.greater a b)
      then false
      else true

module _ {O : Type 0} where
  -- `begin_bucket`: its loop from bucket `i`, with `n` buckets from there to the end.
  unfoldable pub skip_empty : List (List (Row O)) → ℕ → ℕ → ℕ
  skip_empty bs i zero = i
  skip_empty bs i (suc n) = elim (get_or bs i []) [ [] ↦ skip_empty bs (i + 1) n | x ∷ xs ↦ i ]

  abbrev pub begin_bucket : HashTable O → ℕ
  begin_bucket t = skip_empty t.buckets 0 (length t.buckets)

  abbrev pub end_bucket : HashTable O → ℕ
  end_bucket t = length t.buckets

  -- The loop of `next_none_empty_bucket`: the iterator moves first.
  unfoldable pub next_from : List (List (Row O)) → ℕ → ℕ → Code × ℕ
  next_from bs i zero = (end_of_buckets, i)
  next_from bs i (suc n) = elim (get_or bs (i + 1) []) [
    | [] ↦ next_from bs (i + 1) n
    | x ∷ xs ↦ (success, i + 1)
  ]

  abbrev pub next_none_empty_bucket : HashTable O → ℕ → Code × ℕ
  next_none_empty_bucket t i = next_from t.buckets i (length t.buckets - i)

  abbrev pub bucket : HashTable O → ℕ → List (Row O)
  bucket t i = get_or t.buckets i []

  abbrev pub bucket_empty : HashTable O → ℕ → Bool
  bucket_empty t i =
      if i == length t.buckets then true else elim (bucket t i) [ [] ↦ true | x ∷ xs ↦ false ]

-- `sort_bucket`, over the `std::sort` of the standard library.
module _ {O : Type 0} ⦃class : ObjectClass O⦄
    (std_sort : (Row O → Row O → Bool) → List (Row O) → List (Row O)) where
  pub sort_bucket : HashTable O → ℕ → Code × HashTable O
  unfolding less
  sort_bucket t i = if i == length t.buckets then (err_bucket_idx, t) else (
    success,
    record t { buckets = set t.buckets i (std_sort (less t.hash_cols) (bucket t i)) },
  )
