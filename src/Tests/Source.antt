-- ===== src/Tests/Source.antt =====
-- A concrete kind of object and a scripted child, at which the theorems are applied.
use cat_db.Prelude.{
  ℕ, suc, zero, ◌+◌, ◌≡◌, refl, Bool, true, false, List, [], ◌∷◌, some, ◌==◌, arith, ltb,
}
use cat_db.Error.{success, no_more_rows}
use cat_db.HashTable.{StdHash, new_table}
use cat_db.HashTable.Dedup.{IsFresh}
use cat_db.HashTable.Probe.{new_table-IsTable, probe-new_table}
use cat_db.Object.{ObjectClass, EqualsItself}
use cat_db.Operator.{PhyOperator, Fetch, fetched, failed, Delivers, Ended-intro}
use cat_db.Row.{Row}
use cat_db.RowDesc.{ColumnDesc}

-- A null pointer, a null, a Boolean or a number.
pub data Cell : Type 0 where
  missing null : Cell
  truth : Bool → Cell
  num : ℕ → Cell

abbrev pub cell_equal : Cell → Cell → Cell
cell_equal (num a) (num b) = truth (a == b)
cell_equal (truth true) (truth b) = truth b
cell_equal (truth false) (truth true) = truth false
cell_equal (truth false) (truth false) = truth true
cell_equal missing missing = truth true
cell_equal _ _ = null

abbrev cell_greater : Cell → Cell → Cell
cell_greater (num a) (num b) = truth (ltb b a)
cell_greater _ _ = null

abbrev cell_bool : Cell → Bool
cell_bool (truth b) = b
cell_bool (num zero) = false
cell_bool (num (suc n)) = true
cell_bool _ = false

abbrev cell_hash : Cell → ℕ
cell_hash (num n) = n
cell_hash _ = 0

abbrev pub is_null_cell : Cell → Bool
is_null_cell null = true
is_null_cell _ = false

abbrev is_missing : Cell → Bool
is_missing missing = true
is_missing _ = false

instance abbrev pub cell_class : ObjectClass Cell
cell_class = record {
  nullptr = missing;
  is_nullptr = is_missing;
  make_null_object = null;
  is_error = λ x. false;
  is_null = is_null_cell;
  bool_value = cell_bool;
  hash = cell_hash;
  equal = cell_equal;
  greater = cell_greater;
}

instance abbrev pub identity_hash : StdHash
identity_hash = record { hash_u32 = λ n. n }

pub cell-EqualsItself : (x : Cell) → EqualsItself cell_class x
cell-EqualsItself missing h = refl
cell-EqualsItself null h = cc
cell-EqualsItself (truth true) h = refl
cell-EqualsItself (truth false) h = refl
cell-EqualsItself (num n) h = ground arith

-- A row of one table with the columns 0, 1, …
abbrev columns : ℕ → ℕ → List Cell → List ColumnDesc
columns t i [] = []
columns t i (x ∷ xs) = record { table_id = t; column_id = i; data_type = 0 } ∷ columns t (i + 1) xs

abbrev count : List Cell → ℕ
count [] = 0
count (x ∷ xs) = suc (count xs)

abbrev pub row : ℕ → List Cell → Row Cell
row t xs = record {
  cells = xs;
  row_desc = record { column_desc = columns t 0 xs; column_count = count xs };
  row_id = 0;
  alias_table_id = t;
}

-- A child whose state is the list of the rows that it still has.
abbrev source_next : List (Row Cell) → Fetch (List (Row Cell)) (Row Cell)
source_next [] = failed no_more_rows []
source_next (r ∷ rows) = fetched r rows

abbrev pub source : PhyOperator Cell
source = record {
  State = List (Row Cell);
  open_op = λ s. some (success, s);
  close = λ s. (success, s);
  reset = λ s. (success, s);
  reopen = λ r s. some (success, s);
  get_next_row = source_next;
}

pub source-Delivers : (rows : List (Row Cell)) → Delivers source_next no_more_rows rows rows
source-Delivers [] =
    λ n. Ended-intro source_next (λ s. s ≡ []) no_more_rows (λ s e. ([], rw e refl, refl)) n [] refl
source-Delivers (r ∷ rows) = (rows, refl, source-Delivers rows)

pub new_table-IsFresh : (n : ℕ) → IsFresh (new_table {O = Cell} n)
new_table-IsFresh n = record { table = new_table-IsTable n; finds_nothing = probe-new_table n }
