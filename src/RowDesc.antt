-- ===== src/RowDesc.antt =====
-- common/row.h and common/row.cpp: ColumnDesc and RowDesc.
use cat_db.Prelude.{
  ℕ, zero, suc, ◌+◌, Bool, ◌&&◌, List, [], ◌∷◌, ◌++◌, ◌==◌, ltb, if◌then◌else◌, get_or, set,
  replicate,
}
use cat_db.Error.{Result, ok, err, err_col_desc}

-- The constructor leaves `data_type` indeterminate; no function here reads it.
pub record ColumnDesc : Type 0 where
  pub table_id : ℕ
  pub column_id : ℕ
  pub data_type : ℕ

abbrev pub make_column : ColumnDesc
make_column = record { table_id = 0; column_id = 0; data_type = 0 }

abbrev pub set_tid : ColumnDesc → ℕ → ColumnDesc
set_tid c tid = record c { table_id = tid }

abbrev pub set_cid : ColumnDesc → ℕ → ColumnDesc
set_cid c cid = record c { column_id = cid }

abbrev pub set_data_type : ColumnDesc → ℕ → ColumnDesc
set_data_type c type = record c { data_type = type }

abbrev pub set_tid_cid : ColumnDesc → ℕ → ℕ → ColumnDesc
set_tid_cid c tid cid = record c { table_id = tid; column_id = cid }

-- `operator==`
abbrev pub same_column : ColumnDesc → ColumnDesc → Bool
same_column a b = a.table_id == b.table_id && a.column_id == b.column_id

pub record RowDesc : Type 0 where
  pub column_desc : List ColumnDesc
  pub column_count : ℕ

abbrev pub make_desc : ℕ → RowDesc
make_desc n = record { column_desc = replicate n make_column; column_count = n }

-- The loop of `get_column_idx`, with `n` rounds left.
unfoldable pub find_from : ColumnDesc → List ColumnDesc → ℕ → ℕ → Result ℕ
find_from c cs i zero = err err_col_desc
find_from c cs i (suc n) =
    if same_column c (get_or cs i make_column) then ok i else find_from c cs (i + 1) n

abbrev pub get_column_idx : RowDesc → ColumnDesc → Result ℕ
get_column_idx d c = find_from c d.column_desc 0 d.column_count

abbrev pub get_column_desc : RowDesc → ℕ → Result ColumnDesc
get_column_desc d i =
    if ltb i d.column_count then ok (get_or d.column_desc i make_column) else err err_col_desc

-- `column_desc[idx] = c_desc`: an index beyond the vector is undefined, and is ignored here.
abbrev pub set_column_desc : RowDesc → ℕ → ColumnDesc → RowDesc
set_column_desc d i c = record d { column_desc = set d.column_desc i c }

abbrev pub add_column_desc : RowDesc → ColumnDesc → RowDesc
add_column_desc d c = record {
  column_desc = d.column_desc ++ c ∷ [];
  column_count = d.column_count + 1;
}
