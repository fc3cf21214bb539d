-- ===== src/Row.antt =====
-- common/row.h and common/row.cpp: Row and RowAgent.
pub mod Join
pub mod Column
use cat_db.Prelude.{
  ℕ, zero, suc, ◌+◌, Bool, List, [], ◌∷◌, ◌++◌, if◌then◌else◌, ltb, get_or, set, replicate,
}
use cat_db.Error.{Code, Result, ok, err, success, err_col_index, err_col_desc, value_or}
use cat_db.Object.{ObjectClass}
use cat_db.RowDesc.{
  ColumnDesc, RowDesc, make_column, make_desc, get_column_idx, get_column_desc, set_column_desc,
}

-- `alias_table_id` is not set by the constructor.
pub record Row (O : Type 0) : Type 0 where
  pub cells : List O
  pub row_desc : RowDesc
  pub row_id : ℕ
  pub alias_table_id : ℕ

-- `for (i = 0; i < n; ++i)` of the three joins: column `i` of `src` becomes column `off + i`.
unfoldable pub copy_descs : RowDesc → ℕ → ℕ → ℕ → RowDesc → RowDesc
copy_descs src off i zero dst = dst
copy_descs src off i (suc n) dst =
    copy_descs src off (i + 1) n
      (set_column_desc dst (off + i) (value_or make_column (get_column_desc src i)))

-- The description of a joined row.
unfoldable pub join_desc : RowDesc → RowDesc → RowDesc
unfolding copy_descs
join_desc l r =
    copy_descs r l.column_count 0 r.column_count
      (copy_descs l 0 0 l.column_count (make_desc (l.column_count + r.column_count)))

abbrev pub set_row_id : {O : Type 0} → Row O → ℕ → Row O
set_row_id r id = record r { row_id = id }

abbrev pub set_alias_table_id : {O : Type 0} → Row O → ℕ → Row O
set_alias_table_id r id = record r { alias_table_id = id }

abbrev pub set_row_desc : {O : Type 0} → Row O → RowDesc → Row O
set_row_desc r d = record r { row_desc = d }

-- `make_agent_row` and `add_row` of RowAgent, which is the list of its rows.
abbrev pub make_agent_row : {O : Type 0} → Row O → Row O → List (Row O)
make_agent_row r s = r ∷ s ∷ []

abbrev pub add_row : {O : Type 0} → List (Row O) → Row O → List (Row O)
add_row rs r = rs ++ r ∷ []

module _ {O : Type 0} ⦃class : ObjectClass O⦄ where
  abbrev pub make_row : RowDesc → Row O
  make_row d = record {
    cells = replicate d.column_count class.nullptr;
    row_desc = d;
    row_id = 0;
    alias_table_id = 0;
  }

  -- `get_cell(u32 idx, Object_s& cell)`
  abbrev pub get_cell : Row O → ℕ → Result O
  get_cell r i =
      if ltb i r.row_desc.column_count
      then ok (get_or r.cells i class.nullptr)
      else err err_col_index

  -- `get_cell(const ColumnDesc& c_desc, Object_s& cell)`
  unfoldable pub get_column : Row O → ColumnDesc → Result O
  get_column r c = elim (get_column_idx r.row_desc c) [
    | ok i ↦ ok (get_or r.cells i class.nullptr)
    | err e ↦ err e
  ]

  abbrev pub set_cell : Row O → ℕ → O → Code × Row O
  set_cell r i x =
      if ltb i r.row_desc.column_count
      then (success, record r { cells = set r.cells i x })
      else (err_col_index, r)

  -- A null pointer is not stored, and the code that comes back is that of the lookup.
  unfoldable pub set_column : Row O → ColumnDesc → O → Code × Row O
  set_column r c x = elim (get_column_idx r.row_desc c) [
    | err e ↦ (e, r)
    | ok i ↦
        if class.is_nullptr x then (success, r) else (success, record r { cells = set r.cells i x })
  ]

  unfoldable pub copy_cells : Row O → ℕ → ℕ → ℕ → Row O → Row O
  copy_cells src off i zero dst = dst
  copy_cells src off i (suc n) dst =
      copy_cells src off (i + 1) n
        (set_cell dst (off + i) (value_or class.nullptr (get_cell src i))).1

  unfoldable pub null_cells : ℕ → ℕ → ℕ → Row O → Row O
  null_cells off i zero dst = dst
  null_cells off i (suc n) dst =
      null_cells off (i + 1) n (set_cell dst (off + i) class.make_null_object).1

  unfoldable pub join_row : Row O → Row O → Row O
  join_row l r =
      let nl = l.row_desc.column_count in
      copy_cells r nl 0 r.row_desc.column_count
        (copy_cells l 0 0 nl (make_row (join_desc l.row_desc r.row_desc)))

  unfoldable pub left_outer_join_row : Row O → RowDesc → Row O
  left_outer_join_row l rd =
      let nl = l.row_desc.column_count in
      null_cells nl 0 rd.column_count (copy_cells l 0 0 nl (make_row (join_desc l.row_desc rd)))

  unfoldable pub right_outer_join_row : RowDesc → Row O → Row O
  right_outer_join_row ld r =
      let nl = ld.column_count in
      copy_cells r nl 0 r.row_desc.column_count
        (null_cells 0 0 nl (make_row (join_desc ld r.row_desc)))

  -- RowAgent: the first row that has the column answers.
  unfoldable pub agent_column : List (Row O) → ColumnDesc → Result O
  agent_column [] c = err err_col_desc
  agent_column (r ∷ rs) c = elim (get_column r c) [ ok x ↦ ok x | err e ↦ agent_column rs c ]
