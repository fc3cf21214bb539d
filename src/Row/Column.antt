-- ===== src/Row/Column.antt =====
-- Lookups by column: `get_cell(const ColumnDesc&)` of Row and of RowAgent in common/row.cpp.
use cat_db.Prelude.{
  ℕ, zero, suc, ◌+◌, ◌≡◌, refl, sym, ◌∙◌, List, [], ◌∷◌, ◌++◌, arith, length, get_or, if◌then◌else◌,
  Bool-cases, inl, inr, ◌⊎◌, get_or-append_length, length-append,
}
use mathlib.Core.List.{append_assoc}
use cat_db.Error.{Result, ok, err, err_col_desc}
use cat_db.Object.{ObjectClass}
use cat_db.RowDesc.{ColumnDesc, make_column, same_column, find_from}
use cat_db.Row.{Row, get_column, agent_column, join_row}
use cat_db.Row.Join.{IsRow, join_row-append}

-- The specification: the cell under the first column that is `c`.
pub look : {O : Type 0} → ColumnDesc → List ColumnDesc → List O → Result O
look c [] os = err err_col_desc
look c (d ∷ ds) [] = err err_col_desc
look c (d ∷ ds) (o ∷ os) = if same_column c d then ok o else look c ds os

module _ {O : Type 0} where
  look_cases :
      (c : ColumnDesc) (ds : List ColumnDesc) (os : List O)
      → ((x : O) × (look c ds os ≡ ok x)) ⊎ (look c ds os ≡ err err_col_desc)
  unfolding look
  look_cases c [] os = inr refl
  look_cases c (d ∷ ds) [] = inr refl
  look_cases c (d ∷ ds) (o ∷ os) = ground (arith, look_cases c ds os)

  -- Either answers, the first for preference.
  abbrev pub first_ok : Result O → Result O → Result O
  first_ok (ok x) s = ok x
  first_ok (err e) s = s

  pub look-append :
      (c : ColumnDesc) (ds es : List ColumnDesc) (os ps : List O)
      → length ds ≡ length os
      → look c (ds ++ es) (os ++ ps) ≡ first_ok (look c ds os) (look c es ps)
  unfolding look
  look-append c [] es [] ps h = refl
  look-append c [] es (o ∷ os) ps h = absurd (omega arith)
  look-append c (d ∷ ds) es [] ps h = absurd (omega arith)
  look-append c (d ∷ ds) es (o ∷ os) ps h = elim (Bool-cases (same_column c d)) [
    | inl e ↦ rw e refl
    | inr e ↦ rw e (look-append c ds es os ps (omega arith))
  ]

module _ {O : Type 0} ⦃class : ObjectClass O⦄ where
  -- The cell at a position that may be missing.
  abbrev cell_at : List O → Result ℕ → Result O
  cell_at os (ok i) = ok (get_or os i class.nullptr)
  cell_at os (err e) = err e

  find_from-look :
      (c : ColumnDesc) (cs : List ColumnDesc) (os : List O) (ds es : List ColumnDesc)
      (ps qs : List O) (i n : ℕ)
      → cs ≡ ds ++ es
      → os ≡ ps ++ qs
      → i ≡ length ds
      → i ≡ length ps
      → n ≡ length es
      → n ≡ length qs
      → cell_at os (find_from c cs i n) ≡ look c es qs
  unfolding find_from look
  find_from-look c cs os ds [] ps qs i zero ec eo ei ej en em = refl
  find_from-look c cs os ds [] ps qs i (suc n) ec eo ei ej en em = absurd (omega arith)
  find_from-look c cs os ds (e ∷ es) ps qs i zero ec eo ei ej en em = absurd (omega arith)
  find_from-look c cs os ds (e ∷ es) ps [] i (suc n) ec eo ei ej en em = absurd (omega arith)
  find_from-look c cs os ds (e ∷ es) ps (q ∷ qs) i (suc n) ec eo ei ej en em =
      let col : get_or cs i make_column ≡ e =
        rw (ec, ei) (get_or-append_length ds es e make_column) in
      let cell : get_or os i class.nullptr ≡ q =
        rw (eo, ej) (get_or-append_length ps qs q class.nullptr) in
      let ih =
        find_from-look c cs os (ds ++ e ∷ []) es (ps ++ q ∷ []) qs (i + 1) n
          (ec ∙ sym (append_assoc ds (e ∷ []) es)) (eo ∙ sym (append_assoc ps (q ∷ []) qs))
          (rw length-append (omega arith)) (rw length-append (omega arith)) (omega arith)
          (omega arith) in
      elim (Bool-cases (same_column c e)) [
        | inl y ↦ rw (col, y, cell) refl
        | inr y ↦ rw (col, y) ih
      ]

  -- On a well-formed row, `get_cell` by column reads the cell under the first such column.
  pub get_column-look :
      (r : Row O) (c : ColumnDesc)
      → IsRow r
      → get_column r c ≡ look c r.row_desc.column_desc r.cells
  unfolding get_column
  get_column-look r c w =
      let h =
        find_from-look c r.row_desc.column_desc r.cells [] r.row_desc.column_desc [] r.cells 0
          r.row_desc.column_count refl refl (omega arith) (omega arith) (sym w.desc.desc_length)
          (sym w.cells_length) in
      ground (arith, h)

  join_row-IsRow : (l r : Row O) → IsRow l → IsRow r → IsRow (join_row l r)
  join_row-IsRow l r wl wr = rw (join_row-append l r wl wr) (record {
    desc = record { desc_length = rw length-append (omega arith) };
    cells_length = rw length-append (omega arith);
  })

  -- An agent row over two rows reads like the row that joins them.
  pub agent_column-join :
      (l r : Row O) (c : ColumnDesc)
      → IsRow l
      → IsRow r
      → agent_column (l ∷ r ∷ []) c ≡ get_column (join_row l r) c
  unfolding agent_column
  agent_column-join l r c wl wr =
      let ds = l.row_desc.column_desc in
      let same : length ds ≡ length l.cells = omega arith in
      rw
        (
          get_column-look (join_row l r) c (join_row-IsRow l r wl wr),
          join_row-append l r wl wr,
          look-append c ds r.row_desc.column_desc l.cells r.cells same,
        )
        (ground (
          arith,
          get_column-look l c wl,
          get_column-look r c wr,
          look_cases c r.row_desc.column_desc r.cells,
        ))
