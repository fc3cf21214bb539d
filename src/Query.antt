-- ===== src/Query.antt =====
-- sql/query.cpp: Query, which computes the columns of a SELECT for each row of its child.
use cat_db.Prelude.{
  ℕ, zero, suc, ◌+◌, ◌≡◌, refl, ap, ◌∙◌, sym, true, List, [], ◌∷◌, ◌++◌, length, replicate,
  length-replicate, length-append, set, set-append_length, lt→ltb, ltb, arith,
}
use mathlib.Core.List.{append_assoc}
use cat_db.Error.{Code, no_more_rows}
use cat_db.Expr.{Expression, plain}
use cat_db.Object.{ObjectClass}
use cat_db.Operator.{
  PhyOperator, Fetch, fetched, failed, running, Delivers, Ended, Ended-intro, Ended-next,
}
use cat_db.Row.{Row, make_row, set_cell}
use cat_db.RowDesc.{ColumnDesc, RowDesc, make_column, make_desc, set_column_desc, set_tid_cid}

-- The first loop of `make_row`, from column `i` on: the columns are those of the alias table.
unfoldable pub set_columns : ℕ → ℕ → ℕ → RowDesc → RowDesc
set_columns alias_table_id i zero d = d
set_columns alias_table_id i (suc n) d =
    set_columns alias_table_id (i + 1) n
      (set_column_desc d i (set_tid_cid make_column alias_table_id i))

module _ {O : Type 0} ⦃class : ObjectClass O⦄ where
  -- The second loop, over the list of expressions.
  unfoldable pub set_cells : Row O → List (Expression O) → ℕ → Row O → Row O
  set_cells row [] i new_row = new_row
  set_cells row (e ∷ es) i new_row = set_cells row es (i + 1) (set_cell new_row i (e (plain row))).1

  unfoldable pub query_row : ℕ → List (Expression O) → Row O → Row O
  unfolding set_columns set_cells
  query_row alias_table_id query_list row =
      let n = length query_list in
      set_cells row query_list 0 (make_row (set_columns alias_table_id 0 n (make_desc n)))

  -- The specification: the values of the expressions, as columns 0, 1, … of the alias table.
  abbrev pub values : List (Expression O) → Row O → List O
  values [] row = []
  values (e ∷ es) row = e (plain row) ∷ values es row

abbrev pub numbered : ℕ → ℕ → ℕ → List ColumnDesc
numbered tid i zero = []
numbered tid i (suc n) = set_tid_cid make_column tid i ∷ numbered tid (i + 1) n

set_columns-numbered :
    (tid n i : ℕ) (d : RowDesc) (pre rest : List ColumnDesc)
    → d.column_desc ≡ pre ++ rest
    → i ≡ length pre
    → length rest ≡ n
    → set_columns tid i n d ≡ record d { column_desc = pre ++ numbered tid i n }
unfolding set_columns
set_columns-numbered tid zero i d pre [] e ei en = ap (λ l. record d { column_desc = l }) e
set_columns-numbered tid zero i d pre (x ∷ rest) e ei en = absurd (omega (arith, en))
set_columns-numbered tid (suc n) i d pre [] e ei en = absurd (omega (arith, en))
set_columns-numbered tid (suc n) i d pre (x ∷ rest) e ei en =
    let c = set_tid_cid make_column tid i in
    let here : set d.column_desc i c ≡ (pre ++ c ∷ []) ++ rest =
      ap (λ l. set l i c) e
      ∙ ap (λ k. set (pre ++ x ∷ rest) k c) ei
      ∙ set-append_length pre rest x c
      ∙ sym (append_assoc pre (c ∷ []) rest) in
    set_columns-numbered tid n (i + 1) (set_column_desc d i c) (pre ++ c ∷ []) rest here
      (omega (arith, ei, length-append pre (c ∷ []))) (omega (arith, en))
    ∙ ap (λ l. record d { column_desc = l }) (append_assoc pre (c ∷ []) (numbered tid (i + 1) n))

module _ {O : Type 0} ⦃class : ObjectClass O⦄ where
  set_cells-values :
      (row : Row O) (es : List (Expression O)) (i : ℕ) (r : Row O) (pre rest : List O)
      → r.cells ≡ pre ++ rest
      → i ≡ length pre
      → length rest ≡ length es
      → i + length es ≡ r.row_desc.column_count
      → set_cells row es i r ≡ record r { cells = pre ++ values es row }
  unfolding set_cells
  set_cells-values row [] i r pre [] e ei en ec = ap (λ l. record r { cells = l }) e
  set_cells-values row [] i r pre (x ∷ rest) e ei en ec = absurd (omega (arith, en))
  set_cells-values row (f ∷ es) i r pre [] e ei en ec = absurd (omega (arith, en))
  set_cells-values row (f ∷ es) i r pre (x ∷ rest) e ei en ec =
      let v = f (plain row) in
      let inside : ltb i r.row_desc.column_count ≡ true =
        lt→ltb i r.row_desc.column_count (omega (arith, ec)) in
      let here : set r.cells i v ≡ (pre ++ v ∷ []) ++ rest =
        ap (λ l. set l i v) e
        ∙ ap (λ k. set (pre ++ x ∷ rest) k v) ei
        ∙ set-append_length pre rest x v
        ∙ sym (append_assoc pre (v ∷ []) rest) in
      let placed : (set_cell r i v).1 ≡ record r { cells = set r.cells i v } = simp inside in
      ap (set_cells row es (i + 1)) placed
      ∙ set_cells-values row es (i + 1) (record r { cells = set r.cells i v }) (pre ++ v ∷ []) rest
          here (omega (arith, ei, length-append pre (v ∷ []))) (omega (arith, en))
          (omega (arith, ec))
      ∙ ap (λ l. record r { cells = l }) (append_assoc pre (v ∷ []) (values es row))

  -- The row that the specification asks for.
  abbrev pub selected : ℕ → List (Expression O) → Row O → Row O
  selected tid es row = record {
    cells = values es row;
    row_desc = record { column_desc = numbered tid 0 (length es); column_count = length es };
    row_id = 0;
    alias_table_id = 0;
  }

  query_row-selected :
      (tid : ℕ) (es : List (Expression O)) (row : Row O)
      → query_row tid es row ≡ selected tid es row
  unfolding query_row
  query_row-selected tid es row =
      let n = length es in
      ap (λ d. set_cells row es 0 (make_row d))
        (set_columns-numbered tid n 0 (make_desc n) [] (replicate n make_column) refl refl
          (length-replicate n make_column))
      ∙ set_cells-values row es 0
          (make_row (record { column_desc = numbered tid 0 n; column_count = n })) []
          (replicate n class.nullptr) refl refl (length-replicate n class.nullptr) (omega arith)

  abbrev pub selected_rows : ℕ → List (Expression O) → List (Row O) → List (Row O)
  selected_rows tid es [] = []
  selected_rows tid es (r ∷ rows) = selected tid es r ∷ selected_rows tid es rows

module _ {O : Type 0} ⦃class : ObjectClass O⦄ (query_list : List (Expression O))
    (alias_table_id : ℕ) (child : PhyOperator O) where
  -- Another code of the child than `SUCCESS` becomes `NO_MORE_ROWS`.
  abbrev pub made : Fetch child.State (Row O) → Fetch child.State (Row O)
  made (fetched row s) = fetched (query_row alias_table_id query_list row) s
  made (failed c s) = failed no_more_rows s
  made (running s) = running s

  unfoldable pub get_next_row : child.State → Fetch child.State (Row O)
  get_next_row s = made (child.get_next_row s)

  -- The other operations are those of the child.
  abbrev pub query : PhyOperator O
  query = record child { get_next_row = get_next_row }

  -- Query delivers for each row of its child the values of the expressions, as columns 0, 1, … of its
  -- own table.
  pub query-Delivers :
      (rows : List (Row O)) (s : child.State) (c : Code)
      → Delivers child.get_next_row c rows s
      → Delivers query.get_next_row no_more_rows (selected_rows alias_table_id query_list rows) s
  unfolding get_next_row
  query-Delivers [] s c d = λ n.
      Ended-intro get_next_row (Ended child.get_next_row c) no_more_rows
        (λ s e. let (s', h, e') = Ended-next child.get_next_row c s e in (s', ap made h, e')) n s d
  query-Delivers (r ∷ rows) s c (s', h, d) = (
    s',
    ap made h ∙ ap (λ x. fetched x s') (query_row-selected alias_table_id query_list r),
    query-Delivers rows s' c d,
  )
