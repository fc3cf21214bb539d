-- ===== src/ScalarGroup.antt =====
-- sql/scalar_group.cpp: ScalarGroup, the aggregates over all rows of a child, in one row.
-- `reset_expr` is `Expression::reset`, as for a filter.
pub mod Rows
use cat_db.Prelude.{
  ℕ, zero, suc, ◌+◌, Bool, true, false, List, [], ◌∷◌, Option, none, some, if◌then◌else◌, length,
}
use cat_db.Aggregate.{AggregateExpression, NumberClass, add_row, get_result}
use cat_db.Aggregate as Aggregate
use cat_db.Error.{Code, success, no_more_rows, is_success}
use cat_db.Expr.{Expression, plain, passes}
use cat_db.Object.{ObjectClass}
use cat_db.Operator.{PhyOperator, Fetch, fetched, failed, ◌>>=◌}
use cat_db.Operator.Drain.{drain}
use cat_db.Row.{Row, make_row, set_cell, set_row_desc}
use cat_db.RowDesc.{make_column, make_desc, set_column_desc, set_tid_cid}

-- `filter` and `result` may be null.
pub record ScalarGroup (O : Type 0) : Type 0 where
  pub agg_funcs : List (AggregateExpression O)
  pub result : Option (Row O)
  pub filter : Option (Expression O)

abbrev pub reset_agg_func :
    {O : Type 0} → List (AggregateExpression O) → List (AggregateExpression O)
reset_agg_func [] = []
reset_agg_func (a ∷ aggs) = Aggregate.reset a ∷ reset_agg_func aggs

module _ {O : Type 0} ⦃class : ObjectClass O⦄ ⦃number : NumberClass O⦄ where
  -- The loop ends at an aggregate that fails.
  unfoldable pub add_row_to_agg_func :
      List (AggregateExpression O) → Row O → Code × List (AggregateExpression O)
  add_row_to_agg_func [] row = (success, [])
  add_row_to_agg_func (a ∷ aggs) row =
      let rest = add_row_to_agg_func aggs row in
      let added = add_row a row in
      if is_success added.0 then (rest.0, added.1 ∷ rest.1) else (added.0, added.1 ∷ aggs)

  -- The loop of `make_row` from column `i` on, over the new row.
  unfoldable pub set_results :
      ℕ → List (AggregateExpression O) → ℕ → Row O → Row O × List (AggregateExpression O)
  set_results alias_table_id [] i row = (row, [])
  set_results alias_table_id (a ∷ aggs) i row =
      let got = get_result a in
      let desc = set_column_desc row.row_desc i (set_tid_cid make_column alias_table_id i) in
      let rest =
        set_results alias_table_id aggs (i + 1) (set_cell (set_row_desc row desc) i got.0).1 in
      (rest.0, got.1 ∷ rest.1)

  unfoldable pub make_result :
      ℕ → List (AggregateExpression O) → Row O × List (AggregateExpression O)
  unfolding set_results
  make_result alias_table_id aggs =
      set_results alias_table_id aggs 0 (make_row (make_desc (length aggs)))

module _ {O : Type 0} ⦃class : ObjectClass O⦄ ⦃number : NumberClass O⦄
    (reset_expr : Row O → Option (Expression O) → Option (Expression O)) (alias_table_id fuel : ℕ)
    (child : PhyOperator O) where
  abbrev pub State : Type 0
  State = child.State × ScalarGroup O

  unfoldable pub calc_aggregate : State → Option (Code × State)
  unfolding add_row_to_agg_func make_result
  calc_aggregate p =
      drain child.get_next_row (λ aggs row. (add_row_to_agg_func aggs row).1) fuel p.1.agg_funcs p.0
      >>= λ q.
          let made = make_result alias_table_id q.1 in
          some (success, (q.0, record p.1 { agg_funcs = made.1; result = some made.0 }))

  unfoldable pub open_op : State → Option (Code × State)
  unfolding calc_aggregate
  open_op p = child.open_op p.0 >>= λ r.
      if is_success r.0 then calc_aggregate (r.1, p.1) else some (r.0, (r.1, p.1))

  unfoldable pub close : State → Code × State
  close p = let r = child.close p.0 in (r.0, (r.1, p.1))

  unfoldable pub reset : State → Code × State
  reset p = let r = child.reset p.0 in (r.0, (r.1, p.1))

  unfoldable pub reopen : Row O → State → Option (Code × State)
  unfolding calc_aggregate
  reopen row p = child.reopen row p.0 >>= λ r.
      let again = record p.1 {
        filter = reset_expr row p.1.filter;
        agg_funcs = reset_agg_func p.1.agg_funcs;
      } in
      if is_success r.0 then calc_aggregate (r.1, again) else some (r.0, (r.1, p.1))

  -- A row that does not pass the filter stays.
  unfoldable pub get_next_row : State → Fetch State (Row O)
  get_next_row p = elim (p.1.result) [
    | none ↦ failed no_more_rows p
    | some row ↦
        if passes p.1.filter (plain row)
        then fetched row (p.0, record p.1 { result = none })
        else failed no_more_rows p
  ]
