-- ===== src/ScalarGroup/Rows.antt =====
-- The row that ScalarGroup of sql/scalar_group.cpp delivers.
use cat_db.Prelude.{
  ℕ, ◌+◌, ◌^◌, ◌<◌, ◌≡◌, refl, sym, ap, ◌∙◌, subst, true, false, List, [], ◌∷◌, ◌++◌, Option, none,
  some, if◌then◌else◌, length, replicate, length-replicate, length-append, set-append_length,
  lt→ltb, ltb, set, arith, Bool-cases, inl, inr,
}
use mathlib.Core.List.{append_assoc}
use cat_db.Aggregate.{
  AggregateExpression, NumberClass, AggrType, aggr_sum, aggr_avg, aggr_count, aggr_min, aggr_max,
  add_row, get_result, make_aggregate_expression, sum, count, avg, max, min,
}
use cat_db.Aggregate.Result.{Counts, NoErrors, add_rows, aggregate, values, get_result-aggregate}
use cat_db.Error.{Code, success, no_more_rows}
use cat_db.Expr.{Expression, plain, passes}
use cat_db.Object.{ObjectClass}
use cat_db.Operator.{PhyOperator, Fetch, failed, Delivers, Ended, Ended-intro}
use cat_db.Operator.Drain.{drain-fold, fold}
use cat_db.Relation.{AllOf}
use cat_db.Row.{Row, make_row, set_cell, set_row_desc}
use cat_db.RowDesc.{make_column, make_desc, set_column_desc, set_tid_cid}
use cat_db.ScalarGroup.{
  State, add_row_to_agg_func, set_results, make_result, calc_aggregate, open_op, get_next_row,
}

module _ {O : Type 0} ⦃class : ObjectClass O⦄ ⦃number : NumberClass O⦄ where
  -- An aggregate over an expression that gives no error on the rows.
  abbrev Fits : List (Row O) → AggregateExpression O → Type 0
  Fits rows a = (e : Expression O) × (a.expr ≡ some e) × NoErrors e rows

  abbrev add_each : List (AggregateExpression O) → Row O → List (AggregateExpression O)
  add_each [] r = []
  add_each (a ∷ aggs) r = (add_row a r).1 ∷ add_each aggs r

  add_row-running :
      (e : Expression O) (op : AggrType) (result : Option O) (n : ℕ) (r : Row O)
      → class.is_error (e (plain r)) ≡ false
      → ((add_row (record { expr = some e; op = op; result = result; row_count = n }) r).0
          ≡ success)
        × ((add_row (record { expr = some e; op = op; result = result; row_count = n }) r).1.expr
            ≡ some e)
  unfolding add_row sum count avg max min
  add_row-running e op result n r ok = elim (Bool-cases (class.is_null (e (plain r)))) [
    | inl y ↦ by_op op y
    | inr v ↦ by_value op v
  ]
    where
      by_op :
          (op : AggrType)
          → class.is_null (e (plain r)) ≡ true
          → ((add_row (record { expr = some e; op = op; result = result; row_count = n }) r).0
              ≡ success)
            × ((add_row
                  (record { expr = some e; op = op; result = result; row_count = n })
                  r).1.expr
                ≡ some e)
      by_op aggr_sum y = rw (ok, y) (refl, refl)
      by_op aggr_avg y = rw (ok, y) (refl, refl)
      by_op aggr_count y = rw (ok, y) (refl, refl)
      by_op aggr_min y = rw (ok, y) (refl, refl)
      by_op aggr_max y = rw (ok, y) (refl, refl)

      by_value :
          (op : AggrType)
          → class.is_null (e (plain r)) ≡ false
          → ((add_row (record { expr = some e; op = op; result = result; row_count = n }) r).0
              ≡ success)
            × ((add_row
                  (record { expr = some e; op = op; result = result; row_count = n })
                  r).1.expr
                ≡ some e)
      by_value aggr_sum y = rw (ok, y) (refl, refl)
      by_value aggr_avg y = rw (ok, y) (refl, refl)
      by_value aggr_count y = rw (ok, y) (refl, refl)
      by_value aggr_min y = rw (ok, y) (refl, refl)
      by_value aggr_max y = rw (ok, y) (refl, refl)

  add_row-Fits :
      (a : AggregateExpression O) (r : Row O) (rows : List (Row O))
      → Fits (r ∷ rows) a
      → ((add_row a r).0 ≡ success) × Fits rows (add_row a r).1
  add_row-Fits a r rows (e, at, ok) =
      let (done, kept) =
        subst
          (λ x.
            ((add_row (record a { expr = x }) r).0 ≡ success)
            × ((add_row (record a { expr = x }) r).1.expr ≡ some e))
          (sym at) (add_row-running e a.op a.result a.row_count r ok.0) in
      (done, (e, kept, ok.1))

  add_row_to_agg_func-each :
      (aggs : List (AggregateExpression O)) (r : Row O) (rows : List (Row O))
      → AllOf (Fits (r ∷ rows)) aggs
      → (add_row_to_agg_func aggs r ≡ (success, add_each aggs r))
        × AllOf (Fits rows) (add_each aggs r)
  unfolding add_row_to_agg_func
  add_row_to_agg_func-each [] r rows h = (refl, tt)
  add_row_to_agg_func-each (a ∷ aggs) r rows h =
      let (done, fits) = add_row-Fits a r rows h.0 in
      let (rest, others) = add_row_to_agg_func-each aggs r rows h.1 in
      (rw (done, rest) refl, (fits, others))

  abbrev add_all : List (AggregateExpression O) → List (Row O) → List (AggregateExpression O)
  add_all [] rows = []
  add_all (a ∷ aggs) rows = add_rows a rows ∷ add_all aggs rows

  add_all-each :
      (aggs : List (AggregateExpression O)) (r : Row O) (rows : List (Row O))
      → add_all (add_each aggs r) rows ≡ add_all aggs (r ∷ rows)
  unfolding fold
  add_all-each [] r rows = refl
  add_all-each (a ∷ aggs) r rows = ap (◌∷◌ (add_rows a (r ∷ rows))) (add_all-each aggs r rows)

  add_all-nil : (aggs : List (AggregateExpression O)) → add_all aggs [] ≡ aggs
  unfolding fold
  add_all-nil [] = refl
  add_all-nil (a ∷ aggs) = ap (◌∷◌ a) (add_all-nil aggs)

  -- The loop over the child adds every row to every aggregate.
  fold-add_all :
      (rows : List (Row O)) (aggs : List (AggregateExpression O))
      → AllOf (Fits rows) aggs
      → fold (λ aggs row. (add_row_to_agg_func aggs row).1) aggs rows ≡ add_all aggs rows
  unfolding fold
  fold-add_all [] aggs h = sym (add_all-nil aggs)
  fold-add_all (r ∷ rows) aggs h =
      let (each, fits) = add_row_to_agg_func-each aggs r rows h in
      ap
        (λ (q : Code × List (AggregateExpression O)).
          fold (λ aggs row. (add_row_to_agg_func aggs row).1) q.1 rows)
        each
      ∙ fold-add_all rows (add_each aggs r) fits
      ∙ add_all-each aggs r rows

  abbrev results : List (AggregateExpression O) → List O
  results [] = []
  results (a ∷ aggs) = (get_result a).0 ∷ results aggs

  set_results-cells :
      (tid : ℕ) (aggs : List (AggregateExpression O)) (i : ℕ) (row : Row O) (pre rest : List O)
      → row.cells ≡ pre ++ rest
      → i ≡ length pre
      → length rest ≡ length aggs
      → i + length aggs ≡ row.row_desc.column_count
      → (set_results tid aggs i row).0.cells ≡ pre ++ results aggs
  unfolding set_results
  set_results-cells tid [] i row pre [] e ei en ec = e
  set_results-cells tid [] i row pre (x ∷ rest) e ei en ec = absurd (omega (arith, en))
  set_results-cells tid (a ∷ aggs) i row pre [] e ei en ec = absurd (omega (arith, en))
  set_results-cells tid (a ∷ aggs) i row pre (x ∷ rest) e ei en ec =
      let v = (get_result a).0 in
      let row' =
        (set_cell
          (set_row_desc row (set_column_desc row.row_desc i (set_tid_cid make_column tid i))) i
          v).1 in
      let inside : ltb i row.row_desc.column_count ≡ true =
        lt→ltb i row.row_desc.column_count (omega (arith, ec)) in
      let cells : row'.cells ≡ (pre ++ v ∷ []) ++ rest =
        rw inside (
          ap (λ l. set l i v) e
          ∙ ap (λ k. set (pre ++ x ∷ rest) k v) ei
          ∙ set-append_length pre rest x v)
        ∙ sym (append_assoc pre (v ∷ []) rest) in
      let width : row'.row_desc.column_count ≡ row.row_desc.column_count = rw inside refl in
      set_results-cells tid aggs (i + 1) row' (pre ++ v ∷ []) rest cells
        (omega (arith, ei, length-append pre (v ∷ []))) (omega (arith, en))
        (omega (arith, ec, width))
      ∙ append_assoc pre (v ∷ []) (results aggs)

  make_result-cells :
      (tid : ℕ) (aggs : List (AggregateExpression O))
      → (make_result tid aggs).0.cells ≡ results aggs
  unfolding make_result
  make_result-cells tid aggs =
      set_results-cells tid aggs 0 (make_row (make_desc (length aggs))) []
        (replicate (length aggs) class.nullptr) refl refl
        (length-replicate (length aggs) class.nullptr) (omega arith)

  -- Aggregates as the planner makes them, by expression and operation.
  abbrev pub new_aggs : List (Expression O × AggrType) → List (AggregateExpression O)
  new_aggs [] = []
  new_aggs (s ∷ specs) = make_aggregate_expression (some s.0) s.1 ∷ new_aggs specs

  -- The specification: the value of each aggregate over the rows.
  abbrev pub aggregates : List (Expression O × AggrType) → List (Row O) → List O
  aggregates [] rows = []
  aggregates (s ∷ specs) rows =
      aggregate s.1 (values s.0 rows) (length rows) ∷ aggregates specs rows

  results-aggregates :
      (specs : List (Expression O × AggrType)) (rows : List (Row O))
      → Counts number
      → length rows < 2 ^ 32
      → AllOf (λ s. NoErrors s.0 rows) specs
      → results (add_all (new_aggs specs) rows) ≡ aggregates specs rows
  results-aggregates [] rows h few ok = refl
  results-aggregates (s ∷ specs) rows h few ok =
      rw (get_result-aggregate s.0 s.1 rows h ok.0 few, results-aggregates specs rows h few ok.1)
        refl

  new_aggs-Fits :
      (specs : List (Expression O × AggrType)) (rows : List (Row O))
      → AllOf (λ s. NoErrors s.0 rows) specs
      → AllOf (Fits rows) (new_aggs specs)
  new_aggs-Fits [] rows ok = tt
  new_aggs-Fits (s ∷ specs) rows ok = ((s.0, refl, ok.0), new_aggs-Fits specs rows ok.1)

module _ {O : Type 0} ⦃class : ObjectClass O⦄ ⦃number : NumberClass O⦄
    (reset_expr : Row O → Option (Expression O) → Option (Expression O)) (tid fuel : ℕ)
    (child : PhyOperator O) where
  abbrev next : State reset_expr tid fuel child → Fetch (State reset_expr tid fuel child) (Row O)
  next = get_next_row reset_expr tid fuel child

  -- Without a row, or with one that does not pass, there are no more rows.
  none-Ended :
      (p : State reset_expr tid fuel child)
      → next p ≡ failed no_more_rows p
      → Ended next no_more_rows p
  none-Ended p h n =
      Ended-intro next (λ q. q ≡ p) no_more_rows (λ q e. (p, ap next e ∙ h, refl)) n p refl

  result-Delivers :
      (x : child.State) (aggs : List (AggregateExpression O)) (filter : Option (Expression O))
      (row : Row O)
      → Delivers next no_more_rows
          (if passes filter (plain row) then row ∷ [] else [])
          (x, record { agg_funcs = aggs; result = some row; filter = filter })
  unfolding get_next_row
  result-Delivers x aggs filter row = elim (Bool-cases (passes filter (plain row))) [
    | inl y ↦
        let p : State reset_expr tid fuel child =
          (x, record { agg_funcs = aggs; result = none; filter = filter }) in
        rw y (p, rw y refl, none-Ended p refl)
    | inr n ↦
        let p : State reset_expr tid fuel child =
          (x, record { agg_funcs = aggs; result = some row; filter = filter }) in
        rw n (none-Ended p (rw n refl))
  ]

  -- ScalarGroup opens, and delivers one row with the value of each aggregate over the rows of the child,
  -- or none where that row does not pass the filter; with no rows at all, it is the row of nulls and
  -- zeros. The aggregates are new and each has an expression (COUNT(*) has none), no expression gives an
  -- error on a row, the rows are fewer than 2^32, `increase` adds one to a number, and there is fuel for a round more than there are rows.
  pub scalar_group-Delivers :
      (specs : List (Expression O × AggrType)) (filter : Option (Expression O))
      (old : Option (Row O)) (s s' : child.State) (rows : List (Row O)) (c : Code)
      → Counts number
      → length rows < 2 ^ 32
      → AllOf (λ s. NoErrors s.0 rows) specs
      → length rows < fuel
      → child.open_op s ≡ some (success, s')
      → Delivers child.get_next_row c rows s'
      → (p : State reset_expr tid fuel child) × (row : Row O) × (open_op reset_expr tid fuel child
            (s, record { agg_funcs = new_aggs specs; result = old; filter = filter })
          ≡ some (success, p))
        × (row.cells ≡ aggregates specs rows)
        × Delivers next no_more_rows (if passes filter (plain row) then row ∷ [] else []) p
  unfolding open_op calc_aggregate
  scalar_group-Delivers specs filter old s s' rows c h few ok enough opened d =
      let step =
        λ (aggs : List (AggregateExpression O)) (row : Row O). (add_row_to_agg_func aggs row).1 in
      let (s'', run, ended) =
        drain-fold child.get_next_row step fuel (new_aggs specs) s' c rows d enough in
      let aggs = fold step (new_aggs specs) rows in
      let made = make_result tid aggs in
      let p : State reset_expr tid fuel child =
        (s'', record { agg_funcs = made.1; result = some made.0; filter = filter }) in
      (
        p,
        made.0,
        rw (opened, run) refl,
        make_result-cells tid aggs
            ∙ ap results (fold-add_all rows (new_aggs specs) (new_aggs-Fits specs rows ok))
            ∙ results-aggregates specs rows h few ok,
        result-Delivers s'' made.1 filter made.0,
      )
