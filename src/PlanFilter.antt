-- ===== src/PlanFilter.antt =====
-- sql/plan_filter.cpp: PlanFilter, over the filter of sql/filter.cpp.
use cat_db.Prelude.{
  ℕ, ◌<◌, ◌≡◌, refl, ap, subst, Bool, List, [], ◌∷◌, Option, some, length, Bool-cases, inl, inr,
}
use cat_db.Error.{Code, no_more_rows}
use cat_db.Expr.{Expression, plain, passes}
use cat_db.Object.{ObjectClass}
use cat_db.Operator.{PhyOperator, Fetch, Delivers, ◌>>=◌}
use cat_db.Operator.Until.{until, until-Delivers, select}
use cat_db.Relation.{keep}
use cat_db.Row.{Row}

module _ {O : Type 0} ⦃class : ObjectClass O⦄ where
  -- The body of the loop: the filter is kept, and a null one passes every row.
  filter_body : Option (Expression O) → Row O → Bool × Option (Expression O)
  filter_body filter r = (passes filter (plain r), filter)

  select-keep :
      (filter : Option (Expression O)) (rows : List (Row O))
      → select filter_body filter rows ≡ keep (λ r. passes filter (plain r)) rows
  unfolding filter_body select keep
  select-keep filter [] = refl
  select-keep filter (r ∷ rows) = elim (Bool-cases (passes filter (plain r))) [
    | inl e ↦ rw (e, select) (ap (◌∷◌ r) (select-keep filter rows))
    | inr e ↦ rw (e, select) (select-keep filter rows)
  ]

-- `reset_expr` is `Expression::reset`, which hands the outer row to a correlated expression.
module _ {O : Type 0} ⦃class : ObjectClass O⦄
    (reset_expr : Row O → Option (Expression O) → Option (Expression O)) (fuel : ℕ)
    (child : PhyOperator O) where
  abbrev pub State : Type 0
  State = child.State × Option (Expression O)

  pub open_op : State → Option (Code × State)
  open_op p = child.open_op p.0 >>= λ r. some (r.0, (r.1, p.1))

  pub close : State → Code × State
  close p = let r = child.close p.0 in (r.0, (r.1, p.1))

  pub reset : State → Code × State
  reset p = let r = child.reset p.0 in (r.0, (r.1, p.1))

  pub reopen : Row O → State → Option (Code × State)
  reopen row p = child.reopen row p.0 >>= λ r. some (r.0, (r.1, reset_expr row p.1))

  pub get_next_row : State → Fetch State (Row O)
  unfolding filter_body
  get_next_row p = until child.get_next_row filter_body fuel p.1 p.0

  abbrev pub plan_filter : PhyOperator O
  plan_filter = record {
    State = State;
    open_op = open_op;
    close = close;
    reset = reset;
    reopen = reopen;
    get_next_row = get_next_row;
  }

  -- PlanFilter delivers the child's rows on which the filter is true, in their order.
  pub filter-Delivers :
      (filter : Option (Expression O)) (rows : List (Row O)) (s : child.State) (c : Code)
      → length rows < fuel
      → Delivers child.get_next_row c rows s
      → Delivers get_next_row no_more_rows (keep (λ r. passes filter (plain r)) rows) (s, filter)
  unfolding get_next_row
  filter-Delivers filter rows s c h d =
      subst (λ (out : List (Row O)). Delivers get_next_row no_more_rows out (s, filter))
        (select-keep filter rows)
        (until-Delivers child.get_next_row filter_body fuel filter s c rows h d)
