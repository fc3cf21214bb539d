-- ===== src/Aggregate.antt =====
-- sql/expression.cpp: AggregateExpression. The arithmetic of objects is an interface.
pub mod Result
use cat_db.Prelude.{ℕ, ◌+◌, ◌%◌, ◌^◌, Bool, true, false, Option, none, some, if◌then◌else◌}
use cat_db.Error.{Code, success, expr_calc_err}
use cat_db.Expr.{Expression, plain}
use cat_db.Object.{ObjectClass}
use cat_db.Row.{Row}

-- What the aggregates call of numbers: `Number::make_object`, `set_scale(-1)`, `copy`, `increase`,
-- `accumulate`, `operator/` and `operator<`.
pub record NumberClass (O : Type 0) : Type 0 where
  pub make_number : ℕ → O
  pub set_scale : O → O
  pub copy : O → O
  pub increase : O → O
  pub accumulate : O → O → O
  pub divide : O → O → O
  pub less : O → O → O

pub data AggrType : Type 0 where
  aggr_sum aggr_avg aggr_count aggr_min aggr_max : AggrType

-- A null `expr` is that of COUNT(*).
pub record AggregateExpression (O : Type 0) : Type 0 where
  pub expr : Option (Expression O)
  pub op : AggrType
  pub result : Option O
  pub row_count : ℕ

module _ {O : Type 0} where
  abbrev pub make_aggregate_expression : Option (Expression O) → AggrType → AggregateExpression O
  make_aggregate_expression e op = record { expr = e; op = op; result = none; row_count = 0 }

  abbrev pub reset : AggregateExpression O → AggregateExpression O
  reset a = record a { result = none; row_count = 0 }

module _ {O : Type 0} ⦃class : ObjectClass O⦄ ⦃number : NumberClass O⦄ where
  -- The head of `sum`, `count`, `max` and `min`: an error is returned, a null passed over.
  abbrev pub with_value :
      (O → AggregateExpression O) → O → AggregateExpression O → Code × AggregateExpression O
  with_value update value a =
      if class.is_error value
      then (expr_calc_err, a)
      else if class.is_null value
      then (success, a)
      else (success, update value)

  -- The first value is `first`, and a later one is put together with the result so far.
  abbrev pub accept : (O → O) → (O → O → O) → Option O → O → O
  accept first next none value = first value
  accept first next (some result) value = next result value

  abbrev pub put : (O → O) → (O → O → O) → AggregateExpression O → O → AggregateExpression O
  put first next a value = record a { result = some (accept first next a.result value) }

  abbrev pub greater_of : O → O → O
  greater_of result value = if class.bool_value (class.greater value result) then value else result

  abbrev pub less_of : O → O → O
  less_of result value = if class.bool_value (number.less value result) then value else result

  -- `expr->get_result(row)`; only `count` looks for a null `expr`.
  abbrev pub value_of : AggregateExpression O → Row O → O
  value_of a row = elim (a.expr) [ none ↦ class.nullptr | some e ↦ e (plain row) ]

  unfoldable pub sum : AggregateExpression O → Row O → Code × AggregateExpression O
  sum a row = with_value (put number.copy number.accumulate a) (value_of a row) a

  unfoldable pub count : AggregateExpression O → Row O → Code × AggregateExpression O
  count a row =
      let counted = put (λ v. number.make_number 1) (λ r v. number.increase r) a in
      elim (a.expr) [
        | none ↦ (success, counted class.nullptr)
        | some e ↦ with_value counted (e (plain row)) a
      ]

  -- The code of `sum` is not looked at, and every row is counted.
  unfoldable pub avg : AggregateExpression O → Row O → Code × AggregateExpression O
  unfolding sum
  avg a row =
      let b = (sum a row).1 in (success, record b { row_count = (b.row_count + 1) % 2 ^ 32 })

  unfoldable pub max : AggregateExpression O → Row O → Code × AggregateExpression O
  max a row = with_value (put (λ v. v) greater_of a) (value_of a row) a

  unfoldable pub min : AggregateExpression O → Row O → Code × AggregateExpression O
  min a row = with_value (put (λ v. v) less_of a) (value_of a row) a

  unfoldable pub add_row : AggregateExpression O → Row O → Code × AggregateExpression O
  unfolding sum count avg max min
  add_row a row = elim (a.op) [
    | aggr_sum ↦ sum a row
    | aggr_count ↦ count a row
    | aggr_avg ↦ avg a row
    | aggr_min ↦ min a row
    | aggr_max ↦ max a row
  ]

  -- The object that is returned is the one that is kept: an average is divided again by the next call.
  unfoldable pub get_result : AggregateExpression O → O × AggregateExpression O
  get_result a = elim (a.result) [
    | none ↦ elim (a.op) [
      | aggr_count ↦
          let zero_count = number.set_scale (number.make_number 0) in
          (zero_count, record a { result = some zero_count })
      | _ ↦ (class.make_null_object, a)
    ]
    | some r ↦ elim (a.op) [
      | aggr_avg ↦
          let average = number.divide r (number.make_number a.row_count) in
          (average, record a { result = some average })
      | aggr_count ↦ let scaled = number.set_scale r in (scaled, record a { result = some scaled })
      | _ ↦ (r, a)
    ]
  ]
