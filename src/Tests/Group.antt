-- ===== src/Tests/Group.antt =====
-- The theorems on Query and ScalarGroup at a scripted child.
use cat_db.Prelude.{
  ℕ, ◌+◌, ◌/◌, ◌≡◌, refl, List, [], ◌∷◌, some, none, arith, get_or, ltb, if◌then◌else◌,
}
use cat_db.Aggregate.{
  get_result, make_aggregate_expression, NumberClass, AggrType, aggr_sum, aggr_avg, aggr_count,
  aggr_max,
}
use cat_db.Aggregate.Result.{add_rows, get_result-aggregate}
use cat_db.Error.{success, no_more_rows}
use cat_db.Expr.{Expression, plain, passes}
use cat_db.Operator.Drain.{fold}
use cat_db.Operator.{Delivers}
use cat_db.Query
use cat_db.Query.{selected_rows, query-Delivers}
use cat_db.Row.{Row}
use cat_db.ScalarGroup
use cat_db.ScalarGroup.Rows.{new_aggs, aggregates, scalar_group-Delivers}
use cat_db.Tests.Source.{Cell, null, num, truth, cell_class, row, source, source-Delivers}

abbrev combine : (ℕ → ℕ → ℕ) → Cell → Cell → Cell
combine f (num a) (num b) = num (f a b)
combine f _ _ = null

abbrev cell_less : Cell → Cell → Cell
cell_less (num a) (num b) = truth (ltb a b)
cell_less _ _ = null

abbrev one_more : Cell → Cell
one_more (num n) = num (n + 1)
one_more x = x

instance abbrev cell_numbers : NumberClass Cell
cell_numbers = record {
  make_number = λ n. num n;
  set_scale = λ x. x;
  copy = λ x. x;
  increase = one_more;
  accumulate = combine (λ a b. a + b);
  divide = combine (λ a b. a / b);
  less = cell_less;
}

abbrev price : Expression Cell
price (plain r) = get_or r.cells 1 null
price _ = null

abbrev specs : List (Expression Cell × AggrType)
specs = (price, aggr_sum) ∷ (price, aggr_avg) ∷ (price, aggr_count) ∷ (price, aggr_max) ∷ []

abbrev sales : List (Row Cell)
sales = row 1 (num 1 ∷ num 8 ∷ []) ∷ row 1 (num 2 ∷ null ∷ []) ∷ row 1 (num 3 ∷ num 4 ∷ []) ∷ []

scalar_group-Delivers_example :
    (p : ScalarGroup.State (λ r e. e) 5 9 source) × (total : Row Cell) × (ScalarGroup.open_op
        (λ r e. e)
        5
        9
        source
        (sales, record { agg_funcs = new_aggs specs; result = none; filter = none })
      ≡ some (success, p))
    × (total.cells ≡ aggregates specs sales)
    × Delivers
        (ScalarGroup.get_next_row (λ r e. e) 5 9 source)
        no_more_rows
        (if passes {O = Cell} none (plain total) then total ∷ [] else [])
        p
scalar_group-Delivers_example =
    scalar_group-Delivers (λ r e. e) 5 9 source specs none none sales sales sales no_more_rows
      (λ n. refl) (omega arith)
      (
        (refl, (refl, (refl, tt))),
        (
          (refl, (refl, (refl, tt))),
          ((refl, (refl, (refl, tt))), ((refl, (refl, (refl, tt))), tt)),
        ),
      )
      (omega arith) refl (source-Delivers sales)

get_result-aggregate_example :
    (get_result (add_rows (make_aggregate_expression (some price) aggr_avg) sales)).0 ≡ num 4
unfolding fold
get_result-aggregate_example =
    get_result-aggregate price aggr_avg sales (λ n. refl) (refl, (refl, (refl, tt))) (omega arith)

query-Delivers_example :
    Delivers
      (Query.query (price ∷ price ∷ []) 7 source).get_next_row
      no_more_rows
      (selected_rows 7 (price ∷ price ∷ []) sales)
      sales
query-Delivers_example =
    query-Delivers (price ∷ price ∷ []) 7 source sales sales no_more_rows (source-Delivers sales)
