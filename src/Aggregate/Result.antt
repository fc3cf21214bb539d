-- ===== src/Aggregate/Result.antt =====
-- The aggregates of sql/expression.cpp over a list of rows.
use cat_db.Prelude.{
  ℕ, ◌+◌, ◌%◌, ◌^◌, ◌<◌, ◌≡◌, refl, ap, ◌∙◌, true, false, List, [], ◌∷◌, Option, none, some,
  if◌then◌else◌, length, arith, Bool-cases, inl, inr,
}
use cat_db.Aggregate.{
  NumberClass, AggrType, aggr_sum, aggr_avg, aggr_count, aggr_min, aggr_max, AggregateExpression,
  make_aggregate_expression, accept, greater_of, less_of, add_row, sum, count, avg, max, min,
  get_result,
}
use cat_db.Expr.{Expression, plain}
use cat_db.Object.{ObjectClass}
use cat_db.Operator.Drain.{fold}
use cat_db.Relation.{AllOf}
use cat_db.Row.{Row}

-- `increase` counts on.
abbrev pub Counts : {O : Type 0} → NumberClass O → Type 0
Counts number = (n : ℕ) → number.increase (number.make_number n) ≡ number.make_number (n + 1)

-- Only an average counts its rows.
abbrev counted : AggrType → ℕ → ℕ
counted aggr_avg n = (n + 1) % 2 ^ 32
counted _ n = n

module _ {O : Type 0} ⦃class : ObjectClass O⦄ ⦃number : NumberClass O⦄ where
  -- The values of the expression that are not null.
  abbrev pub values : Expression O → List (Row O) → List O
  values e [] = []
  values e (r ∷ rows) =
      if class.is_null (e (plain r)) then values e rows else e (plain r) ∷ values e rows

  -- The values put together one after the other.
  abbrev pub combined : (O → O) → (O → O → O) → Option O → List O → Option O
  combined first next result [] = result
  combined first next result (v ∷ vs) = combined first next (some (accept first next result v)) vs

  abbrev pub NoErrors : Expression O → List (Row O) → Type 0
  NoErrors e rows = AllOf (λ r. class.is_error (e (plain r)) ≡ false) rows

  abbrev pub add_rows : AggregateExpression O → List (Row O) → AggregateExpression O
  add_rows = fold (λ a r. (add_row a r).1)

  -- What an operation starts with, and how it goes on.
  abbrev pub first_of : AggrType → O → O
  first_of aggr_sum v = number.copy v
  first_of aggr_avg v = number.copy v
  first_of aggr_count v = number.make_number 1
  first_of aggr_min v = v
  first_of aggr_max v = v

  abbrev pub next_of : AggrType → O → O → O
  next_of aggr_sum r v = number.accumulate r v
  next_of aggr_avg r v = number.accumulate r v
  next_of aggr_count r v = number.increase r
  next_of aggr_min r v = less_of r v
  next_of aggr_max r v = greater_of r v

  abbrev running : Expression O → AggrType → Option O → ℕ → AggregateExpression O
  running e op result n = record { expr = some e; op = op; result = result; row_count = n }

  add_row-value :
      (e : Expression O) (op : AggrType) (result : Option O) (n : ℕ) (r : Row O)
      → class.is_error (e (plain r)) ≡ false
      → class.is_null (e (plain r)) ≡ false
      → (add_row (running e op result n) r).1
        ≡ running e op
            (some (accept (first_of op) (next_of op) result (e (plain r))))
            (counted op n)
  unfolding add_row sum count avg max min
  add_row-value e aggr_sum result n r ok h = rw (ok, h) refl
  add_row-value e aggr_avg result n r ok h = rw (ok, h) refl
  add_row-value e aggr_count result n r ok h = rw (ok, h) refl
  add_row-value e aggr_min result n r ok h = rw (ok, h) refl
  add_row-value e aggr_max result n r ok h = rw (ok, h) refl

  add_row-null :
      (e : Expression O) (op : AggrType) (result : Option O) (n : ℕ) (r : Row O)
      → class.is_error (e (plain r)) ≡ false
      → class.is_null (e (plain r)) ≡ true
      → (add_row (running e op result n) r).1 ≡ running e op result (counted op n)
  unfolding add_row sum count avg max min
  add_row-null e aggr_sum result n r ok h = rw (ok, h) refl
  add_row-null e aggr_avg result n r ok h = rw (ok, h) refl
  add_row-null e aggr_count result n r ok h = rw (ok, h) refl
  add_row-null e aggr_min result n r ok h = rw (ok, h) refl
  add_row-null e aggr_max result n r ok h = rw (ok, h) refl

  abbrev counts : AggrType → ℕ → List (Row O) → ℕ
  counts op n [] = n
  counts op n (r ∷ rows) = counts op (counted op n) rows

  add_rows-combined :
      (e : Expression O) (op : AggrType) (rows : List (Row O)) (result : Option O) (n : ℕ)
      → NoErrors e rows
      → add_rows (running e op result n) rows
        ≡ running e op
            (combined (first_of op) (next_of op) result (values e rows))
            (counts op n rows)
  unfolding fold
  add_rows-combined e op [] result n h = refl
  add_rows-combined e op (r ∷ rows) result n h = elim (Bool-cases (class.is_null (e (plain r)))) [
    | inl y ↦
        ap (λ a. add_rows a rows) (add_row-null e op result n r h.0 y)
        ∙ add_rows-combined e op rows result (counted op n) h.1
        ∙ rw y refl
    | inr v ↦
        ap (λ a. add_rows a rows) (add_row-value e op result n r h.0 v)
        ∙ add_rows-combined e op rows _ (counted op n) h.1
        ∙ rw v refl
  ]

  counts-length :
      (rows : List (Row O)) (n : ℕ)
      → n + length rows < 2 ^ 32
      → counts aggr_avg n rows ≡ n + length rows
  counts-length [] n h = omega arith
  counts-length (r ∷ rows) n h =
      let one : (n + 1) % 2 ^ 32 ≡ n + 1 = omega (arith, h) in
      ap (λ k. counts aggr_avg k rows) one
      ∙ counts-length rows (n + 1) (omega (arith, h))
      ∙ omega arith

  combined-fold :
      (first : O → O) (next : O → O → O) (m : O) (vs : List O)
      → combined first next (some m) vs ≡ some (fold next m vs)
  unfolding fold
  combined-fold first next m [] = refl
  combined-fold first next m (v ∷ vs) = combined-fold first next (next m v) vs

  -- The specification: what each operation makes of the values that are not null, over `n` rows.
  abbrev pub aggregate : AggrType → List O → ℕ → O
  aggregate aggr_count vs n = number.set_scale (number.make_number (length vs))
  aggregate _ [] n = class.make_null_object
  aggregate aggr_sum (v ∷ vs) n = fold number.accumulate (number.copy v) vs
  aggregate aggr_avg (v ∷ vs) n =
      number.divide (fold number.accumulate (number.copy v) vs) (number.make_number n)
  aggregate aggr_min (v ∷ vs) n = fold less_of v vs
  aggregate aggr_max (v ∷ vs) n = fold greater_of v vs

  fold-increase :
      (vs : List O) (n : ℕ)
      → Counts number
      → fold (λ r v. number.increase r) (number.make_number n) vs
        ≡ number.make_number (n + length vs)
  unfolding fold
  fold-increase [] n h = ap number.make_number (omega arith)
  fold-increase (v ∷ vs) n h =
      ap (λ m. fold (λ r v. number.increase r) m vs) (h n)
      ∙ fold-increase vs (n + 1) h
      ∙ ap number.make_number (omega arith)

  outcome :
      (e : Expression O) (op : AggrType) (vs : List O) (n k : ℕ)
      → Counts number
      → (op ≡ aggr_avg → k ≡ n)
      → (get_result (running e op (combined (first_of op) (next_of op) none vs) k)).0
        ≡ aggregate op vs n
  unfolding get_result
  outcome e aggr_sum [] n k h c = refl
  outcome e aggr_avg [] n k h c = refl
  outcome e aggr_count [] n k h c = refl
  outcome e aggr_min [] n k h c = refl
  outcome e aggr_max [] n k h c = refl
  outcome e aggr_sum (v ∷ vs) n k h c =
      rw (combined-fold number.copy number.accumulate (number.copy v) vs) refl
  outcome e aggr_avg (v ∷ vs) n k h c =
      rw (combined-fold number.copy number.accumulate (number.copy v) vs, c refl) refl
  outcome e aggr_count (v ∷ vs) n k h c =
      rw
        (combined-fold (λ v. number.make_number 1) (λ r v. number.increase r) (number.make_number 1)
          vs)
        (ap number.set_scale (fold-increase vs 1 h ∙ ap number.make_number (omega arith)))
  outcome e aggr_min (v ∷ vs) n k h c = rw (combined-fold (λ v. v) less_of v vs) refl
  outcome e aggr_max (v ∷ vs) n k h c = rw (combined-fold (λ v. v) greater_of v vs) refl

  average_rows :
      (op : AggrType) (rows : List (Row O))
      → length rows < 2 ^ 32
      → op ≡ aggr_avg
      → counts op 0 rows ≡ length rows
  average_rows op rows h e =
      ap (λ o. counts o 0 rows) e ∙ counts-length rows 0 (omega (arith, h)) ∙ omega arith

  -- After the rows are added, the result of an aggregate is the operation over the values that are not
  -- null: null where there are none, and 0 for COUNT. An average is divided by the number of all rows.
  -- There is an expression (COUNT(*) has none), it gives an error on no row, the rows are fewer than 2^32, and `increase` adds one to a number.
  pub get_result-aggregate :
      (e : Expression O) (op : AggrType) (rows : List (Row O))
      → Counts number
      → NoErrors e rows
      → length rows < 2 ^ 32
      → (get_result (add_rows (make_aggregate_expression (some e) op) rows)).0
        ≡ aggregate op (values e rows) (length rows)
  get_result-aggregate e op rows h ok few =
      ap (λ a. (get_result a).0) (add_rows-combined e op rows none 0 ok)
      ∙ outcome e op (values e rows) (length rows) (counts op 0 rows) h (average_rows op rows few)
