-- ===== src/Expr.antt =====
-- sql/expression.h as the operators see it, and sql/filter.cpp.
-- An expression is known by its `get_result`; how it is evaluated is not modelled here.
use cat_db.Prelude.{Bool, true, List, Option, none, some}
use cat_db.Object.{ObjectClass}
use cat_db.Row.{Row}

-- A `Row_s` argument: a row, or a RowAgent over several rows.
pub data View (O : Type 0) : Type 0 where
  plain : Row O → View O
  agent : List (Row O) → View O

abbrev pub Expression : Type 0 → Type 0
Expression O = View O → O

module _ {O : Type 0} ⦃class : ObjectClass O⦄ where
  -- `expr->get_result(row)`; through a null pointer it is undefined, which is read as a null pointer.
  abbrev pub get_result : Option (Expression O) → View O → O
  get_result none v = class.nullptr
  get_result (some e) v = e v

  -- `Filter::operator()`: a filter with no expression passes every row; an error result is logged,
  -- and then counts as its `bool_value`.
  abbrev pub passes : Option (Expression O) → View O → Bool
  passes none v = true
  passes (some e) v = class.bool_value (e v)
