-- ===== src/Sort.antt =====
-- sql/sort.cpp: Sort and TopNSort. `std::sort` and the heap of the standard library are parameters, since
-- what they make of rows that are equivalent is not said.
pub mod Order
pub mod Rows
pub mod Perms
pub mod TopN
use cat_db.Prelude.{
  ℕ, zero, suc, ◌+◌, Bool, true, false, not, ◌&&◌, List, [], ◌∷◌, ◌++◌, Option, none, some,
  if◌then◌else◌, leb, ◌==◌, length, get_or,
}
use cat_db.Error.{Code, success, no_more_rows, is_success}
use cat_db.Expr.{Expression, plain}
use cat_db.Object.{ObjectClass}
use cat_db.Operator.{PhyOperator, Fetch, fetched, failed, ◌>>=◌}
use cat_db.Operator.Drain.{drain}
use cat_db.Row.{Row, make_row}
use cat_db.RowDesc.{make_desc}

module _ {O : Type 0} ⦃class : ObjectClass O⦄ where
  -- The loops of `Sort::less` and `Sort::greater` over the columns that are left: nulls come first.
  unfoldable pub less : List (Expression O) → Row O → Row O → Bool
  less [] lhs rhs = false
  less (e ∷ es) lhs rhs =
      let rest = less es lhs rhs in
      let left = e (plain lhs) in
      let right = e (plain rhs) in
      if class.is_null left && class.is_null right
      then rest
      else if class.is_null left
      then true
      else if class.is_null right
      then false
      else if class.bool_value (class.equal left right)
      then rest
      else not (class.bool_value (class.greater left right))

  unfoldable pub greater : List (Expression O) → Row O → Row O → Bool
  greater [] lhs rhs = false
  greater (e ∷ es) lhs rhs =
      let rest = greater es lhs rhs in
      let left = e (plain lhs) in
      let right = e (plain rhs) in
      if class.is_null left && class.is_null right
      then rest
      else if class.is_null left
      then true
      else if class.is_null right
      then false
      else if class.bool_value (class.equal left right)
      then rest
      else class.bool_value (class.greater left right)

  -- The order that `asc` chooses.
  abbrev pub before : Bool → List (Expression O) → Row O → Row O → Bool
  before asc cols = if asc then less cols else greater cols

  -- Those of TopNSort do not look for nulls.
  unfoldable pub topn_less : List (Expression O) → Row O → Row O → Bool
  topn_less [] lhs rhs = false
  topn_less (e ∷ es) lhs rhs =
      let rest = topn_less es lhs rhs in
      let left = e (plain lhs) in
      let right = e (plain rhs) in
      if class.bool_value (class.equal left right)
      then rest
      else not (class.bool_value (class.greater left right))

  unfoldable pub topn_greater : List (Expression O) → Row O → Row O → Bool
  topn_greater [] lhs rhs = false
  topn_greater (e ∷ es) lhs rhs =
      let rest = topn_greater es lhs rhs in
      let left = e (plain lhs) in
      let right = e (plain rhs) in
      if class.bool_value (class.equal left right)
      then rest
      else class.bool_value (class.greater left right)

  -- Beyond the vector there is no row; no result depends on it.
  abbrev pub no_row : Row O
  no_row = make_row (make_desc 0)

  abbrev pub push_back : List (Row O) → Row O → List (Row O)
  push_back rows r = rows ++ r ∷ []

-- `sort_cols` and `asc` are set before `open`.
module _ {O : Type 0} ⦃class : ObjectClass O⦄
    (std_sort : (Row O → Row O → Bool) → List (Row O) → List (Row O))
    (sort_cols : List (Expression O)) (asc : Bool) (fuel : ℕ) (child : PhyOperator O) where
  -- The child, `rows` and `pos`.
  abbrev pub State : Type 0
  State = child.State × List (Row O) × ℕ

  unfoldable pub sort_rows : child.State → Option (Code × State)
  sort_rows s = drain child.get_next_row push_back fuel [] s >>= λ r.
      some (success, (r.0, std_sort (before asc sort_cols) r.1, 0))

  unfoldable pub open_op : State → Option (Code × State)
  unfolding sort_rows
  open_op p = child.open_op p.0 >>= λ r.
      if is_success r.0 then sort_rows r.1 else some (r.0, (r.1, p.1, p.2))

  unfoldable pub close : State → Code × State
  close p = let r = child.close p.0 in (r.0, (r.1, p.1, p.2))

  unfoldable pub reset : State → Code × State
  reset p = let r = child.reset p.0 in (r.0, (r.1, p.1, 0))

  unfoldable pub reopen : Row O → State → Option (Code × State)
  unfolding sort_rows
  reopen row p = child.reopen row p.0 >>= λ r.
      if is_success r.0 then sort_rows r.1 else some (r.0, (r.1, p.1, p.2))

  unfoldable pub get_next_row : State → Fetch State (Row O)
  get_next_row p =
      if leb (length p.1) p.2
      then failed no_more_rows p
      else fetched (get_or p.1 p.2 no_row) (p.0, p.1, p.2 + 1)

  abbrev pub sort : PhyOperator O
  sort = record {
    State = State;
    open_op = open_op;
    close = close;
    reset = reset;
    reopen = reopen;
    get_next_row = get_next_row;
  }
