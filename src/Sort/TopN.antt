-- ===== src/Sort/TopN.antt =====
-- sql/sort.cpp: TopNSort, which keeps the first rows of an order in a heap.
-- The heap of the standard library is a parameter; `pop_heap` moves the first row to the end.
pub mod Kept
pub mod Step
pub mod Order
pub mod Rows
use cat_db.Prelude.{
  ℕ, suc, ◌+◌, ◌-◌, Bool, true, false, ◌||◌, List, [], ◌∷◌, ◌++◌, Option, some, if◌then◌else◌, leb,
  ◌==◌, length, get_or, set,
}
use cat_db.Error.{Code, success, no_more_rows, is_success}
use cat_db.Expr.{Expression}
use cat_db.Object.{ObjectClass}
use cat_db.Operator.{PhyOperator, Fetch, fetched, failed, ◌>>=◌}
use cat_db.Operator.Drain.{drain}
use cat_db.Row.{Row}
use cat_db.Sort.{topn_less, topn_greater, no_row, push_back}

pub record StdHeap (R : Type 0) : Type 0 where
  pub make_heap : (R → R → Bool) → List R → List R
  pub pop_heap : (R → R → Bool) → List R → List R
  pub push_heap : (R → R → Bool) → List R → List R
  pub std_sort : (R → R → Bool) → List R → List R

module _ {O : Type 0} ⦃class : ObjectClass O⦄ where
  abbrev pub topn_before : Bool → List (Expression O) → Row O → Row O → Bool
  topn_before asc cols = if asc then topn_less cols else topn_greater cols

  -- `greater(row, rows[0])` or `less(row, rows[0])`.
  abbrev pub topn_behind : Bool → List (Expression O) → Row O → Row O → Bool
  topn_behind asc cols = if asc then topn_greater cols else topn_less cols

module _ {O : Type 0} ⦃class : ObjectClass O⦄ (heap : StdHeap (Row O))
    (lt : Row O → Row O → Bool) where
  -- The first row gives way to the new one.
  unfoldable pub replace_top : List (Row O) → Row O → List (Row O)
  replace_top rows row =
      let popped = heap.pop_heap lt rows in heap.push_heap lt (set popped (length popped - 1) row)

module _ {O : Type 0} ⦃class : ObjectClass O⦄ (heap : StdHeap (Row O)) (topn : ℕ)
    (lt behind : Row O → Row O → Bool) where
  -- The body of the loop of `sort_rows`, over `rows` and `have_make_heap`.
  unfoldable pub topn_step : List (Row O) × Bool → Row O → List (Row O) × Bool
  unfolding replace_top
  topn_step (rows, have_make_heap) row =
      if length rows == topn
      then (let rows' = if have_make_heap then rows else heap.make_heap lt rows in
          (
            if behind row (get_or rows' 0 no_row) then rows' else replace_top heap lt rows' row,
            true,
          ))
      else (push_back rows row, have_make_heap)

module _ {O : Type 0} ⦃class : ObjectClass O⦄ (heap : StdHeap (Row O)) (topn : ℕ)
    (sort_cols : List (Expression O)) (asc : Bool) (fuel : ℕ) (child : PhyOperator O) where
  -- The child, `rows` and `pos`.
  abbrev pub State : Type 0
  State = child.State × List (Row O) × ℕ

  unfoldable pub sort_rows : child.State → Option (Code × State)
  sort_rows s =
      drain child.get_next_row
        (topn_step heap topn (topn_before asc sort_cols) (topn_behind asc sort_cols)) fuel
        ([], false) s
      >>= λ r. some (success, (r.0, heap.std_sort (topn_before asc sort_cols) r.1.0, 0))

  unfoldable pub open_op : State → Option (Code × State)
  unfolding sort_rows
  open_op p = child.open_op p.0 >>= λ r.
      if is_success r.0 then sort_rows r.1 else some (r.0, (r.1, p.1, p.2))

  unfoldable pub close : State → Code × State
  close p = let r = child.close p.0 in (r.0, (r.1, p.1, p.2))

  unfoldable pub reset : State → Code × State
  reset p = let r = child.reset p.0 in (r.0, (r.1, p.1, 0))

  unfoldable pub reopen : Row O → State → Option (Code × State)
  unfolding sort_rows
  reopen row p = child.reopen row p.0 >>= λ r.
      if is_success r.0 then sort_rows r.1 else some (r.0, (r.1, p.1, p.2))

  unfoldable pub get_next_row : State → Fetch State (Row O)
  get_next_row p =
      if leb topn p.2 || leb (length p.1) p.2
      then failed no_more_rows p
      else fetched (get_or p.1 p.2 no_row) (p.0, p.1, p.2 + 1)

  abbrev pub topn_sort : PhyOperator O
  topn_sort = record {
    State = State;
    open_op = open_op;
    close = close;
    reset = reset;
    reopen = reopen;
    get_next_row = get_next_row;
  }
