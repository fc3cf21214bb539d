-- ===== src/SetOps/All.antt =====
-- sql/hash_set.cpp: UnionAll.
use cat_db.Prelude.{
  ℕ, ◌<◌, ◌≡◌, refl, ap, subst, Bool, true, List, [], ◌∷◌, ◌++◌, Option, some, length,
}
use cat_db.Error.{Code, no_more_rows}
use cat_db.Operator.{PhyOperator, Fetch, Delivers, ◌>>=◌}
use cat_db.Operator.Both.{both, both-Delivers}
use cat_db.Operator.Until.{select}
use cat_db.Row.{Row}
use cat_db.SetOps.{close_both, reset_both, reopen_both, open_both, first_error}

-- The body of both loops returns.
all_body : {O : Type 0} → Unit {0} → Row O → Bool × Unit {0}
all_body u r = (true, u)

select-all : {O : Type 0} (rows : List (Row O)) → select all_body tt rows ≡ rows
unfolding all_body select
select-all [] = refl
select-all (r ∷ rows) = ap (◌∷◌ r) (select-all rows)

module _ {O : Type 0} (fuel : ℕ) (left right : PhyOperator O) where
  -- UnionAll keeps nothing but its children.
  abbrev pub State : Type 0
  State = (left.State × right.State) × Unit {0}

  pub open_op : State → Option (Code × State)
  open_op p = open_both left right p.0 >>= λ r. some (r.0, (r.1, tt))

  pub close : State → Code × State
  close p = let r = close_both left right p.0 in (r.0, (r.1, tt))

  pub reset : State → Code × State
  reset p = let r = reset_both left right p.0 in (r.0, (r.1, tt))

  pub reopen : Row O → State → Option (Code × State)
  reopen row p = reopen_both left right row p.0 >>= λ r. some (first_error r.0 r.1, (r.2, tt))

  pub get_next_row : State → Fetch State (Row O)
  unfolding all_body
  get_next_row p = both left.get_next_row right.get_next_row all_body fuel p

  abbrev pub union_all : PhyOperator O
  union_all = record {
    State = State;
    open_op = open_op;
    close = close;
    reset = reset;
    reopen = reopen;
    get_next_row = get_next_row;
  }

  -- UnionAll delivers the rows of the right child and then those of the left one.
  pub union_all-Delivers :
      (ls rs : List (Row O)) (l : left.State) (r : right.State) (c d : Code)
      → length ls < fuel
      → length rs < fuel
      → Delivers left.get_next_row c ls l
      → Delivers right.get_next_row d rs r
      → Delivers get_next_row no_more_rows (rs ++ ls) ((l, r), tt)
  unfolding get_next_row
  union_all-Delivers ls rs l r c d hl hr dl dr =
      subst (λ (out : List (Row O)). Delivers get_next_row no_more_rows out ((l, r), tt))
        (select-all (rs ++ ls))
        (both-Delivers left.get_next_row right.get_next_row all_body fuel ((l, r), tt) c d ls rs hl
          hr dl dr)
