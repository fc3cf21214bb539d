-- ===== src/SetOps/Union.antt =====
-- sql/hash_set.cpp: HashUnion.
use cat_db.Prelude.{ℕ, ◌<◌, subst, List, [], ◌++◌, Option, some, length}
use cat_db.Error.{Code, no_more_rows}
use cat_db.HashTable.{HashTable, StdHash, clear}
use cat_db.HashTable.Dedup.{dedup_body, IsFresh, select-unique}
use cat_db.HashTable.Probe.{matches, build_all}
use cat_db.Object.{ObjectClass}
use cat_db.Operator.{PhyOperator, Fetch, Delivers, ◌>>=◌}
use cat_db.Operator.Both.{both, both-Delivers}
use cat_db.Relation.{unique}
use cat_db.Row.{Row}
use cat_db.SetOps.{close_both, reset_both, reopen_both, open_both, first_error}

module _ {O : Type 0} ⦃class : ObjectClass O⦄ ⦃std : StdHash⦄ (fuel : ℕ)
    (left right : PhyOperator O) where
  abbrev pub State : Type 0
  State = (left.State × right.State) × HashTable O

  pub open_op : State → Option (Code × State)
  open_op p = open_both left right p.0 >>= λ r. some (r.0, (r.1, p.1))

  pub close : State → Code × State
  close p = let r = close_both left right p.0 in (r.0, (r.1, p.1))

  pub reset : State → Code × State
  reset p = let r = reset_both left right p.0 in (r.0, (r.1, p.1))

  pub reopen : Row O → State → Option (Code × State)
  reopen row p =
      reopen_both left right row p.0 >>= λ r. some (first_error r.0 r.1, (r.2, clear p.1))

  pub get_next_row : State → Fetch State (Row O)
  get_next_row p = both left.get_next_row right.get_next_row dedup_body fuel p

  abbrev pub hash_union : PhyOperator O
  hash_union = record {
    State = State;
    open_op = open_op;
    close = close;
    reset = reset;
    reopen = reopen;
    get_next_row = get_next_row;
  }

  -- Over a fresh table HashUnion delivers the rows of the right child and then those of the left
  -- one, each without the rows that the table finds equal to one delivered before.
  pub union-Delivers :
      (t : HashTable O) (ls rs : List (Row O)) (l : left.State) (r : right.State) (c d : Code)
      → IsFresh t
      → length ls < fuel
      → length rs < fuel
      → Delivers left.get_next_row c ls l
      → Delivers right.get_next_row d rs r
      → Delivers get_next_row no_more_rows (unique (matches t) [] (rs ++ ls)) ((l, r), t)
  unfolding get_next_row build_all
  union-Delivers t ls rs l r c d fresh hl hr dl dr =
      subst (λ (out : List (Row O)). Delivers get_next_row no_more_rows out ((l, r), t))
        (select-unique t [] (rs ++ ls) fresh)
        (both-Delivers left.get_next_row right.get_next_row dedup_body fuel ((l, r), t) c d ls rs hl
          hr dl dr)
