-- ===== src/SetOps/Except.antt =====
-- sql/hash_set.cpp: HashExcept.
use cat_db.Prelude.{ℕ, ◌<◌, ◌≡◌, subst, List, [], Option, some, length, if◌then◌else◌}
use cat_db.Error.{Code, success, no_more_rows, is_success}
use cat_db.HashTable.{HashTable, StdHash, clear}
use cat_db.HashTable.Dedup.{dedup_body, build_new, IsFresh, select-unique, fold-build_new}
use cat_db.HashTable.Probe.{matches, build_all}
use cat_db.Object.{ObjectClass}
use cat_db.Operator.{PhyOperator, Fetch, Delivers, ◌>>=◌}
use cat_db.Operator.Drain.{drain, drain-fold}
use cat_db.Operator.Until.{until_next, until-Delivers}
use cat_db.Operator.Frame.{on_left, on_left-Delivers}
use cat_db.Relation.{unique}
use cat_db.Row.{Row}
use cat_db.SetOps.{close_both, reset_both, reopen_both, first_error}

module _ {O : Type 0} ⦃class : ObjectClass O⦄ ⦃std : StdHash⦄ (fuel : ℕ)
    (left right : PhyOperator O) where
  abbrev pub State : Type 0
  State = (left.State × right.State) × HashTable O

  -- It reads the right child to its end; `SUCCESS` always.
  build_hash_table : State → Option State
  build_hash_table p =
      drain right.get_next_row build_new fuel (clear p.1) p.0.1 >>= λ r. some ((p.0.0, r.0), r.1)

  pub open_op : State → Option (Code × State)
  unfolding build_hash_table
  open_op p = right.open_op p.0.1 >>= λ r.
      let rest = build_hash_table ((p.0.0, r.1), p.1) >>= λ q.
      left.open_op q.0.0 >>= λ l. some (l.0, ((l.1, q.0.1), q.1)) in
      if is_success r.0 then rest else some (r.0, ((p.0.0, r.1), p.1))

  pub close : State → Code × State
  close p = let r = close_both left right p.0 in (r.0, (r.1, p.1))

  pub reset : State → Code × State
  reset p = let r = reset_both left right p.0 in (r.0, (r.1, p.1))

  -- The table is built whatever the children's codes are.
  pub reopen : Row O → State → Option (Code × State)
  unfolding build_hash_table
  reopen row p = reopen_both left right row p.0 >>= λ r.
      build_hash_table (r.2, p.1) >>= λ q. some (first_error r.0 r.1, q)

  pub get_next_row : State → Fetch State (Row O)
  get_next_row p = on_left (until_next left.get_next_row dedup_body fuel) p

  abbrev pub hash_except : PhyOperator O
  hash_except = record {
    State = State;
    open_op = open_op;
    close = close;
    reset = reset;
    reopen = reopen;
    get_next_row = get_next_row;
  }

  module _ (t : HashTable O) (fresh : IsFresh t) where
    -- `open` over a fresh table reads the right child's rows into it, and then HashExcept delivers
    -- the rows of the left child that the table finds equal neither to a row kept of the right
    -- child nor to one delivered before.
    pub except-Delivers :
        (ls rs : List (Row O)) (l l' : left.State) (r r' : right.State) (c d : Code)
        → right.open_op r ≡ some (success, r')
        → left.open_op l ≡ some (success, l')
        → length ls < fuel
        → length rs < fuel
        → Delivers left.get_next_row c ls l'
        → Delivers right.get_next_row d rs r'
        → (st : State) × (open_op ((l, r), t) ≡ some (success, st))
          × Delivers get_next_row no_more_rows (unique (matches t) (unique (matches t) [] rs) ls) st
    unfolding open_op get_next_row build_all
    except-Delivers ls rs l l' r r' c d er el hl hr dl dr =
        let kept = unique (matches t) [] rs in
        let (r'', read, _) = drain-fold right.get_next_row build_new fuel t r' d rs dr hr in
        (
          ((l', r''), build_all t kept),
          rw (er, ◌>>=◌) (rw (read, ◌>>=◌) (rw (el, ◌>>=◌, fold-build_new t [] rs fresh))),
          on_left-Delivers (until_next left.get_next_row dedup_body fuel) no_more_rows _ l' r''
              (build_all t kept)
              (subst
                (λ (out : List (Row O)).
                  Delivers (until_next left.get_next_row dedup_body fuel) no_more_rows out
                    (l', build_all t kept))
                (select-unique t kept ls fresh)
                (until-Delivers left.get_next_row dedup_body fuel (build_all t kept) l' c ls hl
                  dl)),
        )
