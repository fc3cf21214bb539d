-- ===== src/NestedLoop/Open.antt =====
-- `open` and then `join` of sql/nested_loop_join.cpp.
use cat_db.Prelude.{
  ◌≢◌, ◌⊎◌, ℕ, zero, suc, ◌<◌, ◌≡◌, refl, ◌∙◌, sym, List, [], ◌∷◌, ◌++◌, Option, none, some, length,
  arith,
}
use mathlib.Core.List.{append_assoc, append-nil}
use cat_db.Error.{Code, success}
use cat_db.Expr.{Expression}
use cat_db.Object.{ObjectClass}
use cat_db.Operator.{PhyOperator, failed, Delivers, Ended, ◌>>=◌}
use cat_db.Operator.Drain.{drain-fold, fold}
use cat_db.NestedLoop.{inner_join, State, open_op, get_next_row, cache_right_table}
use cat_db.NestedLoop.Join.{product, joined, start, start-Delivers, start_leaves}
use cat_db.Row.{Row}

-- The rows that `cache_right_table` reads are kept in their order.
fold_snoc :
    {R : Type 0} (acc rows : List R) → fold (λ rows r. rows ++ r ∷ []) acc rows ≡ acc ++ rows
unfolding fold
fold_snoc acc [] = sym (append-nil acc)
fold_snoc acc (r ∷ rows) = fold_snoc (acc ++ r ∷ []) rows ∙ append_assoc acc (r ∷ []) rows

positive : (n k : ℕ) → n < k → (j : ℕ) × (k ≡ suc j)
positive n zero h = absurd (omega arith)
positive n (suc j) h = (j, refl)

module _ {O : Type 0} ⦃class : ObjectClass O⦄ (cond : Option (Expression O)) (fuel : ℕ)
    (left right : PhyOperator O) where
  -- `open` reads the right child's rows, and leaves the left one at its start.
  open_op-start :
      (rs : List (Row O)) (l l' : left.State) (r r' : right.State) (cached : List (Row O)) (pos : ℕ)
      (e : Code)
      → left.open_op l ≡ some (success, l')
      → right.open_op r ≡ some (success, r')
      → length rs < fuel
      → Delivers right.get_next_row e rs r'
      → (r'' : right.State) × (open_op cond fuel left right
            ((l, r), record { right_tables = cached; right_pos = pos; left_row = none })
          ≡ some (success, start cond fuel left right (λ s o. o) rs r'' l'))
  unfolding open_op cache_right_table
  open_op-start rs l l' r r' cached pos e el er hr dr =
      let (r'', read, _) =
        drain-fold right.get_next_row (λ rows r. rows ++ r ∷ []) fuel [] r' e rs dr hr in
      (r'', rw (el, ◌>>=◌) (rw (er, ◌>>=◌) (rw (read, ◌>>=◌, fold_snoc [] rs) refl)))

  module _ (leaves : left.State → Option (Row O) → Option (Row O)) where
    -- A nested loop join without a left row opens and reads the right child's rows. `join` then
    -- delivers, for each left row in turn, the right rows in their order that pass with it, each joined
    -- with it, and ends with the left child's code, whatever the left child's failing calls leave in
    -- `left_row`. The left child has a row or the right child has none, and there is fuel for a round
    -- more than either has rows.
    pub join-Delivers :
        (ls rs : List (Row O)) (l l' : left.State) (r r' : right.State) (cached : List (Row O))
        (pos : ℕ) (c e : Code)
        → (ls ≢ []) ⊎ (rs ≡ [])
        → left.open_op l ≡ some (success, l')
        → right.open_op r ≡ some (success, r')
        → length ls < fuel
        → length rs < fuel
        → Delivers left.get_next_row c ls l'
        → Delivers right.get_next_row e rs r'
        → (st : State cond fuel left right) × (open_op cond fuel left right
              ((l, r), record { right_tables = cached; right_pos = pos; left_row = none })
            ≡ some (success, st))
          × Delivers (get_next_row cond fuel left right leaves inner_join) c (product cond ls rs) st
    unfolding get_next_row
    join-Delivers ls rs l l' r r' cached pos c e given el er hl hr dl dr =
        let (r'', opened) = open_op-start rs l l' r r' cached pos e el er hr dr in
        let (k, full) = positive (length ls) fuel hl in
        (
          start cond fuel left right leaves rs r'' l',
          opened,
          start-Delivers cond fuel left right leaves rs r'' ls l' c k full given dl hl,
        )

    -- A left child without rows whose failing call leaves a row in `left_row`: the first call of the
    -- nested loop join fails with the child's code, and the calls after it deliver the row that was left
    -- joined with each right row that passes with it, before the join ends with that code. There is fuel
    -- for a round, and for a round more than there are right rows.
    pub join_leaves-Delivers :
        (rs : List (Row O)) (l l' l'' : left.State) (r r' : right.State) (cached : List (Row O))
        (pos : ℕ) (c e : Code) (blank : Row O)
        → left.open_op l ≡ some (success, l')
        → right.open_op r ≡ some (success, r')
        → length rs < fuel
        → Delivers right.get_next_row e rs r'
        → left.get_next_row l' ≡ failed c l''
        → Ended left.get_next_row c l''
        → leaves l' none ≡ some blank
        → (st p : State cond fuel left right) × (open_op cond fuel left right
              ((l, r), record { right_tables = cached; right_pos = pos; left_row = none })
            ≡ some (success, st))
          × (get_next_row cond fuel left right leaves inner_join st ≡ failed c p)
          × Delivers
              (get_next_row cond fuel left right leaves inner_join)
              c
              (joined cond blank rs)
              p
    unfolding get_next_row
    join_leaves-Delivers rs l l' l'' r r' cached pos c e blank el er hr dr next ended left_row =
        let (r'', opened) = open_op-start rs l l' r r' cached pos e el er hr dr in
        let (k, full) = positive (length rs) fuel hr in
        let (p, fails, d) =
          start_leaves cond fuel left right leaves rs r'' l' l'' c blank k full next ended
            left_row in
        (start cond fuel left right leaves rs r'' l', p, opened, fails, d)
