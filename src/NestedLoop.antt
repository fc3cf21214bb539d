-- ===== src/NestedLoop.antt =====
-- sql/nested_loop_join.cpp: NestedLoopJoin.
-- `make_nested_loop_join` gives every operator a filter, so `join_condition` is not null; what may be
-- null is the filter's expression.
pub mod Loop
pub mod Join
pub mod Open
pub mod Semi
use cat_db.Prelude.{
  ℕ, zero, suc, ◌+◌, ◌-◌, ◌%◌, ◌^◌, Bool, true, false, not, ◌&&◌, List, [], ◌∷◌, ◌++◌, Option, none,
  some, length, get_or, if◌then◌else◌,
}
use cat_db.Error.{Code, success, is_success, no_more_rows}
use cat_db.Expr.{Expression, agent, passes, get_result}
use cat_db.Object.{ObjectClass}
use cat_db.Operator.{PhyOperator, Fetch, fetched, failed, running, ◌>>=◌}
use cat_db.Operator.Drain.{drain}
use cat_db.Operator.Until.{until}
use cat_db.Row.{Row, join_row}

pub data JoinType : Type 0 where
  inner_join semi_join_type anti_join_type left_outer_type right_outer_type full_outer_type :
      JoinType

pub record NestedLoopJoin (O : Type 0) : Type 0 where
  pub right_tables : List (Row O)
  pub right_pos : ℕ
  pub left_row : Option (Row O)

module _ {O : Type 0} ⦃class : ObjectClass O⦄ (cond : Option (Expression O)) where
  -- The loop over `right_tables` from `right_pos` on, with `n` rows left: the first row that passes with
  -- the left row, and the position behind it.
  unfoldable pub first_match : List (Row O) → Row O → ℕ → ℕ → Option (Row O) × ℕ
  first_match rs l pos zero = (none, pos)
  first_match rs l pos (suc n) =
      let rest = first_match rs l (pos + 1) n in
      let r = get_or rs pos l in
      if passes cond (agent (r ∷ l ∷ [])) then (some r, pos + 1) else rest

  -- The body of the loop of `semi_join`: it goes on from where the last left row has stopped.
  semi_body : List (Row O) → ℕ → Row O → Bool × ℕ
  semi_body rs pos l =
      let hit = first_match rs l pos (length rs - pos) in
      (elim hit.0 [ some r ↦ true | none ↦ false ], hit.1)

  -- The loop of `anti_join` asks the filter's expression itself.
  any_true : List (Row O) → Row O → ℕ → ℕ → Bool × ℕ
  any_true rs l pos zero = (false, pos)
  any_true rs l pos (suc n) =
      let rest = any_true rs l (pos + 1) n in
      let r = get_or rs pos l in
      if class.bool_value (get_result cond (agent (r ∷ l ∷ []))) then (true, pos + 1) else rest

  anti_body : List (Row O) → ℕ → Row O → Bool × ℕ
  unfolding any_true
  anti_body rs pos l = let found = any_true rs l 0 (length rs) in (not found.0, found.1)

module _ {O : Type 0} ⦃class : ObjectClass O⦄ (cond : Option (Expression O)) (fuel : ℕ)
    (left right : PhyOperator O) where
  abbrev pub State : Type 0
  State = (left.State × right.State) × NestedLoopJoin O

  -- `ret` is the comparison's truth value, 0 when the loop ends, so `SUCCESS` always comes back.
  cache_right_table : State → Option (Code × State)
  cache_right_table p = drain right.get_next_row (λ rows r. rows ++ r ∷ []) fuel [] p.0.1 >>= λ q.
      some (success, ((p.0.0, q.0), record p.1 { right_tables = q.1; right_pos = 0 }))

  pub open_op : State → Option (Code × State)
  unfolding cache_right_table
  open_op p = left.open_op p.0.0 >>= λ l.
      let rest = right.open_op p.0.1 >>= λ r.
      let cached = cache_right_table ((l.1, r.1), p.1) in
      if is_success r.0 then cached else some (r.0, ((l.1, r.1), p.1)) in
      if is_success l.0 then rest else some (l.0, ((l.1, p.0.1), p.1))

  pub close : State → Code × State
  close p =
      let l = left.close p.0.0 in
      let r = right.close p.0.1 in
      (if is_success l.0 && is_success r.0 then success else r.0, ((l.1, r.1), p.1))

  -- `left_row` is kept.
  pub reset : State → Code × State
  reset p =
      let l = left.reset p.0.0 in
      let r = right.reset p.0.1 in
      if is_success l.0
      then (if is_success r.0
          then (success, ((l.1, r.1), record p.1 { right_pos = 0 }))
          else (r.0, ((l.1, r.1), p.1)))
      else (l.0, ((l.1, p.0.1), p.1))

  pub reopen : Row O → State → Option (Code × State)
  unfolding cache_right_table
  reopen row p = left.reopen row p.0.0 >>= λ l. right.reopen row p.0.1 >>= λ r.
      let cached = cache_right_table ((l.1, r.1), p.1) in
      if is_success l.0
      then (if is_success r.0 then cached else some (r.0, ((l.1, r.1), p.1)))
      else some (l.0, ((l.1, r.1), p.1))

  abbrev pub placed : State → left.State → ℕ → Row O → State
  placed p s pos l = ((s, p.0.1), record p.1 { right_pos = pos; left_row = some l })

  abbrev pub left_with : State → Option (Row O) → State
  left_with p row = (p.0, record p.1 { left_row = row })

  -- `semi_join` and `anti_join` set `left_row` before they read it, so what a failing call leaves in it is
  -- not kept here: the last row that was returned stays.
  over_left : (List (Row O) → ℕ → Row O → Bool × ℕ) → State → Fetch State (Row O)
  over_left body p =
      elim (until left.get_next_row (body p.1.right_tables) fuel p.1.right_pos p.0.0) [
        | fetched l q ↦ fetched l (placed p q.0 q.1 l)
        | failed c q ↦ failed c ((q.0, p.0.1), record p.1 { right_pos = q.1 })
        | running q ↦ running ((q.0, p.0.1), record p.1 { right_pos = q.1 })
      ]

  pub semi_join : State → Fetch State (Row O)
  unfolding over_left semi_body
  semi_join p = over_left (semi_body cond) p

  pub anti_join : State → Fetch State (Row O)
  unfolding over_left anti_body
  anti_join p = over_left (anti_body cond) p

  -- `join` hands its `left_row` to the left child to be filled. A call that fails may leave another row in
  -- it, or null: what the call from a state makes of it is `leaves`.
  module _ (leaves : left.State → Option (Row O) → Option (Row O)) where
    -- A round of the loop of `join`, with `l` in `left_row`, from the match that was found on.
    unfoldable pub round :
        (State → Row O → Fetch State (Row O))
        → State
        → Row O
        → Option (Row O) × ℕ
        → Fetch State (Row O)
    round next p l (some r, pos) = fetched (join_row r l) (placed p p.0.0 pos l)
    round next p l (none, pos) = elim (left.get_next_row p.0.0) [
      | failed c s ↦ failed c (left_with (placed p s pos l) (leaves p.0.0 (some l)))
      | running s ↦ running (placed p s pos l)
      | fetched l' s ↦ next (placed p s 0 l') l'
    ]

    unfoldable pub join_loop : ℕ → State → Row O → Fetch State (Row O)
    join_loop zero p l = running p
    join_loop (suc f) p l = round (join_loop f) p l (
        first_match cond p.1.right_tables l p.1.right_pos (length p.1.right_tables - p.1.right_pos))

    -- A null `left_row` is filled first.
    unfoldable pub join : State → Fetch State (Row O)
    join p = elim (p.1.left_row) [
      | some l ↦ join_loop fuel p l
      | none ↦ elim (left.get_next_row p.0.0) [
        | failed c s ↦ failed c (left_with ((s, p.0.1), p.1) (leaves p.0.0 none))
        | running s ↦ running ((s, p.0.1), p.1)
        | fetched l s ↦ join_loop fuel (placed p s p.1.right_pos l) l
      ]
    ]

    -- The outer joins are not implemented.
    pub get_next_row : JoinType → State → Fetch State (Row O)
    unfolding semi_join anti_join
    get_next_row inner_join p = join p
    get_next_row semi_join_type p = semi_join p
    get_next_row anti_join_type p = anti_join p
    get_next_row left_outer_type p = failed no_more_rows p
    get_next_row right_outer_type p = failed no_more_rows p
    get_next_row full_outer_type p = failed no_more_rows p
