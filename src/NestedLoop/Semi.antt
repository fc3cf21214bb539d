-- ===== src/NestedLoop/Semi.antt =====
-- `semi_join` and `anti_join` of sql/nested_loop_join.cpp.
use cat_db.Prelude.{
  ℕ, zero, suc, ◌+◌, ◌<◌, ◌≡◌, refl, ap, ◌∙◌, subst, sym, Bool, true, false, not, List, [], ◌∷◌,
  ◌++◌, Option, none, some, length, get_or, if◌then◌else◌, arith, length-append, Bool-cases, inl,
  inr, get_or-append_length,
}
use mathlib.Core.List.{append_assoc}
use cat_db.Error.{Code, no_more_rows}
use cat_db.Expr.{Expression, agent, get_result}
use cat_db.Object.{ObjectClass}
use cat_db.Operator.{PhyOperator, Fetch, fetched, failed, Delivers, Ended, Ended-next, Ended-intro}
use cat_db.Operator.Until.{until, until-Delivers, select, select_nil, select_kept, select_passed}
use cat_db.NestedLoop.{
  anti_join_type, semi_join_type, State, get_next_row, over_left, anti_join, anti_body, semi_join,
  semi_body, any_true, placed,
}
use cat_db.NestedLoop.Loop.{first_match_end}
use cat_db.Relation.{keep}
use cat_db.Row.{Row}

module _ {O : Type 0} ⦃class : ObjectClass O⦄ (cond : Option (Expression O)) where
  -- Is the condition true of the left row with one of the right rows?
  abbrev pub some_true : Row O → List (Row O) → Bool
  some_true l [] = false
  some_true l (r ∷ rs) =
      if class.bool_value (get_result cond (agent (r ∷ l ∷ []))) then true else some_true l rs

  any_true-some_true :
      (rs rest pre : List (Row O)) (l : Row O) (pos n : ℕ)
      → rs ≡ pre ++ rest
      → pos ≡ length pre
      → n ≡ length rest
      → (any_true cond rs l pos n).0 ≡ some_true l rest
  unfolding any_true
  any_true-some_true rs [] pre l pos zero split at e = refl
  any_true-some_true rs [] pre l pos (suc n) split at e = absurd (omega arith)
  any_true-some_true rs (r ∷ rest) pre l pos zero split at e = absurd (omega arith)
  any_true-some_true rs (r ∷ rest) pre l pos (suc n) split at e =
      let there : get_or rs pos l ≡ r = rw (split, at) (get_or-append_length pre rest r l) in
      let ih =
        any_true-some_true rs rest (pre ++ r ∷ []) l (pos + 1) n
          (split ∙ sym (append_assoc pre (r ∷ []) rest)) (rw length-append (omega arith))
          (omega arith) in
      elim (Bool-cases (class.bool_value (get_result cond (agent (r ∷ l ∷ []))))) [
        | inl y ↦ rw (any_true, there, y) refl
        | inr nay ↦ rw (any_true, there, nay) ih
      ]

  anti_body-some_true :
      (rs : List (Row O)) (l : Row O) (pos : ℕ)
      → anti_body cond rs pos l ≡ (not (some_true l rs), (any_true cond rs l 0 (length rs)).1)
  unfolding anti_body
  anti_body-some_true rs l pos =
      ap (λ (b : Bool). (not b, (any_true cond rs l 0 (length rs)).1))
        (any_true-some_true rs rs [] l 0 (length rs) refl refl refl)

  -- What the loop of `anti_join` selects.
  select-anti :
      (rs ls : List (Row O)) (pos : ℕ)
      → select (anti_body cond rs) pos ls ≡ keep (λ l. not (some_true l rs)) ls
  unfolding keep
  select-anti rs [] pos = select_nil (anti_body cond rs) pos
  select-anti rs (l ∷ ls) pos =
      let k = (any_true cond rs l 0 (length rs)).1 in
      let body = anti_body-some_true rs l pos in
      elim (Bool-cases (some_true l rs)) [
        | inl y ↦ rw y (
            select_passed (anti_body cond rs) pos k l ls (body ∙ ap (λ (b : Bool). (not b, k)) y)
            ∙ select-anti rs ls k)
        | inr nay ↦ rw nay (
            select_kept (anti_body cond rs) pos k l ls (body ∙ ap (λ (b : Bool). (not b, k)) nay)
            ∙ ap (◌∷◌ l) (select-anti rs ls k))
      ]

  module _ (fuel : ℕ) (left right : PhyOperator O) (body : List (Row O) → ℕ → Row O → Bool × ℕ)
      (rs : List (Row O)) where
    run : left.State × ℕ → Fetch (left.State × ℕ) (Row O)
    run q = until left.get_next_row (body rs) fuel q.1 q.0

    module _ (p : State cond fuel left right) (same : p.1.right_tables ≡ rs)
        (q : left.State × ℕ) where
      over_fetched :
          (x : Row O)
          → run (p.0.0, p.1.right_pos) ≡ fetched x q
          → over_left cond fuel left right body p
            ≡ fetched x (placed cond fuel left right p q.0 q.1 x)
      unfolding over_left run
      over_fetched x next =
          rw (over_left, same, next)
            (ap
              (λ (ts : List (Row O)).
                fetched x
                  ((q.0, p.0.1), record { right_tables = ts; right_pos = q.1; left_row = some x }))
              same)

      over_failed :
          (c : Code)
          → run (p.0.0, p.1.right_pos) ≡ failed c q
          → over_left cond fuel left right body p
            ≡ failed c ((q.0, p.0.1), record p.1 { right_pos = q.1 })
      unfolding over_left run
      over_failed c next =
          rw (over_left, same, next)
            (ap
              (λ (ts : List (Row O)). failed c (
                (q.0, p.0.1),
                record { right_tables = ts; right_pos = q.1; left_row = p.1.left_row },
              ))
              same)

    over_left-Delivers :
        (c : Code) (out : List (Row O)) (p : State cond fuel left right)
        → p.1.right_tables ≡ rs
        → Delivers run c out (p.0.0, p.1.right_pos)
        → Delivers (over_left cond fuel left right body) c out p
    over_left-Delivers c [] p same d = λ n.
        Ended-intro (over_left cond fuel left right body)
          (λ p. (p.1.right_tables ≡ rs) × Ended run c (p.0.0, p.1.right_pos)) c
          (λ p h.
            let (q, next, ended) = Ended-next run c (p.0.0, p.1.right_pos) h.1 in
            (
              ((q.0, p.0.1), record p.1 { right_pos = q.1 }),
              over_failed p h.0 q c next,
              (h.0, ended),
            ))
          n p (same, d)
    over_left-Delivers c (x ∷ xs) p same (q, next, d) = (
      placed cond fuel left right p q.0 q.1 x,
      over_fetched p same q x next,
      over_left-Delivers c xs (placed cond fuel left right p q.0 q.1 x) same d,
    )

  module _ (fuel : ℕ) (left right : PhyOperator O)
      (leaves : left.State → Option (Row O) → Option (Row O)) (ls rs : List (Row O)) (c : Code)
      (p : State cond fuel left right) where
    -- `anti_join` delivers the left rows, in order, that satisfy the condition with none of the right
    -- rows that were cached.
    pub anti-Delivers :
        p.1.right_tables ≡ rs
        → length ls < fuel
        → Delivers left.get_next_row c ls p.0.0
        → Delivers
            (get_next_row cond fuel left right leaves anti_join_type)
            no_more_rows
            (keep (λ l. not (some_true l rs)) ls)
            p
    unfolding get_next_row anti_join run
    anti-Delivers same h d =
        over_left-Delivers fuel left right (anti_body cond) rs no_more_rows _ p same (
          subst
            (λ (out : List (Row O)).
              Delivers (run fuel left right (anti_body cond) rs) no_more_rows out
                (p.0.0, p.1.right_pos))
            (select-anti rs ls p.1.right_pos)
            (until-Delivers left.get_next_row (anti_body cond rs) fuel p.1.right_pos p.0.0 c ls h
              d))

    select-semi_end : (ls : List (Row O)) → select (semi_body cond rs) (length rs) ls ≡ []
    unfolding semi_body
    select-semi_end [] = select_nil (semi_body cond rs) (length rs)
    select-semi_end (l ∷ ls) =
        select_passed (semi_body cond rs) (length rs) (length rs) l ls (
          ap (λ (hit : Option (Row O) × ℕ). (elim hit.0 [ some r ↦ true | none ↦ false ], hit.1))
            (first_match_end cond rs l))
        ∙ select-semi_end ls

    -- `semi_join` does not go back to the first right row: once it has come to the end of the right
    -- rows, it delivers no further left row, whichever the left rows are.
    pub semi_starves :
        p.1.right_tables ≡ rs
        → p.1.right_pos ≡ length rs
        → length ls < fuel
        → Delivers left.get_next_row c ls p.0.0
        → Delivers (get_next_row cond fuel left right leaves semi_join_type) no_more_rows [] p
    unfolding get_next_row semi_join run
    semi_starves same end h d =
        over_left-Delivers fuel left right (semi_body cond) rs no_more_rows [] p same (
          subst
            (λ (out : List (Row O)).
              Delivers (run fuel left right (semi_body cond) rs) no_more_rows out
                (p.0.0, p.1.right_pos))
            (ap (λ k. select (semi_body cond rs) k ls) end ∙ select-semi_end ls)
            (until-Delivers left.get_next_row (semi_body cond rs) fuel p.1.right_pos p.0.0 c ls h
              d))
