-- ===== src/NestedLoop/Loop.antt =====
-- The loop of `join`, sql/nested_loop_join.cpp, one right row at a time.
use cat_db.Prelude.{
  ℕ, suc, ◌+◌, ◌-◌, ◌≡◌, refl, ap, ◌∙◌, Bool, true, false, List, [], ◌∷◌, ◌++◌, Option, none, some,
  length, get_or, arith, length-append, get_or-append_length,
}
use cat_db.Error.{Code}
use cat_db.Expr.{Expression, agent, passes}
use cat_db.Object.{ObjectClass}
use cat_db.Operator.{PhyOperator, Fetch, fetched, failed}
use cat_db.NestedLoop.{State, first_match, join_loop, round}
use cat_db.Row.{Row, join_row}

module _ {O : Type 0} ⦃class : ObjectClass O⦄ (cond : Option (Expression O)) where
  -- Do a left and a right row pass together?
  abbrev pub pass : Row O → Row O → Bool
  pass l r = passes cond (agent (r ∷ l ∷ []))

  module _ (rs pre rest : List (Row O)) (r l : Row O) (pos : ℕ) (split : rs ≡ pre ++ r ∷ rest)
      (at : pos ≡ length pre) where
    left_over : length rs - pos ≡ suc (length rest)
    left_over = omega (arith, ap length split, length-append pre (r ∷ rest))

    there : get_or rs pos l ≡ r
    there = rw (split, at) (get_or-append_length pre rest r l)

    first_match_hit :
        pass l r ≡ true → first_match cond rs l pos (length rs - pos) ≡ (some r, pos + 1)
    unfolding first_match
    first_match_hit e = rw (left_over, first_match, there, e) refl

    first_match_miss :
        pass l r ≡ false
        → first_match cond rs l pos (length rs - pos)
          ≡ first_match cond rs l (pos + 1) (length rs - (pos + 1))
    unfolding first_match
    first_match_miss e =
        let fewer : length rs - (pos + 1) ≡ length rest = omega (arith, left_over) in
        rw (left_over, fewer, first_match, there, e) refl

  pub first_match_end :
      (rs : List (Row O)) (l : Row O)
      → first_match cond rs l (length rs) (length rs - length rs) ≡ (none, length rs)
  unfolding first_match
  first_match_end rs l =
      let no_more : length rs - length rs ≡ 0 = omega arith in rw (no_more, first_match) refl

  module _ (fuel : ℕ) (left right : PhyOperator O) (rs : List (Row O)) (sr : right.State) where
    -- The left child at `s`, the right position at `pos`, and `l` the left row.
    abbrev pub joining_with : left.State → ℕ → Option (Row O) → State cond fuel left right
    joining_with s pos row =
        ((s, sr), record { right_tables = rs; right_pos = pos; left_row = row })

    abbrev pub joining : left.State → ℕ → Row O → State cond fuel left right
    joining s pos l = joining_with s pos (some l)

    module _ (leaves : left.State → Option (Row O) → Option (Row O)) where
      -- A round does not read the position that it starts from.
      round_same :
          (next : State cond fuel left right → Row O → Fetch (State cond fuel left right) (Row O))
          (s : left.State) (pos pos' : ℕ) (l : Row O) (hit : Option (Row O) × ℕ)
          → round cond fuel left right leaves next (joining s pos l) l hit
            ≡ round cond fuel left right leaves next (joining s pos' l) l hit
      unfolding round
      round_same next s pos pos' l (some r, k) = refl
      round_same next s pos pos' l (none, k) = refl

      module _ (f : ℕ) (pre rest : List (Row O)) (s : left.State) (r l : Row O)
          (split : rs ≡ pre ++ r ∷ rest) where
        pub loop_hit :
            pass l r ≡ true
            → join_loop cond fuel left right leaves (suc f) (joining s (length pre) l) l
              ≡ fetched (join_row r l) (joining s (length pre + 1) l)
        unfolding join_loop round
        loop_hit e =
            ap
              (round cond fuel left right leaves (join_loop cond fuel left right leaves f)
                (joining s (length pre) l) l)
              (first_match_hit rs pre rest r l (length pre) split refl e)

        pub loop_miss :
            pass l r ≡ false
            → join_loop cond fuel left right leaves (suc f) (joining s (length pre) l) l
              ≡ join_loop cond fuel left right leaves (suc f) (joining s (length pre + 1) l) l
        unfolding join_loop
        loop_miss e =
            ap
              (round cond fuel left right leaves (join_loop cond fuel left right leaves f)
                (joining s (length pre) l) l)
              (first_match_miss rs pre rest r l (length pre) split refl e)
            ∙ round_same _ s (length pre) (length pre + 1) l _

      pub loop_end :
          (f : ℕ) (s : left.State) (l : Row O)
          → join_loop cond fuel left right leaves (suc f) (joining s (length rs) l) l
            ≡ round cond fuel left right leaves
                (join_loop cond fuel left right leaves f)
                (joining s (length rs) l)
                l
                (none, length rs)
      unfolding join_loop
      loop_end f s l =
          ap
            (round cond fuel left right leaves (join_loop cond fuel left right leaves f)
              (joining s (length rs) l) l)
            (first_match_end rs l)

      pub loop_failed :
          (f : ℕ) (s s' : left.State) (l : Row O) (c : Code)
          → left.get_next_row s ≡ failed c s'
          → join_loop cond fuel left right leaves (suc f) (joining s (length rs) l) l
            ≡ failed c (joining_with s' (length rs) (leaves s (some l)))
      unfolding round
      loop_failed f s s' l c e = loop_end f s l ∙ rw (round, e) refl

      pub loop_fetched :
          (f : ℕ) (s s' : left.State) (l l' : Row O)
          → left.get_next_row s ≡ fetched l' s'
          → join_loop cond fuel left right leaves (suc f) (joining s (length rs) l) l
            ≡ join_loop cond fuel left right leaves f (joining s' 0 l') l'
      unfolding round
      loop_fetched f s s' l l' e = loop_end f s l ∙ rw (round, e) refl
