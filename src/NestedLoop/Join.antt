-- ===== src/NestedLoop/Join.antt =====
-- `join` of sql/nested_loop_join.cpp, call after call, and the product of two lists of rows.
use cat_db.Prelude.{
  ℕ, zero, suc, ◌+◌, ◌<◌, ◌≡◌, refl, ap, ◌∙◌, subst, sym, List, [], ◌∷◌, ◌++◌, Option, none, some,
  length, if◌then◌else◌, arith, length-append, Bool-cases, inl, inr, ◌⊎◌, ◌≢◌,
}
use mathlib.Core.List.{append_assoc, append-nil}
use cat_db.Error.{Code}
use cat_db.Expr.{Expression}
use cat_db.Object.{ObjectClass}
use cat_db.Operator.{
  PhyOperator, Fetch, fetched, failed, Delivers, Ended, Ended-next, Ended-intro, Ended-failed,
}
use cat_db.NestedLoop.{State, join, join_loop}
use cat_db.NestedLoop.Loop.{
  pass, joining, joining_with, loop_hit, loop_miss, loop_failed, loop_fetched,
}
use cat_db.Row.{Row, join_row}

module _ {O : Type 0} ⦃class : ObjectClass O⦄ (cond : Option (Expression O)) where
  -- The specification: each left row in turn with each right row that passes with it.
  abbrev pub joined : Row O → List (Row O) → List (Row O)
  joined l [] = []
  joined l (r ∷ rs) = if pass cond l r then join_row r l ∷ joined l rs else joined l rs

  abbrev pub product : List (Row O) → List (Row O) → List (Row O)
  product [] rs = []
  product (l ∷ ls) rs = joined l rs ++ product ls rs

  module _ (fuel : ℕ) (left right : PhyOperator O)
      (leaves : left.State → Option (Row O) → Option (Row O)) where
    -- What a call's result says of the rows to come.
    Yields : Code → List (Row O) → Fetch (State cond fuel left right) (Row O) → Type 0
    Yields c [] result =
        (p : State cond fuel left right) × (result ≡ failed c p)
        × Ended (join cond fuel left right leaves) c p
    Yields c (x ∷ xs) result =
        (p : State cond fuel left right) × (result ≡ fetched x p)
        × Delivers (join cond fuel left right leaves) c xs p

    yields-Delivers :
        (c : Code) (out : List (Row O)) (p : State cond fuel left right)
        → Yields c out (join cond fuel left right leaves p)
        → Delivers (join cond fuel left right leaves) c out p
    unfolding Yields
    yields-Delivers c [] p (p', e, ended) =
        Ended-failed (join cond fuel left right leaves) c p p' e ended
    yields-Delivers c (x ∷ xs) p h = h

    module _ (rs : List (Row O)) (sr : right.State) where
      loop : ℕ → left.State → ℕ → Row O → Fetch (State cond fuel left right) (Row O)
      loop f s pos l =
          join_loop cond fuel left right leaves f (joining cond fuel left right rs sr s pos l) l

      -- With the right rows read to their end, a call asks the left child, whatever `left_row` is.
      exhausted_fails :
          (f : ℕ) (row : Option (Row O)) (s s' : left.State) (c : Code)
          → fuel ≡ suc f
          → left.get_next_row s ≡ failed c s'
          → join cond fuel left right leaves
              (joining_with cond fuel left right rs sr s (length rs) row)
            ≡ failed c (joining_with cond fuel left right rs sr s' (length rs) (leaves s row))
      unfolding join
      exhausted_fails f none s s' c e next = rw (next, join) refl
      exhausted_fails f (some l) s s' c e next =
          subst
            (λ k.
              join_loop cond fuel left right leaves k
                (joining cond fuel left right rs sr s (length rs) l) l
              ≡ failed c
                  (joining_with cond fuel left right rs sr s' (length rs) (leaves s (some l))))
            (sym e) (loop_failed cond fuel left right rs sr leaves f s s' l c next)

      exhausted-Ended :
          (f : ℕ) (c : Code) (s : left.State) (row : Option (Row O))
          → fuel ≡ suc f
          → Ended left.get_next_row c s
          → Ended
              (join cond fuel left right leaves)
              c
              (joining_with cond fuel left right rs sr s (length rs) row)
      exhausted-Ended f c s row e ended = λ n.
          Ended-intro (join cond fuel left right leaves)
            (λ p.
              (s : left.State) × (row : Option (Row O)) × (p
                ≡ joining_with cond fuel left right rs sr s (length rs) row)
              × Ended left.get_next_row c s)
            c
            (λ p h.
              let (s0, row0, at, ended0) = h in
              let (s', next, ended') = Ended-next left.get_next_row c s0 ended0 in
              (
                joining_with cond fuel left right rs sr s' (length rs) (leaves s0 row0),
                ap (join cond fuel left right leaves) at ∙ exhausted_fails f row0 s0 s' c e next,
                (s', leaves s0 row0, refl, ended'),
              ))
            n (joining_with cond fuel left right rs sr s (length rs) row) (s, row, refl, ended)

      over_right :
          (rest pre ls : List (Row O)) (l : Row O) (s : left.State) (c : Code) (f : ℕ)
          → rs ≡ pre ++ rest
          → ((f : ℕ) → length ls < f → Yields c (product ls rs) (loop f s (length rs) l))
          → length ls < f
          → length ls < fuel
          → Yields c (joined l rest ++ product ls rs) (loop f s (length pre) l)
      unfolding Yields loop join
      over_right rest pre ls l s c zero split after h hf = absurd (omega arith)
      over_right [] pre ls l s c (suc f) split after h hf =
          let end : length rs ≡ length pre = omega (arith, ap length split, length-append pre []) in
          subst (λ k. Yields c (product ls rs) (loop (suc f) s k l)) end (after (suc f) h)
      over_right (r ∷ rest) pre ls l s c (suc f) split after h hf =
          let more = product ls rs in
          let split' : rs ≡ (pre ++ r ∷ []) ++ rest =
            split ∙ sym (append_assoc pre (r ∷ []) rest) in
          let one : length (pre ++ r ∷ []) ≡ length pre + 1 = length-append pre (r ∷ []) in
          elim (Bool-cases (pass cond l r)) [
            | inl y ↦
                let out : joined l (r ∷ rest) ≡ join_row r l ∷ joined l rest = rw y refl in
                let later : Yields c (joined l rest ++ more) (loop fuel s (length pre + 1) l) =
                  subst (λ k. Yields c (joined l rest ++ more) (loop fuel s k l)) one
                    (over_right rest (pre ++ r ∷ []) ls l s c fuel split' after hf hf) in
                subst (λ (o : List (Row O)). Yields c (o ++ more) (loop (suc f) s (length pre) l))
                  (sym out)
                  (
                    joining cond fuel left right rs sr s (length pre + 1) l,
                    loop_hit cond fuel left right rs sr leaves f pre rest s r l split y,
                    yields-Delivers c (joined l rest ++ more) _ later,
                  )
            | inr nay ↦
                let out : joined l (r ∷ rest) ≡ joined l rest = rw nay refl in
                let later : Yields c (joined l rest ++ more) (loop (suc f) s (length pre + 1) l) =
                  subst (λ k. Yields c (joined l rest ++ more) (loop (suc f) s k l)) one
                    (over_right rest (pre ++ r ∷ []) ls l s c (suc f) split' after h hf) in
                subst (λ (o : List (Row O)). Yields c (o ++ more) (loop (suc f) s (length pre) l))
                  (sym out)
                  (subst (λ result. Yields c (joined l rest ++ more) result)
                    (sym (loop_miss cond fuel left right rs sr leaves f pre rest s r l split nay))
                    later)
          ]

      over_left :
          (ls : List (Row O)) (l : Row O) (s : left.State) (c : Code) (f k : ℕ)
          → fuel ≡ suc k
          → Delivers left.get_next_row c ls s
          → length ls < f
          → length ls < fuel
          → Yields c (product ls rs) (loop f s (length rs) l)
      unfolding Yields loop
      over_left ls l s c zero k e d h hf = absurd (omega arith)
      over_left [] l s c (suc f) k e d h hf =
          let (s', next, ended) = Ended-next left.get_next_row c s d in
          (
            joining_with cond fuel left right rs sr s' (length rs) (leaves s (some l)),
            loop_failed cond fuel left right rs sr leaves f s s' l c next,
            exhausted-Ended k c s' (leaves s (some l)) e ended,
          )
      over_left (l' ∷ ls) l s c (suc f) k e (s', next, d) h hf =
          subst (λ result. Yields c (joined l' rs ++ product ls rs) result)
            (sym (loop_fetched cond fuel left right rs sr leaves f s s' l l' next))
            (over_right rs [] ls l' s' c f refl
              (λ g hg. over_left ls l' s' c g k e d hg (omega arith)) (omega arith) (omega arith))

      -- An operator that has cached the right rows and has no left row yet.
      abbrev pub start : left.State → State cond fuel left right
      start s = ((s, sr), record { right_tables = rs; right_pos = 0; left_row = none })

      -- With a left row, or without right rows, the join ends with the left child.
      pub start-Delivers :
          (ls : List (Row O)) (s : left.State) (c : Code) (k : ℕ)
          → fuel ≡ suc k
          → (ls ≢ []) ⊎ (rs ≡ [])
          → Delivers left.get_next_row c ls s
          → length ls < fuel
          → Delivers (join cond fuel left right leaves) c (product ls rs) (start s)
      unfolding Yields loop join
      start-Delivers [] s c k e (inl some_left) d h = absurd (some_left refl)
      start-Delivers [] s c k e (inr no_right) d h =
          let end : length rs ≡ 0 = ap length no_right in
          subst
            (λ n.
              Ended (join cond fuel left right leaves) c
                (joining_with cond fuel left right rs sr s n none))
            end (exhausted-Ended k c s none e d)
      start-Delivers (l ∷ ls) s c k e given (s', next, d) h =
          let first : join cond fuel left right leaves (start s) ≡ loop fuel s' 0 l =
            rw (join, next) refl in
          yields-Delivers c (joined l rs ++ product ls rs) (start s) (
            subst (λ result. Yields c (joined l rs ++ product ls rs) result) (sym first)
              (over_right rs [] ls l s' c fuel refl
                (λ g hg. over_left ls l s' c g k e d hg (omega arith)) (omega arith) (omega arith)))

      -- The first call fails, and leaves a row in `left_row`: the next calls join it.
      pub start_leaves :
          (s s' : left.State) (c : Code) (l : Row O) (k : ℕ)
          → fuel ≡ suc k
          → left.get_next_row s ≡ failed c s'
          → Ended left.get_next_row c s'
          → leaves s none ≡ some l
          → (p : State cond fuel left right) × (join cond fuel left right leaves (start s)
              ≡ failed c p)
            × Delivers (join cond fuel left right leaves) c (joined l rs) p
      unfolding Yields loop join
      start_leaves s s' c l k e next ended left_row =
          let first : join cond fuel left right leaves (start s)
              ≡ failed c (joining cond fuel left right rs sr s' 0 l) =
            rw (next, join)
              (ap
                (λ (o : Option (Row O)). failed c (joining_with cond fuel left right rs sr s' 0 o))
                left_row) in
          (
            joining cond fuel left right rs sr s' 0 l,
            first,
            subst
                (λ (o : List (Row O)).
                  Delivers (join cond fuel left right leaves) c o
                    (joining cond fuel left right rs sr s' 0 l))
                (append-nil (joined l rs))
                (yields-Delivers c (joined l rs ++ []) (joining cond fuel left right rs sr s' 0 l) (
                  over_right rs [] [] l s' c fuel refl
                    (λ g hg. over_left [] l s' c g k e ended hg (omega (arith, e)))
                    (omega (arith, e)) (omega (arith, e)))),
          )
