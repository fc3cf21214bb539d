-- ===== src/Operator/Drain.antt =====
-- The loop `while (child->get_next_row(row) == SUCCESS) { … }` that reads a child to its end, with
-- `step` for its body, as the operators that build a table in `open` run it.
use cat_db.Prelude.{ℕ, zero, suc, ◌<◌, ◌≡◌, List, [], ◌∷◌, Option, none, some, arith, length}
use cat_db.Error.{Code}
use cat_db.Operator.{Fetch, fetched, failed, running, Ended, Delivers, Ended-next}

-- A fold in the order of the list.
unfoldable pub fold : {T R : Type 0} → (T → R → T) → T → List R → T
fold step t [] = t
fold step t (r ∷ rows) = fold step (step t r) rows

module _ {S T R : Type 0} (next : S → Fetch S R) (step : T → R → T) where
  unfoldable pub drain : ℕ → T → S → Option (S × T)
  drain zero t s = none
  drain (suc f) t s = elim (next s) [
    | failed c s' ↦ some (s', t)
    | running s' ↦ none
    | fetched r s' ↦ drain f (step t r) s'
  ]

  -- With more fuel than there are rows, the loop folds them all and leaves the child ended.
  pub drain-fold :
      (f : ℕ) (t : T) (s : S) (c : Code) (rows : List R)
      → Delivers next c rows s
      → length rows < f
      → (s' : S) × (drain f t s ≡ some (s', fold step t rows)) × Ended next c s'
  unfolding drain fold
  drain-fold zero t s c rows d h = absurd (omega arith)
  drain-fold (suc f) t s c [] d h =
      let (s', e, d') = Ended-next next c s d in (s', rw (e, drain), d')
  drain-fold (suc f) t s c (r ∷ rows) (s', e, d) h =
      let (s'', e', d') = drain-fold f (step t r) s' c rows d (omega arith) in
      (s'', rw (e, drain) e', d')
