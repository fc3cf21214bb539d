-- ===== src/Operator/Frame.antt =====
-- A call of `get_next_row` that reads one child and leaves another one's state alone.
use cat_db.Prelude.{List, [], ◌∷◌}
use cat_db.Error.{Code}
use cat_db.Operator.{Fetch, fetched, failed, running, Ended, Delivers, Ended-next, Ended-intro}

module _ {L S T R : Type 0} (next : L × T → Fetch (L × T) R) where
  unfoldable pub on_left : (L × S) × T → Fetch ((L × S) × T) R
  on_left p = elim (next (p.0.0, p.1)) [
    | fetched r q ↦ fetched r ((q.0, p.0.1), q.1)
    | failed c q ↦ failed c ((q.0, p.0.1), q.1)
    | running q ↦ running ((q.0, p.0.1), q.1)
  ]

  pub on_left-Delivers :
      (c : Code) (rows : List R) (l : L) (s : S) (t : T)
      → Delivers next c rows (l, t)
      → Delivers on_left c rows ((l, s), t)
  unfolding on_left
  on_left-Delivers c [] l s t d = λ n.
      Ended-intro on_left (λ p. Ended next c (p.0.0, p.1)) c
        (λ p e.
          let (q, h, e') = Ended-next next c (p.0.0, p.1) e in
          (((q.0, p.0.1), q.1), rw (h, on_left), e'))
        n ((l, s), t) d
  on_left-Delivers c (r ∷ rows) l s t (q, h, d) =
      (((q.0, s), q.1), rw (h, on_left), on_left-Delivers c rows q.0 s q.1 d)
