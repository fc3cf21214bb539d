-- ===== src/Operator/Both.antt =====
-- Two such loops one after the other in one `get_next_row`, as in HashUnion and UnionAll: the right
-- child first, and the left one when the right one has no more.
use cat_db.Prelude.{
  ℕ, zero, suc, ◌+◌, ◌<◌, ◌≡◌, ap, sym, ◌∙◌, inl, inr, Bool, List, [], ◌∷◌, ◌++◌, arith, length,
}
use mathlib.Core.List.{append-nil}
use cat_db.Error.{Code, no_more_rows}
use cat_db.Operator.{Fetch, fetched, failed, running, Ended, Delivers, Ended-failed, Ended-intro}
use cat_db.Operator.Until.{until, select, until_lem}

module _ {L S T R : Type 0} (left : L → Fetch L R) (right : S → Fetch S R)
    (body : T → R → Bool × T) where
  -- The states of the children, and what the operator keeps.
  unfoldable pub both : ℕ → (L × S) × T → Fetch ((L × S) × T) R
  both f p = elim (until right body f p.1 p.0.1) [
    | fetched r q ↦ fetched r ((p.0.0, q.0), q.1)
    | running q ↦ running ((p.0.0, q.0), q.1)
    | failed c q ↦ elim (until left body f q.1 p.0.0) [
      | fetched r q' ↦ fetched r ((q'.0, q.0), q'.1)
      | running q' ↦ running ((q'.0, q.0), q'.1)
      | failed c' q' ↦ failed no_more_rows ((q'.0, q.0), q'.1)
    ]
  ]

  both_no_more :
      (f : ℕ) (p : (L × S) × T) (c d : Code)
      → 0 < f
      → Ended left c p.0.0 × Ended right d p.0.1
      → (p' : (L × S) × T) × (both f p ≡ failed no_more_rows p')
        × (Ended left c p'.0.0 × Ended right d p'.0.1)
  unfolding both
  both_no_more f p c d h e = elim (until_lem right body f p.1 p.0.1 d [] e.1 h) [
    | inr m ↦ absurd (omega (arith, m.shorter))
    | inl m ↦ elim (until_lem left body f m.kept p.0.0 c [] e.0 h) [
      | inr n ↦ absurd (omega (arith, n.shorter))
      | inl n ↦ (
        ((n.child, m.child), n.kept),
        rw (m.fails, both) (rw (n.fails, both)),
        (n.ended, m.ended),
      )
    ]
  ]

  both-Ended :
      (f : ℕ) (p : (L × S) × T) (c d : Code)
      → 0 < f
      → Ended left c p.0.0
      → Ended right d p.0.1
      → Ended (both f) no_more_rows p
  both-Ended f p c d h el er n =
      Ended-intro (both f) (λ q. Ended left c q.0.0 × Ended right d q.0.1) no_more_rows
        (λ q e. both_no_more f q c d h e) n p (el, er)

  both_bounded :
      (k f : ℕ) (p : (L × S) × T) (c d : Code) (ls rs : List R)
      → length ls + length rs < k
      → length ls < f
      → length rs < f
      → Delivers left c ls p.0.0
      → Delivers right d rs p.0.1
      → Delivers (both f) no_more_rows (select body p.1 (rs ++ ls)) p
  unfolding both select
  both_bounded zero f p c d ls rs hk hl hr dl dr = absurd (omega arith)
  both_bounded (suc k) f p c d ls rs hk hl hr dl dr =
      elim (until_lem right body f p.1 p.0.1 d rs dr hr) [
        | inr m ↦ rw (m.selects ls) (
          ((p.0.0, m.child), m.kept),
          rw (m.returns, both),
          both_bounded k f ((p.0.0, m.child), m.kept) c d ls m.rest (omega (arith, m.shorter)) hl
              (omega (arith, m.shorter)) dl m.delivers,
        )
        | inl m ↦ elim (until_lem left body f m.kept p.0.0 c ls dl hl) [
          | inl n ↦
              let nothing : select body p.1 (rs ++ ls) ≡ [] =
                m.skips ls ∙ ap (select body m.kept) (sym (append-nil ls)) ∙ n.skips [] in
              rw nothing (
                Ended-failed (both f) no_more_rows p ((n.child, m.child), n.kept)
                  (rw (m.fails, both) (rw (n.fails, both)))
                  (both-Ended f ((n.child, m.child), n.kept) c d (omega arith) n.ended m.ended))
          | inr n ↦
              let found : select body p.1 (rs ++ ls) ≡ n.row ∷ select body n.kept n.rest =
                m.skips ls
                ∙ ap (select body m.kept) (sym (append-nil ls))
                ∙ n.selects []
                ∙ ap (λ (l : List R). n.row ∷ select body n.kept l) (append-nil n.rest) in
              rw found (
                ((n.child, m.child), n.kept),
                rw (m.fails, both) (rw (n.returns, both)),
                both_bounded k f ((n.child, m.child), n.kept) c d n.rest []
                    (omega (arith, n.shorter)) (omega (arith, n.shorter)) (omega arith) n.delivers
                    m.ended,
              )
        ]
      ]

  -- The operator delivers what the body selects of the right rows followed by the left rows.
  pub both-Delivers :
      (f : ℕ) (p : (L × S) × T) (c d : Code) (ls rs : List R)
      → length ls < f
      → length rs < f
      → Delivers left c ls p.0.0
      → Delivers right d rs p.0.1
      → Delivers (both f) no_more_rows (select body p.1 (rs ++ ls)) p
  both-Delivers f p c d ls rs hl hr dl dr =
      both_bounded (suc (length ls + length rs)) f p c d ls rs (omega arith) hl hr dl dr
