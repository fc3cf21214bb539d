-- ===== src/Operator/Until.antt =====
-- The loop `while (child->get_next_row(row) == SUCCESS) { … }` that most operators of sql/ run:
-- `body` is its body over what the operator keeps, and says whether the row is returned.
use cat_db.Prelude.{
  ℕ, zero, suc, ◌<◌, ◌≡◌, refl, ap, sym, ◌∙◌, ◌⊎◌, inl, inr, Bool, true, false, List, [], ◌∷◌, ◌++◌,
  arith, length, Bool-cases,
}
use mathlib.Core.List.{append-nil}
use cat_db.Error.{Code, no_more_rows}
use cat_db.Operator.{
  Fetch, fetched, failed, running, Ended, Delivers, Ended-next, Ended-intro, Ended-failed,
}

module _ {S T R : Type 0} (next : S → Fetch S R) (body : T → R → Bool × T) where
  unfoldable pub until : ℕ → T → S → Fetch (S × T) R
  until zero t s = running (s, t)
  until (suc f) t s = elim (next s) [
    | failed c s' ↦ failed no_more_rows (s', t)
    | running s' ↦ running (s', t)
    | fetched r s' ↦ elim ((body t r).0) [
      | true ↦ fetched r (s', (body t r).1)
      | false ↦ until f (body t r).1 s'
    ]
  ]

  pub until_failed :
      (f : ℕ) (t : T) (s s' : S) (c : Code)
      → next s ≡ failed c s'
      → until (suc f) t s ≡ failed no_more_rows (s', t)
  unfolding until
  until_failed f t s s' c e = rw (e, until)

  module _ (f : ℕ) (t t' : T) (s s' : S) (r : R) where
    pub until_kept :
        next s ≡ fetched r s' → body t r ≡ (true, t') → until (suc f) t s ≡ fetched r (s', t')
    unfolding until
    until_kept e b =
        rw (e, until, ap (λ (p : Bool × T). p.0) b)
          (ap (λ (u : T). fetched r (s', u)) (ap (λ (p : Bool × T). p.1) b))

    pub until_passed :
        next s ≡ fetched r s' → body t r ≡ (false, t') → until (suc f) t s ≡ until f t' s'
    unfolding until
    until_passed e b =
        rw (e, until, ap (λ (p : Bool × T). p.0) b)
          (ap (λ (u : T). until f u s') (ap (λ (p : Bool × T). p.1) b))

module _ {T R : Type 0} (body : T → R → Bool × T) where
  -- The rows of a list that the loop returns, call after call.
  unfoldable pub select : T → List R → List R
  select t [] = []
  select t (r ∷ rows) =
      let rest = select (body t r).1 rows in elim ((body t r).0) [ true ↦ r ∷ rest | false ↦ rest ]

  pub select_nil : (t : T) → select t [] ≡ []
  unfolding select
  select_nil t = refl

  pub select_kept :
      (t t' : T) (r : R) (rows : List R)
      → body t r ≡ (true, t')
      → select t (r ∷ rows) ≡ r ∷ select t' rows
  unfolding select
  select_kept t t' r rows e =
      rw (ap (λ (p : Bool × T). p.0) e, select)
        (ap (λ (u : T). r ∷ select u rows) (ap (λ (p : Bool × T). p.1) e))

  pub select_passed :
      (t t' : T) (r : R) (rows : List R)
      → body t r ≡ (false, t')
      → select t (r ∷ rows) ≡ select t' rows
  unfolding select
  select_passed t t' r rows e =
      rw (ap (λ (p : Bool × T). p.0) e, select)
        (ap (λ (u : T). select u rows) (ap (λ (p : Bool × T). p.1) e))

module _ {S T R : Type 0} (next : S → Fetch S R) (body : T → R → Bool × T) where
  -- The call has come to the end of the child: all that was left is passed over.
  pub record Missed (c : Code) (t : T) (rows : List R) (result : Fetch (S × T) R) : Type 0 where
    pub child : S
    pub kept : T
    pub fails : result ≡ failed no_more_rows (child, kept)
    pub ended : Ended next c child
    pub skips : (more : List R) → select body t (rows ++ more) ≡ select body kept more

  -- The call returns a row, and leaves the child at the rows behind it.
  pub record Hit (c : Code) (t : T) (rows : List R) (result : Fetch (S × T) R) : Type 0 where
    pub row : R
    pub rest : List R
    pub child : S
    pub kept : T
    pub returns : result ≡ fetched row (child, kept)
    pub delivers : Delivers next c rest child
    pub shorter : length rest < length rows
    pub selects :
        (more : List R) → select body t (rows ++ more) ≡ row ∷ select body kept (rest ++ more)

  -- With more fuel than there are rows left, the loop ends in one of the two ways.
  pub until_lem :
      (f : ℕ) (t : T) (s : S) (c : Code) (rows : List R)
      → Delivers next c rows s
      → length rows < f
      → Missed c t rows (until next body f t s) ⊎ Hit c t rows (until next body f t s)
  unfolding until select
  until_lem zero t s c rows d h = absurd (omega arith)
  until_lem (suc f) t s c [] d h =
      let (s', e, d') = Ended-next next c s d in
      inl (record { child = s'; kept = t; fails = rw (e, until); ended = d'; skips = λ more. refl })
  until_lem (suc f) t s c (r ∷ rows) (s', e, d) h = elim (Bool-cases (body t r).0) [
    | inl y ↦ inr (record {
      row = r;
      rest = rows;
      child = s';
      kept = (body t r).1;
      returns = rw (e, until, y);
      delivers = d;
      shorter = omega arith;
      selects = λ more. rw y;
    })
    | inr y ↦ elim (until_lem f (body t r).1 s' c rows d (omega arith)) [
      | inl m ↦ inl (record {
        child = m.child;
        kept = m.kept;
        fails = rw (e, until, y) m.fails;
        ended = m.ended;
        skips = λ more. rw y (m.skips more);
      })
      | inr m ↦ inr (record {
        row = m.row;
        rest = m.rest;
        child = m.child;
        kept = m.kept;
        returns = rw (e, until, y) m.returns;
        delivers = m.delivers;
        shorter = omega (arith, m.shorter);
        selects = λ more. rw y (m.selects more);
      })
    ]
  ]

  -- `get_next_row` of an operator that is this loop.
  abbrev pub until_next : ℕ → S × T → Fetch (S × T) R
  until_next f p = until next body f p.1 p.0

  until-Ended :
      (f : ℕ) (t : T) (s : S) (c : Code)
      → 0 < f
      → Ended next c s
      → Ended (until_next f) no_more_rows (s, t)
  unfolding until
  until-Ended f t s c h d n =
      Ended-intro (until_next f) (λ p. Ended next c p.0) no_more_rows
        (λ p e. elim (until_lem f p.1 p.0 c [] e h) [
          | inl m ↦ ((m.child, m.kept), m.fails, m.ended)
          | inr m ↦ absurd (omega (arith, m.shorter))
        ])
        n (s, t) d

  -- After a miss the operator has ended, whatever it keeps.
  until_miss-Ended :
      (f : ℕ) (t : T) (s : S) (c : Code) (rows : List R)
      → 0 < f
      → Missed c t rows (until next body f t s)
      → Ended (until_next f) no_more_rows (s, t)
  until_miss-Ended f t s c rows h m =
      Ended-failed (until_next f) no_more_rows (s, t) (m.child, m.kept) m.fails
        (until-Ended f m.kept m.child c h m.ended)

  until_bounded :
      (k f : ℕ) (t : T) (s : S) (c : Code) (rows : List R)
      → length rows < k
      → length rows < f
      → Delivers next c rows s
      → Delivers (until_next f) no_more_rows (select body t rows) (s, t)
  unfolding select
  until_bounded zero f t s c rows hk h d = absurd (omega arith)
  until_bounded (suc k) f t s c rows hk h d = elim (until_lem f t s c rows d h) [
    | inl m ↦
        let nothing : select body t rows ≡ [] =
          ap (select body t) (sym (append-nil rows)) ∙ m.skips [] in
        rw nothing (until_miss-Ended f t s c rows (omega arith) m)
    | inr m ↦
        let found : select body t rows ≡ m.row ∷ select body m.kept m.rest =
          ap (select body t) (sym (append-nil rows))
          ∙ m.selects []
          ∙ ap (λ (l : List R). m.row ∷ select body m.kept l) (append-nil m.rest) in
        rw found (
          (m.child, m.kept),
          m.returns,
          until_bounded k f m.kept m.child c m.rest (omega (arith, m.shorter))
              (omega (arith, m.shorter)) m.delivers,
        )
  ]

  -- An operator that is this loop delivers what the body selects of the child's rows, and then
  -- `NO_MORE_ROWS`, whatever code the child ended with.
  pub until-Delivers :
      (f : ℕ) (t : T) (s : S) (c : Code) (rows : List R)
      → length rows < f
      → Delivers next c rows s
      → Delivers (until_next f) no_more_rows (select body t rows) (s, t)
  until-Delivers f t s c rows h d = until_bounded f f t s c rows h h d
