-- ===== src/SetOps/Intersect.antt =====
-- sql/hash_set.cpp: HashIntersect.
use cat_db.Prelude.{
  ℕ, Bool, true, false, inl, inr, Bool-cases, arith, ◌++◌, ◌<◌, ◌≡◌, ap, sym, ◌∙◌, subst, List, [],
  ◌∷◌, Option, some, length, if◌then◌else◌,
}
use cat_db.Error.{Code, success, no_more_rows, is_success}
use cat_db.HashTable.{HashTable, StdHash, clear, build, probe}
use cat_db.HashTable.Dedup.{
  dedup_body, build_new, IsFresh, fold-build_new, probe-seen, dedup_old, dedup_new,
}
use cat_db.HashTable.Probe.{matches, any_matches, build_all}
use cat_db.Object.{ObjectClass}
use cat_db.Operator.{PhyOperator, Fetch, Delivers, ◌>>=◌}
use cat_db.Operator.Drain.{drain, drain-fold}
use cat_db.Operator.Until.{
  select, select_nil, select_kept, select_passed, until_next, until-Delivers,
}
use cat_db.Operator.Frame.{on_left, on_left-Delivers}
use cat_db.Relation.{unique, meets, keep, unique_nil, unique_old, unique_new}
use cat_db.Row.{Row}
use cat_db.SetOps.{close_both, reset_both, reopen_both, first_error}

module _ {O : Type 0} ⦃class : ObjectClass O⦄ ⦃std : StdHash⦄ where
  -- The loop of `get_next_row` over `hash_table` and `hash_distinct`.
  intersect_body : HashTable O × HashTable O → Row O → Bool × (HashTable O × HashTable O)
  intersect_body (t, d) r =
      if is_success (probe t r)
      then (if is_success (probe d r) then (false, (t, d)) else (true, (t, build d r)))
      else (false, (t, d))

  -- A row that the right table finds goes through HashDistinct's body, any other is passed over.
  intersect_dedup :
      (t d : HashTable O) (r : Row O)
      → intersect_body (t, d) r ≡ (
          if is_success (probe t r)
          then ((dedup_body d r).0, (t, (dedup_body d r).1))
          else (false, (t, d)))
  unfolding intersect_body dedup_body
  intersect_dedup t d r = ground arith

module _ {O : Type 0} ⦃class : ObjectClass O⦄ ⦃std : StdHash⦄ (fuel : ℕ)
    (left right : PhyOperator O) where
  abbrev pub State : Type 0
  State = (left.State × right.State) × (HashTable O × HashTable O)

  -- It reads the right child to its end; `SUCCESS` always.
  build_hash_table : State → Option State
  build_hash_table p = drain right.get_next_row build_new fuel (clear p.1.0) p.0.1 >>= λ r.
      some ((p.0.0, r.0), (r.1, clear p.1.1))

  pub open_op : State → Option (Code × State)
  unfolding build_hash_table
  open_op p = right.open_op p.0.1 >>= λ r.
      let rest = build_hash_table ((p.0.0, r.1), p.1) >>= λ q.
      left.open_op q.0.0 >>= λ l. some (l.0, ((l.1, q.0.1), q.1)) in
      if is_success r.0 then rest else some (r.0, ((p.0.0, r.1), p.1))

  pub close : State → Code × State
  close p = let r = close_both left right p.0 in (r.0, (r.1, p.1))

  pub reset : State → Code × State
  reset p = let r = reset_both left right p.0 in (r.0, (r.1, p.1))

  -- The table is built whatever the children's codes are.
  pub reopen : Row O → State → Option (Code × State)
  unfolding build_hash_table
  reopen row p = reopen_both left right row p.0 >>= λ r.
      build_hash_table (r.2, p.1) >>= λ q. some (first_error r.0 r.1, q)

  pub get_next_row : State → Fetch State (Row O)
  get_next_row p = on_left (until_next left.get_next_row intersect_body fuel) p

  abbrev pub hash_intersect : PhyOperator O
  hash_intersect = record {
    State = State;
    open_op = open_op;
    close = close;
    reset = reset;
    reopen = reopen;
    get_next_row = get_next_row;
  }

  module _ (t d : HashTable O) (fresh : IsFresh t) (fresh' : IsFresh d) where
    module _ (kept seen : List (Row O)) (r : Row O) where
      body_away :
          any_matches t kept r ≡ false
          → intersect_body (build_all t kept, build_all d seen) r
            ≡ (false, (build_all t kept, build_all d seen))
      body_away e = rw (intersect_dedup, probe-seen t kept r fresh, e)

      body_old :
          any_matches t kept r ≡ true
          → any_matches d seen r ≡ true
          → intersect_body (build_all t kept, build_all d seen) r
            ≡ (false, (build_all t kept, build_all d seen))
      body_old e h = rw (intersect_dedup, probe-seen t kept r fresh, e, dedup_old d seen r fresh' h)

      body_new :
          any_matches t kept r ≡ true
          → any_matches d seen r ≡ false
          → intersect_body (build_all t kept, build_all d seen) r
            ≡ (true, (build_all t kept, build_all d (seen ++ r ∷ [])))
      body_new e h = rw (intersect_dedup, probe-seen t kept r fresh, e, dedup_new d seen r fresh' h)

    select-intersect :
        (kept seen rows : List (Row O))
        → select intersect_body (build_all t kept, build_all d seen) rows
          ≡ unique (matches d) seen (keep (meets (matches t) kept) rows)
    unfolding keep
    select-intersect kept seen [] = select_nil intersect_body _ ∙ sym (unique_nil (matches d) seen)
    select-intersect kept seen (r ∷ rows) = elim (Bool-cases (any_matches t kept r)) [
      | inr e ↦ rw e (
          select_passed intersect_body _ _ r rows (body_away kept seen r e)
          ∙ select-intersect kept seen rows)
      | inl e ↦ elim (Bool-cases (any_matches d seen r)) [
        | inl h ↦ rw e (
            select_passed intersect_body _ _ r rows (body_old kept seen r e h)
            ∙ select-intersect kept seen rows
            ∙ sym (unique_old (matches d) seen r _ h))
        | inr h ↦ rw e (
            select_kept intersect_body _ _ r rows (body_new kept seen r e h)
            ∙ ap (◌∷◌ r) (select-intersect kept (seen ++ r ∷ []) rows)
            ∙ sym (unique_new (matches d) seen r _ h))
      ]
    ]

    -- `open` over fresh tables reads the right child's rows into one, and then HashIntersect delivers
    -- the rows of the left child that the table finds equal to a row kept of the right child, without
    -- those found equal to one delivered before.
    pub intersect-Delivers :
        (ls rs : List (Row O)) (l l' : left.State) (r r' : right.State) (c e : Code)
        → right.open_op r ≡ some (success, r')
        → left.open_op l ≡ some (success, l')
        → length ls < fuel
        → length rs < fuel
        → Delivers left.get_next_row c ls l'
        → Delivers right.get_next_row e rs r'
        → (st : State) × (open_op ((l, r), (t, d)) ≡ some (success, st))
          × Delivers get_next_row no_more_rows
              (unique (matches d) [] (keep (meets (matches t) (unique (matches t) [] rs)) ls))
              st
    unfolding open_op get_next_row build_all
    intersect-Delivers ls rs l l' r r' c e er el hl hr dl dr =
        let kept = unique (matches t) [] rs in
        let (r'', read, _) = drain-fold right.get_next_row build_new fuel t r' e rs dr hr in
        (
          ((l', r''), (build_all t kept, d)),
          rw (er, ◌>>=◌) (rw (read, ◌>>=◌) (rw (el, ◌>>=◌, fold-build_new t [] rs fresh))),
          on_left-Delivers (until_next left.get_next_row intersect_body fuel) no_more_rows _ l' r''
              (build_all t kept, d)
              (subst
                (λ (out : List (Row O)).
                  Delivers (until_next left.get_next_row intersect_body fuel) no_more_rows out
                    (l', (build_all t kept, d)))
                (select-intersect kept [] ls)
                (until-Delivers left.get_next_row intersect_body fuel (build_all t kept, d) l' c ls
                  hl dl)),
        )
