-- ===== src/Limit.antt =====
-- sql/limit.cpp: Limit.
use cat_db.Prelude.{
  ℕ, zero, suc, ◌+◌, ◌-◌, ◌%◌, ◌^◌, ◌≤◌, ◌<◌, ◌≡◌, refl, ap, ◌∙◌, ◌⊎◌, inl, inr, Bool, true, false,
  ◌&&◌, List, [], ◌∷◌, Option, some, length, take, take_nil, drop, drop_all, ltb, leb,
  if◌then◌else◌, arith, Bool-cases,
}
use Prim.Native.Nat.{max}
use cat_db.Error.{Code, no_more_rows}
use cat_db.Operator.{
  PhyOperator, Fetch, fetched, failed, Delivers, Ended, Ended-next, Ended-intro, Ended-failed,
  ◌>>=◌,
}
use cat_db.Operator.Until.{until, until_kept, until_passed, until_failed}
use native.Mathlib.Decide.{dec_lt}
use cat_db.Row.{Row}

-- The body of the loop, over `cur_offset`: 32-bit numbers.
limit_body : {O : Type 0} → ℕ → ℕ → Row O → Bool × ℕ
limit_body offset cur r =
    if ltb cur offset then (false, (cur + 1) % 2 ^ 32) else (true, (cur + 1) % 2 ^ 32)

module _ {O : Type 0} (offset cur : ℕ) (r : Row O) (small : cur + 1 < 2 ^ 32) where
  limit_passed : cur < offset → limit_body offset cur r ≡ (false, cur + 1)
  unfolding limit_body
  limit_passed h = ground arith

  limit_kept : offset ≤ cur → limit_body offset cur r ≡ (true, cur + 1)
  unfolding limit_body
  limit_kept h = ground arith

module _ {O : Type 0} (size offset fuel : ℕ) (child : PhyOperator O) where
  -- The child's state and `cur_offset`.
  abbrev pub State : Type 0
  State = child.State × ℕ

  pub open_op : State → Option (Code × State)
  open_op p = child.open_op p.0 >>= λ r. some (r.0, (r.1, p.1))

  pub close : State → Code × State
  close p = let r = child.close p.0 in (r.0, (r.1, p.1))

  pub reset : State → Code × State
  reset p = let r = child.reset p.0 in (r.0, (r.1, 0))

  pub reopen : Row O → State → Option (Code × State)
  reopen row p = child.reopen row p.0 >>= λ r. some (r.0, (r.1, 0))

  pub get_next_row : State → Fetch State (Row O)
  unfolding limit_body
  get_next_row p =
      if ltb offset p.1 && leb size (p.1 - offset)
      then failed no_more_rows p
      else until child.get_next_row (limit_body offset) fuel p.1 p.0

  abbrev pub limit : PhyOperator O
  limit = record {
    State = State;
    open_op = open_op;
    close = close;
    reset = reset;
    reopen = reopen;
    get_next_row = get_next_row;
  }

  -- With all the rows returned that it may, the operator has ended.
  full-Ended :
      (s : child.State) (cur : ℕ)
      → offset < cur
      → size ≤ cur - offset
      → Ended get_next_row no_more_rows (s, cur)
  unfolding get_next_row
  full-Ended s cur h k = λ n.
      Ended-intro get_next_row (λ p. (offset < p.1) × (size ≤ p.1 - offset)) no_more_rows
        (λ p e. (p, ground arith, e)) n (s, cur) (h, k)

  child_call :
      (f : ℕ) (s : child.State) (cur : ℕ) (c : Code)
      → 0 < f
      → f ≡ fuel
      → Ended child.get_next_row c s
      → (p : State) × (get_next_row (s, cur) ≡ failed no_more_rows p)
        × Ended child.get_next_row c p.0
  unfolding get_next_row until
  child_call zero s cur c h e d = absurd (omega arith)
  child_call (suc f) s cur c h e d =
      let (s', y, d') = Ended-next child.get_next_row c s d in
      elim (Bool-cases (ltb offset cur && leb size (cur - offset))) [
        | inl b ↦ ((s, cur), rw b refl, d)
        | inr b ↦ ((s', cur), rw (← e, b, y, until) refl, d')
      ]

  -- So it has over a child that has ended.
  child-Ended :
      (s : child.State) (cur : ℕ) (c : Code)
      → 0 < fuel
      → Ended child.get_next_row c s
      → Ended get_next_row no_more_rows (s, cur)
  child-Ended s cur c h e = λ n.
      Ended-intro get_next_row (λ p. Ended child.get_next_row c p.0) no_more_rows
        (λ p d. child_call fuel p.0 p.1 c h refl d) n (s, cur) e

  one_row :
      (f : ℕ) (s s' : child.State) (cur : ℕ) (r : Row O)
      → 0 < f
      → f ≡ fuel
      → offset ≤ cur
      → cur + 1 < 2 ^ 32
      → (ltb offset cur && leb size (cur - offset)) ≡ false
      → child.get_next_row s ≡ fetched r s'
      → get_next_row (s, cur) ≡ fetched r (s', cur + 1)
  unfolding get_next_row
  one_row zero s s' cur r h e k b n y = absurd (omega arith)
  one_row (suc f) s s' cur r h e k b n y =
      rw (← e, n)
        (until_kept child.get_next_row (limit_body offset) f cur (cur + 1) s s' r y
          (limit_kept offset cur r b k))

  -- Rows behind the offset, `j` of them returned already.
  rest-Delivers :
      (rows : List (Row O)) (s : child.State) (cur j : ℕ) (c : Code)
      → cur ≡ offset + j
      → 0 < j
      → offset + max size 1 < 2 ^ 32
      → j ≤ max size 1
      → length rows < fuel
      → Delivers child.get_next_row c rows s
      → Delivers get_next_row no_more_rows (take (size - j) rows) (s, cur)
  rest-Delivers [] s cur j c e hj hb hk h d =
      rw (take_nil (size - j)) (child-Ended s cur c (omega arith) d)
  rest-Delivers (r ∷ rows) s cur j c e hj hb hk h (s', y, d) = elim (Bool-cases (leb size j)) [
    | inl full ↦
        let none_left : size - j ≡ 0 = ground arith in
        rw none_left (full-Ended s cur (omega arith) (ground arith))
    | inr more ↦
        let one_left : size - j ≡ suc (size - (j + 1)) = ground arith in
        rw one_left (
          (s', cur + 1),
          one_row fuel s s' cur r (omega arith) refl (omega arith) (ground arith) (ground arith) y,
          rest-Delivers rows s' (cur + 1) (j + 1) c (omega arith) (omega arith) hb (ground arith)
              (omega arith) d,
        )
  ]

  -- Rows before the offset.
  skip_rows :
      (rows : List (Row O)) (f : ℕ) (s : child.State) (cur : ℕ) (c : Code)
      → cur ≤ offset
      → offset + max size 1 < 2 ^ 32
      → length rows < f
      → Delivers child.get_next_row c rows s
      → ((s' : child.State) × (cur' : ℕ) × (until child.get_next_row (limit_body offset) f cur s
            ≡ failed no_more_rows (s', cur'))
          × Ended child.get_next_row c s'
          × (drop (offset - cur) rows ≡ []))
        ⊎ ((r : Row O) × (rest : List (Row O)) × (s' : child.State) × (until child.get_next_row
                (limit_body offset)
                f
                cur
                s
              ≡ fetched r (s', offset + 1))
            × Delivers child.get_next_row c rest s'
            × (drop (offset - cur) rows ≡ r ∷ rest)
            × (length rest < length rows))
  skip_rows rows zero s cur c hc hb h d = absurd (omega arith)
  skip_rows [] (suc f) s cur c hc hb h d =
      let (s', e, d') = Ended-next child.get_next_row c s d in
      inl (
        s',
        cur,
        until_failed child.get_next_row (limit_body offset) f cur s s' c e,
        d',
        drop_all (offset - cur) [] (omega arith),
      )
  skip_rows (r ∷ rows) (suc f) s cur c hc hb h (s', e, d) = elim (dec_lt cur offset) [
    | no y ↦
        let here : offset - cur ≡ 0 = omega arith in
        let same : cur ≡ offset = omega arith in
        inr (
          r,
          rows,
          s',
          until_kept child.get_next_row (limit_body offset) f cur (offset + 1) s s' r e (
              limit_kept offset cur r (omega arith) (omega arith)
              ∙ ap (λ (n : ℕ). let p : Bool × ℕ = (true, n + 1) in p) same),
          d,
          rw here refl,
          omega arith,
        )
    | yes y ↦
        let less : offset - cur ≡ suc (offset - (cur + 1)) = omega arith in
        let step =
          until_passed child.get_next_row (limit_body offset) f cur (cur + 1) s s' r e
            (limit_passed offset cur r (omega arith) y) in
        elim (skip_rows rows f s' (cur + 1) c (omega arith) hb (omega arith) d) [
          | inl (q, cur', run, ended, nothing) ↦ inl (q, cur', step ∙ run, ended, rw less nothing)
          | inr (x, rest, q, run, del, found, shorter) ↦
              inr (x, rest, q, step ∙ run, del, rw less found, omega arith)
        ]
  ]

  first_call :
      (s : child.State)
      → get_next_row (s, 0) ≡ until child.get_next_row (limit_body offset) fuel 0 s
  unfolding get_next_row
  first_call s = ground arith

  -- From the start, Limit passes over `offset` rows of the child and delivers the next `size`, but
  -- one row where `size` is 0.
  pub limit-Delivers :
      (rows : List (Row O)) (s : child.State) (c : Code)
      → offset + max size 1 < 2 ^ 32
      → length rows < fuel
      → Delivers child.get_next_row c rows s
      → Delivers get_next_row no_more_rows (take (max size 1) (drop offset rows)) (s, 0)
  limit-Delivers rows s c hb h d =
      let start = first_call s in
      let whole : offset ≡ offset - 0 = omega arith in
      let here : drop offset rows ≡ drop (offset - 0) rows = ap (λ (n : ℕ). drop n rows) whole in
      elim (skip_rows rows fuel s 0 c (omega arith) hb h d) [
        | inl (s', cur, run, ended, nothing) ↦
            let none_left : take (max size 1) (drop offset rows) ≡ [] =
              ap (take (max size 1)) (here ∙ nothing) ∙ take_nil (max size 1) in
            rw none_left (
              Ended-failed get_next_row no_more_rows (s, 0) (s', cur) (start ∙ run)
                (child-Ended s' cur c (omega arith) ended))
        | inr (r, rest, s', run, del, found, shorter) ↦
            let one : max size 1 ≡ suc (size - 1) = omega arith in
            let rows_left : take (max size 1) (drop offset rows) ≡ r ∷ take (size - 1) rest =
              ap (λ (n : ℕ). take n (drop offset rows)) one
              ∙ ap (take (suc (size - 1))) (here ∙ found) in
            rw rows_left (
              (s', offset + 1),
              start ∙ run,
              rest-Delivers rest s' (offset + 1) 1 c refl (omega arith) hb (omega arith)
                  (omega arith) del,
            )
      ]
