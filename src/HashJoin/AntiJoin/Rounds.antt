-- ===== src/HashJoin/AntiJoin/Rounds.antt =====
-- `get_next_row` of HashNullAwareAntiJoin in sql/hash_join.cpp, call after call.
use cat_db.Prelude.{
  ℕ, zero, suc, ◌+◌, ◌-◌, ◌≤◌, ◌<◌, ◌≡◌, refl, sym, ap, ◌∙◌, subst, true, false, List, [], ◌∷◌,
  ◌++◌, length, get_or, arith, ltb, ◌==◌, length-append, get_or-append_length,
}
use native.Mathlib.Decide.{ℕ_discrete}
use mathlib.Core.List.{append_assoc, append-nil}
use cat_db.Error.{no_more_rows}
use cat_db.HashJoin.{no_probe_row}
use cat_db.HashJoin.AntiJoin.{AntiJoin, next_in, rewound}
use cat_db.HashJoin.AntiJoin.Buckets.{chunks, next_from-IsNext, skip_empty-chunks}
use cat_db.HashTable.{HashTable, next_from, begin_bucket}
use cat_db.Object.{ObjectClass}
use cat_db.Operator.{Fetch, fetched, failed, Delivers, Ended, Ended-intro, Yields, Yields-Delivers}
use cat_db.Row.{Row}

module _ {O : Type 0} ⦃class : ObjectClass O⦄ where
  abbrev pub step : AntiJoin O → Fetch (AntiJoin O) (Row O)
  step j = next_in (suc (length j.hash_table.buckets)) j

module _ {O : Type 0} ⦃class : ObjectClass O⦄ (t : HashTable O) where
  abbrev pub at : ℕ → ℕ → AntiJoin O
  at cur pos = record { hash_table = t; cur_bucket = cur; cur_bucket_pos = pos }

  abbrev size : ℕ
  size = length t.buckets

  abbrev from : ℕ → List (Row O)
  from k = chunks t.buckets k (size - k)

  round_end : (n pos : ℕ) → next_in (suc n) (at size pos) ≡ failed no_more_rows (at size pos)
  unfolding next_in
  round_end n pos = let here : (size == size) ≡ true = ground arith in rw here refl

  round_row :
      (n cur : ℕ) (pre rest : List (Row O)) (r : Row O)
      → cur < size
      → get_or t.buckets cur [] ≡ pre ++ r ∷ rest
      → next_in (suc n) (at cur (length pre)) ≡ fetched r (at cur (length pre + 1))
  unfolding next_in
  round_row n cur pre rest r lt e =
      let inside : (cur == size) ≡ false = ground (arith, lt) in
      let more : ltb (length pre) (length (get_or t.buckets cur [])) ≡ true =
        ground (arith, ap length e, length-append pre (r ∷ rest)) in
      let here : get_or (get_or t.buckets cur []) (length pre) no_probe_row ≡ r =
        ap (λ b. get_or b (length pre) no_probe_row) e
        ∙ get_or-append_length pre rest r no_probe_row in
      rw (inside, more, here) refl

  round_next :
      (n cur : ℕ)
      → cur < size
      → next_in (suc n) (at cur (length (get_or t.buckets cur [])))
        ≡ next_in n (at (next_from t.buckets cur (size - cur)).1 0)
  unfolding next_in
  round_next n cur lt =
      let inside : (cur == size) ≡ false = ground (arith, lt) in
      let full : ltb (length (get_or t.buckets cur [])) (length (get_or t.buckets cur [])) ≡ false =
        ground arith in
      rw (inside, full) refl

  end-Ended : (pos : ℕ) → Ended step no_more_rows (at size pos)
  end-Ended pos n =
      Ended-intro step (λ j. j ≡ at size pos) no_more_rows
        (λ j e. (at size pos, ap step e ∙ round_end size pos, refl)) n (at size pos) refl

  -- The rows of a bucket, and then those of the buckets behind it.
  in_bucket :
      (rest pre : List (Row O)) (cur m : ℕ)
      → cur < size
      → get_or t.buckets cur [] ≡ pre ++ rest
      → ((m : ℕ)
          → size - cur < m
          → Yields step no_more_rows
              (from (cur + 1))
              (next_in m (at cur (length (get_or t.buckets cur [])))))
      → size - cur < m
      → Yields step no_more_rows (rest ++ from (cur + 1)) (next_in m (at cur (length pre)))
  in_bucket rest pre cur zero lt e after h = absurd (omega arith)
  in_bucket [] pre cur (suc m) lt e after h =
      subst (λ k. Yields step no_more_rows (from (cur + 1)) (next_in (suc m) (at cur k)))
        (ap length (e ∙ append-nil pre)) (after (suc m) h)
  in_bucket (r ∷ rest) pre cur (suc m) lt e after h =
      let one : length (pre ++ r ∷ []) ≡ length pre + 1 = length-append pre (r ∷ []) in
      let later =
        in_bucket rest (pre ++ r ∷ []) cur (suc size) lt (e ∙ sym (append_assoc pre (r ∷ []) rest))
          after (omega arith) in
      (
        at cur (length pre + 1),
        round_row m cur pre rest r lt e,
        subst (λ k. Delivers step no_more_rows (rest ++ from (cur + 1)) (at cur k)) one
            (Yields-Delivers step no_more_rows (rest ++ from (cur + 1))
              (at cur (length (pre ++ r ∷ []))) later),
      )

  from_size : (cur : ℕ) → cur ≡ size → from cur ≡ []
  from_size cur e =
      let nothing : size - cur ≡ 0 = omega (arith, e) in ap (chunks t.buckets cur) nothing

  from_bucket : (cur : ℕ) → cur < size → from cur ≡ get_or t.buckets cur [] ++ from (cur + 1)
  from_bucket cur lt =
      let one : size - cur ≡ suc (size - (cur + 1)) = omega (arith, lt) in
      ap (chunks t.buckets cur) one

  ended_here :
      (cur m : ℕ)
      → cur ≡ size
      → size - cur < m
      → Yields step no_more_rows (from cur) (next_in m (at cur 0))
  ended_here cur zero e h = absurd (omega (arith, h))
  ended_here cur (suc m) e h =
      subst (λ o. Yields step no_more_rows o (next_in (suc m) (at cur 0))) (sym (from_size cur e))
        (at size 0, ap (λ k. next_in (suc m) (at k 0)) e ∙ round_end m 0, end-Ended 0)

  -- A bucket that is read to its end leads to the next one that has rows.
  after_bucket :
      (cur m : ℕ)
      → cur < size
      → size - cur < m
      → ((j m : ℕ)
          → cur < j
          → j ≤ size
          → size - j < m
          → Yields step no_more_rows (from j) (next_in m (at j 0)))
      → Yields step no_more_rows
          (from (cur + 1))
          (next_in m (at cur (length (get_or t.buckets cur []))))
  after_bucket cur zero lt h later = absurd (omega (arith, h))
  after_bucket cur (suc m) lt h later =
      let one : suc (size - (cur + 1)) ≡ size - cur = omega (arith, lt) in
      let here = next_from-IsNext t.buckets (size - (cur + 1)) cur (omega (arith, lt)) in
      let j = (next_from t.buckets cur (suc (size - (cur + 1)))).1 in
      let turn : next_in (suc m) (at cur (length (get_or t.buckets cur []))) ≡ next_in m (at j 0) =
        round_next m cur lt ∙ ap (λ n. next_in m (at (next_from t.buckets cur n).1 0)) (sym one) in
      let yields =
        later j m here.further here.within (omega (arith, here.further, here.within, h)) in
      subst
        (λ o.
          Yields step no_more_rows o (next_in (suc m) (at cur (length (get_or t.buckets cur [])))))
        (sym here.same) (subst (Yields step no_more_rows (from j)) (sym turn) yields)

  -- From the start of a bucket, with `n` buckets at most to the end.
  from-Yields :
      (n cur m : ℕ)
      → cur ≤ size
      → size - cur ≤ n
      → size - cur < m
      → Yields step no_more_rows (from cur) (next_in m (at cur 0))
  from-Yields zero cur m le bound h = ended_here cur m (omega (arith, le, bound)) h
  from-Yields (suc n) cur m le bound h = elim (ℕ_discrete cur size) [
    | yes e ↦ ended_here cur m e h
    | no ne ↦
        let lt : cur < size = omega (arith, le, ne) in
        subst (λ o. Yields step no_more_rows o (next_in m (at cur 0))) (sym (from_bucket cur lt))
          (in_bucket (get_or t.buckets cur []) [] cur m lt refl
            (λ m' h'. after_bucket cur m' lt h' (λ j k further within enough.
              from-Yields n j k within (omega (arith, further, bound, within)) enough))
            h)
  ]

  -- From the first bucket on, the rows of all buckets are delivered, and then there are no more.
  pub rewound-Delivers :
      (cur pos : ℕ) → Delivers step no_more_rows (chunks t.buckets 0 size) (rewound (at cur pos))
  rewound-Delivers cur pos =
      let (within, same) = skip_empty-chunks t.buckets size 0 (omega arith) in
      let start = begin_bucket t in
      subst (λ o. Delivers step no_more_rows o (at start 0)) (sym same)
        (Yields-Delivers step no_more_rows (from start) (at start 0)
          (from-Yields size start (suc size) within (omega arith) (omega arith)))
