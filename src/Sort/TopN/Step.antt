-- ===== src/Sort/TopN/Step.antt =====
-- The loop of TopNSort::sort_rows of sql/sort.cpp: its rows, and those that it has dropped.
use cat_db.Prelude.{
  ℕ, ◌-◌, ◌≤◌, ◌<◌, ◌≡◌, ◌≢◌, refl, sym, ◌∙◌, ap, subst, ◌⊎◌, inl, inr, Bool, true, false, List, [],
  ◌∷◌, ◌++◌, if◌then◌else◌, ◌==◌, length, get_or, set, arith, Bool-cases, length-append,
  set-append_length,
}
use mathlib.Core.List.{append_assoc, append-nil, Perm, perm_middle, perm_append_singleton}
use mathlib.Core.List.Perm
use cat_db.Object.{ObjectClass}
use cat_db.Operator.Drain.{fold}
use cat_db.Relation.{AllOf}
use cat_db.Row.{Row}
use cat_db.Sort.{no_row}
use cat_db.Sort.Order.{IsStrictWeak}
use cat_db.Sort.Perms.{AllOf-append, AllOf-Perm, length-Perm}
use cat_db.Sort.TopN.{StdHeap, topn_step, replace_top}
use cat_db.Sort.TopN.Kept.{
  IsHeap, IsBehind, AllOf-IsBehind-Perm, IsBehind-trans, AllOf-IsBehind-replaced,
}

-- `rows` are kept of the rows seen, and the others come before none of them; a heap is there when it is full.
pub record IsKept {R : Type 0} (topn : ℕ) (Q Heaped : List R → Type 0) (lt : R → R → Bool)
    (seen rows : List R) (have_make_heap : Bool) : Type 0 where
  pub dropped : List R
  pub perm : Perm seen (rows ++ dropped)
  pub behind : AllOf (IsBehind lt rows) dropped
  pub valid : Q rows
  pub valid_dropped : Q dropped
  pub within : length rows ≤ topn
  pub full : (dropped ≡ []) ⊎ (length rows ≡ topn)
  pub heaped : have_make_heap ≡ true → (length rows ≡ topn) × Heaped rows

module _ {O : Type 0} ⦃class : ObjectClass O⦄ (heap : StdHeap (Row O)) (topn : ℕ)
    (lt behind : Row O → Row O → Bool) (Q : Row O → Type 0) (prop : (r : Row O) → IsProp (Q r))
    (sw : IsStrictWeak Q lt) (is_heap : IsHeap heap Q lt)
    (turned : (a b : Row O) → Q a → Q b → behind a b ≡ lt b a) where
  abbrev Kept : List (Row O) → List (Row O) → Bool → Type 0
  Kept = IsKept topn (AllOf Q) is_heap.Heaped lt

  replace_top-perm :
      (h row : Row O) (ks : List (Row O))
      → is_heap.Heaped (h ∷ ks)
      → Q row
      → AllOf Q ks
      → Perm (row ∷ ks) (replace_top heap lt (h ∷ ks) row)
        × is_heap.Heaped (replace_top heap lt (h ∷ ks) row)
  unfolding replace_top
  replace_top-perm h row ks hp qr qk =
      let (rest, e, p, hr) = is_heap.popped h ks hp in
      let q_rest = AllOf-Perm Q prop p qk in
      let (p', hp') = is_heap.pushed rest row hr (AllOf-append Q rest (row ∷ []) q_rest (qr, tt)) in
      let size : length (rest ++ h ∷ []) - 1 ≡ length rest =
        omega (arith, length-append rest (h ∷ [])) in
      let turn : replace_top heap lt (h ∷ ks) row ≡ heap.push_heap lt (rest ++ row ∷ []) =
        ap (λ l. heap.push_heap lt (set l (length l - 1) row)) e
        ∙ ap (λ i. heap.push_heap lt (set (rest ++ h ∷ []) i row)) size
        ∙ ap (heap.push_heap lt) (set-append_length rest [] h row) in
      subst (λ l. Perm (row ∷ ks) l × is_heap.Heaped l) (sym turn)
        (Perm.trans (Perm.cons row p) p', hp')

  -- With a full heap, the new row or the first one is dropped.
  full_step :
      (seen rows dropped : List (Row O)) (row : Row O)
      → 0 < topn
      → Perm seen (rows ++ dropped)
      → AllOf (IsBehind lt rows) dropped
      → AllOf Q rows
      → AllOf Q dropped
      → length rows ≡ topn
      → is_heap.Heaped rows
      → Q row
      → Kept
          (seen ++ row ∷ [])
          (if behind row (get_or rows 0 no_row) then rows else replace_top heap lt rows row)
          true
  full_step seen [] dropped row pos p b q qd size hp qr = absurd (omega (arith, size))
  full_step seen (h ∷ ks) dropped row pos p b q qd size hp qr = elim (Bool-cases (behind row h)) [
    | inl t ↦
        let after : lt row h ≡ false = sw.asym h row q.0 qr (sym (turned row h qr q.0) ∙ t) in
        let row_behind = IsBehind-trans lt Q sw row h ks qr q.0 q.1 after (is_heap.top h ks hp) in
        rw t (record {
          dropped = row ∷ dropped;
          perm =
              Perm.trans (perm_append_singleton row seen)
                (Perm.trans (Perm.cons row p) (Perm.symm (perm_middle (h ∷ ks) dropped)));
          behind = ((after, row_behind), b);
          valid = q;
          valid_dropped = (qr, qd);
          within = omega (arith, size);
          full = inr size;
          heaped = λ _. (size, hp);
        })
    | inr f ↦
        let before_h : lt h row ≡ false = sym (turned row h qr q.0) ∙ f in
        let (p', hp') = replace_top-perm h row ks hp qr q.1 in
        let size' = sym (length-Perm p') ∙ size in
        let row_behind : AllOf (IsBehind lt (row ∷ ks)) (h ∷ dropped) = (
          (before_h, is_heap.top h ks hp),
          AllOf-IsBehind-replaced lt Q sw h row ks dropped q.0 qr qd before_h b,
        ) in
        rw f (record {
          dropped = h ∷ dropped;
          perm = Perm.trans (perm_append_singleton row seen) (
              Perm.trans (Perm.cons row (Perm.trans p (Perm.symm (perm_middle ks dropped))))
                (Perm.append_right (h ∷ dropped) p'));
          behind = AllOf-IsBehind-Perm lt p' (h ∷ dropped) row_behind;
          valid = AllOf-Perm Q prop p' (qr, q.1);
          valid_dropped = (q.0, qd);
          within = omega (arith, size');
          full = inr size';
          heaped = λ _. (size', hp');
        })
  ]

  -- The heap that the loop works on: the one that is there, or the one that is made of the rows.
  heap_rows :
      (seen rows : List (Row O)) (made : Bool) (k : Kept seen rows made)
      → length rows ≡ topn
      → Perm rows (if made then rows else heap.make_heap lt rows)
        × is_heap.Heaped (if made then rows else heap.make_heap lt rows)
  heap_rows seen rows true k size = (Perm.rfl, (k.heaped refl).1)
  heap_rows seen rows false k size = is_heap.made rows k.valid

  pub topn_step-IsKept :
      (seen rows : List (Row O)) (made : Bool) (row : Row O)
      → 0 < topn
      → Q row
      → Kept seen rows made
      → Kept
          (seen ++ row ∷ [])
          (topn_step heap topn lt behind (rows, made) row).0
          (topn_step heap topn lt behind (rows, made) row).1
  unfolding topn_step
  topn_step-IsKept seen rows made row pos qr k = elim (Bool-cases (length rows == topn)) [
    | inl t ↦
        let size : length rows ≡ topn = ground (arith, t) in
        let rows' = if made then rows else heap.make_heap lt rows in
        let (p, hp) = heap_rows seen rows made k size in
        rw t (
          full_step seen rows' k.dropped row pos (Perm.trans k.perm (Perm.append_right k.dropped p))
            (AllOf-IsBehind-Perm lt p k.dropped k.behind) (AllOf-Perm Q prop p k.valid)
            k.valid_dropped (sym (length-Perm p) ∙ size) hp qr)
    | inr f ↦
        let short : length rows ≢ topn = ground (arith, f) in
        let grown = length-append rows (row ∷ []) in
        let none_dropped : k.dropped ≡ [] = elim k.full [ inl e ↦ e | inr e ↦ absurd (short e) ] in
        rw f (record {
          dropped = [];
          perm =
              rw append-nil
                (Perm.append_right (row ∷ []) (seen_kept seen rows made k none_dropped));
          behind = tt;
          valid = AllOf-append Q rows (row ∷ []) k.valid (qr, tt);
          valid_dropped = tt;
          within = omega (arith, grown, short, k.within);
          full = inl refl;
          heaped = λ m. absurd (short (k.heaped m).0);
        })
  ]
    where
      seen_kept :
          (seen rows : List (Row O)) (made : Bool) (k : Kept seen rows made)
          → k.dropped ≡ []
          → Perm seen rows
      seen_kept seen rows made k e =
          subst (λ l. Perm seen l) (ap (λ d. rows ++ d) e ∙ append-nil rows) k.perm

  pub fold-IsKept :
      (rest seen rows : List (Row O)) (made : Bool)
      → 0 < topn
      → AllOf Q rest
      → Kept seen rows made
      → Kept
          (seen ++ rest)
          (fold (topn_step heap topn lt behind) (rows, made) rest).0
          (fold (topn_step heap topn lt behind) (rows, made) rest).1
  unfolding fold
  fold-IsKept [] seen rows made pos q k = rw append-nil k
  fold-IsKept (row ∷ rest) seen rows made pos q k =
      let st = topn_step heap topn lt behind (rows, made) row in
      subst
        (λ l.
          Kept l (fold (topn_step heap topn lt behind) st rest).0
            (fold (topn_step heap topn lt behind) st rest).1)
        (append_assoc seen (row ∷ []) rest)
        (fold-IsKept rest (seen ++ row ∷ []) st.0 st.1 pos q.1
          (topn_step-IsKept seen rows made row pos q.0 k))

  -- Over rows of a child, from no row: what is kept is `topn` of the rows, or all of them.
  pub fold-nothing :
      (rest : List (Row O))
      → 0 < topn
      → AllOf Q rest
      → Kept rest
          (fold (topn_step heap topn lt behind) ([], false) rest).0
          (fold (topn_step heap topn lt behind) ([], false) rest).1
  fold-nothing rest pos q = fold-IsKept rest [] [] false pos q (record {
    dropped = [];
    perm = Perm.rfl;
    behind = tt;
    valid = tt;
    valid_dropped = tt;
    within = omega arith;
    full = inl refl;
    heaped = λ m. cc;
  })
