-- ===== src/Sort/TopN/Rows.antt =====
-- The rows that TopNSort of sql/sort.cpp delivers.
use cat_db.Prelude.{
  ℕ, ◌+◌, ◌≤◌, ◌<◌, ◌≡◌, refl, sym, ◌∙◌, ap, Bool, true, false, List, [], ◌∷◌, ◌++◌, some, leb,
  length, get_or, arith, length-append, get_or-append_length, inl, inr, ◌||◌, ◌⊎◌,
}
use Prim.Native.Nat.{min}
use mathlib.Core.List.{append_assoc, Perm}
use mathlib.Core.List.Perm
use cat_db.Error.{Code, success, no_more_rows}
use cat_db.Expr.{Expression}
use cat_db.Object.{ObjectClass}
use cat_db.Operator.{PhyOperator, Fetch, Delivers, Ended, Ended-intro}
use cat_db.Operator.Drain.{drain-fold, fold}
use cat_db.Relation.{AllOf}
use cat_db.Row.{Row}
use cat_db.Sort.{no_row}
use cat_db.Sort.Order.{AllRanked}
use cat_db.Sort.Perms.{length-Perm}
use cat_db.Sort.Rows.{IsSorted, Sorts}
use cat_db.Sort.TopN.{
  StdHeap, topn_step, topn_before, topn_behind, sort_rows, open_op, get_next_row,
}
use cat_db.Sort.TopN.Kept.{IsHeap, IsBehind, AllOf-IsBehind-Perm}
use cat_db.Sort.TopN.Order.{AllPresent, topn_before-IsStrictWeak, topn_behind-turned}
use cat_db.Sort.TopN.Step.{fold-nothing}

module _ {O : Type 0} ⦃class : ObjectClass O⦄ (heap : StdHeap (Row O)) (topn : ℕ)
    (sort_cols : List (Expression O)) (asc : Bool) (fuel : ℕ) (child : PhyOperator O) where
  abbrev next : child.State × List (Row O) × ℕ → Fetch (child.State × List (Row O) × ℕ) (Row O)
  next = get_next_row heap topn sort_cols asc fuel child

  at_end :
      (rows : List (Row O)) (s : child.State) (pos : ℕ)
      → length rows ≤ pos
      → Ended next no_more_rows (s, rows, pos)
  unfolding get_next_row
  at_end rows s pos over n =
      Ended-intro next (λ p. length p.1 ≤ p.2) no_more_rows
        (λ p h. (
          p,
          (let end : (leb topn p.2 || leb (length p.1) p.2) ≡ true = ground (arith, h) in
              rw end refl),
          h,
        ))
        n (s, rows, pos) over

  rows_from :
      (rest pre rows : List (Row O)) (s : child.State) (pos : ℕ)
      → length rows ≤ topn
      → rows ≡ pre ++ rest
      → pos ≡ length pre
      → Delivers next no_more_rows rest (s, rows, pos)
  unfolding get_next_row
  rows_from [] pre rows s pos le e at =
      at_end rows s pos (omega (arith, ap length e, length-append pre [], at))
  rows_from (r ∷ rest) pre rows s pos le e at =
      let within : (leb topn pos || leb (length rows) pos) ≡ false =
        ground (arith, ap length e, length-append pre (r ∷ rest), at, le) in
      let here : get_or rows pos no_row ≡ r = rw (e, at) (get_or-append_length pre rest r no_row) in
      (
        (s, rows, pos + 1),
        rw (within, here) refl,
        rows_from rest (pre ++ r ∷ []) rows s (pos + 1) le
            (e ∙ sym (append_assoc pre (r ∷ []) rest))
            (omega (arith, length-append pre (r ∷ []), at)),
      )

  -- TopNSort opens, and delivers as many rows as its limit, or all where the child has no more: sorted,
  -- and no row that it drops comes before one that it delivers. The limit is not 0, the values of the
  -- columns are not null and compare like numbers on the rows of the child, the heap and the sort of the
  -- standard library do what is said of them, and there is fuel for a round more than there are rows.
  pub topn_sort-Delivers :
      (Q : Row O → Type 0) (s s' : child.State) (rows old : List (Row O)) (pos : ℕ) (c : Code)
      → ((r : Row O) → IsProp (Q r))
      → IsHeap heap Q (topn_before asc sort_cols)
      → Sorts heap.std_sort
      → AllRanked Q sort_cols
      → AllPresent Q sort_cols
      → AllOf Q rows
      → 0 < topn
      → length rows < fuel
      → child.open_op s ≡ some (success, s')
      → Delivers child.get_next_row c rows s'
      → (t : child.State × List (Row O) × ℕ) × (sorted : List (Row O)) × (dropped : List (Row O))
        × (open_op heap topn sort_cols asc fuel child (s, old, pos) ≡ some (success, t))
        × Delivers next no_more_rows sorted t
        × Perm rows (sorted ++ dropped)
        × IsSorted (topn_before asc sort_cols) sorted
        × AllOf (IsBehind (topn_before asc sort_cols) sorted) dropped
        × (length sorted ≡ min topn (length rows))
  unfolding open_op sort_rows
  topn_sort-Delivers Q s s' rows old pos c prop is_heap sorts ranked present all positive enough
        opened d =
      let lt = topn_before asc sort_cols in
      let step = topn_step heap topn lt (topn_behind asc sort_cols) in
      let (s'', run, ended) =
        drain-fold child.get_next_row step fuel ([], false) s' c rows d enough in
      let weak = topn_before-IsStrictWeak Q asc sort_cols ranked present in
      let kept =
        fold-nothing heap topn lt (topn_behind asc sort_cols) Q prop weak is_heap
          (topn_behind-turned Q asc sort_cols ranked present) rows positive all in
      let held = (fold step ([], false) rows).0 in
      let (perm, order) = sorts Q lt held kept.valid weak in
      let sorted = heap.std_sort lt held in
      (
        (s'', sorted, 0),
        sorted,
        kept.dropped,
        rw (opened, run) refl,
        rows_from sorted [] sorted s'' 0 (omega (arith, length-Perm perm, kept.within)) refl refl,
        Perm.trans kept.perm (Perm.append_right kept.dropped perm),
        order,
        AllOf-IsBehind-Perm lt perm kept.dropped kept.behind,
        size held kept.dropped sorted rows perm kept.perm kept.within kept.full,
      )
    where
      size :
          (held dropped sorted rows : List (Row O))
          → Perm held sorted
          → Perm rows (held ++ dropped)
          → length held ≤ topn
          → (dropped ≡ []) ⊎ (length held ≡ topn)
          → length sorted ≡ min topn (length rows)
      size held dropped sorted rows p p' le (inl e) =
          omega (arith, length-Perm p, length-Perm p', length-append held dropped, ap length e, le)
      size held dropped sorted rows p p' le (inr e) =
          omega (arith, length-Perm p, length-Perm p', length-append held dropped, e)
