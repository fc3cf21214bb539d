-- ===== src/Sort/Rows.antt =====
-- The rows that sql/sort.cpp delivers, in their order.
use cat_db.Prelude.{ℕ, ◌≡◌, Bool, false, List, [], ◌∷◌}
use mathlib.Core.List.{Perm}
use cat_db.Expr.{Expression}
use cat_db.Object.{ObjectClass}
use cat_db.Operator.{PhyOperator, Fetch}
use cat_db.Relation.{AllOf}
use cat_db.Row.{Row}
use cat_db.Sort.{get_next_row}
use cat_db.Sort.Order.{IsStrictWeak}

module _ {R : Type 0} where
  -- No row comes before one that stands in front of it.
  abbrev pub IsSorted : (R → R → Bool) → List R → Type 0
  IsSorted lt [] = Unit
  IsSorted lt (r ∷ rows) = AllOf (λ s. lt s r ≡ false) rows × IsSorted lt rows

  -- `std::sort`: by a strict weak order of the rows, it sorts them.
  abbrev pub Sorts : ((R → R → Bool) → List R → List R) → Type 1
  Sorts std_sort =
      (Q : R → Type 0) (lt : R → R → Bool) (rows : List R)
      → AllOf Q rows
      → IsStrictWeak Q lt
      → Perm rows (std_sort lt rows) × IsSorted lt (std_sort lt rows)

module _ {O : Type 0} ⦃class : ObjectClass O⦄
    (std_sort : (Row O → Row O → Bool) → List (Row O) → List (Row O))
    (sort_cols : List (Expression O)) (asc : Bool) (fuel : ℕ) (child : PhyOperator O) where
  abbrev next : child.State × List (Row O) × ℕ → Fetch (child.State × List (Row O) × ℕ) (Row O)
  next = get_next_row std_sort sort_cols asc fuel child
