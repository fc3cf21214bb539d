-- ===== src/Tests/Operators.antt =====
-- The theorems on the operators at scripted children.
use cat_db.Prelude.{refl, ◌≡◌, some, get_or, if◌then◌else◌, List, [], ◌∷◌, ◌++◌, arith, take, drop}
use Prim.Native.Nat.{max}
use cat_db.Distinct
use cat_db.Error.{success, no_more_rows}
use cat_db.Expr.{Expression, plain, agent, passes}
use cat_db.HashTable.{new_table, probe}
use cat_db.HashTable.Probe.{
  matches, any_matches, build_all, probe-build_all, new_table-IsTable, all-matches_self,
  ValuesEqualThemselves,
}
use cat_db.Limit
use cat_db.Operator.{Delivers}
use cat_db.PlanFilter
use cat_db.Relation.{AllOf, unique, unique-Covers, keep, meets, IsPart, IsUnique, Covers}
use cat_db.Row.{Row}
use cat_db.SetOps.Union
use cat_db.SetOps.Intersect
use cat_db.SetOps.Except
use cat_db.SetOps.All
use cat_db.Tests.Source.{
  Cell, missing, null, num, cell_class, identity_hash, cell-EqualsItself, row, source,
  source-Delivers, new_table-IsFresh,
}

abbrev numbers : List (Row Cell)
numbers = row 1 (num 1 ∷ num 5 ∷ []) ∷ row 1 (num 2 ∷ null ∷ []) ∷ row 1 (num 1 ∷ num 5 ∷ []) ∷ []

abbrev more_numbers : List (Row Cell)
more_numbers = row 2 (num 2 ∷ num 7 ∷ []) ∷ row 2 (num 1 ∷ num 5 ∷ []) ∷ []

numbers_equal_themselves : AllOf (ValuesEqualThemselves (new_table {O = Cell} 0).probe_cols) numbers
unfolding new_table
numbers_equal_themselves = (
  λ i lt. cell-EqualsItself _,
  ((λ i lt. cell-EqualsItself _), ((λ i lt. cell-EqualsItself _), tt)),
)

distinct-Delivers_example :
    (out : List (Row Cell)) × Delivers
      (Distinct.get_next_row 9 source)
      no_more_rows
      out
      (numbers, new_table 0)
    × IsPart out numbers
    × IsUnique (matches (new_table 0)) [] out
    × Covers (matches (new_table 0)) out numbers
unfolding new_table
distinct-Delivers_example =
    Distinct.distinct-Delivers 9 source (new_table 0) (new_table-IsFresh 0) numbers numbers
      no_more_rows (omega arith) (source-Delivers numbers) numbers_equal_themselves refl

union-Delivers_example :
    Delivers
      (Union.get_next_row 9 source source)
      no_more_rows
      (unique (matches (new_table 0)) [] (more_numbers ++ numbers))
      ((numbers, more_numbers), new_table 0)
union-Delivers_example =
    Union.union-Delivers 9 source source (new_table 0) numbers more_numbers numbers more_numbers
      no_more_rows no_more_rows (new_table-IsFresh 0) (omega arith) (omega arith)
      (source-Delivers numbers) (source-Delivers more_numbers)

limit-Delivers_example :
    Delivers
      (Limit.get_next_row 2 1 9 source)
      no_more_rows
      (take (max 2 1) (drop 1 numbers))
      (numbers, 0)
limit-Delivers_example =
    Limit.limit-Delivers 2 1 9 source numbers numbers no_more_rows (omega arith) (omega arith)
      (source-Delivers numbers)

intersect-Delivers_example :
    (st : Intersect.State 9 source source) × (Intersect.open_op 9 source source
        ((numbers, more_numbers), (new_table 0, new_table 0))
      ≡ some (success, st))
    × Delivers
        (Intersect.get_next_row 9 source source)
        no_more_rows
        (unique (matches (new_table 0)) [] (
          keep
            (meets (matches (new_table 0)) (unique (matches (new_table 0)) [] more_numbers))
            numbers))
        st
intersect-Delivers_example =
    Intersect.intersect-Delivers 9 source source (new_table 0) (new_table 0) (new_table-IsFresh 0)
      (new_table-IsFresh 0) numbers more_numbers numbers numbers more_numbers more_numbers
      no_more_rows no_more_rows refl refl (omega arith) (omega arith) (source-Delivers numbers)
      (source-Delivers more_numbers)

except-Delivers_example :
    (st : Except.State 9 source source) × (Except.open_op 9 source source
        ((numbers, more_numbers), new_table 0)
      ≡ some (success, st))
    × Delivers
        (Except.get_next_row 9 source source)
        no_more_rows
        (unique (matches (new_table 0)) (unique (matches (new_table 0)) [] more_numbers) numbers)
        st
except-Delivers_example =
    Except.except-Delivers 9 source source (new_table 0) (new_table-IsFresh 0) numbers more_numbers
      numbers numbers more_numbers more_numbers no_more_rows no_more_rows refl refl (omega arith)
      (omega arith) (source-Delivers numbers) (source-Delivers more_numbers)

union_all-Delivers_example :
    Delivers
      (All.get_next_row 9 source source)
      no_more_rows
      (more_numbers ++ numbers)
      ((numbers, more_numbers), tt)
union_all-Delivers_example =
    All.union_all-Delivers 9 source source numbers more_numbers numbers more_numbers no_more_rows
      no_more_rows (omega arith) (omega arith) (source-Delivers numbers)
      (source-Delivers more_numbers)

-- Is the first cell of a plain row a 1?
abbrev first_is_one : Expression Cell
first_is_one (plain r) = cell_class.equal (get_or r.cells 0 missing) (num 1)
first_is_one (agent rs) = null

filter-Delivers_example :
    Delivers
      (PlanFilter.get_next_row (λ r e. e) 9 source)
      no_more_rows
      (keep (λ r. passes (some first_is_one) (plain r)) numbers)
      (numbers, some first_is_one)
filter-Delivers_example =
    PlanFilter.filter-Delivers (λ r e. e) 9 source (some first_is_one) numbers numbers no_more_rows
      (omega arith) (source-Delivers numbers)

probe-build_all_example : probe (build_all (new_table 0) numbers) (row 1 (num 2 ∷ null ∷ [])) ≡ (
    if any_matches (new_table 0) numbers (row 1 (num 2 ∷ null ∷ []))
    then success
    else probe (new_table 0) (row 1 (num 2 ∷ null ∷ [])))
probe-build_all_example =
    probe-build_all (new_table 0) numbers (row 1 (num 2 ∷ null ∷ [])) (new_table-IsTable 0)

abbrev delivered : List (Row Cell)
delivered = unique (matches (new_table 0)) [] numbers

reopen_starves_example :
    (Distinct.reopen 9 source (row 0 []) (numbers, build_all (new_table 0) delivered)
      ≡ some (success, (numbers, build_all (new_table 0) delivered)))
    × Delivers
        (Distinct.get_next_row 9 source)
        no_more_rows
        []
        (numbers, build_all (new_table 0) delivered)
unfolding new_table
reopen_starves_example =
    Distinct.reopen_starves 9 source (new_table 0) (new_table-IsFresh 0) delivered numbers
      (row 0 []) numbers numbers success no_more_rows refl (omega arith) (source-Delivers numbers)
      (unique-Covers (matches (new_table 0)) [] numbers
        (all-matches_self (new_table 0) numbers numbers_equal_themselves refl))
