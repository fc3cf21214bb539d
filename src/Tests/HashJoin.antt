-- ===== src/Tests/HashJoin.antt =====
-- The theorems on the hash join at scripted children.
use cat_db.Prelude.{ℕ, ◌≡◌, refl, ap, true, ◌||◌, List, [], ◌∷◌, some, arith, if◌then◌else◌}
use mathlib.Core.List.{Perm}
use cat_db.Error.{success, no_more_rows, value_or}
use cat_db.Expr.{Expression, agent, plain}
use cat_db.HashJoin
use cat_db.HashJoin.{no_probe_row}
use cat_db.HashJoin.AntiJoin
use cat_db.HashJoin.Rows.{
  IsReady, AllHashedAlike, hash_product, hash_join-Delivers, semi_join-Delivers,
}
use cat_db.HashTable.{HashTable, new_table, slot, probe_holds}
use cat_db.HashTable.Probe.{new_table-IsTable}
use cat_db.HashTable.Stored.{slot-alike, new_table-empty}
use cat_db.NestedLoop.{inner_join, semi_join_type}
use cat_db.Operator.{Delivers, PhyOperator}
use cat_db.Relation.{keep, meets}
use cat_db.Row.{Row, get_column, agent_column}
use cat_db.RowDesc.{find_from}
use cat_db.Tests.Source.{
  Cell, null, missing, num, truth, cell_class, cell_equal, is_null_cell, identity_hash, row, source,
  source-Delivers,
}

abbrev people : List (Row Cell)
people = row 1 (num 1 ∷ num 8 ∷ []) ∷ row 1 (num 2 ∷ num 9 ∷ []) ∷ []

abbrev cities : List (Row Cell)
cities = row 2 (num 9 ∷ []) ∷ row 2 (num 8 ∷ []) ∷ row 2 (num 9 ∷ []) ∷ []

-- `ColumnExpression::get_result`, an error read as a missing cell.
abbrev column : ℕ → ℕ → Expression Cell
column t i (plain r) =
    value_or missing (get_column r (record { table_id = t; column_id = i; data_type = 0 }))
column t i (agent rs) =
    value_or missing (agent_column rs (record { table_id = t; column_id = i; data_type = 0 }))

abbrev home_city : Expression Cell
home_city = column 1 1

abbrev city : Expression Cell
city = column 2 0

-- `OP_EQ` and `OP_ANTI_EQ` of the two columns.
abbrev same_city : Expression Cell
same_city v = cell_equal (home_city v) (city v)

abbrev not_other_city : Expression Cell
not_other_city v =
    if is_null_cell (home_city v) || is_null_cell (city v)
    then truth true
    else cell_equal (home_city v) (city v)

abbrev city_table : Expression Cell → HashTable Cell
city_table condition = record (new_table 0) {
  hash_cols = home_city ∷ [];
  probe_cols = city ∷ [];
  probe_condition = some condition;
}

city_table-IsReady : (condition : Expression Cell) → IsReady (city_table condition)
city_table-IsReady condition = record {
  table = record {
    width = (new_table-IsTable {O = Cell} 0).width;
    positive = (new_table-IsTable {O = Cell} 0).positive;
  };
  empty = new_table-empty 0;
}

slot-same :
    (condition : Expression Cell) (r a : Row Cell)
    → home_city (plain a) ≡ city (plain r)
    → slot (city_table condition) (home_city ∷ []) a ≡ slot (city_table condition) (city ∷ []) r
slot-same condition r a e =
    slot-alike (city_table condition) home_city city [] [] a r (refl, ap cell_class.hash e, tt)

-- Of the people, the first lives in the second city, the second in the first and the third.
cities-AllHashedAlike : AllHashedAlike (city_table same_city) cities people
unfolding probe_holds get_column agent_column find_from
cities-AllHashedAlike = (
  (λ h. absurd cc, (λ h. slot-same same_city _ _ refl, tt)),
  (
    (λ h. slot-same same_city _ _ refl, (λ h. absurd cc, tt)),
    ((λ h. absurd cc, (λ h. slot-same same_city _ _ refl, tt)), tt),
  ),
)

hash_join-Delivers_example :
    (p : HashJoin.State 9 source source) × (HashJoin.open_op 9 source source (
      (people, cities),
      record {
        hash_table = city_table same_city;
        probe_result = [];
        last_probe_row = no_probe_row;
      },
    )
      ≡ some (success, p))
    × Delivers
        (HashJoin.get_next_row 9 source source inner_join)
        no_more_rows
        (hash_product (probe_holds (city_table same_city)) people cities)
        p
hash_join-Delivers_example =
    hash_join-Delivers 9 source source (city_table same_city) (city_table-IsReady same_city) people
      people cities cities people cities no_more_rows no_more_rows (omega arith) (omega arith)
      cities-AllHashedAlike refl refl (source-Delivers people) (source-Delivers cities)

semi_join-Delivers_example :
    (p : HashJoin.State 9 source source) × (out : List (Row Cell)) × (HashJoin.open_op 9 source
        source
        (
          (people, cities),
          record {
            hash_table = city_table same_city;
            probe_result = [];
            last_probe_row = no_probe_row;
          },
        )
      ≡ some (success, p))
    × Delivers (HashJoin.get_next_row 9 source source semi_join_type) no_more_rows out p
    × Perm out (keep (λ l. meets (probe_holds (city_table same_city)) cities l) people)
semi_join-Delivers_example =
    semi_join-Delivers 9 source source (city_table same_city) (city_table-IsReady same_city) people
      people cities cities people cities no_more_rows no_more_rows (omega arith) (omega arith)
      cities-AllHashedAlike refl refl (source-Delivers people) (source-Delivers cities)

-- A child that delivers its rows again after a reset.
abbrev rewinding : List (Row Cell) → PhyOperator Cell
rewinding rows = record source { reset = λ s. (success, rows) }

-- A third one has no city known.
abbrev guests : List (Row Cell)
guests = row 1 (num 3 ∷ null ∷ []) ∷ people
