-- ===== src/Tests/Rows.antt =====
-- The theorems on rows at two rows of two tables.
use cat_db.Prelude.{◌≡◌, refl, [], ◌∷◌}
use cat_db.Row.{Row, join_row, get_column, agent_column}
use cat_db.RowDesc.{ColumnDesc}
use cat_db.Row.Column.{agent_column-join}
use cat_db.Row.Join.{IsRow}
use cat_db.Tests.Source.{Cell, null, num, cell_class, row}

abbrev person : Row Cell
person = row 1 (num 7 ∷ null ∷ [])

abbrev city : Row Cell
city = row 2 (num 3 ∷ num 4 ∷ num 5 ∷ [])

person-IsRow : IsRow person
person-IsRow = record { desc = record { desc_length = refl }; cells_length = refl }

city-IsRow : IsRow city
city-IsRow = record { desc = record { desc_length = refl }; cells_length = refl }

abbrev middle : ColumnDesc
middle = record { table_id = 2; column_id = 1; data_type = 0 }

agent_column-join_example :
    agent_column (person ∷ city ∷ []) middle ≡ get_column (join_row person city) middle
agent_column-join_example = agent_column-join person city middle person-IsRow city-IsRow
