-- ===== src/Tests/Joins.antt =====
-- The theorems on the nested loop join at scripted children.
use cat_db.Prelude.{inl, Option, ℕ, not, ◌≡◌, refl, some, none, [], ◌∷◌, List, arith, get_or}
use cat_db.Error.{success, no_more_rows}
use cat_db.Expr.{Expression, agent}
use cat_db.NestedLoop
use cat_db.NestedLoop.Join.{product, joined}
use cat_db.NestedLoop.Open.{join-Delivers, join_leaves-Delivers}
use cat_db.NestedLoop.Semi.{some_true, anti-Delivers, semi_starves}
use cat_db.Relation.{keep}
use cat_db.Operator.{Delivers, failed}
use cat_db.Row.{Row}
use cat_db.Tests.Source.{Cell, null, missing, num, cell_class, row, source, source-Delivers}

abbrev people : List (Row Cell)
people = row 1 (num 1 ∷ num 8 ∷ []) ∷ row 1 (num 2 ∷ num 9 ∷ []) ∷ []

abbrev cities : List (Row Cell)
cities = row 2 (num 9 ∷ []) ∷ row 2 (num 8 ∷ []) ∷ row 2 (num 9 ∷ []) ∷ []

-- Is the right row's first cell the left row's second?
abbrev same_city : Expression Cell
same_city (agent (r ∷ l ∷ [])) =
    cell_class.equal (get_or r.cells 0 missing) (get_or l.cells 1 missing)
same_city _ = null

-- A failing call leaves a row with a city in it, as a table scan leaves the row that it was about to fill.
abbrev blank : Row Cell
blank = row 1 (missing ∷ num 9 ∷ [])

abbrev leaves_blank : List (Row Cell) → Option (Row Cell) → Option (Row Cell)
leaves_blank s o = some blank

join-Delivers_example :
    (st : NestedLoop.State (some same_city) 9 source source) × (NestedLoop.open_op
        (some same_city)
        9
        source
        source
        ((people, cities), record { right_tables = []; right_pos = 0; left_row = none })
      ≡ some (success, st))
    × Delivers
        (NestedLoop.get_next_row
          (some same_city)
          9
          source
          source
          leaves_blank
          NestedLoop.inner_join)
        no_more_rows
        (product (some same_city) people cities)
        st
join-Delivers_example =
    join-Delivers (some same_city) 9 source source leaves_blank people cities people people cities
      cities [] 0 no_more_rows no_more_rows (inl (λ e. cc)) refl refl (omega arith) (omega arith)
      (source-Delivers people) (source-Delivers cities)

-- The right rows cached, at a right position.
abbrev cached : ℕ → NestedLoop.State (some same_city) 9 source source
cached pos = ((people, []), record { right_tables = cities; right_pos = pos; left_row = none })

anti-Delivers_example :
    Delivers
      (NestedLoop.get_next_row
        (some same_city)
        9
        source
        source
        leaves_blank
        NestedLoop.anti_join_type)
      no_more_rows
      (keep (λ l. not (some_true (some same_city) l cities)) people)
      (cached 2)
anti-Delivers_example =
    anti-Delivers (some same_city) 9 source source leaves_blank people cities no_more_rows
      (cached 2) refl (omega arith) (source-Delivers people)

semi_starves_example :
    Delivers
      (NestedLoop.get_next_row
        (some same_city)
        9
        source
        source
        leaves_blank
        NestedLoop.semi_join_type)
      no_more_rows
      []
      (cached 3)
semi_starves_example =
    semi_starves (some same_city) 9 source source leaves_blank people cities no_more_rows (cached 3)
      refl refl (omega arith) (source-Delivers people)

join_leaves-Delivers_example :
    (st p : NestedLoop.State (some same_city) 9 source source) × (NestedLoop.open_op
        (some same_city)
        9
        source
        source
        (([], cities), record { right_tables = []; right_pos = 0; left_row = none })
      ≡ some (success, st))
    × (NestedLoop.get_next_row
          (some same_city)
          9
          source
          source
          leaves_blank
          NestedLoop.inner_join
          st
        ≡ failed no_more_rows p)
    × Delivers
        (NestedLoop.get_next_row
          (some same_city)
          9
          source
          source
          leaves_blank
          NestedLoop.inner_join)
        no_more_rows
        (joined (some same_city) blank cities)
        p
join_leaves-Delivers_example =
    join_leaves-Delivers (some same_city) 9 source source leaves_blank cities [] [] [] cities cities
      [] 0 no_more_rows no_more_rows blank refl refl (omega arith) (source-Delivers cities) refl
      (source-Delivers []) refl
