-- ===== src/Distinct.antt =====
-- sql/hash_distinct.cpp: HashDistinct.
use cat_db.Prelude.{ℕ, ◌<◌, ◌≡◌, refl, ap, subst, List, [], ◌∷◌, ◌++◌, Option, some, length}
use cat_db.Error.{Code, no_more_rows}
use cat_db.Expr.{Expression}
use cat_db.HashTable.{
  HashTable, StdHash, clear, add_hash_column, add_probe_column, clear_hash_columns,
  clear_probe_columns,
}
use cat_db.HashTable.Dedup.{dedup_body, IsFresh, select-unique}
use cat_db.HashTable.Probe.{matches, build_all, ValuesEqualThemselves, all-matches_self}
use cat_db.Object.{ObjectClass}
use cat_db.Operator.{PhyOperator, Fetch, Delivers, ◌>>=◌}
use cat_db.Operator.Until.{until, until-Delivers}
use cat_db.Relation.{
  AllOf, unique, IsUnique, unique-IsUnique, IsPart, unique-IsPart, Covers, unique-Covers,
  unique_covered,
}
use cat_db.Row.{Row}

add_distinct_columns : {O : Type 0} → HashTable O → List (Expression O) → HashTable O
add_distinct_columns t [] = t
add_distinct_columns t (e ∷ es) = add_distinct_columns (add_probe_column (add_hash_column t e) e) es

pub set_distinct_columns : {O : Type 0} → HashTable O → List (Expression O) → HashTable O
unfolding add_distinct_columns
set_distinct_columns t es = add_distinct_columns (clear_probe_columns (clear_hash_columns t)) es

-- The columns set for DISTINCT are both those hashed and those probed by.
set_distinct_columns_same :
    {O : Type 0} (t : HashTable O) (es : List (Expression O))
    → (set_distinct_columns t es).hash_cols ≡ (set_distinct_columns t es).probe_cols
unfolding set_distinct_columns
set_distinct_columns_same {O} t es = go es (clear_probe_columns (clear_hash_columns t)) refl
  where
    go :
        (es : List (Expression O)) (t : HashTable O)
        → t.hash_cols ≡ t.probe_cols
        → (add_distinct_columns t es).hash_cols ≡ (add_distinct_columns t es).probe_cols
    go [] t e = e
    go (x ∷ es) t e =
        go es (add_probe_column (add_hash_column t x) x)
          (ap (λ (cs : List (Expression O)). cs ++ x ∷ []) e)

module _ {O : Type 0} ⦃class : ObjectClass O⦄ ⦃std : StdHash⦄ (fuel : ℕ)
    (child : PhyOperator O) where
  -- The child's state with the table.
  abbrev pub State : Type 0
  State = child.State × HashTable O

  pub open_op : State → Option (Code × State)
  open_op p = child.open_op p.0 >>= λ r. some (r.0, (r.1, p.1))

  pub close : State → Code × State
  close p = let r = child.close p.0 in (r.0, (r.1, p.1))

  pub reset : State → Code × State
  reset p = let r = child.reset p.0 in (r.0, (r.1, clear p.1))

  pub reopen : Row O → State → Option (Code × State)
  reopen row p = child.reopen row p.0 >>= λ r. some (r.0, (r.1, clear p.1))

  pub get_next_row : State → Fetch State (Row O)
  get_next_row p = until child.get_next_row dedup_body fuel p.1 p.0

  abbrev pub hash_distinct : PhyOperator O
  hash_distinct = record {
    State = State;
    open_op = open_op;
    close = close;
    reset = reset;
    reopen = reopen;
    get_next_row = get_next_row;
  }

  module _ (t : HashTable O) (fresh : IsFresh t) where
    -- Over a table that holds the rows `seen`, HashDistinct delivers the child's rows that are new.
    new_rows-Delivers :
        (seen rows : List (Row O)) (s : child.State) (c : Code)
        → length rows < fuel
        → Delivers child.get_next_row c rows s
        → Delivers get_next_row no_more_rows (unique (matches t) seen rows) (s, build_all t seen)
    unfolding get_next_row
    new_rows-Delivers seen rows s c h d =
        subst (λ (out : List (Row O)). Delivers get_next_row no_more_rows out (s, build_all t seen))
          (select-unique t seen rows fresh)
          (until-Delivers child.get_next_row dedup_body fuel (build_all t seen) s c rows h d)

    -- Over a fresh table, the rows that HashDistinct delivers are the child's, in their order,
    -- without those that the table finds equal to an earlier one: none delivered is found equal to
    -- one delivered before it, and each row of the child is found equal to one that is delivered.
    -- The table hashes and probes by the same columns, and the values by which the child's rows are
    -- compared equal themselves unless they are null; the fuel exceeds the number of rows.
    pub distinct-Delivers :
        (rows : List (Row O)) (s : child.State) (c : Code)
        → length rows < fuel
        → Delivers child.get_next_row c rows s
        → AllOf (ValuesEqualThemselves t.probe_cols) rows
        → t.hash_cols ≡ t.probe_cols
        → (out : List (Row O)) × Delivers get_next_row no_more_rows out (s, t)
          × IsPart out rows
          × IsUnique (matches t) [] out
          × Covers (matches t) out rows
    unfolding build_all
    distinct-Delivers rows s c h d itself same = (
      unique (matches t) [] rows,
      new_rows-Delivers [] rows s c h d,
      unique-IsPart (matches t) [] rows,
      unique-IsUnique (matches t) [] rows,
      unique-Covers (matches t) [] rows (all-matches_self t rows itself same),
    )

    -- `reopen` leaves the table as it is, since `clear` does nothing: if the child, reopened, has only
    -- rows that were delivered before, HashDistinct delivers none of them again.
    pub reopen_starves :
        (seen rows : List (Row O)) (row : Row O) (s s' : child.State) (c d : Code)
        → child.reopen row s ≡ some (c, s')
        → length rows < fuel
        → Delivers child.get_next_row d rows s'
        → Covers (matches t) seen rows
        → (reopen row (s, build_all t seen) ≡ some (c, (s', build_all t seen)))
          × Delivers get_next_row no_more_rows [] (s', build_all t seen)
    unfolding reopen
    reopen_starves seen rows row s s' c d e h del cov = (
      rw e,
      subst (λ (out : List (Row O)). Delivers get_next_row no_more_rows out (s', build_all t seen))
          (unique_covered (matches t) seen rows cov) (new_rows-Delivers seen rows s' d h del),
    )
