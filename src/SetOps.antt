-- ===== src/SetOps.antt =====
-- sql/hash_set.cpp: HashUnion, HashIntersect, HashExcept and UnionAll; here what they share.
pub mod Union
pub mod All
pub mod Intersect
pub mod Except
use cat_db.Prelude.{ℕ, Option, none, some, if◌then◌else◌}
use cat_db.Error.{Code, success, is_success}
use cat_db.Operator.{PhyOperator, ◌>>=◌}
use cat_db.Row.{Row}

-- The code of two calls that are both made: the first failure.
abbrev pub first_error : Code → Code → Code
first_error ret1 ret2 =
    if is_success ret1 then (if is_success ret2 then success else ret2) else ret1

module _ {O : Type 0} (left right : PhyOperator O) where
  -- `close` and `reset` of all four: the left child and then the right one.
  unfoldable pub close_both : left.State × right.State → Code × (left.State × right.State)
  close_both p =
      let l = left.close p.0 in let r = right.close p.1 in (first_error l.0 r.0, (l.1, r.1))

  unfoldable pub reset_both : left.State × right.State → Code × (left.State × right.State)
  reset_both p =
      let l = left.reset p.0 in let r = right.reset p.1 in (first_error l.0 r.0, (l.1, r.1))

  -- `reopen`, with the codes of the two children.
  unfoldable pub reopen_both :
      Row O → left.State × right.State → Option (Code × Code × (left.State × right.State))
  reopen_both row p =
      left.reopen row p.0 >>= λ l. right.reopen row p.1 >>= λ r. some (l.0, r.0, (l.1, r.1))

  -- `open` of HashUnion and UnionAll: the right child first, the left one if that succeeds.
  unfoldable pub open_both : left.State × right.State → Option (Code × (left.State × right.State))
  open_both p = right.open_op p.1 >>= λ r.
      let rest = left.open_op p.0 >>= λ l. some (l.0, (l.1, r.1)) in
      if is_success r.0 then rest else some (r.0, (p.0, r.1))
