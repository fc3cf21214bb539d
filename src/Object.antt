-- ===== src/Object.antt =====
-- common/object.h: what the rest of the engine calls of an `Object_s`.
-- The values and their operators are behind this interface; a call through a null pointer is
-- undefined in the source, so nothing is said of the members at `nullptr`.
use cat_db.Prelude.{ℕ, ◌≡◌, Bool, true, false}

pub record ObjectClass (O : Type 0) : Type 0 where
  pub nullptr : O
  pub is_nullptr : O → Bool
  pub make_null_object : O
  -- `get_type() == T_ERROR_RESULT`
  pub is_error : O → Bool
  pub is_null : O → Bool
  pub bool_value : O → Bool
  pub hash : O → ℕ
  -- `operator==` and `operator>`
  pub equal : O → O → O
  pub greater : O → O → O

-- The object compares equal to itself, unless it is null. Not all do: `operator==` of an object without
-- one of its own, such as an error, gives an error.
abbrev pub EqualsItself : {O : Type 0} → ObjectClass O → O → Type 0
EqualsItself class x = class.is_null x ≡ false → class.bool_value (class.equal x x) ≡ true
