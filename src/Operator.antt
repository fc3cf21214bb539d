-- ===== src/Operator.antt =====
-- sql/phy_operator.h: the interface of the physical operators (the Volcano model), and what it means
-- that an operator delivers a list of rows.
pub mod Until
pub mod Both
pub mod Drain
pub mod Frame
use cat_db.Prelude.{ℕ, zero, suc, ◌≡◌, refl, ap, List, [], ◌∷◌, Option, none, some}
use cat_db.Error.{Code}
use cat_db.Row.{Row}

-- A call of `get_next_row(row)`: `SUCCESS` with the row, another code, or a loop that ran out of
-- fuel. What a call that fails leaves in `row` is read by no caller but
-- the nested loop join, where it is a parameter.
pub data Fetch (S R : Type 0) : Type 0 where
  fetched : R → S → Fetch S R
  failed : Code → S → Fetch S R
  running : S → Fetch S R

abbrev pub state_of : {S R : Type 0} → Fetch S R → S
state_of (fetched r s) = s
state_of (failed c s) = s
state_of (running s) = s

pub record PhyOperator (O : Type 0) : Type 1 where
  pub State : Type 0
  -- `none`: a loop in the call ran out of fuel.
  pub open_op : State → Option (Code × State)
  pub close : State → Code × State
  pub reset : State → Code × State
  pub reopen : Row O → State → Option (Code × State)
  pub get_next_row : State → Fetch State (Row O)

infixl 5 ◌>>=◌
abbrev pub ◌>>=◌ {ℓ κ} : {A : Type ℓ} {B : Type κ} → Option A → (A → Option B) → Option B
none >>= f = none
some a >>= f = f a

module _ {S R : Type 0} (next : S → Fetch S R) where
  -- The state after `n` calls.
  pub after : ℕ → S → S
  after zero s = s
  after (suc n) s = after n (state_of (next s))

  -- Every further call fails with `c`.
  abbrev pub Ended : Code → S → Type 0
  Ended c s = (n : ℕ) → (s' : S) × (next (after n s) ≡ failed c s')

  -- The calls return the rows of the list in order, and then fail with `c` for good.
  abbrev pub Delivers : Code → List R → S → Type 0
  Delivers c [] s = Ended c s
  Delivers c (r ∷ rs) s = (s' : S) × (next s ≡ fetched r s') × Delivers c rs s'

  -- A call of an ended operator leaves it ended.
  pub Ended-next : (c : Code) (s : S) → Ended c s → (s' : S) × (next s ≡ failed c s') × Ended c s'
  unfolding after
  Ended-next c s e = let (s', h) = e 0 in (s', h, λ n. rw (← ap state_of h) (e (suc n)))

  -- An invariant under which a call fails with `c` shows that the operator has ended.
  pub Ended-intro :
      (P : S → Type 0) (c : Code)
      → ((s : S) → P s → (s' : S) × (next s ≡ failed c s') × P s')
      → (n : ℕ) (s : S) → P s
      → (s' : S) × (next (after n s) ≡ failed c s')
  unfolding after
  Ended-intro P c step zero s p = let (s', h, q) = step s p in (s', h)
  Ended-intro P c step (suc n) s p = let (s', h, q) = step s p in rw h (Ended-intro P c step n s' q)

  -- A failing call before an ended state.
  pub Ended-failed : (c : Code) (s s' : S) → next s ≡ failed c s' → Ended c s' → Ended c s
  unfolding after
  Ended-failed c s s' h e zero = (s', h)
  Ended-failed c s s' h e (suc n) = rw h (e n)

  -- What the result of a call says of the rows to come.
  abbrev pub Yields : Code → List R → Fetch S R → Type 0
  Yields c [] result = (s : S) × (result ≡ failed c s) × Ended c s
  Yields c (r ∷ rs) result = (s : S) × (result ≡ fetched r s) × Delivers c rs s

  pub Yields-Delivers : (c : Code) (out : List R) (s : S) → Yields c out (next s) → Delivers c out s
  Yields-Delivers c [] s (s', e, ended) = Ended-failed c s s' e ended
  Yields-Delivers c (r ∷ rs) s h = h
