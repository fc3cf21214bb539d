-- ===== src/Sort/Perms.antt =====
-- What rows keep when their order changes.
use cat_db.Relation.{AllOf}
use cat_db.Prelude.{suc, ◌≡◌, refl, ◌∙◌, ap, subst, List, [], ◌∷◌, ◌++◌, length}
use mathlib.Core.HLevel.{×_prop}
use mathlib.Core.Logic.{∥∥₁_elim}
use mathlib.Core.List.{Perm, Permᴰ}
use native.Mathlib.Nat.{ℕ_set}

module _ {R : Type 0} where
  pub AllOf-zip :
      (P Q S : R → Type 0) (rows : List R)
      → ((r : R) → P r → Q r → S r)
      → AllOf P rows
      → AllOf Q rows
      → AllOf S rows
  AllOf-zip P Q S [] f h k = tt
  AllOf-zip P Q S (r ∷ rows) f h k = (f r h.0 k.0, AllOf-zip P Q S rows f h.1 k.1)

  pub AllOf-append :
      (Q : R → Type 0) (xs ys : List R) → AllOf Q xs → AllOf Q ys → AllOf Q (xs ++ ys)
  AllOf-append Q [] ys h k = k
  AllOf-append Q (x ∷ xs) ys h k = (h.0, AllOf-append Q xs ys h.1 k)

  AllOf-prop : (Q : R → Type 0) (rows : List R) → ((r : R) → IsProp (Q r)) → IsProp (AllOf Q rows)
  AllOf-prop Q [] prop = hlevel
  AllOf-prop Q (r ∷ rows) prop = ×_prop (prop r) (AllOf-prop Q rows prop)

  AllOf-Permᴰ : (Q : R → Type 0) {xs ys : List R} → Permᴰ xs ys → AllOf Q xs → AllOf Q ys
  AllOf-Permᴰ Q Permᴰ.nil h = h
  AllOf-Permᴰ Q (Permᴰ.cons e d) h = (subst Q e h.0, AllOf-Permᴰ Q d h.1)
  AllOf-Permᴰ Q (Permᴰ.swap e e') h = (subst Q e' h.1.0, (subst Q e h.0, h.1.1))
  AllOf-Permᴰ Q (Permᴰ.trans d d') h = AllOf-Permᴰ Q d' (AllOf-Permᴰ Q d h)

  pub AllOf-Perm :
      (Q : R → Type 0) {xs ys : List R}
      → ((r : R) → IsProp (Q r))
      → Perm xs ys
      → AllOf Q xs
      → AllOf Q ys
  AllOf-Perm Q {ys = ys} prop p h = ∥∥₁_elim p (AllOf-prop Q ys prop) (λ d. AllOf-Permᴰ Q d h)

  length-Permᴰ : {xs ys : List R} → Permᴰ xs ys → length xs ≡ length ys
  length-Permᴰ Permᴰ.nil = refl
  length-Permᴰ (Permᴰ.cons e d) = ap suc (length-Permᴰ d)
  length-Permᴰ (Permᴰ.swap e e') = refl
  length-Permᴰ (Permᴰ.trans d d') = length-Permᴰ d ∙ length-Permᴰ d'

  pub length-Perm : {xs ys : List R} → Perm xs ys → length xs ≡ length ys
  length-Perm {xs} {ys} p = ∥∥₁_elim p (ℕ_set (length xs) (length ys)) length-Permᴰ
