-- ===== src/Prelude/Lists.antt =====
-- Lists measured and indexed by native numbers, under the library's names.
use Prim.Native.Nat.{ℕ, zero, suc, ◌+◌, ◌-◌, ◌≤◌, ◌<◌, min}
use mathlib.Core.Path.{◌≡◌, refl, ap, sym, ◌∙◌}
use mathlib.Core.Logic.{◌≢◌}
use mathlib.Core.List.{List, [], ◌∷◌, ◌++◌, map, append_assoc, append-nil}
use native.Mathlib.Omega.{arith}

module _ {ℓ} {A : Type ℓ} where
  abbrev pub length : List A → ℕ
  length [] = 0
  length (x ∷ xs) = suc (length xs)

  abbrev pub get_or : List A → ℕ → A → A
  get_or [] i d = d
  get_or (x ∷ xs) zero d = x
  get_or (x ∷ xs) (suc i) d = get_or xs i d

  -- A write out of bounds changes nothing.
  abbrev pub set : List A → ℕ → A → List A
  set [] i v = []
  set (x ∷ xs) zero v = v ∷ xs
  set (x ∷ xs) (suc i) v = x ∷ set xs i v

  abbrev pub replicate : ℕ → A → List A
  replicate zero a = []
  replicate (suc n) a = a ∷ replicate n a

  abbrev pub take : ℕ → List A → List A
  take zero xs = []
  take (suc n) [] = []
  take (suc n) (x ∷ xs) = x ∷ take n xs

  abbrev pub drop : ℕ → List A → List A
  drop zero xs = xs
  drop (suc n) [] = []
  drop (suc n) (x ∷ xs) = drop n xs

module _ {ℓ} {A : Type ℓ} where
  pub length-append : (xs ys : List A) → length (xs ++ ys) ≡ length xs + length ys
  length-append [] ys = omega arith
  length-append (x ∷ xs) ys = omega (arith, length-append xs ys)

  pub length-set : (xs : List A) (i : ℕ) (v : A) → length (set xs i v) ≡ length xs
  length-set [] i v = refl
  length-set (x ∷ xs) zero v = refl
  length-set (x ∷ xs) (suc i) v = ap suc (length-set xs i v)

  pub get_or-set_self :
      (xs : List A) (i : ℕ) (v d : A) → i < length xs → get_or (set xs i v) i d ≡ v
  get_or-set_self [] i v d h = elim h [ ]
  get_or-set_self (x ∷ xs) zero v d h = refl
  get_or-set_self (x ∷ xs) (suc i) v d h = get_or-set_self xs i v d (omega arith)

  pub get_or-set_ne :
      (xs : List A) (i j : ℕ) (v d : A) → i ≢ j → get_or (set xs i v) j d ≡ get_or xs j d
  get_or-set_ne [] i j v d h = refl
  get_or-set_ne (x ∷ xs) zero zero v d h = absurd (h refl)
  get_or-set_ne (x ∷ xs) zero (suc j) v d h = refl
  get_or-set_ne (x ∷ xs) (suc i) zero v d h = refl
  get_or-set_ne (x ∷ xs) (suc i) (suc j) v d h = get_or-set_ne xs i j v d (λ e. h (ap suc e))

  pub get_or-replicate : (n i : ℕ) (a : A) → get_or (replicate n a) i a ≡ a
  get_or-replicate zero i a = refl
  get_or-replicate (suc n) zero a = refl
  get_or-replicate (suc n) (suc i) a = get_or-replicate n i a

  pub length-replicate : (n : ℕ) (a : A) → length (replicate n a) ≡ n
  length-replicate zero a = refl
  length-replicate (suc n) a = ap suc (length-replicate n a)

  pub take-append-drop : (n : ℕ) (xs : List A) → take n xs ++ drop n xs ≡ xs
  take-append-drop zero xs = refl
  take-append-drop (suc n) [] = refl
  take-append-drop (suc n) (x ∷ xs) = rw (take-append-drop n xs)

  pub length-take : (n : ℕ) (xs : List A) → length (take n xs) ≡ min n (length xs)
  length-take zero xs = omega arith
  length-take (suc n) [] = omega arith
  length-take (suc n) (x ∷ xs) = omega (arith, length-take n xs)

  pub length-drop : (n : ℕ) (xs : List A) → length (drop n xs) ≡ length xs - n
  length-drop zero xs = omega arith
  length-drop (suc n) [] = omega arith
  length-drop (suc n) (x ∷ xs) = omega (arith, length-drop n xs)

  pub length-map {κ} : {B : Type κ} (xs : List A) (f : A → B) → length (map f xs) ≡ length xs
  length-map [] f = refl
  length-map (x ∷ xs) f = ap suc (length-map xs f)

module _ {ℓ} {A : Type ℓ} where
  pub get_or-append_length : (xs ys : List A) (y d : A) → get_or (xs ++ y ∷ ys) (length xs) d ≡ y
  get_or-append_length [] ys y d = refl
  get_or-append_length (x ∷ xs) ys y d = get_or-append_length xs ys y d

  pub set-append_length :
      (xs ys : List A) (y v : A) → set (xs ++ y ∷ ys) (length xs) v ≡ xs ++ v ∷ ys
  set-append_length [] ys y v = refl
  set-append_length (x ∷ xs) ys y v = ap (◌∷◌ x) (set-append_length xs ys y v)

  -- The loop `dst[off + i] = src[i]`, with `n` rounds left.
  unfoldable pub copy_list : A → List A → ℕ → ℕ → ℕ → List A → List A
  copy_list d src off i zero dst = dst
  copy_list d src off i (suc n) dst =
      copy_list d src off (i + 1) n (set dst (off + i) (get_or src i d))

  -- It replaces as much of `rest` as there is left of the source.
  copy_list_from :
      (ss sp pre rest : List A) (d : A) (off i n : ℕ) (src : List A)
      → src ≡ sp ++ ss
      → i ≡ length sp
      → off + i ≡ length pre
      → n ≡ length ss
      → n ≤ length rest
      → copy_list d src off i n (pre ++ rest) ≡ pre ++ (ss ++ drop n rest)
  unfolding copy_list
  copy_list_from [] sp pre rest d off i zero src e ei eo en h = refl
  copy_list_from [] sp pre rest d off i (suc n) src e ei eo en h = absurd (omega arith)
  copy_list_from (s ∷ ss) sp pre rest d off i zero src e ei eo en h = absurd (omega arith)
  copy_list_from (s ∷ ss) sp pre [] d off i (suc n) src e ei eo en h = absurd (omega arith)
  copy_list_from (s ∷ ss) sp pre (r ∷ rest) d off i (suc n) src e ei eo en h =
      let read : get_or src i d ≡ s = rw (e, ei) (get_or-append_length sp ss s d) in
      let ih =
        copy_list_from ss (sp ++ s ∷ []) (pre ++ s ∷ []) rest d off (i + 1) n src
          (e ∙ sym (append_assoc sp (s ∷ []) ss)) (rw length-append (omega arith))
          (rw length-append (omega arith)) (omega arith) (omega arith) in
      rw (read, eo, set-append_length pre rest r s, ← append_assoc pre (s ∷ []) rest)
        (ih ∙ append_assoc pre (s ∷ []) (ss ++ drop n rest))

  -- Run whole, it writes the source at `off`.
  pub copy_list_all :
      (src pre rest : List A) (d : A)
      → length src ≤ length rest
      → copy_list d src (length pre) 0 (length src) (pre ++ rest)
        ≡ pre ++ (src ++ drop (length src) rest)
  copy_list_all src pre rest d h =
      copy_list_from src [] pre rest d (length pre) 0 (length src) src refl refl (omega arith) refl
        h

  pub take_nil : (n : ℕ) → take {A = A} n [] ≡ []
  take_nil zero = refl
  take_nil (suc n) = refl

  pub drop_all : (n : ℕ) (xs : List A) → length xs ≤ n → drop n xs ≡ []
  drop_all zero [] h = refl
  drop_all zero (x ∷ xs) h = absurd (omega arith)
  drop_all (suc n) [] h = refl
  drop_all (suc n) (x ∷ xs) h = drop_all n xs (omega arith)

  -- Two loops one after the other fill a list of the right length.
  pub copy_list_two :
      (xs ys zs : List A) (d e : A) (m n : ℕ)
      → m ≡ length xs
      → n ≡ length ys
      → length zs ≡ m + n
      → copy_list e ys m 0 n (copy_list d xs 0 0 m zs) ≡ xs ++ ys
  copy_list_two xs ys zs d e m n em en h =
      let rest = drop (length xs) zs in
      let left : length rest ≡ length ys = rw length-drop (omega arith) in
      rw (em, en, copy_list_all xs [] zs d (omega arith), copy_list_all ys xs rest e (omega arith))
        (rw (drop_all (length ys) rest (omega arith), append-nil ys) refl)
