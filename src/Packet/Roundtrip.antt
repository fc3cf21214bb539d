-- ===== src/Packet/Roundtrip.antt =====
-- `store_length` and `get_length` of server/packet/util.cpp, on all the forms of a length.
use cat_db.Prelude.{
  ℕ, ◌+◌, ◌-◌, ◌^◌, ◌≤◌, ◌<◌, ◌≡◌, true, false, Bool, ◌&&◌, refl, ◌∙◌, subst, sym, ◌⊎◌, inl, inr,
  leb, ltb, ◌==◌, if◌then◌else◌, arith, Bool-cases,
}
use cat_db.Error.{success, size_overflow}
use cat_db.Packet.{
  Buffer, store_int, store_marked, store_length, get_length, null_value, store_null,
}
use cat_db.Packet.Length.{
  length_size, IsLengthStored, marked-IsLengthStored, single-IsLengthStored, get_length_small,
  get_length_null, get_length_marked,
}

-- The form that `store_length` takes, by the number.
data Form (v : ℕ) : Type 0 where
  small : v < 251 → Form v
  two : 251 ≤ v → v < 0x10000 → Form v
  three : 0x10000 ≤ v → v < 0x1000000 → Form v
  eight : 0x1000000 ≤ v → v < null_value → Form v
  null : v ≡ null_value → Form v

form : (v : ℕ) → v < 2 ^ 64 → Form v
form v h = elim (Bool-cases (ltb v 251)) [
  | inl y ↦ small (ground (arith, y))
  | inr a ↦ elim (Bool-cases (ltb v 0x10000)) [
    | inl y ↦ two (ground (arith, a)) (ground (arith, y))
    | inr b ↦ elim (Bool-cases (ltb v 0x1000000)) [
      | inl y ↦ three (ground (arith, b)) (ground (arith, y))
      | inr c ↦ elim (Bool-cases (ltb v null_value)) [
        | inl y ↦ eight (ground (arith, c)) (ground (arith, y))
        | inr d ↦ null (ground (arith, d))
      ]
    ]
  ]
]

-- What the tests of `store_length` come to.
store_length_tests :
    (v len : ℕ) (b : Buffer) (t0 t1 t2 t3 t4 t5 : Bool)
    → leb len b.pos ≡ t0
    → (ltb v 251 && leb 1 (len - b.pos)) ≡ t1
    → (ltb v 0x10000 && leb 3 (len - b.pos)) ≡ t2
    → (ltb v 0x1000000 && leb 4 (len - b.pos)) ≡ t3
    → (ltb v null_value && leb 9 (len - b.pos)) ≡ t4
    → (v == null_value) ≡ t5
    → store_length len v b ≡ (
        if t0
        then (size_overflow, b)
        else if t1
        then store_int 1 len v b
        else if t2
        then store_marked 252 2 len v b
        else if t3
        then store_marked 253 3 len v b
        else if t4
        then store_marked 254 8 len v b
        else if t5
        then store_null len b
        else (size_overflow, b))
unfolding store_length
store_length_tests v len b t0 t1 t2 t3 t4 t5 e0 e1 e2 e3 e4 e5 =
    rw (store_length, e0, e1, e2, e3, e4, e5) refl

-- With the room for it, a length below 2^64 is stored in `length_size` bytes, nothing else is written,
-- and `get_length` reads it from these bytes, whatever stands behind them; 2^64 - 1 is the null value.
pub store_length-get_length :
    (v len : ℕ) (b : Buffer)
    → v < 2 ^ 64
    → b.pos + length_size v ≤ len
    → IsLengthStored v b (length_size v) (store_length len v b)
unfolding store_length
store_length-get_length v len b h room = elim (form v h) [
  | small lt ↦
      let size : length_size v ≡ 1 = ground arith in
      let fits : b.pos + 1 ≤ len = omega (arith, size, room) in
      let open_ : leb len b.pos ≡ false = ground (arith, fits) in
      let t1 : (ltb v 251 && leb 1 (len - b.pos)) ≡ true = ground (arith, fits) in
      subst (λ k. IsLengthStored v b k (store_length len v b)) (sym size)
        (single-IsLengthStored v len v b (store_length len v b)
          (store_length_tests v len b false true _ _ _ _ open_ t1 refl refl refl refl) (omega arith)
          fits (λ m e. get_length_small m b.pos v lt e))
  | two ge lt ↦
      let size : length_size v ≡ 3 = ground arith in
      let fits : b.pos + 3 ≤ len = omega (arith, size, room) in
      let open_ : leb len b.pos ≡ false = ground (arith, fits) in
      let t1 : (ltb v 251 && leb 1 (len - b.pos)) ≡ false = ground arith in
      let t2 : (ltb v 0x10000 && leb 3 (len - b.pos)) ≡ true = ground (arith, fits) in
      subst (λ k. IsLengthStored v b k (store_length len v b)) (sym size)
        (marked-IsLengthStored 252 2 len v b (store_length len v b)
          (store_length_tests v len b false false true _ _ _ open_ t1 t2 refl refl refl)
          (omega arith) lt fits (λ m. (get_length_marked m b.pos v).0))
  | three ge lt ↦
      let size : length_size v ≡ 4 = ground arith in
      let fits : b.pos + 4 ≤ len = omega (arith, size, room) in
      let open_ : leb len b.pos ≡ false = ground (arith, fits) in
      let t1 : (ltb v 251 && leb 1 (len - b.pos)) ≡ false = ground arith in
      let t2 : (ltb v 0x10000 && leb 3 (len - b.pos)) ≡ false = ground arith in
      let t3 : (ltb v 0x1000000 && leb 4 (len - b.pos)) ≡ true = ground (arith, fits) in
      subst (λ k. IsLengthStored v b k (store_length len v b)) (sym size)
        (marked-IsLengthStored 253 3 len v b (store_length len v b)
          (store_length_tests v len b false false false true _ _ open_ t1 t2 t3 refl refl)
          (omega arith) lt fits (λ m. (get_length_marked m b.pos v).1))
  | eight ge lt ↦
      let size : length_size v ≡ 9 = ground arith in
      let fits : b.pos + 9 ≤ len = omega (arith, size, room) in
      let open_ : leb len b.pos ≡ false = ground (arith, fits) in
      let t1 : (ltb v 251 && leb 1 (len - b.pos)) ≡ false = ground arith in
      let t2 : (ltb v 0x10000 && leb 3 (len - b.pos)) ≡ false = ground arith in
      let t3 : (ltb v 0x1000000 && leb 4 (len - b.pos)) ≡ false = ground arith in
      let t4 : (ltb v null_value && leb 9 (len - b.pos)) ≡ true = ground (arith, fits) in
      subst (λ k. IsLengthStored v b k (store_length len v b)) (sym size)
        (marked-IsLengthStored 254 8 len v b (store_length len v b)
          (store_length_tests v len b false false false false true _ open_ t1 t2 t3 t4 refl)
          (omega arith) (omega arith) fits (λ m. (get_length_marked m b.pos v).2))
  | null e ↦
      let size : length_size v ≡ 1 = ground arith in
      let fits : b.pos + 1 ≤ len = omega (arith, size, room) in
      let open_ : leb len b.pos ≡ false = ground (arith, fits) in
      let t1 : (ltb v 251 && leb 1 (len - b.pos)) ≡ false = ground arith in
      let t2 : (ltb v 0x10000 && leb 3 (len - b.pos)) ≡ false = ground arith in
      let t3 : (ltb v 0x1000000 && leb 4 (len - b.pos)) ≡ false = ground arith in
      let t4 : (ltb v null_value && leb 9 (len - b.pos)) ≡ false = ground arith in
      let t5 : (v == null_value) ≡ true = ground (arith, fits) in
      subst (λ k. IsLengthStored v b k (store_length len v b)) (sym size)
        (single-IsLengthStored 251 len v b (store_length len v b)
          (store_length_tests v len b false false false false false true open_ t1 t2 t3 t4 t5)
          (omega arith) fits
          (λ m x.
            subst (λ w. get_length m b.pos ≡ (success, w, b.pos + 1)) (sym e)
              (get_length_null m b.pos x)))
]

-- No form fits.
store_length_none :
    (v len : ℕ) (b : Buffer)
    → 251 ≤ v
    → v < null_value
    → (0x10000 ≤ v) ⊎ (len < b.pos + 3)
    → (0x1000000 ≤ v) ⊎ (len < b.pos + 4)
    → len < b.pos + 9
    → store_length len v b ≡ (size_overflow, b)
store_length_none v len b big fin no2 no3 no8 =
    let t1 : (ltb v 251 && leb 1 (len - b.pos)) ≡ false = ground arith in
    let t2 : (ltb v 0x10000 && leb 3 (len - b.pos)) ≡ false = ground (arith, no2) in
    let t3 : (ltb v 0x1000000 && leb 4 (len - b.pos)) ≡ false = ground (arith, no3) in
    let t4 : (ltb v null_value && leb 9 (len - b.pos)) ≡ false = ground arith in
    let t5 : (v == null_value) ≡ false = ground arith in
    let run = store_length_tests v len b (leb len b.pos) _ _ _ _ _ refl t1 t2 t3 t4 t5 in
    elim (Bool-cases (leb len b.pos)) [ inl y ↦ run ∙ rw y refl | inr nay ↦ run ∙ rw nay refl ]

store_length_end :
    (v len : ℕ) (b : Buffer) → len ≤ b.pos → store_length len v b ≡ (size_overflow, b)
store_length_end v len b h =
    let over : leb len b.pos ≡ true = ground arith in
    store_length_tests v len b true _ _ _ _ _ over refl refl refl refl refl

-- Without the room, the call fails and the buffer is as it was.
pub store_length_overflow :
    (v len : ℕ) (b : Buffer)
    → v < 2 ^ 64
    → len < b.pos + length_size v
    → store_length len v b ≡ (size_overflow, b)
unfolding store_length
store_length_overflow v len b h full = elim (form v h) [
  | small lt ↦
      let size : length_size v ≡ 1 = ground arith in
      store_length_end v len b (omega (arith, size, full))
  | two ge lt ↦
      let size : length_size v ≡ 3 = ground arith in
      store_length_none v len b ge (omega arith) (inr (omega (arith, size, full)))
        (inr (omega (arith, size, full))) (omega (arith, size, full))
  | three ge lt ↦
      let size : length_size v ≡ 4 = ground arith in
      store_length_none v len b (omega arith) (omega arith) (inl ge)
        (inr (omega (arith, size, full))) (omega (arith, size, full))
  | eight ge lt ↦
      let size : length_size v ≡ 9 = ground arith in
      store_length_none v len b (omega arith) lt (inl (omega arith)) (inl ge)
        (omega (arith, size, full))
  | null e ↦
      let size : length_size v ≡ 1 = ground arith in
      store_length_end v len b (omega (arith, size, full))
]
