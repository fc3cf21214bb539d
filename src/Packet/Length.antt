-- ===== src/Packet/Length.antt =====
-- The forms of a length in server/packet/util.cpp, for `store_length` and `get_length`.
use cat_db.Prelude.{ℕ, ◌+◌, ◌≤◌, ◌<◌, ◌≡◌, true, refl, ◌∙◌, ◌⊎◌, inl, ltb, if◌then◌else◌, arith}
use cat_db.Error.{Code, success}
use cat_db.Storage.Memory.{Memory}
use cat_db.Packet.{Buffer, put_le, get_le, store_int, store_marked, get_length, null_value}
use cat_db.Packet.Int.{bound, put_le_other, get_le_congr, get_le-put_le, store_int_fits}

-- The bytes that a length takes: one for the null value also.
abbrev pub length_size : ℕ → ℕ
length_size v =
    if ltb v 251
    then 1
    else if ltb v 0x10000
    then 3
    else if ltb v 0x1000000
    then 4
    else if ltb v null_value
    then 9
    else 1

-- The call has put something at the position that is read as `v`, whatever follows, has moved the
-- position behind it, and has written nothing else.
abbrev pub IsLengthStored : ℕ → Buffer → ℕ → Code × Buffer → Type 0
IsLengthStored v b n result =
    (b' : Buffer) × (result ≡ (success, b'))
    × (b'.pos ≡ b.pos + n)
    × ((j : ℕ) → (j < b.pos) ⊎ (b.pos + n ≤ j) → b'.bytes j ≡ b.bytes j)
    × ((m : Memory)
        → ((j : ℕ) → b.pos ≤ j → j < b.pos + n → m j ≡ b'.bytes j)
        → get_length m b.pos ≡ (success, v, b.pos + n))

store_marked_fits :
    (s n len v : ℕ) (b : Buffer)
    → b.pos + (1 + n) ≤ len
    → store_marked s n len v b ≡ (
      success,
      record { bytes = put_le n (put_le 1 b.bytes b.pos s) (b.pos + 1) v; pos = b.pos + 1 + n },
    )
unfolding store_marked
store_marked_fits s n len v b h =
    let b1 : Buffer = record { bytes = put_le 1 b.bytes b.pos s; pos = b.pos + 1 } in
    let first = store_int_fits 1 len s b (omega arith) in
    let second = store_int_fits n len v b1 (omega arith) in rw (store_marked, first, second) refl

-- A sentinel and a number, read back.
marked_read :
    (s n v : ℕ) (b : Buffer) (m : Memory)
    → s < 256
    → v < bound n
    → ((j : ℕ)
        → b.pos ≤ j
        → j < b.pos + (1 + n)
        → m j ≡ put_le n (put_le 1 b.bytes b.pos s) (b.pos + 1) v j)
    → (get_le 1 m b.pos ≡ s) × (get_le n m (b.pos + 1) ≡ v)
marked_read s n v b m hs hv same =
    let m1 = put_le 1 b.bytes b.pos s in
    let m2 = put_le n m1 (b.pos + 1) v in
    (
      get_le_congr 1 m1 m b.pos (λ j p q.
            same j p (omega arith) ∙ put_le_other n m1 (b.pos + 1) v j (inl (omega arith)))
          ∙ get_le-put_le 1 b.bytes b.pos s (omega arith),
      get_le_congr n m2 m (b.pos + 1) (λ j p q. same j (omega arith) (omega arith))
          ∙ get_le-put_le n m1 (b.pos + 1) v hv,
    )

pub marked-IsLengthStored :
    (s n len v : ℕ) (b : Buffer) (result : Code × Buffer)
    → result ≡ store_marked s n len v b
    → s < 256
    → v < bound n
    → b.pos + (1 + n) ≤ len
    → ((m : Memory)
        → get_le 1 m b.pos ≡ s
        → get_le n m (b.pos + 1) ≡ v
        → get_length m b.pos ≡ (success, v, b.pos + (1 + n)))
    → IsLengthStored v b (1 + n) result
marked-IsLengthStored s n len v b result e hs hv room reads =
    let m1 = put_le 1 b.bytes b.pos s in
    (
      record { bytes = put_le n m1 (b.pos + 1) v; pos = b.pos + 1 + n },
      e ∙ store_marked_fits s n len v b room,
      omega arith,
      (λ j o.
          put_le_other n m1 (b.pos + 1) v j (ground arith)
          ∙ put_le_other 1 b.bytes b.pos s j (ground arith)),
      (λ m same. let both = marked_read s n v b m hs hv same in reads m both.0 both.1),
    )

pub single-IsLengthStored :
    (s len v : ℕ) (b : Buffer) (result : Code × Buffer)
    → result ≡ store_int 1 len s b
    → s < 256
    → b.pos + 1 ≤ len
    → ((m : Memory) → get_le 1 m b.pos ≡ s → get_length m b.pos ≡ (success, v, b.pos + 1))
    → IsLengthStored v b 1 result
single-IsLengthStored s len v b result e hs room reads = (
  record { bytes = put_le 1 b.bytes b.pos s; pos = b.pos + 1 },
  e ∙ store_int_fits 1 len s b room,
  refl,
  (λ j o. put_le_other 1 b.bytes b.pos s j o),
  (λ m same. reads m (
      get_le_congr 1 (put_le 1 b.bytes b.pos s) m b.pos same
      ∙ get_le-put_le 1 b.bytes b.pos s (omega arith))),
)

pub get_length_small :
    (m : Memory) (a v : ℕ) → v < 251 → get_le 1 m a ≡ v → get_length m a ≡ (success, v, a + 1)
unfolding get_length
get_length_small m a v h e =
    let small : ltb v 251 ≡ true = ground arith in rw (get_length, e, small) refl

pub get_length_null :
    (m : Memory) (a : ℕ) → get_le 1 m a ≡ 251 → get_length m a ≡ (success, null_value, a + 1)
unfolding get_length
get_length_null m a e = rw (get_length, e) refl

pub get_length_marked :
    (m : Memory) (a v : ℕ)
    → ((get_le 1 m a ≡ 252) → (get_le 2 m (a + 1) ≡ v) → get_length m a ≡ (success, v, a + (1 + 2)))
      × ((get_le 1 m a ≡ 253)
          → (get_le 3 m (a + 1) ≡ v)
          → get_length m a ≡ (success, v, a + (1 + 3)))
      × ((get_le 1 m a ≡ 254)
          → (get_le 8 m (a + 1) ≡ v)
          → get_length m a ≡ (success, v, a + (1 + 8)))
unfolding get_length
get_length_marked m a v = (
  (λ e f. rw (get_length, e, f) refl),
  (λ e f. rw (get_length, e, f) refl),
  (λ e f. rw (get_length, e, f) refl),
)
