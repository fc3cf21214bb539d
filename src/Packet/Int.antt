-- ===== src/Packet/Int.antt =====
-- The numbers of server/packet/util.h: bytes, the lowest first.
use cat_db.Prelude.{
  ℕ, zero, suc, ◌+◌, ◌*◌, ◌/◌, ◌%◌, ◌≤◌, ◌<◌, ◌≡◌, true, refl, ◌∙◌, ◌⊎◌, inl, leb, arith,
}
use cat_db.Error.{success}
use cat_db.Storage.Memory.{Memory, put8, put8_other}
use cat_db.Packet.{Buffer, put_le, get_le, store_int}

-- 256 ^ n
abbrev pub bound : ℕ → ℕ
bound zero = 1
bound (suc n) = 256 * bound n

pub put_le_other : (n : ℕ) (m : Memory) (a v j : ℕ) → (j < a) ⊎ (a + n ≤ j) → put_le n m a v j ≡ m j
unfolding put_le
put_le_other zero m a v j h = refl
put_le_other (suc n) m a v j h =
    put_le_other n (put8 m a v) (a + 1) (v / 256) j (ground arith)
    ∙ put8_other m a v j (ground arith)

pub get_le_congr :
    (n : ℕ) (m m' : Memory) (a : ℕ)
    → ((j : ℕ) → a ≤ j → j < a + n → m' j ≡ m j)
    → get_le n m' a ≡ get_le n m a
unfolding get_le
get_le_congr zero m m' a h = refl
get_le_congr (suc n) m m' a h =
    rw
      (
        h a (omega arith) (omega arith),
        get_le_congr n m m' (a + 1) (λ j p q. h j (omega arith) (omega arith)),
      )
      refl

put8_low : (m : Memory) (a v : ℕ) → put8 m a v a ≡ v % 256
unfolding put8
put8_low m a v = ground arith

pub get_le-put_le : (n : ℕ) (m : Memory) (a v : ℕ) → v < bound n → get_le n (put_le n m a v) a ≡ v
unfolding get_le put_le
get_le-put_le zero m a v h = omega arith
get_le-put_le (suc n) m a v h =
    let ih = get_le-put_le n (put8 m a v) (a + 1) (v / 256) (omega arith) in
    let low =
      put_le_other n (put8 m a v) (a + 1) (v / 256) a (inl (omega arith)) ∙ put8_low m a v in
    rw (low, ih) (omega arith)

-- With the room, a number is stored and the position goes behind it.
pub store_int_fits :
    (n len v : ℕ) (b : Buffer)
    → b.pos + n ≤ len
    → store_int n len v b ≡ (success, record { bytes = put_le n b.bytes b.pos v; pos = b.pos + n })
unfolding store_int
store_int_fits n len v b h =
    let fits : leb (b.pos + n) len ≡ true = ground arith in rw (store_int, fits) refl
