-- ===== src/Storage/Memory.antt =====
-- The bytes behind a pointer: what stands at each distance from it. Little-endian, as on the
-- machines that the program is built for.
use cat_db.Prelude.{
  ℕ, zero, suc, ◌+◌, ◌*◌, ◌/◌, ◌%◌, ◌≤◌, ◌<◌, ◌≡◌, refl, ap, ◌⊎◌, inl, List, [], ◌∷◌, if◌then◌else◌,
  ◌==◌, length, arith, ◌∙◌,
}

abbrev pub Memory : Type 0
Memory = ℕ → ℕ

-- One byte, a 16-bit number, and a block of bytes as `memcpy` writes it.
unfoldable pub put8 : Memory → ℕ → ℕ → Memory
put8 m a v i = if i == a then v % 256 else m i

unfoldable pub put16 : Memory → ℕ → ℕ → Memory
unfolding put8
put16 m a v = put8 (put8 m a v) (a + 1) (v / 256)

unfoldable pub get16 : Memory → ℕ → ℕ
get16 m a = m a + 256 * m (a + 1)

unfoldable pub write : Memory → ℕ → List ℕ → Memory
write m a [] = m
write m a (b ∷ bytes) = write (put8 m a b) (a + 1) bytes

unfoldable pub read : Memory → ℕ → ℕ → List ℕ
read m a zero = []
read m a (suc n) = m a ∷ read m (a + 1) n

pub put8_other : (m : Memory) (a v i : ℕ) → (i < a) ⊎ (a < i) → put8 m a v i ≡ m i
unfolding put8
put8_other m a v i h = ground arith

pub put8_same : (m : Memory) (a v : ℕ) → v < 256 → put8 m a v a ≡ v
unfolding put8
put8_same m a v h = ground arith

pub put16_other : (m : Memory) (a v i : ℕ) → (i < a) ⊎ (a + 1 < i) → put16 m a v i ≡ m i
unfolding put16
put16_other m a v i h = ground arith

pub get16-put16 : (m : Memory) (a v : ℕ) → get16 (put16 m a v) a ≡ v % 65536
unfolding get16 put16
get16-put16 m a v = ground arith

pub write_other :
    (bytes : List ℕ) (m : Memory) (a i : ℕ)
    → (i < a) ⊎ (a + length bytes ≤ i)
    → write m a bytes i ≡ m i
unfolding write
write_other [] m a i h = refl
write_other (b ∷ bytes) m a i h =
    ground (arith, write_other bytes (put8 m a b) (a + 1) i, put8_other m a b i)

-- Bytes are numbers below 256.
abbrev pub IsBytes : List ℕ → Type 0
IsBytes [] = Unit
IsBytes (b ∷ bytes) = (b < 256) × IsBytes bytes

-- What was written is read back.
pub read-write :
    (bytes : List ℕ) (m : Memory) (a : ℕ)
    → IsBytes bytes
    → read (write m a bytes) a (length bytes) ≡ bytes
unfolding read write
read-write [] m a h = refl
read-write (b ∷ bytes) m a h =
    let first : write (put8 m a b) (a + 1) bytes a ≡ b =
      write_other bytes (put8 m a b) (a + 1) a (inl (omega arith)) ∙ put8_same m a b h.0 in
    rw first (ap (◌∷◌ b) (read-write bytes (put8 m a b) (a + 1) h.1))

-- Reading depends on what is read alone.
pub read_congr :
    (n : ℕ) (m m' : Memory) (a : ℕ)
    → ((i : ℕ) → a ≤ i → i < a + n → m i ≡ m' i)
    → read m a n ≡ read m' a n
unfolding read
read_congr zero m m' a h = refl
read_congr (suc n) m m' a h =
    ground (arith, h a, read_congr n m m' (a + 1) (λ i p q. h i (omega arith) (omega arith)))

pub get16_congr :
    (m m' : Memory) (a : ℕ) → m a ≡ m' a → m (a + 1) ≡ m' (a + 1) → get16 m a ≡ get16 m' a
unfolding get16
get16_congr m m' a p q = rw (p, q) refl
