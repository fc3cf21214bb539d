-- ===== src/Packet/Put.antt =====
-- Calls of server/packet/util.cpp one after the other, each at the position that the one before has left.
use cat_db.Prelude.{
  ℕ, ◌+◌, ◌^◌, ◌≤◌, ◌<◌, ◌≡◌, ◌∙◌, ◌⊎◌, inl, subst, if◌then◌else◌, List, length, arith,
}
use cat_db.Error.{Code, success, is_success}
use cat_db.Storage.Memory.{Memory, read, read_congr, write, write_other, read-write, IsBytes}
use cat_db.Packet.{Buffer, store_int, store_length, store_str_v, get_le, get_length, put_le}
use cat_db.Packet.Int.{bound, put_le_other, get_le_congr, get_le-put_le, store_int_fits}
use cat_db.Packet.Length.{length_size}
use cat_db.Packet.Roundtrip.{store_length-get_length}
use cat_db.Packet.Str.{str_written}

-- The next call is made if the last one has succeeded.
unfoldable pub then_ : Code × Buffer → (Buffer → Code × Buffer) → Code × Buffer
then_ r next = if is_success r.0 then next r.1 else r

-- The call succeeds, writes the `n` bytes from `a` on and no others, and leaves the position behind
-- them; whatever has these bytes there satisfies `Q`.
abbrev pub IsPut : (a n : ℕ) → (Memory → Type 0) → Buffer → Code × Buffer → Type 0
IsPut a n Q b result =
    (b' : Buffer) × (result ≡ (success, b'))
    × (b'.pos ≡ a + n)
    × ((j : ℕ) → (j < a) ⊎ (a + n ≤ j) → b'.bytes j ≡ b.bytes j)
    × ((m : Memory) → ((j : ℕ) → a ≤ j → j < a + n → m j ≡ b'.bytes j) → Q m)

pub then-IsPut :
    (a n k : ℕ) (Q R : Memory → Type 0) (b : Buffer) (r : Code × Buffer)
    (next : Buffer → Code × Buffer)
    → IsPut a n Q b r
    → ((b1 : Buffer) → b1.pos ≡ a + n → IsPut (a + n) k R b1 (next b1))
    → IsPut a (n + k) (λ m. Q m × R m) b (then_ r next)
unfolding then_
then-IsPut a n k Q R b r next (b1, run, at, frame, reads) rest =
    let (b2, run', at', frame', reads') = rest b1 at in
    (
      b2,
      rw (then_, run) run',
      omega (arith, at'),
      (λ j o. frame' j (ground (arith, o)) ∙ frame j (ground (arith, o))),
      (λ m same. (
        reads m (λ j p q. same j p (omega arith) ∙ frame' j (inl q)),
        reads' m (λ j p q. same j (omega arith) (omega arith)),
      )),
    )

pub store_int-IsPut :
    (n len v a : ℕ) (b : Buffer)
    → b.pos ≡ a
    → a + n ≤ len
    → v < bound n
    → IsPut a n (λ m. get_le n m a ≡ v) b (store_int n len v b)
store_int-IsPut n len v a b at room small = (
  record { bytes = put_le n b.bytes b.pos v; pos = b.pos + n },
  store_int_fits n len v b (omega arith),
  omega (arith, at),
  (λ j o. put_le_other n b.bytes b.pos v j (ground (arith, o, at))),
  (λ m same.
      get_le_congr n (put_le n b.bytes b.pos v) m a same
      ∙ subst (λ k. get_le n (put_le n b.bytes b.pos v) k ≡ v) at
          (get_le-put_le n b.bytes b.pos v small)),
)

pub store_length-IsPut :
    (v len a : ℕ) (b : Buffer)
    → b.pos ≡ a
    → a + length_size v ≤ len
    → v < 2 ^ 64
    → IsPut a
        (length_size v)
        (λ m. get_length m a ≡ (success, v, a + length_size v))
        b
        (store_length len v b)
store_length-IsPut v len a b at room small =
    subst
      (λ k.
        IsPut k (length_size v) (λ m. get_length m k ≡ (success, v, k + length_size v)) b
          (store_length len v b))
      at (store_length-get_length v len b small (omega (arith, at, room)))

-- The length of a string and the string.
abbrev pub IsStr : List ℕ → ℕ → Memory → Type 0
IsStr str a m =
    (get_length m a ≡ (success, length str, a + length_size (length str)))
    × (read m (a + length_size (length str)) (length str) ≡ str)

pub store_str_v-IsPut :
    (str : List ℕ) (len a : ℕ) (b : Buffer)
    → b.pos ≡ a
    → a + (length_size (length str) + length str) ≤ len
    → length str < 2 ^ 64
    → IsBytes str
    → IsPut a (length_size (length str) + length str) (IsStr str a) b (store_str_v len str b)
store_str_v-IsPut str len a b at room small bytes =
    let n = length_size (length str) in
    let (b1, run, moved, frame, reads) =
      store_length-IsPut (length str) len a b at (omega arith) small in
    let m2 = write b1.bytes b1.pos str in
    let kept : (j : ℕ) → (j < b1.pos) ⊎ (b1.pos + length str ≤ j) → m2 j ≡ b1.bytes j =
      write_other str b1.bytes b1.pos in
    (
      record { bytes = m2; pos = b1.pos + length str },
      str_written str len b b1 run (omega (arith, moved)),
      omega (arith, moved),
      (λ j o. kept j (ground (arith, moved, o)) ∙ frame j (ground (arith, o))),
      (λ m same. (
        reads m (λ j p q. same j p (omega arith) ∙ kept j (inl (omega (arith, moved)))),
        read_congr (length str) m m2 (a + n) (λ j p q. same j (omega arith) (omega arith))
            ∙ subst (λ k. read m2 k (length str) ≡ str) moved
                (read-write str b1.bytes b1.pos bytes),
      )),
    )
