-- ===== src/Packet/Str.antt =====
-- `store_str_v` of server/packet/util.cpp: a string behind its length.
use cat_db.Prelude.{
  ℕ, ◌+◌, ◌-◌, ◌^◌, ◌≤◌, ◌<◌, ◌≡◌, true, false, ◌&&◌, refl, ◌∙◌, ◌⊎◌, inl, inr, leb, arith, List,
  length, subst,
}
use cat_db.Error.{success, size_overflow}
use cat_db.Storage.Memory.{write, read, write_other, read-write, IsBytes}
use cat_db.Packet.{Buffer, store_length, get_length, store_str_v}
use cat_db.Packet.Length.{length_size}
use cat_db.Packet.Roundtrip.{store_length-get_length, store_length_overflow}

room_cases : (a len : ℕ) → (a ≤ len) ⊎ (len < a)
room_cases a len = ground arith

module _ (str : List ℕ) (len : ℕ) (b : Buffer) where
  -- Where the string stands.
  abbrev pub str_pos : ℕ
  str_pos = b.pos + length_size (length str)

  pub str_written :
      (b1 : Buffer)
      → store_length len (length str) b ≡ (success, b1)
      → b1.pos + length str ≤ len
      → store_str_v len str b
        ≡ (success, record { bytes = write b1.bytes b1.pos str; pos = b1.pos + length str })
  unfolding store_str_v
  str_written b1 e h =
      let fits : (leb b1.pos len && leb (length str) (len - b1.pos)) ≡ true = ground arith in
      rw (store_str_v, e, fits) refl

  str_refused :
      (b1 : Buffer)
      → store_length len (length str) b ≡ (success, b1)
      → len < b1.pos + length str
      → store_str_v len str b ≡ (size_overflow, record b1 { pos = b.pos })
  unfolding store_str_v
  str_refused b1 e h =
      let over : (leb b1.pos len && leb (length str) (len - b1.pos)) ≡ false = ground arith in
      rw (store_str_v, e, over) refl

  -- With the room for a string and its length, both are stored, nothing else is written, and the length
  -- is read back, and the string behind it.
  pub store_str_v-read :
      IsBytes str
      → length str < 2 ^ 64
      → str_pos + length str ≤ len
      → (b' : Buffer) × (store_str_v len str b ≡ (success, b'))
        × (b'.pos ≡ str_pos + length str)
        × ((j : ℕ) → (j < b.pos) ⊎ (str_pos + length str ≤ j) → b'.bytes j ≡ b.bytes j)
        × (get_length b'.bytes b.pos ≡ (success, length str, str_pos))
        × (read b'.bytes str_pos (length str) ≡ str)
  store_str_v-read bytes small room =
      let (b1, run, moved, frame, reads) =
        store_length-get_length (length str) len b small (omega arith) in
      let b' : Buffer = record { bytes = write b1.bytes b1.pos str; pos = b1.pos + length str } in
      let kept : (j : ℕ) → (j < b1.pos) ⊎ (b1.pos + length str ≤ j) → b'.bytes j ≡ b1.bytes j =
        write_other str b1.bytes b1.pos in
      (
        b',
        str_written b1 run (omega (arith, moved)),
        omega (arith, moved),
        (λ j o. kept j (ground (arith, moved, o)) ∙ frame j (ground (arith, o))),
        reads b'.bytes (λ j p q. kept j (inl (omega (arith, moved)))),
        subst (λ a. read b'.bytes a (length str) ≡ str) moved
            (read-write str b1.bytes b1.pos bytes),
      )

  -- Without the room for both, the call fails and the position stays.
  pub store_str_v_overflow :
      length str < 2 ^ 64
      → len < str_pos + length str
      → ((store_str_v len str b).0 ≡ size_overflow) × ((store_str_v len str b).1.pos ≡ b.pos)
  unfolding store_str_v
  store_str_v_overflow small full = elim (room_cases str_pos len) [
    | inl room ↦
        let (b1, run, moved, _, _) = store_length-get_length (length str) len b small room in
        rw (str_refused b1 run (omega (arith, moved))) (refl, refl)
    | inr none_ ↦
        let none' = store_length_overflow (length str) len b small none_ in
        rw (store_str_v, none') (refl, refl)
  ]
