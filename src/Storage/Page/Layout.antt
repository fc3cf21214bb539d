-- ===== src/Storage/Page/Layout.antt =====
-- The bytes of an object, as `Object::serialization` puts them and `Object::make_object` takes them
-- (common/object.h).
use cat_db.Prelude.{ℕ, ◌+◌, ◌*◌, ◌%◌, ◌≤◌, ◌<◌, ◌≡◌, ◌∙◌, ◌⊎◌, inl, length, arith}
use cat_db.Error.{success}
use cat_db.Object.{ObjectClass}
use cat_db.Storage.Memory.{
  Memory, put8, put16, get16, write, read, put8_other, put8_same, put16_other, get16-put16,
  write_other, read-write, read_congr, get16_congr, IsBytes,
}
use cat_db.Storage.Format.{Stored, put_object, object_at}

-- What `serialization` and `make_object` owe each other on an object.
pub record IsStored {O : Type 0} ⦃stored : Stored O⦄ (x : O) : Type 0 where
  pub payload_length : length (stored.payload x) ≡ stored.width x
  pub payload-IsBytes : IsBytes (stored.payload x)
  pub type_small : stored.type_code x < 256
  pub width_small : stored.width x < 65536
  pub serial_ok : stored.serial_code x ≡ success
  pub remade : stored.make_object (stored.type_code x) (stored.payload x) ≡ x

length_back :
    (m : Memory) (a w : ℕ)
    → w < 65536
    → put16 m a (w % 65536) a + 256 * put16 m a (w % 65536) (a + 1) ≡ w
unfolding get16
length_back m a w h = omega (arith, get16-put16 m a (w % 65536))

-- An object's bytes stand at an address.
pub record StoredAt {O : Type 0} ⦃stored : Stored O⦄ (m : Memory) (a : ℕ) (x : O) : Type 0 where
  pub length_there : get16 m a ≡ stored.width x
  pub type_there : m (a + 2) ≡ stored.type_code x
  pub data_there : read m (a + 3) (stored.width x) ≡ stored.payload x

module _ {O : Type 0} ⦃class : ObjectClass O⦄ ⦃stored : Stored O⦄ where
  pub put_object_other :
      (m : Memory) (a : ℕ) (x : O) (j : ℕ)
      → IsStored x
      → (j < a) ⊎ (a + 3 + stored.width x ≤ j)
      → put_object m a x j ≡ m j
  unfolding put_object
  put_object_other m a x j h o =
      write_other (stored.payload x) _ (a + 3) j (ground (arith, h.payload_length))
      ∙ put8_other _ (a + 2) (stored.type_code x) j (ground arith)
      ∙ put16_other m a (stored.width x % 65536) j (ground arith)

  object_length :
      (m : Memory) (a : ℕ) (x : O) → IsStored x → get16 (put_object m a x) a ≡ stored.width x
  unfolding put_object get16
  object_length m a x h =
      let w = stored.width x in
      let m0 = put16 m a (w % 65536) in
      let typed = put8 m0 (a + 2) (stored.type_code x) in
      let kept : (j : ℕ) → j < a + 2 → write typed (a + 3) (stored.payload x) j ≡ m0 j = λ j q.
        write_other (stored.payload x) typed (a + 3) j (inl (omega arith))
        ∙ put8_other m0 (a + 2) (stored.type_code x) j (inl (omega arith)) in
      let low = kept a (omega arith) in
      let high = kept (a + 1) (omega arith) in
      let back = length_back m a w h.width_small in rw (low, high) back

  object_type :
      (m : Memory) (a : ℕ) (x : O) → IsStored x → put_object m a x (a + 2) ≡ stored.type_code x
  unfolding put_object
  object_type m a x h =
      write_other (stored.payload x) _ (a + 3) (a + 2) (inl (omega arith))
      ∙ put8_same _ (a + 2) (stored.type_code x) h.type_small

  object_data :
      (m : Memory) (a : ℕ) (x : O)
      → IsStored x
      → read (put_object m a x) (a + 3) (stored.width x) ≡ stored.payload x
  unfolding put_object
  object_data m a x h =
      rw (← h.payload_length) (read-write (stored.payload x) _ (a + 3) h.payload-IsBytes)

  pub put_object-StoredAt :
      (m : Memory) (a : ℕ) (x : O) → IsStored x → StoredAt (put_object m a x) a x
  put_object-StoredAt m a x h = record {
    length_there = object_length m a x h;
    type_there = object_type m a x h;
    data_there = object_data m a x h;
  }

  -- Whoever leaves the bytes alone leaves the object there.
  pub keep-StoredAt :
      (m m' : Memory) (a : ℕ) (x : O)
      → ((j : ℕ) → a ≤ j → j < a + 3 + stored.width x → m' j ≡ m j)
      → StoredAt m a x
      → StoredAt m' a x
  keep-StoredAt m m' a x same h = record {
    length_there =
        get16_congr m' m a (same a (omega arith) (omega arith))
          (same (a + 1) (omega arith) (omega arith))
        ∙ h.length_there;
    type_there = same (a + 2) (omega arith) (omega arith) ∙ h.type_there;
    data_there =
        read_congr (stored.width x) m' m (a + 3) (λ j p q. same j (omega arith) (omega arith))
        ∙ h.data_there;
  }

  pub object_at-StoredAt :
      (m : Memory) (a : ℕ) (x : O) → IsStored x → StoredAt m a x → object_at m a ≡ x
  unfolding object_at
  object_at-StoredAt m a x h there =
      rw (object_at, there.type_there, there.length_there, there.data_there) h.remade
