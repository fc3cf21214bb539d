-- ===== src/Packet/Ok.antt =====
-- server/packet/ok_packet.h and server/packet/ok_packet.cpp: OKPacket. The buffer is not null here.
use cat_db.Prelude.{
  ℕ, suc, ◌+◌, ◌-◌, ◌%◌, ◌^◌, ◌≤◌, ◌<◌, ◌≡◌, refl, ◌∙◌, ◌⊎◌, inr, ap, false, if◌then◌else◌, List,
  [], ◌∷◌, length, ◌==◌, arith,
}
use cat_db.Error.{Code, success, is_success, invalid_argument}
use cat_db.Storage.Memory.{Memory, IsBytes}
use cat_db.Packet.{Buffer, store_int, store_length, store_str_v, get_le, get_length}
use cat_db.Packet.Length.{length_size}
use cat_db.Packet.Put.{
  then_, IsPut, IsStr, then-IsPut, store_int-IsPut, store_length-IsPut, store_str_v-IsPut,
}

pub record OkPacket : Type 0 where
  pub field_count : ℕ
  pub affected_rows : ℕ
  pub insert_id : ℕ
  pub server_status : ℕ
  pub warning_count : ℕ
  pub message : List ℕ

-- An empty message is not stored.
unfoldable store_message : ℕ → List ℕ → Buffer → Code × Buffer
store_message len message b =
    if length message == 0 then (success, b) else store_str_v len message b

pub serialize : ℕ → OkPacket → Buffer → Code × Buffer
unfolding store_message then_
serialize len pkt b =
    if len == 0
    then (invalid_argument, b)
    else then_ (store_int 1 len pkt.field_count b) (λ b1.
      then_ (store_length len pkt.affected_rows b1) (λ b2.
        then_ (store_length len pkt.insert_id b2) (λ b3.
          then_ (store_int 2 len pkt.server_status b3) (λ b4.
            then_ (store_int 2 len pkt.warning_count b4)
              (λ b5. store_message len pkt.message b5)))))

-- The header, with the packet's length and the sequence number 2, is stored at `start` after the packet;
-- the position stays behind the packet.
put_header : ℕ → ℕ → Code × Buffer → Code × Buffer
unfolding then_
put_header len start (ret, b) =
    let r =
      then_ (store_int 3 len ((b.pos - start - 4) % 2 ^ 32) (record b { pos = start }))
        (λ b1. store_int 1 len 2 b1) in
    if is_success ret then (r.0, record r.1 { pos = b.pos }) else (ret, b)

pub encode : ℕ → OkPacket → Buffer → Code × Buffer
unfolding put_header
encode len pkt b =
    if len == 0
    then (invalid_argument, b)
    else put_header len b.pos (serialize len pkt (record b { pos = b.pos + 4 }))

pub get_serialize_size : OkPacket → ℕ
get_serialize_size pkt = 5 + 9 + 9 + (9 + length pkt.message)

abbrev pub message_size : List ℕ → ℕ
message_size [] = 0
message_size (c ∷ cs) = length_size (suc (length cs)) + suc (length cs)

abbrev pub IsMessage : List ℕ → ℕ → Memory → Type 0
IsMessage [] a m = Unit
IsMessage (c ∷ cs) a m = IsStr (c ∷ cs) a m

put_header_run :
    (len start v : ℕ) (b b2 : Buffer)
    → (b.pos - start - 4) % 2 ^ 32 ≡ v
    → then_ (store_int 3 len v (record b { pos = start })) (λ b1. store_int 1 len 2 b1)
      ≡ (success, b2)
    → put_header len start (success, b) ≡ (success, record b2 { pos = b.pos })
unfolding put_header
put_header_run len start v b b2 e run = rw (put_header, e, run) refl

length_size_le : (v : ℕ) → length_size v ≤ 9
length_size_le v = ground arith

message_size_le : (message : List ℕ) → message_size message ≤ 9 + length message
message_size_le [] = omega arith
message_size_le (c ∷ cs) = omega (arith, length_size_le (suc (length cs)))

store_message-IsPut :
    (message : List ℕ) (len a : ℕ) (b : Buffer)
    → b.pos ≡ a
    → a + message_size message ≤ len
    → length message < 2 ^ 64
    → IsBytes message
    → IsPut a (message_size message) (IsMessage message a) b (store_message len message b)
unfolding store_message
store_message-IsPut [] len a b at room small bytes =
    (b, refl, omega (arith, at), (λ j o. refl), (λ m same. tt))
store_message-IsPut (c ∷ cs) len a b at room small bytes =
    let some_ : (suc (length cs) == 0) ≡ false = ground arith in
    rw some_ (store_str_v-IsPut (c ∷ cs) len a b at room small bytes)

-- The parts of a packet, and their sizes together.
module _ (pkt : OkPacket) where
  abbrev pub body_size : ℕ
  body_size =
      1
      + (length_size pkt.affected_rows
          + (length_size pkt.insert_id + (2 + (2 + message_size pkt.message))))

  -- The fields stand one behind the other from `a` on.
  abbrev pub IsBody : ℕ → Memory → Type 0
  IsBody a m =
      let a1 = a + 1 in
      let a2 = a1 + length_size pkt.affected_rows in
      let a3 = a2 + length_size pkt.insert_id in
      (get_le 1 m a ≡ pkt.field_count)
      × ((get_length m a1 ≡ (success, pkt.affected_rows, a2))
          × ((get_length m a2 ≡ (success, pkt.insert_id, a3))
              × ((get_le 2 m a3 ≡ pkt.server_status)
                  × ((get_le 2 m (a3 + 2) ≡ pkt.warning_count)
                      × IsMessage pkt.message (a3 + 2 + 2) m))))

  -- The fields are in the range of their types.
  pub record IsOkPacket : Type 0 where
    pub field_count_small : pkt.field_count < 2 ^ 8
    pub affected_rows_small : pkt.affected_rows < 2 ^ 64
    pub insert_id_small : pkt.insert_id < 2 ^ 64
    pub server_status_small : pkt.server_status < 2 ^ 16
    pub warning_count_small : pkt.warning_count < 2 ^ 16
    pub message_small : length pkt.message < 2 ^ 64
    pub message-IsBytes : IsBytes pkt.message

  serialize-IsPut :
      (len a : ℕ) (b : Buffer)
      → IsOkPacket
      → b.pos ≡ a
      → a + body_size ≤ len
      → IsPut a body_size (IsBody a) b (serialize len pkt b)
  unfolding serialize
  serialize-IsPut len a b h at room =
      let open_ : (len == 0) ≡ false = ground (arith, room) in
      rw open_ (
        then-IsPut a 1 _ _ _ b _ _
          (store_int-IsPut 1 len pkt.field_count a b at (omega arith)
            (omega (arith, h.field_count_small)))
          (λ b1 at1.
            then-IsPut _ (length_size pkt.affected_rows) _ _ _ b1 _ _
              (store_length-IsPut pkt.affected_rows len _ b1 at1 (omega arith)
                h.affected_rows_small)
              (λ b2 at2.
                then-IsPut _ (length_size pkt.insert_id) _ _ _ b2 _ _
                  (store_length-IsPut pkt.insert_id len _ b2 at2 (omega arith) h.insert_id_small)
                  (λ b3 at3.
                    then-IsPut _ 2 _ _ _ b3 _ _
                      (store_int-IsPut 2 len pkt.server_status _ b3 at3 (omega arith)
                        (omega (arith, h.server_status_small)))
                      (λ b4 at4.
                        then-IsPut _ 2 _ _ _ b4 _ _
                          (store_int-IsPut 2 len pkt.warning_count _ b4 at4 (omega arith)
                            (omega (arith, h.warning_count_small)))
                          (λ b5 at5.
                            store_message-IsPut pkt.message len _ b5 at5 (omega arith)
                              h.message_small h.message-IsBytes))))))

  -- With the room for a packet of less than 2^24 bytes behind its header, `encode` succeeds and writes
  -- nothing else: the packet's length in three bytes, the sequence number 2, and the fields, each of
  -- which is read back at its place. The whole is no longer than `get_serialize_size` and the header.
  pub encode-read :
      (len : ℕ) (b : Buffer)
      → IsOkPacket
      → b.pos + 4 + body_size ≤ len
      → body_size < 2 ^ 24
      → (b' : Buffer) × (encode len pkt b ≡ (success, b'))
        × (b'.pos ≡ b.pos + 4 + body_size)
        × ((j : ℕ) → (j < b.pos) ⊎ (b.pos + 4 + body_size ≤ j) → b'.bytes j ≡ b.bytes j)
        × (get_le 3 b'.bytes b.pos ≡ body_size)
        × (get_le 1 b'.bytes (b.pos + 3) ≡ 2)
        × IsBody (b.pos + 4) b'.bytes
        × (body_size ≤ get_serialize_size pkt)
  unfolding encode get_serialize_size
  encode-read len b h room small =
      let a = b.pos in
      let open_ : (len == 0) ≡ false = ground (arith, room) in
      let (b1, run, moved, frame, reads) =
        serialize-IsPut len (a + 4) (record b { pos = a + 4 }) h refl room in
      let size : (b1.pos - a - 4) % 2 ^ 32 ≡ body_size = omega (arith, moved, small) in
      let (b2, run', moved', frame', reads') =
        then-IsPut a 3 1 _ _ (record b1 { pos = a }) _ (λ b2. store_int 1 len 2 b2)
          (store_int-IsPut 3 len body_size a (record b1 { pos = a }) refl (omega (arith, room))
            (omega (arith, small)))
          (λ c at. store_int-IsPut 1 len 2 (a + 3) c at (omega (arith, room)) (omega arith)) in
      let la = length_size_le pkt.affected_rows in
      let li = length_size_le pkt.insert_id in
      let lm = message_size_le pkt.message in
      let message_fits : body_size ≤ 5 + 9 + 9 + (9 + length pkt.message) =
        omega (arith, la, li, lm) in
      let header = reads' b2.bytes (λ j p q. refl) in
      (
        record b2 { pos = b1.pos },
        rw open_ (ap (put_header len a) run ∙ put_header_run len a body_size b1 b2 size run'),
        moved,
        (λ j o. frame' j (ground (arith, o)) ∙ frame j (ground (arith, o))),
        header.0,
        header.1,
        reads b2.bytes (λ j p q. frame' j (inr p)),
        message_fits,
      )
