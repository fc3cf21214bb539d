-- ===== src/Tests/Packet.antt =====
-- The theorems on the packets' lengths and strings in a small buffer.
use cat_db.Prelude.{ℕ, ◌≡◌, ◌<◌, ◌≤◌, ◌⊎◌, [], ◌∷◌, arith}
use cat_db.Storage.Memory.{read}
use cat_db.Packet.Ok.{OkPacket, IsOkPacket, IsBody, encode, get_serialize_size, encode-read}
use cat_db.Packet.Str.{store_str_v-read}
use cat_db.Error.{success}
use cat_db.Packet.{Buffer, store_length, store_str_v, get_length, get_le}
use cat_db.Packet.Length.{IsLengthStored}
use cat_db.Packet.Roundtrip.{store_length-get_length}

abbrev buffer : Buffer
buffer = record { bytes = λ i. 0; pos = 2 }

store_length-get_length_example : IsLengthStored 1000 buffer 3 (store_length 8 1000 buffer)
store_length-get_length_example = store_length-get_length 1000 8 buffer (omega arith) (omega arith)

store_str_v-read_example :
    (b' : Buffer) × (store_str_v 8 (104 ∷ 105 ∷ []) buffer ≡ (success, b'))
    × (b'.pos ≡ 5)
    × ((j : ℕ) → (j < 2) ⊎ (5 ≤ j) → b'.bytes j ≡ 0)
    × (get_length b'.bytes 2 ≡ (success, 2, 3))
    × (read b'.bytes 3 2 ≡ 104 ∷ 105 ∷ [])
store_str_v-read_example =
    store_str_v-read (104 ∷ 105 ∷ []) 8 buffer (omega arith, (omega arith, tt)) (omega arith)
      (omega arith)

-- Two rows changed, and the message "hi".
abbrev two_rows : OkPacket
two_rows = record {
  field_count = 0;
  affected_rows = 2;
  insert_id = 1000;
  server_status = 34;
  warning_count = 0;
  message = 104 ∷ 105 ∷ [];
}

two_rows-IsOkPacket : IsOkPacket two_rows
two_rows-IsOkPacket = record {
  field_count_small = omega arith;
  affected_rows_small = omega arith;
  insert_id_small = omega arith;
  server_status_small = omega arith;
  warning_count_small = omega arith;
  message_small = omega arith;
  message-IsBytes = (omega arith, (omega arith, tt));
}

encode-read_example :
    (b' : Buffer) × (encode 64 two_rows buffer ≡ (success, b'))
    × (b'.pos ≡ 18)
    × ((j : ℕ) → (j < 2) ⊎ (18 ≤ j) → b'.bytes j ≡ 0)
    × (get_le 3 b'.bytes 2 ≡ 12)
    × (get_le 1 b'.bytes 5 ≡ 2)
    × IsBody two_rows 6 b'.bytes
    × (12 ≤ get_serialize_size two_rows)
encode-read_example = encode-read two_rows 64 buffer two_rows-IsOkPacket (omega arith) (omega arith)
