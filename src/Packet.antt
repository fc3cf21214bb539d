-- ===== src/Packet.antt =====
-- server/packet/util.h, server/packet/util.cpp and the macros of server/global.h: numbers, lengths and
-- strings of the MySQL protocol in a buffer. A position is not negative here.
pub mod Int
pub mod Length
pub mod Roundtrip
pub mod Str
pub mod Put
pub mod Ok
use cat_db.Prelude.{
  ℕ, zero, suc, ◌+◌, ◌-◌, ◌*◌, ◌/◌, ◌%◌, ◌^◌, Bool, true, false, ◌&&◌, ◌||◌, not, List, [], ◌∷◌,
  if◌then◌else◌, ltb, leb, ◌==◌, length,
}
use cat_db.Error.{Code, success, size_overflow, invalid_argument, is_success}
use cat_db.Storage.Memory.{Memory, put8, write, read}

-- `buf` and `pos`; the length `len` of the buffer is an argument of the operations.
pub record Buffer : Type 0 where
  pub bytes : Memory
  pub pos : ℕ

-- `int1store` to `int8store` and `uint1korr` to `uint8korr`: `n` bytes, the lowest first.
unfoldable pub put_le : ℕ → Memory → ℕ → ℕ → Memory
put_le zero m a v = m
put_le (suc n) m a v = put_le n (put8 m a v) (a + 1) (v / 256)

unfoldable pub get_le : ℕ → Memory → ℕ → ℕ
get_le zero m a = 0
get_le (suc n) m a = m a + 256 * get_le n m (a + 1)

-- `store_int1`, `store_int2`, … by the number of bytes.
unfoldable pub store_int : ℕ → ℕ → ℕ → Buffer → Code × Buffer
store_int n len v b =
    if leb (b.pos + n) len
    then (success, record { bytes = put_le n b.bytes b.pos v; pos = b.pos + n })
    else (size_overflow, b)

abbrev pub null_value : ℕ
null_value = 2 ^ 64 - 1

abbrev pub store_null : ℕ → Buffer → Code × Buffer
store_null len b = store_int 1 len 251 b

-- A sentinel and a number behind it; when the number does not fit, the sentinel is taken back.
unfoldable pub store_marked : ℕ → ℕ → ℕ → ℕ → Buffer → Code × Buffer
store_marked sentinel n len v b =
    let (ret, b1) = store_int 1 len sentinel b in
    let (ret2, b2) = store_int n len v b1 in
    if is_success ret
    then (if is_success ret2 then (ret2, b2) else (ret2, record b2 { pos = b2.pos - 1 }))
    else (ret, b1)

unfoldable pub store_length : ℕ → ℕ → Buffer → Code × Buffer
store_length len v b =
    let remain = len - b.pos in
    if leb len b.pos
    then (size_overflow, b)
    else if ltb v 251 && leb 1 remain
    then store_int 1 len v b
    else if ltb v 0x10000 && leb 3 remain
    then store_marked 252 2 len v b
    else if ltb v 0x1000000 && leb 4 remain
    then store_marked 253 3 len v b
    else if ltb v null_value && leb 9 remain
    then store_marked 254 8 len v b
    else if v == null_value
    then store_null len b
    else (size_overflow, b)

-- The call's code, `length` (0 where it is left alone) and the position behind.
unfoldable pub get_length : Memory → ℕ → Code × ℕ × ℕ
get_length m a =
    let sentinel = get_le 1 m a in
    if ltb sentinel 251
    then (success, sentinel, a + 1)
    else if sentinel == 251
    then (success, null_value, a + 1)
    else if sentinel == 252
    then (success, get_le 2 m (a + 1), a + 3)
    else if sentinel == 253
    then (success, get_le 3 m (a + 1), a + 4)
    else if sentinel == 254
    then (success, get_le 8 m (a + 1), a + 9)
    else (invalid_argument, 0, a)

-- `store_str_v` and `store_obstr`: what does not fit leaves the position where it was.
unfoldable pub store_str_v : ℕ → List ℕ → Buffer → Code × Buffer
store_str_v len str b =
    let (ret, b1) = store_length len (length str) b in
    if not (is_success ret)
    then (ret, b1)
    else if leb b1.pos len && leb (length str) (len - b1.pos)
    then (success, record { bytes = write b1.bytes b1.pos str; pos = b1.pos + length str })
    else (size_overflow, record b1 { pos = b.pos })

-- `store_str_vzt` and `store_obstr_zt`: the string and a 0 behind it.
unfoldable pub store_str_vzt : ℕ → List ℕ → Buffer → Code × Buffer
store_str_vzt len str b =
    if ltb 0 len && ltb 0 b.pos && ltb b.pos len && ltb (length str) (len - b.pos)
    then (
      success,
      record {
        bytes = put8 (write b.bytes b.pos str) (b.pos + length str) 0;
        pos = b.pos + length str + 1;
      },
    )
    else (size_overflow, b)

unfoldable pub store_obstr_nzt : ℕ → List ℕ → Buffer → Code × Buffer
store_obstr_nzt len str b =
    if ltb 0 len && ltb 0 b.pos && ltb b.pos len && leb (length str) (len - b.pos)
    then (success, record { bytes = write b.bytes b.pos str; pos = b.pos + length str })
    else (size_overflow, b)
