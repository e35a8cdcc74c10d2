-- ===== src/Bytes/Integers.antt =====
-- Integers in network byte order: the functions Append*, Read* and Write* of lib/bytes/bytes.go.
pub mod RoundTrip
pub mod Write
use share.Base.{
  ◌>>=◌, ℕ, ◌+◌, ◌-◌, ◌*◌, ◌/◌, ◌%◌, ◌^◌, ◌<◌, Option, none, some, List, [], ◌∷◌, ◌++◌, ltb, leb,
  if◌then◌else◌, get_elem?, set, length, bit_or, u8, u16, u32, Bytes,
}
use share.Base.Int.{ℤ, pos, negsuc}

-- `v >> k` of a signed number rounds down, and `byte(v)` keeps its low eight bits.
abbrev pub shift_right : ℤ → ℕ → ℤ
shift_right (pos n) k = pos (n / 2 ^ k)
shift_right (negsuc n) k = negsuc (n / 2 ^ k)

abbrev pub byte_of : ℤ → ℕ
byte_of (pos n) = u8 n
byte_of (negsuc n) = 2 ^ 8 - 1 - u8 n

-- The integer that a pattern of `w` bits stands for.
abbrev pub signed : ℕ → ℕ → ℤ
signed w n = if ltb n (2 ^ (w - 1)) then pos n else negsuc (2 ^ w - n - 1)

unfoldable pub append_int16 : Bytes → ℤ → Bytes
append_int16 d v = let d1 = d ++ (byte_of (shift_right v 8) ∷ []) in d1 ++ (byte_of v ∷ [])

unfoldable pub append_int32 : Bytes → ℤ → Bytes
append_int32 d v =
    let d1 = d ++ (byte_of (shift_right v 24) ∷ []) in
    let d2 = d1 ++ (byte_of (shift_right v 16) ∷ []) in
    let d3 = d2 ++ (byte_of (shift_right v 8) ∷ []) in d3 ++ (byte_of v ∷ [])

unfoldable pub append_uint16 : Bytes → ℕ → Bytes
append_uint16 d v = let d1 = d ++ (u8 (v / 2 ^ 8) ∷ []) in d1 ++ (u8 v ∷ [])

unfoldable pub append_uint32 : Bytes → ℕ → Bytes
append_uint32 d v =
    let d1 = d ++ (u8 (v / 2 ^ 24) ∷ []) in
    let d2 = d1 ++ (u8 (v / 2 ^ 16) ∷ []) in
    let d3 = d2 ++ (u8 (v / 2 ^ 8) ∷ []) in d3 ++ (u8 v ∷ [])

-- `uint16(data[x])<<8 | uint16(data[x+1])`, the bit pattern that `ReadInt16` reads too.
abbrev pub pattern16 : ℕ → ℕ → ℕ
pattern16 a b = bit_or (u16 (a * 2 ^ 8)) b

abbrev pub pattern32 : ℕ → ℕ → ℕ → ℕ → ℕ
pattern32 a b c d =
    bit_or (bit_or (bit_or (u32 (a * 2 ^ 24)) (u32 (b * 2 ^ 16))) (u32 (c * 2 ^ 8))) d

unfoldable pub read_uint16 : Bytes → ℕ → Option ℕ
read_uint16 d x = do a ← get_elem? d x; b ← get_elem? d (x + 1); some (pattern16 a b)

unfoldable pub read_uint32 : Bytes → ℕ → Option ℕ
read_uint32 d x = do
  a ← get_elem? d x
  b ← get_elem? d (x + 1)
  c ← get_elem? d (x + 2)
  e ← get_elem? d (x + 3)
  some (pattern32 a b c e)

unfoldable pub read_int16 : Bytes → ℕ → Option ℤ
read_int16 d x = do a ← get_elem? d x; b ← get_elem? d (x + 1); some (signed 16 (pattern16 a b))

unfoldable pub read_int32 : Bytes → ℕ → Option ℤ
read_int32 d x = do
  a ← get_elem? d x
  b ← get_elem? d (x + 1)
  c ← get_elem? d (x + 2)
  e ← get_elem? d (x + 3)
  some (signed 32 (pattern32 a b c e))

-- `(*data)[x] = b`
abbrev pub write_byte : Bytes → ℕ → ℕ → Option Bytes
write_byte d x b = if ltb x (length d) then some (set d x b) else none

unfoldable pub write_uint16 : Bytes → ℕ → ℕ → Option Bytes
write_uint16 d x v = do d1 ← write_byte d x (u8 (v / 2 ^ 8)); write_byte d1 (x + 1) (u8 v)

unfoldable pub write_uint32 : Bytes → ℕ → ℕ → Option Bytes
write_uint32 d x v = do
  d1 ← write_byte d x (u8 (v / 2 ^ 24))
  d2 ← write_byte d1 (x + 1) (u8 (v / 2 ^ 16))
  d3 ← write_byte d2 (x + 2) (u8 (v / 2 ^ 8))
  write_byte d3 (x + 3) (u8 v)
