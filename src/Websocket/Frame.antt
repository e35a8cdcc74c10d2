-- ===== src/Websocket/Frame.antt =====
-- lib/websocket/frame.go: a frame, packing it and unpacking it from one packet or several. The
-- method receiver that is changed is returned.
pub mod BigEndian
pub mod Unpack
pub mod Mask
pub mod Steps
pub mod Header
pub mod RoundTrip
pub mod Resume
pub mod New
use share.Base.{
  ℕ, zero, suc, ◌+◌, ◌-◌, ◌%◌, ◌^◌, Bool, true, false, not, ◌&&◌, ◌||◌, List, [], ◌∷◌, ◌++◌, Option,
  none, some, ltb, leb, ◌==◌, if◌then◌else◌, get_or, take, drop, length, bit_and, bit_or, bit_xor,
  u8, u16, u64, Bytes,
}
use BigEndian.{big_endian, put_big_endian, put_little_endian}

-- The constants of websocket.go, opcode.go and closecode.go.
abbrev pub frame_small_payload : ℕ
frame_small_payload = 125

abbrev pub frame_medium_payload : ℕ
frame_medium_payload = 126

abbrev pub frame_large_payload : ℕ
frame_large_payload = 127

abbrev pub frame_is_finished : ℕ
frame_is_finished = 0x80

abbrev pub frame_is_masked : ℕ
frame_is_masked = 0x80

abbrev pub opcode_cont : ℕ
opcode_cont = 0

abbrev pub opcode_text : ℕ
opcode_text = 1

abbrev pub opcode_bin : ℕ
opcode_bin = 2

abbrev pub opcode_close : ℕ
opcode_close = 8

abbrev pub opcode_ping : ℕ
opcode_ping = 9

abbrev pub opcode_pong : ℕ
opcode_pong = 10

abbrev pub status_normal : ℕ
status_normal = 1000

abbrev pub status_bad_request : ℕ
status_bad_request = 1002

pub record Frame : Type 0 where
  pub fin : ℕ
  pub rsv1 : ℕ
  pub rsv2 : ℕ
  pub rsv3 : ℕ
  pub opcode : ℕ
  pub masked : ℕ
  pub close_code : ℕ
  pub len : ℕ  -- uint64
  pub mask_key : Bytes
  pub payload : Bytes
  pub chopped : Bytes
  pub is_complete : Bool

-- `&Frame{}`
abbrev pub empty_frame : Frame
empty_frame = record {
  fin = 0;
  rsv1 = 0;
  rsv2 = 0;
  rsv3 = 0;
  opcode = 0;
  masked = 0;
  close_code = 0;
  len = 0;
  mask_key = [];
  payload = [];
  chopped = [];
  is_complete = false;
}

unfoldable pub is_data : Frame → Bool
is_data f = f.opcode == opcode_text || f.opcode == opcode_bin

unfoldable pub is_valid : Frame → Bool → Bool → Bool → Bool → Bool
is_valid f is_masked allow_rsv1 allow_rsv2 allow_rsv3 =
    let masked_bit = f.masked == frame_is_masked in
    if (if is_masked then not masked_bit else masked_bit)
    then false
    else if ltb 0 f.rsv1 && not allow_rsv1
    then false
    else if ltb 0 f.rsv2 && not allow_rsv2
    then false
    else if ltb 0 f.rsv3 && not allow_rsv3
    then false
    else if leb opcode_close f.opcode && (f.fin == 0 || ltb frame_small_payload f.len)
    then false
    else true

-- `x[y] ^ maskKey[y%4]` for `y` from `i` on. The key has four bytes wherever this is called.
unfoldable pub mask_bytes : Bytes → ℕ → Bytes → Bytes
mask_bytes key i [] = []
mask_bytes key i (b ∷ bs) = bit_xor b (get_or key (i % 4) 0) ∷ mask_bytes key (i + 1) bs

-- The length field for a payload of `n` bytes.
unfoldable pub size_field : ℕ → ℕ
size_field n =
    if ltb (2 ^ 16 - 1) n
    then frame_large_payload
    else if ltb frame_small_payload n
    then frame_medium_payload
    else n

-- The bytes of the extended length.
unfoldable pub extended_size : ℕ → Bytes
unfolding size_field
extended_size n =
    if size_field n == frame_large_payload
    then put_big_endian 8 n
    else if size_field n == frame_medium_payload
    then put_big_endian 2 (u16 n)
    else []

-- `random` is what `rand.Uint32()` returns.
unfoldable pub pack_key : ℕ → Frame → Bytes
pack_key random f = if length f.mask_key == 4 then f.mask_key else put_little_endian 4 random

-- `out` is filled from the left, and has as many bytes as are written to it.
unfoldable pub pack : ℕ → Frame → Bytes × Frame
pack random f =
    let n = length f.payload in
    let f1 = record f { len = size_field n } in
    let head = bit_or f.fin (u8 f.opcode) ∷ bit_or f.masked (u8 f1.len) ∷ [] in
    let key = pack_key random f in
    if f.masked == frame_is_masked
    then (
      head ++ (extended_size n ++ (key ++ mask_bytes key 0 f.payload)),
      record f1 { mask_key = key },
    )
    else (head ++ (extended_size n ++ f.payload), f1)
