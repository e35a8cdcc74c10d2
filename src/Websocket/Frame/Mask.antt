-- ===== src/Websocket/Frame/Mask.antt =====
-- The mask of a payload, and the two halves of a header byte.
use share.Base.{
  ℕ, suc, ◌+◌, ◌%◌, ◌^◌, ◌<◌, ◌≡◌, ◌⊎◌, inl, inr, refl, ap, ap₂, ◌∙◌, [], ◌∷◌, arith, get_or,
  length, bit_and, bit_or, u8, Bytes,
}
use share.Base.Bits.{bit_or_fields, bit_xor_cancel, top_bit, low_seven, low_four, middle_bits}
use share.Websocket.Frame.{mask_bytes}

pub length-mask_bytes :
    (key : Bytes) (i : ℕ) (bs : Bytes) → length (mask_bytes key i bs) ≡ length bs
unfolding mask_bytes
length-mask_bytes key i [] = refl
length-mask_bytes key i (b ∷ bs) = ap suc (length-mask_bytes key (i + 1) bs)

-- The mask is its own inverse.
pub mask_bytes_twice :
    (key : Bytes) (i : ℕ) (bs : Bytes) → mask_bytes key i (mask_bytes key i bs) ≡ bs
unfolding mask_bytes
mask_bytes_twice key i [] = refl
mask_bytes_twice key i (b ∷ bs) =
    ap₂ ◌∷◌ (bit_xor_cancel b (get_or key (i % 4) 0)) (mask_bytes_twice key (i + 1) bs)

-- A bit in a byte that is 0 or the top bit.
abbrev pub IsFlag : ℕ → Type 0
IsFlag b = (b ≡ 0) ⊎ (b ≡ 0x80)

flag_or : (flag low : ℕ) → IsFlag flag → low < 128 → bit_or flag (u8 low) ≡ flag + low
flag_or flag low (inl e) h =
    let same : low % 2 ^ 8 ≡ low = omega arith in
    rw (e, same) (bit_or_fields 8 0 low (omega arith) ∙ omega arith)
flag_or flag low (inr e) h =
    let same : low % 2 ^ 8 ≡ low = omega arith in rw (e, same) (bit_or_fields 7 1 low h)

-- The two halves of a header byte come back.
pub flag_byte :
    (flag low : ℕ)
    → IsFlag flag
    → low < 128
    → (bit_and (bit_or flag (u8 low)) 0x80 ≡ flag) × (bit_and (bit_or flag (u8 low)) 0x7f ≡ low)
flag_byte flag low h k =
    rw (flag_or flag low h k) (ground (arith, top_bit (flag + low), low_seven (flag + low)))

pub opcode_byte :
    (flag low : ℕ)
    → IsFlag flag
    → low < 16
    → let b = bit_or flag (u8 low) in
      (bit_and b 0x80 ≡ flag)
      × (bit_and b 0x40 ≡ 0)
      × (bit_and b 0x20 ≡ 0)
      × (bit_and b 0x10 ≡ 0)
      × (bit_and b 0x0f ≡ low)
opcode_byte flag low h k =
    let b = flag + low in
    rw (flag_or flag low h (omega arith)) (ground (arith, top_bit b, middle_bits b, low_four b))
