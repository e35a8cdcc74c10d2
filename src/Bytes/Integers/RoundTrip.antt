-- ===== src/Bytes/Integers/RoundTrip.antt =====
-- What is appended or written is read back.
use share.Base.{
  ℕ, ◌+◌, ◌*◌, ◌/◌, ◌^◌, ◌<◌, ◌≡◌, ap, ◌∙◌, some, ◌∷◌, ◌++◌, append_assoc, arith, get_elem?, length,
  get_elem?-append_right, bit_or, u8, u16, u32, Bytes, IsByte,
}
use share.Base.Int.{ℤ, pos, negsuc}
use share.Base.Bits.{bit_or_fields}
use share.Bytes.Integers.{
  shift_right, byte_of, signed, pattern16, pattern32, append_int16, append_int32, append_uint16,
  append_uint32, read_uint16, read_uint32, read_int16, read_int32,
}

-- The patterns are sums.
pub pattern16_sum : (a b : ℕ) → IsByte a → IsByte b → pattern16 a b ≡ a * 256 + b
pattern16_sum a b ha hb =
    let e : u16 (a * 2 ^ 8) ≡ a * 2 ^ 8 = omega arith in rw e (bit_or_fields 8 a b hb)

pub pattern32_sum :
    (a b c d : ℕ)
    → IsByte a
    → IsByte b
    → IsByte c
    → IsByte d
    → pattern32 a b c d ≡ a * 2 ^ 24 + b * 2 ^ 16 + c * 2 ^ 8 + d
pattern32_sum a b c d ha hb hc hd =
    let ea : u32 (a * 2 ^ 24) ≡ a * 2 ^ 24 = omega arith in
    let eb : u32 (b * 2 ^ 16) ≡ b * 2 ^ 16 = omega arith in
    let ec : u32 (c * 2 ^ 8) ≡ c * 2 ^ 8 = omega arith in
    let e2 : a * 2 ^ 24 + b * 2 ^ 16 ≡ (a * 2 ^ 8 + b) * 2 ^ 16 = omega arith in
    let e3 : (a * 2 ^ 8 + b) * 2 ^ 16 + c * 2 ^ 8 ≡ (a * 2 ^ 16 + b * 2 ^ 8 + c) * 2 ^ 8 =
      omega arith in
    ap (λ (t : ℕ). bit_or (bit_or (bit_or t (u32 (b * 2 ^ 16))) (u32 (c * 2 ^ 8))) d) ea
    ∙ ap (λ (t : ℕ). bit_or (bit_or (bit_or (a * 2 ^ 24) t) (u32 (c * 2 ^ 8))) d) eb
    ∙ ap (λ (t : ℕ). bit_or (bit_or (bit_or (a * 2 ^ 24) (b * 2 ^ 16)) t) d) ec
    ∙ ap (λ (t : ℕ). bit_or (bit_or t (c * 2 ^ 8)) d)
        (bit_or_fields 24 a (b * 2 ^ 16) (omega arith) ∙ e2)
    ∙ ap (λ (t : ℕ). bit_or t d) (bit_or_fields 16 (a * 2 ^ 8 + b) (c * 2 ^ 8) (omega arith) ∙ e3)
    ∙ bit_or_fields 8 (a * 2 ^ 16 + b * 2 ^ 8 + c) d hd
    ∙ omega arith

-- Reading at the front of what a slice is followed by.
module _ (d rest : Bytes) (a b : ℕ) where
  get_first : get_elem? (d ++ (a ∷ b ∷ rest)) (length d) ≡ some a
  get_first = get_elem?-append_right d _ 0 (length d) (omega arith)

  get_second : get_elem? (d ++ (a ∷ b ∷ rest)) (length d + 1) ≡ some b
  get_second = get_elem?-append_right d _ 1 (length d + 1) (omega arith)

  read_uint16_at : read_uint16 (d ++ (a ∷ b ∷ rest)) (length d) ≡ some (pattern16 a b)
  unfolding read_uint16
  read_uint16_at = rw get_first (rw get_second)

  read_int16_at : read_int16 (d ++ (a ∷ b ∷ rest)) (length d) ≡ some (signed 16 (pattern16 a b))
  unfolding read_int16
  read_int16_at = rw get_first (rw get_second)

module _ (d rest : Bytes) (a b c e : ℕ) where
  get_fourth :
      (get_elem? (d ++ (a ∷ b ∷ c ∷ e ∷ rest)) (length d + 2) ≡ some c)
      × (get_elem? (d ++ (a ∷ b ∷ c ∷ e ∷ rest)) (length d + 3) ≡ some e)
  get_fourth = (
    get_elem?-append_right d _ 2 (length d + 2) (omega arith),
    get_elem?-append_right d _ 3 (length d + 3) (omega arith),
  )

  read_uint32_at : read_uint32 (d ++ (a ∷ b ∷ c ∷ e ∷ rest)) (length d) ≡ some (pattern32 a b c e)
  unfolding read_uint32
  read_uint32_at =
      rw (get_first d (c ∷ e ∷ rest) a b)
        (rw (get_second d (c ∷ e ∷ rest) a b) (rw get_fourth.0 (rw get_fourth.1)))

  read_int32_at :
      read_int32 (d ++ (a ∷ b ∷ c ∷ e ∷ rest)) (length d) ≡ some (signed 32 (pattern32 a b c e))
  unfolding read_int32
  read_int32_at =
      rw (get_first d (c ∷ e ∷ rest) a b)
        (rw (get_second d (c ∷ e ∷ rest) a b) (rw get_fourth.0 (rw get_fourth.1)))

-- `ReadUint16` reads back at the old end what `AppendUint16` appended, whatever follows it.
pub read_uint16-append_uint16 :
    (d rest : Bytes) (v : ℕ)
    → v < 2 ^ 16
    → read_uint16 (append_uint16 d v ++ rest) (length d) ≡ some v
unfolding append_uint16
read_uint16-append_uint16 d rest v h = simp append_assoc (
    read_uint16_at d rest (u8 (v / 2 ^ 8)) (u8 v)
    ∙ ap some (pattern16_sum (u8 (v / 2 ^ 8)) (u8 v) (omega arith) (omega arith) ∙ omega arith))

-- `ReadUint32` reads back at the old end what `AppendUint32` appended, whatever follows it.
pub read_uint32-append_uint32 :
    (d rest : Bytes) (v : ℕ)
    → v < 2 ^ 32
    → read_uint32 (append_uint32 d v ++ rest) (length d) ≡ some v
unfolding append_uint32
read_uint32-append_uint32 d rest v h = simp append_assoc (
    read_uint32_at d rest (u8 (v / 2 ^ 24)) (u8 (v / 2 ^ 16)) (u8 (v / 2 ^ 8)) (u8 v)
    ∙ ap some (
        pattern32_sum (u8 (v / 2 ^ 24)) (u8 (v / 2 ^ 16)) (u8 (v / 2 ^ 8)) (u8 v) (omega arith)
          (omega arith) (omega arith) (omega arith)
        ∙ omega arith))

-- `v` is an integer of `w + 1` bits.
abbrev pub FitsSigned : ℕ → ℤ → Type 0
FitsSigned w (pos n) = n < 2 ^ w
FitsSigned w (negsuc n) = n < 2 ^ w

pub signed16_bytes :
    (v : ℤ) → FitsSigned 15 v → signed 16 (byte_of (shift_right v 8) * 256 + byte_of v) ≡ v
signed16_bytes (pos n) h = ground arith
signed16_bytes (negsuc n) h = ground arith

pub signed32_bytes :
    (v : ℤ)
    → FitsSigned 31 v
    → signed 32 (
        byte_of (shift_right v 24) * 2 ^ 24
        + byte_of (shift_right v 16) * 2 ^ 16
        + byte_of (shift_right v 8) * 2 ^ 8
        + byte_of v)
      ≡ v
signed32_bytes (pos n) h = ground arith
signed32_bytes (negsuc n) h = ground arith

pub byte_of-IsByte : (v : ℤ) → IsByte (byte_of v)
byte_of-IsByte (pos n) = omega arith
byte_of-IsByte (negsuc n) = omega arith

-- `ReadInt16` reads back at the old end the signed number that `AppendInt16` appended.
pub read_int16-append_int16 :
    (d rest : Bytes) (v : ℤ)
    → FitsSigned 15 v
    → read_int16 (append_int16 d v ++ rest) (length d) ≡ some v
unfolding append_int16
read_int16-append_int16 d rest v h = simp append_assoc (
    read_int16_at d rest (byte_of (shift_right v 8)) (byte_of v)
    ∙ ap (λ (t : ℕ). some (signed 16 t))
        (pattern16_sum (byte_of (shift_right v 8)) (byte_of v) (byte_of-IsByte _)
          (byte_of-IsByte v))
    ∙ ap some (signed16_bytes v h))

-- `ReadInt32` reads back at the old end the signed number that `AppendInt32` appended.
pub read_int32-append_int32 :
    (d rest : Bytes) (v : ℤ)
    → FitsSigned 31 v
    → read_int32 (append_int32 d v ++ rest) (length d) ≡ some v
unfolding append_int32
read_int32-append_int32 d rest v h = simp append_assoc (
    read_int32_at d rest (byte_of (shift_right v 24)) (byte_of (shift_right v 16))
      (byte_of (shift_right v 8)) (byte_of v)
    ∙ ap (λ (t : ℕ). some (signed 32 t))
        (pattern32_sum (byte_of (shift_right v 24)) (byte_of (shift_right v 16))
          (byte_of (shift_right v 8)) (byte_of v) (byte_of-IsByte _) (byte_of-IsByte _)
          (byte_of-IsByte _) (byte_of-IsByte v))
    ∙ ap some (signed32_bytes v h))
