-- ===== src/Websocket/Frame/Header.antt =====
-- The header that `pack` writes, as `unpack` reads it.
use share.Base.{
  ℕ, ◌-◌, ◌^◌, ◌<◌, ◌≡◌, ◌⊎◌, inl, inr, refl, ap, ◌∙◌, [], ◌∷◌, ◌++◌, arith, length, bit_or, u8,
  u16, Bytes,
}
use native.Mathlib.Decide.{dec_lt}
use share.Websocket.Frame.{Frame, empty_frame, size_field, extended_size}
use share.Websocket.Frame.BigEndian.{put_big_endian, big_endian-put_two, big_endian-put_eight}
use share.Websocket.Frame.Mask.{IsFlag, flag_byte, opcode_byte}
use share.Websocket.Frame.Steps.{read_extended_whole}
use share.Websocket.Frame.Unpack.{Progress, more, read_extended, read_length, read_header}

-- What `pack` accepts: a frame with fields of their widths.
pub record IsPackable (f : Frame) : Type 0 where
  pub fin_flag : IsFlag f.fin
  pub opcode_low : f.opcode < 16
  pub masked_flag : IsFlag f.masked
  pub fits : length f.payload < 2 ^ 63

-- The frame after the two first bytes.
abbrev pub after_two : Frame → Frame
after_two f = record empty_frame {
  fin = f.fin;
  opcode = f.opcode;
  masked = f.masked;
  len = size_field (length f.payload);
  chopped = bit_or f.fin (u8 f.opcode) ∷ bit_or f.masked (u8 (size_field (length f.payload))) ∷ [];
}

size_field-lt : (n : ℕ) → size_field n < 128
unfolding size_field
size_field-lt n = ground arith

pub read_two :
    (f : Frame) (rest : Bytes)
    → IsPackable f
    → read_header empty_frame
        (bit_or f.fin (u8 f.opcode) ∷ bit_or f.masked (u8 (size_field (length f.payload))) ∷ rest)
      ≡ read_length (after_two f) rest
unfolding read_header
read_two f rest p =
    let (e1, e2, e3, e4, e5) = opcode_byte f.fin f.opcode p.fin_flag p.opcode_low in
    let (m1, m2) =
      flag_byte f.masked (size_field (length f.payload)) p.masked_flag (size_field-lt _) in
    rw (e1, e2, e3, e4, e5, m1, m2)

-- The frame after the extended length.
abbrev pub after_length : Frame → Frame
after_length f = record (after_two f) {
  len = length f.payload;
  chopped = (after_two f).chopped ++ extended_size (length f.payload);
}

-- The three forms of a length.
size_cases :
    (n : ℕ)
    → ((size_field n ≡ 127) × (extended_size n ≡ put_big_endian 8 n))
      ⊎ ((n < 2 ^ 16) × (size_field n ≡ 126) × (extended_size n ≡ put_big_endian 2 (u16 n)))
      ⊎ ((n < 126) × (size_field n ≡ n) × (extended_size n ≡ []))
unfolding extended_size
size_cases n = elim (dec_lt (2 ^ 16 - 1) n) [
  | yes big ↦ inl (ground arith, ground arith)
  | no h ↦ elim (dec_lt 125 n) [
    | yes middle ↦ inr (inl (omega arith, ground arith, ground arith))
    | no small ↦ inr (inr (omega arith, ground arith, ground arith))
  ]
]

read_length_large :
    (f : Frame) (packet : Bytes) → f.len ≡ 127 → read_length f packet ≡ read_extended 10 f packet
unfolding read_length
read_length_large f packet e = rw (e, read_length)

read_length_medium :
    (f : Frame) (packet : Bytes) → f.len ≡ 126 → read_length f packet ≡ read_extended 4 f packet
unfolding read_length
read_length_medium f packet e = rw (e, read_length)

read_length_small :
    (f : Frame) (packet : Bytes) → f.len < 126 → read_length f packet ≡ more f packet
unfolding read_length
read_length_small f packet e = ground arith

-- The frame with a length and the bytes that were read for it.
abbrev lengthened : Frame → Bytes → ℕ → Bytes → Progress
lengthened f ext n rest =
    more (record (after_two f) { len = n; chopped = (after_two f).chopped ++ ext }) rest

pub read_length-after_two :
    (f : Frame) (rest : Bytes)
    → IsPackable f
    → read_length (after_two f) (extended_size (length f.payload) ++ rest)
      ≡ more (after_length f) rest
read_length-after_two f rest p = elim (size_cases (length f.payload)) [
  | inl (size, ext) ↦ rw ext (
      read_length_large (after_two f) _ size
      ∙ read_extended_whole 10 (after_two f) (omega arith) (put_big_endian 8 (length f.payload))
          rest refl
      ∙ ap (λ (t : ℕ). lengthened f (put_big_endian 8 (length f.payload)) t rest)
          (big_endian-put_eight (length f.payload) (omega (arith, p.fits))))
  | inr (inl (low, size, ext)) ↦
      let n = u16 (length f.payload) in
      rw ext (
        read_length_medium (after_two f) _ size
        ∙ read_extended_whole 4 (after_two f) (omega arith) (put_big_endian 2 n) rest refl
        ∙ ap (λ (t : ℕ). lengthened f (put_big_endian 2 n) t rest)
            (big_endian-put_two n (omega arith) ∙ omega arith))
  | inr (inr (low, size, ext)) ↦ rw ext (
      read_length_small (after_two f) rest (omega arith)
      ∙ ap (λ (t : ℕ). lengthened f [] t rest) size)
]
