-- ===== src/Websocket/Frame/RoundTrip.antt =====
-- What `pack` writes, `unpack` reads.
use share.Base.{
  ℕ, ◌≡◌, inl, inr, refl, sym, ap, ap₂, ◌∙◌, true, [], ◌∷◌, ◌++◌, append_assoc, some, arith, ◌==◌,
  if◌then◌else◌, Bool-cases, length, bit_or, u8, Bytes,
}
use native.Mathlib.Decide.{ℕ_discrete}
use share.Websocket.Frame.{
  Frame, empty_frame, mask_bytes, size_field, extended_size, pack_key, pack, frame_is_masked,
  opcode_close,
}
use share.Websocket.Frame.Mask.{length-mask_bytes, mask_bytes_twice}
use share.Websocket.Frame.Header.{IsPackable, after_length, read_two, read_length-after_two}
use share.Websocket.Frame.Steps.{
  read_key_whole, read_key_done, read_payload_whole, read_payload_none,
}
use share.Websocket.Frame.Unpack.{
  Progress, more, and_then, read_key, close_status, complete, unmasked, read_payload, finish,
  unpack,
}

nil_of_length : (l : Bytes) → length l ≡ 0 → l ≡ []
nil_of_length [] h = refl
nil_of_length (b ∷ l) h = absurd (omega arith)

length-pack_key : (random : ℕ) (f : Frame) → length (pack_key random f) ≡ 4
unfolding pack_key
length-pack_key random f = ground arith

-- The key in the frame that is read: none if the frame is not masked.
abbrev pub key_of : ℕ → Frame → Bytes
key_of random f = if f.masked == frame_is_masked then pack_key random f else []

-- The payload as it stands on the wire.
abbrev wire_payload : ℕ → Frame → Bytes
wire_payload random f =
    if f.masked == frame_is_masked then mask_bytes (pack_key random f) 0 f.payload else f.payload

-- The frame before its payload.
abbrev after_key : ℕ → Frame → Frame
after_key random f = record (after_length f) { mask_key = key_of random f }

-- The frame that comes out.
abbrev pub received : ℕ → Frame → Frame
received random f = record {
  fin = f.fin;
  rsv1 = 0;
  rsv2 = 0;
  rsv3 = 0;
  opcode = f.opcode;
  masked = f.masked;
  close_code = if f.opcode == opcode_close then close_status f.payload else 0;
  len = length f.payload;
  mask_key = key_of random f;
  payload = f.payload;
  chopped = [];
  is_complete = true;
}

module _ (random : ℕ) (f : Frame) (rest : Bytes) where
  pack_bytes :
      (pack random f).0 ++ rest
      ≡ bit_or f.fin (u8 f.opcode)
        ∷ bit_or f.masked (u8 (size_field (length f.payload)))
        ∷ (extended_size (length f.payload) ++ (key_of random f ++ (wire_payload random f ++ rest)))
  unfolding pack
  pack_bytes = elim (Bool-cases (f.masked == frame_is_masked)) [
    | inl on ↦ rw on (simp append_assoc)
    | inr off ↦ rw off (simp append_assoc)
  ]

  read_key-after_length :
      read_key (after_length f) (key_of random f ++ (wire_payload random f ++ rest))
      ≡ more (after_key random f) (wire_payload random f ++ rest)
  read_key-after_length = elim (Bool-cases (f.masked == frame_is_masked)) [
    | inl on ↦ rw on (
        read_key_whole (after_length f) (ground arith) (pack_key random f) _
          (omega (arith, length-pack_key random f)) (omega (arith, length-pack_key random f)))
    | inr off ↦ rw off (read_key_done (after_length f) _ (λ e. ground arith))
  ]

  length-wire_payload : length (wire_payload random f) ≡ length f.payload
  length-wire_payload = ground (arith, length-mask_bytes (pack_key random f) 0 f.payload)

  unmasked-wire_payload : unmasked (after_key random f) (wire_payload random f) ≡ f.payload
  unmasked-wire_payload = elim (Bool-cases (f.masked == frame_is_masked)) [
    | inl on ↦ rw on (mask_bytes_twice (pack_key random f) 0 f.payload)
    | inr off ↦ rw off
  ]

  read_payload-after_key :
      IsPackable f
      → read_payload (after_key random f) (wire_payload random f ++ rest)
        ≡ (received random f, rest)
  read_payload-after_key p = elim (ℕ_discrete (length f.payload) 0) [
    | yes none_there ↦
        read_payload_none (after_key random f) (wire_payload random f ++ rest) none_there refl
        ∙ ap₂
            (λ (l w : Bytes). (
              record (received random f) {
                close_code = if f.opcode == opcode_close then close_status l else 0;
                payload = l;
              },
              w ++ rest,
            ))
            (sym (nil_of_length f.payload none_there))
            (nil_of_length (wire_payload random f) (omega (arith, length-wire_payload)))
    | no some_there ↦
        read_payload_whole (after_key random f) (omega (arith, p.fits)) (wire_payload random f) rest
          (omega (arith, length-wire_payload)) (omega (arith, length-wire_payload))
        ∙ ap (λ (l : Bytes). (complete (record (after_key random f) { payload = l }), rest))
            unmasked-wire_payload
  ]

-- `unpack` reads back a frame that `pack` wrote, with whatever follows it left over: all three
-- length forms, masked or not. The payload, the opcode, the fin and mask bits are those of the
-- frame, the reserved bits are 0, the frame is complete, and a CLOSE frame has the status that its
-- payload begins with.
pub unpack-pack :
    (random : ℕ) (f : Frame) (rest : Bytes)
    → IsPackable f
    → unpack empty_frame ((pack random f).0 ++ rest) ≡ some (received random f, rest)
unfolding unpack
unpack-pack random f rest p = rw (pack_bytes random f rest) (
    ap (λ (h : Progress). finish (and_then h read_key))
      (read_two f _ p ∙ read_length-after_two f _ p)
    ∙ ap finish (read_key-after_length random f rest)
    ∙ ap some (read_payload-after_key random f rest p))
