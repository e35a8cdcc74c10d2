-- ===== src/Websocket/Frame/Steps.antt =====
-- The parts of `unpack` on a packet that is long enough, and on one that is not.
use share.Base.{
  ℕ, ◌+◌, ◌-◌, ◌%◌, ◌^◌, ◌<◌, ◌≤◌, ◌≡◌, refl, sym, ap, ◌∙◌, [], ◌∷◌, ◌++◌, append-nil, arith, ◌==◌,
  if◌then◌else◌, take, drop, length, length-append, take-append_exact, drop-append_exact, Bytes,
}
use share.Websocket.Frame.{Frame, mask_bytes, frame_is_masked}
use share.Websocket.Frame.BigEndian.{big_endian}
use share.Websocket.Frame.Mask.{length-mask_bytes}
use share.Websocket.Frame.Unpack.{
  stop, more, read_extended, read_key, close_status, complete, unmasked, wanted, take_payload,
  read_payload,
}

module _ (width : ℕ) (f : Frame) (h : length f.chopped < width) where
  pub read_extended_whole :
      (chunk rest : Bytes)
      → length f.chopped + length chunk ≡ width
      → read_extended width f (chunk ++ rest)
        ≡ more
            (record f {
              chopped = f.chopped ++ chunk;
              len = big_endian 0 (take (width - 2) (drop 2 (f.chopped ++ chunk)));
            })
            rest
  unfolding read_extended
  read_extended_whole chunk rest e =
      let exp : width - length f.chopped ≡ length chunk = omega arith in
      ground (
        arith,
        length-append chunk rest,
        take-append_exact chunk rest (width - length f.chopped) exp,
        drop-append_exact chunk rest (width - length f.chopped) exp,
      )

  pub read_extended_short :
      (packet : Bytes)
      → length f.chopped + length packet < width
      → read_extended width f packet ≡ stop (record f { chopped = f.chopped ++ packet })
  unfolding read_extended
  read_extended_short packet e = ground arith

pub read_extended_done :
    (width : ℕ) (f : Frame) (packet : Bytes)
    → width ≤ length f.chopped
    → read_extended width f packet ≡ more f packet
unfolding read_extended
read_extended_done width f packet h = ground arith

module _ (f : Frame) (m : f.masked ≡ frame_is_masked) where
  pub read_key_whole :
      (chunk rest : Bytes)
      → length f.mask_key + length chunk ≡ 4
      → 0 < length chunk
      → read_key f (chunk ++ rest) ≡ more (record f { mask_key = f.mask_key ++ chunk }) rest
  unfolding read_key
  read_key_whole chunk rest e pos =
      let exp : 4 - length f.mask_key ≡ length chunk = omega arith in
      ground (
        arith,
        length-append chunk rest,
        take-append_exact chunk rest (4 - length f.mask_key) exp,
        drop-append_exact chunk rest (4 - length f.mask_key) exp,
      )

  pub read_key_short :
      (packet : Bytes)
      → length f.mask_key + length packet < 4
      → read_key f packet ≡ stop (record f { mask_key = f.mask_key ++ packet })
  unfolding read_key
  read_key_short [] h = ground (arith, append-nil f.mask_key)
  read_key_short (b ∷ bs) h = ground arith

pub read_key_done :
    (f : Frame) (packet : Bytes)
    → (f.masked ≡ frame_is_masked → length f.mask_key ≡ 4)
    → read_key f packet ≡ more f packet
unfolding read_key
read_key_done f packet h = ground arith

-- A chunk of the packet goes to the payload.
pub take_payload_chunk :
    (f : Frame) (chunk rest : Bytes)
    → take_payload (length chunk) f (chunk ++ rest) ≡ (
        let f1 = record f { payload = f.payload ++ unmasked f chunk } in
        (if length f1.payload == f.len then complete f1 else f1, rest))
unfolding take_payload
take_payload_chunk f chunk rest = rw (
  take-append_exact chunk rest (length chunk) refl,
  drop-append_exact chunk rest (length chunk) refl,
)

length-unmasked : (f : Frame) (chunk : Bytes) → length (unmasked f chunk) ≡ length chunk
length-unmasked f chunk = ground (arith, length-mask_bytes f.mask_key (length f.payload % 4) chunk)

pub length-payload :
    (f : Frame) (chunk : Bytes)
    → length (f.payload ++ unmasked f chunk) ≡ length f.payload + length chunk
length-payload f chunk =
    length-append f.payload (unmasked f chunk) ∙ omega (arith, length-unmasked f chunk)

module _ (f : Frame) (fits : f.len < 2 ^ 64) where
  read_payload_start :
      (packet : Bytes) (n : ℕ)
      → 0 < length packet
      → wanted f packet ≡ n
      → 0 < f.len
      → read_payload f packet ≡ take_payload n f packet
  unfolding read_payload
  read_payload_start packet n h e pos = ground arith

  wanted_whole :
      (chunk rest : Bytes)
      → length f.payload + length chunk ≡ f.len
      → wanted f (chunk ++ rest) ≡ length chunk
  unfolding wanted
  wanted_whole chunk rest e = ground (arith, length-append chunk rest)

  wanted_part :
      (packet : Bytes) → length f.payload + length packet ≤ f.len → wanted f packet ≡ length packet
  unfolding wanted
  wanted_part packet e = ground arith

  -- The last bytes of the payload complete the frame.
  pub read_payload_whole :
      (chunk rest : Bytes)
      → length f.payload + length chunk ≡ f.len
      → 0 < length chunk
      → read_payload f (chunk ++ rest)
        ≡ (complete (record f { payload = f.payload ++ unmasked f chunk }), rest)
  read_payload_whole chunk rest e pos =
      read_payload_start (chunk ++ rest) (length chunk) (omega (arith, length-append chunk rest))
        (wanted_whole chunk rest e) (omega arith)
      ∙ take_payload_chunk f chunk rest
      ∙ ground (arith, length-payload f chunk)

  -- Fewer bytes are kept, and the packet is used up.
  pub read_payload_part :
      (packet : Bytes)
      → length f.payload + length packet < f.len
      → read_payload f packet ≡ (record f { payload = f.payload ++ unmasked f packet }, [])
  read_payload_part [] h = unfold read_payload mask_bytes in ground (arith, append-nil f.payload)
  read_payload_part (b ∷ bs) h =
      let packet = b ∷ bs in
      read_payload_start packet (length packet) (omega arith) (wanted_part packet (omega arith))
        (omega arith)
      ∙ ap (take_payload (length packet) f) (sym (append-nil packet))
      ∙ take_payload_chunk f packet []
      ∙ ground (arith, length-payload f packet)

-- A frame with no payload is complete.
pub read_payload_none :
    (f : Frame) (packet : Bytes)
    → f.len ≡ 0
    → f.payload ≡ []
    → read_payload f packet ≡ (complete f, packet)
unfolding read_payload close_status
read_payload_none f packet h k = ground arith
