-- ===== src/Websocket/Frame/Resume/Ambiguous.antt =====
-- The one cut that `unpack` gets wrong: after the header of a payload of 127 bytes.
use share.Base.{
  ℕ, ◌+◌, ◌^◌, ◌<◌, ◌≤◌, ◌≡◌, refl, sym, ap, ap₂, ◌∙◌, false, [], ◌∷◌, ◌++◌, append-nil, some,
  arith, length, bit_or, u8, Bytes, All, IsByte,
}
use share.Websocket.Frame.{Frame, empty_frame, size_field, extended_size, pack}
use share.Websocket.Frame.BigEndian.{big_endian}
use share.Websocket.Frame.Header.{
  IsPackable, after_two, after_length, read_two, read_length-after_two,
}
use share.Websocket.Frame.Steps.{read_extended_whole, read_key_done, read_payload_part}
use share.Websocket.Frame.Unpack.{
  Progress, more, and_then, read_length, read_header, read_key, unmasked, read_payload, finish,
  unpack,
}
use share.Websocket.Frame.Resume.Header.{read_header_two, read_length_ten}

-- The header of the frame on the wire.
abbrev pub header_bytes : Frame → Bytes
header_bytes f =
    bit_or f.fin (u8 f.opcode)
    ∷ bit_or f.masked (u8 (size_field (length f.payload)))
    ∷ extended_size (length f.payload)

unpack_by :
    (f g : Frame) (a rest : Bytes)
    → read_header f a ≡ more g rest
    → (g.masked ≡ 0)
    → unpack f a ≡ some (read_payload g rest)
unfolding unpack
unpack_by f g a rest e m =
    ap (λ (h : Progress). finish (and_then h read_key)) e
    ∙ ap finish (read_key_done g rest (λ h. absurd (omega arith)))

-- The length that is read in place of 127.
abbrev pub misread_len : Bytes → ℕ
misread_len six = big_endian 0 (0 ∷ 127 ∷ six)

misread_len-lt :
    (a b c d e g : ℕ)
    → All IsByte (a ∷ b ∷ c ∷ d ∷ e ∷ g ∷ [])
    → let six = a ∷ b ∷ c ∷ d ∷ e ∷ g ∷ [] in (127 < misread_len six) × (misread_len six < 2 ^ 64)
misread_len-lt a b c d e g (ha, (hb, (hc, (hd, (he, (hg, ok)))))) = (omega arith, omega arith)

plain_part :
    (f : Frame) (packet : Bytes)
    → f.masked ≡ 0
    → f.len < 2 ^ 64
    → length f.payload + length packet < f.len
    → read_payload f packet ≡ (record f { payload = f.payload ++ packet }, [])
plain_part f packet m fits h =
    let plain : unmasked f packet ≡ packet = ground arith in
    read_payload_part f fits packet h
    ∙ ap (λ (l : Bytes). let r : Frame × Bytes = (record f { payload = f.payload ++ l }, []) in r)
        plain

module _ (f : Frame) (p : IsPackable f) (m : f.masked ≡ 0) (long : length f.payload ≡ 127) where
  after_header : unpack empty_frame (header_bytes f) ≡ some (after_length f, [])
  after_header =
      unpack_by empty_frame (after_length f) (header_bytes f) []
        (read_two f (extended_size (length f.payload)) p
          ∙ ap (read_length (after_two f)) (sym (append-nil (extended_size (length f.payload))))
          ∙ read_length-after_two f [] p)
        m
      ∙ ap some (plain_part (after_length f) [] m (omega arith) (omega arith))

  four_bytes : extended_size (length f.payload) ≡ 0 ∷ 127 ∷ []
  unfolding extended_size
  four_bytes = rw long

  -- The frame with a header of four bytes and a length of 127.
  four : Frame
  four = record (after_two f) { len = 127; chopped = (after_two f).chopped ++ (0 ∷ 127 ∷ []) }

  after_length-four : after_length f ≡ four
  unfolding four
  after_length-four =
      ap₂
        (λ (n : ℕ) (ext : Bytes).
          let g : Frame = record (after_two f) {
            len = n;
            chopped = (after_two f).chopped ++ ext;
          } in
          g)
        long four_bytes

  -- The next packet has six bytes taken for the rest of a header.
  after_six :
      (a b c d e g : ℕ) (tail : Bytes)
      → All IsByte (a ∷ b ∷ c ∷ d ∷ e ∷ g ∷ [])
      → length tail ≤ 121
      → (f2 : Frame) × (unpack four (a ∷ b ∷ c ∷ d ∷ e ∷ g ∷ tail) ≡ some (f2, []))
        × (f2.is_complete ≡ false)
        × (f2.payload ≡ tail)
  unfolding four
  after_six a b c d e g tail ok short =
      let six = a ∷ b ∷ c ∷ d ∷ e ∷ g ∷ [] in
      let wrong = record four { len = misread_len six; chopped = four.chopped ++ six } in
      let (large, fits) = misread_len-lt a b c d e g ok in
      (
        record wrong { payload = tail },
        unpack_by four wrong (six ++ tail) tail
              (read_header_two four (six ++ tail) (omega arith)
                ∙ read_length_ten four (six ++ tail) refl
                ∙ read_extended_whole 10 four (omega arith) six tail refl)
              m
            ∙ ap some (plain_part wrong tail m fits (omega arith)),
        refl,
        refl,
      )

pack_header :
    (random : ℕ) (f : Frame) → f.masked ≡ 0 → (pack random f).0 ≡ header_bytes f ++ f.payload
unfolding pack
pack_header random f m = rw m

-- An unmasked frame of 127 bytes that `pack` wrote is misread, whatever its bytes are, if the
-- header comes in one packet and the payload in the next: six bytes of the payload are taken for
-- the rest of an eight-byte length, and the frame stays incomplete with the others as its payload.
pub unpack_misreads :
    (random : ℕ) (f : Frame) (a b c d e g : ℕ) (tail : Bytes)
    → IsPackable f
    → f.masked ≡ 0
    → f.payload ≡ a ∷ b ∷ c ∷ d ∷ e ∷ g ∷ tail
    → length tail ≡ 121
    → All IsByte (a ∷ b ∷ c ∷ d ∷ e ∷ g ∷ [])
    → ((pack random f).0 ≡ header_bytes f ++ f.payload)
      × (f1 f2 : Frame) × (unpack empty_frame (header_bytes f) ≡ some (f1, []))
      × (unpack f1 f.payload ≡ some (f2, []))
      × (f2.is_complete ≡ false)
      × (f2.payload ≡ tail)
unpack_misreads random f a b c d e g tail p m is rest ok =
    let long : length f.payload ≡ 127 = rw is (omega arith) in
    let (f2, at_six, not_done, left) = after_six f p m long a b c d e g tail ok (omega arith) in
    (
      pack_header random f m,
      after_length f,
      f2,
      after_header f p m long,
      ap₂ unpack (after_length-four f p m long) is ∙ at_six,
      not_done,
      left,
    )
