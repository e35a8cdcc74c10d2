-- ===== src/Websocket/Frames/Consumed.antt =====
-- A call of `unpack` takes at least one byte.
use share.Base.{
  ℕ, suc, ◌-◌, ◌≤◌, ◌≡◌, inl, inr, refl, ap, false, not, ◌&&◌, [], ◌∷◌, ◌++◌, Option, some, arith,
  ltb, ◌==◌, Bool-cases, take, length, length-append, length-take, length-drop, bit_and, Bytes,
}
use share.Websocket.Frame.{Frame, empty_frame, frame_is_masked}
use share.Websocket.Frame.Unpack.{
  Progress, panic, stop, more, and_then, read_extended, read_length, read_second, first_fields,
  read_first, read_header, read_key, wanted, take_payload, read_payload, finish, unpack,
}

-- A mask key has at most its four bytes.
abbrev pub IsKeyed : Frame → Type 0
IsKeyed f = length f.mask_key ≤ 4

-- No panic, at most `n` bytes are left, and the key is no longer than it may be.
abbrev pub Within : ℕ → Progress → Type 0
Within n panic = ⊥
Within n (stop f) = IsKeyed f
Within n (more f packet) = IsKeyed f × (length packet ≤ n)

more_room-Within : (m n : ℕ) (p : Progress) → m ≤ n → Within m p → Within n p
more_room-Within m n panic le w = w
more_room-Within m n (stop f) le w = w
more_room-Within m n (more f packet) le (k, w) = (k, omega arith)

read_extended-Within :
    (width : ℕ) (f : Frame) (packet : Bytes)
    → IsKeyed f
    → Within (length packet) (read_extended width f packet)
unfolding read_extended
read_extended-Within width f packet k = elim (Bool-cases (ltb (length f.chopped) width)) [
  | inr off ↦ rw off (k, omega arith)
  | inl on ↦ elim (Bool-cases (ltb (length packet) (width - length f.chopped))) [
    | inl short ↦ rw (on, short) k
    | inr enough ↦ rw (on, enough) (k, omega (arith, length-drop (width - length f.chopped) packet))
  ]
]

read_length-Within :
    (f : Frame) (packet : Bytes) → IsKeyed f → Within (length packet) (read_length f packet)
unfolding read_length
read_length-Within f packet k = elim (Bool-cases (f.len == 127)) [
  | inl on ↦ rw on (read_extended-Within 10 f packet k)
  | inr off ↦ elim (Bool-cases (f.len == 126)) [
    | inl on ↦ rw (off, on) (read_extended-Within 4 f packet k)
    | inr none_there ↦ rw (off, none_there) (k, omega arith)
  ]
]

read_second-Within :
    (f : Frame) (b : ℕ) (packet : Bytes)
    → IsKeyed f
    → Within (length packet) (read_second f (b ∷ packet))
unfolding read_second
read_second-Within f b packet k =
    read_length-Within
      (record f {
        masked = bit_and b frame_is_masked;
        len = bit_and b 0x7f;
        chopped = f.chopped ++ (b ∷ []);
      })
      packet k

read_header-Within :
    (b : ℕ) (packet : Bytes) → Within (length packet) (read_header empty_frame (b ∷ packet))
unfolding read_header
read_header-Within b [] = omega arith
read_header-Within b (c ∷ packet) =
    more_room-Within (length packet) (suc (length packet)) _ (omega arith)
      (read_second-Within (first_fields empty_frame b) c packet (omega arith))

read_key-Within :
    (f : Frame) (packet : Bytes) → IsKeyed f → Within (length packet) (read_key f packet)
unfolding read_key
read_key-Within f packet k =
    let exp = 4 - length f.mask_key in
    let no_panic : ltb 4 (length f.mask_key) ≡ false = ground arith in
    elim (Bool-cases (f.masked == frame_is_masked && not (length f.mask_key == 4))) [
      | inr off ↦ rw off (k, omega arith)
      | inl on ↦ elim (Bool-cases (length packet == 0)) [
        | inl empty ↦ rw (on, empty) k
        | inr some_there ↦ elim (Bool-cases (ltb (length packet) exp)) [
          | inl short ↦
              rw (on, some_there, no_panic, short) (ground (arith, length-append f.mask_key packet))
          | inr enough ↦
              rw (on, some_there, no_panic, enough)
                (
                  omega (arith, length-append f.mask_key (take exp packet), length-take exp packet),
                  omega (arith, length-drop exp packet),
                )
        ]
      ]
    ]

read_payload_rest :
    (f : Frame) (packet : Bytes)
    → (length (read_payload f packet).1 ≤ length packet)
      × ((read_payload f packet).0.mask_key ≡ f.mask_key)
unfolding read_payload take_payload
read_payload_rest f packet = (ground (arith, length-drop (wanted f packet) packet), ground arith)

and_then-Within : (n : ℕ) (p : Progress) → Within n p → Within n (and_then p read_key)
and_then-Within n panic w = w
and_then-Within n (stop f) w = w
and_then-Within n (more f packet) (k, w) =
    more_room-Within (length packet) n _ w (read_key-Within f packet k)

-- The outcome of a progress within `n`.
abbrev pub Returned : ℕ → Option (Frame × Bytes) → Type 0
Returned n x = (f : Frame) × (rest : Bytes) × (x ≡ some (f, rest)) × (length rest ≤ n) × IsKeyed f

finish-Within : (n : ℕ) (p : Progress) → Within n p → Returned n (finish p)
finish-Within n panic w = absurd w
finish-Within n (stop f) w = (f, [], refl, omega arith, w)
finish-Within n (more f packet) (k, w) =
    let (less, same) = read_payload_rest f packet in
    let r = read_payload f packet in (r.0, r.1, refl, omega arith, omega (arith, ap length same))

pub unpack_consumes :
    (b : ℕ) (packet : Bytes) → Returned (length packet) (unpack empty_frame (b ∷ packet))
unfolding unpack
unpack_consumes b packet =
    finish-Within (length packet) (and_then (read_header empty_frame (b ∷ packet)) read_key)
      (and_then-Within (length packet) _ (read_header-Within b packet))

read_first-Within :
    (f : Frame) (b : ℕ) (packet : Bytes)
    → IsKeyed f
    → Within (length packet) (read_first f (b ∷ packet))
unfolding read_first
read_first-Within f b [] k = k
read_first-Within f b (c ∷ packet) k =
    more_room-Within (length packet) (suc (length packet)) _ (omega arith)
      (read_second-Within (first_fields f b) c packet k)

any_header-Within :
    (f : Frame) (b : ℕ) (packet : Bytes)
    → IsKeyed f
    → Within (suc (length packet)) (read_header f (b ∷ packet))
unfolding read_header
any_header-Within f b packet k = elim (Bool-cases (length f.chopped == 0)) [
  | inl first ↦ simp first (
      more_room-Within (length packet) (suc (length packet)) _ (omega arith)
        (read_first-Within f b packet k))
  | inr later ↦ elim (Bool-cases (length f.chopped == 1)) [
    | inl second ↦
        simp (later, second)
          (more_room-Within (length packet) (suc (length packet)) _ (omega arith)
            (read_second-Within f b packet k))
    | inr rest ↦ simp (later, rest) (read_length-Within f (b ∷ packet) k)
  ]
]

-- `unpack` does not panic on a packet, whatever the frame has read before, and its key stays one.
pub unpack_returns :
    (f : Frame) (b : ℕ) (packet : Bytes)
    → IsKeyed f
    → Returned (suc (length packet)) (unpack f (b ∷ packet))
unfolding unpack
unpack_returns f b packet k =
    finish-Within (suc (length packet)) (and_then (read_header f (b ∷ packet)) read_key)
      (and_then-Within (suc (length packet)) _ (any_header-Within f b packet k))
