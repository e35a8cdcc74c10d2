-- ===== src/Websocket/Frame/Resume/Body.antt =====
-- A packet that is cut inside the mask key or the payload.
use share.Base.{
  ℕ, ◌+◌, ◌-◌, ◌%◌, ◌^◌, ◌<◌, ◌≡◌, inl, inr, refl, sym, ap, ap₂, ◌∙◌, false, [], ◌∷◌, ◌++◌,
  append_assoc, arith, ◌==◌, Bool-cases, take, drop, length, length-append, length-take,
  take-append-drop, get_or, bit_xor, Bytes,
}
use native.Mathlib.Decide.{dec_lt}
use share.Websocket.Frame.{Frame, mask_bytes, frame_is_masked}
use share.Websocket.Frame.Mask.{length-mask_bytes}
use share.Websocket.Frame.Steps.{
  read_key_whole, read_key_short, read_payload_whole, read_payload_part, length-payload,
}
use share.Websocket.Frame.Unpack.{stop, more, read_key, complete, unmasked, read_payload}

-- Only the remainder by 4 of the start counts.
mask_bytes_mod :
    (key : Bytes) (i j : ℕ) (bs : Bytes) → i % 4 ≡ j % 4 → mask_bytes key i bs ≡ mask_bytes key j bs
unfolding mask_bytes
mask_bytes_mod key i j [] e = refl
mask_bytes_mod key i j (b ∷ bs) e =
    ap₂ ◌∷◌ (ap (λ (t : ℕ). bit_xor b (get_or key t 0)) e)
      (mask_bytes_mod key (i + 1) (j + 1) bs (omega arith))

pub mask_bytes-append :
    (key : Bytes) (i : ℕ) (xs ys : Bytes)
    → mask_bytes key i (xs ++ ys) ≡ mask_bytes key i xs ++ mask_bytes key (i + length xs) ys
unfolding mask_bytes
mask_bytes-append key i [] ys = ap (λ (t : ℕ). mask_bytes key t ys) (omega arith)
mask_bytes-append key i (x ∷ xs) ys = ap (◌∷◌ (bit_xor x (get_or key (i % 4) 0))) (
    mask_bytes-append key (i + 1) xs ys
    ∙ ap (λ (t : ℕ). mask_bytes key (i + 1) xs ++ mask_bytes key t ys) (omega arith))

-- The frame with more payload.
abbrev pub grown : Frame → Bytes → Frame
grown f chunk = record f { payload = f.payload ++ unmasked f chunk }

-- The mask goes on where the first chunk ended.
unmasked-append :
    (f : Frame) (xs ys : Bytes)
    → f.payload ++ unmasked f (xs ++ ys) ≡ (f.payload ++ unmasked f xs) ++ unmasked (grown f xs) ys
unmasked-append f xs ys = elim (Bool-cases (f.masked == frame_is_masked)) [
  | inl on ↦
      let n = length f.payload in
      let first = mask_bytes f.mask_key (n % 4) xs in
      let next = length (f.payload ++ first) in
      let grows : next ≡ n + length xs =
        omega (arith, length-append f.payload first, length-mask_bytes f.mask_key (n % 4) xs) in
      rw on (
        ap (λ l. f.payload ++ l) (mask_bytes-append f.mask_key (n % 4) xs ys)
        ∙ sym (append_assoc f.payload first _)
        ∙ ap (λ l. (f.payload ++ first) ++ l)
            (mask_bytes_mod f.mask_key (n % 4 + length xs) (next % 4) ys (omega arith)))
  | inr off ↦ rw off (sym (append_assoc f.payload xs ys))
]

grown-append : (f : Frame) (xs ys : Bytes) → grown f (xs ++ ys) ≡ grown (grown f xs) ys
grown-append f xs ys =
    ap (λ (l : Bytes). let g : Frame = record f { payload = l } in g) (unmasked-append f xs ys)

-- A mask key in two parts.
abbrev pub keyed : Frame → Bytes → Frame
keyed f chunk = record f { mask_key = f.mask_key ++ chunk }

keyed-append : (f : Frame) (xs ys : Bytes) → keyed f (xs ++ ys) ≡ keyed (keyed f xs) ys
keyed-append f xs ys =
    ap (λ (l : Bytes). let g : Frame = record f { mask_key = l } in g)
      (sym (append_assoc f.mask_key xs ys))

module _ (f : Frame) (m : f.masked ≡ frame_is_masked) (xs : Bytes) where
  read_key_cut_whole :
      (c r : Bytes)
      → length f.mask_key + length xs + length c ≡ 4
      → 0 < length c
      → read_key f (xs ++ (c ++ r)) ≡ read_key (keyed f xs) (c ++ r)
  read_key_cut_whole c r e pos =
      ap (read_key f) (sym (append_assoc xs c r))
      ∙ read_key_whole f m (xs ++ c) r (omega (arith, length-append xs c))
          (omega (arith, length-append xs c))
      ∙ ap (λ (g : Frame). more g r) (keyed-append f xs c)
      ∙ sym (read_key_whole (keyed f xs) m c r (omega (arith, length-append f.mask_key xs)) pos)

  -- `read_key` goes on with a second packet.
  pub read_key_cut :
      (ys : Bytes)
      → length f.mask_key + length xs < 4
      → read_key f (xs ++ ys) ≡ read_key (keyed f xs) ys
  read_key_cut ys h = elim (dec_lt (length f.mask_key + length xs + length ys) 4) [
    | yes short ↦
        read_key_short f m (xs ++ ys) (omega (arith, length-append xs ys))
        ∙ ap stop (keyed-append f xs ys)
        ∙ sym (read_key_short (keyed f xs) m ys (omega (arith, length-append f.mask_key xs)))
    | no enough ↦
        let n = 4 - length f.mask_key - length xs in
        rw (take-append-drop n ys) at (
          read_key_cut_whole (take n ys) (drop n ys) (omega (arith, length-take n ys))
            (omega (arith, length-take n ys)))
  ]

module _ (f : Frame) (fits : f.len < 2 ^ 64) (xs : Bytes) where
  read_payload_cut_whole :
      (c r : Bytes)
      → length f.payload + length xs + length c ≡ f.len
      → 0 < length c
      → read_payload f (xs ++ (c ++ r)) ≡ read_payload (grown f xs) (c ++ r)
  read_payload_cut_whole c r e pos =
      ap (read_payload f) (sym (append_assoc xs c r))
      ∙ read_payload_whole f fits (xs ++ c) r (omega (arith, length-append xs c))
          (omega (arith, length-append xs c))
      ∙ ap (λ (g : Frame). (complete g, r)) (grown-append f xs c)
      ∙ sym (read_payload_whole (grown f xs) fits c r (omega (arith, length-payload f xs)) pos)

  -- `read_payload` goes on with a second packet.
  pub read_payload_cut :
      (ys : Bytes)
      → length f.payload + length xs < f.len
      → read_payload f (xs ++ ys) ≡ read_payload (grown f xs) ys
  read_payload_cut ys h = elim (dec_lt (length f.payload + length xs + length ys) f.len) [
    | yes short ↦
        read_payload_part f fits (xs ++ ys) (omega (arith, length-append xs ys))
        ∙ ap (λ (g : Frame). let r : Frame × Bytes = (g, []) in r) (grown-append f xs ys)
        ∙ sym (read_payload_part (grown f xs) fits ys (omega (arith, length-payload f xs)))
    | no enough ↦
        let n = f.len - length f.payload - length xs in
        rw (take-append-drop n ys) at (
          read_payload_cut_whole (take n ys) (drop n ys) (omega (arith, length-take n ys))
            (omega (arith, length-take n ys)))
  ]

  -- A frame that is still not complete wants more than it has got.
  pub read_payload_incomplete :
      length f.payload < f.len
      → (read_payload f xs).0.is_complete ≡ false
      → length f.payload + length xs < f.len
  read_payload_incomplete lt not_done = elim (dec_lt (length f.payload + length xs) f.len) [
    | yes short ↦ short
    | no enough ↦
        let n = f.len - length f.payload in
        let whole =
          read_payload_whole f fits (take n xs) (drop n xs) (omega (arith, length-take n xs))
            (omega (arith, length-take n xs)) in
        let done : read_payload f xs ≡ (complete (grown f (take n xs)), drop n xs) =
          rw (take-append-drop n xs) at whole in
        cc (not_done, ap (λ (r : Frame × Bytes). r.0.is_complete) done)
  ]
