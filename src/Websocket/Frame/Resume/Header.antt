-- ===== src/Websocket/Frame/Resume/Header.antt =====
-- A packet that is cut inside the header.
use share.Base.{
  ℕ, ◌+◌, ◌-◌, ◌<◌, ◌≤◌, ◌≡◌, ◌≢◌, ◌⊎◌, refl, sym, ap, ◌∙◌, [], ◌++◌, append_assoc, arith, take,
  drop, length, length-append, length-take, take-append-drop, Bytes,
}
use native.Mathlib.Decide.{dec_lt}
use share.Websocket.Frame.{Frame}
use share.Websocket.Frame.BigEndian.{big_endian}
use share.Websocket.Frame.Steps.{read_extended_whole, read_extended_short, read_extended_done}
use share.Websocket.Frame.Unpack.{Progress, stop, more, read_extended, read_length, read_header}

-- The frame with more header bytes.
abbrev pub chop : Frame → Bytes → Frame
chop f chunk = record f { chopped = f.chopped ++ chunk }

chop-append : (f : Frame) (xs ys : Bytes) → chop f (xs ++ ys) ≡ chop (chop f xs) ys
chop-append f xs ys =
    ap (λ (l : Bytes). let g : Frame = record f { chopped = l } in g)
      (sym (append_assoc f.chopped xs ys))

-- The frame with its extended length.
abbrev sized : ℕ → Frame → Frame
sized width f = record f { len = big_endian 0 (take (width - 2) (drop 2 f.chopped)) }

module _ (width : ℕ) (f : Frame) (xs : Bytes) where
  read_extended_cut_whole :
      (c r : Bytes)
      → length f.chopped + length xs + length c ≡ width
      → length f.chopped + length xs < width
      → read_extended width f (xs ++ (c ++ r)) ≡ read_extended width (chop f xs) (c ++ r)
  read_extended_cut_whole c r e h =
      ap (read_extended width f) (sym (append_assoc xs c r))
      ∙ read_extended_whole width f (omega arith) (xs ++ c) r (omega (arith, length-append xs c))
      ∙ ap (λ (g : Frame). more (sized width g) r) (chop-append f xs c)
      ∙ sym (
          read_extended_whole width (chop f xs) (omega (arith, length-append f.chopped xs)) c r
            (omega (arith, length-append f.chopped xs)))

  -- `read_extended` goes on with a second packet.
  read_extended_cut :
      (ys : Bytes)
      → length f.chopped + length xs < width
      → read_extended width f (xs ++ ys) ≡ read_extended width (chop f xs) ys
  read_extended_cut ys h = elim (dec_lt (length f.chopped + length xs + length ys) width) [
    | yes short ↦
        read_extended_short width f (omega arith) (xs ++ ys) (omega (arith, length-append xs ys))
        ∙ ap stop (chop-append f xs ys)
        ∙ sym (
            read_extended_short width (chop f xs) (omega (arith, length-append f.chopped xs)) ys
              (omega (arith, length-append f.chopped xs)))
    | no enough ↦
        let n = width - length f.chopped - length xs in
        rw (take-append-drop n ys) at
          (read_extended_cut_whole (take n ys) (drop n ys) (omega (arith, length-take n ys)) h)
  ]

-- The header is read. A length of 127 with a header of four bytes is the one case in which the
-- frame does not show it.
pub record IsSettled (f : Frame) : Type 0 where
  pub two : 2 ≤ length f.chopped
  pub medium : f.len ≡ 126 → 4 ≤ length f.chopped
  pub large : f.len ≡ 127 → (10 ≤ length f.chopped) ⊎ (length f.chopped ≡ 4)

abbrev SameBody : Frame → Frame → Type 0
SameBody f g = (g.mask_key ≡ f.mask_key) × (g.payload ≡ f.payload)

-- How the reading of a header ends on a packet, and how it goes on with the next.
pub data Split (r : Bytes → Progress) (f : Frame) (a : Bytes) : Type 0 where
  halted :
      (g : Frame)
      → r a ≡ stop g
      → SameBody f g
      → ((ys : Bytes) → ys ≢ [] → r (a ++ ys) ≡ read_header g ys)
      → Split r f a
  passed :
      (g : Frame) (rest : Bytes)
      → r a ≡ more g rest
      → SameBody f g
      → IsSettled g
      → ((ys : Bytes) → r (a ++ ys) ≡ more g (rest ++ ys))
      → Split r f a

pub read_header_two :
    (f : Frame) (ys : Bytes) → 2 ≤ length f.chopped → read_header f ys ≡ read_length f ys
unfolding read_header
read_header_two f ys h = ground arith

pub read_length_ten :
    (f : Frame) (packet : Bytes) → f.len ≡ 127 → read_length f packet ≡ read_extended 10 f packet
unfolding read_length
read_length_ten f packet e = rw (e, read_length)

pub read_length_four :
    (f : Frame) (packet : Bytes) → f.len ≡ 126 → read_length f packet ≡ read_extended 4 f packet
unfolding read_length
read_length_four f packet e = rw (e, read_length)

pub read_length_two :
    (f : Frame) (packet : Bytes) → f.len ≢ 127 → f.len ≢ 126 → read_length f packet ≡ more f packet
unfolding read_length
read_length_two f packet e g = ground arith

-- An extended length of `width` bytes, read in the state `f` of `read_length`.
pub read_extended-Split :
    (width : ℕ) (f : Frame) (a : Bytes)
    → ((xs packet : Bytes)
        → read_length (chop f xs) packet ≡ read_extended width (chop f xs) packet)
    → 2 ≤ length f.chopped
    → ((g : Frame) → length g.chopped ≡ width → IsSettled g)
    → (width ≤ length f.chopped → IsSettled f)
    → Split (read_extended width f) f a
read_extended-Split width f a same h settled whole = elim (dec_lt (length f.chopped) width) [
  | no done ↦
      passed f a (read_extended_done width f a (omega arith)) (refl, refl) (whole (omega arith))
        (λ ys. read_extended_done width f (a ++ ys) (omega arith))
  | yes open_header ↦ elim (dec_lt (length f.chopped + length a) width) [
    | yes short ↦
        halted (chop f a) (read_extended_short width f open_header a short) (refl, refl)
          (λ ys ne.
            read_extended_cut width f a ys short
            ∙ sym (same a ys)
            ∙ sym (read_header_two (chop f a) ys (omega (arith, length-append f.chopped a))))
    | no enough ↦
        let n = width - length f.chopped in
        let c = take n a in
        let r = drop n a in
        let fits : length f.chopped + length c ≡ width = omega (arith, length-take n a) in
        let split = take-append-drop n a in
        passed (sized width (chop f c)) r
          (ap (read_extended width f) (sym split)
            ∙ read_extended_whole width f open_header c r fits)
          (refl, refl) (settled (sized width (chop f c)) (omega (arith, length-append f.chopped c)))
          (λ ys.
            ap (λ l. read_extended width f (l ++ ys)) (sym split)
            ∙ ap (read_extended width f) (append_assoc c r ys)
            ∙ read_extended_whole width f open_header c (r ++ ys) fits)
  ]
]
