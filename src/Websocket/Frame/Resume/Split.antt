-- ===== src/Websocket/Frame/Resume/Split.antt =====
-- The whole header, cut anywhere.
use share.Base.{
  ℕ, ◌≤◌, ◌≡◌, ◌≢◌, inl, inr, refl, sym, ◌∙◌, [], ◌∷◌, ◌++◌, arith, length, length-append, bit_and,
  Bytes,
}
use native.Mathlib.Decide.{ℕ_discrete}
use share.Websocket.Frame.{Frame, frame_is_masked}
use share.Websocket.Frame.Unpack.{
  Progress, stop, read_length, first_fields, read_first, read_second, read_header,
}
use share.Websocket.Frame.Resume.Header.{
  Split, halted, passed, chop, read_header_two, read_length_ten, read_length_four, read_length_two,
  read_extended-Split,
}

-- A reader that agrees with another splits where it does.
same_reader-Split :
    (r s : Bytes → Progress) (f : Frame) (a : Bytes)
    → ((packet : Bytes) → r packet ≡ s packet)
    → Split s f a
    → Split r f a
same_reader-Split r s f a e (halted g at_a same go) =
    halted g (e a ∙ at_a) same (λ ys ne. e (a ++ ys) ∙ go ys ne)
same_reader-Split r s f a e (passed g rest at_a same ok go) =
    passed g rest (e a ∙ at_a) same ok (λ ys. e (a ++ ys) ∙ go ys)

read_length-Split : (f : Frame) (a : Bytes) → 2 ≤ length f.chopped → Split (read_length f) f a
read_length-Split f a two = elim (ℕ_discrete f.len 127) [
  | yes large ↦
      same_reader-Split _ _ f a (λ packet. read_length_ten f packet large)
        (read_extended-Split 10 f a (λ xs packet. read_length_ten (chop f xs) packet large) two
          (λ g e. record {
            two = omega arith;
            medium = λ h. omega arith;
            large = λ h. inl (omega arith);
          })
          (λ w. record { two = two; medium = λ h. omega arith; large = λ h. inl w }))
  | no not_large ↦ elim (ℕ_discrete f.len 126) [
    | yes medium ↦
        same_reader-Split _ _ f a (λ packet. read_length_four f packet medium)
          (read_extended-Split 4 f a (λ xs packet. read_length_four (chop f xs) packet medium) two
            (λ g e. record { two = omega arith; medium = λ h. omega arith; large = λ h. inr e })
            (λ w. record { two = two; medium = λ h. w; large = λ h. absurd (not_large h) }))
    | no not_medium ↦
        passed f a (read_length_two f a not_large not_medium) (refl, refl)
          (record {
            two = two;
            medium = λ h. absurd (not_medium h);
            large = λ h. absurd (not_large h);
          })
          (λ ys. read_length_two f (a ++ ys) not_large not_medium)
  ]
]

-- What `case 1` sets.
abbrev second_fields : Frame → ℕ → Frame
second_fields f b = record f {
  masked = bit_and b frame_is_masked;
  len = bit_and b 0x7f;
  chopped = f.chopped ++ (b ∷ []);
}

-- A byte that is read before the rest.
next_byte-Split :
    (r s : Bytes → Progress) (f g : Frame) (b : ℕ) (a : Bytes)
    → ((packet : Bytes) → r (b ∷ packet) ≡ s packet)
    → (g.mask_key ≡ f.mask_key) × (g.payload ≡ f.payload)
    → Split s g a
    → Split r f (b ∷ a)
next_byte-Split r s f g b a e (k, p) (halted h at_a (k', p') go) =
    halted h (e a ∙ at_a) (k' ∙ k, p' ∙ p) (λ ys ne. e (a ++ ys) ∙ go ys ne)
next_byte-Split r s f g b a e (k, p) (passed h rest at_a (k', p') ok go) =
    passed h rest (e a ∙ at_a) (k' ∙ k, p' ∙ p) ok (λ ys. e (a ++ ys) ∙ go ys)

read_second_step :
    (f : Frame) (b : ℕ) (packet : Bytes)
    → read_second f (b ∷ packet) ≡ read_length (second_fields f b) packet
unfolding read_second
read_second_step f b packet = refl

read_second-Split :
    (f : Frame) (b : ℕ) (a : Bytes) → length f.chopped ≡ 1 → Split (read_second f) f (b ∷ a)
read_second-Split f b a one =
    next_byte-Split _ _ f (second_fields f b) b a (read_second_step f b) (refl, refl)
      (read_length-Split (second_fields f b) a (omega (arith, length-append f.chopped (b ∷ []))))

read_first_one : (f : Frame) (b : ℕ) → read_first f (b ∷ []) ≡ stop (first_fields f b)
unfolding read_first
read_first_one f b = refl

read_first_two :
    (f : Frame) (b c : ℕ) (packet : Bytes)
    → read_first f (b ∷ c ∷ packet) ≡ read_second (first_fields f b) (c ∷ packet)
unfolding read_first
read_first_two f b c packet = refl

read_header_one :
    (f : Frame) (packet : Bytes)
    → length f.chopped ≡ 1
    → read_header f packet ≡ read_second f packet
unfolding read_header
read_header_one f packet h = ground arith

read_header_zero :
    (f : Frame) (packet : Bytes) → length f.chopped ≡ 0 → read_header f packet ≡ read_first f packet
unfolding read_header
read_header_zero f packet h = ground arith

-- After the first byte, the second.
read_first_second :
    (f : Frame) (b : ℕ) (ys : Bytes)
    → length f.chopped ≡ 0
    → ys ≢ []
    → read_first f (b ∷ ys) ≡ read_header (first_fields f b) ys
read_first_second f b [] h ne = absurd (ne refl)
read_first_second f b (c ∷ ys) h ne =
    read_first_two f b c ys
    ∙ sym (
        read_header_one (first_fields f b) (c ∷ ys)
          (omega (arith, length-append f.chopped (b ∷ []))))

read_first-Split :
    (f : Frame) (b : ℕ) (a : Bytes) → length f.chopped ≡ 0 → Split (read_first f) f (b ∷ a)
read_first-Split f b [] h =
    halted (first_fields f b) (read_first_one f b) (refl, refl)
      (λ ys ne. read_first_second f b ys h ne)
read_first-Split f b (c ∷ a) h =
    let ones : length (first_fields f b).chopped ≡ 1 =
      omega (arith, length-append f.chopped (b ∷ [])) in
    elim (read_second-Split (first_fields f b) c a ones) [
      | halted g at_a same go ↦
          halted g (read_first_two f b c a ∙ at_a) same
            (λ ys ne. read_first_two f b c (a ++ ys) ∙ go ys ne)
      | passed g rest at_a same ok go ↦
          passed g rest (read_first_two f b c a ∙ at_a) same ok
            (λ ys. read_first_two f b c (a ++ ys) ∙ go ys)
    ]

pub read_header-Split : (f : Frame) (a : Bytes) → a ≢ [] → Split (read_header f) f a
read_header-Split f [] ne = absurd (ne refl)
read_header-Split f (b ∷ a) ne = elim (ℕ_discrete (length f.chopped) 0) [
  | yes none ↦
      same_reader-Split _ _ f (b ∷ a) (λ packet. read_header_zero f packet none)
        (read_first-Split f b a none)
  | no some ↦ elim (ℕ_discrete (length f.chopped) 1) [
    | yes one ↦
        same_reader-Split _ _ f (b ∷ a) (λ packet. read_header_one f packet one)
          (read_second-Split f b a one)
    | no many ↦
        same_reader-Split _ _ f (b ∷ a) (λ packet. read_header_two f packet (omega arith))
          (read_length-Split f (b ∷ a) (omega arith))
  ]
]
