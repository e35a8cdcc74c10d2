-- ===== src/Websocket/Frame/Resume/Packets.antt =====
-- A frame in two packets: what `unpack` leaves after the first is enough to go on.
use share.Base.{
  ◌+◌, ◌^◌, ◌<◌, ◌≤◌, ◌≡◌, ◌⊎◌, inl, inr, refl, sym, ap, ◌∙◌, subst, true, false, [], ◌++◌, some,
  arith, length, Bytes,
}
use native.Mathlib.Decide.{ℕ_discrete}
use share.Websocket.Frame.{Frame, frame_is_masked}
use share.Websocket.Frame.Steps.{
  read_extended_done, read_key_done, read_payload_part, length-payload,
}
use share.Websocket.Frame.Unpack.{more, read_header, read_key, take_payload, read_payload, finish}
use share.Websocket.Frame.Resume.Body.{grown, read_payload_cut, read_payload_incomplete}
use share.Websocket.Frame.Resume.Header.{
  IsSettled, read_header_two, read_length_ten, read_length_four, read_length_two,
}

-- A frame none of whose body is read.
pub record InHeader (f : Frame) : Type 0 where
  pub no_key : f.mask_key ≡ []
  pub no_payload : f.payload ≡ []

-- The body is read from the key on, and the payload is not full.
pub record InBody (f : Frame) : Type 0 where
  pub key : f.masked ≡ frame_is_masked → length f.mask_key ≤ 4
  pub key_first : f.masked ≡ frame_is_masked → length f.mask_key < 4 → f.payload ≡ []
  pub open_payload : (f.payload ≡ []) ⊎ (length f.payload < f.len)

-- The header tells how many bytes it has: all but a length of 127 in a header of four bytes.
abbrev pub IsClear : Frame → Type 0
IsClear f = (f.len ≡ 127) → length f.chopped ≡ 4 → ⊥

-- A frame to which `unpack` can come back.
abbrev pub IsOpen : Frame → Type 0
IsOpen f = InHeader f ⊎ (IsSettled f × IsClear f × InBody f)

-- A header that is read is passed over.
pub read_header_over :
    (f : Frame) (ys : Bytes) → IsSettled f → IsClear f → read_header f ys ≡ more f ys
read_header_over f ys ok clear = read_header_two f ys ok.two ∙ elim (ℕ_discrete f.len 127) [
  | yes large ↦
      read_length_ten f ys large
      ∙ read_extended_done 10 f ys
          (elim (ok.large large) [ inl w ↦ w | inr four ↦ absurd (clear large four) ])
  | no not_large ↦ elim (ℕ_discrete f.len 126) [
    | yes medium ↦ read_length_four f ys medium ∙ read_extended_done 4 f ys (ok.medium medium)
    | no not_medium ↦ read_length_two f ys not_large not_medium
  ]
]

-- How the reading of the body stops in `g`, for a body that begins in `f`.
pub record Stopped (f g : Frame) (a ys : Bytes) : Type 0 where
  pub same_len : g.len ≡ f.len
  pub same_chopped : g.chopped ≡ f.chopped
  pub body : InBody g
  pub goes_on : finish (read_key f (a ++ ys)) ≡ finish (read_key g ys)

read_payload_len : (f : Frame) (a : Bytes) → (read_payload f a).0.len ≡ f.len
unfolding read_payload take_payload
read_payload_len f a = ground arith

read_payload_empty : (f : Frame) (a : Bytes) → f.len ≡ 0 → (read_payload f a).0.is_complete ≡ true
unfolding read_payload
read_payload_empty f a h = ground arith

-- The payload is cut; the key is read.
module _ (f g : Frame) (a ys : Bytes) (full : f.masked ≡ frame_is_masked → length f.mask_key ≡ 4)
    (room : (f.payload ≡ []) ⊎ (length f.payload < f.len)) (at_a : read_payload f a ≡ (g, []))
    (fits : g.len < 2 ^ 64) (not_done : g.is_complete ≡ false) where
  cut_fits : f.len < 2 ^ 64
  cut_fits = omega (arith, ap (λ (r : Frame × Bytes). r.0.len) at_a, read_payload_len f a)

  cut_not_done : (read_payload f a).0.is_complete ≡ false
  cut_not_done = ap (λ (r : Frame × Bytes). r.0.is_complete) at_a ∙ not_done

  cut_room : length f.payload < f.len
  cut_room = elim room [
    | inl nil ↦ elim (ℕ_discrete f.len 0) [
      | yes e ↦ absurd (cc (read_payload_empty f a e, cut_not_done))
      | no ne ↦ rw nil (omega arith)
    ]
    | inr lt ↦ lt
  ]

  cut_short : length f.payload + length a < f.len
  cut_short = read_payload_incomplete f cut_fits a cut_room cut_not_done

  cut_grown : g ≡ grown f a
  cut_grown = ap (λ (r : Frame × Bytes). r.0) (sym at_a ∙ read_payload_part f cut_fits a cut_short)

  cut_payload : Stopped f (grown f a) a ys
  cut_payload = record {
    same_len = refl;
    same_chopped = refl;
    body = record {
      key = λ m. omega (arith, full m);
      key_first = λ m lt. absurd (omega (arith, full m));
      open_payload = inr (omega (arith, length-payload f a, cut_short));
    };
    goes_on =
        ap finish (read_key_done f (a ++ ys) full)
        ∙ ap some (read_payload_cut f cut_fits a ys cut_short)
        ∙ sym (ap finish (read_key_done (grown f a) ys full));
  }

  pub payload-Stopped : Stopped f g a ys
  payload-Stopped = subst (λ (h : Frame). Stopped f h a ys) (sym cut_grown) cut_payload
