-- ===== src/Websocket/Frame/Resume/Twice.antt =====
-- `unpack` on a packet, and then on the next.
use share.Base.{
  ◌+◌, ◌-◌, ◌^◌, ◌<◌, ◌≡◌, ◌≢◌, ◌⊎◌, inl, inr, refl, sym, ap, ◌∙◌, subst, false, [], ◌++◌,
  append_assoc, some, arith, take, drop, length, length-append, length-take, take-append-drop,
  Bytes,
}
use native.Mathlib.Decide.{dec_lt, ℕ_discrete}
use share.Websocket.Frame.{Frame, frame_is_masked}
use share.Websocket.Frame.Steps.{read_key_whole, read_key_short, read_key_done}
use share.Websocket.Frame.Unpack.{
  Progress, stop, more, and_then, read_header, read_key, read_payload, finish, unpack,
}
use share.Websocket.Frame.Resume.Body.{keyed, read_key_cut}
use share.Websocket.Frame.Resume.Header.{IsSettled, Split, halted, passed}
use share.Websocket.Frame.Resume.Packets.{
  InHeader, InBody, IsClear, IsOpen, Stopped, payload-Stopped, read_header_over,
}
use share.Websocket.Frame.Resume.Split.{read_header-Split}

-- From an option.
of_some : (x y : Frame × Bytes) → some x ≡ some y → x ≡ y
of_some x y e = cc e

-- The key is cut, or it is read whole and the payload is cut.
module _ (f g : Frame) (a ys : Bytes) (m : f.masked ≡ frame_is_masked) (nil : f.payload ≡ [])
    (lt : length f.mask_key < 4) where
  key_cut :
      finish (read_key f a) ≡ some (g, []) → length f.mask_key + length a < 4 → Stopped f g a ys
  key_cut at_a short =
      let is_keyed : g ≡ keyed f a =
        ap (λ (r : Frame × Bytes). r.0)
          (of_some _ _ (sym at_a ∙ ap finish (read_key_short f m a short))) in
      subst (λ (h : Frame). Stopped f h a ys) (sym is_keyed)
        (record {
          same_len = refl;
          same_chopped = refl;
          body = record {
            key = λ e. omega (arith, length-append f.mask_key a, short);
            key_first = λ e l. nil;
            open_payload = inl nil;
          };
          goes_on = ap finish (read_key_cut f m a ys short);
        })

  key_whole :
      (c r : Bytes)
      → finish (read_key f (c ++ r)) ≡ some (g, [])
      → length f.mask_key + length c ≡ 4
      → g.len < 2 ^ 64
      → g.is_complete ≡ false
      → Stopped f g (c ++ r) ys
  key_whole c r at_a e fits not_done =
      let pos : 0 < length c = omega arith in
      let after : read_payload (keyed f c) r ≡ (g, []) =
        of_some _ _ (sym (ap finish (read_key_whole f m c r e pos)) ∙ at_a) in
      let full : length (keyed f c).mask_key ≡ 4 = omega (arith, length-append f.mask_key c) in
      let cut = payload-Stopped (keyed f c) g r ys (λ h. full) (inl nil) after fits not_done in
      record {
        same_len = cut.same_len;
        same_chopped = cut.same_chopped;
        body = cut.body;
        goes_on =
            ap (λ l. finish (read_key f l)) (append_assoc c r ys)
            ∙ ap finish (read_key_whole f m c (r ++ ys) e pos)
            ∙ sym (ap finish (read_key_done (keyed f c) (r ++ ys) (λ h. full)))
            ∙ cut.goes_on;
      }

module _ (f g : Frame) (a ys : Bytes) (b : InBody f) (at_a : finish (read_key f a) ≡ some (g, []))
    (fits : g.len < 2 ^ 64) (not_done : g.is_complete ≡ false) where
  key_done : (f.masked ≡ frame_is_masked → length f.mask_key ≡ 4) → Stopped f g a ys
  key_done full =
      payload-Stopped f g a ys full b.open_payload
        (of_some _ _ (sym (ap finish (read_key_done f a full)) ∙ at_a)) fits not_done

  body-Stopped : Stopped f g a ys
  body-Stopped = elim (ℕ_discrete f.masked frame_is_masked) [
    | no off ↦ key_done (λ m. absurd (off m))
    | yes m ↦ elim (dec_lt (length f.mask_key) 4) [
      | no full ↦ key_done (λ h. omega (arith, b.key m))
      | yes lt ↦ elim (dec_lt (length f.mask_key + length a) 4) [
        | yes short ↦ key_cut f g a ys m (b.key_first m lt) lt at_a short
        | no enough ↦
            let n = 4 - length f.mask_key in
            let split = take-append-drop n a in
            subst (λ (l : Bytes). Stopped f g l ys) split
              (key_whole f g a ys m (b.key_first m lt) lt (take n a) (drop n a)
                (ap (λ l. finish (read_key f l)) split ∙ at_a) (omega (arith, length-take n a)) fits
                not_done)
      ]
    ]
  ]

-- A frame of which no body is read, after its header.
InBody-InHeader :
    (f g : Frame) → InHeader f → (g.mask_key ≡ f.mask_key) × (g.payload ≡ f.payload) → InBody g
InBody-InHeader f g h (k, p) = record {
  key = λ m. rw (k, h.no_key) (omega arith);
  key_first = λ m lt. p ∙ h.no_payload;
  open_payload = inl (p ∙ h.no_payload);
}

unpack_stop : (f g : Frame) (a : Bytes) → read_header f a ≡ stop g → unpack f a ≡ some (g, [])
unfolding unpack
unpack_stop f g a e = ap (λ (h : Progress). finish (and_then h read_key)) e

unpack_more :
    (f g : Frame) (a rest : Bytes)
    → read_header f a ≡ more g rest
    → unpack f a ≡ finish (read_key g rest)
unfolding unpack
unpack_more f g a rest e = ap (λ (h : Progress). finish (and_then h read_key)) e

unpack_header :
    (f g : Frame) (a b : Bytes) → read_header f a ≡ read_header g b → unpack f a ≡ unpack g b
unfolding unpack
unpack_header f g a b e = ap (λ (h : Progress). finish (and_then h read_key)) e

module _ (f f1 : Frame) (a b : Bytes) (at_a : unpack f a ≡ some (f1, []))
    (not_done : f1.is_complete ≡ false) (fits : f1.len < 2 ^ 64) where
  -- The header was read before the second packet.
  passed_over :
      (g : Frame) (rest : Bytes)
      → read_header f a ≡ more g rest
      → read_header f (a ++ b) ≡ more g (rest ++ b)
      → IsSettled g
      → InBody g
      → IsClear f1
      → (unpack f (a ++ b) ≡ unpack f1 b) × IsOpen f1
  passed_over g rest e e2 ok body clear =
      let st =
        body-Stopped g f1 rest b body (sym (unpack_more f g a rest e) ∙ at_a) fits not_done in
      let settled : IsSettled f1 = record {
        two = rw st.same_chopped ok.two;
        medium = λ h. rw st.same_chopped (ok.medium (sym st.same_len ∙ h));
        large = λ h. rw st.same_chopped (ok.large (sym st.same_len ∙ h));
      } in
      (
        unpack_more f g (a ++ b) (rest ++ b) e2
            ∙ st.goes_on
            ∙ sym (unpack_more f1 f1 b b (read_header_over f1 b settled clear)),
        inr (settled, clear, st.body),
      )

  from_header :
      InHeader f
      → b ≢ []
      → IsClear f1 ⊎ (read_header f a ≡ stop f1)
      → Split (read_header f) f a
      → (unpack f (a ++ b) ≡ unpack f1 b) × IsOpen f1
  from_header h nb clear (halted g e (k, p) go) =
      let same : g ≡ f1 =
        ap (λ (r : Frame × Bytes). r.0) (of_some _ _ (sym (unpack_stop f g a e) ∙ at_a)) in
      (
        unpack_header f f1 (a ++ b) b (go b nb ∙ ap (λ (s : Frame). read_header s b) same),
        inl (subst InHeader same (record { no_key = k ∙ h.no_key; no_payload = p ∙ h.no_payload })),
      )
  from_header h nb (inl clear) (passed g rest e same ok go) =
      passed_over g rest e (go b) ok (InBody-InHeader f g h same) clear
  from_header h nb (inr stopped) (passed g rest e same ok go) = absurd (cc (e, stopped))

-- A frame that comes in two packets is read as if it came in one: where the first call of `unpack`
-- leaves the frame `f1` incomplete, the second goes on from `f1`, wherever the cut is (in the
-- header, the mask key or the payload), and `f1` can be cut again. The frame `f` before the calls
-- is new or is itself such a frame, its length fits in `uint64`, and either the cut is inside the
-- header or the frame does not have a length of 127 in a header of four bytes.
pub unpack-append :
    (f f1 : Frame) (a b : Bytes)
    → IsOpen f
    → a ≢ []
    → b ≢ []
    → unpack f a ≡ some (f1, [])
    → f1.is_complete ≡ false
    → f1.len < 2 ^ 64
    → IsClear f1 ⊎ (read_header f a ≡ stop f1)
    → (unpack f (a ++ b) ≡ unpack f1 b) × IsOpen f1
unpack-append f f1 a b (inl h) na nb at_a not_done fits clear =
    from_header f f1 a b at_a not_done fits h nb clear (read_header-Split f a na)
unpack-append f f1 a b (inr (ok, old, body)) na nb at_a not_done fits (inl clear) =
    passed_over f f1 a b at_a not_done fits f a (read_header_over f a ok old)
      (read_header_over f (a ++ b) ok old) ok body clear
unpack-append f f1 a b (inr (ok, old, body)) na nb at_a not_done fits (inr stopped) =
    absurd (cc (read_header_over f a ok old, stopped))
