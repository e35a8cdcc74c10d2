-- ===== src/Websocket/Frames/Packets.antt =====
-- `Unpack` on any packet, and on packets that `pack` wrote.
use share.Base.{
  ℕ, zero, suc, ◌≤◌, ◌<◌, ◌≡◌, ◌≢◌, ◌⊎◌, inl, inr, refl, sym, ap, ◌∙◌, List, [], ◌∷◌, ◌++◌,
  append-nil, append_assoc, none, some, arith, ◌==◌, Bool-cases, length, length-append, Bytes, All,
}
use share.Websocket.Frame.{Frame, empty_frame, pack, frame_is_masked}
use share.Websocket.Frame.Header.{IsPackable}
use share.Websocket.Frame.RoundTrip.{received, unpack-pack}
use share.Websocket.Frame.Unpack.{unpack}
use share.Websocket.Frames.{Frames, no_frames, append, unpack_loop, unpack_all}
use share.Websocket.Frames.Consumed.{IsKeyed, unpack_consumes}

unpack_loop_returns :
    (fuel : ℕ) (frames : Frames) (packet : Bytes)
    → length packet ≤ fuel
    → All IsKeyed frames.v
    → (r : Frames) × (unpack_loop fuel frames packet ≡ some r) × All IsKeyed r.v
unfolding unpack_loop
unpack_loop_returns fuel frames [] h ok = (frames, refl, ok)
unpack_loop_returns zero frames (b ∷ packet) h ok = absurd (omega arith)
unpack_loop_returns (suc fuel) frames (b ∷ packet) h ok =
    let (f, rest, e, le, k) = unpack_consumes b packet in
    let (r, done, keyed) =
      unpack_loop_returns fuel (append frames (some f)) rest (omega arith)
        (at_end-All frames.v f ok k) in
    (r, rw e done, keyed)
  where
    at_end-All :
        (fs : List Frame) (f : Frame) → All IsKeyed fs → IsKeyed f → All IsKeyed (fs ++ (f ∷ []))
    at_end-All [] f ok k = (k, tt)
    at_end-All (g ∷ fs) f (h, ok) k = (h, at_end-All fs f ok k)

-- The frames of a packet, none with a mask key of more than four bytes.
pub unpack_all-IsKeyed :
    (packet : Bytes)
    → ((packet ≡ []) × (unpack_all packet ≡ some none))
      ⊎ ((packet ≢ [])
          × (frames : Frames) × (unpack_all packet ≡ some (some frames))
          × All IsKeyed frames.v)
unfolding unpack_all
unpack_all-IsKeyed [] = inl (refl, refl)
unpack_all-IsKeyed (b ∷ packet) =
    let (r, e, k) =
      unpack_loop_returns (length (b ∷ packet)) no_frames (b ∷ packet) (omega arith) tt in
    inr (λ nil. absurd (cc nil), r, rw e refl, k)

-- `Unpack` returns on every packet: no index is out of range, and the loop ends, with a nil result
-- for the empty packet only.
pub unpack_all_total :
    (packet : Bytes)
    → ((packet ≡ []) × (unpack_all packet ≡ some none))
      ⊎ ((packet ≢ []) × (frames : Frames) × (unpack_all packet ≡ some (some frames)))
unpack_all_total packet = elim (unpack_all-IsKeyed packet) [
  | inl (nil, e) ↦ inl (nil, e)
  | inr (ne, frames, e, k) ↦ inr (ne, frames, e)
]

-- The packets of frames, one after the other, each with what `rand.Uint32` gives for it.
abbrev pub packed : List (ℕ × Frame) → Bytes
packed [] = []
packed ((random, f) ∷ fs) = (pack random f).0 ++ packed fs

abbrev pub AllPackable : List (ℕ × Frame) → Type 0
AllPackable [] = Unit
AllPackable ((random, f) ∷ fs) = IsPackable f × AllPackable fs

-- The frames that come out.
abbrev pub all_received : List (ℕ × Frame) → List Frame
all_received [] = []
all_received ((random, f) ∷ fs) = received random f ∷ all_received fs

length-pack : (random : ℕ) (f : Frame) → 2 ≤ length (pack random f).0
unfolding pack
length-pack random f = elim (Bool-cases (f.masked == frame_is_masked)) [
  | inl on ↦ rw on (omega arith)
  | inr off ↦ rw off (omega arith)
]

unpack_loop_step :
    (fuel : ℕ) (frames : Frames) (packet rest : Bytes) (f : Frame)
    → 0 < length packet
    → unpack empty_frame packet ≡ some (f, rest)
    → unpack_loop (suc fuel) frames packet ≡ unpack_loop fuel (append frames (some f)) rest
unfolding unpack_loop
unpack_loop_step fuel frames [] rest f h e = absurd (omega arith)
unpack_loop_step fuel frames (b ∷ packet) rest f h e = rw e

unpack_loop-packed :
    (fuel : ℕ) (vs : List Frame) (fs : List (ℕ × Frame))
    → AllPackable fs
    → length (packed fs) ≤ fuel
    → unpack_loop fuel (record { v = vs }) (packed fs) ≡ some (record { v = vs ++ all_received fs })
unpack_loop-packed fuel vs [] ok h =
    unfold unpack_loop in ap (λ l. some (record { v = l })) (sym (append-nil vs))
unpack_loop-packed zero vs ((random, f) ∷ fs) ok h =
    absurd (omega (arith, length-append (pack random f).0 (packed fs), length-pack random f))
unpack_loop-packed (suc fuel) vs ((random, f) ∷ fs) (p, ok) h =
    let wire = (pack random f).0 in
    unpack_loop_step fuel (record { v = vs }) (wire ++ packed fs) (packed fs) (received random f)
      (omega (arith, length-append wire (packed fs), length-pack random f))
      (unpack-pack random f (packed fs) p)
    ∙ unpack_loop-packed fuel (vs ++ (received random f ∷ [])) fs ok
        (omega (arith, length-append wire (packed fs), length-pack random f))
    ∙ ap (λ l. some (record { v = l })) (append_assoc vs (received random f ∷ []) (all_received fs))

unpack_all_loop :
    (packet : Bytes) (frames : Frames)
    → packet ≢ []
    → unpack_loop (length packet) no_frames packet ≡ some frames
    → unpack_all packet ≡ some (some frames)
unfolding unpack_all
unpack_all_loop [] frames ne e = absurd (ne refl)
unpack_all_loop (b ∷ packet) frames ne e = rw e

-- `Unpack` takes the packets of one frame or more, written one after the other, apart again: the
-- frames come out in order, with their payloads unmasked, and nothing else.
pub unpack_all-packed :
    (random : ℕ) (f : Frame) (fs : List (ℕ × Frame))
    → IsPackable f
    → AllPackable fs
    → unpack_all ((pack random f).0 ++ packed fs)
      ≡ some (some (record { v = received random f ∷ all_received fs }))
unpack_all-packed random f fs p ok =
    let wire = (pack random f).0 ++ packed fs in
    let long : 2 ≤ length wire =
      omega (arith, length-append (pack random f).0 (packed fs), length-pack random f) in
    unpack_all_loop wire _ (λ e. absurd (omega (arith, ap length e)))
      (unpack_loop-packed (length wire) [] ((random, f) ∷ fs) (p, ok) (omega arith))
