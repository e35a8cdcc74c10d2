-- ===== src/Websocket/Server/Messages.antt =====
-- A fragmented message goes to its handler once, whole.
use share.Base.{
  ℕ, ◌≤◌, ◌≡◌, ◌⊎◌, inl, inr, refl, sym, ap, ◌∙◌, Bool, true, false, List, [], ◌∷◌, ◌++◌,
  append_assoc, append-nil, Option, none, some, arith, ◌==◌, Bool-cases, length, Bytes, All,
}
use share.Websocket.Frame.{Frame, is_valid, opcode_cont, opcode_text, opcode_bin, frame_is_finished}
use share.Websocket.Frame.New.{new_frame_close}
use share.Websocket.Frames.{fin}
use share.Websocket.Frames.Message.{message_bytes, IsFirst, IsMiddle, IsLast, payload-fin}
use share.Websocket.Server.{
  Options, Conn, no_conn, Effect, text, bin, sent, drained, removed, status_invalid_data, Outcome,
  going_on, deliver, refuse, fin_frames, handle_fragment, handle_frame, handle_frames, then_rest,
}
use share.Websocket.Server.Invariant.{IsStart, IsMore}
use share.Websocket.Server.Replies.{IsCloseWith, close-IsCloseWith}

-- A frame that is whole and that the server takes.
pub record IsTaken (o : Options) (f : Frame) : Type 0 where
  pub whole : f.is_complete ≡ true
  pub valid : is_valid f true o.allow_rsv1 o.allow_rsv2 o.allow_rsv3 ≡ true
  pub filled : f.len ≤ length f.payload

abbrev kept : Option Frame → List Frame → Conn
kept one fs = record { frame = one; frames = some (record { v = fs }) }

nothing_before : (d : Conn) (x : Option Outcome) → then_rest false (going_on d []) x ≡ x
nothing_before d none = refl
nothing_before d (some r) = refl

then_nothing :
    (b : Bool) (c : Conn) (es : List Effect)
    → let r : Outcome = record { conn = c; effects = es; closing = b } in
      then_rest b r (some (going_on c [])) ≡ some r
then_nothing true c es = refl
then_nothing false c es = ap (λ l. some (going_on c l)) (append-nil es)

start-IsFirst : (f : Frame) → IsStart f → IsFirst f
start-IsFirst f s = record {
  data_opcode = s.data_opcode;
  not_last = λ e. absurd (omega (arith, s.not_last));
}

more-IsMiddle : (fs : List Frame) → All IsMore fs → All IsMiddle fs
more-IsMiddle [] ok = tt
more-IsMiddle (f ∷ fs) (m, ok) = (
  record {
    not_close = λ e. absurd (omega (arith, m.cont_opcode));
    not_last = inr (λ e. absurd (omega (arith, m.not_last)));
  },
  more-IsMiddle fs ok,
)

-- The frame that ends a message.
pub record IsEnd (f : Frame) : Type 0 where
  pub cont_opcode : f.opcode ≡ opcode_cont
  pub is_last : f.fin ≡ frame_is_finished

end-IsLast : (f : Frame) → IsEnd f → IsLast f
end-IsLast f e = record {
  not_close = λ h. absurd (omega (arith, e.cont_opcode));
  not_control = let c = e.cont_opcode in ground arith;
  is_last = e.is_last;
}

-- The frame that the fragments make.
abbrev whole_message : Frame → List Frame → Frame → Frame
whole_message first middle last = record first {
  payload = first.payload ++ (message_bytes middle ++ last.payload);
}

module _ (o : Options) where
  take_data :
      (c : Conn) (f : Frame)
      → IsTaken o f
      → f.opcode ≤ opcode_bin
      → handle_frame o c f ≡ handle_fragment o c f
  unfolding handle_frame
  take_data c f t low = let v = t.valid in ground arith

  keep_start :
      (one : Option Frame) (f : Frame)
      → IsTaken o f
      → IsStart f
      → handle_frame o (record { frame = one; frames = none }) f
        ≡ some (going_on (kept none (f ∷ [])) [])
  unfolding handle_fragment
  keep_start one f t s =
      let d = s.data_opcode in
      let low : f.opcode ≤ opcode_bin = ground arith in
      let full = t.filled in
      let open_frame = s.not_last in
      take_data (record { frame = one; frames = none }) f t low ∙ ground arith

  keep_more :
      (one : Option Frame) (fs : List Frame) (f : Frame)
      → IsTaken o f
      → IsMore f
      → handle_frame o (kept one fs) f ≡ some (going_on (kept none (fs ++ (f ∷ []))) [])
  unfolding handle_fragment
  keep_more one fs f t s =
      let c = s.cont_opcode in
      let full = t.filled in
      let open_frame = s.not_last in take_data (kept one fs) f t (omega arith) ∙ ground arith

  step_on :
      (c d : Conn) (f : Frame) (fs : List Frame)
      → f.is_complete ≡ true
      → handle_frame o c f ≡ some (going_on d [])
      → handle_frames o c (f ∷ fs) ≡ handle_frames o d fs
  unfolding handle_frames
  step_on c d f fs whole e = simp (whole, e) (nothing_before d (handle_frames o d fs))

  keep_fragments :
      (fs ms : List Frame) (last : Frame)
      → All (IsTaken o) ms
      → All IsMore ms
      → handle_frames o (kept none fs) (ms ++ (last ∷ []))
        ≡ handle_frames o (kept none (fs ++ ms)) (last ∷ [])
  keep_fragments fs [] last t ok =
      ap (λ l. handle_frames o (kept none l) (last ∷ [])) (sym (append-nil fs))
  keep_fragments fs (m ∷ ms) last (t, ts) (h, ok) =
      step_on (kept none fs) (kept none (fs ++ (m ∷ []))) m (ms ++ (last ∷ [])) t.whole
        (keep_more none fs m t h)
      ∙ keep_fragments (fs ++ (m ∷ [])) ms last ts ok
      ∙ ap (λ l. handle_frames o (kept none l) (last ∷ [])) (append_assoc fs (m ∷ []) ms)

  end_message :
      (fs : List Frame) (last f : Frame)
      → IsTaken o last
      → IsEnd last
      → fin (record { v = fs }) (some last) ≡ some f
      → handle_frame o (kept none fs) last ≡ some (deliver o (f, no_conn))
  unfolding handle_fragment fin_frames
  end_message fs last f t e whole =
      let c = e.cont_opcode in
      let l = e.is_last in take_data (kept none fs) last t (omega arith) ∙ simp (c, l, whole)

  last_frame :
      (c : Conn) (f : Frame) (r : Outcome)
      → f.is_complete ≡ true
      → handle_frame o c f ≡ some r
      → handle_frames o c (f ∷ []) ≡ some r
  unfolding handle_frames
  last_frame c f r whole e = simp (whole, e) (then_nothing r.closing r.conn r.effects)

-- The run of a message ends with what `deliver` makes of it.
message_run :
    (o : Options) (one : Option Frame) (first last : Frame) (middle : List Frame)
    → IsTaken o first
    → All (IsTaken o) middle
    → IsTaken o last
    → IsStart first
    → All IsMore middle
    → IsEnd last
    → handle_frames o (record { frame = one; frames = none }) (first ∷ (middle ++ (last ∷ [])))
      ≡ some (deliver o (whole_message first middle last, no_conn))
message_run o one first last middle tf tm tl s ms e =
    let (asked, merged) =
      payload-fin first last middle [] (start-IsFirst first s) (more-IsMiddle middle ms)
        (end-IsLast last e) in
    step_on o (record { frame = one; frames = none }) (kept none (first ∷ [])) first
      (middle ++ (last ∷ [])) tf.whole (keep_start o one first tf s)
    ∙ keep_fragments o (first ∷ []) middle last tm ms
    ∙ last_frame o (kept none (first ∷ middle)) last _ tl.whole
        (end_message o (first ∷ middle) last _ tl e merged)

-- What the server does with the bytes of a message: a handler has them, or the client reads why not.
abbrev pub IsGiven : Options → ℕ → Bytes → Option Outcome → Type 0
IsGiven o opcode bytes run =
    ((opcode ≡ opcode_text)
      × (o.utf8_valid bytes ≡ true)
      × (run ≡ some (record { conn = no_conn; effects = text bytes ∷ []; closing = false })))
    ⊎ ((opcode ≡ opcode_text)
        × (o.utf8_valid bytes ≡ false)
        × (packet : Bytes) × (run
            ≡ some (record {
              conn = no_conn;
              effects = sent packet ∷ drained ∷ removed ∷ [];
              closing = true;
            }))
        × IsCloseWith packet 1007)
    ⊎ ((opcode ≡ opcode_bin)
        × (run ≡ some (record { conn = no_conn; effects = bin bytes ∷ []; closing = false })))

deliver-IsGiven :
    (o : Options) (f : Frame)
    → (f.opcode ≡ opcode_text) ⊎ (f.opcode ≡ opcode_bin)
    → IsGiven o f.opcode f.payload (some (deliver o (f, no_conn)))
unfolding deliver refuse
deliver-IsGiven o f (inr e) =
    let no_text : (f.opcode == opcode_text) ≡ false = ground arith in inr (inr (e, simp no_text))
deliver-IsGiven o f (inl e) =
    let is_text : (f.opcode == opcode_text) ≡ true = ground arith in
    elim (Bool-cases (o.utf8_valid f.payload)) [
      | inl good ↦ inl (e, good, simp (is_text, good))
      | inr bad ↦ inr (
          inl (
            e,
            bad,
            new_frame_close 0 false status_invalid_data [],
            simp (is_text, bad),
            close-IsCloseWith status_invalid_data [] (omega arith) (omega arith),
          ))
    ]

-- A message in fragments, with nothing kept for the connection before it: when its last frame is
-- there, the payloads of the frames in order go once to a handler, that of texts for a text that
-- `utf8.Valid` takes and that of binary messages for binary data, and nothing else leaves the server.
-- For another text the client reads one CLOSE frame with status 1007 and the connection is removed.
-- Nothing is kept after the message. The frames are complete, and valid for the server.
pub handle_frames-message :
    (o : Options) (one : Option Frame) (first last : Frame) (middle : List Frame)
    → IsTaken o first
    → All (IsTaken o) middle
    → IsTaken o last
    → IsStart first
    → All IsMore middle
    → IsEnd last
    → IsGiven o first.opcode
        (first.payload ++ (message_bytes middle ++ last.payload))
        (handle_frames o (record { frame = one; frames = none }) (first ∷ (middle ++ (last ∷ []))))
handle_frames-message o one first last middle tf tm tl s ms e =
    rw (message_run o one first last middle tf tm tl s ms e)
      (deliver-IsGiven o (whole_message first middle last) s.data_opcode)
