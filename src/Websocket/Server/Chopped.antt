-- ===== src/Websocket/Server/Chopped.antt =====
-- The chopped frame that the server keeps for a connection has a mask key of four bytes at most.
use share.Base.{
  ℕ, ◌≡◌, ◌>>=◌, subst, Bool, true, false, not, ◌&&◌, [], ◌∷◌, Option, none, some, ltb, leb, ◌==◌,
  if◌then◌else◌, length, inl, inr, Bool-cases, Option-cases,
}
use share.Websocket.Frame.{
  Frame, is_valid, pack, opcode_cont, opcode_text, opcode_bin, opcode_close, opcode_ping,
  opcode_pong,
}
use share.Websocket.Frames.{Frames, fin}
use share.Websocket.Frames.Consumed.{IsKeyed}
use share.Websocket.Server.{
  Options, Conn, no_conn, rsv_control, Outcome, going_on, refuse, handle_close, handle_ping,
  fin_frames, deliver, is_started, handle_fragment, handle_frame,
}

abbrev pub IsChopped : Option Frame → Type 0
IsChopped none = Unit
IsChopped (some f) = IsKeyed f

-- Wherever there is an outcome, its chopped frame has such a key.
abbrev pub Keeps : Option Outcome → Type 0
Keeps x = (r : Outcome) → x ≡ some r → IsChopped r.conn.frame

one-Keeps : (r : Outcome) → IsChopped r.conn.frame → Keeps (some r)
one-Keeps r ok s e = subst (λ (t : Outcome). IsChopped t.conn.frame) {x = r} {y = s} (cc e) ok

pick : (b : Bool) (x y : Option Outcome) → Keeps x → Keeps y → Keeps (if b then x else y)
pick true x y h k = h
pick false x y h k = k

module _ (o : Options) (c : Conn) (f : Frame) (old : IsChopped c.frame) (new : IsKeyed f) where
  refuse-Keeps : (status : ℕ) → Keeps (some (refuse status))
  unfolding refuse
  refuse-Keeps status = one-Keeps _ tt

  handle_close-Keeps : Keeps (some (handle_close o f))
  unfolding handle_close
  handle_close-Keeps = one-Keeps _ tt

  deliver-Keeps : (m : Frame) (d : Conn) → IsChopped d.frame → Keeps (some (deliver o (m, d)))
  unfolding deliver refuse
  deliver-Keeps m d ok = elim (Bool-cases (m.opcode == opcode_text)) [
    | inr bin_there ↦ rw bin_there (one-Keeps _ ok)
    | inl text_there ↦ elim (Bool-cases (o.utf8_valid m.payload)) [
      | inl good ↦ rw (text_there, good) (one-Keeps _ ok)
      | inr bad ↦ rw (text_there, bad) (one-Keeps _ tt)
    ]
  ]

  finished-Keeps :
      (frames : Option Frames)
      → Keeps (fin_frames (record c { frames = frames }) f >>= λ message. some (deliver o message))
  unfolding fin_frames
  finished-Keeps none = deliver-Keeps f (record c { frames = none }) old
  finished-Keeps (some frames) = elim (Option-cases (fin frames (some f))) [
    | inl e ↦ rw e (λ r h. absurd (cc h))
    | inr (m, e) ↦ rw e (deliver-Keeps m no_conn tt)
  ]

  keep_fragment :
      (b : Bool) (frames : Option Frames)
      → Keeps (
          some (
            if b
            then going_on (record c { frame = some f }) []
            else going_on (record { frame = none; frames = frames }) []))
  keep_fragment true frames = one-Keeps _ new
  keep_fragment false frames = one-Keeps _ tt

  handle_fragment-Keeps : Keeps (handle_fragment o c f)
  unfolding handle_fragment
  handle_fragment-Keeps =
      pick (not (is_started c.frames) && f.opcode == opcode_cont) _ _ (refuse-Keeps _) (
        pick (is_started c.frames && not (f.opcode == opcode_cont)) _ _ (refuse-Keeps _) (
          pick (f.fin == 0) _ _ (keep_fragment (ltb (length f.payload) f.len) _) (
            pick (not (is_started c.frames) && ltb (length f.payload) f.len) _ _ (one-Keeps _ new)
              (finished-Keeps c.frames))))

  handle_ping-Keeps : Keeps (some (handle_ping o c f))
  unfolding handle_ping
  handle_ping-Keeps =
      elim (Bool-cases (o.send_ok (pack 0 (record f { opcode = opcode_pong; masked = 0 })).0)) [
        | inl good ↦ rw good (one-Keeps _ old)
        | inr bad ↦ rw bad (one-Keeps _ tt)
      ]

  handle_rsv-Keeps :
      Keeps (some (if o.has_rsv_handler then going_on c (rsv_control f ∷ []) else handle_close o f))
  handle_rsv-Keeps = elim (Bool-cases o.has_rsv_handler) [
    | inl on ↦ simp on (one-Keeps _ old)
    | inr off ↦ simp off handle_close-Keeps
  ]

  pub handle_frame-Keeps : Keeps (handle_frame o c f)
  unfolding handle_frame
  handle_frame-Keeps =
      pick (not (is_valid f true o.allow_rsv1 o.allow_rsv2 o.allow_rsv3)) _ _ (refuse-Keeps _) (
        pick (leb f.opcode opcode_bin) _ _ handle_fragment-Keeps (
          pick (leb f.opcode 7) _ _ (refuse-Keeps _) (
            pick (f.opcode == opcode_close) _ _ handle_close-Keeps (
              pick (f.opcode == opcode_ping) _ _ handle_ping-Keeps (
                pick (f.opcode == opcode_pong) _ _ (one-Keeps _ old)
                  (pick (leb f.opcode 15) _ _ handle_rsv-Keeps (one-Keeps _ old)))))))
