-- ===== src/Websocket/Server/Invariant.antt =====
-- The fragments that the server keeps for a connection are the start of a message.
use share.Base.{
  ℕ, ◌≤◌, ◌≡◌, ◌≢◌, ◌⊎◌, inl, inr, refl, Bool, true, false, not, ◌&&◌, List, [], ◌∷◌, ◌++◌, Option,
  none, some, arith, ltb, leb, ◌==◌, if◌then◌else◌, Bool-cases, leb→le, length, All,
}
use share.Websocket.Frame.{
  Frame, is_valid, pack, opcode_cont, opcode_text, opcode_bin, opcode_close, opcode_ping,
  opcode_pong, status_bad_request,
}
use share.Websocket.Frames.{Frames, append, fin}
use share.Websocket.Server.{
  Options, Conn, no_conn, Effect, pong, rsv_control, Outcome, going_on, refuse, handle_close,
  handle_ping, fin_frames, deliver, is_started, frames_or_new, handle_fragment, handle_frame,
}

-- A frame of text or bytes that is not the last of its message.
pub record IsStart (f : Frame) : Type 0 where
  pub data_opcode : (f.opcode ≡ opcode_text) ⊎ (f.opcode ≡ opcode_bin)
  pub not_last : f.fin ≡ 0

-- A frame that goes on with a message, not the last.
pub record IsMore (f : Frame) : Type 0 where
  pub cont_opcode : f.opcode ≡ opcode_cont
  pub not_last : f.fin ≡ 0

abbrev pub AreStarted : List Frame → Type 0
AreStarted [] = ⊥
AreStarted (f ∷ fs) = IsStart f × All IsMore fs

abbrev pub IsKept : Option Frames → Type 0
IsKept none = Unit
IsKept (some frames) = AreStarted frames.v

abbrev pub IsConn : Conn → Type 0
IsConn c = IsKept c.frames

-- A result, with the connection well formed after it, and forgotten if it is closed.
abbrev pub IsHandled : Option Outcome → Type 0
IsHandled o = (r : Outcome) × (o ≡ some r) × IsConn r.conn × (r.closing ≡ true → r.conn ≡ no_conn)

at_end-All : (fs : List Frame) (f : Frame) → All IsMore fs → IsMore f → All IsMore (fs ++ (f ∷ []))
at_end-All [] f ok m = (m, tt)
at_end-All (g ∷ fs) f (h, ok) m = (h, at_end-All fs f ok m)

at_end-AreStarted :
    (fs : List Frame) (f : Frame) → AreStarted fs → IsMore f → AreStarted (fs ++ (f ∷ []))
at_end-AreStarted [] f ok m = absurd ok
at_end-AreStarted (g ∷ fs) f (h, ok) m = (h, at_end-All fs f ok m)

-- A fragment that is not the last is kept.
pub IsKept-append :
    (kept : Option Frames) (f : Frame)
    → IsKept kept
    → f.opcode ≤ opcode_bin
    → (is_started kept ≡ false → f.opcode ≢ opcode_cont)
    → (is_started kept ≡ true → f.opcode ≡ opcode_cont)
    → f.fin ≡ 0
    → IsKept (some (append (frames_or_new kept) (some f)))
IsKept-append none f ok low new old h =
    let ne = new refl in
    let d : (f.opcode ≡ opcode_text) ⊎ (f.opcode ≡ opcode_bin) = ground arith in
    (record { data_opcode = d; not_last = h }, tt)
IsKept-append (some frames) f ok low new old h =
    at_end-AreStarted frames.v f ok (record { cont_opcode = old refl; not_last = h })

pub fin_some :
    (v : List Frame) (last : Frame)
    → AreStarted v
    → (f : Frame) × (fin (record { v = v }) (some last) ≡ some f)
unfolding fin
fin_some [] last ok = absurd ok
fin_some (f ∷ fs) last ok = (_, refl)

fin_frames_kept :
    (one : Option Frame) (kept : Option Frames) (last : Frame)
    → IsKept kept
    → (f : Frame) × (d : Conn) × (fin_frames (record { frame = one; frames = kept }) last
        ≡ some (f, d))
      × IsConn d
unfolding fin_frames
fin_frames_kept one none last ok = (last, record { frame = one; frames = none }, refl, tt)
fin_frames_kept one (some frames) last ok =
    let (f, e) = fin_some frames.v last ok in (f, no_conn, rw e refl, tt)

deliver-IsHandled :
    (o : Options) (f : Frame) (c : Conn) → IsConn c → IsHandled (some (deliver o (f, c)))
unfolding deliver refuse
deliver-IsHandled o f c ok = elim (Bool-cases (f.opcode == opcode_text)) [
  | inr bin_there ↦ rw bin_there (_, refl, ok, λ h. cc h)
  | inl text_there ↦ elim (Bool-cases (o.utf8_valid f.payload)) [
    | inl good ↦ rw (text_there, good) (_, refl, ok, λ h. cc h)
    | inr bad ↦ rw (text_there, bad) (_, refl, tt, λ h. refl)
  ]
]

-- A fragment in its place.
keep_or_deliver :
    (o : Options) (c : Conn) (req : Frame)
    → IsConn c
    → req.opcode ≤ opcode_bin
    → (is_started c.frames ≡ false → req.opcode ≢ opcode_cont)
    → (is_started c.frames ≡ true → req.opcode ≡ opcode_cont)
    → IsHandled (handle_fragment o c req)
unfolding handle_fragment
keep_or_deliver o c req ok low new old =
    let first : (not (is_started c.frames) && req.opcode == opcode_cont) ≡ false = ground arith in
    let second : (is_started c.frames && not (req.opcode == opcode_cont)) ≡ false = ground arith in
    elim (Bool-cases (req.fin == 0)) [
      | inl going ↦ elim (Bool-cases (ltb (length req.payload) req.len)) [
        | inl short ↦ rw (first, second, going, short) (_, refl, ok, λ h. cc h)
        | inr whole ↦
            rw (first, second, going, whole)
              (_, refl, IsKept-append c.frames req ok low new old (ground arith), λ h. cc h)
      ]
      | inr last ↦
          elim (Bool-cases (not (is_started c.frames) && ltb (length req.payload) req.len)) [
            | inl short ↦ rw (first, second, last, short) (_, refl, ok, λ h. cc h)
            | inr whole ↦
                let (f, d, e, kept) = fin_frames_kept c.frame c.frames req ok in
                rw (first, second, last, whole, e) (deliver-IsHandled o f d kept)
          ]
    ]

refuse-IsHandled : (status : ℕ) → IsHandled (some (refuse status))
unfolding refuse
refuse-IsHandled status = (_, refl, tt, λ h. refl)

handle_fragment-IsHandled :
    (o : Options) (c : Conn) (req : Frame)
    → IsConn c
    → req.opcode ≤ opcode_bin
    → IsHandled (handle_fragment o c req)
unfolding handle_fragment
handle_fragment-IsHandled o c req ok low =
    elim (Bool-cases (not (is_started c.frames) && req.opcode == opcode_cont)) [
      | inl stray ↦ rw stray (refuse-IsHandled status_bad_request)
      | inr first ↦ elim (Bool-cases (is_started c.frames && not (req.opcode == opcode_cont))) [
        | inl broken ↦ rw (first, broken) (refuse-IsHandled status_bad_request)
        | inr second ↦ keep_or_deliver o c req ok low (λ h. ground arith) (λ h. ground arith)
      ]
    ]

handle_close-IsHandled : (o : Options) (req : Frame) → IsHandled (some (handle_close o req))
unfolding handle_close
handle_close-IsHandled o req = (_, refl, tt, λ h. refl)

-- A test between two results.
pick :
    (b : Bool) (x y : Option Outcome)
    → (b ≡ true → IsHandled x)
    → (b ≡ false → IsHandled y)
    → IsHandled (if b then x else y)
pick true x y h k = h refl
pick false x y h k = k refl

quiet-IsHandled : (c : Conn) (es : List Effect) → IsConn c → IsHandled (some (going_on c es))
quiet-IsHandled c es ok = (_, refl, ok, λ h. cc h)

handle_ping-IsHandled :
    (o : Options) (c : Conn) (req : Frame) → IsConn c → IsHandled (some (handle_ping o c req))
unfolding handle_ping
handle_ping-IsHandled o c req ok =
    elim (Bool-cases (o.send_ok (pack 0 (record req { opcode = opcode_pong; masked = 0 })).0)) [
      | inl good ↦ rw good (quiet-IsHandled c _ ok)
      | inr bad ↦ rw bad (quiet-IsHandled no_conn _ tt)
    ]

handle_rsv-IsHandled :
    (o : Options) (c : Conn) (f : Frame)
    → IsConn c
    → IsHandled
        (some (if o.has_rsv_handler then going_on c (rsv_control f ∷ []) else handle_close o f))
handle_rsv-IsHandled o c f ok = elim (Bool-cases o.has_rsv_handler) [
  | inl on ↦ simp on (quiet-IsHandled c _ ok)
  | inr off ↦ simp off (handle_close-IsHandled o f)
]

-- The server handles every frame without a panic, whatever its fields are. What it keeps for the
-- connection stays the start of one message (a text or binary frame without the fin bit, then
-- continuations without it), and a connection that it closes has nothing kept.
pub handle_frame-IsHandled :
    (o : Options) (c : Conn) (f : Frame) → IsConn c → IsHandled (handle_frame o c f)
unfolding handle_frame
handle_frame-IsHandled o c f ok =
    pick (not (is_valid f true o.allow_rsv1 o.allow_rsv2 o.allow_rsv3)) _ _
      (λ bad. refuse-IsHandled status_bad_request)
      (λ good.
        pick (leb f.opcode opcode_bin) _ _
          (λ low. handle_fragment-IsHandled o c f ok (leb→le _ _ low))
          (λ high.
            pick (leb f.opcode 7) _ _ (λ reserved. refuse-IsHandled status_bad_request)
              (λ control.
                pick (f.opcode == opcode_close) _ _ (λ close. handle_close-IsHandled o f)
                  (λ no_close.
                    pick (f.opcode == opcode_ping) _ _ (λ ping. handle_ping-IsHandled o c f ok)
                      (λ no_ping.
                        pick (f.opcode == opcode_pong) _ _
                          (λ pong_there.
                            quiet-IsHandled c (if o.has_pong_handler then pong f ∷ [] else []) ok)
                          (λ no_pong.
                            pick (leb f.opcode 15) _ _ (λ rsv. handle_rsv-IsHandled o c f ok)
                              (λ none_left. quiet-IsHandled c [] ok)))))))
