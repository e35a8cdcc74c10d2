-- ===== src/Websocket/Server/Replies.antt =====
-- What the server answers, as its client reads it.
use share.Base.{
  ℕ, ◌^◌, ◌≤◌, ◌<◌, ◌≡◌, ◌≢◌, ◌⊎◌, inl, inr, refl, sym, ap, ◌∙◌, Bool, true, false, not, ◌&&◌, [],
  ◌∷◌, append-nil, some, arith, ltb, leb, ◌==◌, if◌then◌else◌, drop, length, Bytes,
}
use native.Mathlib.Decide.{dec_lt}
use share.Websocket.Frame.{
  Frame, empty_frame, is_valid, pack, frame_is_masked, opcode_close, opcode_ping, opcode_pong,
  status_bad_request,
}
use share.Websocket.Frame.Header.{IsPackable}
use share.Websocket.Frame.Mask.{IsFlag}
use share.Websocket.Frame.New.{new_frame_close}
use share.Websocket.Frame.New.Laws.{unpack-new_frame_close}
use share.Websocket.Frame.RoundTrip.{received, unpack-pack}
use share.Websocket.Frame.Unpack.{unpack}
use share.Websocket.Server.{
  Options, Conn, no_conn, sent, drained, removed, Outcome, going_on, refuse, answered_code,
  handle_close, handle_ping, handle_frame,
}

-- The frame that a client reads is a CLOSE frame with a status.
abbrev pub IsCloseWith : Bytes → ℕ → Type 0
IsCloseWith packet status =
    (f : Frame) × (unpack empty_frame packet ≡ some (f, []))
    × (f.opcode ≡ opcode_close)
    × (f.close_code ≡ status)
    × (is_valid f false false false false ≡ true)

pub close-IsCloseWith :
    (status : ℕ) (reason : Bytes)
    → 0 < status
    → status < 2 ^ 16
    → IsCloseWith (new_frame_close 0 false status reason) status
close-IsCloseWith status reason pos h =
    let (f, read, op, code, body, valid) = unpack-new_frame_close 0 status false reason h in
    (f, read, op, code ∙ ground arith, valid)

-- A frame that is not masked, or that has a reserved bit the server does not allow, is refused: the
-- client reads one CLOSE frame with status 1002, and the connection is removed.
pub handle_frame-refuses :
    (o : Options) (c : Conn) (f : Frame)
    → (f.masked ≢ frame_is_masked)
      ⊎ ((0 < f.rsv1) × (o.allow_rsv1 ≡ false))
      ⊎ ((0 < f.rsv2) × (o.allow_rsv2 ≡ false))
      ⊎ ((0 < f.rsv3) × (o.allow_rsv3 ≡ false))
    → (packet : Bytes) × (r : Outcome) × (handle_frame o c f ≡ some r)
      × (r.effects ≡ sent packet ∷ drained ∷ removed ∷ [])
      × (r.conn ≡ no_conn)
      × (r.closing ≡ true)
      × IsCloseWith packet status_bad_request
unfolding handle_frame refuse
handle_frame-refuses o c f bad =
    let invalid : is_valid f true o.allow_rsv1 o.allow_rsv2 o.allow_rsv3 ≡ false =
      unfold is_valid in ground arith in
    (
      _,
      refuse status_bad_request,
      simp invalid,
      refl,
      refl,
      refl,
      close-IsCloseWith status_bad_request [] (omega arith) (omega arith),
    )

pub answered_code-lt :
    (code : ℕ) → code < 2 ^ 16 → (0 < answered_code code) × (answered_code code < 2 ^ 16)
unfolding answered_code
answered_code-lt code h = (ground arith, ground arith)

-- A status that may stand in a CLOSE frame of an endpoint.
abbrev pub IsSendable : ℕ → Type 0
IsSendable code =
    ((1000 ≤ code) × (code < 1015) × (code ≢ 1004) × (code ≢ 1005) × (code ≢ 1006)) ⊎ (3000 ≤ code)

pub pick_code :
    (b : Bool) (x y : ℕ)
    → (b ≡ true → IsSendable x)
    → (b ≡ false → IsSendable y)
    → IsSendable (if b then x else y)
pick_code true x y h k = h refl
pick_code false x y h k = k refl

pub bad_request-IsSendable : IsSendable status_bad_request
bad_request-IsSendable = inl (
  omega arith,
  omega arith,
  λ e. absurd (omega arith),
  λ e. absurd (omega arith),
  λ e. absurd (omega arith),
)

code-IsSendable :
    (code : ℕ)
    → 1000 ≤ code
    → code ≢ 1004
    → code ≢ 1005
    → code ≢ 1006
    → (leb 1015 code && leb code 2999) ≡ false
    → IsSendable code
code-IsSendable code low a b c out = elim (dec_lt code 3000) [
  | yes below ↦ inl (low, ground arith, a, b, c)
  | no above ↦ inr (omega arith)
]

pub answered_code-IsSendable : (code : ℕ) → IsSendable (answered_code code)
unfolding answered_code
answered_code-IsSendable code =
    let bad = bad_request-IsSendable in
    pick_code (code == 0) _ _ (λ h. bad)
      (λ h0.
        pick_code (ltb code 1000) _ _ (λ h. bad)
          (λ h1.
            pick_code (code == 1004) _ _ (λ h. bad)
              (λ h2.
                pick_code (code == 1005) _ _ (λ h. bad)
                  (λ h3.
                    pick_code (code == 1006) _ _ (λ h. bad)
                      (λ h4.
                        pick_code (leb 1015 code && leb code 2999) _ _ (λ h. bad)
                          (λ h5.
                            code-IsSendable code (ground arith) (λ e. ground arith)
                              (λ e. ground arith) (λ e. ground arith) h5))))))

-- A CLOSE frame is answered by one CLOSE frame, whose status is one that an endpoint may send: it
-- is never 1004, 1005 or 1006, below 1000, or from 1015 to 2999. The connection is removed. The
-- frame's own status is a `uint16`.
pub handle_close-IsSendable :
    (o : Options) (req : Frame)
    → req.close_code < 2 ^ 16
    → (packet : Bytes) × (status : ℕ) × ((handle_close o req).effects ≡ sent packet ∷ removed ∷ [])
      × ((handle_close o req).conn ≡ no_conn)
      × IsCloseWith packet status
      × IsSendable status
unfolding handle_close
handle_close-IsSendable o req h =
    let reason = if leb 2 (length req.payload) then drop 2 req.payload else req.payload in
    let status =
      if leb 2 (length req.payload) && not (o.utf8_valid reason)
      then status_bad_request
      else answered_code req.close_code in
    let (pos, low) = answered_code-lt req.close_code h in
    let pos' : 0 < status = ground arith in
    let low' : status < 2 ^ 16 = ground arith in
    (
      new_frame_close 0 false status reason,
      status,
      refl,
      refl,
      close-IsCloseWith status reason pos' low',
      pick_code (leb 2 (length req.payload) && not (o.utf8_valid reason)) _ _
          (λ e. bad_request-IsSendable) (λ e. answered_code-IsSendable req.close_code),
    )

control_valid :
    (f : Frame) (a b c : Bool)
    → is_valid f true a b c ≡ true
    → 8 ≤ f.opcode
    → (f.len ≤ 125) × (f.fin ≢ 0)
unfolding is_valid
control_valid f a b c ok h = (ground arith, λ e. ground arith)

reply_valid :
    (f : Frame)
    → f.masked ≡ 0
    → f.rsv1 ≡ 0
    → f.rsv2 ≡ 0
    → f.rsv3 ≡ 0
    → f.len ≤ 125
    → f.fin ≢ 0
    → is_valid f false false false false ≡ true
unfolding is_valid
reply_valid f m r1 r2 r3 h e = ground arith

-- A PING is answered by a PONG with the same payload, unmasked, and the connection and what is kept
-- for it stay as they are; if it cannot be sent, the connection is removed. The frame is valid for
-- the server, its fin bit is 0 or 0x80, and its length is that of its payload.
pub handle_frame-ping :
    (o : Options) (c : Conn) (f : Frame)
    → is_valid f true o.allow_rsv1 o.allow_rsv2 o.allow_rsv3 ≡ true
    → f.opcode ≡ opcode_ping
    → IsFlag f.fin
    → f.len ≡ length f.payload
    → (packet : Bytes) × (g : Frame) × (handle_frame o c f
        ≡ some (
            if o.send_ok packet
            then going_on c (sent packet ∷ [])
            else going_on no_conn (sent packet ∷ removed ∷ [])))
      × (unpack empty_frame packet ≡ some (g, []))
      × (g.opcode ≡ opcode_pong)
      × (g.payload ≡ f.payload)
      × (is_valid g false false false false ≡ true)
unfolding handle_frame handle_ping
handle_frame-ping o c f ok op flag same =
    let reply = record f { opcode = opcode_pong; masked = 0 } in
    let (short, ends) = control_valid f o.allow_rsv1 o.allow_rsv2 o.allow_rsv3 ok (omega arith) in
    let packable : IsPackable reply = record {
      fin_flag = flag;
      opcode_low = omega arith;
      masked_flag = inl refl;
      fits = omega arith;
    } in
    (
      (pack 0 reply).0,
      received 0 reply,
      simp (ok, op),
      ap (unpack empty_frame) (sym (append-nil _)) ∙ unpack-pack 0 reply [] packable,
      refl,
      refl,
      reply_valid (received 0 reply) refl refl refl refl (omega arith) ends,
    )
