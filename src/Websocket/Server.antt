-- ===== src/Websocket/Server.antt =====
-- lib/websocket/server.go and clientmanager.go: what the server does with a complete frame of one
-- connection. The state is the entries of that connection in the maps of the client manager; what
-- leaves the server is a list of effects, in order.
pub mod Chopped
pub mod Invariant
pub mod Messages
pub mod Packets
pub mod Replies
use share.Base.{
  ℕ, ◌>>=◌, Bool, true, false, not, ◌&&◌, ◌||◌, List, [], ◌∷◌, ◌++◌, Option, none, some, ltb, leb,
  ◌==◌, if◌then◌else◌, length, drop, Bytes,
}
use share.Websocket.Frame.{
  Frame, is_valid, pack, opcode_cont, opcode_text, opcode_bin, opcode_close, opcode_ping,
  opcode_pong, status_normal, status_bad_request,
}
use share.Websocket.Frame.New.{new_frame_close}
use share.Websocket.Frame.Unpack.{unpack}
use share.Websocket.Frames.{Frames, no_frames, append, fin, unpack_all}

abbrev pub status_invalid_data : ℕ
status_invalid_data = 1007

-- What the server is given: the reserved bits it allows, `utf8.Valid`, which of the two optional
-- handlers are set, and whether `Send` of a packet succeeds.
pub record Options : Type 0 where
  pub allow_rsv1 : Bool
  pub allow_rsv2 : Bool
  pub allow_rsv3 : Bool
  pub utf8_valid : Bytes → Bool
  pub has_pong_handler : Bool
  pub has_rsv_handler : Bool
  pub send_ok : Bytes → Bool

-- `frame[conn]` and `frames[conn]`.
pub record Conn : Type 0 where
  pub frame : Option Frame
  pub frames : Option Frames

abbrev pub no_conn : Conn
no_conn = record { frame = none; frames = none }

-- A call of `Send`, of `Recv`, of a handler, and `ClientRemove`.
pub data Effect : Type 0 where
  sent : Bytes → Effect
  drained : Effect
  text : Bytes → Effect
  bin : Bytes → Effect
  pong : Frame → Effect
  rsv_control : Frame → Effect
  removed : Effect

-- The result is `isClosing` or `isInvalid`.
pub record Outcome : Type 0 where
  pub conn : Conn
  pub effects : List Effect
  pub closing : Bool

abbrev pub going_on : Conn → List Effect → Outcome
going_on c es = record { conn = c; effects = es; closing = false }

-- `handleBadRequest` and `handleInvalidData`, each with its status.
unfoldable pub refuse : ℕ → Outcome
refuse status = record {
  conn = no_conn;
  effects = sent (new_frame_close 0 false status []) ∷ drained ∷ removed ∷ [];
  closing = true;
}

-- The code that `handleClose` answers, before it looks at the payload.
unfoldable pub answered_code : ℕ → ℕ
answered_code code =
    if code == 0
    then status_bad_request
    else if ltb code status_normal
    then status_bad_request
    else if code == 1004
    then status_bad_request
    else if code == 1005
    then status_bad_request
    else if code == 1006
    then status_bad_request
    else if leb 1015 code && leb code 2999
    then status_bad_request
    else code

unfoldable pub handle_close : Options → Frame → Outcome
unfolding answered_code
handle_close o req =
    let code = answered_code req.close_code in
    let reason = if leb 2 (length req.payload) then drop 2 req.payload else req.payload in
    let status =
      if leb 2 (length req.payload) && not (o.utf8_valid reason)
      then status_bad_request
      else code in
    record {
      conn = no_conn;
      effects = sent (new_frame_close 0 false status reason) ∷ removed ∷ [];
      closing = true;
    }

-- A frame that is not masked needs no random key.
unfoldable pub handle_ping : Options → Conn → Frame → Outcome
handle_ping o c req =
    let res = (pack 0 (record req { opcode = opcode_pong; masked = 0 })).0 in
    if o.send_ok res then going_on c (sent res ∷ []) else going_on no_conn (sent res ∷ removed ∷ [])

-- `finFrames`; `none` is a panic.
unfoldable pub fin_frames : Conn → Frame → Option (Frame × Conn)
fin_frames c last = go c.frames
  where
    go : Option Frames → Option (Frame × Conn)
    go none = some (last, c)
    go (some frames) = do f ← fin frames (some last); some (f, no_conn)

-- The message goes to its handler.
unfoldable pub deliver : Options → Frame × Conn → Outcome
unfolding refuse
deliver o (f, c) =
    if f.opcode == opcode_text
    then if o.utf8_valid f.payload
      then going_on c (text f.payload ∷ [])
      else refuse status_invalid_data
    else going_on c (bin f.payload ∷ [])

abbrev pub is_started : Option Frames → Bool
is_started none = false
is_started (some frames) = true

abbrev pub frames_or_new : Option Frames → Frames
frames_or_new none = no_frames
frames_or_new (some frames) = frames

unfoldable pub handle_fragment : Options → Conn → Frame → Option Outcome
unfolding fin_frames deliver
handle_fragment o c req =
    let started = is_started c.frames in
    let short = ltb (length req.payload) req.len in
    if not started && req.opcode == opcode_cont
    then some (refuse status_bad_request)
    else if started && not (req.opcode == opcode_cont)
    then some (refuse status_bad_request)
    else if req.fin == 0
    then some (
        if short
        then going_on (record c { frame = some req }) []
        else going_on
            (record { frame = none; frames = some (append (frames_or_new c.frames) (some req)) })
            [])
    else if not started && short
    then some (going_on (record c { frame = some req }) [])
    else do message ← fin_frames c req; some (deliver o message)

unfoldable pub handle_frame : Options → Conn → Frame → Option Outcome
unfolding handle_fragment handle_close handle_ping
handle_frame o c f =
    if not (is_valid f true o.allow_rsv1 o.allow_rsv2 o.allow_rsv3)
    then some (refuse status_bad_request)
    else if leb f.opcode opcode_bin
    then handle_fragment o c f
    else if leb f.opcode 7
    then some (refuse status_bad_request)
    else if f.opcode == opcode_close
    then some (handle_close o f)
    else if f.opcode == opcode_ping
    then some (handle_ping o c f)
    else if f.opcode == opcode_pong
    then some (going_on c (if o.has_pong_handler then pong f ∷ [] else []))
    else if leb f.opcode 15
    then some (if o.has_rsv_handler then going_on c (rsv_control f ∷ []) else handle_close o f)
    else some (going_on c [])

-- The rest of a packet, after an outcome that may end it.
abbrev pub then_rest : Bool → Outcome → Option Outcome → Option Outcome
then_rest true r more = some r
then_rest false r more = do rest ← more; some (record rest { effects = r.effects ++ rest.effects })

-- The loop of `reader` over the frames of a packet.
unfoldable pub handle_frames : Options → Conn → List Frame → Option Outcome
handle_frames o c [] = some (going_on c [])
handle_frames o c (f ∷ fs) =
    let skipped = handle_frames o (record c { frame = some f }) fs in
    if not f.is_complete
    then skipped
    else do r ← handle_frame o c f; then_rest r.closing r (handle_frames o r.conn fs)

-- `reader` on a packet, once the chopped frame is dealt with.
unfoldable pub read_frames : Options → Conn → Bytes → Option Outcome
read_frames o c packet = do frames ← unpack_all packet; go frames
  where
    go : Option Frames → Option Outcome
    go none = some (going_on no_conn (removed ∷ []))
    go (some frames) = handle_frames o c frames.v

-- `reader` on the chopped frame `f`, which `unpack` has changed in place, and the rest.
unfoldable pub resume_frame : Options → Conn → Frame → Bytes → Option Outcome
resume_frame o c f packet =
    if not f.is_complete
    then if length packet == 0
      then some (going_on (record c { frame = some f }) [])
      else read_frames o (record c { frame = some f }) packet
    else do
      r ← handle_frame o (record c { frame = none }) f
      then_rest (r.closing || length packet == 0) r (read_frames o r.conn packet)

-- `reader` on a packet of one connection.
unfoldable pub read_packet : Options → Conn → Bytes → Option Outcome
read_packet o c [] = some (going_on no_conn (removed ∷ []))
read_packet o c (b ∷ bs) = go c.frame
  where
    go : Option Frame → Option Outcome
    go none = read_frames o c (b ∷ bs)
    go (some f) = do (f1, rest) ← unpack f (b ∷ bs); resume_frame o c f1 rest
