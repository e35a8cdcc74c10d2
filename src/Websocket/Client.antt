-- ===== src/Websocket/Client.antt =====
-- lib/websocket/client.go: what a client does with a packet of the server, and what it sends. The
-- handlers of PING and CLOSE frames are those that the client has by default.
pub mod Invariant
pub mod Replies
use share.Base.{
  ℕ, ◌>>=◌, ◌+◌, Bool, true, false, not, ◌&&◌, List, [], ◌∷◌, ◌++◌, Option, none, some, ltb, leb,
  ◌==◌, if◌then◌else◌, length, drop, Bytes,
}
use share.Websocket.Frame.{
  Frame, is_valid, opcode_cont, opcode_text, opcode_bin, opcode_close, opcode_ping, opcode_pong,
  status_bad_request,
}
use share.Websocket.Frame.New.{
  new_frame_bin, new_frame_close, new_frame_ping, new_frame_pong, new_frame_text,
}
use share.Websocket.Frames.{Frames, append, fin, unpack_all}
use share.Websocket.Server.{answered_code, status_invalid_data, is_started, frames_or_new}

-- What the client is given: the reserved bits it allows, `utf8.Valid`, whether its handlers of text
-- and of bytes succeed, which optional handlers are set, and what `rand.Uint32` returns on its
-- first call, its second, and so on.
pub record ClientOptions : Type 0 where
  pub allow_rsv1 : Bool
  pub allow_rsv2 : Bool
  pub allow_rsv3 : Bool
  pub utf8_valid : Bytes → Bool
  pub text_ok : Bytes → Bool
  pub bin_ok : Bytes → Bool
  pub has_pong_handler : Bool
  pub has_rsv_handler : Bool
  pub random : ℕ → ℕ

-- `drawn` counts the calls of `rand.Uint32`.
pub record Client : Type 0 where
  pub frame : Option Frame
  pub frames : Option Frames
  pub drawn : ℕ

-- A call of `send`, of a handler, and `Quit`.
pub data ClientEffect : Type 0 where
  sent : Bytes → ClientEffect
  text : Frame → ClientEffect
  bin : Frame → ClientEffect
  pong : Frame → ClientEffect
  rsv_control : Frame → ClientEffect
  quit : ClientEffect

pub record ClientOutcome : Type 0 where
  pub client : Client
  pub effects : List ClientEffect
  pub closing : Bool

-- A packet is made with the next random number, and sent.
abbrev pub send : ClientOptions → Client → (ℕ → Bytes) → Client × ClientEffect
send o c packet = (record c { drawn = c.drawn + 1 }, sent (packet (o.random c.drawn)))

abbrev pub after_send : Client × ClientEffect → List ClientEffect → Bool → ClientOutcome
after_send (c, e) es closing = record { client = c; effects = e ∷ es; closing = closing }

unfoldable pub send_bin : ClientOptions → Client → Bytes → Client × ClientEffect
send_bin o c payload = send o c (λ r. new_frame_bin r true payload)

unfoldable pub send_text : ClientOptions → Client → Bytes → Client × ClientEffect
send_text o c payload = send o c (λ r. new_frame_text r true payload)

unfoldable pub send_close : ClientOptions → Client → ℕ → Bytes → Client × ClientEffect
send_close o c status payload = send o c (λ r. new_frame_close r true status payload)

unfoldable pub send_ping : ClientOptions → Client → Bytes → Client × ClientEffect
send_ping o c payload = send o c (λ r. new_frame_ping r true payload)

unfoldable pub send_pong : ClientOptions → Client → Bytes → Client × ClientEffect
send_pong o c payload = send o c (λ r. new_frame_pong r true payload)

-- `handleBadRequest` and `handleInvalidData`, each with its status, where the caller then closes.
abbrev pub client_refuse : ClientOptions → Client → List ClientEffect → ℕ → ClientOutcome
client_refuse o c before status =
    let (d, e) = send o c (λ r. new_frame_close r true status []) in
    record { client = d; effects = before ++ (e ∷ []); closing = true }

unfoldable pub client_on_close : ClientOptions → Client → Frame → ClientOutcome
client_on_close o c frame =
    let reason = if leb 2 (length frame.payload) then drop 2 frame.payload else frame.payload in
    let status =
      if leb 2 (length frame.payload) && not (o.utf8_valid reason)
      then status_bad_request
      else answered_code frame.close_code in
    after_send (send o c (λ r. new_frame_close r true status reason)) (quit ∷ []) true

unfoldable pub client_on_ping : ClientOptions → Client → Frame → ClientOutcome
unfolding send_pong
client_on_ping o c frame = after_send (send_pong o c frame.payload) [] false

-- The message goes to its handler.
unfoldable pub client_deliver : ClientOptions → Client → Frame → ClientOutcome
client_deliver o c f =
    if f.opcode == opcode_text
    then if not (o.utf8_valid f.payload)
      then client_refuse o c [] status_invalid_data
      else if o.text_ok f.payload
      then record { client = c; effects = text f ∷ []; closing = false }
      else client_refuse o c (text f ∷ []) status_bad_request
    else if o.bin_ok f.payload
    then record { client = c; effects = bin f ∷ []; closing = false }
    else client_refuse o c (bin f ∷ []) status_bad_request

-- `cl.frames.fin(frame)` where there are frames; `none` is a panic.
abbrev pub merged : Option Frames → Frame → Option Frame
merged none f = some f
merged (some frames) f = fin frames (some f)

abbrev pub is_nil : Option Frame → Bool
is_nil none = true
is_nil (some f) = false

abbrev pub quietly : Client → List ClientEffect → ClientOutcome
quietly c es = record { client = c; effects = es; closing = false }

unfoldable pub client_handle_fragment : ClientOptions → Client → Frame → Option ClientOutcome
client_handle_fragment o c f =
    let started = is_started c.frames in
    let short = ltb (length f.payload) f.len in
    if not started && f.opcode == opcode_cont
    then some (client_refuse o c [] status_bad_request)
    else if started && not (f.opcode == opcode_cont)
    then some (client_refuse o c [] status_bad_request)
    else if f.fin == 0
    then some (
        if short
        then quietly (record c { frame = some f }) []
        else quietly
            (record c { frame = none; frames = some (append (frames_or_new c.frames) (some f)) })
            [])
    else if is_nil c.frame && short
    then some (quietly (record c { frame = some f }) [])
    else do
      message ← merged c.frames f
      some (client_deliver o (record c { frame = none; frames = none }) message)

unfoldable pub client_handle_frame : ClientOptions → Client → Frame → Option ClientOutcome
client_handle_frame o c f =
    if not (is_valid f false o.allow_rsv1 o.allow_rsv2 o.allow_rsv3)
    then some (client_refuse o c [] status_bad_request)
    else if leb f.opcode opcode_bin
    then client_handle_fragment o c f
    else if leb f.opcode 7
    then some (client_refuse o c [] status_bad_request)
    else if f.opcode == opcode_close
    then some (client_on_close o c f)
    else if f.opcode == opcode_ping
    then some (client_on_ping o c f)
    else if f.opcode == opcode_pong
    then some (quietly c (if o.has_pong_handler then pong f ∷ [] else []))
    else if leb f.opcode 15
    then some (if o.has_rsv_handler then quietly c (rsv_control f ∷ []) else client_on_close o c f)
    else some (quietly c [])

-- The frames after one that was handled.
abbrev pub and_later : ClientOutcome → Bool → Option ClientOutcome → Option ClientOutcome
and_later r true more = some r
and_later r false more = do
  later ← more
  some (record later { effects = r.effects ++ later.effects })

-- The loop of `handleRaw`.
unfoldable pub raw_loop : ClientOptions → Client → List Frame → Option ClientOutcome
raw_loop o c [] = some (quietly c [])
raw_loop o c (f ∷ fs) =
    let skipped = raw_loop o (record c { frame = some f }) fs in
    if not f.is_complete
    then skipped
    else do r ← client_handle_frame o c f; and_later r r.closing (raw_loop o r.client fs)

abbrev pub raw_frames : ClientOptions → Client → Option Frames → Option ClientOutcome
raw_frames o c none = some (quietly c [])
raw_frames o c (some frames) = raw_loop o c frames.v

unfoldable pub handle_raw : ClientOptions → Client → Bytes → Option ClientOutcome
handle_raw o c packet = do frames ← unpack_all packet; raw_frames o c frames
