-- ===== src/Websocket/Client/Replies.antt =====
-- What the client sends, as the server reads it.
use share.Base.{
  ◌+◌, ◌^◌, ◌<◌, ◌≤◌, ◌≡◌, refl, ◌∙◌, true, false, not, ◌&&◌, [], ◌∷◌, some, arith, leb,
  if◌then◌else◌, take_all, drop, length, Bytes,
}
use share.Websocket.Frame.{
  Frame, empty_frame, is_valid, opcode_close, opcode_pong, status_bad_request,
}
use share.Websocket.Frame.New.{new_frame_pong}
use share.Websocket.Frame.New.Laws.{unpack-new_control_frame, unpack-new_frame_close}
use share.Websocket.Frame.Unpack.{unpack}
use share.Websocket.Server.{answered_code}
use share.Websocket.Server.Replies.{
  IsSendable, answered_code-lt, answered_code-IsSendable, bad_request-IsSendable, pick_code,
}
use share.Websocket.Client.{ClientOptions, Client, sent, quit, client_on_close, client_on_ping}

-- A PING is answered by a masked PONG that is valid for the server and has the same payload, and
-- nothing that the client keeps changes. The payload has at most 125 bytes.
pub client_on_ping-pong :
    (o : ClientOptions) (c : Client) (f : Frame)
    → length f.payload ≤ 125
    → (packet : Bytes) × (g : Frame) × ((client_on_ping o c f).effects ≡ sent packet ∷ [])
      × ((client_on_ping o c f).client ≡ record c { drawn = c.drawn + 1 })
      × (unpack empty_frame packet ≡ some (g, []))
      × (g.opcode ≡ opcode_pong)
      × (g.payload ≡ f.payload)
      × (is_valid g true false false false ≡ true)
unfolding client_on_ping new_frame_pong
client_on_ping-pong o c f h =
    let (g, read, whole, op, body, valid) =
      unpack-new_control_frame (o.random c.drawn) opcode_pong true f.payload (omega arith) in
    (_, g, refl, refl, read, op, body ∙ take_all f.payload 125 h, valid)

-- A CLOSE frame is answered by one masked CLOSE frame that is valid for the server, with a status
-- that an endpoint may send, and the client quits. The frame's own status is a `uint16`.
pub client_on_close-IsSendable :
    (o : ClientOptions) (c : Client) (f : Frame)
    → f.close_code < 2 ^ 16
    → (packet : Bytes) × (g : Frame) × ((client_on_close o c f).effects ≡ sent packet ∷ quit ∷ [])
      × (unpack empty_frame packet ≡ some (g, []))
      × (g.opcode ≡ opcode_close)
      × IsSendable g.close_code
      × (is_valid g true false false false ≡ true)
unfolding client_on_close
client_on_close-IsSendable o c f h =
    let reason = if leb 2 (length f.payload) then drop 2 f.payload else f.payload in
    let bad = leb 2 (length f.payload) && not (o.utf8_valid reason) in
    let status = if bad then status_bad_request else answered_code f.close_code in
    let (pos, low) = answered_code-lt f.close_code h in
    let pos' : 0 < status = ground arith in
    let low' : status < 2 ^ 16 = ground arith in
    let sendable : IsSendable status =
      pick_code bad _ _ (λ e. bad_request-IsSendable)
        (λ e. answered_code-IsSendable f.close_code) in
    let (g, read, op, code, body, valid) =
      unpack-new_frame_close (o.random c.drawn) status true reason low' in
    let same : g.close_code ≡ status = code ∙ ground arith in
    (_, g, refl, read, op, rw same sendable, valid)
