-- ===== src/Websocket/Client/Invariant.antt =====
-- A client gets through any packet, and keeps the start of one message.
use share.Base.{
  ◌≤◌, ◌≡◌, inl, inr, refl, Bool, true, false, not, ◌&&◌, List, [], ◌∷◌, ◌++◌, Option, none, some,
  arith, ltb, leb, ◌==◌, if◌then◌else◌, leb→le, length, Bytes,
}
use share.Websocket.Frame.{
  Frame, is_valid, opcode_cont, opcode_bin, opcode_close, opcode_ping, opcode_pong, opcode_text,
}
use share.Websocket.Frames.{Frames}
use share.Websocket.Frames.Packets.{unpack_all_total}
use share.Websocket.Server.{is_started}
use share.Websocket.Server.Invariant.{IsKept, IsKept-append, fin_some}
use share.Websocket.Client.{
  ClientOptions, Client, ClientOutcome, client_on_close, client_on_ping, client_deliver,
  client_handle_fragment, client_handle_frame, and_later, raw_loop, handle_raw, merged, is_nil,
}

-- A result with a well-formed client after it.
abbrev pub IsSettledClient : Option ClientOutcome → Type 0
IsSettledClient x = (r : ClientOutcome) × (x ≡ some r) × IsKept r.client.frames

settle :
    (b : Bool) (x y : Option ClientOutcome)
    → (b ≡ true → IsSettledClient x)
    → (b ≡ false → IsSettledClient y)
    → IsSettledClient (if b then x else y)
settle true x y h k = h refl
settle false x y h k = k refl

settle_some :
    (b : Bool) (x y : ClientOutcome)
    → (b ≡ true → IsKept x.client.frames)
    → (b ≡ false → IsKept y.client.frames)
    → IsKept (if b then x else y).client.frames
settle_some true x y h k = h refl
settle_some false x y h k = k refl

deliver-IsKept :
    (o : ClientOptions) (c : Client) (f : Frame)
    → IsKept c.frames
    → IsKept (client_deliver o c f).client.frames
unfolding client_deliver
deliver-IsKept o c f ok =
    settle_some (f.opcode == opcode_text) _ _
      (λ t.
        settle_some (not (o.utf8_valid f.payload)) _ _ (λ h. ok)
          (λ h. settle_some (o.text_ok f.payload) _ _ (λ g. ok) (λ g. ok)))
      (λ t. settle_some (o.bin_ok f.payload) _ _ (λ g. ok) (λ g. ok))

merged_returns :
    (kept : Option Frames) (f : Frame) → IsKept kept → (g : Frame) × (merged kept f ≡ some g)
merged_returns none f ok = (f, refl)
merged_returns (some frames) f ok = fin_some frames.v f ok

fragment-IsSettledClient :
    (o : ClientOptions) (c : Client) (f : Frame)
    → IsKept c.frames
    → f.opcode ≤ opcode_bin
    → IsSettledClient (client_handle_fragment o c f)
unfolding client_handle_fragment
fragment-IsSettledClient o c f ok low =
    settle (not (is_started c.frames) && f.opcode == opcode_cont) _ _ (λ stray. (_, refl, ok))
      (λ first.
        settle (is_started c.frames && not (f.opcode == opcode_cont)) _ _ (λ broken. (_, refl, ok))
          (λ second.
            settle (f.fin == 0) _ _
              (λ going. (
                _,
                refl,
                settle_some (ltb (length f.payload) f.len) _ _ (λ short. ok)
                    (λ whole.
                      IsKept-append c.frames f ok low (λ h. ground arith) (λ h. ground arith)
                        (ground arith)),
              ))
              (λ last.
                settle (is_nil c.frame && ltb (length f.payload) f.len) _ _ (λ short. (_, refl, ok))
                  (λ whole.
                    let (g, e) = merged_returns c.frames f ok in
                    rw e (
                      _,
                      refl,
                      deliver-IsKept o (record c { frame = none; frames = none }) g tt,
                    )))))

frame-IsSettledClient :
    (o : ClientOptions) (c : Client) (f : Frame)
    → IsKept c.frames
    → IsSettledClient (client_handle_frame o c f)
unfolding client_handle_frame client_on_close client_on_ping
frame-IsSettledClient o c f ok =
    settle (not (is_valid f false o.allow_rsv1 o.allow_rsv2 o.allow_rsv3)) _ _
      (λ bad. (_, refl, ok))
      (λ good.
        settle (leb f.opcode opcode_bin) _ _
          (λ low. fragment-IsSettledClient o c f ok (leb→le _ _ low))
          (λ high.
            settle (leb f.opcode 7) _ _ (λ reserved. (_, refl, ok))
              (λ control.
                settle (f.opcode == opcode_close) _ _ (λ close. (_, refl, ok))
                  (λ no_close.
                    settle (f.opcode == opcode_ping) _ _ (λ ping. (_, refl, ok))
                      (λ no_ping.
                        settle (f.opcode == opcode_pong) _ _ (λ on. (_, refl, ok))
                          (λ no_pong.
                            settle (leb f.opcode 15) _ _
                              (λ rsv.
                                (_, refl, settle_some o.has_rsv_handler _ _ (λ on. ok) (λ off. ok)))
                              (λ none_left. (_, refl, ok))))))))

later-IsSettledClient :
    (b : Bool) (r : ClientOutcome) (x : Option ClientOutcome)
    → IsKept r.client.frames
    → IsSettledClient x
    → IsSettledClient (and_later r b x)
later-IsSettledClient true r x ok h = (r, refl, ok)
later-IsSettledClient false r x ok (s, e, kept) =
    (record s { effects = r.effects ++ s.effects }, rw e refl, kept)

raw_loop-IsSettledClient :
    (o : ClientOptions) (c : Client) (fs : List Frame)
    → IsKept c.frames
    → IsSettledClient (raw_loop o c fs)
unfolding raw_loop
raw_loop-IsSettledClient o c [] ok = (_, refl, ok)
raw_loop-IsSettledClient o c (f ∷ fs) ok =
    settle (not f.is_complete) _ _
      (λ chopped. raw_loop-IsSettledClient o (record c { frame = some f }) fs ok)
      (λ whole.
        let (r, e, kept) = frame-IsSettledClient o c f ok in
        rw e
          (later-IsSettledClient r.closing r _ kept (raw_loop-IsSettledClient o r.client fs kept)))

-- The client gets through any packet without a panic and in finitely many steps, and what it keeps
-- stays the start of one message.
pub handle_raw-IsSettledClient :
    (o : ClientOptions) (c : Client) (packet : Bytes)
    → IsKept c.frames
    → IsSettledClient (handle_raw o c packet)
unfolding handle_raw
handle_raw-IsSettledClient o c packet ok = elim (unpack_all_total packet) [
  | inl (nil, e) ↦ rw e (_, refl, ok)
  | inr (some_there, frames, e) ↦ rw e (raw_loop-IsSettledClient o c frames.v ok)
]
