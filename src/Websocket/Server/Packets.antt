-- ===== src/Websocket/Server/Packets.antt =====
-- The server on whole packets.
use share.Base.{
  ◌>>=◌, ◌≡◌, inl, inr, refl, Bool, true, false, not, ◌||◌, List, [], ◌∷◌, ◌++◌, Option, none, some,
  ◌==◌, if◌then◌else◌, length, Bytes, All,
}
use share.Websocket.Frame.{Frame}
use share.Websocket.Frames.{Frames}
use share.Websocket.Frames.Consumed.{IsKeyed, unpack_returns}
use share.Websocket.Frames.Packets.{unpack_all-IsKeyed}
use share.Websocket.Server.{
  Options, Conn, Outcome, then_rest, handle_frame, handle_frames, read_frames, resume_frame,
  read_packet,
}
use share.Websocket.Server.Chopped.{IsChopped, handle_frame-Keeps}
use share.Websocket.Server.Invariant.{IsConn, handle_frame-IsHandled}

-- The kept fragments are the start of a message, and the chopped frame has a mask key of four bytes
-- at most.
abbrev pub IsServed : Conn → Type 0
IsServed c = IsConn c × IsChopped c.frame

-- A result with the connection well formed after it.
abbrev pub IsRead : Option Outcome → Type 0
IsRead x = (r : Outcome) × (x ≡ some r) × IsServed r.conn

then_rest-IsRead :
    (b : Bool) (r : Outcome) (x : Option Outcome)
    → IsServed r.conn
    → IsRead x
    → IsRead (then_rest b r x)
then_rest-IsRead true r x ok h = (r, refl, ok)
then_rest-IsRead false r x ok (s, e, kept) =
    (record s { effects = r.effects ++ s.effects }, rw e refl, kept)

pick-IsRead : (b : Bool) (x y : Option Outcome) → IsRead x → IsRead y → IsRead (if b then x else y)
pick-IsRead true x y h k = h
pick-IsRead false x y h k = k

-- A frame is handled, and then the rest of the packet if the connection is not closed.
after_frame :
    (o : Options) (c : Conn) (f : Frame) (k : Outcome → Option Outcome)
    → IsServed c
    → IsKeyed f
    → ((r : Outcome) → IsServed r.conn → IsRead (k r))
    → IsRead (handle_frame o c f >>= k)
after_frame o c f k (ok, old) new h =
    let (r, e, kept, closed) = handle_frame-IsHandled o c f ok in
    rw e (h r (kept, handle_frame-Keeps o c f old new r e))

handle_frames-IsRead :
    (o : Options) (c : Conn) (fs : List Frame)
    → IsServed c
    → All IsKeyed fs
    → IsRead (handle_frames o c fs)
unfolding handle_frames
handle_frames-IsRead o c [] ok keys = (_, refl, ok)
handle_frames-IsRead o c (f ∷ fs) ok (key, keys) =
    pick-IsRead (not f.is_complete) _ _
      (handle_frames-IsRead o (record c { frame = some f }) fs (ok.0, key) keys)
      (after_frame o c f _ ok key (λ r kept.
        then_rest-IsRead r.closing r _ kept (handle_frames-IsRead o r.conn fs kept keys)))

read_frames-IsRead :
    (o : Options) (c : Conn) (packet : Bytes) → IsServed c → IsRead (read_frames o c packet)
unfolding read_frames
read_frames-IsRead o c packet ok = elim (unpack_all-IsKeyed packet) [
  | inl (nil, e) ↦ rw e (_, refl, (tt, tt))
  | inr (some_there, frames, e, keys) ↦ rw e (handle_frames-IsRead o c frames.v ok keys)
]

resume_frame-IsRead :
    (o : Options) (c : Conn) (f : Frame) (packet : Bytes)
    → IsServed c
    → IsKeyed f
    → IsRead (resume_frame o c f packet)
unfolding resume_frame
resume_frame-IsRead o c f packet ok key =
    pick-IsRead (not f.is_complete) _ _
      (pick-IsRead (length packet == 0) _ _ (_, refl, (ok.0, key))
        (read_frames-IsRead o (record c { frame = some f }) packet (ok.0, key)))
      (after_frame o (record c { frame = none }) f _ (ok.0, tt) key
        (λ r kept.
          then_rest-IsRead (r.closing || length packet == 0) r _ kept
            (read_frames-IsRead o r.conn packet kept)))

read_packet_kept :
    (o : Options) (one : Option Frame) (kept : Option Frames) (packet : Bytes)
    → IsServed (record { frame = one; frames = kept })
    → IsRead (read_packet o (record { frame = one; frames = kept }) packet)
unfolding read_packet
read_packet_kept o one kept [] ok = (_, refl, (tt, tt))
read_packet_kept o none kept (b ∷ bs) ok = read_frames-IsRead o _ (b ∷ bs) ok
read_packet_kept o (some f) kept (b ∷ bs) ok =
    let (g, rest, e, le, key) = unpack_returns f b bs ok.1 in
    rw e (resume_frame-IsRead o _ g rest ok key)

-- The server gets through any packet without a panic and in finitely many steps, with a chopped
-- frame of the connection whose mask key has at most four bytes, or without one. After the packet the
-- chopped frame is such a frame again, if there is one, and what is kept for the connection is still
-- the start of one message.
pub read_packet-IsRead :
    (o : Options) (c : Conn) (packet : Bytes) → IsServed c → IsRead (read_packet o c packet)
read_packet-IsRead o c packet ok = read_packet_kept o c.frame c.frames packet ok
