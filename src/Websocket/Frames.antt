-- ===== src/Websocket/Frames.antt =====
-- lib/websocket/frames.go: the frames of a fragmented message, and unpacking a packet to frames.
pub mod Consumed
pub mod Packets
pub mod Message
use share.Base.{
  ◌>>=◌, ℕ, zero, suc, Bool, true, false, ◌&&◌, ◌||◌, List, [], ◌∷◌, ◌++◌, Option, none, some, ◌==◌,
  if◌then◌else◌, length, Bytes,
}
use share.Websocket.Frame.{
  Frame, empty_frame, is_data, opcode_cont, opcode_close, opcode_ping, opcode_pong,
  frame_is_finished,
}
use share.Websocket.Frame.Unpack.{unpack}

pub record Frames : Type 0 where
  pub v : List Frame

-- `new(Frames)`
abbrev pub no_frames : Frames
no_frames = record { v = [] }

-- `none` is a nil frame.
abbrev pub append : Frames → Option Frame → Frames
append frames none = frames
append frames (some f) = record { v = frames.v ++ (f ∷ []) }

-- The loop of `Unpack`. `none` is a panic, and the end of the fuel.
unfoldable pub unpack_loop : ℕ → Frames → Bytes → Option Frames
unpack_loop fuel frames [] = some frames
unpack_loop zero frames (b ∷ packet) = none
unpack_loop (suc fuel) frames (b ∷ packet) = do
  (f, rest) ← unpack empty_frame (b ∷ packet)
  unpack_loop fuel (append frames (some f)) rest

-- Every round takes a byte; the inner `none` is a nil result.
unfoldable pub unpack_all : Bytes → Option (Option Frames)
unfolding unpack_loop
unpack_all [] = some none
unpack_all (b ∷ bs) = do
  frames ← unpack_loop (length (b ∷ bs)) no_frames (b ∷ bs)
  some (some frames)

-- A PING or a PONG is not part of the message.
abbrev pub is_ping_pong : Frame → Bool
is_ping_pong f = f.opcode == opcode_ping || f.opcode == opcode_pong

-- The loop of `fin`, on the frames after the first.
unfoldable pub fin_loop : Bytes → List Frame → Bytes
fin_loop acc [] = acc
fin_loop acc (f ∷ fs) =
    let rest = fin_loop acc fs in
    let added = fin_loop (acc ++ f.payload) fs in
    if f.opcode == opcode_close then acc else if is_ping_pong f then rest else added

-- `none` is the panic on no frames; a nil `last` is `none`.
unfoldable pub fin : Frames → Option Frame → Option Frame
unfolding fin_loop
fin frames last = go frames.v
  where
    last_payload : Option Frame → Bytes
    last_payload none = []
    last_payload (some f) = f.payload

    go : List Frame → Option Frame
    go [] = none
    go (f ∷ fs) = some (record f { payload = fin_loop f.payload fs ++ last_payload last })

unfoldable pub is_closed : Frames → Bool
is_closed frames = go frames.v
  where
    go : List Frame → Bool
    go [] = false
    go (f ∷ fs) = if f.opcode == opcode_close then true else go fs

unfoldable pub opcode : Frames → ℕ
opcode frames = go frames.v
  where
    go : List Frame → ℕ
    go [] = opcode_cont
    go (f ∷ fs) = f.opcode

-- The loop of `payload`.
unfoldable pub payload_loop : Bytes → List Frame → Bytes
payload_loop acc [] = acc
payload_loop acc (f ∷ fs) =
    let skipped = payload_loop acc fs in
    let added = payload_loop (acc ++ f.payload) fs in
    if f.opcode == opcode_close
    then acc
    else if is_ping_pong f
    then skipped
    else if f.fin == frame_is_finished
    then acc ++ f.payload
    else added

unfoldable pub payload : Frames → Bytes
unfolding payload_loop
payload frames = go frames.v
  where
    go : List Frame → Bytes
    go [] = []
    go (f ∷ fs) = if is_data f then payload_loop [] (f ∷ fs) else []
