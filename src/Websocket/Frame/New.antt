-- ===== src/Websocket/Frame/New.antt =====
-- The packets that lib/websocket/frame.go makes for one frame: `NewFrame` and its kin. `random` is
-- what `rand.Uint32()` returns.
pub mod Laws
use share.Base.{
  ℕ, Bool, true, false, List, [], ◌∷◌, ◌++◌, ltb, ◌==◌, if◌then◌else◌, take, length, u16, Bytes,
}
use share.Websocket.Frame.{
  Frame, empty_frame, pack, frame_is_finished, frame_is_masked, frame_small_payload, opcode_text,
  opcode_bin, opcode_close, opcode_ping, opcode_pong, status_normal,
}
use share.Websocket.Frame.BigEndian.{put_big_endian}

-- The frame that `NewFrame` packs.
abbrev pub finished_frame : ℕ → Bool → Bytes → Frame
finished_frame opcode is_masked payload = record empty_frame {
  fin = frame_is_finished;
  opcode = opcode;
  masked = if is_masked then frame_is_masked else 0;
  payload = payload;
}

unfoldable pub new_frame : ℕ → ℕ → Bool → Bytes → Bytes
unfolding pack
new_frame random opcode is_masked payload =
    (pack random (finished_frame opcode is_masked payload)).0

unfoldable pub new_control_frame : ℕ → ℕ → Bool → Bytes → Bytes
new_control_frame random opcode is_masked payload =
    if ltb frame_small_payload (length payload)
    then new_frame random opcode is_masked (take frame_small_payload payload)
    else new_frame random opcode is_masked payload

unfoldable pub new_frame_bin : ℕ → Bool → Bytes → Bytes
new_frame_bin random = new_frame random opcode_bin

unfoldable pub new_frame_text : ℕ → Bool → Bytes → Bytes
new_frame_text random = new_frame random opcode_text

unfoldable pub new_frame_ping : ℕ → Bool → Bytes → Bytes
new_frame_ping random = new_control_frame random opcode_ping

unfoldable pub new_frame_pong : ℕ → Bool → Bytes → Bytes
new_frame_pong random = new_control_frame random opcode_pong

-- `code` is a `uint16`.
unfoldable pub new_frame_close : ℕ → Bool → ℕ → Bytes → Bytes
new_frame_close random is_masked code payload =
    let status = if code == 0 then status_normal else code in
    new_control_frame random opcode_close is_masked (put_big_endian 2 (u16 status) ++ payload)
