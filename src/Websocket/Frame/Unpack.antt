-- ===== src/Websocket/Frame/Unpack.antt =====
-- `Frame.unpack` of lib/websocket/frame.go. A frame that is not complete keeps what it has read,
-- and the next packet goes on from there. The bytes that the source unmasks inside `packet` are
-- those that it then cuts off, so the rest of the packet is as it was.
use share.Base.{
  ℕ, ◌+◌, ◌-◌, ◌%◌, ◌^◌, true, not, ◌&&◌, [], ◌∷◌, ◌++◌, Option, none, some, ltb, ◌==◌,
  if◌then◌else◌, take, drop, length, bit_and, u64, Bytes,
}
use share.Websocket.Frame.{
  Frame, mask_bytes, frame_medium_payload, frame_large_payload, frame_is_finished, frame_is_masked,
  opcode_close, status_normal, status_bad_request,
}
use share.Websocket.Frame.BigEndian.{big_endian}

-- How a part of `unpack` ends: an index out of range, `return nil`, or on to the next part.
pub data Progress : Type 0 where
  panic : Progress
  stop : Frame → Progress
  more : Frame → Bytes → Progress

abbrev pub and_then : Progress → (Frame → Bytes → Progress) → Progress
and_then panic k = panic
and_then (stop f) k = stop f
and_then (more f packet) k = k f packet

-- The extended length ends at byte `width` of the header; `f.len` is read from byte 2 on.
unfoldable pub read_extended : ℕ → Frame → Bytes → Progress
read_extended width f packet =
    if ltb (length f.chopped) width
    then (let exp = width - length f.chopped in
        let chopped = f.chopped ++ take exp packet in
        if ltb (length packet) exp
        then stop (record f { chopped = f.chopped ++ packet })
        else more
            (record f { chopped = chopped; len = big_endian 0 (take (width - 2) (drop 2 chopped)) })
            (drop exp packet))
    else more f packet

-- `default` of the switch on the length of `chopped`.
unfoldable pub read_length : Frame → Bytes → Progress
unfolding read_extended
read_length f packet =
    if f.len == frame_large_payload
    then read_extended 10 f packet
    else if f.len == frame_medium_payload
    then read_extended 4 f packet
    else more f packet

-- `case 1`; the loop then comes to `default`.
unfoldable pub read_second : Frame → Bytes → Progress
unfolding read_length
read_second f [] = panic
read_second f (b ∷ packet) =
    read_length
      (record f {
        masked = bit_and b frame_is_masked;
        len = bit_and b 0x7f;
        chopped = f.chopped ++ (b ∷ []);
      })
      packet

-- What `case 0` sets.
abbrev pub first_fields : Frame → ℕ → Frame
first_fields f b = record f {
  fin = bit_and b frame_is_finished;
  rsv1 = bit_and b 0x40;
  rsv2 = bit_and b 0x20;
  rsv3 = bit_and b 0x10;
  opcode = bit_and b 0x0f;
  chopped = f.chopped ++ (b ∷ []);
}

-- `case 0`; the loop then comes to `case 1`.
unfoldable pub read_first : Frame → Bytes → Progress
unfolding read_second
read_first f [] = panic
read_first f (b ∷ []) = stop (first_fields f b)
read_first f (b ∷ c ∷ packet) = read_second (first_fields f b) (c ∷ packet)

-- The loop until the length is known, entered by the length of `chopped`.
unfoldable pub read_header : Frame → Bytes → Progress
unfolding read_first
read_header f packet =
    if length f.chopped == 0
    then read_first f packet
    else if length f.chopped == 1
    then read_second f packet
    else read_length f packet

-- `exp` is negative for a key of more than four bytes, and `packet[:exp]` then panics.
unfoldable pub read_key : Frame → Bytes → Progress
read_key f packet =
    if f.masked == frame_is_masked && not (length f.mask_key == 4)
    then if length packet == 0
      then stop f
      else if ltb 4 (length f.mask_key)
      then panic
      else (let exp = 4 - length f.mask_key in
          if ltb (length packet) exp
          then stop (record f { mask_key = f.mask_key ++ packet })
          else more (record f { mask_key = f.mask_key ++ take exp packet }) (drop exp packet))
    else more f packet

-- The status in a payload of a CLOSE frame.
unfoldable pub close_status : Bytes → ℕ
close_status [] = status_normal
close_status (b ∷ []) = status_bad_request
close_status (b ∷ c ∷ bs) = big_endian 0 (b ∷ c ∷ [])

abbrev pub complete : Frame → Frame
complete f = record f {
  close_code = if f.opcode == opcode_close then close_status f.payload else f.close_code;
  chopped = [];
  is_complete = true;
}

-- The bytes of the packet, unmasked if the frame is masked.
abbrev pub unmasked : Frame → Bytes → Bytes
unmasked f chunk =
    if f.masked == frame_is_masked
    then mask_bytes f.mask_key (length f.payload % 4) chunk
    else chunk

-- How much of the packet belongs to the payload; the difference is taken in `uint64`.
unfoldable pub wanted : Frame → Bytes → ℕ
wanted f packet =
    let left = u64 (f.len + 2 ^ 64 - length f.payload) in
    if ltb (length packet) left then length packet else left

unfoldable pub take_payload : ℕ → Frame → Bytes → Frame × Bytes
unfolding close_status
take_payload exp f packet =
    let f1 = record f { payload = f.payload ++ unmasked f (take exp packet) } in
    (if length f1.payload == f.len then complete f1 else f1, drop exp packet)

unfoldable pub read_payload : Frame → Bytes → Frame × Bytes
read_payload f packet =
    if f.len == 0
    then (
      record f {
        close_code = if f.opcode == opcode_close then status_normal else f.close_code;
        chopped = [];
        is_complete = true;
      },
      packet,
    )
    else if length packet == 0
    then (f, [])
    else take_payload (wanted f packet) f packet

-- The frame after the call and the rest of the packet; `none` is a panic.
abbrev pub finish : Progress → Option (Frame × Bytes)
finish panic = none
finish (stop f) = some (f, [])
finish (more f packet) = some (read_payload f packet)

unfoldable pub unpack : Frame → Bytes → Option (Frame × Bytes)
unfolding read_header read_key wanted take_payload read_payload
unpack f packet = finish (and_then (read_header f packet) read_key)
