-- ===== src/Websocket/Frames/Message.antt =====
-- A fragmented message: a data frame, continuations with control frames between them, and a last
-- frame with the fin bit.
use share.Base.{
  ◌≡◌, ◌≢◌, ◌⊎◌, inl, inr, sym, ap, ◌∙◌, true, false, List, [], ◌∷◌, ◌++◌, append_assoc, append-nil,
  some, arith, if◌then◌else◌, Bytes, All,
}
use share.Websocket.Frame.{Frame, is_data, opcode_close, opcode_text, opcode_bin, frame_is_finished}
use share.Websocket.Frames.{is_ping_pong, fin_loop, fin, payload_loop, payload}

-- The bytes that a fragment adds to the message.
abbrev pub fragment_bytes : Frame → Bytes
fragment_bytes f = if is_ping_pong f then [] else f.payload

abbrev pub message_bytes : List Frame → Bytes
message_bytes [] = []
message_bytes (f ∷ fs) = fragment_bytes f ++ message_bytes fs

-- A frame between the first and the last: a PING or a PONG, or a fragment without the fin bit.
pub record IsMiddle (f : Frame) : Type 0 where
  pub not_close : f.opcode ≢ opcode_close
  pub not_last : (is_ping_pong f ≡ true) ⊎ (f.fin ≢ frame_is_finished)

-- The first frame, of text or bytes, without the fin bit.
pub record IsFirst (f : Frame) : Type 0 where
  pub data_opcode : (f.opcode ≡ opcode_text) ⊎ (f.opcode ≡ opcode_bin)
  pub not_last : f.fin ≢ frame_is_finished

-- The last frame.
pub record IsLast (f : Frame) : Type 0 where
  pub not_close : f.opcode ≢ opcode_close
  pub not_control : is_ping_pong f ≡ false
  pub is_last : f.fin ≡ frame_is_finished

fin_loop_step :
    (acc : Bytes) (f : Frame) (fs : List Frame)
    → f.opcode ≢ opcode_close
    → fin_loop acc (f ∷ fs) ≡ fin_loop (acc ++ fragment_bytes f) fs
unfolding fin_loop
fin_loop_step acc f fs h = ground (arith, append-nil acc)

fin_loop_lem :
    (acc : Bytes) (fs : List Frame) → All IsMiddle fs → fin_loop acc fs ≡ acc ++ message_bytes fs
unfolding fin_loop
fin_loop_lem acc [] ok = sym (append-nil acc)
fin_loop_lem acc (f ∷ fs) (m, ok) =
    fin_loop_step acc f fs m.not_close
    ∙ fin_loop_lem (acc ++ fragment_bytes f) fs ok
    ∙ append_assoc acc (fragment_bytes f) (message_bytes fs)

payload_loop_step :
    (acc : Bytes) (f : Frame) (fs : List Frame)
    → IsMiddle f
    → payload_loop acc (f ∷ fs) ≡ payload_loop (acc ++ fragment_bytes f) fs
unfolding payload_loop
payload_loop_step acc f fs m =
    let close = m.not_close in let open_frame = m.not_last in ground (arith, append-nil acc)

payload_loop_last :
    (acc : Bytes) (f : Frame) (fs : List Frame)
    → IsLast f
    → payload_loop acc (f ∷ fs) ≡ acc ++ f.payload
unfolding payload_loop
payload_loop_last acc f fs l =
    let close = l.not_close in let control = l.not_control in let ends = l.is_last in ground arith

payload_loop_lem :
    (acc : Bytes) (fs : List Frame) (last : Frame) (rest : List Frame)
    → All IsMiddle fs
    → IsLast last
    → payload_loop acc (fs ++ (last ∷ rest)) ≡ acc ++ (message_bytes fs ++ last.payload)
payload_loop_lem acc [] last rest ok l = payload_loop_last acc last rest l
payload_loop_lem acc (f ∷ fs) last rest (m, ok) l =
    payload_loop_step acc f (fs ++ (last ∷ rest)) m
    ∙ payload_loop_lem (acc ++ fragment_bytes f) fs last rest ok l
    ∙ append_assoc acc (fragment_bytes f) (message_bytes fs ++ last.payload)
    ∙ ap (λ l. acc ++ l) (sym (append_assoc (fragment_bytes f) (message_bytes fs) last.payload))

first-IsMiddle : (f : Frame) → IsFirst f → IsMiddle f
first-IsMiddle f h = record {
  not_close = elim h.data_opcode [
    | inl e ↦ λ c. absurd (omega arith)
    | inr e ↦ λ c. absurd (omega arith)
  ];
  not_last = inr h.not_last;
}

first_bytes : (f : Frame) → IsFirst f → fragment_bytes f ≡ f.payload
first_bytes f h = let d = h.data_opcode in ground arith

payload_data :
    (f : Frame) (fs : List Frame)
    → IsFirst f
    → payload (record { v = f ∷ fs }) ≡ payload_loop [] (f ∷ fs)
unfolding payload is_data
payload_data f fs h = let d = h.data_opcode in ground arith

-- `payload` and `fin` put a fragmented message together alike: the payloads of the first frame, of
-- the frames in between that are no PING or PONG, and of the last frame, in order, whatever
-- follows. `fin` is given the frames before the last, and the last; it keeps the other fields of
-- the first.
pub payload-fin :
    (first last : Frame) (middle rest : List Frame)
    → IsFirst first
    → All IsMiddle middle
    → IsLast last
    → let bytes = first.payload ++ (message_bytes middle ++ last.payload) in
      (payload (record { v = first ∷ (middle ++ (last ∷ rest)) }) ≡ bytes)
      × (fin (record { v = first ∷ middle }) (some last) ≡ some (record first { payload = bytes }))
unfolding fin
payload-fin first last middle rest h ok l = (
  payload_data first (middle ++ (last ∷ rest)) h
      ∙ payload_loop_lem [] (first ∷ middle) last rest (first-IsMiddle first h, ok) l
      ∙ ap (λ b. (b ++ message_bytes middle) ++ last.payload) (first_bytes first h)
      ∙ append_assoc first.payload (message_bytes middle) last.payload,
  ap (λ b. some (record first { payload = b ++ last.payload }))
        (fin_loop_lem first.payload middle ok)
      ∙ ap (λ b. some (record first { payload = b }))
          (append_assoc first.payload (message_bytes middle) last.payload),
)
