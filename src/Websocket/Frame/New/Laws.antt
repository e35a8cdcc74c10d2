-- ===== src/Websocket/Frame/New/Laws.antt =====
-- The packets of `NewFrame` and its kin are read back as valid frames.
use share.Base.{
  ℕ, ◌^◌, ◌<◌, ◌≤◌, ◌≡◌, inl, inr, refl, sym, ap, ◌∙◌, Bool, true, false, [], ◌∷◌, ◌++◌, append-nil,
  some, arith, ltb, ◌==◌, if◌then◌else◌, Bool-cases, take, length, length-take, take_all, u16,
  Bytes,
}
use share.Websocket.Frame.{Frame, empty_frame, is_valid, opcode_close, status_normal}
use share.Websocket.Frame.BigEndian.{put_big_endian, big_endian-put_two}
use share.Websocket.Frame.Header.{IsPackable}
use share.Websocket.Frame.New.{finished_frame, new_frame, new_control_frame, new_frame_close}
use share.Websocket.Frame.RoundTrip.{received, unpack-pack}
use share.Websocket.Frame.Unpack.{close_status, unpack}

finished_frame-IsPackable :
    (opcode : ℕ) (is_masked : Bool) (payload : Bytes)
    → opcode < 16
    → length payload < 2 ^ 63
    → IsPackable (finished_frame opcode is_masked payload)
finished_frame-IsPackable opcode true payload h k = record {
  fin_flag = inr refl;
  opcode_low = h;
  masked_flag = inr refl;
  fits = k;
}
finished_frame-IsPackable opcode false payload h k = record {
  fin_flag = inr refl;
  opcode_low = h;
  masked_flag = inl refl;
  fits = k;
}

pub unpack-new_frame :
    (random opcode : ℕ) (is_masked : Bool) (payload : Bytes)
    → opcode < 16
    → length payload < 2 ^ 63
    → unpack empty_frame (new_frame random opcode is_masked payload)
      ≡ some (received random (finished_frame opcode is_masked payload), [])
unfolding new_frame
unpack-new_frame random opcode is_masked payload h k =
    ap (unpack empty_frame) (sym (append-nil _))
    ∙ unpack-pack random (finished_frame opcode is_masked payload) []
        (finished_frame-IsPackable opcode is_masked payload h k)

new_control_frame-take :
    (random opcode : ℕ) (is_masked : Bool) (payload : Bytes)
    → new_control_frame random opcode is_masked payload
      ≡ new_frame random opcode is_masked (take 125 payload)
unfolding new_control_frame
new_control_frame-take random opcode is_masked payload =
    elim (Bool-cases (ltb 125 (length payload))) [
      | inl long ↦ rw long
      | inr short ↦
          let le : length payload ≤ 125 = ground arith in rw (short, take_all payload 125 le)
    ]

received-is_valid :
    (random opcode : ℕ) (is_masked : Bool) (payload : Bytes)
    → length payload ≤ 125
    → is_valid
        (received random (finished_frame opcode is_masked payload))
        is_masked
        false
        false
        false
      ≡ true
unfolding is_valid
received-is_valid random opcode true payload h = ground arith
received-is_valid random opcode false payload h = ground arith

-- A control frame is read back complete and valid for the side it is masked for, with the opcode
-- and the first 125 bytes of the payload, and nothing is left of the packet. The opcode has four
-- bits.
pub unpack-new_control_frame :
    (random opcode : ℕ) (is_masked : Bool) (payload : Bytes)
    → opcode < 16
    → (f : Frame) × (unpack empty_frame (new_control_frame random opcode is_masked payload)
        ≡ some (f, []))
      × (f.is_complete ≡ true)
      × (f.opcode ≡ opcode)
      × (f.payload ≡ take 125 payload)
      × (is_valid f is_masked false false false ≡ true)
unpack-new_control_frame random opcode is_masked payload h =
    let short : length (take 125 payload) ≤ 125 = omega (arith, length-take 125 payload) in
    (
      received random (finished_frame opcode is_masked (take 125 payload)),
      ap (unpack empty_frame) (new_control_frame-take random opcode is_masked payload)
          ∙ unpack-new_frame random opcode is_masked (take 125 payload) h (omega arith),
      refl,
      refl,
      refl,
      received-is_valid random opcode is_masked (take 125 payload) short,
    )

status_read : (v : ℕ) (bs : Bytes) → v < 2 ^ 16 → close_status (put_big_endian 2 v ++ bs) ≡ v
unfolding close_status
status_read v bs h = big_endian-put_two v h

-- A CLOSE frame is read back with its status, which is 1000 where the code given is 0; the rest of
-- its payload is the first 123 bytes of the reason. The code is a `uint16`.
pub unpack-new_frame_close :
    (random code : ℕ) (is_masked : Bool) (reason : Bytes)
    → code < 2 ^ 16
    → (f : Frame) × (unpack empty_frame (new_frame_close random is_masked code reason)
        ≡ some (f, []))
      × (f.opcode ≡ opcode_close)
      × (f.close_code ≡ (if code == 0 then status_normal else code))
      × ((a b : ℕ) × (f.payload ≡ a ∷ b ∷ take 123 reason))
      × (is_valid f is_masked false false false ≡ true)
unfolding new_frame_close
unpack-new_frame_close random code is_masked reason h =
    let status = if code == 0 then status_normal else code in
    let body = put_big_endian 2 (u16 status) ++ reason in
    let short : length (take 125 body) ≤ 125 = omega (arith, length-take 125 body) in
    (
      received random (finished_frame opcode_close is_masked (take 125 body)),
      ap (unpack empty_frame) (new_control_frame-take random opcode_close is_masked body)
          ∙ unpack-new_frame random opcode_close is_masked (take 125 body) (omega arith)
              (omega arith),
      refl,
      status_read (u16 status) (take 123 reason) (omega arith) ∙ ground arith,
      (_, _, refl),
      received-is_valid random opcode_close is_masked (take 125 body) short,
    )
