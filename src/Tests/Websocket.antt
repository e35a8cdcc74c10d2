-- ===== src/Tests/Websocket.antt =====
-- lib/websocket on concrete frames and packets.
use share.Base.{
  ℕ, ◌≡◌, ◌≢◌, ◌⊎◌, inl, inr, refl, true, false, [], ◌∷◌, ◌++◌, none, some, arith, ◌==◌,
  if◌then◌else◌, take, replicate, Bytes,
}
use share.Websocket.Frame.{
  Frame, empty_frame, is_valid, pack, pack_key, size_field, extended_size, mask_bytes, opcode_close,
  opcode_pong, status_normal, status_bad_request,
}
use share.Websocket.Frame.Header.{IsPackable}
use share.Websocket.Frame.New.{finished_frame, new_frame_close}
use share.Websocket.Frame.New.Laws.{unpack-new_frame_close}
use share.Websocket.Frame.Resume.Ambiguous.{header_bytes, unpack_misreads}
use share.Websocket.Frame.Resume.Packets.{IsOpen}
use share.Websocket.Frame.Resume.Twice.{unpack-append}
use share.Websocket.Frame.RoundTrip.{received, unpack-pack}
use share.Websocket.Frame.Unpack.{unpack}
use share.Websocket.Frames.{Frames, fin, payload, unpack_all}
use share.Websocket.Frames.Message.{message_bytes, payload-fin}
use share.Websocket.Frames.Packets.{packed, all_received, unpack_all_total, unpack_all-packed}
use share.Websocket.Server.{
  Options, no_conn, Outcome, sent, drained, removed, going_on, handle_close, handle_frame,
  handle_frames, read_packet,
}
use share.Websocket.Server.Invariant.{IsHandled, handle_frame-IsHandled}
use share.Websocket.Server.Messages.{IsGiven, handle_frames-message}
use share.Websocket.Server.Packets.{IsRead, read_packet-IsRead}
use share.Websocket.Server.Replies.{
  IsCloseWith, IsSendable, handle_frame-refuses, handle_close-IsSendable, handle_frame-ping,
}
use share.Websocket.Client.{ClientOptions, Client, ClientEffect, handle_raw, client_on_close}
use share.Websocket.Client.Invariant.{IsSettledClient, handle_raw-IsSettledClient}
use share.Websocket.Client.Replies.{client_on_close-IsSendable}
use share.Websocket.Manager.{ClientManager, new_client_manager, conns_of, remove, add}
use share.Websocket.Manager.Users.{
  occurrences, expected, IsConsistent, IsWithout, remove-IsConsistent, add-IsConsistent,
}

-- A masked text frame, "hey".
abbrev hey : Frame
hey = record (finished_frame 1 true (b'h' ∷ b'e' ∷ b'y' ∷ [])) { mask_key = 1 ∷ 2 ∷ 3 ∷ 4 ∷ [] }

hey-IsPackable : IsPackable hey
hey-IsPackable = record {
  fin_flag = inr refl;
  opcode_low = omega arith;
  masked_flag = inr refl;
  fits = omega arith;
}

hey_wire : (pack 0 hey).0 ≡ 0x81 ∷ 0x83 ∷ 1 ∷ 2 ∷ 3 ∷ 4 ∷ 105 ∷ 103 ∷ 122 ∷ []
unfolding pack mask_bytes pack_key size_field extended_size
hey_wire = refl

unpack-pack_example :
    unpack empty_frame ((pack 0 hey).0 ++ (9 ∷ [])) ≡ some (received 0 hey, 9 ∷ [])
unpack-pack_example = unpack-pack 0 hey (9 ∷ []) hey-IsPackable

-- The header and the first byte of a frame of two bytes.
abbrev first_part : Bytes
first_part = 0x82 ∷ 0x02 ∷ 5 ∷ []

abbrev cut_frame : Frame
cut_frame = record empty_frame {
  fin = 0x80;
  opcode = 2;
  len = 2;
  payload = 5 ∷ [];
  chopped = 0x82 ∷ 0x02 ∷ [];
}

cut_run : unpack empty_frame first_part ≡ some (cut_frame, [])
unfolding unpack mask_bytes
cut_run = refl

unpack-append_example :
    (unpack empty_frame (first_part ++ (6 ∷ 7 ∷ [])) ≡ unpack cut_frame (6 ∷ 7 ∷ []))
    × IsOpen cut_frame
unpack-append_example =
    unpack-append empty_frame cut_frame first_part (6 ∷ 7 ∷ [])
      (inl (record { no_key = refl; no_payload = refl })) (λ e. cc e) (λ e. cc e) cut_run refl
      (omega arith) (inl (λ h four. absurd (omega arith)))

-- A binary frame of 127 zeros.
abbrev long_frame : Frame
long_frame = finished_frame 2 false (replicate 127 0)

unpack_misreads_example :
    ((pack 0 long_frame).0 ≡ header_bytes long_frame ++ long_frame.payload)
    × (f1 f2 : Frame) × (unpack empty_frame (header_bytes long_frame) ≡ some (f1, []))
    × (unpack f1 long_frame.payload ≡ some (f2, []))
    × (f2.is_complete ≡ false)
    × (f2.payload ≡ replicate 121 0)
unpack_misreads_example =
    unpack_misreads 0 long_frame 0 0 0 0 0 0 (replicate 121 0)
      (record {
        fin_flag = inr refl;
        opcode_low = omega arith;
        masked_flag = inl refl;
        fits = omega arith;
      })
      refl refl refl
      (omega arith, (omega arith, (omega arith, (omega arith, (omega arith, (omega arith, tt))))))

unpack_all_total_example :
    ((first_part ≡ []) × (unpack_all first_part ≡ some none))
    ⊎ ((first_part ≢ []) × (frames : Frames) × (unpack_all first_part ≡ some (some frames)))
unpack_all_total_example = unpack_all_total first_part

unpack_all-packed_example :
    unpack_all ((pack 0 hey).0 ++ packed ((7, hey) ∷ []))
    ≡ some (some (record { v = received 0 hey ∷ all_received ((7, hey) ∷ []) }))
unpack_all-packed_example =
    unpack_all-packed 0 hey ((7, hey) ∷ []) hey-IsPackable (hey-IsPackable, tt)

-- A message in three fragments, masked, each with two bytes.
abbrev fragment : ℕ → ℕ → Bytes → Frame
fragment fin opcode payload = record empty_frame {
  fin = fin;
  opcode = opcode;
  masked = 0x80;
  len = 2;
  mask_key = 1 ∷ 2 ∷ 3 ∷ 4 ∷ [];
  payload = payload;
  is_complete = true;
}

abbrev one : Frame
one = fragment 0 1 (b'a' ∷ b'b' ∷ [])

abbrev two : Frame
two = fragment 0 0 (b'c' ∷ b'd' ∷ [])

abbrev three : Frame
three = fragment 0x80 0 (b'e' ∷ b'f' ∷ [])

payload-fin_example :
    let bytes = one.payload ++ (message_bytes (two ∷ []) ++ three.payload) in
    (payload (record { v = one ∷ two ∷ three ∷ [] }) ≡ bytes)
    × (fin (record { v = one ∷ two ∷ [] }) (some three) ≡ some (record one { payload = bytes }))
payload-fin_example =
    payload-fin one three (two ∷ []) []
      (record { data_opcode = inl refl; not_last = λ e. absurd (omega arith) })
      (
        record {
          not_close = λ e. absurd (omega arith);
          not_last = inr (λ e. absurd (omega arith));
        },
        tt,
      )
      (record { not_close = λ e. absurd (omega arith); not_control = refl; is_last = refl })

unpack-new_frame_close_example :
    (f : Frame) × (unpack empty_frame (new_frame_close 7 true 1001 (b'x' ∷ [])) ≡ some (f, []))
    × (f.opcode ≡ opcode_close)
    × (f.close_code ≡ (if 1001 == 0 then status_normal else 1001))
    × ((a b : ℕ) × (f.payload ≡ a ∷ b ∷ take 123 (b'x' ∷ [])))
    × (is_valid f true false false false ≡ true)
unpack-new_frame_close_example = unpack-new_frame_close 7 1001 true (b'x' ∷ []) (omega arith)

-- A server that takes every text and sends every packet.
abbrev options : Options
options = record {
  allow_rsv1 = false;
  allow_rsv2 = false;
  allow_rsv3 = false;
  utf8_valid = λ b. true;
  has_pong_handler = false;
  has_rsv_handler = false;
  send_ok = λ b. true;
}

handle_frame-IsHandled_example : IsHandled (handle_frame options no_conn one)
handle_frame-IsHandled_example = handle_frame-IsHandled options no_conn one tt

is_taken :
    (is_valid one true false false false ≡ true)
    × (is_valid two true false false false ≡ true)
    × (is_valid three true false false false ≡ true)
unfolding is_valid
is_taken = (refl, refl, refl)

handle_frames-message_example :
    IsGiven options 1
      (one.payload ++ (message_bytes (two ∷ []) ++ three.payload))
      (handle_frames options (record { frame = none; frames = none }) (one ∷ two ∷ three ∷ []))
handle_frames-message_example =
    handle_frames-message options none one three (two ∷ [])
      (record { whole = refl; valid = is_taken.0; filled = omega arith })
      (record { whole = refl; valid = is_taken.1; filled = omega arith }, tt)
      (record { whole = refl; valid = is_taken.2; filled = omega arith })
      (record { data_opcode = inl refl; not_last = refl })
      (record { cont_opcode = refl; not_last = refl }, tt)
      (record { cont_opcode = refl; is_last = refl })

handle_frame-refuses_example :
    (packet : Bytes) × (r : Outcome) × (handle_frame options no_conn empty_frame ≡ some r)
    × (r.effects ≡ sent packet ∷ drained ∷ removed ∷ [])
    × (r.conn ≡ no_conn)
    × (r.closing ≡ true)
    × IsCloseWith packet status_bad_request
handle_frame-refuses_example =
    handle_frame-refuses options no_conn empty_frame (inl (λ e. absurd (omega arith)))

-- A CLOSE frame with a status that must not be sent.
abbrev bad_close : Frame
bad_close = record empty_frame { opcode = 8; close_code = 1005 }

handle_close-IsSendable_example :
    (packet : Bytes) × (status : ℕ) × ((handle_close options bad_close).effects
      ≡ sent packet ∷ removed ∷ [])
    × ((handle_close options bad_close).conn ≡ no_conn)
    × IsCloseWith packet status
    × IsSendable status
handle_close-IsSendable_example = handle_close-IsSendable options bad_close (omega arith)

abbrev ping : Frame
ping = fragment 0x80 9 (b'p' ∷ b'q' ∷ [])

ping_valid : is_valid ping true false false false ≡ true
unfolding is_valid
ping_valid = refl

handle_frame-ping_example :
    (packet : Bytes) × (g : Frame) × (handle_frame options no_conn ping
      ≡ some (
          if options.send_ok packet
          then going_on no_conn (sent packet ∷ [])
          else going_on no_conn (sent packet ∷ removed ∷ [])))
    × (unpack empty_frame packet ≡ some (g, []))
    × (g.opcode ≡ opcode_pong)
    × (g.payload ≡ ping.payload)
    × (is_valid g false false false false ≡ true)
handle_frame-ping_example = handle_frame-ping options no_conn ping ping_valid refl (inr refl) refl

read_packet-IsRead_example :
    IsRead (read_packet options (record { frame = some cut_frame; frames = none }) (6 ∷ 7 ∷ []))
read_packet-IsRead_example =
    read_packet-IsRead options (record { frame = some cut_frame; frames = none }) (6 ∷ 7 ∷ [])
      (tt, omega arith)

-- A client that takes everything.
abbrev client_options : ClientOptions
client_options = record {
  allow_rsv1 = false;
  allow_rsv2 = false;
  allow_rsv3 = false;
  utf8_valid = λ b. true;
  text_ok = λ b. true;
  bin_ok = λ b. true;
  has_pong_handler = false;
  has_rsv_handler = false;
  random = λ n. n;
}

abbrev client : Client
client = record { frame = none; frames = none; drawn = 0 }

handle_raw-IsSettledClient_example : IsSettledClient (handle_raw client_options client first_part)
handle_raw-IsSettledClient_example = handle_raw-IsSettledClient client_options client first_part tt

client_on_close-IsSendable_example :
    (packet : Bytes) × (g : Frame) × ((client_on_close client_options client bad_close).effects
      ≡ ClientEffect.sent packet ∷ ClientEffect.quit ∷ [])
    × (unpack empty_frame packet ≡ some (g, []))
    × (g.opcode ≡ opcode_close)
    × IsSendable g.close_code
    × (is_valid g true false false false ≡ true)
client_on_close-IsSendable_example =
    client_on_close-IsSendable client_options client bad_close (omega arith)

new-IsConsistent : IsConsistent new_client_manager
unfolding new_client_manager
new-IsConsistent uid c = refl

-- One connection, number 5, of user 3.
abbrev one_user : ClientManager
one_user = add new_client_manager 3 5

add-IsConsistent_example :
    IsConsistent (add new_client_manager 3 5)
    × ((k : ℕ) → occurrences 5 (conns_of (add new_client_manager 3 5) k) ≡ expected (some 3) k)
add-IsConsistent_example = add-IsConsistent new_client_manager 3 5 new-IsConsistent

-- And number 6, of user 3 too.
abbrev two_conns : ClientManager
two_conns = add one_user 3 6

remove-IsConsistent_example : IsWithout two_conns 5 (remove two_conns 5)
remove-IsConsistent_example =
    remove-IsConsistent two_conns 5
      (add-IsConsistent one_user 3 6 (add-IsConsistent new_client_manager 3 5 new-IsConsistent).0).0
