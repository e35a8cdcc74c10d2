-- ===== src/Tests/Dns.antt =====
-- lib/dns on concrete names and messages.
use share.Base.{
  ◌>>=◌, ◌==◌, ◌&&◌, ℕ, ◌*◌, ◌/◌, ◌^◌, ◌≤◌, ◌<◌, ◌≡◌, refl, true, false, [], ◌∷◌, ◌++◌, none, some,
  arith, if◌then◌else◌, length, take, drop, bit_or, bit_and, Bytes,
}
use share.Base.Int.{pos}
use share.Bytes.Integers.{append_uint16, append_uint32}
use share.Ascii.{to_lower, lower_byte}
use share.Dns.Result.{ok, panic, no_fuel, Finishes}
use share.Dns.Name.{
  Packer, bytes_eq, pack_domain_name, compress, open_label, pack_loop, escape, end_label,
  next_label, end_name, unpack_name,
}
use share.Dns.Name.Decode.{IsNameByte, IsLabel}
use share.Dns.Name.Labels.{join}
use share.Dns.Name.Read.{Reads, unpack_name_cycle}
use share.Dns.Name.Wrote.{AllValid, Wrote, pack_domain_name-Wrote}
use share.Dns.Name.RoundTrip.{nothing, unpack_name-pack_domain_name}
use share.Dns.Name.Wire.{wire, Ends, pack_domain_name-wire}
use share.Dns.Header.{SectionHeader}
use share.Dns.Header.RoundTrip.{Fits, received, unpack-pack_header}
use share.Dns.Question.{SectionQuestion}
use share.Dns.Question.RoundTrip.{question_wire, unpack-question_wire}
use share.Dns.Question.Finish.{unpack-Finishes}
use share.Dns.Record.{Net, ResourceRecord, new_resource_record, names_domain}
use share.Dns.Record.Stands.{IsName, of_domain, of_address, of_exchange, of_mailboxes}
use share.Dns.Message.{Message, new_message, pack, unpack}
use share.Dns.Message.RoundTrip.{IsResponse}
use share.Dns.Message.Receive.{Receives, unpack-pack_message}
use share.Dns.Message.Flags.{
  set_authorative_answer, set_id, set_query, set_recursion_desired, set_response_code,
}
use share.Dns.Answers.{Answer, find, upsert}
use share.Dns.Answers.Laws.{find-upsert}
use share.Dns.Message.Flags.Laws.{unpack-setters, unpack-set_query, unpack-set_response_code}

letter : (b : ℕ) → b'a' ≤ b → b ≤ b'z' → IsNameByte b
letter b low high = record {
  byte = omega arith;
  no_dot = ground arith;
  no_escape = ground arith;
  small = ground arith;
}

abbrev ab : Bytes
ab = b'a' ∷ b'b' ∷ []

abbrev org : Bytes
org = b'o' ∷ b'r' ∷ b'g' ∷ []

ab-IsLabel : IsLabel ab
ab-IsLabel = record {
  nonempty = omega arith;
  short = omega arith;
  name_bytes =
      (letter b'a' (omega arith) (omega arith), (letter b'b' (omega arith) (omega arith), tt));
}

org-IsLabel : IsLabel org
org-IsLabel = record {
  nonempty = omega arith;
  short = omega arith;
  name_bytes = (
    letter b'o' (omega arith) (omega arith),
    (letter b'r' (omega arith) (omega arith), (letter b'g' (omega arith) (omega arith), tt)),
  );
}

-- "ab.org"
abbrev ab_org : Bytes
ab_org = join (ab ∷ org ∷ [])

ab_org-IsName : IsName ab_org
ab_org-IsName = record {
  first = ab;
  others = org ∷ [];
  first_label = ab-IsLabel;
  other_labels = (org-IsLabel, tt);
  joined = refl;
}

org-IsName : IsName org
org-IsName = record {
  first = org;
  others = [];
  first_label = org-IsLabel;
  other_labels = tt;
  joined = refl;
}

abbrev empty_packer : Packer
empty_packer = record { packet = []; off = 0; dname_off = [] }

empty-AllValid : AllValid nothing empty_packer
empty-AllValid key o e = absurd (cc e)

pack_domain_name-Wrote_example :
    (m' : Packer) × (w : Bytes) × (pack_domain_name empty_packer (join (ab ∷ org ∷ [])) true
      ≡ some (m', length w))
    × Wrote nothing empty_packer m' (join (ab ∷ org ∷ [])) w
pack_domain_name-Wrote_example =
    pack_domain_name-Wrote nothing empty_packer true ab (org ∷ []) ab-IsLabel (org-IsLabel, tt) refl
      (λ x h. refl) (omega arith) empty-AllValid

unpack_name-pack_domain_name_example :
    (m' : Packer) × (n k : ℕ) × (pack_domain_name empty_packer (join (ab ∷ org ∷ [])) true
      ≡ some (m', n))
    × ((fuel : ℕ) (q : Bytes)
        → k ≤ fuel
        → Reads fuel 0 [] (m'.packet ++ q) 0 (join (ab ∷ org ∷ [])) (length m'.packet))
unpack_name-pack_domain_name_example =
    unpack_name-pack_domain_name empty_packer true ab (org ∷ []) ab-IsLabel (org-IsLabel, tt) refl
      (omega arith) empty-AllValid

pack_domain_name-wire_example :
    (m' : Packer) × (pack_domain_name empty_packer (join (ab ∷ org ∷ [])) false
      ≡ some (m', length (wire (ab ∷ org ∷ []))))
    × Ends empty_packer m' (wire (ab ∷ org ∷ []))
pack_domain_name-wire_example =
    pack_domain_name-wire ab (org ∷ []) empty_packer ab-IsLabel (org-IsLabel, tt) refl (omega arith)

unpack_name_cycle_example : unpack_name 100 0 [] (0xc0 ∷ 0 ∷ []) 0 ≡ no_fuel
unpack_name_cycle_example =
    unpack_name_cycle 100 0 [] (0xc0 ∷ 0 ∷ []) 0 0 (omega arith) (omega arith) refl refl

abbrev response : SectionHeader
response = record {
  id = 0x1234;
  is_query = false;
  op = 2;
  is_aa = true;
  is_tc = false;
  is_rd = true;
  is_ra = true;
  rcode = 3;
  qd_count = 1;
  an_count = 0;
  ns_count = 0;
  ar_count = 0;
}

response-Fits :
    (an ns ar : ℕ)
    → an < 2 ^ 16
    → ns < 2 ^ 16
    → ar < 2 ^ 16
    → Fits (record response { an_count = an; ns_count = ns; ar_count = ar })
response-Fits an ns ar h1 h2 h3 = record {
  id_fits = omega arith;
  op_fits = omega arith;
  rcode_fits = omega arith;
  qd_fits = omega arith;
  an_fits = h1;
  ns_fits = h2;
  ar_fits = h3;
}

unpack-pack_header_example :
    share.Dns.Header.unpack new_message.header (share.Dns.Header.pack response ++ (1 ∷ []))
    ≡ some (received new_message.header response)
unpack-pack_header_example =
    unpack-pack_header new_message.header response (1 ∷ [])
      (response-Fits 0 0 0 (omega arith) (omega arith) (omega arith))

unpack-question_wire_example :
    share.Dns.Question.unpack new_message.question (question_wire (ab ∷ org ∷ []) 1 1 ++ (7 ∷ []))
    ≡ ok (
      record { name = ab_org; qtype = 1; qclass = 1 },
      question_wire (ab ∷ org ∷ []) 1 1 ++ (7 ∷ []),
    )
unpack-question_wire_example =
    unpack-question_wire new_message.question ab (org ∷ []) 1 1 (7 ∷ []) ab-IsLabel
      (org-IsLabel, tt) (omega arith) (omega arith)

unpack-Finishes_example : Finishes (share.Dns.Question.unpack new_message.question (0 ∷ 0 ∷ 3 ∷ []))
unpack-Finishes_example = unpack-Finishes new_message.question (0 ∷ 0 ∷ 3 ∷ [])

-- A question of one zero byte.
question_panics : share.Dns.Question.unpack new_message.question (0 ∷ []) ≡ panic
unfolding share.Dns.Question.unpack share.Dns.Question.scan
question_panics = refl

-- A stand-in for package net that knows the address 1.2.3.4.
abbrev home_text : Bytes
home_text = b'1' ∷ b'.' ∷ b'2' ∷ b'.' ∷ b'3' ∷ b'.' ∷ b'4' ∷ []

abbrev in_ipv6 : Bytes
in_ipv6 = 0 ∷ 0 ∷ 0 ∷ 0 ∷ 0 ∷ 0 ∷ 0 ∷ 0 ∷ 0 ∷ 0 ∷ 255 ∷ 255 ∷ []

abbrev home_ip : Bytes
home_ip = 1 ∷ 2 ∷ 3 ∷ 4 ∷ []

abbrev home_net : Net
home_net = record {
  parse_ip = λ text. if bytes_eq text home_text then some (in_ipv6 ++ home_ip) else none;
  to4 = λ ip. if bytes_eq (take 12 ip) in_ipv6 then some (drop 12 ip) else none;
  to_string = λ ip. if bytes_eq ip home_ip then home_text else [];
}

abbrev an_address : ResourceRecord
an_address = record new_resource_record {
  name = ab_org;
  rtype = 1;
  rclass = 1;
  ttl = 3600;
  text = some (record { value = home_text });
}

abbrev a_server : ResourceRecord
a_server = record new_resource_record {
  name = org;
  rtype = 2;
  rclass = 1;
  ttl = 60;
  text = some (record { value = ab_org });
}

abbrev an_exchange : ResourceRecord
an_exchange = record new_resource_record {
  name = org;
  rtype = 15;
  rclass = 1;
  ttl = 60;
  mx = some (record { preference = pos 10; exchange = ab_org });
}

abbrev some_boxes : ResourceRecord
some_boxes = record new_resource_record {
  name = ab_org;
  rtype = 14;
  rclass = 1;
  ttl = 0;
  minfo = some (record { rmail_box = org; email_box = ab_org });
}

abbrev reply : Message
reply = record new_message {
  header = response;
  question = record { name = ab_org; qtype = 1; qclass = 1 };
  answer = an_address ∷ an_exchange ∷ [];
  authority = a_server ∷ [];
  additional = some_boxes ∷ [];
}

reply-IsResponse : IsResponse home_net reply
reply-IsResponse = record {
  is_response = refl;
  header_fits = response-Fits 2 1 1 (omega arith) (omega arith) (omega arith);
  question_name = ab_org-IsName;
  qtype_fits = omega arith;
  qclass_fits = omega arith;
  answers = (
    record {
      owner = ab_org-IsName;
      type_fits = omega arith;
      class_fits = omega arith;
      ttl_fits = omega arith;
      data_good = of_address home_text (in_ipv6 ++ home_ip) home_ip refl refl refl refl refl refl;
    },
    (
      record {
        owner = org-IsName;
        type_fits = omega arith;
        class_fits = omega arith;
        ttl_fits = omega arith;
        data_good = of_exchange (pos 10) ab_org refl refl (omega arith) ab_org-IsName;
      },
      tt,
    ),
  );
  authorities = (
    record {
      owner = org-IsName;
      type_fits = omega arith;
      class_fits = omega arith;
      ttl_fits = omega arith;
      data_good = of_domain ab_org (unfold names_domain in refl) refl ab_org-IsName;
    },
    tt,
  );
  additionals = (
    record {
      owner = ab_org-IsName;
      type_fits = omega arith;
      class_fits = omega arith;
      ttl_fits = omega arith;
      data_good = of_mailboxes org ab_org refl refl org-IsName ab_org-IsName;
    },
    tt,
  );
  fits = omega arith;
}

unpack-pack_message_example :
    (msg' : Message) × (pack home_net reply ≡ some msg')
    × ((k : ℕ) × ((fuel : ℕ)
          → k ≤ fuel
          → (msg2 : Message) × (unpack home_net fuel (record new_message { packet = msg'.packet })
              ≡ ok msg2)
            × (msg2.packet ≡ msg'.packet)
            × Receives reply msg2))
unpack-pack_message_example = unpack-pack_message home_net reply reply-IsResponse

-- The packet of the reply, cut after the first answer.
abbrev sent : Message
sent = record reply { packet = 0x12 ∷ 0x34 ∷ 0x85 ∷ 0x83 ∷ 0 ∷ 1 ∷ 0 ∷ 2 ∷ 0 ∷ 1 ∷ 0 ∷ 1 ∷ [] }

unpack-setters_example :
    (share.Dns.Header.unpack new_message.header (set_recursion_desired sent false).packet ≡ (
      share.Dns.Header.unpack new_message.header sent.packet >>= λ hdr.
      some (record hdr { is_rd = false })))
    × (share.Dns.Header.unpack new_message.header (set_authorative_answer sent false).packet ≡ (
        share.Dns.Header.unpack new_message.header sent.packet >>= λ hdr.
        some (record hdr { is_aa = false })))
    × ((msg' : Message) × (set_id sent 7 ≡ some msg')
        × (share.Dns.Header.unpack new_message.header msg'.packet ≡ (
            share.Dns.Header.unpack new_message.header sent.packet >>= λ hdr.
            some (record hdr { id = 7 }))))
unpack-setters_example =
    unpack-setters new_message.header sent 0x12 0x34 0x85 0x83 (0 ∷ 1 ∷ 0 ∷ 2 ∷ 0 ∷ 1 ∷ 0 ∷ 1 ∷ [])
      (omega arith) (omega arith) refl false 7 (omega arith) refl

unpack-set_query_example :
    (share.Dns.Header.unpack new_message.header (set_query sent false).packet ≡ (
      share.Dns.Header.unpack new_message.header sent.packet >>= λ hdr.
      some (record hdr { is_query = false })))
    × (share.Dns.Header.unpack new_message.header (set_query sent true).packet ≡ (
        share.Dns.Header.unpack new_message.header sent.packet >>= λ hdr. some (record hdr {
          is_query = true;
          op = hdr.op / 4 * 4;
          is_aa = false;
          is_tc = false;
          is_ra = false;
        })))
unpack-set_query_example =
    unpack-set_query new_message.header sent 0x12 0x34 0x85 0x83
      (0 ∷ 1 ∷ 0 ∷ 2 ∷ 0 ∷ 1 ∷ 0 ∷ 1 ∷ []) (omega arith) (omega arith) refl refl refl refl refl

unpack-set_response_code_example :
    share.Dns.Header.unpack new_message.header (set_response_code sent 5).packet ≡ (
      share.Dns.Header.unpack new_message.header sent.packet >>= λ hdr.
      some (record hdr { rcode = if 5 == 0 then 0 else bit_or hdr.rcode (bit_and 0x0f 5) }))
unpack-set_response_code_example =
    unpack-set_response_code new_message.header sent 0x12 0x34 0x85 0x83
      (0 ∷ 1 ∷ 0 ∷ 2 ∷ 0 ∷ 1 ∷ 0 ∷ 1 ∷ []) (omega arith) (omega arith) refl 5 (omega arith)

-- Two addresses of the types AAAA with names that are not kept yet: packing the second name panics.
abbrev six_bytes : Bytes
six_bytes = 0 ∷ 0 ∷ 0 ∷ 0 ∷ 0 ∷ 0 ∷ 0 ∷ 0 ∷ 0 ∷ 0 ∷ 0 ∷ 0 ∷ 0 ∷ 0 ∷ 0 ∷ 1 ∷ []

abbrev six_net : Net
six_net = record home_net { parse_ip = λ text. none }

abbrev six_address : Bytes → ResourceRecord
six_address name = record new_resource_record {
  name = name;
  rtype = 28;
  rclass = 1;
  text = some (record { value = six_bytes });
}

abbrev six_reply : Message
six_reply = record reply {
  answer = six_address ab_org ∷ six_address ab ∷ [];
  authority = [];
  additional = [];
}

second_address_panics : pack six_net six_reply ≡ none
unfolding pack share.Dns.Message.pack_question share.Dns.Message.pack_sections
    share.Dns.Message.pack_section share.Dns.Record.Pack.pack_rr share.Dns.Record.Pack.pack_rr_name
    share.Dns.Record.Pack.pack_rr_ttl share.Dns.Record.Pack.pack_rdata
    share.Dns.Record.Pack.pack_aaaa share.Dns.Record.Pack.put16 share.Dns.Record.Pack.put32
    share.Dns.Record.Pack.put_bytes share.Dns.Record.Pack.advance share.Dns.Header.pack
    share.Dns.Header.first_byte share.Dns.Header.second_byte append_uint16 append_uint32
    pack_domain_name compress open_label pack_loop escape end_label next_label end_name to_lower
    lower_byte names_domain
second_address_panics = refl

-- An answer that is put to answers with the same key.
abbrev old_answer : Answer
old_answer = record {
  received_at = 5;
  accessed_at = 6;
  qname = ab_org;
  qtype = 1;
  qclass = 1;
  msg = some sent;
}

abbrev nu_answer : Answer
nu_answer = record old_answer { received_at = 9; msg = some reply }

find-upsert_example :
    ((an : Answer) × (x : ℕ) × (find (upsert (old_answer ∷ []) nu_answer).0 1 1 ≡ some (an, x))
      × (an.msg ≡ some reply))
    × ((t c : ℕ)
        → (1 == t && 1 == c) ≡ false
        → find (upsert (old_answer ∷ []) nu_answer).0 t c ≡ find (old_answer ∷ []) t c)
find-upsert_example = find-upsert (old_answer ∷ []) nu_answer reply refl
