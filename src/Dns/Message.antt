-- ===== src/Dns/Message.antt =====
-- Messages: lib/dns/message.go.
pub mod Flags
pub mod Sections
pub mod RoundTrip
pub mod Receive
use share.Base.{
  ◌>>=◌, ℕ, zero, suc, ◌+◌, ◌-◌, ◌^◌, Bool, true, false, not, List, [], ◌∷◌, ◌++◌, Option, none,
  some, leb, ltb, ◌==◌, ◌||◌, ◌&&◌, if◌then◌else◌, length, get_elem?, set, take, drop, replicate,
  bit_and, bit_or, u16, Bytes,
}
use share.Ascii.{to_lower}
use share.Bytes.Integers.{write_uint16, write_uint32}
use share.Dns.Name.{Packer, pack_domain_name}
use share.Dns.Header.{SectionHeader, header_is_response, header_is_aa, header_is_rd}
use share.Dns.Question.{SectionQuestion, query_type_a, query_class_in}
use share.Dns.Record.{Net, ResourceRecord, new_resource_record, query_type_opt}
use share.Dns.Record.Pack.{put16, advance, pack_rr}
use share.Dns.Record.Unpack
use share.Dns.Result.{missing_question, Result, ok, fail, panic, no_fuel, ◌>>>◌, or_panic}

abbrev pub section_header_size : ℕ
section_header_size = 12

abbrev pub max_udp_packet_size : ℕ
max_udp_packet_size = 4096

-- `packet` and `off`; the map `dnameOff` is made by `Pack` and dropped by it.
pub record Message : Type 0 where
  pub header : SectionHeader
  pub question : SectionQuestion
  pub answer : List ResourceRecord
  pub authority : List ResourceRecord
  pub additional : List ResourceRecord
  pub packet : Bytes
  pub off : ℕ

abbrev pub new_message : Message
new_message = record {
  header = record {
    id = 0;
    is_query = true;
    op = 0;
    is_aa = false;
    is_tc = false;
    is_rd = true;
    is_ra = false;
    rcode = 0;
    qd_count = 1;
    an_count = 0;
    ns_count = 0;
    ar_count = 0;
  };
  question = record { name = []; qtype = query_type_a; qclass = query_class_in };
  answer = [];
  authority = [];
  additional = [];
  packet = [];
  off = 0;
}

unfoldable pub filter_type : ℕ → List ResourceRecord → List ResourceRecord
filter_type t [] = []
filter_type t (rr ∷ rrs) = if rr.rtype == t then rr ∷ filter_type t rrs else filter_type t rrs

unfoldable pub filter_answers : Message → ℕ → List ResourceRecord
filter_answers msg t = filter_type t msg.answer

unfoldable pub reset_rr : Message → Message
reset_rr msg = record msg { answer = []; authority = []; additional = [] }

unfoldable pub reset : Message → Message
reset msg = record (reset_rr msg) {
  header = share.Dns.Header.reset msg.header;
  question = share.Dns.Question.reset msg.question;
  packet = replicate max_udp_packet_size 0;
  off = 0;
}

unfoldable pub any_expired : List ResourceRecord → Bool
any_expired [] = false
any_expired (rr ∷ rrs) = rr.ttl == 0 || any_expired rrs

abbrev pub is_empty : List ResourceRecord → Bool
is_empty [] = true
is_empty (rr ∷ rrs) = false

unfoldable pub is_expired : Message → Bool
is_expired msg =
    if any_expired msg.answer
    then true
    else if is_empty msg.answer
    then any_expired msg.authority
    else false

-- The name of the question is small after it.
abbrev pub lowered_question : SectionQuestion → SectionQuestion
lowered_question question = record question { name = to_lower question.name }

unfoldable pub pack_question : Packer → SectionQuestion → Option (Packer × SectionQuestion)
pack_question m question = do
  (m1, n) ← pack_domain_name m question.name false
  some (advance (put16 (put16 m1 question.qtype) question.qclass) 4, lowered_question question)

unfoldable pub pack_section :
    Net → Packer → List ResourceRecord → Option (Packer × List ResourceRecord)
pack_section net m [] = some (m, [])
pack_section net m (rr ∷ rrs) = do
  (m1, rr1) ← pack_rr net m rr
  (m2, rrs1) ← pack_section net m1 rrs
  some (m2, rr1 ∷ rrs1)

-- The header with the counts of the sections.
abbrev pub counted : Message → SectionHeader
counted msg = record msg.header {
  an_count = u16 (length msg.answer);
  ns_count = u16 (length msg.authority);
  ar_count = u16 (length msg.additional);
}

abbrev pub packed_into : Message → Packer → Message
packed_into msg m = record msg { packet = m.packet; off = m.off }

-- The sections of a response.
unfoldable pub pack_sections : Net → Message → Packer → Option Message
pack_sections net msg m = do
  (m1, answer) ← pack_section net m msg.answer
  (m2, authority) ← pack_section net m1 msg.authority
  (m3, additional) ← pack_section net m2 msg.additional
  some (
      packed_into (record msg { answer = answer; authority = authority; additional = additional })
        m3)

unfoldable pub pack : Net → Message → Option Message
pack net msg = do
  let m : Packer = record {
    packet = share.Dns.Header.pack (counted msg);
    off = u16 section_header_size;
    dname_off = [];
  }
  (m1, question) ← pack_question m msg.question
  let msg1 = record msg { header = counted msg; question = question }
  if msg.header.is_query then some (packed_into msg1 m1) else pack_sections net msg1 m1

-- `n` records from the packet, and where the next one would start.
abbrev pub Section : Type 0
Section = List ResourceRecord × Bytes × ℕ

unfoldable pub unpack_section : Net → ℕ → ℕ → Bytes → ℕ → Result Section
unpack_section net fuel zero packet start = ok ([], packet, start)
unpack_section net fuel (suc n) packet start =
    share.Dns.Record.Unpack.unpack net fuel new_resource_record packet start >>> λ r.
    unpack_section net fuel n r.0.1 r.1 >>> λ rest. ok (r.0.0 ∷ rest.0, rest.1, rest.2)

unfoldable pub unpack_header_question : Message → Result Message
unpack_header_question msg = or_panic (share.Dns.Header.unpack msg.header msg.packet) >>> λ header.
    let rest = share.Dns.Question.unpack msg.question (drop section_header_size msg.packet) >>> λ r.
    ok (record msg {
      header = header;
      question = r.0;
      packet = take section_header_size msg.packet ++ r.1;
    }) in
    if leb (length msg.packet) section_header_size then fail missing_question else rest

-- The sections after the question.
unfoldable pub unpack_sections : Net → ℕ → Message → Result Message
unpack_sections net fuel msg =
    let start = section_header_size + share.Dns.Question.size msg.question in
    unpack_section net fuel msg.header.an_count msg.packet start >>> λ an.
    unpack_section net fuel msg.header.ns_count an.1 an.2 >>> λ ns.
    unpack_section net fuel msg.header.ar_count ns.1 ns.2 >>> λ ar. ok (record msg {
      answer = msg.answer ++ an.0;
      authority = msg.authority ++ ns.0;
      additional = msg.additional ++ ar.0;
      packet = ar.1;
    })

-- What an error leaves in the message is not kept.
unfoldable pub unpack : Net → ℕ → Message → Result Message
unpack net fuel msg = unpack_header_question msg >>> unpack_sections net fuel
