-- ===== src/Dns/Message/Receive.antt =====
-- `Unpack` of the packet of a response.
use share.Base.{
  ℕ, ◌+◌, ◌≤◌, ◌<◌, ◌≡◌, refl, sym, ap, ap₂, ◌∙◌, false, List, [], ◌∷◌, ◌++◌, some, arith, leb,
  length, length-append, drop, take-append-drop, drop-append_exact, u16, Bytes,
}
use share.Dns.Result.{ok, ◌>>>◌}
use share.Dns.Header.{SectionHeader}
use share.Dns.Header.RoundTrip.{received, unpack-pack_header, length-pack}
use share.Dns.Question.{SectionQuestion}
use share.Dns.Question.RoundTrip.{question_wire, unpack-question_wire}
use share.Dns.Record.{Net, ResourceRecord}
use share.Dns.Message.{
  Message, new_message, counted, pack, unpack_section, unpack_header_question, unpack_sections,
  unpack,
}
use share.Dns.Message.Sections.{rooms, SameRecords, unpack_section-SameRecords}
use share.Dns.Message.RoundTrip.{IsResponse, PacketOf, pack_packet}

length-rooms : (rrs : List ResourceRecord) → length rrs ≤ rooms rrs
length-rooms [] = omega arith
length-rooms (rr ∷ rrs) = omega (arith, length-rooms rrs)

-- What the receiver has.
pub record Receives (msg msg2 : Message) : Type 0 where
  pub header_received : msg2.header ≡ received new_message.header (counted msg)
  pub question_received : msg2.question ≡ msg.question
  pub answers_received : SameRecords msg.answer msg2.answer
  pub authorities_received : SameRecords msg.authority msg2.authority
  pub additionals_received : SameRecords msg.additional msg2.additional

module _ (net : Net) (msg : Message) (good : IsResponse net msg) (p : Bytes)
    (packet : PacketOf net msg good p) where
  -- The message with the packet, and after the header and the question are read.
  sent : Message
  sent = record new_message { packet = p }

  headed : Message
  headed = record new_message {
    header = received new_message.header (counted msg);
    question = msg.question;
    packet = p;
  }

  header_run :
      share.Dns.Header.unpack new_message.header p
      ≡ some (received new_message.header (counted msg))
  header_run =
      ap (share.Dns.Header.unpack new_message.header) packet.front
      ∙ unpack-pack_header new_message.header (counted msg) _ good.header_fits

  after_header :
      drop 12 p
      ≡ question_wire
          (good.question_name.first ∷ good.question_name.others)
          msg.question.qtype
          msg.question.qclass
        ++ packet.rest
  after_header =
      ap (drop 12) packet.front
      ∙ drop-append_exact (share.Dns.Header.pack (counted msg)) _ 12
          (sym (length-pack (counted msg)))

  question_done :
      share.Dns.Question.unpack new_message.question (drop 12 p) ≡ ok (msg.question, drop 12 p)
  question_done =
      let l = good.question_name.first in
      let ls = good.question_name.others in
      ap (share.Dns.Question.unpack new_message.question) after_header
      ∙ unpack-question_wire new_message.question l ls msg.question.qtype msg.question.qclass
          packet.rest good.question_name.first_label good.question_name.other_labels good.qtype_fits
          good.qclass_fits
      ∙ ap₂
          (λ (n : Bytes) (q : Bytes).
            ok (record { name = n; qtype = msg.question.qtype; qclass = msg.question.qclass }, q))
          (sym good.question_name.joined) (sym after_header)

  longer : 12 < length p
  longer = omega (
    arith,
    ap length packet.front,
    length-pack (counted msg),
    length-append (share.Dns.Header.pack (counted msg)) (
        question_wire (good.question_name.first ∷ good.question_name.others) msg.question.qtype
          msg.question.qclass
        ++ packet.rest),
    length-append
        (question_wire (good.question_name.first ∷ good.question_name.others) msg.question.qtype
          msg.question.qclass)
        packet.rest,
  )

  headed_run : unpack_header_question sent ≡ ok headed
  unfolding unpack_header_question sent headed
  headed_run =
      let long : leb (length p) 12 ≡ false = ground (arith, longer) in
      simp (header_run, long, question_done, take-append-drop 12 p)

  sections_read :
      (fuel e1 e2 : ℕ) (an ns ar : List ResourceRecord)
      → unpack_section net fuel (length msg.answer) p (length msg.question.name + 18)
        ≡ ok (an, p, e1)
      → unpack_section net fuel (length msg.authority) p e1 ≡ ok (ns, p, e2)
      → unpack_section net fuel (length msg.additional) p e2 ≡ ok (ar, p, length p)
      → unpack_sections net fuel headed
        ≡ ok (record headed { answer = an; authority = ns; additional = ar })
  unfolding unpack_sections headed
  sections_read fuel e1 e2 an ns ar first second third =
      let start : 12 + (length msg.question.name + 6) ≡ length msg.question.name + 18 =
        omega arith in
      let n1 : u16 (length msg.answer) ≡ length msg.answer =
        omega (arith, length-rooms msg.answer, good.fits) in
      let n2 : u16 (length msg.authority) ≡ length msg.authority =
        omega (arith, length-rooms msg.authority, good.fits) in
      let n3 : u16 (length msg.additional) ≡ length msg.additional =
        omega (arith, length-rooms msg.additional, good.fits) in
      simp (start, n1, n2, n3, first, second, third)

  unpack-Receives :
      (k : ℕ) × ((fuel : ℕ)
        → k ≤ fuel
        → (msg2 : Message) × (unpack net fuel sent ≡ ok msg2)
          × (msg2.packet ≡ p)
          × Receives msg msg2)
  unfolding unpack headed
  unpack-Receives =
      let (k1, read1) =
        unpack_section-SameRecords net p (length msg.question.name + 18) packet.answer_end
          msg.answer good.answers packet.answer_stands packet.answer_before in
      let (k2, read2) =
        unpack_section-SameRecords net p packet.answer_end packet.authority_end msg.authority
          good.authorities packet.authority_stands packet.authority_before in
      let (k3, read3) =
        unpack_section-SameRecords net p packet.authority_end (length p) msg.additional
          good.additionals packet.additional_stands (omega arith) in
      (
        k1 + k2 + k3,
        λ fuel enough.
            let (an, run1, same1) = read1 fuel (omega arith) in
            let (ns, run2, same2) = read2 fuel (omega arith) in
            let (ar, run3, same3) = read3 fuel (omega arith) in
            (
              record headed { answer = an; authority = ns; additional = ar },
              ap (λ r. r >>> unpack_sections net fuel) headed_run
                  ∙ sections_read fuel packet.answer_end packet.authority_end an ns ar run1 run2
                      run3,
              refl,
              record {
                header_received = refl;
                question_received = refl;
                answers_received = same1;
                authorities_received = same2;
                additionals_received = same3;
              },
            ),
      )

-- A response of any number of records of the types A, NS, CNAME, MB, MG, MR, PTR, MX and MINFO, whose
-- names are of labels of 1 to 63 small bytes without a dot or a backslash, whose addresses are those
-- that package net prints and reads, whose fields fit and which is shorter than 2^14 bytes: `Pack`
-- does not panic, and `Unpack` of its packet in a new message, with enough fuel, gives no error, does
-- not change the packet, and finds the question and in each section the same records in the same
-- order; the header is the one that `unpack-pack_header` describes.
pub unpack-pack_message :
    (net : Net) (msg : Message)
    → IsResponse net msg
    → (msg' : Message) × (pack net msg ≡ some msg')
      × ((k : ℕ) × ((fuel : ℕ)
            → k ≤ fuel
            → (msg2 : Message) × (unpack net fuel (record new_message { packet = msg'.packet })
                ≡ ok msg2)
              × (msg2.packet ≡ msg'.packet)
              × Receives msg msg2))
unfolding sent
unpack-pack_message net msg good =
    let (msg', run, packet) = pack_packet net msg good in
    (msg', run, unpack-Receives net msg good msg'.packet packet)
