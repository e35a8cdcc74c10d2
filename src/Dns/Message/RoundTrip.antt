-- ===== src/Dns/Message/RoundTrip.antt =====
-- A response as `Pack` writes it and `Unpack` reads it.
use share.Base.{
  ℕ, suc, ◌+◌, ◌^◌, ◌≤◌, ◌<◌, ◌≡◌, refl, sym, ap, ◌∙◌, subst, false, List, [], ◌∷◌, ◌++◌,
  append_assoc, Option, none, some, arith, if◌then◌else◌, get_elem?, length, length-append, u16,
  Bytes, All,
}
use share.Dns.Name.{Packer, pack_domain_name}
use share.Dns.Name.Decode.{IsLabel}
use share.Dns.Name.Labels.{join, join_two}
use share.Dns.Name.RoundTrip.{nothing}
use share.Dns.Name.Wire.{wire, pack_domain_name-wire}
use share.Dns.Header.{SectionHeader}
use share.Dns.Header.RoundTrip.{Fits, length-pack}
use share.Dns.Question.{SectionQuestion}
use share.Dns.Question.RoundTrip.{question_wire}
use share.Dns.Record.{Net, ResourceRecord}
use share.Dns.Record.Ready.{Ready, put, put-Ready, Extends}
use share.Dns.Record.Stands.{IsName, pack_name_step, Wrote-Ready}
use share.Dns.Record.PackRecord.{IsRecord, two16_lem}
use share.Dns.Message.{
  Message, counted, lowered_question, packed_into, pack_question, pack_section, pack_sections, pack,
}
use share.Dns.Message.Sections.{
  SectionStands, weaken-SectionStands, rooms, Extends-longer, pack_section-SectionDone,
}
use share.Dns.Stand.{word16}

Extends-prefix :
    (p q : Bytes) → Extends (get_elem? p) (get_elem? q) → (rest : Bytes) × (q ≡ p ++ rest)
Extends-prefix [] q h = (q, refl)
Extends-prefix (b ∷ p) [] h = let e = h 0 b refl in absurd (cc e)
Extends-prefix (b ∷ p) (c ∷ q) h =
    let first : some c ≡ some b = h 0 b refl in
    let (rest, e) = Extends-prefix p q (λ y d f. h (suc y) d f) in
    let same : c ≡ b = cc first in (rest, ap (λ a. a ∷ q) same ∙ ap (◌∷◌ b) e)

-- The packet of a packer that is there.
abbrev packet_of : Option (Packer × ℕ) → Bytes
packet_of none = []
packet_of (some r) = r.0.packet

length-wire :
    (l : Bytes) (ls : List Bytes)
    → All IsLabel ls
    → length (wire (l ∷ ls)) ≡ length (join (l ∷ ls)) + 2
length-wire l [] good = omega (arith, length-append l (0 ∷ []))
length-wire l (l2 ∷ ls) (good, more) = omega (
  arith,
  length-wire l2 ls more,
  length-append l (wire (l2 ∷ ls)),
  ap length (join_two l l2 ls good),
  length-append l (b'.' ∷ join (l2 ∷ ls)),
)

-- The packer after the question.
record QuestionDone (m m' : Packer) (question : SectionQuestion) (l : Bytes) (ls : List Bytes)
    : Type 0 where
  pub ready : Ready nothing m'
  pub grown : m'.packet ≡ m.packet ++ question_wire (l ∷ ls) question.qtype question.qclass

question_run :
    (m m1 : Packer) (question : SectionQuestion) (n : ℕ)
    → pack_domain_name m question.name false ≡ some (m1, n)
    → pack_question m question
      ≡ some (put m1 (word16 question.qtype ++ word16 question.qclass), lowered_question question)
unfolding pack_question
question_run m m1 question n named = simp (named, two16_lem m1 question.qtype question.qclass)

pack_question-QuestionDone :
    (m : Packer) (question : SectionQuestion) (good : IsName question.name)
    → Ready nothing m
    → length m.packet + length question.name + 6 < 2 ^ 14
    → (m' : Packer) × (pack_question m question ≡ some (m', lowered_question question))
      × QuestionDone m m' question good.first good.others
pack_question-QuestionDone m question good ready fits =
    let l = good.first in
    let ls = good.others in
    let q = word16 question.qtype ++ word16 question.qclass in
    let size = ap length good.joined in
    let long = length-wire l ls good.other_labels in
    let (m1, w, named, wrote) =
      pack_name_step nothing m false question.name good ready (λ x h. refl) (omega arith) in
    let (m2, wired, (grown, at)) =
      pack_domain_name-wire l ls m good.first_label good.other_labels ready.at_end (omega arith) in
    let same : m1.packet ≡ m2.packet =
      ap packet_of (sym named ∙ ap (λ n. pack_domain_name m n false) good.joined ∙ wired) in
    let before : length m1.packet ≡ length m.packet + length (wire (l ∷ ls)) =
      ap length (same ∙ grown) ∙ length-append m.packet (wire (l ∷ ls)) in
    (
      put m1 q,
      question_run m m1 question (length w) named,
      record {
        ready =
            put-Ready nothing m1 q (Wrote-Ready nothing m m1 question.name w wrote) (omega arith);
        grown = ap (λ p. p ++ q) (same ∙ grown) ∙ append_assoc m.packet (wire (l ∷ ls)) q;
      },
    )

-- A response whose records are of the types that are considered, that fits in the range of a pointer.
pub record IsResponse (net : Net) (msg : Message) : Type 0 where
  pub is_response : msg.header.is_query ≡ false
  pub header_fits : Fits (counted msg)
  pub question_name : IsName msg.question.name
  pub qtype_fits : msg.question.qtype < 2 ^ 16
  pub qclass_fits : msg.question.qclass < 2 ^ 16
  pub answers : All (IsRecord net) msg.answer
  pub authorities : All (IsRecord net) msg.authority
  pub additionals : All (IsRecord net) msg.additional
  pub fits :
      length msg.question.name + rooms msg.answer + rooms msg.authority + rooms msg.additional + 18
      < 2 ^ 14

-- The packet of a response: the header, the question and the sections.
pub record PacketOf (net : Net) (msg : Message) (good : IsResponse net msg) (p : Bytes)
    : Type 0 where
  pub rest : Bytes
  pub front :
      p
      ≡ share.Dns.Header.pack (counted msg)
        ++ (question_wire
              (good.question_name.first ∷ good.question_name.others)
              msg.question.qtype
              msg.question.qclass
            ++ rest)
  pub answer_end : ℕ
  pub authority_end : ℕ
  pub answer_stands :
      SectionStands net (get_elem? p) (length msg.question.name + 18) msg.answer answer_end
  pub authority_stands : SectionStands net (get_elem? p) answer_end msg.authority authority_end
  pub additional_stands : SectionStands net (get_elem? p) authority_end msg.additional (length p)
  pub answer_before : answer_end ≤ length p
  pub authority_before : authority_end ≤ length p

behind_front :
    (header w rest p q : Bytes) → p ≡ header ++ w → q ≡ p ++ rest → q ≡ header ++ (w ++ rest)
behind_front header w rest p q e f = f ∙ ap (λ r. r ++ rest) e ∙ append_assoc header w rest

module _ (net : Net) (msg : Message) (good : IsResponse net msg) where
  -- The packer after the header.
  started : Packer
  started = record { packet = share.Dns.Header.pack (counted msg); off = u16 12; dname_off = [] }

  counting : Message
  counting = record msg { header = counted msg; question = lowered_question msg.question }

  sections_run :
      (m1 m2 m3 m4 : Packer) (answer authority additional : List ResourceRecord)
      → pack_section net m1 msg.answer ≡ some (m2, answer)
      → pack_section net m2 msg.authority ≡ some (m3, authority)
      → pack_section net m3 msg.additional ≡ some (m4, additional)
      → pack_sections net counting m1
        ≡ some (record msg {
          header = counted msg;
          question = lowered_question msg.question;
          answer = answer;
          authority = authority;
          additional = additional;
          packet = m4.packet;
          off = m4.off;
        })
  unfolding pack_sections counting
  sections_run m1 m2 m3 m4 answer authority additional first second third =
      simp (first, second, third)

  pack_run :
      (m1 : Packer) (msg' : Message)
      → pack_question started msg.question ≡ some (m1, lowered_question msg.question)
      → pack_sections net counting m1 ≡ some msg'
      → pack net msg ≡ some msg'
  unfolding pack started counting
  pack_run m1 msg' asked done = rw asked (
      ap (λ b. if b then some (packed_into counting m1) else pack_sections net counting m1)
        good.is_response
      ∙ done)

  pub pack_packet :
      (msg' : Message) × (pack net msg ≡ some msg') × PacketOf net msg good msg'.packet
  unfolding started
  pack_packet =
      let l = good.question_name.first in
      let ls = good.question_name.others in
      let w = question_wire (l ∷ ls) msg.question.qtype msg.question.qclass in
      let header = share.Dns.Header.pack (counted msg) in
      let twelve : length header ≡ 12 = length-pack (counted msg) in
      let ready0 : Ready nothing started = record {
        at_end = omega arith;
        valid = λ key o e. absurd (cc e);
      } in
      let (m1, asked, question) =
        pack_question-QuestionDone started msg.question good.question_name ready0
          (omega (arith, good.fits)) in
      let size : length w ≡ length msg.question.name + 6 = omega (
        arith,
        length-wire l ls good.question_name.other_labels,
        ap length good.question_name.joined,
        length-append (wire (l ∷ ls)) (word16 msg.question.qtype ++ word16 msg.question.qclass),
      ) in
      let one : length m1.packet ≡ length msg.question.name + 18 =
        ap length question.grown ∙ length-append header w ∙ omega arith in
      let (m2, rrs2, run2, done2) =
        pack_section-SectionDone net m1 msg.answer good.answers question.ready
          (omega (arith, good.fits)) in
      let (m3, rrs3, run3, done3) =
        pack_section-SectionDone net m2 msg.authority good.authorities done2.ready
          (omega (arith, good.fits, done2.bounded)) in
      let (m4, rrs4, run4, done4) =
        pack_section-SectionDone net m3 msg.additional good.additionals done3.ready
          (omega (arith, good.fits, done2.bounded, done3.bounded)) in
      let (rest, prefix) =
        Extends-prefix m1.packet m4.packet
          (λ y b e. done4.extends y b (done3.extends y b (done2.extends y b e))) in
      let msg' : Message = record msg {
        header = counted msg;
        question = lowered_question msg.question;
        answer = rrs2;
        authority = rrs3;
        additional = rrs4;
        packet = m4.packet;
        off = m4.off;
      } in
      (
        msg',
        pack_run m1 msg' asked (sections_run m1 m2 m3 m4 rrs2 rrs3 rrs4 run2 run3 run4),
        record {
          rest = rest;
          front = behind_front header w rest m1.packet m4.packet question.grown prefix;
          answer_end = length m2.packet;
          authority_end = length m3.packet;
          answer_stands =
              weaken-SectionStands net (get_elem? m2.packet) (get_elem? m4.packet)
                (length msg.question.name + 18) msg.answer (length m2.packet)
                (λ y b e. done4.extends y b (done3.extends y b e))
                (subst
                  (λ x. SectionStands net (get_elem? m2.packet) x msg.answer (length m2.packet)) one
                  done2.stands);
          authority_stands =
              weaken-SectionStands net (get_elem? m3.packet) (get_elem? m4.packet)
                (length m2.packet) msg.authority (length m3.packet) done4.extends done3.stands;
          additional_stands = done4.stands;
          answer_before =
              Extends-longer m2.packet m4.packet (λ y b e. done4.extends y b (done3.extends y b e));
          authority_before = Extends-longer m3.packet m4.packet done4.extends;
        },
      )
