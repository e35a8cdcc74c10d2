-- ===== src/Dns/Message/Flags.antt =====
-- The setters of lib/dns/message.go, which change the header and the packet.
pub mod Bits
pub mod Laws
use share.Base.{
  ◌>>=◌, ℕ, zero, suc, ◌+◌, ◌-◌, Bool, true, false, List, [], ◌∷◌, Option, none, some, ltb, ◌==◌,
  ◌&&◌, if◌then◌else◌, length, bit_and, bit_or, Bytes,
}
use share.Bytes.Integers.{write_uint16, write_uint32}
use share.Dns.Header.{SectionHeader, header_is_response, header_is_aa, header_is_rd}
use share.Dns.Record.{ResourceRecord, query_type_opt}
use share.Dns.Message.{Message}

-- `packet[x] = f(packet[x])` for an index in range.
abbrev pub modify : Bytes → ℕ → (ℕ → ℕ) → Bytes
modify [] x f = []
modify (b ∷ p) zero f = f b ∷ p
modify (b ∷ p) (suc x) f = b ∷ modify p x f

-- `if len(msg.Packet) > n { msg.Packet[x] = f(msg.Packet[x]) }`
abbrev pub when_longer : ℕ → ℕ → (ℕ → ℕ) → Message → Message
when_longer n x f msg =
    if ltb n (length msg.packet) then record msg { packet = modify msg.packet x f } else msg

unfoldable pub set_authorative_answer : Message → Bool → Message
set_authorative_answer msg is_aa =
    when_longer 2 2 (λ b. if is_aa then bit_or b header_is_aa else bit_and b 0xfb)
      (record msg { header = record msg.header { is_aa = is_aa } })

-- Two bytes are in range where it writes; `none` does not occur.
unfoldable pub set_id : Message → ℕ → Option Message
set_id msg id =
    let msg1 : Message = record msg { header = record msg.header { id = id } } in
    if ltb 2 (length msg.packet)
    then (do p ← write_uint16 msg.packet 0 id; some (record msg1 { packet = p }))
    else some msg1

unfoldable pub set_query : Message → Bool → Message
set_query msg is_query =
    let msg1 : Message = record msg { header = record msg.header { is_query = is_query } } in
    if is_query
    then when_longer 3 3 (λ b. bit_and b 0x7f) (when_longer 3 2 (λ b. bit_and b 0x71) msg1)
    else when_longer 3 2 (λ b. bit_or b header_is_response) msg1

unfoldable pub set_recursion_desired : Message → Bool → Message
set_recursion_desired msg is_rd =
    when_longer 2 2 (λ b. if is_rd then bit_or b header_is_rd else bit_and b 0xfe)
      (record msg { header = record msg.header { is_rd = is_rd } })

unfoldable pub set_response_code : Message → ℕ → Message
set_response_code msg code =
    when_longer 3 3 (λ b. if code == 0 then bit_and b 0xf0 else bit_or b (bit_and 0x0f code))
      (record msg { header = record msg.header { rcode = code } })

-- A TTL less `n`, not below 0.
abbrev pub less_ttl : ℕ → ResourceRecord → ResourceRecord
less_ttl n rr = record rr { ttl = if ltb rr.ttl n then 0 else rr.ttl - n }

-- The loop of `SubTTL` over one section; records of the type `skip` are passed over.
unfoldable pub sub_section :
    (ResourceRecord → Bool) → ℕ → Bytes → List ResourceRecord → Option (List ResourceRecord × Bytes)
sub_section skip n packet [] = some ([], packet)
sub_section skip n packet (rr ∷ rrs) =
    let passed = (do (rrs1, p) ← sub_section skip n packet rrs; some (rr ∷ rrs1, p)) in
    let changed = (do
      p ← write_uint32 packet rr.off_ttl (less_ttl n rr).ttl
      (rrs1, p1) ← sub_section skip n p rrs
      some (less_ttl n rr ∷ rrs1, p1)) in
    if skip rr then passed else changed

-- `none` is a panic: an offset out of range.
unfoldable pub sub_ttl : Message → ℕ → Option Message
sub_ttl msg n = do
  (answer, p1) ← sub_section (λ rr. false) n msg.packet msg.answer
  (authority, p2) ← sub_section (λ rr. false) n p1 msg.authority
  (additional, p3) ← sub_section (λ rr. rr.rtype == query_type_opt) n p2 msg.additional
  some (record msg { answer = answer; authority = authority; additional = additional; packet = p3 })
