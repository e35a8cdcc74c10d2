-- ===== src/Dns/Message/Flags/Laws.antt =====
-- What a reader of the header finds after a setter.
use share.Base.{
  ◌>>=◌, ℕ, ◌*◌, ◌/◌, ◌^◌, ◌<◌, ◌≡◌, refl, sym, ap, ◌∙◌, Bool, true, false, ◌∷◌, Option, some,
  arith, ltb, ◌==◌, inl, inr, Bool-cases, Option-cases, if◌then◌else◌, length, bit_and, bit_or, u8,
  Bytes, IsByte,
}
use share.Bytes.Integers.{pattern16, write_uint16, read_uint16}
use share.Bytes.Integers.RoundTrip.{pattern16_sum}
use share.Dns.Header.{
  SectionHeader, header_is_response, header_is_aa, header_is_tc, header_is_rd, header_is_ra, has,
  unpack,
}
use share.Dns.Message.{Message}
use share.Dns.Message.Flags.{
  set_authorative_answer, set_id, set_query, set_recursion_desired, set_response_code,
}
use share.Dns.Message.Flags.Bits.{
  rd_response, rd_aa, rd_tc, rd_rd, rd_op, aa_response, aa_aa, aa_tc, aa_rd, aa_op, query_response,
  query_aa, query_tc, query_rd, query_op, reply_response, reply_aa, reply_tc, reply_rd, reply_op,
  query_ra, query_rcode, ok_ra, ok_rcode, code_ra, code_rcode,
}

-- The header by its first four bytes and the four counts.
abbrev Counts : Type 0
Counts = ℕ × ℕ × ℕ × ℕ

counts : Bytes → Option Counts
counts rest = do
  qd ← read_uint16 rest 0
  an ← read_uint16 rest 2
  ns ← read_uint16 rest 4
  ar ← read_uint16 rest 6
  some (qd, an, ns, ar)

header_of : SectionHeader → ℕ → ℕ → ℕ → Counts → SectionHeader
header_of old id c d t = record {
  id = id;
  is_query = if has c header_is_response then false else old.is_query;
  op = bit_and c 0x78 / 2 ^ 2;
  is_aa = if has c header_is_aa then true else old.is_aa;
  is_tc = if has c header_is_tc then true else old.is_tc;
  is_rd = has c header_is_rd;
  is_ra = if has d header_is_ra then true else old.is_ra;
  rcode = bit_and 0x0f d;
  qd_count = t.0;
  an_count = t.1;
  ns_count = t.2;
  ar_count = t.3;
}

parse : SectionHeader → ℕ → ℕ → ℕ → Bytes → Option SectionHeader
parse old id c d rest = counts rest >>= λ t. some (header_of old id c d t)

unpack-parse :
    (old : SectionHeader) (a b c d : ℕ) (rest : Bytes)
    → unpack old (a ∷ b ∷ c ∷ d ∷ rest) ≡ parse old (pattern16 a b) c d rest
unfolding unpack parse counts header_of
unpack-parse old a b c d rest =
    let p = a ∷ b ∷ c ∷ d ∷ rest in
    let word : read_uint16 p 0 ≡ some (pattern16 a b) = unfold read_uint16 in refl in
    let at4 : read_uint16 p 4 ≡ read_uint16 rest 0 = unfold read_uint16 in refl in
    let at6 : read_uint16 p 6 ≡ read_uint16 rest 2 = unfold read_uint16 in refl in
    let at8 : read_uint16 p 8 ≡ read_uint16 rest 4 = unfold read_uint16 in refl in
    let at10 : read_uint16 p 10 ≡ read_uint16 rest 6 = unfold read_uint16 in refl in
    elim (Option-cases (read_uint16 rest 0)) [
      | inl e0 ↦ simp (word, at4, e0)
      | inr (qd, e0) ↦ elim (Option-cases (read_uint16 rest 2)) [
        | inl e1 ↦ simp (word, at4, e0, at6, e1)
        | inr (an, e1) ↦ elim (Option-cases (read_uint16 rest 4)) [
          | inl e2 ↦ simp (word, at4, e0, at6, e1, at8, e2)
          | inr (ns, e2) ↦ elim (Option-cases (read_uint16 rest 6)) [
            | inl e3 ↦ simp (word, at4, e0, at6, e1, at8, e2, at10, e3)
            | inr (ar, e3) ↦ simp (word, at4, e0, at6, e1, at8, e2, at10, e3)
          ]
        ]
      ]
    ]

if_same : (on : Bool) → (if on then true else false) ≡ on
if_same true = refl
if_same false = refl

-- Two ways to the same header, by what is done with it.
parse_same :
    (old : SectionHeader) (id id2 c c2 d d2 : ℕ) (rest : Bytes) (f : SectionHeader → SectionHeader)
    → ((t : Counts) → header_of old id2 c2 d2 t ≡ f (header_of old id c d t))
    → parse old id2 c2 d2 rest ≡ (parse old id c d rest >>= λ hdr. some (f hdr))
unfolding parse
parse_same old id id2 c c2 d d2 rest f same = elim (Option-cases (counts rest)) [
  | inl e ↦ rw e
  | inr (t, e) ↦ rw e (ap some (same t))
]

module _ (old : SectionHeader) (msg : Message) (a b c d : ℕ) (rest : Bytes) (third : IsByte c)
    (fourth : IsByte d) (packet : msg.packet ≡ a ∷ b ∷ c ∷ d ∷ rest) where
  read_before : unpack old msg.packet ≡ parse old (pattern16 a b) c d rest
  read_before = ap (unpack old) packet ∙ unpack-parse old a b c d rest

  -- What a reader finds in four other bytes.
  read_after :
      (msg' : Message) (a2 b2 c2 d2 : ℕ) (f : SectionHeader → SectionHeader)
      → msg'.packet ≡ a2 ∷ b2 ∷ c2 ∷ d2 ∷ rest
      → ((t : Counts)
          → header_of old (pattern16 a2 b2) c2 d2 t ≡ f (header_of old (pattern16 a b) c d t))
      → unpack old msg'.packet ≡ (unpack old msg.packet >>= λ hdr. some (f hdr))
  read_after msg' a2 b2 c2 d2 f e same =
      ap (unpack old) e
      ∙ unpack-parse old a2 b2 c2 d2 rest
      ∙ parse_same old (pattern16 a b) (pattern16 a2 b2) c c2 d d2 rest f same
      ∙ ap (λ r. r >>= λ hdr. some (f hdr)) (sym read_before)

  longer_two : ltb 2 (length (a ∷ b ∷ c ∷ d ∷ rest)) ≡ true
  longer_two = ground arith

  longer_three : ltb 3 (length (a ∷ b ∷ c ∷ d ∷ rest)) ≡ true
  longer_three = ground arith

  written :
      (id : ℕ)
      → write_uint16 (a ∷ b ∷ c ∷ d ∷ rest) 0 id ≡ some (u8 (id / 2 ^ 8) ∷ u8 id ∷ c ∷ d ∷ rest)
  unfolding write_uint16
  written id = ground arith

  -- `SetRecursionDesired`, `SetAuthorativeAnswer` and `SetID` on a packet of four bytes or more: a
  -- reader of the header finds the new flag or number, and the rest as before. The flag AA is seen by
  -- a reader whose header has it not set.
  pub unpack-setters :
      (on : Bool) (id : ℕ)
      → id < 2 ^ 16
      → old.is_aa ≡ false
      → (unpack old (set_recursion_desired msg on).packet
          ≡ (unpack old msg.packet >>= λ hdr. some (record hdr { is_rd = on })))
        × (unpack old (set_authorative_answer msg on).packet
            ≡ (unpack old msg.packet >>= λ hdr. some (record hdr { is_aa = on })))
        × ((msg' : Message) × (set_id msg id ≡ some msg')
            × (unpack old msg'.packet
                ≡ (unpack old msg.packet >>= λ hdr. some (record hdr { id = id }))))
  unfolding set_recursion_desired set_authorative_answer set_id header_of
  unpack-setters on id small unset = (
    read_after (set_recursion_desired msg on) a b
        (if on then bit_or c header_is_rd else bit_and c 0xfe) d (λ hdr. record hdr { is_rd = on })
        (simp (longer_two, packet))
        (λ t. simp (
          rd_response on c third,
          rd_aa on c third,
          rd_tc on c third,
          rd_rd on c third,
          rd_op on c third,
        )),
    read_after (set_authorative_answer msg on) a b
        (if on then bit_or c header_is_aa else bit_and c 0xfb) d (λ hdr. record hdr { is_aa = on })
        (simp (longer_two, packet))
        (λ t. simp (
          aa_response on c third,
          aa_aa on c third,
          aa_tc on c third,
          aa_rd on c third,
          aa_op on c third,
          unset,
          if_same on,
        )),
    (
      record msg {
        header = record msg.header { id = id };
        packet = u8 (id / 2 ^ 8) ∷ u8 id ∷ c ∷ d ∷ rest;
      },
      simp (longer_two, packet, written id),
      read_after (record msg { packet = u8 (id / 2 ^ 8) ∷ u8 id ∷ c ∷ d ∷ rest }) _ _ c d
          (λ hdr. record hdr { id = id }) refl
          (λ t.
            ap (λ (n : ℕ). header_of old n c d t)
              (pattern16_sum (u8 (id / 2 ^ 8)) (u8 id) (omega arith) (omega arith) ∙ omega arith)),
    ),
  )

  -- `SetQuery` on a packet of four bytes or more, for a reader whose header is that of a query with no
  -- flags: after it turns the message into a response a reader finds a response and the rest as before;
  -- after it turns it into a query a reader finds a query without the flags AA, TC and RA, and an op
  -- code that has lost the bits below the third.
  pub unpack-set_query :
      old.is_query ≡ true
      → old.is_aa ≡ false
      → old.is_tc ≡ false
      → old.is_ra ≡ false
      → (unpack old (set_query msg false).packet
          ≡ (unpack old msg.packet >>= λ hdr. some (record hdr { is_query = false })))
        × (unpack old (set_query msg true).packet ≡ (
            unpack old msg.packet >>= λ hdr. some (record hdr {
              is_query = true;
              op = hdr.op / 4 * 4;
              is_aa = false;
              is_tc = false;
              is_ra = false;
            })))
  unfolding set_query header_of
  unpack-set_query query aa tc ra = (
    read_after (set_query msg false) a b (bit_or c header_is_response) d
        (λ hdr. record hdr { is_query = false }) (simp (longer_three, packet))
        (λ t. simp (
          reply_response c third,
          reply_aa c third,
          reply_tc c third,
          reply_rd c third,
          reply_op c third,
        )),
    read_after (set_query msg true) a b (bit_and c 0x71) (bit_and d 0x7f)
        (λ hdr. record hdr {
          is_query = true;
          op = hdr.op / 4 * 4;
          is_aa = false;
          is_tc = false;
          is_ra = false;
        })
        (simp (longer_three, packet))
        (λ t. simp (
          query_response c third,
          query_aa c third,
          query_tc c third,
          query_rd c third,
          query_op c third,
          query_ra d fourth,
          query_rcode d fourth,
          query,
          aa,
          tc,
          ra,
        )),
  )

  -- `SetResponseCode` on a packet of four bytes or more: a reader of the header finds the code 0
  -- where it is set, for another code the bits of the old code and the four low bits of the new one
  -- together, and the rest as before.
  pub unpack-set_response_code :
      (code : ℕ)
      → IsByte code
      → unpack old (set_response_code msg code).packet ≡ (
          unpack old msg.packet >>= λ hdr.
          some
            (record hdr { rcode = if code == 0 then 0 else bit_or hdr.rcode (bit_and 0x0f code) }))
  unfolding set_response_code header_of
  unpack-set_response_code code small = elim (Bool-cases (code == 0)) [
    | inl z ↦
        read_after (set_response_code msg code) a b c (bit_and d 0xf0)
          (λ hdr. record hdr {
            rcode = if code == 0 then 0 else bit_or hdr.rcode (bit_and 0x0f code);
          })
          (simp (longer_three, packet, z)) (λ t. simp (z, ok_ra d fourth, ok_rcode d fourth))
    | inr more ↦
        read_after (set_response_code msg code) a b c (bit_or d (bit_and 0x0f code))
          (λ hdr. record hdr {
            rcode = if code == 0 then 0 else bit_or hdr.rcode (bit_and 0x0f code);
          })
          (simp (longer_three, packet, more))
          (λ t. simp (more, code_ra d code fourth small, code_rcode d code fourth small))
  ]
