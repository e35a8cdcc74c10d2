-- ===== src/Dns/Record/PackRecord.antt =====
-- `packRR` on a record whose data is considered.
use share.Base.{
  ℕ, ◌+◌, ◌^◌, ◌≤◌, ◌<◌, ◌≡◌, refl, sym, ap, ◌∙◌, subst, true, false, [], ◌++◌, append-nil,
  append_assoc, some, arith, ◌==◌, get_elem?, length, length-append, u16, Bytes,
}
use share.Bytes.Integers.{append_uint16}
use share.Dns.Name.{Packer, pack_domain_name}
use share.Dns.Name.Decode.{View, StandAt, Decodes, weaken-Decodes, weaken-StandAt}
use share.Dns.Name.Pack.{view, get_elem?-append_some}
use share.Dns.Name.RoundTrip.{nothing, view_seen}
use share.Dns.Record.{Net, ResourceRecord, query_type_opt, names_domain, lowered}
use share.Dns.Record.Pack.{put16, advance, pack_rdata, pack_rr_name, pack_rr_ttl, pack_rr}
use share.Dns.Record.Ready.{Ready, put, put-Ready, Extends}
use share.Dns.Record.Stands.{
  IsName, pack_name_step, Wrote-Ready, put32_lem, DataStands, domain, address, exchange, mailboxes,
  weaken-DataStands, IsData, of_domain, of_address, of_exchange, of_mailboxes, data_room,
}
use share.Dns.Record.PackTwo.{domain_not, pack_rdata-DataDone}
use share.Dns.Stand.{stand_here, word16, word32, append_uint16_lem}

-- A record of the types that are considered, whose fields fit.
pub record IsRecord (net : Net) (rr : ResourceRecord) : Type 0 where
  pub owner : IsName rr.name
  pub type_fits : rr.rtype < 2 ^ 16
  pub class_fits : rr.rclass < 2 ^ 16
  pub ttl_fits : rr.ttl < 2 ^ 32
  pub data_good : IsData net rr

-- How many bytes the record can take.
abbrev pub room : ResourceRecord → ℕ
room rr = length rr.name + 10 + data_room rr

-- The fields after the name, up to the length of the data.
abbrev pub fields : ResourceRecord → Bytes
fields rr = (word16 rr.rtype ++ word16 rr.rclass) ++ word32 rr.ttl

-- The record stands from `x` to `e`.
pub record RecordStands (net : Net) (v : View) (x : ℕ) (rr : ResourceRecord) (e : ℕ) : Type 0 where
  pub name_end : ℕ
  pub rdlength : ℕ
  pub small : rdlength < 2 ^ 16
  pub owner : Decodes v x rr.name name_end
  pub fields_stand : StandAt v name_end (fields rr)
  pub length_stands : StandAt v (name_end + 8) (word16 rdlength)
  pub data_stands : DataStands net v (name_end + 10) rr e
  pub ends : e ≡ name_end + 10 + rdlength

pub weaken-RecordStands :
    (net : Net) (v w : View) (x : ℕ) (rr : ResourceRecord) (e : ℕ)
    → Extends v w
    → RecordStands net v x rr e
    → RecordStands net w x rr e
weaken-RecordStands net v w x rr e h stands = record {
  name_end = stands.name_end;
  rdlength = stands.rdlength;
  small = stands.small;
  owner = weaken-Decodes v w h stands.owner;
  fields_stand = weaken-StandAt v w stands.name_end (fields rr) h stands.fields_stand;
  length_stands =
      weaken-StandAt v w (stands.name_end + 8) (word16 stands.rdlength) h stands.length_stands;
  data_stands = weaken-DataStands net v w (stands.name_end + 10) rr e h stands.data_stands;
  ends = stands.ends;
}

-- The record after `packRR`, which notes where the TTL stands.
abbrev pub timed : ResourceRecord → ℕ → ResourceRecord
timed rr off = record rr { ttl = rr.ttl; off_ttl = off }

timed-IsData :
    (net : Net) (rr : ResourceRecord) (off : ℕ) → IsData net rr → IsData net (timed rr off)
timed-IsData net rr off (of_domain name t text good) = of_domain name t text good
timed-IsData net rr off (of_address value ip ipv4 t text parsed short long printed) =
    of_address value ip ipv4 t text parsed short long printed
timed-IsData net rr off (of_exchange preference name t mx signed good) =
    of_exchange preference name t mx signed good
timed-IsData net rr off (of_mailboxes rmail_box email_box t minfo good1 good2) =
    of_mailboxes rmail_box email_box t minfo good1 good2

no_option : (net : Net) (rr : ResourceRecord) → IsData net rr → (rr.rtype == query_type_opt) ≡ false
no_option net rr (of_domain name t text good) =
    domain_not rr.rtype query_type_opt (unfold names_domain in refl) t
no_option net rr (of_address value ip ipv4 t text parsed short long printed) = rw t
no_option net rr (of_exchange preference name t mx signed good) = rw t
no_option net rr (of_mailboxes rmail_box email_box t minfo good1 good2) = rw t

untimed :
    (net : Net) (v : View) (rr : ResourceRecord) (off : ℕ) {x e : ℕ}
    → DataStands net v x (timed rr off) e
    → DataStands net v x rr e
untimed net v rr off (domain name t text d) = domain name t text d
untimed net v rr off (address value ip t text long back at end) =
    address value ip t text long back at end
untimed net v rr off (exchange preference name t mx fits at d) =
    exchange preference name t mx fits at d
untimed net v rr off (mailboxes rmail_box email_box y t minfo good d1 d2) =
    mailboxes rmail_box email_box y t minfo good d1 d2

pub two16_lem :
    (m : Packer) (a b : ℕ) → advance (put16 (put16 m a) b) 4 ≡ put m (word16 a ++ word16 b)
unfolding put16 advance
two16_lem m a b =
    ap (λ p. record m { packet = p; off = u16 (m.off + 4) })
      (append_uint16_lem (append_uint16 m.packet a) b
        ∙ ap (λ p. p ++ word16 b) (append_uint16_lem m.packet a)
        ∙ append_assoc m.packet (word16 a) (word16 b))

-- What `packRR` leaves behind.
pub record RecordDone (net : Net) (m m' : Packer) (rr rr' : ResourceRecord) : Type 0 where
  pub ready : Ready nothing m'
  pub off : ℕ
  pub same : rr' ≡ lowered (timed rr off)
  pub stands : RecordStands net (get_elem? m'.packet) (length m.packet) rr (length m'.packet)
  pub extends : Extends (get_elem? m.packet) (get_elem? m'.packet)
  pub bounded : length m'.packet ≤ length m.packet + room rr

module _ (net : Net) (m : Packer) (rr : ResourceRecord) (good : IsRecord net rr) where
  record_run :
      (m1 m4 : Packer) (n : ℕ)
      → pack_domain_name m rr.name true ≡ some (m1, n)
      → pack_rdata net
          (put (put m1 (word16 rr.rtype ++ word16 rr.rclass)) (word32 rr.ttl))
          (timed rr (put m1 (word16 rr.rtype ++ word16 rr.rclass)).off)
        ≡ some m4
      → pack_rr net m rr
        ≡ some (m4, lowered (timed rr (put m1 (word16 rr.rtype ++ word16 rr.rclass)).off))
  unfolding pack_rr pack_rr_name pack_rr_ttl
  record_run m1 m4 n named run =
      simp (no_option net rr good.data_good, named, two16_lem m1 rr.rtype rr.rclass, put32_lem, run)

  pub pack_rr-RecordDone :
      Ready nothing m
      → length m.packet + room rr < 2 ^ 14
      → (m' : Packer) × (rr' : ResourceRecord) × (pack_rr net m rr ≡ some (m', rr'))
        × RecordDone net m m' rr rr'
  pack_rr-RecordDone ready fits =
      let q = word16 rr.rtype ++ word16 rr.rclass in
      let (m1, w, named, wrote) =
        pack_name_step nothing m true rr.name good.owner ready (λ x h. refl) (omega arith) in
      let m2 = put m1 q in
      let m3 = put m2 (word32 rr.ttl) in
      let one : length m1.packet ≡ length m.packet + length w =
        ap length wrote.grown ∙ length-append m.packet w in
      let two : length m2.packet ≡ length m1.packet + 4 = length-append m1.packet q in
      let three : length m3.packet ≡ length m2.packet + 4 =
        length-append m2.packet (word32 rr.ttl) in
      let ready3 =
        put-Ready nothing m2 (word32 rr.ttl)
          (put-Ready nothing m1 q (Wrote-Ready nothing m m1 rr.name w wrote)
            (omega (arith, wrote.short)))
          (omega (arith, wrote.short)) in
      let rr1 = timed rr m2.off in
      let (m4, run, done) =
        pack_rdata-DataDone net m3 rr1 ready3 (omega (arith, wrote.short))
          (timed-IsData net rr m2.off good.data_good) in
      let grown : m3.packet ≡ m1.packet ++ (q ++ word32 rr.ttl) =
        append_assoc m1.packet q (word32 rr.ttl) in
      let from_first : Extends (get_elem? m1.packet) (get_elem? m4.packet) = λ y b e.
        done.extends y b (
          subst (λ p. get_elem? p y ≡ some b) (sym grown)
            (get_elem?-append_some m1.packet (q ++ word32 rr.ttl) y b e)) in
      (
        m4,
        lowered rr1,
        record_run m1 m4 (length w) named run,
        record {
          ready = done.ready;
          off = m2.off;
          same = refl;
          stands = record {
            name_end = length m1.packet;
            rdlength = done.rdlength;
            small = omega (arith, done.small);
            owner =
                weaken-Decodes (view nothing m1.packet) (get_elem? m4.packet)
                  (λ y b e. from_first y b (view_seen nothing m1.packet y b e)) wrote.decodes;
            fields_stand =
                weaken-StandAt (get_elem? m3.packet) (get_elem? m4.packet) (length m1.packet)
                  (fields rr) done.extends
                  (subst (λ p. StandAt (get_elem? p) (length m1.packet) (fields rr))
                    (ap (◌++◌ m1.packet) (append-nil (fields rr)) ∙ sym grown)
                    (stand_here m1.packet (fields rr) [] (length m1.packet) refl));
            length_stands =
                subst (λ x. StandAt (get_elem? m4.packet) x (word16 done.rdlength)) (omega arith)
                  done.length_stands;
            data_stands =
                subst (λ x. DataStands net (get_elem? m4.packet) x rr (length m4.packet))
                  (omega arith) (untimed net (get_elem? m4.packet) rr m2.off done.data_stands);
            ends = omega (arith, done.long);
          };
          extends = λ y b e. from_first y b (
              subst (λ p. get_elem? p y ≡ some b) (sym wrote.grown)
                (get_elem?-append_some m.packet w y b e));
          bounded = omega (arith, done.long, done.small, wrote.short);
        },
      )
