-- ===== src/Dns/Record/RoundTrip.antt =====
-- A record as `packRR` writes it and `ResourceRecord.unpack` reads it.
use share.Base.{
  ℕ, ◌+◌, ◌-◌, ◌≤◌, ◌≡◌, refl, sym, ap, ◌∙◌, true, [], ◌++◌, arith, leb, get_elem?, length, take,
  drop, Bytes,
}
use share.Dns.Result.{ok}
use share.Dns.Name.Decode.{View, calls}
use share.Dns.Name.Read.{unpack_name-Reads}
use share.Dns.Record.{Net, ResourceRecord, new_resource_record, rdata_of}
use share.Dns.Record.Unpack.{unpack_fields, unpack}
use share.Dns.Record.Stands.{DataStands, domain, address, exchange, mailboxes}
use share.Dns.Record.PackRecord.{IsRecord, RecordStands}
use share.Dns.Record.UnpackData.{
  stand_take, IsName-full, located_end, ReadsData, read_domain, read_address, read_exchange,
  read_mailboxes,
}
use share.Dns.Stand.{stand_split, word16, word32, read_uint16_stand, read_uint32_stand}

-- How much fuel the data takes.
abbrev pub data_calls :
    {net : Net} {v : View} {x : ℕ} {rr : ResourceRecord} {e : ℕ} → DataStands net v x rr e → ℕ
data_calls (domain name t text d) = calls d
data_calls (address value ip t text long back at end) = 0
data_calls (exchange preference name t mx fits at d) = calls d
data_calls (mailboxes rmail_box email_box y t minfo good d1 d2) = calls d1 + calls d2

reads_data :
    (net : Net) (fuel : ℕ) (rr rr1 : ResourceRecord) (p : Bytes) (x e n : ℕ)
    → rr1.rtype ≡ rr.rtype
    → rr1.rdlen ≡ n
    → rr1.rdata ≡ take n (drop x p)
    → e ≡ x + n
    → (d : DataStands net (get_elem? p) x rr e) → data_calls d ≤ fuel
    → ReadsData net fuel rr rr1 p x
reads_data net fuel rr rr1 p x e n same size bytes end (domain name t text d) enough =
    read_domain net rr rr1 p x same fuel e name t text d enough
reads_data net fuel rr rr1 p x e n same size bytes end (address value ip t text long back at end2)
      enough =
    read_address net rr rr1 p x same fuel value ip t text back long
      (bytes ∙ stand_take p ip x n (omega arith) at) (omega arith)
reads_data net fuel rr rr1 p x e n same size bytes end (exchange preference name t mx fits at d)
      enough =
    read_exchange net rr rr1 p x same fuel e preference name t mx fits at d enough
reads_data net fuel rr rr1 p x e n same size bytes end
      (mailboxes rmail_box email_box y t minfo good d1 d2) enough =
    read_mailboxes net rr rr1 p x same fuel y e rmail_box email_box t minfo good d1 d2 (omega arith)
      (omega arith)

-- The same record to a reader.
pub record SameRecord (rr rr2 : ResourceRecord) : Type 0 where
  pub name_kept : rr2.name ≡ rr.name
  pub type_kept : rr2.rtype ≡ rr.rtype
  pub class_kept : rr2.rclass ≡ rr.rclass
  pub ttl_kept : rr2.ttl ≡ rr.ttl
  pub data_kept : rdata_of rr2 ≡ rdata_of rr

module _ (net : Net) (p : Bytes) (x : ℕ) (rr : ResourceRecord) (e : ℕ) (good : IsRecord net rr)
    (stands : RecordStands net (get_elem? p) x rr e) (within : e ≤ length p) where
  -- The record with the fields that are read before the data.
  fields_of : ℕ → ResourceRecord
  fields_of off = record new_resource_record {
    name = rr.name;
    off = off;
    rtype = rr.rtype;
    rclass = rr.rclass;
    ttl = rr.ttl;
    off_ttl = stands.name_end + 4;
    rdlen = stands.rdlength;
    rdata = take stands.rdlength (drop (stands.name_end + 10) p);
  }

  read_fields :
      (off : ℕ)
      → unpack_fields (record new_resource_record { name = rr.name; off = off }) p stands.name_end
        ≡ ok (fields_of off)
  unfolding unpack_fields fields_of
  read_fields off =
      let (front, ttl) =
        stand_split (get_elem? p) (word16 rr.rtype ++ word16 rr.rclass) (word32 rr.ttl)
          stands.name_end stands.fields_stand in
      let (t, c) =
        stand_split (get_elem? p) (word16 rr.rtype) (word16 rr.rclass) stands.name_end front in
      let ordered : leb (stands.name_end + 10) (stands.name_end + 10 + stands.rdlength) ≡ true =
        ground arith in
      let in_range : leb (stands.name_end + 10 + stands.rdlength) (length p) ≡ true =
        ground (arith, stands.ends) in
      let size : stands.name_end + 10 + stands.rdlength - (stands.name_end + 10) ≡ stands.rdlength =
        omega arith in
      simp (
        read_uint16_stand p stands.name_end rr.rtype good.type_fits t,
        read_uint16_stand p (stands.name_end + 2) rr.rclass good.class_fits c,
        read_uint32_stand p (stands.name_end + 4) rr.ttl good.ttl_fits ttl,
        read_uint16_stand p (stands.name_end + 8) stands.rdlength stands.small stands.length_stands,
        ordered,
        in_range,
        size,
      )

  -- A record of the types that are considered, which stands in a packet, is read with enough fuel:
  -- the name, the type, the class, the TTL and the data are those of the record, the packet is not
  -- changed, and the next record is looked for where this one ends.
  pub unpack-SameRecord :
      (k : ℕ) × ((fuel : ℕ)
        → k ≤ fuel
        → (rr2 : ResourceRecord) × (unpack net fuel new_resource_record p x ≡ ok ((rr2, p), e))
          × SameRecord rr rr2)
  unfolding unpack fields_of
  unpack-SameRecord = (
    calls stands.owner + data_calls stands.data_stands,
    λ fuel enough.
        let (off, run, located) = unpack_name-Reads p fuel 0 [] stands.owner (omega arith) in
        let end =
          (located_end off x rr.name p stands.name_end (IsName-full rr.name good.owner)
            located).1 in
        let (rr2, data_run, data_same) =
          reads_data net fuel rr (fields_of off) p (stands.name_end + 10) e stands.rdlength refl
            refl refl stands.ends stands.data_stands (omega arith) in
        (
          rr2,
          simp (run, end, read_fields off, data_run)
              (ap (λ (y : ℕ). ok ((rr2, p), y)) (sym stands.ends)),
          record {
            name_kept = data_same.same_name;
            type_kept = data_same.same_type;
            class_kept = data_same.same_class;
            ttl_kept = data_same.same_ttl;
            data_kept = data_same.same_data;
          },
        ),
  )
