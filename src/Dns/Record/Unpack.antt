-- ===== src/Dns/Record/Unpack.antt =====
-- `unpack` of lib/dns/resourcerecord.go, with fuel for `unpackDomainName`. The capacity of the packet
-- is taken to be its length.
use share.Base.{
  ◌>>=◌, ℕ, suc, ◌+◌, ◌-◌, ◌/◌, ◌^◌, [], ◌∷◌, ◌++◌, Option, none, some, ◌&&◌, leb, ltb, ◌==◌,
  if◌then◌else◌, length, get_elem?, take, drop, bit_and, u8, Bytes,
}
use share.Bytes.Integers.{read_int16, read_int32, read_uint16, read_uint32}
use share.Dns.Name.{Named, unpack_name}
use share.Dns.Result.{ipv4_length, ipv6_length, opt_range, Result, ok, fail, ◌>>>◌, or_panic}
use share.Dns.Record.{
  Net, RdataWks, RdataHinfo, RdataOpt, ResourceRecord, query_type_a, query_type_soa,
  query_type_null, query_type_wks, query_type_hinfo, query_type_minfo, query_type_mx,
  query_type_txt, query_type_aaaa, query_type_srv, query_type_opt, names_domain, mask_opt_do,
  rdata_ipv4_size, rdata_ipv6_size,
}

-- `packet[a:b]`
abbrev pub slice : Bytes → ℕ → ℕ → Option Bytes
slice packet a b =
    if leb a b && leb b (length packet) then some (take (b - a) (drop a packet)) else none

-- A record that is read, and the packet with the capitals of names made small.
abbrev pub Unpacked : Type 0
Unpacked = ResourceRecord × Bytes

-- `rr.unpackDomainName(&out, packet, x)` for a field `out` of the data, which is empty.
abbrev pub read_name : ℕ → ResourceRecord → Bytes → ℕ → (Named → Result Unpacked) → Result Unpacked
read_name fuel rr packet x next = unpack_name fuel rr.off [] packet x >>> next

-- Where a name that was read ends: by a pointer, or by its length. `small` is what an empty name
-- takes.
abbrev pub name_end : ℕ → Named → ℕ
name_end x nm = if ltb 0 nm.off then nm.off + 1 else x + (length nm.out + 2)

unfoldable pub unpack_text_domain : ℕ → ResourceRecord → Bytes → ℕ → Result Unpacked
unpack_text_domain fuel rr packet x =
    read_name fuel rr packet x
      (λ nm. ok (record rr { text = some (record { value = nm.out }); off = nm.off }, nm.packet))

unfoldable pub unpack_a : Net → ResourceRecord → Bytes → Result Unpacked
unpack_a net rr packet =
    if rr.rdlen == rdata_ipv4_size && length rr.rdata == rdata_ipv4_size
    then ok (record rr { text = some (record { value = net.to_string rr.rdata }) }, packet)
    else fail ipv4_length

unfoldable pub unpack_aaaa : Net → ResourceRecord → Bytes → Result Unpacked
unpack_aaaa net rr packet =
    if rr.rdlen == rdata_ipv6_size && length rr.rdata == rdata_ipv6_size
    then ok (record rr { text = some (record { value = net.to_string rr.rdata }) }, packet)
    else fail ipv6_length

unfoldable pub unpack_minfo : ℕ → ResourceRecord → Bytes → ℕ → Result Unpacked
unpack_minfo fuel rr packet x =
    read_name fuel (record rr { off = 0 }) packet x
      (λ n1.
        read_name fuel (record rr { off = 0 }) n1.packet (name_end x n1)
          (λ n2. ok (
            record rr {
              minfo = some (record { rmail_box = n1.out; email_box = n2.out });
              off = n2.off;
            },
            n2.packet,
          )))

unfoldable pub unpack_mx : ℕ → ResourceRecord → Bytes → ℕ → Result Unpacked
unpack_mx fuel rr packet x = or_panic (read_int16 packet x) >>> λ preference.
    read_name fuel (record rr { off = 0 }) packet (x + 2)
      (λ nm. ok (
        record rr {
          mx = some (record { preference = preference; exchange = nm.out });
          off = nm.off;
        },
        nm.packet,
      ))

-- The bytes before the first dot, and those after it.
abbrev pub cut_dot : Bytes → Bytes × Bytes
cut_dot [] = ([], [])
cut_dot (b ∷ bs) = if b == b'.' then ([], bs) else (b ∷ (cut_dot bs).0, (cut_dot bs).1)

unfoldable pub unpack_srv : ℕ → ResourceRecord → Bytes → ℕ → Result Unpacked
unpack_srv fuel rr packet x =
    let (service, rest) = cut_dot rr.name in
    let (proto, name) = cut_dot rest in
    or_panic (read_uint16 packet x) >>> λ priority.
    or_panic (read_uint16 packet (x + 2)) >>> λ weight.
    or_panic (read_uint16 packet (x + 4)) >>> λ port. read_name fuel rr packet (x + 6) (λ nm. ok (
      record rr {
        srv = some (record {
          service = service;
          proto = proto;
          name = name;
          priority = priority;
          weight = weight;
          port = port;
          target = nm.out;
        });
        off = nm.off;
      },
      nm.packet,
    ))

-- The option in the data of an OPT record.
unfoldable pub unpack_opt_data : RdataOpt → ResourceRecord → Bytes → ℕ → Result Unpacked
unpack_opt_data opt rr packet x = or_panic (read_uint16 packet x) >>> λ code.
    or_panic (read_uint16 packet (x + 2)) >>> λ opt_length.
    let end_idx = x + 4 + rr.rdlen in
    let rest = or_panic (slice packet (x + 4) end_idx) >>> λ bs. ok (
      record rr {
        opt = some (record opt { code = code; opt_length = opt_length; data_bytes = bs });
      },
      packet,
    ) in
    if leb (length packet) end_idx then fail opt_range else rest

unfoldable pub unpack_opt : ResourceRecord → Bytes → ℕ → Result Unpacked
unpack_opt rr packet x =
    let opt : RdataOpt = record {
      ext_rcode = u8 (rr.ttl / 2 ^ 24);
      version = u8 (rr.ttl / 2 ^ 16);
      dnssec_ok = bit_and rr.ttl mask_opt_do == mask_opt_do;
      code = 0;
      opt_length = 0;
      data_bytes = [];
    } in
    if rr.rdlen == 0
    then ok (record rr { opt = some opt }, packet)
    else unpack_opt_data opt rr packet x

unfoldable pub unpack_soa : ℕ → ResourceRecord → Bytes → ℕ → Result Unpacked
unpack_soa fuel rr packet start =
    read_name fuel (record rr { off = 0 }) packet start
      (λ n1.
        read_name fuel (record rr { off = 0 }) n1.packet (name_end start n1)
          (λ n2.
            let x = name_end (name_end start n1) n2 in
            or_panic (read_uint32 n2.packet x) >>> λ serial.
            or_panic (read_int32 n2.packet (x + 4)) >>> λ refresh.
            or_panic (read_int32 n2.packet (x + 8)) >>> λ retry.
            or_panic (read_int32 n2.packet (x + 12)) >>> λ expire.
            or_panic (read_uint32 n2.packet (x + 16)) >>> λ minimum. ok (
              record rr {
                soa = some (record {
                  mname = n1.out;
                  rname = n2.out;
                  serial = serial;
                  refresh = refresh;
                  retry = retry;
                  expire = expire;
                  minimum = minimum;
                });
                off = 0;
              },
              n2.packet,
            )))

-- `RDataWKS.unpack`
unfoldable pub wks_of : Bytes → Option RdataWks
wks_of bs = do
  address ← slice bs 0 4
  protocol ← get_elem? bs 4
  bit_map ← slice bs 5 (length bs)
  some (record { address = address; protocol = protocol; bit_map = bit_map })

-- How many bytes stand before the first zero.
abbrev pub zero_index : Bytes → ℕ
zero_index [] = 0
zero_index (b ∷ bs) = if b == 0 then 0 else suc (zero_index bs)

-- `RDataHINFO.unpack`
unfoldable pub hinfo_of : Bytes → Option RdataHinfo
hinfo_of bs = do
  cpu ← slice bs 0 (zero_index bs)
  os ← slice bs (zero_index bs + 1) (length bs)
  some (record { cpu = cpu; os = os })

unfoldable pub unpack_rdata : Net → ℕ → ResourceRecord → Bytes → ℕ → Result Unpacked
unpack_rdata net fuel rr packet start =
    let end_idx = start + rr.rdlen in
    let with_text : Bytes → Result Unpacked =
      λ bs. ok (record rr { text = some (record { value = bs }) }, packet) in
    if rr.rtype == query_type_a
    then unpack_a net rr packet
    else if names_domain rr.rtype
    then unpack_text_domain fuel rr packet start
    else if rr.rtype == query_type_soa
    then unpack_soa fuel rr packet start
    else if rr.rtype == query_type_null
    then or_panic (slice packet start (start + end_idx)) >>> with_text
    else if rr.rtype == query_type_wks
    then or_panic (slice packet start end_idx >>= wks_of)
      >>> (λ wks. ok (record rr { wks = some wks }, packet))
    else if rr.rtype == query_type_hinfo
    then or_panic (slice packet start end_idx >>= hinfo_of)
      >>> (λ hinfo. ok (record rr { hinfo = some hinfo }, packet))
    else if rr.rtype == query_type_minfo
    then unpack_minfo fuel rr packet start
    else if rr.rtype == query_type_mx
    then unpack_mx fuel rr packet start
    else if rr.rtype == query_type_txt
    then or_panic (slice packet (start + 1) end_idx) >>> with_text
    else if rr.rtype == query_type_aaaa
    then unpack_aaaa net rr packet
    else if rr.rtype == query_type_srv
    then unpack_srv fuel rr packet start
    else if rr.rtype == query_type_opt
    then unpack_opt rr packet start
    else ok (rr, packet)

-- After the name: the fields up to the data.
unfoldable pub unpack_fields : ResourceRecord → Bytes → ℕ → Result ResourceRecord
unpack_fields rr packet x = or_panic (read_uint16 packet x) >>> λ rtype.
    or_panic (read_uint16 packet (x + 2)) >>> λ rclass.
    or_panic (read_uint32 packet (x + 4)) >>> λ ttl.
    or_panic (read_uint16 packet (x + 8)) >>> λ rdlen.
    or_panic (slice packet (x + 10) (x + 10 + rdlen)) >>> λ bs. ok (record rr {
      rtype = rtype;
      rclass = rclass;
      off_ttl = x + 4;
      ttl = ttl;
      rdlen = rdlen;
      rdata = rr.rdata ++ bs;
    })

-- Where the name of a record ends.
abbrev pub owner_end : ℕ → Named → ℕ
owner_end x nm =
    if ltb 0 nm.off
    then nm.off + 1
    else if length nm.out == 0
    then x + 1
    else x + (length nm.out + 2)

-- The record, the packet and where the next record starts.
unfoldable pub unpack : Net → ℕ → ResourceRecord → Bytes → ℕ → Result (Unpacked × ℕ)
unpack net fuel rr packet start = unpack_name fuel rr.off rr.name packet start >>> λ nm.
    unpack_fields (record rr { name = nm.out; off = nm.off }) nm.packet (owner_end start nm)
    >>> λ rr1. unpack_rdata net fuel rr1 nm.packet (owner_end start nm + 10) >>> λ done.
        ok (done, owner_end start nm + 10 + rr1.rdlen)
