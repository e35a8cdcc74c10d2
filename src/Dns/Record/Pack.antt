-- ===== src/Dns/Record/Pack.antt =====
-- `packRR` and `packRData` of lib/dns/message.go. `none` is a panic: an index out of range, or a nil
-- pointer. The capacity of a slice that is cut with `[:n]` is taken to be its length.
use share.Base.{
  ◌>>=◌, ℕ, ◌+◌, ◌*◌, ◌^◌, true, false, [], ◌∷◌, ◌++◌, Option, none, some, ◌||◌, leb, ltb, ◌==◌,
  if◌then◌else◌, length, take, bit_or, u8, u16, u32, Bytes,
}
use share.Bytes.Integers.{append_int16, append_int32, append_uint16, append_uint32, write_uint16}
use share.Dns.Name.{Packer, pack_domain_name}
use share.Dns.Record.{
  Net, RdataOpt, ResourceRecord, query_type_a, query_type_soa, query_type_null, query_type_wks,
  query_type_hinfo, query_type_minfo, query_type_mx, query_type_txt, query_type_aaaa,
  query_type_srv, query_type_opt, names_domain, lowered, mask_opt_do, rdata_ipv4_size,
  rdata_ipv6_size,
}

-- `libbytes.AppendUint16(&msg.Packet, v)`, and appending bytes to the packet.
unfoldable pub put16 : Packer → ℕ → Packer
put16 m v = record m { packet = append_uint16 m.packet v }

unfoldable pub put32 : Packer → ℕ → Packer
put32 m v = record m { packet = append_uint32 m.packet v }

unfoldable pub put_bytes : Packer → Bytes → Packer
put_bytes m bs = record m { packet = m.packet ++ bs }

-- `msg.off += k`
unfoldable pub advance : Packer → ℕ → Packer
advance m k = record m { off = u16 (m.off + k) }

-- `bs[:n]`
abbrev pub front : Bytes → ℕ → Option Bytes
front bs n = if leb n (length bs) then some (take n bs) else none

-- `libbytes.WriteUint16(&msg.Packet, off, uint16(n))`
unfoldable pub write_rdlength : Packer → ℕ → ℕ → Option Packer
write_rdlength m off n = do p ← write_uint16 m.packet off (u16 n); some (record m { packet = p })

abbrev pub to4_bytes : Bytes → Option Bytes → Option Bytes
to4_bytes ip none = front ip rdata_ipv4_size
to4_bytes ip (some ipv4) = some ipv4

-- The bytes of the address that `packA` appends.
abbrev pub ipv4_bytes : Net → Bytes → Option Bytes → Option Bytes
ipv4_bytes net value none = front value rdata_ipv4_size
ipv4_bytes net value (some ip) = to4_bytes ip (net.to4 ip)

unfoldable pub pack_a : Net → Packer → ResourceRecord → Option Packer
pack_a net m rr = do
  let m1 = advance (put16 m rdata_ipv4_size) 2
  text ← rr.text
  bs ← ipv4_bytes net text.value (net.parse_ip text.value)
  some (advance (put_bytes m1 bs) rdata_ipv4_size)

unfoldable pub pack_text_as_domain : Packer → ResourceRecord → Option Packer
pack_text_as_domain m rr = do
  let m1 = advance (put16 m 0) 2
  text ← rr.text
  (m2, n) ← pack_domain_name m1 text.value true
  write_rdlength m2 m.off n

unfoldable pub pack_soa : Packer → ResourceRecord → Option Packer
pack_soa m rr = do
  let m1 = advance (put16 m 0) 2
  soa ← rr.soa
  (m2, n1) ← pack_domain_name m1 soa.mname true
  (m3, n2) ← pack_domain_name m2 soa.rname true
  let p1 = append_uint32 m3.packet soa.serial
  let p2 = append_int32 (append_int32 (append_int32 p1 soa.refresh) soa.retry) soa.expire
  let p3 = append_uint32 p2 soa.minimum
  m4 ← write_rdlength (record m3 { packet = p3 }) m.off (n1 + n2 + 20)
  some (advance m4 (n1 + n2 + 20))

unfoldable pub pack_wks : Packer → ResourceRecord → Option Packer
pack_wks m rr = do
  wks ← rr.wks
  let n = u16 (5 + length wks.bit_map)
  let m1 = advance (put16 m n) 2
  address ← front wks.address 4
  some (advance (put_bytes m1 (address ++ (wks.protocol ∷ wks.bit_map))) n)

unfoldable pub pack_hinfo : Packer → ResourceRecord → Option Packer
pack_hinfo m rr = do
  hinfo ← rr.hinfo
  let n = length hinfo.cpu + length hinfo.os
  let m1 = advance (put16 m (u16 n)) 2
  some (advance (put_bytes m1 (hinfo.cpu ++ hinfo.os)) (u16 n))

unfoldable pub pack_minfo : Packer → ResourceRecord → Option Packer
pack_minfo m rr = do
  let m1 = advance (put16 m 0) 2
  minfo ← rr.minfo
  (m2, n1) ← pack_domain_name m1 minfo.rmail_box true
  (m3, n2) ← pack_domain_name m2 minfo.email_box true
  write_rdlength m3 m.off (n1 + n2)

unfoldable pub pack_mx : Packer → ResourceRecord → Option Packer
pack_mx m rr = do
  let m1 = advance (put16 m 0) 2
  mx ← rr.mx
  let m2 = advance (record m1 { packet = append_int16 m1.packet mx.preference }) 2
  (m3, n) ← pack_domain_name m2 mx.exchange true
  write_rdlength m3 m.off (n + 2)

unfoldable pub pack_txt : Packer → ResourceRecord → Option Packer
pack_txt m rr = do
  text ← rr.text
  let n = u16 (length text.value)
  let m1 = advance (put16 m (u16 (n + 1))) 2
  some (advance (put_bytes m1 (u8 n ∷ text.value)) n)

unfoldable pub pack_srv : Packer → ResourceRecord → Option Packer
pack_srv m rr = do
  let m1 = advance (put16 m 0) 2
  srv ← rr.srv
  let m2 = advance (put16 m1 srv.priority) 2
  let m3 = advance (put16 m2 srv.weight) 2
  let m4 = advance (put16 m3 srv.port) 2
  (m5, n) ← pack_domain_name m4 srv.target false
  write_rdlength m5 m.off (n + 6)

-- The bytes of the address that `packAAAA` appends.
abbrev pub ipv6_bytes : Bytes → Option Bytes → Option Bytes
ipv6_bytes value none = front value rdata_ipv6_size
ipv6_bytes value (some ip) = some ip

unfoldable pub pack_aaaa : Net → Packer → ResourceRecord → Option Packer
pack_aaaa net m rr = do
  let m1 = advance (put16 m rdata_ipv6_size) 2
  text ← rr.text
  bs ← ipv6_bytes text.value (net.parse_ip text.value)
  some (advance (advance (put_bytes m1 bs) rdata_ipv6_size) rdata_ipv6_size)

-- The data of an OPT record that has some.
unfoldable pub pack_opt_data : Packer → RdataOpt → ℕ → Option Packer
pack_opt_data m opt off = do
  let m1 = put16 m opt.code
  let m2 = put16 m1 (if ltb opt.opt_length 512 then 512 else opt.opt_length)
  data_bytes ← front opt.data_bytes opt.opt_length
  let n = u16 (4 + opt.opt_length)
  m3 ← write_rdlength (put_bytes m2 data_bytes) off n
  some (advance m3 n)

unfoldable pub pack_opt : Packer → ResourceRecord → Option Packer
pack_opt m rr = do
  let m1 = advance (put16 m 0) 2
  opt ← rr.opt
  if opt.opt_length == 0 then some m1 else pack_opt_data m1 opt m.off

unfoldable pub pack_rdata : Net → Packer → ResourceRecord → Option Packer
pack_rdata net m rr =
    if rr.rtype == query_type_a
    then pack_a net m rr
    else if names_domain rr.rtype || rr.rtype == query_type_null
    then pack_text_as_domain m rr
    else if rr.rtype == query_type_soa
    then pack_soa m rr
    else if rr.rtype == query_type_wks
    then pack_wks m rr
    else if rr.rtype == query_type_hinfo
    then pack_hinfo m rr
    else if rr.rtype == query_type_minfo
    then pack_minfo m rr
    else if rr.rtype == query_type_mx
    then pack_mx m rr
    else if rr.rtype == query_type_txt
    then pack_txt m rr
    else if rr.rtype == query_type_srv
    then pack_srv m rr
    else if rr.rtype == query_type_aaaa
    then pack_aaaa net m rr
    else if rr.rtype == query_type_opt
    then pack_opt m rr
    else some m

-- The TTL of an OPT record: the extended code, the version and the flag DO.
unfoldable pub opt_ttl : RdataOpt → ℕ
opt_ttl opt =
    let t = bit_or (u32 (opt.ext_rcode * 2 ^ 24)) (u32 (opt.version * 2 ^ 16)) in
    if opt.dnssec_ok then bit_or t mask_opt_do else t

-- The name of the record.
unfoldable pub pack_rr_name : Packer → ResourceRecord → Option Packer
pack_rr_name m rr =
    if rr.rtype == query_type_opt
    then some (put_bytes m (0 ∷ []))
    else (do (m1, n) ← pack_domain_name m rr.name true; some m1)

unfoldable pub pack_rr_ttl : ResourceRecord → Option ℕ
pack_rr_ttl rr =
    if rr.rtype == query_type_opt then (do opt ← rr.opt; some (opt_ttl opt)) else some rr.ttl

-- `packRR` changes `rr.TTL` and `rr.offTTL` too, and makes the names of the record small.
unfoldable pub pack_rr : Net → Packer → ResourceRecord → Option (Packer × ResourceRecord)
pack_rr net m rr = do
  m1 ← pack_rr_name m rr
  let m2 = advance (put16 (put16 m1 rr.rtype) rr.rclass) 4
  ttl ← pack_rr_ttl rr
  let m3 = advance (put32 m2 ttl) 4
  let rr1 = record rr { ttl = ttl; off_ttl = m2.off }
  m4 ← pack_rdata net m3 rr1
  some (m4, lowered rr1)
