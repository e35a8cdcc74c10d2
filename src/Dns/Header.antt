-- ===== src/Dns/Header.antt =====
-- The header section of a message: lib/dns/sectionheader.go. `RcodeOk` and `OpCodeQuery` are 0.
pub mod RoundTrip
use share.Base.{
  ◌>>=◌, ℕ, ◌*◌, ◌/◌, ◌^◌, ◌+◌, Bool, true, false, not, ◌&&◌, List, [], ◌∷◌, ◌++◌, Option, none,
  some, ◌==◌, if◌then◌else◌, get_elem?, bit_and, bit_or, u8, Bytes,
}
use share.Bytes.Integers.{append_uint16, read_uint16}

abbrev pub header_is_response : ℕ
header_is_response = 0x80

abbrev pub header_is_aa : ℕ
header_is_aa = 0x04

abbrev pub header_is_tc : ℕ
header_is_tc = 0x02

abbrev pub header_is_rd : ℕ
header_is_rd = 0x01

abbrev pub header_is_ra : ℕ
header_is_ra = 0x80

pub record SectionHeader : Type 0 where
  pub id : ℕ
  pub is_query : Bool
  pub op : ℕ
  pub is_aa : Bool
  pub is_tc : Bool
  pub is_rd : Bool
  pub is_ra : Bool
  pub rcode : ℕ
  pub qd_count : ℕ
  pub an_count : ℕ
  pub ns_count : ℕ
  pub ar_count : ℕ

unfoldable pub reset : SectionHeader → SectionHeader
reset hdr = record {
  id = 0;
  is_query = true;
  op = 0;
  is_aa = false;
  is_tc = false;
  is_rd = true;
  is_ra = false;
  rcode = 0;
  qd_count = 0;
  an_count = 0;
  ns_count = 0;
  ar_count = 0;
}

-- `if on { b |= bit }`
abbrev pub or_if : Bool → ℕ → ℕ → ℕ
or_if true bit b = bit_or b bit
or_if false bit b = b

-- The byte `b0`, and `b1`.
unfoldable pub first_byte : Bool → ℕ → Bool → Bool → Bool → ℕ
first_byte is_query op is_rd is_aa is_tc =
    let start = if is_query then 0 else header_is_response in
    let b0 = or_if is_rd header_is_rd (bit_or start (bit_and 0x78 (u8 (op * 2 ^ 2)))) in
    if is_query then b0 else or_if is_tc header_is_tc (or_if is_aa header_is_aa b0)

unfoldable pub second_byte : Bool → Bool → ℕ → ℕ
second_byte is_query is_ra rcode =
    if is_query then 0 else bit_or (or_if is_ra header_is_ra 0) (bit_and 0x0f rcode)

unfoldable pub pack : SectionHeader → Bytes
pack hdr =
    let b0 = first_byte hdr.is_query hdr.op hdr.is_rd hdr.is_aa hdr.is_tc in
    let b1 = second_byte hdr.is_query hdr.is_ra hdr.rcode in
    let p0 = u8 (hdr.id / 2 ^ 8) ∷ u8 hdr.id ∷ b0 ∷ b1 ∷ [] in
    let p1 = append_uint16 p0 hdr.qd_count in
    let p2 = append_uint16 p1 hdr.an_count in
    let p3 = append_uint16 p2 hdr.ns_count in append_uint16 p3 hdr.ar_count

-- `b & bit == bit`
abbrev pub has : ℕ → ℕ → Bool
has b bit = bit_and b bit == bit

-- `none` is a panic: the packet is shorter than a header.
unfoldable pub unpack : SectionHeader → Bytes → Option SectionHeader
unpack hdr packet = do
  id ← read_uint16 packet 0
  b0 ← get_elem? packet 2
  b1 ← get_elem? packet 3
  qd ← read_uint16 packet 4
  an ← read_uint16 packet 6
  ns ← read_uint16 packet 8
  ar ← read_uint16 packet 10
  some (record {
    id = id;
    is_query = if has b0 header_is_response then false else hdr.is_query;
    op = bit_and b0 0x78 / 2 ^ 2;
    is_aa = if has b0 header_is_aa then true else hdr.is_aa;
    is_tc = if has b0 header_is_tc then true else hdr.is_tc;
    is_rd = has b0 header_is_rd;
    is_ra = if has b1 header_is_ra then true else hdr.is_ra;
    rcode = bit_and 0x0f b1;
    qd_count = qd;
    an_count = an;
    ns_count = ns;
    ar_count = ar;
  })
