-- ===== src/Dns/Header/RoundTrip.antt =====
-- A header and its twelve bytes.
use share.Base.{
  ℕ, ◌*◌, ◌/◌, ◌%◌, ◌^◌, ◌<◌, ◌≡◌, refl, ◌∙◌, Bool, true, false, not, ◌&&◌, ◌++◌, some, arith, ◌==◌,
  ==_iff, if◌then◌else◌, bit_and, length, u8, Bytes, IsByte,
}
use share.Base.Bits.{every, every-lt}
use share.Bytes.Integers.{pattern16, append_uint16, read_uint16}
use share.Bytes.Integers.RoundTrip.{pattern16_sum}
use share.Dns.Header.{
  header_is_response, header_is_aa, header_is_tc, header_is_rd, header_is_ra, SectionHeader, has,
  first_byte, second_byte, pack, unpack,
}

-- A test at both values, and at all four flags.
unfoldable pub both : (Bool → Bool) → Bool
both f = if f true then f false else false

both_holds : (f : Bool → Bool) → both f ≡ true → (b : Bool) → f b ≡ true
unfolding both
both_holds f e true = ground arith
both_holds f e false = ground arith

abbrev pub eqb : Bool → Bool → Bool
eqb true b = b
eqb false b = not b

pub eqb_holds : (a b : Bool) → eqb a b ≡ true → a ≡ b
eqb_holds true true e = refl
eqb_holds true false e = cc e
eqb_holds false true e = cc e
eqb_holds false false e = refl

unfoldable pub all_flags : (Bool → Bool → Bool → Bool → ℕ → Bool) → ℕ → Bool
unfolding both
all_flags f n = both (λ q. both (λ rd. both (λ aa. both (λ tc. f q rd aa tc n))))

module _ (f : Bool → Bool → Bool → Bool → ℕ → Bool) where
  pub by_flags :
      every (all_flags f) 256 ≡ true
      → (q rd aa tc : Bool) (n : ℕ) → n < 2 ^ 8
      → f q rd aa tc n ≡ true
  unfolding all_flags
  by_flags table q rd aa tc n h =
      both_holds (λ t. f q rd aa t n)
        (both_holds (λ a. both (λ t. f q rd a t n))
          (both_holds (λ d. both (λ a. both (λ t. f q d a t n)))
            (both_holds (λ p. both (λ d. both (λ a. both (λ t. f p d a t n))))
              (every-lt (all_flags f) 256 n table h) q)
            rd)
          aa)
        tc

-- What the first byte says.
module _ (q rd aa tc : Bool) (op : ℕ) (h : op < 2 ^ 8) where
  first_response : has (first_byte q op rd aa tc) header_is_response ≡ not q
  unfolding every all_flags both first_byte
  first_response = eqb_holds _ _ (
      by_flags (λ q rd aa tc op. eqb (has (first_byte q op rd aa tc) header_is_response) (not q))
        refl q rd aa tc op h)

  first_aa : has (first_byte q op rd aa tc) header_is_aa ≡ not q && aa
  unfolding every all_flags both first_byte
  first_aa = eqb_holds _ _ (
      by_flags (λ q rd aa tc op. eqb (has (first_byte q op rd aa tc) header_is_aa) (not q && aa))
        refl q rd aa tc op h)

  first_tc : has (first_byte q op rd aa tc) header_is_tc ≡ not q && tc
  unfolding every all_flags both first_byte
  first_tc = eqb_holds _ _ (
      by_flags (λ q rd aa tc op. eqb (has (first_byte q op rd aa tc) header_is_tc) (not q && tc))
        refl q rd aa tc op h)

  first_rd : has (first_byte q op rd aa tc) header_is_rd ≡ rd
  unfolding every all_flags both first_byte
  first_rd = eqb_holds _ _ (
      by_flags (λ q rd aa tc op. eqb (has (first_byte q op rd aa tc) header_is_rd) (rd)) refl q rd
        aa tc op h)

  first_op : bit_and (first_byte q op rd aa tc) 0x78 / 2 ^ 2 ≡ op % 32 / 2 * 2
  unfolding every all_flags both first_byte
  first_op = (==_iff _ _).0 (
      by_flags
        (λ q rd aa tc op. (bit_and (first_byte q op rd aa tc) 0x78 / 2 ^ 2) == (op % 32 / 2 * 2))
        refl q rd aa tc op h)

-- What the second byte says.
module _ (q ra : Bool) (rcode : ℕ) (h : rcode < 2 ^ 8) where
  second_ra : has (second_byte q ra rcode) header_is_ra ≡ (not q && ra)
  unfolding every all_flags both second_byte
  second_ra = eqb_holds _ _ (
      by_flags (λ q ra aa tc n. eqb (has (second_byte q ra n) header_is_ra) (not q && ra)) refl q ra
        q q rcode h)

  second_rcode : bit_and 0x0f (second_byte q ra rcode) ≡ (if q then 0 else rcode % 16)
  unfolding every all_flags both second_byte
  second_rcode = (==_iff _ _).0 (
      by_flags (λ q ra aa tc n. bit_and 0x0f (second_byte q ra n) == (if q then 0 else n % 16)) refl
        q ra q q rcode h)

pub record Fits (hdr : SectionHeader) : Type 0 where
  pub id_fits : hdr.id < 2 ^ 16
  pub op_fits : IsByte hdr.op
  pub rcode_fits : IsByte hdr.rcode
  pub qd_fits : hdr.qd_count < 2 ^ 16
  pub an_fits : hdr.an_count < 2 ^ 16
  pub ns_fits : hdr.ns_count < 2 ^ 16
  pub ar_fits : hdr.ar_count < 2 ^ 16

word_bytes : (v : ℕ) → v < 2 ^ 16 → pattern16 (u8 (v / 2 ^ 8)) (u8 v) ≡ v
word_bytes v h = pattern16_sum (u8 (v / 2 ^ 8)) (u8 v) (omega arith) (omega arith) ∙ omega arith

-- What reading makes of the header `old` from the bytes of `hdr`.
abbrev pub received : SectionHeader → SectionHeader → SectionHeader
received old hdr = record {
  id = hdr.id;
  is_query = if not hdr.is_query then false else old.is_query;
  op = hdr.op % 32 / 2 * 2;
  is_aa = if not hdr.is_query && hdr.is_aa then true else old.is_aa;
  is_tc = if not hdr.is_query && hdr.is_tc then true else old.is_tc;
  is_rd = hdr.is_rd;
  is_ra = if not hdr.is_query && hdr.is_ra then true else old.is_ra;
  rcode = if hdr.is_query then 0 else hdr.rcode % 16;
  qd_count = hdr.qd_count;
  an_count = hdr.an_count;
  ns_count = hdr.ns_count;
  ar_count = hdr.ar_count;
}

-- A header whose fields fit in their types, packed and read into the header `old` with any bytes
-- after it: the identifier, the counts and the recursion flag arrive, and of the op code the bits 1
-- to 4, but not the lowest; a response brings its code and sets the flags that it has, and no flag
-- of `old` but the recursion flag is ever cleared.
pub unpack-pack_header :
    (old hdr : SectionHeader) (rest : Bytes)
    → Fits hdr
    → unpack old (pack hdr ++ rest) ≡ some (received old hdr)
unfolding unpack pack append_uint16 read_uint16
unpack-pack_header old hdr rest fits = simp (
  first_response hdr.is_query hdr.is_rd hdr.is_aa hdr.is_tc hdr.op fits.op_fits,
  first_aa hdr.is_query hdr.is_rd hdr.is_aa hdr.is_tc hdr.op fits.op_fits,
  first_tc hdr.is_query hdr.is_rd hdr.is_aa hdr.is_tc hdr.op fits.op_fits,
  first_rd hdr.is_query hdr.is_rd hdr.is_aa hdr.is_tc hdr.op fits.op_fits,
  first_op hdr.is_query hdr.is_rd hdr.is_aa hdr.is_tc hdr.op fits.op_fits,
  second_ra hdr.is_query hdr.is_ra hdr.rcode fits.rcode_fits,
  second_rcode hdr.is_query hdr.is_ra hdr.rcode fits.rcode_fits,
  word_bytes hdr.id fits.id_fits,
  word_bytes hdr.qd_count fits.qd_fits,
  word_bytes hdr.an_count fits.an_fits,
  word_bytes hdr.ns_count fits.ns_fits,
  word_bytes hdr.ar_count fits.ar_fits,
)

pub length-pack : (hdr : SectionHeader) → length (pack hdr) ≡ 12
unfolding pack append_uint16
length-pack hdr = refl
