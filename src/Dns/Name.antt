-- ===== src/Dns/Name.antt =====
-- Domain names on the wire: `packDomainName` and `compress` of lib/dns/message.go, and
-- `unpackDomainName` of lib/dns/resourcerecord.go.
pub mod Decode
pub mod Read
pub mod Labels
pub mod Pack
pub mod Whole
pub mod Labelled
pub mod Wrote
pub mod RoundTrip
pub mod Wire
use share.Base.{
  ◌>>=◌, ℕ, zero, suc, ◌+◌, ◌-◌, ◌*◌, ◌/◌, ◌%◌, ◌^◌, Bool, true, false, ◌&&◌, List, [], ◌∷◌, ◌++◌,
  Option, none, some, ltb, leb, ◌==◌, if◌then◌else◌, get_elem?, set, length, bit_and, bit_or, u8,
  u16, Bytes,
}
use share.Ascii.{is_digit, to_lower}
use share.Bytes.Integers.{write_byte}
use share.Dns.Result.{label_size_limit, Result, ok, fail, no_fuel, ◌>>>◌, or_panic, or_fail}

abbrev pub mask_pointer : ℕ
mask_pointer = 0xc0

abbrev pub mask_offset : ℕ
mask_offset = 0x3f

abbrev pub max_label_size : ℕ
max_label_size = 63

-- The fields of a `Message` that packing changes. `msg.dname` is the key of the next look-up, and is
-- an argument here.
pub record Packer : Type 0 where
  pub packet : Bytes
  pub off : ℕ
  pub dname_off : List (Bytes × ℕ)

abbrev pub bytes_eq : Bytes → Bytes → Bool
bytes_eq [] [] = true
bytes_eq [] (y ∷ ys) = false
bytes_eq (x ∷ xs) [] = false
bytes_eq (x ∷ xs) (y ∷ ys) = x == y && bytes_eq xs ys

-- A map is a list of its writes, the last one first.
abbrev pub lookup_off : Bytes → List (Bytes × ℕ) → Option ℕ
lookup_off name [] = none
lookup_off name ((k, o) ∷ m) = if bytes_eq k name then some o else lookup_off name m

-- `none` is the result false.
unfoldable pub compress : Packer → Bytes → Option Packer
compress m dname = do
  off ← lookup_off dname m.dname_off
  some (record m {
    packet = m.packet ++ (bit_or mask_pointer (u8 (off / 2 ^ 8)) ∷ u8 off ∷ []);
    off = u16 (m.off + 2);
  })

-- `msg.Packet[msg.off] = count`, and on past the label. `none` is a panic.
unfoldable pub end_label : Packer → ℕ → Option Packer
end_label m count = do
  p ← write_byte m.packet m.off count
  some (record m { packet = p; off = u16 (m.off + u8 (count + 1)) })

-- The byte for the length of the next label, and where the name from there on stands.
unfoldable pub open_label : Packer → Bytes → Packer
open_label m dname = record m {
  packet = m.packet ++ (0 ∷ []);
  dname_off = (dname, m.off) ∷ m.dname_off;
}

abbrev pub push : Packer → ℕ → Packer
push m c = record m { packet = m.packet ++ (c ∷ []) }

-- `strconv.Atoi` of three bytes, the first of which is a digit; it is 0 on an error.
abbrev pub three_digits : ℕ → ℕ → ℕ → ℕ
three_digits a b c =
    if is_digit b && is_digit c then (a - b'0') * 100 + (b - b'0') * 10 + (c - b'0') else 0

abbrev pub lower_letter : ℕ → ℕ
lower_letter c = if leb b'A' c && leb c b'Z' then c + 32 else c

-- The byte that an escape stands for, and how many bytes after the backslash it takes. `none` where
-- the name ends in it.
unfoldable pub escape : Bytes → Option (ℕ × ℕ)
escape [] = none
escape (c ∷ d ∷ e ∷ rest) =
    if is_digit c then some (lower_letter (u8 (three_digits c d e)), 3) else some (c, 1)
escape (c ∷ rest) = if is_digit c then none else some (c, 1)

-- After the last byte of the name.
unfoldable pub end_name : Bool → ℕ → ℕ → Packer → Option (Packer × ℕ)
end_name is_empty count n m = do
  m1 ← (if ltb 0 count then end_label m count else some m)
  let n1 = if ltb 0 count then n + u8 (count + 1) else n
  some (
      if is_empty
      then (m1, n1)
      else (record m1 { packet = m1.packet ++ (0 ∷ []); off = u16 (m1.off + 1) }, n1 + 1))

-- What follows a label by whether the rest of the name stood somewhere already.
abbrev pub go_on : Option Packer → Packer → Bytes → ℕ → Bool × Packer × ℕ
go_on (some m2) m1 rest n = (true, m2, n + 2)
go_on none m1 rest n = (bytes_eq rest [], open_label m1 rest, n)

-- At the end of a label with `rest` to come: true if the name is done with it.
unfoldable pub next_label : Bool → ℕ → ℕ → Packer → Bytes → Option (Bool × Packer × ℕ)
next_label do_compress count n m rest = do
  m1 ← end_label m count
  some (go_on (if do_compress then compress m1 rest else none) m1 rest (n + u8 (count + 1)))

-- The loop of `packDomainName`. `skip` counts the bytes of an escape that are still to be passed
-- over, `count` is the length of the label so far. `none` is a panic.
unfoldable pub pack_loop : Bool → Bool → ℕ → ℕ → ℕ → Packer → Bytes → Option (Packer × ℕ)
pack_loop do_compress is_empty skip count n m [] = end_name is_empty count n m
pack_loop do_compress is_empty skip count n m (c ∷ rest) =
    let passed = pack_loop do_compress is_empty (skip - 1) count n m rest in
    let dots = pack_loop do_compress is_empty 0 count n m rest in
    let plain = pack_loop do_compress is_empty 0 (u8 (count + 1)) n (push m c) rest in
    let escaped : Option (Packer × ℕ) = elim (escape rest) [
      | none ↦ some (m, n)
      | some (b, k) ↦ pack_loop do_compress is_empty k (u8 (count + 1)) n (push m b) rest
    ] in
    let ended : Option (Packer × ℕ) = (do
      (done, m1, n1) ← next_label do_compress count n m rest
      elim done [ true ↦ some (m1, n1) | false ↦ pack_loop do_compress is_empty 0 0 n1 m1 rest ]) in
    if ltb 0 skip
    then passed
    else if c == b'\\'
    then escaped
    else if c == b'.'
    then (if count == 0 then dots else ended)
    else plain

abbrev pub or_pack : Option Packer → Option (Packer × ℕ) → Option (Packer × ℕ)
or_pack (some m) packed = some (m, 2)
or_pack none packed = packed

-- `ascii.ToLower` works in place on the caller's slice: the callers `pack_question` and `pack_rr` give
-- their names back small.
unfoldable pub pack_domain_name : Packer → Bytes → Bool → Option (Packer × ℕ)
unfolding compress open_label pack_loop
pack_domain_name m name do_compress =
    let dname = to_lower name in
    or_pack (if do_compress then compress m dname else none)
      (pack_loop do_compress (bytes_eq dname []) 0 0 0 (open_label m dname) dname)

-- A name that was read, the packet with its capitals made small, and `rr.off`.
pub record Named : Type 0 where
  pub out : Bytes
  pub packet : Bytes
  pub off : ℕ

-- The loop over the bytes of a label.
unfoldable pub read_label : ℕ → Bytes → Bytes → ℕ → Option (Bytes × Bytes)
read_label zero out packet x = some (out, packet)
read_label (suc k) out packet x = do
  c ← get_elem? packet x
  read_label k (out ++ (lower_letter c ∷ [])) (set packet x (lower_letter c)) (x + 1)

abbrev pub with_dot : Bytes → Bytes
with_dot [] = []
with_dot (b ∷ bs) = (b ∷ bs) ++ (b'.' ∷ [])

unfoldable pub unpack_name : ℕ → ℕ → Bytes → Bytes → ℕ → Result Named
unfolding read_label
unpack_name zero off out packet x = no_fuel
unpack_name (suc fuel) off out packet x = or_fail (get_elem? packet x) label_size_limit >>> λ count.
    let pointed = or_panic (get_elem? packet (x + 1)) >>> λ low.
    unpack_name fuel (if off == 0 then x + 1 else off) out packet
      (bit_or (bit_and count mask_offset * 2 ^ 8) low) in
    let labelled = or_panic (read_label count (with_dot out) packet (x + 1)) >>> λ r.
    unpack_name fuel off r.0 r.1 (x + 1 + count) in
    if count == 0
    then ok (record { out = out; packet = packet; off = off })
    else if bit_and count mask_pointer == mask_pointer
    then pointed
    else if ltb max_label_size count
    then fail label_size_limit
    else labelled
