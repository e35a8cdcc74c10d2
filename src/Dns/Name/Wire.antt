-- ===== src/Dns/Name/Wire.antt =====
-- `packDomainName` without compression writes the labels one by one.
use share.Base.{
  ℕ, ◌+◌, ◌^◌, ◌<◌, ◌≡◌, refl, sym, ap, ◌∙◌, false, List, [], ◌∷◌, ◌++◌, append-nil, append_assoc,
  some, arith, length, length-append, u8, Bytes, All,
}
use share.Dns.Name.{Packer, open_label, pack_loop, pack_domain_name}
use share.Dns.Name.Decode.{IsLabel}
use share.Dns.Name.Labels.{join, join_cons, join_two, to_lower-join}
use share.Dns.Name.Pack.{dot_missed}
use share.Dns.Name.Whole.{labelled, ended, plain_opened, end_labelled, end_named}
use share.Dns.Name.Wrote.{cons_not_nil, pack_name_of}

-- The labels of a name as they are written.
abbrev pub wire : List Bytes → Bytes
wire [] = 0 ∷ []
wire (l ∷ ls) = length l ∷ (l ++ wire ls)

-- The packer has `w` at its end.
abbrev pub Ends : Packer → Packer → Bytes → Type 0
Ends m m' w = (m'.packet ≡ m.packet ++ w) × (m'.off ≡ length m'.packet)

pack_loop-wire :
    (l : Bytes) (ls : List Bytes) (m : Packer) (n : ℕ)
    → IsLabel l
    → All IsLabel ls
    → m.off ≡ length m.packet
    → length m.packet + length (wire (l ∷ ls)) < 2 ^ 16
    → (m' : Packer) × (pack_loop false false 0 0 n (open_label m (join (l ∷ ls))) (join (l ∷ ls))
        ≡ some (m', n + length (wire (l ∷ ls))))
      × Ends m m' (wire (l ∷ ls))
unfolding pack_loop
pack_loop-wire l [] m n good more at fits =
    let long : length l + 2 ≡ length (wire (l ∷ [])) = omega (arith, length-append l (0 ∷ [])) in
    let m' : Packer = record (ended m l l) {
      packet = (m.packet ++ (length l ∷ l)) ++ (0 ∷ []);
      off = length m.packet + length l + 2;
    } in
    let grown : m'.packet ≡ m.packet ++ wire (l ∷ []) =
      append_assoc m.packet (length l ∷ l) (0 ∷ []) in
    (
      m',
      ap (pack_loop false false 0 0 n (open_label m l)) (sym (append-nil l))
          ∙ plain_opened m l l good false n []
          ∙ end_named m l l good n at (omega arith)
          ∙ ap (λ (k : ℕ). some (m', n + k)) long,
      (grown, omega (arith, ap length grown, length-append m.packet (wire (l ∷ [])))),
    )
pack_loop-wire l (l2 ∷ ls) m n good (good2, more) at fits =
    let rest = join (l2 ∷ ls) in
    let name = join (l ∷ (l2 ∷ ls)) in
    let m1 = ended m name l in
    let (b, bs, cons) = join_cons l2 ls good2 in
    let long : length (wire (l ∷ (l2 ∷ ls))) ≡ 1 + length l + length (wire (l2 ∷ ls)) =
      omega (arith, length-append l (wire (l2 ∷ ls))) in
    let before : length m1.packet ≡ length m.packet + 1 + length l =
      omega (arith, length-append m.packet (length l ∷ l)) in
    let (m', run, (grown, at')) =
      pack_loop-wire l2 ls m1 (n + u8 (length l + 1)) good2 more (omega arith) (omega arith) in
    (
      m',
      ap (pack_loop false false 0 0 n (open_label m name)) (join_two l l2 ls good2)
          ∙ plain_opened m name l good false n (b'.' ∷ rest)
          ∙ dot_missed false false (length l) n (labelled m name l) m1 rest good.nonempty
              (end_labelled m name l good at (omega arith)) refl (cons_not_nil rest b bs cons)
          ∙ run
          ∙ ap (λ (k : ℕ). some (m', k)) (omega (arith, good.short)),
      (grown ∙ append_assoc m.packet (length l ∷ l) (wire (l2 ∷ ls)), at'),
    )

-- `packDomainName` without compression, on a name of labels of 1 to 63 small bytes without a dot or a
-- backslash, where `off` is the length of the packet and everything fits: it appends the labels, each
-- after its length, and a zero, and returns how many bytes that are.
pub pack_domain_name-wire :
    (l : Bytes) (ls : List Bytes) (m : Packer)
    → IsLabel l
    → All IsLabel ls
    → m.off ≡ length m.packet
    → length m.packet + length (wire (l ∷ ls)) < 2 ^ 16
    → (m' : Packer) × (pack_domain_name m (join (l ∷ ls)) false ≡ some (m', length (wire (l ∷ ls))))
      × Ends m m' (wire (l ∷ ls))
pack_domain_name-wire l ls m good more at fits =
    let name = join (l ∷ ls) in
    let (b, bs, cons) = join_cons l ls good in
    let (m', run, ends) = pack_loop-wire l ls m 0 good more at fits in
    (
      m',
      pack_name_of m m' name false (length (wire (l ∷ ls))) (to_lower-join (l ∷ ls) (good, more)) (
          ap (λ b. pack_loop false b 0 0 0 (open_label m name) name) (cons_not_nil name b bs cons)
          ∙ run
          ∙ ap (λ (k : ℕ). some (m', k)) (omega arith)),
      ends,
    )
