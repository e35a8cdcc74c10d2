-- ===== src/Dns/Name/Wrote.antt =====
-- `packDomainName`, with compression and without.
use share.Base.{
  ℕ, ◌+◌, ◌^◌, ◌≤◌, ◌<◌, ◌≡◌, inl, inr, refl, sym, ap, ◌∙◌, subst, Bool, true, false, List, [], ◌∷◌,
  ◌++◌, none, some, arith, if◌then◌else◌, Bool-cases, length, length-append, Bytes, All,
}
use share.Ascii.{to_lower}
use share.Dns.Name.{
  Packer, bytes_eq, lookup_off, compress, open_label, pack_loop, or_pack, pack_domain_name,
}
use share.Dns.Name.Decode.{IsLabel, Decodes, dotted}
use share.Dns.Name.Labels.{join, join_cons, join_two, to_lower-join, bytes_eq_sound}
use share.Dns.Name.Pack.{
  view, Below, Entry, Entry-append, ValidBelow, Packed, pointer_bytes, pointer-Decodes,
}
use share.Dns.Name.Whole.{ended, pack_last}
use share.Dns.Name.Labelled.{
  pointed_to, compress_cases, pack_found, pack_missed, after_label-Below, after_label_off,
}

pub cons_not_nil : (xs : Bytes) (b : ℕ) (bs : Bytes) → xs ≡ b ∷ bs → bytes_eq xs [] ≡ false
cons_not_nil [] b bs e = cc e
cons_not_nil (x ∷ xs) b bs e = refl

lookup_skipped :
    (name key : Bytes) (k : ℕ) (map : List (Bytes × ℕ)) (o : ℕ)
    → length key < length name
    → lookup_off key ((name, k) ∷ map) ≡ some o
    → lookup_off key map ≡ some o
lookup_skipped name key k map o h e = elim (Bool-cases (bytes_eq name key)) [
  | inl on ↦ absurd (omega (arith, ap length (bytes_eq_sound name key on)))
  | inr off ↦ sym (ap (λ b. if b then some k else lookup_off key map) off) ∙ e
]

-- How a name that stands nowhere yet is written.
abbrev Packs : (ℕ → Bool) → Bool → Packer → Bytes → ℕ → Type 0
Packs hidden c m name n =
    (m' : Packer) × (w : Bytes) × (pack_loop c false 0 0 n (open_label m name) name
      ≡ some (m', n + length w))
    × Packed hidden m m' name w

-- The first label of two or more.
pack_first :
    (hidden : ℕ → Bool) (c : Bool) (l rest name : Bytes) (m : Packer) (n : ℕ)
    → IsLabel l
    → m.off ≡ length m.packet
    → Below hidden (length m.packet)
    → name ≡ l ++ (b'.' ∷ rest)
    → name ≡ dotted l rest
    → bytes_eq rest [] ≡ false
    → length m.packet + length name + 2 < 2 ^ 14
    → ValidBelow hidden (length name) m
    → ((k : ℕ) → Packs hidden c (ended m name l) rest k)
    → Packs hidden c m name n
pack_first hidden false l rest name m n good at low split named more fits valid written =
    pack_missed hidden l rest m good at low false name n named split fits refl more written
pack_first hidden true l rest name m n good at low split named more fits valid written =
    elim (compress_cases (ended m name l) rest) [
      | inl missed ↦
          pack_missed hidden l rest m good at low true name n named split fits missed more written
      | inr (o, e, found) ↦
          pack_found hidden l rest m good at low name n o named split fits valid e found
    ]

-- A name that is written label by label, as far as its rest does not stand somewhere already.
pack_labels :
    (hidden : ℕ → Bool) (c : Bool) (l : Bytes) (ls : List Bytes) (m : Packer) (n : ℕ)
    → IsLabel l
    → All IsLabel ls
    → m.off ≡ length m.packet
    → Below hidden (length m.packet)
    → length m.packet + length (join (l ∷ ls)) + 2 < 2 ^ 14
    → ValidBelow hidden (length (join (l ∷ ls))) m
    → Packs hidden c m (join (l ∷ ls)) n
pack_labels hidden c l [] m n good more at low fits valid =
    pack_last hidden c l m n good at low fits
pack_labels hidden c l (l2 ∷ ls) m n good (good2, more) at low fits valid =
    let rest = join (l2 ∷ ls) in
    let name = join (l ∷ (l2 ∷ ls)) in
    let split = join_two l l2 ls good2 in
    let shorter : length l + length rest + 1 ≡ length name =
      omega (arith, ap length split, length-append l (b'.' ∷ rest)) in
    let (b, bs, cons) = join_cons l2 ls good2 in
    let m1 = ended m name l in
    pack_first hidden c l rest name m n good at low split refl (cons_not_nil rest b bs cons) fits
      valid
      (λ k.
        pack_labels hidden c l2 ls m1 k good2 more
          (after_label_off hidden l rest m good at low name)
          (after_label-Below hidden l rest m good at low name)
          (omega (arith, length-append m.packet (length l ∷ l)))
          (λ key o e h. Entry-append hidden m.packet (length l ∷ l) key o (
            valid key o (lookup_skipped name key m.off m.dname_off o (omega arith) e)
              (omega arith))))

-- Every kept place is one where its name stands.
abbrev pub AllValid : (ℕ → Bool) → Packer → Type 0
AllValid hidden m =
    (key : Bytes) (o : ℕ) → lookup_off key m.dname_off ≡ some o → Entry hidden m.packet key o

-- A name after `packDomainName`: `w` is written at the end of the packet, where the name then
-- stands, `off` is the length of the packet, and the kept places are good.
pub record Wrote (hidden : ℕ → Bool) (m m' : Packer) (name w : Bytes) : Type 0 where
  pub grown : m'.packet ≡ m.packet ++ w
  pub at_end : m'.off ≡ length m'.packet
  pub decodes : Decodes (view hidden m'.packet) (length m.packet) name (length m'.packet)
  pub valid : AllValid hidden m'
  pub short : length w ≤ length name + 2

Packed-Wrote :
    (hidden : ℕ → Bool) (m m' : Packer) (name w : Bytes)
    → AllValid hidden m
    → Packed hidden m m' name w
    → Wrote hidden m m' name w
Packed-Wrote hidden m m' name w valid packed = record {
  grown = packed.grown;
  at_end = packed.at_end;
  decodes = packed.decodes;
  valid = λ key o e. elim (packed.entries key o e) [
    | inl old ↦
        subst (λ p. Entry hidden p key o) (sym packed.grown)
          (Entry-append hidden m.packet w key o (valid key o old))
    | inr new ↦ new
  ];
  short = packed.short;
}

pointed-Wrote :
    (hidden : ℕ → Bool) (m : Packer) (name : Bytes) (o : ℕ)
    → m.off ≡ length m.packet
    → Below hidden (length m.packet)
    → length m.packet + length name + 2 < 2 ^ 14
    → AllValid hidden m
    → Entry hidden m.packet name o
    → Wrote hidden m (pointed_to m o) name (pointer_bytes o)
pointed-Wrote hidden m name o at low fits valid entry =
    let total : length (m.packet ++ pointer_bytes o) ≡ length m.packet + 2 =
      length-append m.packet (pointer_bytes o) in
    record {
      grown = refl;
      at_end = omega arith;
      decodes =
          subst (Decodes (view hidden (m.packet ++ pointer_bytes o)) (length m.packet) name)
            (sym total) (pointer-Decodes hidden m.packet name o low entry);
      valid = λ key o' e. Entry-append hidden m.packet (pointer_bytes o) key o' (valid key o' e);
      short = omega arith;
    }

-- The result of `packDomainName` where nothing is to be made small.
pub pack_name_of :
    (m m' : Packer) (name : Bytes) (c : Bool) (n : ℕ)
    → to_lower name ≡ name
    → or_pack
        (if c then compress m name else none)
        (pack_loop c (bytes_eq name []) 0 0 0 (open_label m name) name)
      ≡ some (m', n)
    → pack_domain_name m name c ≡ some (m', n)
unfolding pack_domain_name
pack_name_of m m' name c n small e = rw small e

-- A name by whether it stands in the packet already.
pack_name_cases :
    (hidden : ℕ → Bool) (m m1 : Packer) (c : Bool) (name w : Bytes)
    → to_lower name ≡ name
    → pack_loop c (bytes_eq name []) 0 0 0 (open_label m name) name ≡ some (m1, length w)
    → m.off ≡ length m.packet
    → Below hidden (length m.packet)
    → length m.packet + length name + 2 < 2 ^ 14
    → AllValid hidden m
    → Wrote hidden m m1 name w
    → (m' : Packer) × (v : Bytes) × (pack_domain_name m name c ≡ some (m', length v))
      × Wrote hidden m m' name v
pack_name_cases hidden m m1 false name w small run at low fits valid wrote =
    (m1, w, pack_name_of m m1 name false (length w) small run, wrote)
pack_name_cases hidden m m1 true name w small run at low fits valid wrote =
    elim (compress_cases m name) [
      | inl missed ↦ (
        m1,
        w,
        pack_name_of m m1 name true (length w) small (
            ap (λ p. or_pack p (pack_loop true (bytes_eq name []) 0 0 0 (open_label m name) name))
              missed
            ∙ run),
        wrote,
      )
      | inr (o, e, found) ↦ (
        pointed_to m o,
        pointer_bytes o,
        pack_name_of m (pointed_to m o) name true 2 small (
            ap (λ p. or_pack p (pack_loop true (bytes_eq name []) 0 0 0 (open_label m name) name))
              found),
        pointed-Wrote hidden m name o at low fits valid (valid name o e),
      )
    ]

-- `packDomainName` on a name of one or more labels, each of 1 to 63 small bytes without a dot or a
-- backslash, with compression or without, where `off` is the length of the packet, the packet with
-- the name is shorter than 2^14 and every kept place is one where its name stands: it does not panic,
-- returns the number of bytes it writes at the end of the packet, the name then stands there, `off`
-- is again the length of the packet, and every kept place is again one where its name stands.
pub pack_domain_name-Wrote :
    (hidden : ℕ → Bool) (m : Packer) (c : Bool) (l : Bytes) (ls : List Bytes)
    → IsLabel l
    → All IsLabel ls
    → m.off ≡ length m.packet
    → Below hidden (length m.packet)
    → length m.packet + length (join (l ∷ ls)) + 2 < 2 ^ 14
    → AllValid hidden m
    → (m' : Packer) × (w : Bytes) × (pack_domain_name m (join (l ∷ ls)) c ≡ some (m', length w))
      × Wrote hidden m m' (join (l ∷ ls)) w
pack_domain_name-Wrote hidden m c l ls good more at low fits valid =
    let name = join (l ∷ ls) in
    let (b, bs, cons) = join_cons l ls good in
    let small = to_lower-join (l ∷ ls) (good, more) in
    let (m', w, run, packed) =
      pack_labels hidden c l ls m 0 good more at low fits (λ key o e h. valid key o e) in
    let written : pack_loop c (bytes_eq name []) 0 0 0 (open_label m name) name
        ≡ some (m', length w) =
      ap (λ b. pack_loop c b 0 0 0 (open_label m name) name) (cons_not_nil name b bs cons)
      ∙ run
      ∙ ap (λ (k : ℕ). some (m', k)) (omega arith) in
    pack_name_cases hidden m m' c name w small written at low fits valid
      (Packed-Wrote hidden m m' name w valid packed)
