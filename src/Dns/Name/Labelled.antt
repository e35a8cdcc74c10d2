-- ===== src/Dns/Name/Labelled.antt =====
-- `packDomainName` on names of any number of labels.
use share.Base.{
  ℕ, ◌+◌, ◌^◌, ◌≤◌, ◌<◌, ◌≡◌, ◌⊎◌, inl, inr, sym, ap, ◌∙◌, subst, Bool, true, false, [], ◌∷◌, ◌++◌,
  append_assoc, none, some, arith, if◌then◌else◌, Bool-cases, Option-cases, length, length-append,
  u8, u16, Bytes,
}
use share.Dns.Name.{Packer, bytes_eq, lookup_off, compress, open_label, pack_loop}
use share.Dns.Name.Decode.{IsLabel, Decodes, dotted}
use share.Dns.Name.Labels.{bytes_eq_sound}
use share.Dns.Name.Pack.{
  dot_found, dot_missed, view, Below, Entry, Entry-append, ValidBelow, Packed, label-Decodes,
  pointer_bytes, pointer-Decodes,
}
use share.Dns.Name.Whole.{labelled, ended, plain_opened, end_labelled, new-Entry}

-- The packer after a pointer.
abbrev pub pointed_to : Packer → ℕ → Packer
pointed_to m o = record m { packet = m.packet ++ pointer_bytes o; off = u16 (m.off + 2) }

pub compress_cases :
    (m : Packer) (key : Bytes)
    → (compress m key ≡ none)
      ⊎ ((o : ℕ) × (lookup_off key m.dname_off ≡ some o) × (compress m key ≡ some (pointed_to m o)))
unfolding compress
compress_cases m key = elim (Option-cases (lookup_off key m.dname_off)) [
  | inl e ↦ inl (rw e)
  | inr (o, e) ↦ inr (o, e, rw e)
]

-- A longer name is another name.
lookup_shorter :
    (m : Packer) (name key : Bytes) (o : ℕ)
    → length key < length name
    → lookup_off key ((name, m.off) ∷ m.dname_off) ≡ some o
    → lookup_off key m.dname_off ≡ some o
lookup_shorter m name key o h e = elim (Bool-cases (bytes_eq name key)) [
  | inl on ↦ absurd (omega (arith, ap length (bytes_eq_sound name key on)))
  | inr off ↦ sym (ap (λ b. if b then some m.off else lookup_off key m.dname_off) off) ∙ e
]

module _ (hidden : ℕ → Bool) (l rest : Bytes) (m : Packer) (good : IsLabel l)
    (at : m.off ≡ length m.packet) (low : Below hidden (length m.packet)) where
  -- `w'` is what is written after the label.
  label-Packed :
      (name : Bytes) (m' : Packer) (w' : Bytes)
      → name ≡ dotted l rest
      → length m.packet < 2 ^ 14
      → length l + length rest + 1 ≡ length name
      → m'.packet ≡ m.packet ++ (length l ∷ (l ++ w'))
      → m'.off ≡ length m'.packet
      → Decodes (view hidden m'.packet) (length m.packet + 1 + length l) rest (length m'.packet)
      → ((key : Bytes) (o : ℕ)
          → lookup_off key m'.dname_off ≡ some o
          → (lookup_off key ((name, m.off) ∷ m.dname_off) ≡ some o) ⊎ Entry hidden m'.packet key o)
      → length w' ≤ length rest + 2
      → Packed hidden m m' name (length l ∷ (l ++ w'))
  label-Packed name m' w' named small size grown at_end inner entries short =
      let decodes : Decodes (view hidden m'.packet) (length m.packet) name (length m'.packet) =
        subst (λ t. Decodes (view hidden m'.packet) (length m.packet) t (length m'.packet))
          (sym named)
          (subst (λ p. Decodes (view hidden p) (length m.packet) (dotted l rest) (length m'.packet))
            (sym grown)
            (label-Decodes hidden m.packet l w' rest (length m'.packet) good low (
              subst
                (λ p.
                  Decodes (view hidden p) (length m.packet + 1 + length l) rest (length m'.packet))
                grown inner))) in
      record {
        grown = grown;
        at_end = at_end;
        decodes = decodes;
        entries = λ key o e. elim (entries key o e) [
          | inl old ↦
              new-Entry hidden m m'.packet name key o
                (subst (Entry hidden m'.packet name) (sym at) (length m'.packet, decodes, small))
                old
          | inr new ↦ inr new
        ];
        short = omega (arith, length-append l w');
      }

  -- The facts about the packer after the label.
  pub after_label-Below : (name : Bytes) → Below hidden (length (ended m name l).packet)
  after_label-Below name x h = low x (omega (arith, length-append m.packet (length l ∷ l)))

  pub after_label_off : (name : Bytes) → (ended m name l).off ≡ length (ended m name l).packet
  after_label_off name = omega (arith, length-append m.packet (length l ∷ l))

  after_label-ValidBelow :
      (name : Bytes)
      → length rest < length name
      → ValidBelow hidden (length name) m
      → ValidBelow hidden (length name) (record (ended m name l) { dname_off = m.dname_off })
  after_label-ValidBelow name h valid key o e short =
      Entry-append hidden m.packet (length l ∷ l) key o (valid key o e short)

  -- The rest of the name stands somewhere already.
  pub pack_found :
      (name : Bytes) (n o : ℕ)
      → name ≡ dotted l rest
      → name ≡ l ++ (b'.' ∷ rest)
      → length m.packet + length name + 2 < 2 ^ 14
      → ValidBelow hidden (length name) m
      → lookup_off rest (ended m name l).dname_off ≡ some o
      → compress (ended m name l) rest ≡ some (pointed_to (ended m name l) o)
      → (m' : Packer) × (w : Bytes) × (pack_loop true false 0 0 n (open_label m name) name
          ≡ some (m', n + length w))
        × Packed hidden m m' name w
  pack_found name n o named split fits valid e found =
      let m1 = ended m name l in
      let size : length l + length rest + 1 ≡ length name =
        omega (arith, ap length split, length-append l (b'.' ∷ rest)) in
      let old = lookup_shorter m name rest o (omega arith) e in
      let entry =
        Entry-append hidden m.packet (length l ∷ l) rest o (valid rest o old (omega arith)) in
      let m' = pointed_to m1 o in
      let w = length l ∷ (l ++ pointer_bytes o) in
      let grown : m'.packet ≡ m.packet ++ w =
        append_assoc m.packet (length l ∷ l) (pointer_bytes o) in
      let long : length w ≡ length l + 3 = omega (arith, length-append l (pointer_bytes o)) in
      let total : length m'.packet ≡ length m1.packet + 2 =
        omega (arith, length-append m1.packet (pointer_bytes o)) in
      let before : length m1.packet ≡ length m.packet + 1 + length l =
        omega (arith, length-append m.packet (length l ∷ l)) in
      let inner : Decodes (view hidden m'.packet) (length m.packet + 1 + length l) rest
          (length m'.packet) =
        subst (λ x. Decodes (view hidden m'.packet) x rest (length m'.packet)) before
          (subst (Decodes (view hidden m'.packet) (length m1.packet) rest) (sym total)
            (pointer-Decodes hidden m1.packet rest o (after_label-Below name) entry)) in
      (
        m',
        w,
        ap (pack_loop true false 0 0 n (open_label m name)) split
            ∙ plain_opened m name l good true n (b'.' ∷ rest)
            ∙ dot_found true false (length l) n (labelled m name l) m1 rest good.nonempty
                (end_labelled m name l good at (omega arith)) m' found
            ∙ ap (λ (k : ℕ). some (m', k)) (omega (arith, good.short)),
        label-Packed name m' (pointer_bytes o) named (omega arith) size grown (omega arith) inner
            (λ key o' e'. inl e') (omega arith),
      )

  -- The rest of the name is written out.
  pub pack_missed :
      (c : Bool) (name : Bytes) (n : ℕ)
      → name ≡ dotted l rest
      → name ≡ l ++ (b'.' ∷ rest)
      → length m.packet + length name + 2 < 2 ^ 14
      → (if c then compress (ended m name l) rest else none) ≡ none
      → bytes_eq rest [] ≡ false
      → ((k : ℕ)
          → (m' : Packer) × (w : Bytes) × (pack_loop c false 0 0 k
                (open_label (ended m name l) rest)
                rest
              ≡ some (m', k + length w))
            × Packed hidden (ended m name l) m' rest w)
      → (m' : Packer) × (w : Bytes) × (pack_loop c false 0 0 n (open_label m name) name
          ≡ some (m', n + length w))
        × Packed hidden m m' name w
  pack_missed c name n named split fits missed more written =
      let m1 = ended m name l in
      let size : length l + length rest + 1 ≡ length name =
        omega (arith, ap length split, length-append l (b'.' ∷ rest)) in
      let (m', w', run, packed) = written (n + u8 (length l + 1)) in
      let w = length l ∷ (l ++ w') in
      let grown : m'.packet ≡ m.packet ++ w =
        packed.grown ∙ append_assoc m.packet (length l ∷ l) w' in
      let before : length m1.packet ≡ length m.packet + 1 + length l =
        omega (arith, length-append m.packet (length l ∷ l)) in
      (
        m',
        w,
        ap (pack_loop c false 0 0 n (open_label m name)) split
            ∙ plain_opened m name l good c n (b'.' ∷ rest)
            ∙ dot_missed c false (length l) n (labelled m name l) m1 rest good.nonempty
                (end_labelled m name l good at (omega arith)) missed more
            ∙ run
            ∙ ap (λ (k : ℕ). some (m', k)) (omega (arith, good.short, length-append l w')),
        label-Packed name m' w' named (omega arith) size grown packed.at_end
            (subst (λ x. Decodes (view hidden m'.packet) x rest (length m'.packet)) before
              packed.decodes)
            packed.entries packed.short,
      )
