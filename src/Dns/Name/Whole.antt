-- ===== src/Dns/Name/Whole.antt =====
-- `packDomainName` on a whole name, by its labels.
use share.Base.{
  ℕ, ◌+◌, ◌^◌, ◌<◌, ◌≡◌, ◌⊎◌, inl, inr, refl, sym, ap, ap₂, ◌∙◌, subst, Bool, true, false, [], ◌∷◌,
  ◌++◌, append-nil, append_assoc, some, arith, ltb, lt→ltb, if◌then◌else◌, Bool-cases, length,
  length-append, u8, u16, Bytes,
}
use share.Dns.Name.{Packer, bytes_eq, lookup_off, end_label, open_label, end_name, pack_loop}
use share.Dns.Name.Decode.{IsLabel, Decodes, root}
use share.Dns.Name.Labels.{bytes_eq_sound, pack_loop-plain, end_label_lem}
use share.Dns.Name.Pack.{view, Below, Entry, Packed, view-end, label-Decodes}

-- While the label `l` of `name` is written, and after it.
abbrev pub labelled : Packer → Bytes → Bytes → Packer
labelled m name l = record m {
  packet = m.packet ++ (0 ∷ l);
  dname_off = (name, m.off) ∷ m.dname_off;
}

abbrev pub ended : Packer → Bytes → Bytes → Packer
ended m name l = record m {
  packet = m.packet ++ (length l ∷ l);
  off = length m.packet + length l + 1;
  dname_off = (name, m.off) ∷ m.dname_off;
}

module _ (m : Packer) (name l : Bytes) (good : IsLabel l) where
  pub plain_opened :
      (c : Bool) (n : ℕ) (rest : Bytes)
      → pack_loop c false 0 0 n (open_label m name) (l ++ rest)
        ≡ pack_loop c false 0 (length l) n (labelled m name l) rest
  unfolding open_label
  plain_opened c n rest =
      pack_loop-plain c false n 0 _ l rest good.name_bytes (omega (arith, good.short))
      ∙ ap₂
          (λ (k : ℕ) (p : Bytes).
            pack_loop c false 0 k n (record (labelled m name l) { packet = p }) rest)
          (omega arith) (append_assoc m.packet (0 ∷ []) l)

  pub end_labelled :
      m.off ≡ length m.packet
      → length m.packet + length l + 2 < 2 ^ 16
      → end_label (labelled m name l) (length l) ≡ some (ended m name l)
  end_labelled at fits =
      end_label_lem (labelled m name l) m.packet l refl at (omega (arith, good.short)) (omega arith)

  pub end_named :
      (n : ℕ)
      → m.off ≡ length m.packet
      → length m.packet + length l + 2 < 2 ^ 16
      → end_name false (length l) n (labelled m name l)
        ≡ some (
          record (ended m name l) {
            packet = (m.packet ++ (length l ∷ l)) ++ (0 ∷ []);
            off = length m.packet + length l + 2;
          },
          n + (length l + 2),
        )
  unfolding end_name
  end_named n at fits =
      let counted : ltb 0 (length l) ≡ true = lt→ltb 0 (length l) good.nonempty in
      let past : u16 (length m.packet + length l + 1 + 1) ≡ length m.packet + length l + 2 =
        omega arith in
      let long : n + u8 (length l + 1) + 1 ≡ n + (length l + 2) = omega (arith, good.short) in
      simp (counted, end_labelled at fits, past, long)

-- The entry for the name itself, and the others.
pub new-Entry :
    (hidden : ℕ → Bool) (m : Packer) (p name key : Bytes) (o : ℕ)
    → Entry hidden p name m.off
    → lookup_off key ((name, m.off) ∷ m.dname_off) ≡ some o
    → (lookup_off key m.dname_off ≡ some o) ⊎ Entry hidden p key o
new-Entry hidden m p name key o entry e = elim (Bool-cases (bytes_eq name key)) [
  | inl on ↦
      let same : name ≡ key = bytes_eq_sound name key on in
      let at : m.off ≡ o =
        cc (e, ap (λ b. if b then some m.off else lookup_off key m.dname_off) on) in
      inr (subst (λ k. Entry hidden p k o) same (subst (Entry hidden p name) at entry))
  | inr off ↦ inl (sym (ap (λ b. if b then some m.off else lookup_off key m.dname_off) off) ∙ e)
]

-- The last label.
pub pack_last :
    (hidden : ℕ → Bool) (c : Bool) (l : Bytes) (m : Packer) (n : ℕ)
    → IsLabel l
    → m.off ≡ length m.packet
    → Below hidden (length m.packet)
    → length m.packet + length l + 2 < 2 ^ 14
    → (m' : Packer) × (w : Bytes) × (pack_loop c false 0 0 n (open_label m l) l
        ≡ some (m', n + length w))
      × Packed hidden m m' l w
unfolding pack_loop
pack_last hidden c l m n good at low fits =
    let w = length l ∷ (l ++ (0 ∷ [])) in
    let m' = record (ended m l l) {
      packet = (m.packet ++ (length l ∷ l)) ++ (0 ∷ []);
      off = length m.packet + length l + 2;
    } in
    let grown : m'.packet ≡ m.packet ++ w = append_assoc m.packet (length l ∷ l) (0 ∷ []) in
    let long : length w ≡ length l + 2 = omega (arith, length-append l (0 ∷ [])) in
    let size : length m'.packet ≡ length m.packet + length l + 2 =
      omega (arith, ap length grown, length-append m.packet w) in
    let decodes : Decodes (view hidden m'.packet) (length m.packet) l (length m'.packet) =
      subst (λ p. Decodes (view hidden p) (length m.packet) l (length m'.packet)) (sym grown)
        (label-Decodes hidden m.packet l (0 ∷ []) [] (length m'.packet) good low (
          root
            (subst (λ p. view hidden p (length m.packet + 1 + length l) ≡ some 0) grown
              (view-end hidden (m.packet ++ (length l ∷ l)) [] 0 _
                (λ x h. low x (omega (arith, length-append m.packet (length l ∷ l))))
                (omega (arith, length-append m.packet (length l ∷ l)))))
            (omega arith))) in
    (
      m',
      w,
      ap (pack_loop c false 0 0 n (open_label m l)) (sym (append-nil l))
          ∙ plain_opened m l l good c n []
          ∙ end_named m l l good n at (omega arith)
          ∙ ap (λ (k : ℕ). some (m', n + k)) (sym long),
      record {
        grown = grown;
        at_end = omega arith;
        decodes = decodes;
        entries = λ key o e.
            new-Entry hidden m m'.packet l key o
              (subst (Entry hidden m'.packet l) (sym at) (length m'.packet, decodes, omega arith))
              e;
        short = omega arith;
      },
    )
