-- ===== src/Dns/Name/Pack.antt =====
-- `packDomainName` writes the name, and every place that it keeps for later names is one where the
-- name stands.
use share.Base.{
  ℕ, zero, suc, ◌+◌, ◌/◌, ◌^◌, ◌≤◌, ◌<◌, ◌≡◌, ◌⊎◌, inl, inr, refl, sym, ap, ◌∙◌, subst, Bool, false,
  [], ◌∷◌, ◌++◌, append_assoc, none, some, arith, ◌==◌, if◌then◌else◌, Bool-cases, get_elem?,
  get_elem?-append_right, length, length-append, bit_or, u8, Bytes,
}
use share.Base.Bits.{bit_or_fields}
use share.Dns.Name.{
  Packer, bytes_eq, lookup_off, mask_pointer, compress, end_label, open_label, next_label,
  pack_loop,
}
use share.Dns.Name.Decode.{IsLabel, StandAt, View, Decodes, label, pointer, dotted, weaken-Decodes}

module _ (c ie : Bool) (count n : ℕ) (m m1 : Packer) (rest : Bytes) (pos : 0 < count)
    (ends : end_label m count ≡ some m1) where
  pub dot_found :
      (m2 : Packer)
      → (if c then compress m1 rest else none) ≡ some m2
      → pack_loop c ie 0 count n m (b'.' ∷ rest) ≡ some (m2, n + u8 (count + 1) + 2)
  unfolding pack_loop next_label
  dot_found m2 e = let counted : (count == 0) ≡ false = ground arith in simp (counted, ends, e)

  pub dot_missed :
      (if c then compress m1 rest else none) ≡ none
      → bytes_eq rest [] ≡ false
      → pack_loop c ie 0 count n m (b'.' ∷ rest)
        ≡ pack_loop c ie 0 0 (n + u8 (count + 1)) (open_label m1 rest) rest
  unfolding pack_loop next_label
  dot_missed e more =
      let counted : (count == 0) ≡ false = ground arith in simp (counted, ends, e, more)

-- The bytes of the packet but those that are still to be filled in.
abbrev pub view : (ℕ → Bool) → Bytes → View
view hidden p x = if hidden x then none else get_elem? p x

pub get_elem?-append_some :
    (p q : Bytes) (x b : ℕ) → get_elem? p x ≡ some b → get_elem? (p ++ q) x ≡ some b
get_elem?-append_some [] q x b e = cc e
get_elem?-append_some (a ∷ p) q zero b e = e
get_elem?-append_some (a ∷ p) q (suc x) b e = get_elem?-append_some p q x b e

pub view-append :
    (hidden : ℕ → Bool) (p q : Bytes) (x b : ℕ)
    → view hidden p x ≡ some b
    → view hidden (p ++ q) x ≡ some b
view-append hidden p q x b e = elim (Bool-cases (hidden x)) [
  | inl on ↦ absurd (cc (e, ap (λ h. if h then none else get_elem? p x) on))
  | inr off ↦
      let seen : get_elem? p x ≡ some b = sym (rw off) ∙ e in
      rw off (get_elem?-append_some p q x b seen)
]

abbrev pub Below : (ℕ → Bool) → ℕ → Type 0
Below hidden k = (x : ℕ) → k ≤ x → hidden x ≡ false

-- A kept place is one where the name stands, and it fits in a pointer.
abbrev pub Entry : (ℕ → Bool) → Bytes → Bytes → ℕ → Type 0
Entry hidden p key o = (e : ℕ) × Decodes (view hidden p) o key e × (o < 2 ^ 14)

pub Entry-append :
    (hidden : ℕ → Bool) (p q key : Bytes) (o : ℕ)
    → Entry hidden p key o
    → Entry hidden (p ++ q) key o
Entry-append hidden p q key o (e, d, small) =
    (e, weaken-Decodes (view hidden p) (view hidden (p ++ q)) (view-append hidden p q) d, small)

-- The entries for names shorter than `k`.
abbrev pub ValidBelow : (ℕ → Bool) → ℕ → Packer → Type 0
ValidBelow hidden k m =
    (key : Bytes) (o : ℕ)
    → lookup_off key m.dname_off ≡ some o
    → length key < k
    → Entry hidden m.packet key o

-- What a name leaves behind: `w` is written.
pub record Packed (hidden : ℕ → Bool) (m m' : Packer) (name w : Bytes) : Type 0 where
  pub grown : m'.packet ≡ m.packet ++ w
  pub at_end : m'.off ≡ length m'.packet
  pub decodes : Decodes (view hidden m'.packet) (length m.packet) name (length m'.packet)
  pub entries :
      (key : Bytes) (o : ℕ)
      → lookup_off key m'.dname_off ≡ some o
      → (lookup_off key m.dname_off ≡ some o) ⊎ Entry hidden m'.packet key o
  pub short : length w ≤ length name + 2

-- The bytes at the end of the packet are seen.
pub view-end :
    (hidden : ℕ → Bool) (p q : Bytes) (b x : ℕ)
    → Below hidden (length p)
    → x ≡ length p
    → view hidden (p ++ (b ∷ q)) x ≡ some b
view-end hidden p q b x low e =
    let seen : hidden x ≡ false = low x (omega arith) in
    rw seen (get_elem?-append_right p (b ∷ q) 0 x (omega arith))

label-StandAt :
    (hidden : ℕ → Bool) (p l q : Bytes) (x : ℕ)
    → Below hidden (length p)
    → x ≡ length p
    → StandAt (view hidden (p ++ (l ++ q))) x l
label-StandAt hidden p [] q x low e = tt
label-StandAt hidden p (b ∷ l) q x low e = (
  view-end hidden p (l ++ q) b x low e,
  subst (λ r. StandAt (view hidden r) (x + 1) l) (append_assoc p (b ∷ []) (l ++ q))
      (label-StandAt hidden (p ++ (b ∷ [])) l q (x + 1)
        (λ y h. low y (omega (arith, length-append p (b ∷ []))))
        (omega (arith, length-append p (b ∷ [])))),
)

-- A label that was written at the end of `p`, and the name after it.
pub label-Decodes :
    (hidden : ℕ → Bool) (p l q rest : Bytes) (e : ℕ)
    → IsLabel l
    → Below hidden (length p)
    → Decodes (view hidden (p ++ (length l ∷ (l ++ q)))) (length p + 1 + length l) rest e
    → Decodes (view hidden (p ++ (length l ∷ (l ++ q)))) (length p) (dotted l rest) e
label-Decodes hidden p l q rest e good low d =
    label l rest good (view-end hidden p (l ++ q) (length l) (length p) low refl)
      (subst (λ r. StandAt (view hidden r) (length p + 1) l)
        (append_assoc p (length l ∷ []) (l ++ q))
        (label-StandAt hidden (p ++ (length l ∷ [])) l q (length p + 1)
          (λ y h. low y (omega (arith, length-append p (length l ∷ []))))
          (omega (arith, length-append p (length l ∷ [])))))
      d refl

-- The bytes of a pointer.
abbrev pub pointer_bytes : ℕ → Bytes
pointer_bytes o = bit_or mask_pointer (u8 (o / 2 ^ 8)) ∷ u8 o ∷ []

pub pointer-Decodes :
    (hidden : ℕ → Bool) (p key : Bytes) (o : ℕ)
    → Below hidden (length p)
    → Entry hidden p key o
    → Decodes (view hidden (p ++ pointer_bytes o)) (length p) key (length p + 2)
pointer-Decodes hidden p key o low entry =
    let (e, d, small) = Entry-append hidden p (pointer_bytes o) key o entry in
    let high : bit_or mask_pointer (u8 (o / 2 ^ 8)) ≡ 192 + o / 256 =
      let same : u8 (o / 2 ^ 8) ≡ o / 256 = omega arith in
      rw same (bit_or_fields 6 3 (o / 256) (omega arith) ∙ omega arith) in
    pointer (o / 256) (u8 o) o e (omega arith) (omega arith)
      (view-end hidden p (u8 o ∷ []) _ (length p) low refl ∙ ap some high)
      (subst (λ r. view hidden r (length p + 1) ≡ some (u8 o))
        (append_assoc p (bit_or mask_pointer (u8 (o / 2 ^ 8)) ∷ []) (u8 o ∷ []))
        (view-end hidden (p ++ (bit_or mask_pointer (u8 (o / 2 ^ 8)) ∷ [])) [] (u8 o) (length p + 1)
          (λ y h.
            low y (omega (arith, length-append p (bit_or mask_pointer (u8 (o / 2 ^ 8)) ∷ []))))
          (omega (arith, length-append p (bit_or mask_pointer (u8 (o / 2 ^ 8)) ∷ [])))))
      (omega arith) d refl
