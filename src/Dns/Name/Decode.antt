-- ===== src/Dns/Name/Decode.antt =====
-- What stands for a name in a packet, and that `unpackDomainName` reads it.
use share.Base.{
  ℕ, zero, suc, ◌+◌, ◌*◌, ◌≤◌, ◌<◌, ◌≡◌, ◌≢◌, refl, sym, ap, ◌∙◌, true, false, [], ◌∷◌, ◌++◌,
  append-nil, append_assoc, Option, some, arith, ltb, ◌==◌, if◌then◌else◌, get_elem?, set, length,
  bit_and, Bytes, All,
}
use share.Base.Bits.{bit_or_fields, high_two, low_six}
use share.Dns.Name.{
  mask_offset, mask_pointer, max_label_size, lower_letter, read_label, with_dot, unpack_name,
}
use share.Dns.Result.{ok}

-- A byte of a label that stands for itself and that reading does not change.
pub record IsNameByte (b : ℕ) : Type 0 where
  pub byte : b < 256
  pub no_dot : b ≢ b'.'
  pub no_escape : b ≢ b'\\'
  pub small : lower_letter b ≡ b

pub record IsLabel (l : Bytes) : Type 0 where
  pub nonempty : 0 < length l
  pub short : length l ≤ max_label_size
  pub name_bytes : All IsNameByte l

-- What is known of a packet: some of its bytes, by their places.
abbrev pub View : Type 0
View = ℕ → Option ℕ

-- The bytes `l` stand at `x`.
abbrev pub StandAt : View → ℕ → Bytes → Type 0
StandAt v x [] = Unit
StandAt v x (b ∷ l) = (v x ≡ some b) × StandAt v (x + 1) l

-- A label and the name after it.
abbrev pub dotted : Bytes → Bytes → Bytes
dotted l [] = l
dotted l (b ∷ bs) = l ++ (b'.' ∷ (b ∷ bs))

-- The name `n` stands at `x` of a packet, in labels or by pointers, and what is written there ends
-- before `e`.
pub data Decodes (v : View) : ℕ → Bytes → ℕ → Type 0 where
  root : {x e : ℕ} → v x ≡ some 0 → e ≡ x + 1 → Decodes v x [] e
  label :
      {x : ℕ} {n : Bytes} {e : ℕ} (l rest : Bytes)
      → IsLabel l
      → v x ≡ some (length l)
      → StandAt v (x + 1) l
      → Decodes v (x + 1 + length l) rest e
      → n ≡ dotted l rest
      → Decodes v x n e
  pointer :
      {x : ℕ} {n : Bytes} {e : ℕ} (hi lo o e' : ℕ)
      → hi < 64
      → lo < 256
      → v x ≡ some (192 + hi)
      → v (x + 1) ≡ some lo
      → o ≡ hi * 256 + lo
      → Decodes v o n e'
      → e ≡ x + 2
      → Decodes v x n e

-- What reading makes of `out` and a name.
abbrev pub joined : Bytes → Bytes → Bytes
joined [] n = n
joined (b ∷ bs) [] = b ∷ bs
joined (b ∷ bs) (c ∷ n) = (b ∷ bs) ++ (b'.' ∷ (c ∷ n))

pub set_same : (p : Bytes) (x b : ℕ) → get_elem? p x ≡ some b → set p x b ≡ p
set_same [] x b e = refl
set_same (c ∷ p) zero b e = cc e
set_same (c ∷ p) (suc x) b e = ap (◌∷◌ c) (set_same p x b e)

read_label_lem :
    (l out p : Bytes) (x : ℕ)
    → All IsNameByte l
    → StandAt (get_elem? p) x l
    → read_label (length l) out p x ≡ some (out ++ l, p)
unfolding read_label
read_label_lem [] out p x good at = ap (λ o. some (o, p)) (sym (append-nil out))
read_label_lem (b ∷ l) out p x (h, good) (e, at) =
    simp (e, h.small, set_same p x b e)
      (read_label_lem l (out ++ (b ∷ [])) p (x + 1) good at
        ∙ ap (λ o. some (o, p)) (append_assoc out (b ∷ []) l))

pub joined-dotted :
    (out l rest : Bytes)
    → 0 < length l
    → joined (with_dot out ++ l) rest ≡ joined out (dotted l rest)
joined-dotted [] (b ∷ l) [] h = refl
joined-dotted [] (b ∷ l) (c ∷ rest) h = refl
joined-dotted out [] rest h = absurd (omega arith)
joined-dotted (a ∷ out) (b ∷ l) [] h = ap (◌∷◌ a) (append_assoc out (b'.' ∷ []) (b ∷ l))
joined-dotted (a ∷ out) (b ∷ l) (c ∷ rest) h = ap (◌∷◌ a) (simp append_assoc)

-- How many calls the reading takes.
abbrev pub calls : {v : View} {x : ℕ} {n : Bytes} {e : ℕ} → Decodes v x n e → ℕ
calls (root at end) = 1
calls (label l rest good at stands d joins) = suc (calls d)
calls (pointer hi lo o e' small low at next there d end) = suc (calls d)

module _ (fuel off : ℕ) (out p : Bytes) (x : ℕ) where
  pub read_root :
      get_elem? p x ≡ some 0
      → unpack_name (suc fuel) off out p x ≡ ok (record { out = out; packet = p; off = off })
  unfolding unpack_name
  read_root e = simp e

  pub read_one_label :
      (l : Bytes)
      → IsLabel l
      → get_elem? p x ≡ some (length l)
      → StandAt (get_elem? p) (x + 1) l
      → unpack_name (suc fuel) off out p x
        ≡ unpack_name fuel off (with_dot out ++ l) p (x + 1 + length l)
  unfolding unpack_name
  read_one_label l good e at =
      let some_there : (length l == 0) ≡ false = ground (arith, good.nonempty) in
      let no_pointer : (bit_and (length l) mask_pointer == mask_pointer) ≡ false =
        ground (arith, good.short, high_two (length l)) in
      let short : ltb max_label_size (length l) ≡ false = ground (arith, good.short) in
      simp (
        e,
        some_there,
        no_pointer,
        short,
        read_label_lem l (with_dot out) p (x + 1) good.name_bytes at,
      )

  pub read_pointer :
      (hi lo : ℕ)
      → hi < 64
      → lo < 256
      → get_elem? p x ≡ some (192 + hi)
      → get_elem? p (x + 1) ≡ some lo
      → unpack_name (suc fuel) off out p x
        ≡ unpack_name fuel (if off == 0 then x + 1 else off) out p (hi * 256 + lo)
  unfolding unpack_name
  read_pointer hi lo small low e next =
      let some_there : ((192 + hi) == 0) ≡ false = ground arith in
      let is_pointer : (bit_and (192 + hi) mask_pointer == mask_pointer) ≡ true =
        ground (arith, high_two (192 + hi)) in
      let six : bit_and (192 + hi) mask_offset ≡ hi = omega (arith, low_six (192 + hi)) in
      simp (e, next, some_there, is_pointer, six, bit_or_fields 8 hi lo low)

pub weaken-StandAt :
    (v w : View) (x : ℕ) (l : Bytes)
    → ((y b : ℕ) → v y ≡ some b → w y ≡ some b)
    → StandAt v x l
    → StandAt w x l
weaken-StandAt v w x [] h at = tt
weaken-StandAt v w x (b ∷ l) h (e, at) = (h x b e, weaken-StandAt v w (x + 1) l h at)

-- A name that stands in what is known of a packet stands there when more is known.
pub weaken-Decodes :
    (v w : View)
    → ((y b : ℕ) → v y ≡ some b → w y ≡ some b)
    → {x : ℕ} {n : Bytes} {e : ℕ} → Decodes v x n e
    → Decodes w x n e
weaken-Decodes v w h {x} (root at end) = root (h x 0 at) end
weaken-Decodes v w h {x} (label l rest good at stands d joins) =
    label l rest good (h x (length l) at) (weaken-StandAt v w (x + 1) l h stands)
      (weaken-Decodes v w h d) joins
weaken-Decodes v w h {x} (pointer hi lo o e' small low at next there d end) =
    pointer hi lo o e' small low (h x (192 + hi) at) (h (x + 1) lo next) there
      (weaken-Decodes v w h d) end

pub calls-weaken :
    (v w : View) (h : (y b : ℕ) → v y ≡ some b → w y ≡ some b) {x : ℕ} {n : Bytes} {e : ℕ}
    (d : Decodes v x n e)
    → calls (weaken-Decodes v w h d) ≡ calls d
unfolding weaken-Decodes
calls-weaken v w h (root at end) = refl
calls-weaken v w h (label l rest good at stands d joins) = ap suc (calls-weaken v w h d)
calls-weaken v w h (pointer hi lo o e' small low at next there d end) =
    ap suc (calls-weaken v w h d)
