-- ===== src/Dns/Name/Read.antt =====
-- `unpackDomainName` on a name that stands in the packet, and on one that does not end.
use share.Base.{
  ℕ, zero, suc, ◌+◌, ◌*◌, ◌≤◌, ◌<◌, ◌≡◌, refl, sym, ap, ◌∙◌, subst, [], ◌∷◌, ◌++◌, some, arith,
  ◌==◌, if◌then◌else◌, get_elem?, length, length-append, Bytes,
}
use native.Mathlib.Decide.{ℕ_discrete}
use share.Dns.Name.{with_dot, unpack_name}
use share.Dns.Result.{ok, no_fuel}
use share.Dns.Name.Decode.{
  Decodes, root, label, pointer, calls, dotted, joined, joined-dotted, read_root, read_one_label,
  read_pointer,
}

-- The bytes of a name written in labels.
abbrev pub inline_size : Bytes → ℕ
inline_size [] = 1
inline_size (b ∷ bs) = length (b ∷ bs) + 2

inline_size-dotted :
    (l rest : Bytes) → 0 < length l → inline_size (dotted l rest) ≡ 1 + length l + inline_size rest
inline_size-dotted [] rest h = absurd (omega arith)
inline_size-dotted (b ∷ l) [] h = omega arith
inline_size-dotted (b ∷ l) (c ∷ rest) h = omega (arith, length-append l (b'.' ∷ (c ∷ rest)))

-- Where the name ends in the packet, by `rr.off` before and after it is read: an `off` that was set
-- stays, and one that is set now tells the end.
pub data Located (off off' x : ℕ) (n : Bytes) (e : ℕ) : Type 0 where
  kept : 0 < off → off' ≡ off → Located off off' x n e
  inline : off ≡ 0 → off' ≡ 0 → e ≡ x + inline_size n → Located off off' x n e
  pointed : off ≡ 0 → 0 < off' → e ≡ off' + 1 → Located off off' x n e

abbrev pub Reads : ℕ → ℕ → Bytes → Bytes → ℕ → Bytes → ℕ → Type 0
Reads fuel off out p x n e =
    (off' : ℕ) × (unpack_name fuel off out p x
      ≡ ok (record { out = joined out n; packet = p; off = off' }))
    × Located off off' x n e

joined-nil : (out : Bytes) → joined out [] ≡ out
joined-nil [] = refl
joined-nil (b ∷ bs) = refl

shift_located :
    (off off' x : ℕ) (l rest : Bytes) (e : ℕ)
    → 0 < length l
    → Located off off' (x + 1 + length l) rest e
    → Located off off' x (dotted l rest) e
shift_located off off' x l rest e h (kept pos same) = kept pos same
shift_located off off' x l rest e h (inline z same end) =
    inline z same (omega (arith, inline_size-dotted l rest h))
shift_located off off' x l rest e h (pointed z pos end) = pointed z pos end

jump_located :
    (off off' x o : ℕ) (n : Bytes) (e e' : ℕ)
    → e ≡ x + 2
    → Located (if off == 0 then x + 1 else off) off' o n e'
    → Located off off' x n e
jump_located off off' x o n e e' end (kept pos same) = elim (ℕ_discrete off 0) [
  | yes z ↦ pointed z (ground arith) (ground arith)
  | no set_before ↦ kept (omega arith) (ground arith)
]
jump_located off off' x o n e e' end (inline z same at) = absurd (ground arith)
jump_located off off' x o n e e' end (pointed z pos at) = absurd (ground arith)

pub unpack_name-Reads :
    (p : Bytes) (fuel off : ℕ) (out : Bytes) {x : ℕ} {n : Bytes} {e : ℕ}
    (d : Decodes (get_elem? p) x n e)
    → calls d ≤ fuel
    → Reads fuel off out p x n e
unpack_name-Reads p zero off out {x} (root at end) h = absurd (omega arith)
unpack_name-Reads p zero off out {x} (label l rest good at stands d joins) h = absurd (omega arith)
unpack_name-Reads p zero off out {x} (pointer hi lo o e' small low at next there d end) h =
    absurd (omega arith)
unpack_name-Reads p (suc fuel) off out {x} (root at end) h = (
  off,
  read_root fuel off out p x at
      ∙ ap (λ l. ok (record { out = l; packet = p; off = off })) (sym (joined-nil out)),
  elim (ℕ_discrete off 0) [ yes z ↦ inline z z end | no set_before ↦ kept (omega arith) refl ],
)
unpack_name-Reads p (suc fuel) off out {x} {n} {e} (label l rest good at stands d joins) h =
    let (off', done, located) = unpack_name-Reads p fuel off (with_dot out ++ l) d (omega arith) in
    (
      off',
      read_one_label fuel off out p x l good at stands
          ∙ done
          ∙ ap (λ b. ok (record { out = b; packet = p; off = off' }))
              (joined-dotted out l rest good.nonempty ∙ ap (joined out) (sym joins)),
      subst (λ m. Located off off' x m e) (sym joins)
          (shift_located off off' x l rest e good.nonempty located),
    )
unpack_name-Reads p (suc fuel) off out {x} {n} {e}
      (pointer hi lo o e' small low at next there d end) h =
    let first = if off == 0 then x + 1 else off in
    let (off', done, located) = unpack_name-Reads p fuel first out d (omega arith) in
    (
      off',
      read_pointer fuel off out p x hi lo small low at next
          ∙ ap (unpack_name fuel first out p) (sym there)
          ∙ done,
      jump_located off off' x o n e e' end located,
    )

-- A pointer that points to itself is never read to an end: whatever the fuel is, more is asked for.
pub unpack_name_cycle :
    (fuel off : ℕ) (out p : Bytes) (hi lo : ℕ)
    → hi < 64
    → lo < 256
    → get_elem? p (hi * 256 + lo) ≡ some (192 + hi)
    → get_elem? p (hi * 256 + lo + 1) ≡ some lo
    → unpack_name fuel off out p (hi * 256 + lo) ≡ no_fuel
unpack_name_cycle zero off out p hi lo small low at next = unfold unpack_name in refl
unpack_name_cycle (suc fuel) off out p hi lo small low at next =
    read_pointer fuel off out p (hi * 256 + lo) hi lo small low at next
    ∙ unpack_name_cycle fuel _ out p hi lo small low at next
