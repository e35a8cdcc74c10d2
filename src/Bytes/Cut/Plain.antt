-- ===== src/Bytes/Cut/Plain.antt =====
-- Without escapes both functions find the first place of the token.
use share.Base.{
  ℕ, zero, suc, ◌+◌, ◌-◌, ◌≤◌, ◌<◌, ◌≡◌, ◌≢◌, ◌⊎◌, inl, inr, refl, sym, ap, ◌∙◌, true, false, [],
  ◌∷◌, ◌++◌, append-nil, append_assoc, some, arith, Bool-cases, get_elem?, get_elem?-some, take,
  drop, length, Bytes,
}
use native.Mathlib.Decide.{ℕ_discrete}
use share.Base.Int.{pos}
use share.Bytes.Token.{is_token_at}
use share.Bytes.Token.Laws.{cons-drop}
use share.Bytes.Cut.{Cutting, cut_loop, cut_until_token, skip_loop, skip_after_token}
use share.Bytes.Cut.Step.{cut_loop_plain, cut_loop_found, skip_loop_plain, skip_loop_found}

-- The token begins at none of the positions from `p` up to `at`.
abbrev pub NoTokenIn : Bytes → Bytes → ℕ → ℕ → Type 0
NoTokenIn line token p at = (i : ℕ) → p ≤ i → i < at → is_token_at line token (pos i) ≡ false

-- What ends the search at `at`: the token stands there, or the line ends there.
abbrev pub Ends : Bytes → Bytes → ℕ → Cutting → Type 0
Ends line token at r =
    ((r.found ≡ true)
      × (is_token_at line token (pos at) ≡ true)
      × (r.position ≡ pos (at + length token)))
    ⊎ ((r.found ≡ false) × (at ≡ length line) × (r.position ≡ pos at))

-- From `p` on the token first begins at `at`, or not at all, and `v` and the bytes before are cut.
pub record IsCut (line token : Bytes) (p : ℕ) (v : Bytes) (r : Cutting) : Type 0 where
  pub at : ℕ
  pub from : p ≤ at
  pub cut_is : r.cut ≡ v ++ take (at - p) (drop p line)
  pub before : NoTokenIn line token p at
  pub ends : Ends line token at r

pub NoTokenIn-cons :
    (line token : Bytes) (p at : ℕ)
    → is_token_at line token (pos p) ≡ false
    → NoTokenIn line token (p + 1) at
    → NoTokenIn line token p at
NoTokenIn-cons line token p at h more i lo hi = elim (ℕ_discrete p i) [
  | yes same ↦ ap (λ t. is_token_at line token (pos t)) (sym same) ∙ h
  | no other ↦ more i (omega arith) hi
]

module _ (line token : Bytes) where
  IsCut-cons :
      (p c : ℕ) (v : Bytes) {r : Cutting}
      → get_elem? line p ≡ some c
      → is_token_at line token (pos p) ≡ false
      → IsCut line token (p + 1) (v ++ (c ∷ [])) r
      → IsCut line token p v r
  IsCut-cons p c v here miss k = record {
    at = k.at;
    from = omega (arith, k.from);
    cut_is =
        k.cut_is
        ∙ append_assoc v (c ∷ []) _
        ∙ ap (λ l. v ++ l)
            (rw (cons-drop line p here)
              (let more : k.at - p ≡ suc (k.at - (p + 1)) = omega (arith, k.from) in rw more refl));
    before = NoTokenIn-cons line token p k.at miss k.before;
    ends = k.ends;
  }

  cut_loop-IsCut :
      (fuel p : ℕ) (v : Bytes)
      → p + fuel ≡ length line
      → IsCut line token p v (cut_loop fuel line token false p v false)
  cut_loop-IsCut zero p v e =
      unfold cut_loop in
      record {
        at = p;
        from = omega arith;
        cut_is = rw (let none_left : p - p ≡ 0 = omega arith in none_left) (sym (append-nil v));
        before = λ i lo hi. absurd (omega arith);
        ends = inr (refl, omega arith, refl);
      }
  cut_loop-IsCut (suc fuel) p v e =
      let (c, here) = get_elem?-some line p (omega arith) in
      elim (Bool-cases (is_token_at line token (pos p))) [
        | inl stands ↦ rw (cut_loop_found fuel line token false p c here v refl stands) (record {
          at = p;
          from = omega arith;
          cut_is = rw (let none_left : p - p ≡ 0 = omega arith in none_left) (sym (append-nil v));
          before = λ i lo hi. absurd (omega arith);
          ends = inl (refl, stands, refl);
        })
        | inr miss ↦
            rw (cut_loop_plain fuel line token false p c here v false refl miss) (
              IsCut-cons p c v here miss
                (cut_loop-IsCut fuel (p + 1) (v ++ (c ∷ [])) (omega arith)))
      ]

  -- The two loops go together.
  skip_loop-cut_loop :
      (t fuel p : ℕ) (v : Bytes)
      → get_elem? token 0 ≡ some t
      → p + fuel ≡ length line
      → (q : ℕ) × ((cut_loop fuel line token false p v false).position ≡ pos q)
        × (skip_loop fuel line token false p false
            ≡ some (q, (cut_loop fuel line token false p v false).found))
  skip_loop-cut_loop t zero p v first e =
      (p, unfold cut_loop in refl, unfold skip_loop cut_loop in refl)
  skip_loop-cut_loop t (suc fuel) p v first e =
      let (c, here) = get_elem?-some line p (omega arith) in
      elim (Bool-cases (is_token_at line token (pos p))) [
        | inl stands ↦
            rw
              (
                cut_loop_found fuel line token false p c here v refl stands,
                skip_loop_found fuel line token false p c here refl stands,
              )
              (p + length token, refl, refl)
        | inr miss ↦
            rw
              (
                cut_loop_plain fuel line token false p c here v false refl miss,
                skip_loop_plain fuel line token false p c here t false first refl miss,
              )
              (skip_loop-cut_loop t fuel (p + 1) (v ++ (c ∷ [])) first (omega arith))
      ]

-- `CutUntilToken` with no escapes, from a start within the line: it cuts all bytes up to the first
-- place of the token, and returns the position behind it; if there is none it cuts the rest of the
-- line and returns its length and false.
pub cut_until_token_plain :
    (line token : Bytes) (p : ℕ)
    → token ≢ []
    → p ≤ length line
    → IsCut line token p [] (cut_until_token line token (pos p) false)
unfolding cut_until_token
cut_until_token_plain line [] p ne h = absurd (ne refl)
cut_until_token_plain line (t ∷ ts) p ne h =
    cut_loop-IsCut line (t ∷ ts) (length line - p) p [] (omega arith)

-- With no escapes `SkipAfterToken` returns the position and the flag of `CutUntilToken`.
pub skip_after_token-cut_until_token :
    (line token : Bytes) (p : ℕ)
    → token ≢ []
    → p ≤ length line
    → (q : ℕ) × ((cut_until_token line token (pos p) false).position ≡ pos q)
      × (skip_after_token line token (pos p) false
          ≡ some (q, (cut_until_token line token (pos p) false).found))
unfolding cut_until_token skip_after_token
skip_after_token-cut_until_token line [] p ne h = absurd (ne refl)
skip_after_token-cut_until_token line (t ∷ ts) p ne h =
    skip_loop-cut_loop line (t ∷ ts) t (length line - p) p [] refl (omega arith)
