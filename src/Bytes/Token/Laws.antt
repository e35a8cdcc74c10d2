-- ===== src/Bytes/Token/Laws.antt =====
-- What `IsTokenAt` and `TokenFind` answer.
use share.Base.{
  ℕ, zero, suc, ◌+◌, ◌≤◌, ◌≡◌, ◌≢◌, ◌↔◌, inl, inr, refl, sym, ap, ◌∙◌, true, [], ◌∷◌, ◌++◌, some,
  arith, Bool-cases, get_elem?, get_elem?-drop, take, drop, length, length-drop, drop-drop,
  length-append, Bytes,
}
use share.Base.Int.{ℤ, pos_part}
use share.Bytes.Token.{has_at, token_loop, is_token_at}

-- `token` stands in `line` from position `p` on.
abbrev pub StandsAt : Bytes → Bytes → ℕ → Type 0
StandsAt line token p = (rest : Bytes) × (drop p line ≡ token ++ rest)

pub uncons-drop :
    (line : Bytes) (p : ℕ) {t : ℕ} {s : Bytes}
    → drop p line ≡ t ∷ s
    → (get_elem? line p ≡ some t) × (drop (p + 1) line ≡ s)
uncons-drop line p e = (
  sym (get_elem?-drop line p 0 p (omega arith)) ∙ ap (λ l. get_elem? l 0) e,
  sym (drop-drop line p 1 (p + 1) refl) ∙ ap (drop 1) e,
)

pub cons-drop :
    (line : Bytes) (p : ℕ) {t : ℕ} → get_elem? line p ≡ some t → drop p line ≡ t ∷ drop (p + 1) line
cons-drop [] zero e = cc
cons-drop [] (suc p) e = cc
cons-drop (x ∷ line) zero e = ground arith
cons-drop (x ∷ line) (suc p) e =
    let step : suc p + 1 ≡ suc (p + 1) = omega arith in rw step (cons-drop line p e)

pub has_at_iff : (s : Bytes) (i c : ℕ) → (has_at s i c ≡ true) ↔ (get_elem? s i ≡ some c)
has_at_iff s i c = (λ h. ground arith, λ h. ground arith)

token_loop-StandsAt :
    (line : Bytes) (p : ℕ) (token : Bytes) → token_loop line p token ≡ true → StandsAt line token p
unfolding token_loop
token_loop-StandsAt line p [] h = (drop p line, refl)
token_loop-StandsAt line p (t ∷ ts) h = elim (Bool-cases (has_at line p t)) [
  | inl same ↦
      let (rest, e) = token_loop-StandsAt line (p + 1) ts (rw same at h) in
      (rest, cons-drop line p ((has_at_iff line p t).0 same) ∙ ap (◌∷◌ t) e)
  | inr other ↦ cc (rw other at h)
]

StandsAt-token_loop :
    (line : Bytes) (p : ℕ) (token : Bytes) → StandsAt line token p → token_loop line p token ≡ true
unfolding token_loop
StandsAt-token_loop line p [] h = refl
StandsAt-token_loop line p (t ∷ ts) (rest, e) =
    let (here, next) = uncons-drop line p e in
    rw ((has_at_iff line p t).1 here) (StandsAt-token_loop line (p + 1) ts (rest, next))

pub StandsAt-fits :
    (line token : Bytes) (p : ℕ)
    → token ≢ []
    → StandsAt line token p
    → p + length token ≤ length line
StandsAt-fits line [] p ne h = absurd (ne refl)
StandsAt-fits line (t ∷ ts) p ne (rest, e) =
    omega (arith, length-drop p line, ap length e, length-append ts rest)

-- `IsTokenAt` answers whether the token, if not empty, stands at the position; a negative position
-- counts as 0.
pub is_token_at_iff :
    (line token : Bytes) (p : ℤ)
    → (is_token_at line token p ≡ true) ↔ ((token ≢ []) × StandsAt line token (pos_part p))
unfolding is_token_at
is_token_at_iff line [] p = (λ h. cc, λ (ne, s). absurd (ne refl))
is_token_at_iff line (t ∷ ts) p =
    let p' = pos_part p in
    (
      λ h. ((λ e. cc), token_loop-StandsAt line p' (t ∷ ts) (ground arith)),
      λ (ne, s). ground (
        arith,
        StandsAt-fits line (t ∷ ts) p' (λ e. cc) s,
        StandsAt-token_loop line p' (t ∷ ts) s,
      ),
    )

pub take-suc :
    (token : Bytes) (y : ℕ) {c : ℕ}
    → get_elem? token y ≡ some c
    → take y token ++ (c ∷ []) ≡ take (y + 1) token
take-suc [] zero e = cc
take-suc [] (suc y) e = cc
take-suc (t ∷ ts) zero e = ground arith
take-suc (t ∷ ts) (suc y) e =
    let step : suc y + 1 ≡ suc (y + 1) = omega arith in rw step (ap (◌∷◌ t) (take-suc ts y e))
