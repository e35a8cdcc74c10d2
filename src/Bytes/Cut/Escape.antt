-- ===== src/Bytes/Cut/Escape.antt =====
-- Backslash escapes: `CutUntilToken` reads back what was quoted.
use share.Base.{
  ℕ, zero, suc, ◌+◌, ◌-◌, ◌≡◌, ◌≢◌, ◌⊎◌, inl, inr, refl, sym, ap, ap₂, ◌∙◌, true, false, ◌||◌, [],
  ◌∷◌, ◌++◌, append-nil, append_assoc, some, arith, ◌==◌, if◌then◌else◌, Bool-cases, get_elem?,
  drop, length, length-append, length-drop, Bytes,
}
use native.Mathlib.Decide.{ℕ_discrete}
use share.Base.Int.{pos}
use share.Bytes.Token.{is_token_at}
use share.Bytes.Token.Laws.{uncons-drop, cons-drop, is_token_at_iff}
use share.Bytes.Cut.{Cutting, cut_loop, cut_until_token}
use share.Bytes.Cut.Step.{
  cut_loop_plain, cut_loop_found, cut_loop_backslash, cut_loop_escaped, is_token_at-head,
}

-- A backslash before every backslash and every byte of the token `t`.
abbrev pub quote : ℕ → Bytes → Bytes
quote t [] = []
quote t (c ∷ v) = if c == b'\\' || c == t then b'\\' ∷ c ∷ quote t v else c ∷ quote t v

module _ (line : Bytes) (t : ℕ) where
  token_here : (p : ℕ) → get_elem? line p ≡ some t → is_token_at line (t ∷ []) (pos p) ≡ true
  token_here p e =
      (is_token_at_iff line (t ∷ []) (pos p)).1 ((λ h. cc), (drop (p + 1) line, cons-drop line p e))

  no_token_here :
      (p c : ℕ) → get_elem? line p ≡ some c → c ≢ t → is_token_at line (t ∷ []) (pos p) ≡ false
  no_token_here p c e ne = elim (Bool-cases (is_token_at line (t ∷ []) (pos p))) [
    | inl stands ↦ absurd (ne (ground (arith, is_token_at-head line (t ∷ []) p c e stands)))
    | inr miss ↦ miss
  ]

  -- A quoted byte takes two rounds.
  cut_loop_quoted :
      (fuel p c : ℕ) (acc : Bytes)
      → t ≢ b'\\'
      → get_elem? line p ≡ some b'\\'
      → get_elem? line (p + 1) ≡ some c
      → (c ≡ b'\\') ⊎ (c ≡ t)
      → cut_loop (suc (suc fuel)) line (t ∷ []) true p acc false
        ≡ cut_loop fuel line (t ∷ []) true (p + 1 + 1) (acc ++ (c ∷ [])) false
  cut_loop_quoted fuel p c acc ne e e' (inl back) =
      cut_loop_backslash (suc fuel) line (t ∷ []) true p b'\\' e acc false refl
      ∙ cut_loop_backslash fuel line (t ∷ []) true (p + 1) c e' acc true (ground arith)
      ∙ rw back
  cut_loop_quoted fuel p c acc ne e e' (inr same) =
      let stands = token_here (p + 1) (e' ∙ ap some same) in
      cut_loop_backslash (suc fuel) line (t ∷ []) true p b'\\' e acc false refl
      ∙ cut_loop_escaped fuel line (t ∷ []) true (p + 1) c e' acc (ground arith) stands
      ∙ rw same

  abbrev Done : Bytes → ℕ → Cutting
  Done v q = record { cut = v; position = pos q; found = true }

  done_eq : {v w : Bytes} {q r : ℕ} → v ≡ w → q ≡ r → Done v q ≡ Done w r
  done_eq e f = ap₂ Done e f

  quote_cases :
      (c : ℕ) (v : Bytes)
      → (((c ≡ b'\\') ⊎ (c ≡ t)) × (quote t (c ∷ v) ≡ b'\\' ∷ c ∷ quote t v))
        ⊎ ((c ≢ b'\\') × (c ≢ t) × (quote t (c ∷ v) ≡ c ∷ quote t v))
  quote_cases c v = elim (ℕ_discrete c b'\\') [
    | yes back ↦ inl (inl back, ground arith)
    | no other ↦ elim (ℕ_discrete c t) [
      | yes same ↦ inl (inr same, ground arith)
      | no ne ↦ inr (other, ne, ground arith)
    ]
  ]

  read_quote :
      (v : Bytes) (rest : Bytes) (fuel p : ℕ) (acc : Bytes)
      → t ≢ b'\\'
      → drop p line ≡ quote t v ++ (t ∷ rest)
      → p + fuel ≡ length line
      → cut_loop fuel line (t ∷ []) true p acc false ≡ Done (acc ++ v) (p + length (quote t v) + 1)
  read_quote [] rest zero p acc ne e h = absurd (omega (arith, ap length e, length-drop p line))
  read_quote [] rest (suc fuel) p acc ne e h =
      let here = (uncons-drop line p e).0 in
      cut_loop_found fuel line (t ∷ []) true p t here acc (ground arith) (token_here p here)
      ∙ done_eq (sym (append-nil acc)) (omega arith)
  read_quote (c ∷ v) rest fuel p acc ne e h = elim (quote_cases c v) [
    | inl (which, q) ↦
        let e0 : drop p line ≡ b'\\' ∷ c ∷ (quote t v ++ (t ∷ rest)) =
          e ∙ ap (λ l. l ++ (t ∷ rest)) q in
        let (here, next) = uncons-drop line p e0 in
        let (here', next') = uncons-drop line (p + 1) next in
        let two : fuel ≡ suc (suc (fuel - 2)) = omega (arith, ap length e0, length-drop p line) in
        rw two (
          cut_loop_quoted (fuel - 2) p c acc ne here here' which
          ∙ read_quote v rest (fuel - 2) (p + 1 + 1) (acc ++ (c ∷ [])) ne next' (omega arith)
          ∙ done_eq (append_assoc acc (c ∷ []) v) (omega (arith, ap length q)))
    | inr (other, miss, q) ↦
        let e0 : drop p line ≡ c ∷ (quote t v ++ (t ∷ rest)) = e ∙ ap (λ l. l ++ (t ∷ rest)) q in
        let (here, next) = uncons-drop line p e0 in
        let one : fuel ≡ suc (fuel - 1) = omega (arith, ap length e0, length-drop p line) in
        rw one (
          cut_loop_plain (fuel - 1) line (t ∷ []) true p c here acc false (ground arith)
            (no_token_here p c here miss)
          ∙ read_quote v rest (fuel - 1) (p + 1) (acc ++ (c ∷ [])) ne next (omega arith)
          ∙ done_eq (append_assoc acc (c ∷ []) v) (omega (arith, ap length q)))
  ]

  -- Where a quoted text and the one-byte token `t`, no backslash, stand in the line,
  -- `CutUntilToken` with escapes gives back the text and the position behind the token.
  pub cut_until_token-quote :
      (v rest : Bytes) (p : ℕ)
      → t ≢ b'\\'
      → drop p line ≡ quote t v ++ (t ∷ rest)
      → cut_until_token line (t ∷ []) (pos p) true
        ≡ record { cut = v; position = pos (p + length (quote t v) + 1); found = true }
  unfolding cut_until_token
  cut_until_token-quote v rest p ne e =
      read_quote v rest (length line - p) p [] ne e
        (omega (arith, ap length e, length-drop p line, length-append (quote t v) (t ∷ rest)))
