-- ===== src/Bytes/Cut/Step.antt =====
-- One round of each loop, by what stands at `p`.
use share.Base.{
  ℕ, suc, ◌+◌, ◌≡◌, refl, sym, ◌∙◌, Bool, true, false, not, ◌&&◌, [], ◌∷◌, ◌++◌, some, arith, ◌==◌,
  get_elem?, length, Bytes,
}
use share.Base.Int.{pos}
use share.Bytes.Token.{is_token_at}
use share.Bytes.Token.Laws.{uncons-drop, is_token_at_iff, StandsAt}
use share.Bytes.Cut.{unescaped, cut_loop, skip_loop}

StandsAt-head :
    (line : Bytes) (t : ℕ) (ts : Bytes) (p : ℕ)
    → StandsAt line (t ∷ ts) p
    → get_elem? line p ≡ some t
StandsAt-head line t ts p (rest, e) = (uncons-drop line p e).0

-- Where the token stands, its first byte does.
pub is_token_at-head :
    (line token : Bytes) (p c : ℕ)
    → get_elem? line p ≡ some c
    → is_token_at line token (pos p) ≡ true
    → get_elem? token 0 ≡ some c
is_token_at-head line [] p c e h = absurd (((is_token_at_iff line [] (pos p)).0 h).0 refl)
is_token_at-head line (t ∷ ts) p c e h =
    sym (StandsAt-head line t ts p ((is_token_at_iff line (t ∷ ts) (pos p)).0 h).1) ∙ e

module _ (fuel : ℕ) (line token : Bytes) (check_esc : Bool) (p c : ℕ)
    (here : get_elem? line p ≡ some c) where
  pub cut_loop_plain :
      (v : Bytes) (escaped : Bool)
      → (check_esc && c == b'\\') ≡ false
      → is_token_at line token (pos p) ≡ false
      → cut_loop (suc fuel) line token check_esc p v escaped
        ≡ cut_loop fuel line token check_esc (p + 1) (unescaped escaped v ++ (c ∷ [])) false
  unfolding cut_loop
  cut_loop_plain v escaped not_esc not_token = ground arith

  pub cut_loop_backslash :
      (v : Bytes) (escaped : Bool)
      → (check_esc && c == b'\\') ≡ true
      → cut_loop (suc fuel) line token check_esc p v escaped
        ≡ cut_loop fuel line token check_esc (p + 1) (unescaped escaped v) (not escaped)
  unfolding cut_loop
  cut_loop_backslash v escaped esc = ground arith

  pub cut_loop_escaped :
      (v : Bytes)
      → (check_esc && c == b'\\') ≡ false
      → is_token_at line token (pos p) ≡ true
      → cut_loop (suc fuel) line token check_esc p v true
        ≡ cut_loop fuel line token check_esc (p + length token) (v ++ token) false
  unfolding cut_loop
  cut_loop_escaped v not_esc stands = ground (arith, is_token_at-head line token p c here stands)

  pub cut_loop_found :
      (v : Bytes)
      → (check_esc && c == b'\\') ≡ false
      → is_token_at line token (pos p) ≡ true
      → cut_loop (suc fuel) line token check_esc p v false
        ≡ record { cut = v; position = pos (p + length token); found = true }
  unfolding cut_loop
  cut_loop_found v not_esc stands = ground (arith, is_token_at-head line token p c here stands)

  pub skip_loop_plain :
      (t : ℕ) (escaped : Bool)
      → get_elem? token 0 ≡ some t
      → (check_esc && c == b'\\') ≡ false
      → is_token_at line token (pos p) ≡ false
      → skip_loop (suc fuel) line token check_esc p escaped
        ≡ skip_loop fuel line token check_esc (p + 1) false
  unfolding skip_loop
  skip_loop_plain t escaped first not_esc not_token = ground arith

  pub skip_loop_found :
      (check_esc && c == b'\\') ≡ false
      → is_token_at line token (pos p) ≡ true
      → skip_loop (suc fuel) line token check_esc p false ≡ some (p + length token, true)
  unfolding skip_loop
  skip_loop_found not_esc stands = ground (arith, is_token_at-head line token p c here stands)
