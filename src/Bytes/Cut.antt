-- ===== src/Bytes/Cut.antt =====
-- `CutUntilToken` and `SkipAfterToken` of lib/bytes/bytes.go. The position `p` grows in each round,
-- so as many rounds as bytes are left are all that the loop makes: where the fuel is used up, `p`
-- is past the line.
pub mod Step
pub mod Plain
pub mod Escape
use share.Base.{
  ℕ, zero, suc, ◌+◌, ◌-◌, Bool, true, false, not, ◌&&◌, List, [], ◌∷◌, ◌++◌, Option, none, some,
  ltb, ◌==◌, if◌then◌else◌, get_elem?, length, Bytes,
}
use share.Base.Int.{ℤ, pos, negsuc, pos_part}
use share.Bytes.Token.{is_token_at, has_at}

-- The results: the bytes cut, the position, and whether the token was found.
pub record Cutting : Type 0 where
  pub cut : Bytes
  pub position : ℤ
  pub found : Bool

-- A pending backslash was no escape after all.
abbrev pub unescaped : Bool → Bytes → Bytes
unescaped escaped v = if escaped then v ++ (b'\\' ∷ []) else v

unfoldable pub cut_loop : ℕ → Bytes → Bytes → Bool → ℕ → Bytes → Bool → Cutting
cut_loop zero line token check_esc p v escaped = record { cut = v; position = pos p; found = false }
cut_loop (suc fuel) line token check_esc p v escaped = elim (get_elem? line p) [
  | none ↦ record { cut = v; position = pos p; found = false }
  | some c ↦
      let plain =
        cut_loop fuel line token check_esc (p + 1) (unescaped escaped v ++ (c ∷ [])) false in
      elim (check_esc && c == b'\\') [
        | true ↦ cut_loop fuel line token check_esc (p + 1) (unescaped escaped v) (not escaped)
        | false ↦ elim (has_at token 0 c) [
          | false ↦ plain
          | true ↦ elim (is_token_at line token (pos p)) [
            | false ↦ plain
            | true ↦ elim escaped [
              | true ↦ cut_loop fuel line token check_esc (p + length token) (v ++ token) false
              | false ↦ record { cut = v; position = pos (p + length token); found = true }
            ]
          ]
        ]
      ]
]

unfoldable pub cut_until_token : Bytes → Bytes → ℤ → Bool → Cutting
unfolding cut_loop
cut_until_token line [] start check_esc = record { cut = line; position = negsuc 0; found = false }
cut_until_token line (t ∷ ts) start check_esc =
    let p = pos_part start in cut_loop (length line - p) line (t ∷ ts) check_esc p [] false

-- The reads of `line[p]` are in range; `token[0]` panics on an empty token: `none`.
unfoldable pub skip_loop : ℕ → Bytes → Bytes → Bool → ℕ → Bool → Option (ℕ × Bool)
skip_loop zero line token check_esc p escaped = some (p, false)
skip_loop (suc fuel) line token check_esc p escaped = elim (get_elem? line p) [
  | none ↦ some (p, false)
  | some c ↦
      let again = skip_loop fuel line token check_esc (p + 1) false in
      elim (check_esc && c == b'\\') [
        | true ↦ skip_loop fuel line token check_esc (p + 1) true
        | false ↦ elim (get_elem? token 0) [
          | none ↦ none
          | some t ↦ elim (c == t) [
            | false ↦ again
            | true ↦ elim (is_token_at line token (pos p)) [
              | false ↦ again
              | true ↦ elim (check_esc && escaped) [
                | true ↦ again
                | false ↦ some (p + length token, true)
              ]
            ]
          ]
        ]
      ]
]

unfoldable pub skip_after_token : Bytes → Bytes → ℤ → Bool → Option (ℕ × Bool)
unfolding skip_loop
skip_after_token line token start check_esc =
    let p = pos_part start in skip_loop (length line - p) line token check_esc p false
