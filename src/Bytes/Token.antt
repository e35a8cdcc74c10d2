-- ===== src/Bytes/Token.antt =====
-- `IsTokenAt` and `TokenFind` of lib/bytes/bytes.go. Positions are numbers; an argument that may be
-- negative is an integer.
pub mod Laws
pub mod Find
use share.Base.{
  ℕ, zero, suc, ◌+◌, Bool, true, false, List, [], ◌∷◌, Option, none, some, ltb, ◌==◌, if◌then◌else◌,
  get_elem?, drop, length, Bytes,
}
use share.Base.Int.{ℤ, pos, pos_part}

-- `s[i] == c`, for an index in range.
abbrev pub has_at : Bytes → ℕ → ℕ → Bool
has_at s i c = elim (get_elem? s i) [ none ↦ false | some b ↦ b == c ]

-- The comparing loop, over what is left of the token.
token_loop : Bytes → ℕ → Bytes → Bool
token_loop line p [] = true
token_loop line p (t ∷ ts) = if has_at line p t then token_loop line (p + 1) ts else false

-- A negative position counts as 0.
unfoldable pub is_token_at : Bytes → Bytes → ℤ → Bool
unfolding token_loop
is_token_at line [] p = false
is_token_at line (t ∷ ts) p =
    let p' = pos_part p in
    if ltb (length line) (p' + length (t ∷ ts)) then false else token_loop line p' (t ∷ ts)

-- The loop of `TokenFind` over `line[x:]`; `at` is `none` for -1. While it runs `y` is below the
-- length of the token.
find_loop : Bytes → ℕ → Bytes → ℕ → Option ℕ → Option ℕ
find_loop token x [] y found = if ltb y (length token) then none else found
find_loop token x (c ∷ s) y found = elim (has_at token y c) [
  | true ↦
      let at = if y == 0 then some x else found in
      elim (y + 1 == length token) [ true ↦ at | false ↦ find_loop token (x + 1) s (y + 1) at ]
  | false ↦ elim found [
    | none ↦ find_loop token (x + 1) s y none
    | some a ↦ find_loop token (x + 1) s 0 none
  ]
]

-- The result -1 is `none`.
unfoldable pub token_find : Bytes → Bytes → ℤ → Option ℕ
unfolding find_loop
token_find line [] start = none
token_find line (t ∷ ts) start = let x = pos_part start in find_loop (t ∷ ts) x (drop x line) 0 none
