-- ===== src/Bytes/Enclose.antt =====
-- `EncloseRemove` and `EncloseToken` of lib/bytes/bytes.go. Fuel: each removal shortens the line,
-- and each token found lies behind the last, so there are no more rounds than bytes.
pub mod Remove
pub mod Token
use share.Base.{
  ℕ, zero, suc, ◌+◌, ◌-◌, Bool, true, false, List, [], ◌∷◌, ◌++◌, Option, none, some, ltb, leb,
  if◌then◌else◌, take, drop, length, Bytes,
}
use share.Base.Int.{ℤ, pos}
use share.Bytes.Token.{token_find}

-- `line[:lidx]` and `line[ridx+len(rightcap):]`, joined.
abbrev pub without : Bytes → ℕ → ℕ → Bytes → Bytes
without line lidx ridx rightcap = take lidx line ++ drop (ridx + length rightcap) line

unfoldable pub remove_loop : ℕ → Bytes → Bytes → Bytes → Bytes × Bool
remove_loop zero line leftcap rightcap = (line, false)
remove_loop (suc fuel) line leftcap rightcap = elim (token_find line leftcap (pos 0)) [
  | none ↦ (line, false)
  | some lidx ↦ elim (token_find line rightcap (pos (lidx + 1))) [
    | none ↦ (line, false)
    | some ridx ↦ elim (leb ridx lidx) [
      | true ↦ (line, false)
      | false ↦ ((remove_loop fuel (without line lidx ridx rightcap) leftcap rightcap).0, true)
    ]
  ]
]

unfoldable pub enclose_remove : Bytes → Bytes → Bytes → Bytes × Bool
unfolding remove_loop
enclose_remove line leftcap rightcap = remove_loop (length line) line leftcap rightcap

-- The result is the new line and `startat`.
unfoldable pub enclose_loop : ℕ → Bytes → Bytes → Bytes → Bytes → ℕ → Bytes → Bytes × ℕ
enclose_loop zero line token leftcap rightcap startat newline =
    (newline ++ drop startat line, startat)
enclose_loop (suc fuel) line token leftcap rightcap startat newline =
    elim (token_find line token (pos startat)) [
      | none ↦ (newline ++ drop startat line, startat)
      | some foundat ↦ enclose_loop fuel line token leftcap rightcap (foundat + length token) (
          newline
          ++ (take (foundat - startat) (drop startat line) ++ (leftcap ++ (token ++ rightcap))))
    ]

unfoldable pub enclose_token : Bytes → Bytes → Bytes → Bytes → Bytes × Bool
unfolding enclose_loop
enclose_token line token leftcap rightcap =
    let (newline, startat) = enclose_loop (suc (length line)) line token leftcap rightcap 0 [] in
    (newline, if ltb 0 startat then true else false)
