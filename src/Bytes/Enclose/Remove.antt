-- ===== src/Bytes/Enclose/Remove.antt =====
-- `EncloseRemove` takes out every pair that `TokenFind` sees.
use share.Base.{
  ℕ, zero, suc, ◌+◌, ◌-◌, ◌≤◌, ◌<◌, ◌≡◌, ◌≢◌, inl, inr, refl, sym, ap, ◌∙◌, Bool, true, false, [],
  ◌∷◌, ◌++◌, none, some, arith, Option-cases, take, drop, length, length-append, length-take,
  length-drop, drop-drop, drop-append_exact, take-append-drop, Bytes,
}
use share.Base.Int.{pos}
use share.Bytes.Token.{is_token_at, token_find}
use share.Bytes.Token.Laws.{StandsAt-fits, is_token_at_iff}
use share.Bytes.Token.Find.{token_find_sound}
use share.Bytes.Enclose.{without, remove_loop, enclose_remove}

-- What a call of `TokenFind` says of lengths.
pub token_find_fits :
    (line token : Bytes) (x : ℕ) {at : ℕ}
    → token_find line token (pos x) ≡ some at
    → (x ≤ at) × (at + length token ≤ length line) × (0 < length token)
token_find_fits line token x {at} e =
    let (from, stands) = token_find_sound line token (pos x) e in
    let (ne, s) = (is_token_at_iff line token (pos at)).0 stands in
    (from, StandsAt-fits line token at ne s, nonempty token ne)
  where
    nonempty : (t : Bytes) → t ≢ [] → 0 < length t
    nonempty [] h = absurd (h refl)
    nonempty (b ∷ bs) h = omega arith

-- At a token the rest of the line splits.
pub split_at_token :
    (line token : Bytes) (x at : ℕ)
    → x ≤ at
    → is_token_at line token (pos at) ≡ true
    → drop x line ≡ take (at - x) (drop x line) ++ (token ++ drop (at + length token) line)
split_at_token line token x at from stands =
    let (ne, (rest, s)) = (is_token_at_iff line token (pos at)).0 stands in
    let behind : drop (at + length token) line ≡ rest =
      sym (drop-drop line at (length token) (at + length token) refl)
      ∙ ap (drop (length token)) s
      ∙ drop-append_exact token rest (length token) refl in
    sym (take-append-drop (at - x) (drop x line))
    ∙ ap (λ l. take (at - x) (drop x line) ++ l)
        (drop-drop line x (at - x) at (omega arith) ∙ s ∙ ap (λ l. token ++ l) (sym behind))

module _ (leftcap rightcap : Bytes) where
  -- A line, what is left of it, and whether that is less: without a left cap, or without a right cap
  -- behind the first left cap, the line stays; otherwise all from the first left cap to the end of
  -- the next right cap goes, and what is before and behind it, joined, is the line to go on with.
  pub data Removes : Bytes → Bytes → Bool → Type 0 where
    no_left : {line : Bytes} → token_find line leftcap (pos 0) ≡ none → Removes line line false
    no_right :
        {line : Bytes} (lidx : ℕ)
        → token_find line leftcap (pos 0) ≡ some lidx
        → token_find line rightcap (pos (lidx + 1)) ≡ none
        → Removes line line false
    pair :
        {line result : Bytes} {more : Bool} (before inner after : Bytes)
        → line ≡ before ++ (inner ++ (rightcap ++ after))
        → token_find line leftcap (pos 0) ≡ some (length before)
        → token_find line rightcap (pos (length before + 1)) ≡ some (length before + length inner)
        → Removes (before ++ after) result more
        → Removes line result true

  found_pair :
      (line : Bytes) (lidx ridx : ℕ) {result : Bytes} {more : Bool}
      → token_find line leftcap (pos 0) ≡ some lidx
      → token_find line rightcap (pos (lidx + 1)) ≡ some ridx
      → Removes (without line lidx ridx rightcap) result more
      → Removes line result true
  found_pair line lidx ridx el er rest =
      let (far, stands) = token_find_sound line rightcap (pos (lidx + 1)) er in
      let (_, fits, _) = token_find_fits line rightcap (lidx + 1) er in
      let at_left : length (take lidx line) ≡ lidx = omega (arith, length-take lidx line) in
      let inner = take (ridx - lidx) (drop lidx line) in
      let at_right : length inner ≡ ridx - lidx =
        omega (arith, length-take (ridx - lidx) (drop lidx line), length-drop lidx line) in
      let there : length (take lidx line) + length inner ≡ ridx = omega arith in
      pair (take lidx line) inner (drop (ridx + length rightcap) line)
        (sym (take-append-drop lidx line)
          ∙ ap (λ l. take lidx line ++ l)
              (split_at_token line rightcap lidx ridx (omega arith) stands))
        (el ∙ ap some (sym at_left))
        (ap (λ (n : ℕ). token_find line rightcap (pos (n + 1))) at_left ∙ er ∙ ap some (sym there))
        rest

  length-without :
      (line : Bytes) (lidx ridx : ℕ)
      → lidx < ridx
      → ridx + length rightcap ≤ length line
      → length (without line lidx ridx rightcap) + length rightcap + 1 ≤ length line
  length-without line lidx ridx lt fits = omega (
    arith,
    length-append (take lidx line) (drop (ridx + length rightcap) line),
    length-take lidx line,
    length-drop (ridx + length rightcap) line,
  )

  -- One round: either nothing is removed, whatever the fuel, or a shorter line is left.
  data Round (line : Bytes) : Type 0 where
    stay :
        Removes line line false
        → ((fuel : ℕ) → remove_loop fuel line leftcap rightcap ≡ (line, false))
        → Round line
    cut :
        (shorter : Bytes)
        → ((result : Bytes) (more : Bool) → Removes shorter result more → Removes line result true)
        → length shorter + length rightcap + 1 ≤ length line
        → ((fuel : ℕ)
            → remove_loop (suc fuel) line leftcap rightcap
              ≡ ((remove_loop fuel shorter leftcap rightcap).0, true))
        → Round line

  round : (line : Bytes) → Round line
  round line = elim (Option-cases (token_find line leftcap (pos 0))) [
    | inl el ↦ stay (no_left el) (unfold remove_loop in elim [ zero ↦ refl | suc f ↦ ground arith ])
    | inr (lidx, el) ↦ elim (Option-cases (token_find line rightcap (pos (lidx + 1)))) [
      | inl er ↦
          stay (no_right lidx el er)
            (unfold remove_loop in elim [ zero ↦ refl | suc f ↦ ground arith ])
      | inr (ridx, er) ↦
          let (from, fits, _) = token_find_fits line rightcap (lidx + 1) er in
          cut (without line lidx ridx rightcap) (λ result more. found_pair line lidx ridx el er)
            (length-without line lidx ridx (omega arith) fits)
            (λ fuel. unfold remove_loop in ground arith)
    ]
  ]

  abbrev Fixed : Bytes → Type 0
  Fixed line = (fuel : ℕ) → remove_loop fuel line leftcap rightcap ≡ (line, false)

  -- With enough fuel the loop removes pair after pair, until nothing is left to remove.
  remove_loop-Removes :
      (fuel : ℕ) (line : Bytes)
      → length line ≤ fuel
      → let r = remove_loop fuel line leftcap rightcap in Fixed r.0 × Removes line r.0 r.1
  remove_loop-Removes zero line h = elim (round line) [
    | stay ends same ↦ (unfold remove_loop in same, unfold remove_loop in ends)
    | cut shorter step lt e ↦ absurd (omega arith)
  ]
  remove_loop-Removes (suc fuel) line h = elim (round line) [
    | stay ends same ↦ rw (same (suc fuel)) (same, ends)
    | cut shorter step lt e ↦
        let (done, rest) = remove_loop-Removes fuel shorter (omega arith) in
        rw (e fuel) (done, step _ _ rest)
  ]

  -- `EncloseRemove` takes out pair after pair: all from the first left cap that `TokenFind` sees to
  -- the end of the next right cap behind it, and what is before and behind is kept and joined, until
  -- the line has no such pair. The flag tells whether anything was taken out, and from the result
  -- nothing more would be.
  pub enclose_remove-Removes :
      (line : Bytes)
      → let r = enclose_remove line leftcap rightcap in
        Removes line r.0 r.1 × (enclose_remove r.0 leftcap rightcap ≡ (r.0, false))
  unfolding enclose_remove
  enclose_remove-Removes line =
      let (done, which) = remove_loop-Removes (length line) line (omega arith) in (which, done _)
