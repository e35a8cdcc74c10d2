-- ===== src/Bytes/Enclose/Token.antt =====
-- `EncloseToken` puts caps round the tokens that `TokenFind` sees, and changes nothing else.
use share.Base.{
  ℕ, zero, suc, ◌+◌, ◌-◌, ◌≤◌, ◌<◌, ◌≡◌, ◌≢◌, ◌⊎◌, inl, inr, refl, ap, subst, ◌∙◌, Bool, true,
  false, List, [], ◌∷◌, ◌++◌, append_assoc, none, some, arith, ltb, if◌then◌else◌, Option-cases,
  take, drop, length, length-take, length-drop, Bytes,
}
use share.Base.Int.{pos}
use share.Bytes.Token.{token_find}
use share.Bytes.Token.Find.{token_find_sound}
use share.Bytes.Enclose.{enclose_loop, enclose_token}
use share.Bytes.Enclose.Remove.{token_find_fits, split_at_token}

-- The gaps, each with `sep` behind it, and then the last piece.
abbrev pub join : Bytes → List Bytes → Bytes → Bytes
join sep [] last = last
join sep (gap ∷ gaps) last = gap ++ (sep ++ join sep gaps last)

-- Each gap goes from where the last token ends to the next place that `TokenFind` sees, and `end` is
-- where the last of these tokens ends.
abbrev pub Places : Bytes → Bytes → ℕ → List Bytes → ℕ → Type 0
Places line token x [] end = end ≡ x
Places line token x (gap ∷ gaps) end =
    (token_find line token (pos x) ≡ some (x + length gap))
    × Places line token (x + length gap + length token) gaps end

-- The line from `x` on and what is written for it, as the same gaps and the same last piece.
pub record Pieces (line token leftcap rightcap : Bytes) (x : ℕ) (newline : Bytes) (end : ℕ)
    : Type 0 where
  pub gaps : List Bytes
  pub last : Bytes
  pub splits : drop x line ≡ join token gaps last
  pub writes : newline ≡ join (leftcap ++ (token ++ rightcap)) gaps last
  pub places : Places line token x gaps end
  pub last_at : last ≡ drop end line
  pub moved : ((gaps ≡ []) × (end ≡ x)) ⊎ ((gaps ≢ []) × (x < end))
  pub no_more : token_find line token (pos end) ≡ none

module _ (line token leftcap rightcap : Bytes) where
  enclose_loop_found :
      (fuel x at : ℕ) (out : Bytes)
      → token_find line token (pos x) ≡ some at
      → enclose_loop (suc fuel) line token leftcap rightcap x out
        ≡ enclose_loop fuel line token leftcap rightcap
            (at + length token)
            (out ++ (take (at - x) (drop x line) ++ (leftcap ++ (token ++ rightcap))))
  unfolding enclose_loop
  enclose_loop_found fuel x at out e = ground arith

  moved-le :
      {gaps : List Bytes} {x end : ℕ}
      → ((gaps ≡ []) × (end ≡ x)) ⊎ ((gaps ≢ []) × (x < end))
      → x ≤ end
  moved-le (inl (_, e)) = omega arith
  moved-le (inr (_, l)) = omega arith

  enclose_loop-Pieces :
      (fuel x : ℕ) (out : Bytes)
      → length line < x + fuel
      → x ≤ length line
      → (newline : Bytes) × (end : ℕ) × (enclose_loop fuel line token leftcap rightcap x out
          ≡ (out ++ newline, end))
        × Pieces line token leftcap rightcap x newline end
  enclose_loop-Pieces zero x out h k = absurd (omega arith)
  enclose_loop-Pieces (suc fuel) x out h k = elim (Option-cases (token_find line token (pos x))) [
    | inl gone ↦ (
      drop x line,
      x,
      unfold enclose_loop in ground arith,
      record {
        gaps = [];
        last = drop x line;
        splits = refl;
        writes = refl;
        places = refl;
        last_at = refl;
        moved = inl (refl, refl);
        no_more = gone;
      },
    )
    | inr (at, e) ↦
        let (from, fits, some_token) = token_find_fits line token x e in
        let (_, stands) = token_find_sound line token (pos x) e in
        let gap = take (at - x) (drop x line) in
        let at_gap : at ≡ x + length gap =
          omega (arith, length-take (at - x) (drop x line), length-drop x line) in
        let sep = leftcap ++ (token ++ rightcap) in
        let (newline, end, run, p) =
          enclose_loop-Pieces fuel (at + length token) (out ++ (gap ++ sep)) (omega arith) fits in
        (
          gap ++ (sep ++ newline),
          end,
          enclose_loop_found fuel x at out e
              ∙ run
              ∙ ap (λ (l : Bytes). (l, end))
                  (append_assoc out (gap ++ sep) newline
                    ∙ ap (λ l. out ++ l) (append_assoc gap sep newline)),
          record {
            gaps = gap ∷ p.gaps;
            last = p.last;
            splits =
                split_at_token line token x at from stands ∙ ap (λ l. gap ++ (token ++ l)) p.splits;
            writes = ap (λ l. gap ++ (sep ++ l)) p.writes;
            places = (
              e ∙ ap some at_gap,
              subst (λ (n : ℕ). Places line token (n + length token) p.gaps end) at_gap p.places,
            );
            last_at = p.last_at;
            moved = inr ((λ q. cc), omega (arith, moved-le p.moved));
            no_more = p.no_more;
          },
        )
  ]

  -- `EncloseToken` keeps the line but for caps round the tokens: line and result fall into the same
  -- gaps and the same last piece, with bare tokens between them in the one and capped tokens in the
  -- other. Each gap reaches to the first token that `TokenFind` sees from where the gap begins, which
  -- is at the start of the line or behind the token before; the last piece is what is behind the last
  -- of these tokens, and there `TokenFind` sees none. The flag is true exactly if there is a gap.
  pub enclose_token-Pieces :
      (newline : Bytes) × (end : ℕ) × Pieces line token leftcap rightcap 0 newline end
      × (enclose_token line token leftcap rightcap ≡ (newline, ltb 0 end))
  unfolding enclose_token
  enclose_token-Pieces =
      let (newline, end, run, p) =
        enclose_loop-Pieces (suc (length line)) 0 [] (omega arith) (omega arith) in
      let flag : (if ltb 0 end then true else false) ≡ ltb 0 end = ground arith in
      let tested = λ (r : Bytes × ℕ). let b : Bool = if ltb 0 r.1 then true else false in b in
      (
        newline,
        end,
        p,
        ap (λ (r : Bytes × ℕ). let q : Bytes × Bool = (r.0, tested r) in q) run
            ∙ ap (λ (b : Bool). let q : Bytes × Bool = (newline, b) in q) flag,
      )
