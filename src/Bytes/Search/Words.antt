-- ===== src/Bytes/Search/Words.antt =====
-- What `InReplace`, `Indexes`, `WordIndexes` and `SnippetByIndexes` return.
use share.Base.{
  ℕ, zero, suc, ◌+◌, ◌-◌, ◌*◌, ◌≤◌, ◌<◌, ◌≡◌, ◌≢◌, ◌⊎◌, ◌↔◌, inl, inr, refl, sym, ap, ap₂, subst,
  ◌∙◌, true, false, List, [], ◌∷◌, Option, none, some, arith, ltb, if◌then◌else◌, Bool-cases,
  Option-cases, take, drop, drop-drop, length, length-drop, length-take, Bytes, All,
}
use share.Base.Int.{pos}
use share.Bytes.Token.{is_token_at}
use share.Bytes.Token.Laws.{is_token_at_iff, StandsAt-fits}
use share.Bytes.Cut.Plain.{NoTokenIn, NoTokenIn-cons}
use share.Bytes.Search.{
  is_allowed, in_replace, index_from, indexes_loop, indexes, space_at, is_word_at, keep_words,
  word_indexes, snippet_by_indexes,
}

-- What stands at a place of the output of `InReplace`.
abbrev pub IsReplaced : Bytes → ℕ → ℕ → ℕ → Type 0
IsReplaced allowed c b d =
    ((is_allowed b allowed ≡ true) × (d ≡ b)) ⊎ ((is_allowed b allowed ≡ false) × (d ≡ c))

abbrev pub Pointwise : (ℕ → ℕ → Type 0) → Bytes → Bytes → Type 0
Pointwise R [] [] = Unit
Pointwise R (x ∷ xs) (y ∷ ys) = R x y × Pointwise R xs ys
Pointwise R _ _ = ⊥

-- `InReplace` keeps the length and every byte that is allowed, and puts `c` for any other; done
-- twice it does no more.
pub in_replace_lem :
    (bs allowed : Bytes) (c : ℕ)
    → Pointwise (IsReplaced allowed c) bs (in_replace bs allowed c)
      × (in_replace (in_replace bs allowed c) allowed c ≡ in_replace bs allowed c)
unfolding in_replace
in_replace_lem [] allowed c = (tt, refl)
in_replace_lem (b ∷ bs) allowed c =
    let (all, twice) = in_replace_lem bs allowed c in
    elim (Bool-cases (is_allowed b allowed)) [
      | inl fine ↦ rw fine (((inl (refl, refl)), all), rw fine (ap (◌∷◌ b) twice))
      | inr bad ↦ rw bad (((inr (refl, refl)), all), ap₂ ◌∷◌ (ground arith) twice)
    ]

-- A token is seen through the part of the line that is cut off.
is_token_at-drop :
    (line token : Bytes) (o i n : ℕ)
    → n ≡ o + i
    → is_token_at (drop o line) token (pos i) ≡ is_token_at line token (pos n)
is_token_at-drop line token o i n e =
    let there = is_token_at_iff line token (pos n) in
    let here = is_token_at_iff (drop o line) token (pos i) in
    let same = drop-drop line o i n e in
    elim (Bool-cases (is_token_at line token (pos n))) [
      | inl yes_there ↦
          let (ne, (rest, s)) = there.0 yes_there in here.1 (ne, (rest, same ∙ s)) ∙ sym yes_there
      | inr not_there ↦ elim (Bool-cases (is_token_at (drop o line) token (pos i))) [
        | inl yes_here ↦
            let (ne, (rest, s)) = here.0 yes_here in
            yes_here ∙ sym (there.1 (ne, (rest, sym same ∙ s)))
        | inr not_here ↦ not_here ∙ sym not_there
      ]
    ]

-- The first place from `p` on, among the `n` next ones.
abbrev FirstIn : Bytes → Bytes → ℕ → ℕ → Option ℕ → Type 0
FirstIn line token p n none = NoTokenIn line token p (p + n)
FirstIn line token p n (some at) =
    (p ≤ at) × NoTokenIn line token p at × (is_token_at line token (pos at) ≡ true)

FirstIn-cons :
    (line token : Bytes) (p n : ℕ) (r : Option ℕ)
    → is_token_at line token (pos p) ≡ false
    → FirstIn line token (p + 1) n r
    → FirstIn line token p (suc n) r
FirstIn-cons line token p n none miss f =
    let e : p + suc n ≡ p + 1 + n = omega arith in
    rw e (NoTokenIn-cons line token p (p + 1 + n) miss f)
FirstIn-cons line token p n (some at) miss f =
    (omega arith, NoTokenIn-cons line token p at miss f.1, f.2)

index_from-FirstIn :
    (n : ℕ) (line token : Bytes) (p : ℕ) → FirstIn line token p n (index_from n line token p)
unfolding index_from
index_from-FirstIn zero line token p = λ i lo hi. absurd (omega arith)
index_from-FirstIn (suc n) line token p = elim (Bool-cases (is_token_at line token (pos p))) [
  | inl found ↦ rw (index_from_found found) (omega arith, (λ i lo hi. absurd (omega arith)), found)
  | inr miss ↦
      rw (index_from_miss miss)
        (FirstIn-cons line token p n _ miss (index_from-FirstIn n line token (p + 1)))
]
  where
    index_from_found :
        is_token_at line token (pos p) ≡ true → index_from (suc n) line token p ≡ some p
    index_from_found h = ground arith

    index_from_miss :
        is_token_at line token (pos p) ≡ false
        → index_from (suc n) line token p ≡ index_from n line token (p + 1)
    index_from_miss h = ground arith

-- The places of a token from `p` on, each the first behind the one before it.
pub data IsIndexed (line token : Bytes) : ℕ → List ℕ → Type 0 where
  done : {p : ℕ} → NoTokenIn line token p (length line) → IsIndexed line token p []
  next :
      {p at : ℕ} {rest : List ℕ}
      → p ≤ at
      → NoTokenIn line token p at
      → is_token_at line token (pos at) ≡ true
      → IsIndexed line token (at + length token) rest
      → IsIndexed line token p (at ∷ rest)

module _ (line token : Bytes) where
  shift_none : (o at : ℕ) → NoTokenIn (drop o line) token 0 at → NoTokenIn line token o (o + at)
  shift_none o at h i lo hi =
      sym (is_token_at-drop line token o (i - o) i (omega arith))
      ∙ h (i - o) (omega arith) (omega arith)

  indexes_loop-none :
      (fuel o : ℕ) (s : Bytes)
      → index_from (length s) s token 0 ≡ none
      → indexes_loop (suc fuel) s token o ≡ []
  unfolding indexes_loop
  indexes_loop-none fuel o s h = ground arith

  indexes_loop-some :
      (fuel o at : ℕ) (s : Bytes)
      → index_from (length s) s token 0 ≡ some at
      → indexes_loop (suc fuel) s token o
        ≡ (o + at) ∷ indexes_loop fuel (drop (at + length token) s) token (o + (at + length token))
  unfolding indexes_loop
  indexes_loop-some fuel o at s h = ground arith

  indexes_loop-IsIndexed :
      (fuel o : ℕ)
      → token ≢ []
      → length line ≤ o + fuel
      → o ≤ length line
      → IsIndexed line token o (indexes_loop fuel (drop o line) token o)
  indexes_loop-IsIndexed zero o ne h k =
      unfold indexes_loop in done {p = o} (λ i lo hi. absurd (omega arith))
  indexes_loop-IsIndexed (suc fuel) o ne h k =
      let s = drop o line in
      let first = index_from-FirstIn (length s) s token 0 in
      elim (Option-cases (index_from (length s) s token 0)) [
        | inl gone ↦
            let e : o + (0 + length s) ≡ length line = omega (arith, length-drop o line) in
            rw (indexes_loop-none fuel o s gone) (
              done {p = o}
                (subst (NoTokenIn line token o) e (shift_none o (0 + length s) (rw gone at first))))
        | inr (at, found) ↦
            let (lo, none_before, stands) = rw found at first in
            let there : is_token_at line token (pos (o + at)) ≡ true =
              sym (is_token_at-drop line token o at (o + at) refl) ∙ stands in
            let fits =
              StandsAt-fits line token (o + at) ne
                ((is_token_at_iff line token (pos (o + at))).0 there).1 in
            let assoc : o + (at + length token) ≡ o + at + length token = omega arith in
            rw (indexes_loop-some fuel o at s found) (
              next {p = o} (omega arith) (shift_none o at none_before) there (
                subst
                  (λ q. IsIndexed line token q (
                    indexes_loop fuel (drop (at + length token) s) token (o + (at + length token))))
                  assoc
                  (rw (drop-drop line o (at + length token) (o + (at + length token)) refl) (
                    indexes_loop-IsIndexed fuel (o + (at + length token)) ne
                      (omega (arith, length_pos token ne)) (omega arith)))))
      ]
    where
      length_pos : (t : Bytes) → t ≢ [] → 0 < length t
      length_pos [] h = absurd (h refl)
      length_pos (b ∷ bs) h = omega arith

-- `Indexes` returns every place of a token that is not empty, from the left, without overlaps:
-- each is the first behind the end of the one before, and behind the last there is none.
pub indexes-IsIndexed :
    (line token : Bytes) → token ≢ [] → IsIndexed line token 0 (indexes line token)
unfolding indexes
indexes-IsIndexed [] token ne = done {p = 0} (λ i lo hi. absurd (omega arith))
indexes-IsIndexed (c ∷ s) [] ne = absurd (ne refl)
indexes-IsIndexed (c ∷ s) (t ∷ ts) ne =
    indexes_loop-IsIndexed (c ∷ s) (t ∷ ts) (length (c ∷ s)) 0 ne (omega arith) (omega arith)

-- A space or an end of the text is on both sides.
abbrev pub IsWord : Bytes → Bytes → ℕ → Type 0
IsWord s word idx =
    ((idx ≡ 0) ⊎ (space_at s (idx - 1) ≡ true))
    × ((length s ≤ idx + length word) ⊎ (space_at s (idx + length word) ≡ true))

is_word_at_iff : (s word : Bytes) (idx : ℕ) → (is_word_at s word idx ≡ true) ↔ IsWord s word idx
unfolding is_word_at
is_word_at_iff s word idx = (λ h. grind arith, λ (l, r). grind arith)

-- `r` is `l` without the members that do not satisfy `P`.
pub data Kept (P : ℕ → Type 0) : List ℕ → List ℕ → Type 0 where
  end : Kept P [] []
  keep : {x : ℕ} {l r : List ℕ} → P x → Kept P l r → Kept P (x ∷ l) (x ∷ r)
  skip : {x : ℕ} {l r : List ℕ} → ¬ P x → Kept P l r → Kept P (x ∷ l) r

keep_words-Kept :
    (s word : Bytes) (idxs : List ℕ) → Kept (IsWord s word) idxs (keep_words s word idxs)
unfolding keep_words
keep_words-Kept s word [] = end
keep_words-Kept s word (idx ∷ idxs) = elim (Bool-cases (is_word_at s word idx)) [
  | inl word_here ↦
      rw word_here (keep ((is_word_at_iff s word idx).0 word_here) (keep_words-Kept s word idxs))
  | inr other ↦
      rw other
        (skip (λ w. cc (other, (is_word_at_iff s word idx).1 w)) (keep_words-Kept s word idxs))
]

-- `WordIndexes` keeps of `Indexes` exactly the places with a space or an end of the text on both
-- sides, in their order.
pub word_indexes-Kept :
    (s word : Bytes) → Kept (IsWord s word) (indexes s word) (word_indexes s word)
unfolding word_indexes
word_indexes-Kept s word = keep_words-Kept s word (indexes s word)

abbrev snippet_end : Bytes → ℕ → ℕ → ℕ
snippet_end s idx sniplen = if ltb (length s) (idx + sniplen) then length s else idx + sniplen

snippet_by_indexes_cons :
    (s : Bytes) (idx : ℕ) (idxs : List ℕ) (sniplen : ℕ) {r : List Bytes}
    → idx ≤ length s + sniplen
    → snippet_by_indexes s idxs sniplen ≡ some r
    → snippet_by_indexes s (idx ∷ idxs) sniplen
      ≡ some (take (snippet_end s idx sniplen - (idx - sniplen)) (drop (idx - sniplen) s) ∷ r)
unfolding snippet_by_indexes
snippet_by_indexes_cons s idx idxs sniplen h e = ground arith

-- `SnippetByIndexes` does not panic if no index is more than `sniplen` past the end, and returns
-- for each index a snippet of at most twice `sniplen` bytes.
pub snippet_by_indexes_total :
    (s : Bytes) (idxs : List ℕ) (sniplen : ℕ)
    → All (λ i. i ≤ length s + sniplen) idxs
    → (r : List Bytes) × (snippet_by_indexes s idxs sniplen ≡ some r)
      × (length r ≡ length idxs)
      × All (λ p. length p ≤ 2 * sniplen) r
snippet_by_indexes_total s [] sniplen h = ([], unfold snippet_by_indexes in refl, refl, tt)
snippet_by_indexes_total s (idx ∷ idxs) sniplen h =
    let (r, e, len, short) = snippet_by_indexes_total s idxs sniplen h.1 in
    let n = snippet_end s idx sniplen - (idx - sniplen) in
    (
      take n (drop (idx - sniplen) s) ∷ r,
      snippet_by_indexes_cons s idx idxs sniplen h.0 e,
      ap suc len,
      (ground (arith, length-take n (drop (idx - sniplen) s)), short),
    )
