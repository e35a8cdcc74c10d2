-- ===== src/Bytes/Token/Find.antt =====
-- What `TokenFind` finds, and what it misses.
use share.Base.{
  ℕ, zero, suc, ◌+◌, ◌≤◌, ◌<◌, ◌≡◌, ◌≢◌, inl, inr, refl, sym, ap, ◌∙◌, subst, Option-cases, true,
  [], ◌∷◌, ◌++◌, append-nil, append_assoc, Option, none, some, arith, ◌==◌, if◌then◌else◌,
  Bool-cases, get_elem?, take, drop, take_all, length, length-drop, Bytes,
}
use native.Mathlib.Decide.{dec_lt, ℕ_discrete}
use share.Base.Int.{ℤ, pos, pos_part}
use share.Bytes.Token.{has_at, is_token_at, find_loop, token_find}
use share.Bytes.Token.Laws.{StandsAt, uncons-drop, has_at_iff, take-suc, is_token_at_iff}

module _ (line token : Bytes) (start : ℕ) where
  -- What the loop knows: `y` bytes of the token match from `a` on, or none do.
  abbrev Matching : ℕ → Bytes → ℕ → Option ℕ → Type 0
  Matching x s y none = (y ≡ 0) × (start ≤ x)
  Matching x s y (some a) = (drop a line ≡ take y token ++ s) × (a + y ≡ x) × (0 < y) × (start ≤ a)

  next_match :
      (x c : ℕ) (s : Bytes) (y : ℕ) (found : Option ℕ)
      → drop x line ≡ c ∷ s
      → get_elem? token y ≡ some c
      → Matching x (c ∷ s) y found
      → (a : ℕ) × ((if y == 0 then some x else found) ≡ some a)
        × Matching (x + 1) s (y + 1) (some a)
  next_match x c s zero none e g m =
      (x, refl, (e ∙ ap (λ l. l ++ s) (take-suc token 0 g), omega arith, omega arith, omega arith))
  next_match x c s (suc y) none e g m = absurd (omega arith)
  next_match x c s zero (some a) e g m = absurd (omega arith)
  next_match x c s (suc y) (some a) e g m = (
    a,
    ground arith,
    (
      m.0
          ∙ sym (append_assoc (take (suc y) token) (c ∷ []) s)
          ∙ ap (λ l. l ++ s) (take-suc token (suc y) g),
      omega arith,
      omega arith,
      omega arith,
    ),
  )

  find_loop_sound :
      (x : ℕ) (s : Bytes) (y : ℕ) (found : Option ℕ) {at : ℕ}
      → drop x line ≡ s
      → y < length token
      → Matching x s y found
      → find_loop token x s y found ≡ some at
      → (start ≤ at) × StandsAt line token at
  unfolding find_loop
  find_loop_sound x [] y found e h m r = ground arith
  find_loop_sound x (c ∷ s) y found {at} e h m r = elim (Bool-cases (has_at token y c)) [
    | inl same ↦
        let (a, ea, m') = next_match x c s y found e ((has_at_iff token y c).0 same) m in
        elim (Bool-cases (y + 1 == length token)) [
          | inl whole ↦
              let all = take_all token (y + 1) (ground arith) in
              let here : a ≡ at = ground arith in
              subst (λ t. (start ≤ t) × StandsAt line token t) here
                (m'.3, (s, m'.0 ∙ ap (λ t. t ++ s) all))
          | inr part ↦
              find_loop_sound (x + 1) s (y + 1) (some a) (uncons-drop line x e).1 (ground arith) m'
                (ground arith)
        ]
    | inr other ↦ elim (Option-cases found) [
      | inl fresh ↦
          let m' = rw fresh at m in
          find_loop_sound (x + 1) s y none (uncons-drop line x e).1 h (m'.0, omega arith)
            (ground arith)
      | inr (a, held) ↦
          let m' = rw held at m in
          find_loop_sound (x + 1) s 0 none (uncons-drop line x e).1 (omega arith)
            (refl, omega arith) (ground arith)
    ]
  ]

-- What `TokenFind` returns is a position, not before the start, at which the token stands.
pub token_find_sound :
    (line token : Bytes) (start : ℤ) {at : ℕ}
    → token_find line token start ≡ some at
    → (pos_part start ≤ at) × (is_token_at line token (pos at) ≡ true)
unfolding token_find
token_find_sound line [] start r = cc
token_find_sound line (t ∷ ts) start {at} r =
    let x = pos_part start in
    let (from, stands) =
      find_loop_sound line (t ∷ ts) x x (drop x line) 0 none refl (omega arith) (refl, omega arith)
        r in
    (from, (is_token_at_iff line (t ∷ ts) (pos at)).1 ((λ e. cc), stands))

-- `t` is not among the bytes from `x` up to `at`.
abbrev pub Absent : Bytes → ℕ → ℕ → ℕ → Type 0
Absent line t x at = (i : ℕ) → x ≤ i → i < at → get_elem? line i ≢ some t

module _ (line : Bytes) (t : ℕ) where
  -- What the loop answers for a token of one byte.
  abbrev pub First : ℕ → Option ℕ → Type 0
  First x none = Absent line t x (length line)
  First x (some at) = (get_elem? line at ≡ some t) × Absent line t x at

  First-skip :
      (x c : ℕ) (r : Option ℕ) → get_elem? line x ≡ some c → c ≢ t → First (x + 1) r → First x r
  First-skip x c none here ne f = λ i h k e. elim (dec_lt x i) [
    | yes p ↦ f i (omega arith) k e
    | no p ↦ ground (arith, ap (get_elem? line) (let q : x ≡ i = omega arith in q))
  ]
  First-skip x c (some at) here ne f = (
    f.0,
    λ i h k e. elim (dec_lt x i) [
      | yes p ↦ f.1 i (omega arith) k e
      | no p ↦ ground (arith, ap (get_elem? line) (let q : x ≡ i = omega arith in q))
    ],
  )

  find_loop_same : (x c : ℕ) (s : Bytes) → c ≡ t → find_loop (t ∷ []) x (c ∷ s) 0 none ≡ some x
  unfolding find_loop
  find_loop_same x c s e = ground arith

  find_loop_other :
      (x c : ℕ) (s : Bytes)
      → c ≢ t
      → find_loop (t ∷ []) x (c ∷ s) 0 none ≡ find_loop (t ∷ []) (x + 1) s 0 none
  unfolding find_loop
  find_loop_other x c s e = ground arith

  find_loop_byte : (x : ℕ) (s : Bytes) → drop x line ≡ s → First x (find_loop (t ∷ []) x s 0 none)
  find_loop_byte x [] e =
      unfold find_loop in λ i h k g. omega (arith, ap length e, length-drop x line)
  find_loop_byte x (c ∷ s) e =
      let (here, next) = uncons-drop line x e in
      elim (ℕ_discrete c t) [
        | yes same ↦
            rw (find_loop_same x c s same) (here ∙ ap some same, λ i h k g. absurd (omega arith))
        | no other ↦
            rw (find_loop_other x c s other)
              (First-skip x c _ here other (find_loop_byte (x + 1) s next))
      ]

-- For a token of one byte -1 means that it is nowhere from the start on, and any other result is
-- its first place there.
pub token_find_byte : (line : Bytes) (t x : ℕ) → First line t x (token_find line (t ∷ []) (pos x))
unfolding token_find
token_find_byte line t x = find_loop_byte line t x (drop x line) refl

find_loop_short :
    (token : Bytes) (x : ℕ) (s : Bytes) (y : ℕ) (found : Option ℕ)
    → y + length s < length token
    → find_loop token x s y found ≡ none
unfolding find_loop
find_loop_short token x [] y found h = ground arith
find_loop_short token x (c ∷ s) y found h = ground (
  arith,
  find_loop_short token (x + 1) s (y + 1) (if y == 0 then some x else found),
  find_loop_short token (x + 1) s y none,
  find_loop_short token (x + 1) s 0 none,
)

-- A token that begins with two different bytes is missed behind one more copy of its first byte,
-- though it stands at position 1: after a mismatch the search goes on behind the byte that did not
-- match, and does not try that byte as a new start.
pub token_find_misses :
    (c d : ℕ) (ts : Bytes)
    → c ≢ d
    → (token_find (c ∷ c ∷ d ∷ ts) (c ∷ d ∷ ts) (pos 0) ≡ none)
      × (is_token_at (c ∷ c ∷ d ∷ ts) (c ∷ d ∷ ts) (pos 1) ≡ true)
unfolding token_find find_loop
token_find_misses c d ts ne = (
  ground (arith, find_loop_short (c ∷ d ∷ ts) 3 ts 0 none),
  (is_token_at_iff (c ∷ c ∷ d ∷ ts) (c ∷ d ∷ ts) (pos 1)).1 ((λ e. cc), ([], sym (append-nil _))),
)
