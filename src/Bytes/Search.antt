-- ===== src/Bytes/Search.antt =====
-- `Copy`, `InReplace`, `Indexes`, `SnippetByIndexes` and `WordIndexes` of lib/bytes/bytes.go.
pub mod Words
use share.Base.{
  ◌>>=◌, ℕ, zero, suc, ◌+◌, ◌-◌, Bool, true, false, ◌&&◌, ◌||◌, List, [], ◌∷◌, ◌++◌, Option, none,
  some, ltb, leb, ◌==◌, if◌then◌else◌, get_elem?, take, drop, length, Bytes,
}
use share.Base.Int.{pos}
use share.Bytes.Token.{is_token_at}

-- `copy` into a new slice of the same length.
unfoldable pub copy : Bytes → Bytes
copy [] = []
copy (c ∷ s) = c ∷ copy s

-- The inner loop: whether a byte is allowed.
unfoldable pub is_allowed : ℕ → Bytes → Bool
is_allowed c [] = false
is_allowed c (a ∷ allowed) = if c == a then true else is_allowed c allowed

unfoldable pub in_replace : Bytes → Bytes → ℕ → Bytes
unfolding is_allowed
in_replace [] allowed c = []
in_replace (b ∷ bs) allowed c = (if is_allowed b allowed then b else c) ∷ in_replace bs allowed c

-- `bytes.Index`: the first place of the token in `line[p:]`, over as many places as `line` has.
unfoldable pub index_from : ℕ → Bytes → Bytes → ℕ → Option ℕ
index_from zero line token p = none
index_from (suc n) line token p = elim (is_token_at line token (pos p)) [
  | true ↦ some p
  | false ↦ index_from n line token (p + 1)
]

-- The loop of `Indexes`, with `offset` for the part of `s` that is cut off.
unfoldable pub indexes_loop : ℕ → Bytes → Bytes → ℕ → List ℕ
unfolding index_from
indexes_loop zero s token offset = []
indexes_loop (suc fuel) s token offset = elim (index_from (length s) s token 0) [
  | none ↦ []
  | some idx ↦
      let skip = idx + length token in
      (offset + idx) ∷ indexes_loop fuel (drop skip s) token (offset + skip)
]

unfoldable pub indexes : Bytes → Bytes → List ℕ
unfolding indexes_loop
indexes [] token = []
indexes (c ∷ s) [] = []
indexes (c ∷ s) (t ∷ ts) = indexes_loop (length (c ∷ s)) (c ∷ s) (t ∷ ts) 0

-- `unicode.IsSpace` below U+0100.
abbrev pub is_space_rune : ℕ → Bool
is_space_rune r = (leb 0x09 r && leb r 0x0d) || r == 0x20 || r == 0x85 || r == 0xa0

-- A byte in range that is a space.
abbrev pub space_at : Bytes → ℕ → Bool
space_at s x = elim (get_elem? s x) [ none ↦ false | some b ↦ is_space_rune b ]

-- The body of the loop of `WordIndexes`: whether `idx` is kept.
unfoldable pub is_word_at : Bytes → Bytes → ℕ → Bool
is_word_at s word idx =
    let x = idx + length word in
    if ltb 0 idx && (if space_at s (idx - 1) then false else true)
    then false
    else if leb (length s) x
    then true
    else space_at s x

unfoldable pub keep_words : Bytes → Bytes → List ℕ → List ℕ
unfolding is_word_at
keep_words s word [] = []
keep_words s word (idx ∷ idxs) =
    if is_word_at s word idx then idx ∷ keep_words s word idxs else keep_words s word idxs

unfoldable pub word_indexes : Bytes → Bytes → List ℕ
unfolding keep_words indexes
word_indexes s word = keep_words s word (indexes s word)

-- `s[start:end]`; `none` is a panic.
abbrev pub slice : Bytes → ℕ → ℕ → Option Bytes
slice s start end =
    if leb start end && leb end (length s) then some (take (end - start) (drop start s)) else none

unfoldable pub snippet_by_indexes : Bytes → List ℕ → ℕ → Option (List Bytes)
snippet_by_indexes s [] sniplen = some []
snippet_by_indexes s (idx ∷ idxs) sniplen = do
  let start = idx - sniplen
  let end = if ltb (length s) (idx + sniplen) then length s else idx + sniplen
  snippet ← slice s start end
  rest ← snippet_by_indexes s idxs sniplen
  some (snippet ∷ rest)
