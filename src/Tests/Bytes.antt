-- ===== src/Tests/Bytes.antt =====
-- lib/bytes on concrete slices.
use share.Base.{ℕ, ◌≤◌, ◌≡◌, inr, refl, true, false, [], ◌∷◌, none, some, arith, ltb, Bytes}
use share.Base.Int.{pos}
use share.Bytes.Hex.{read_hex_byte, read_hex_byte_digits}
use share.Bytes.Token.{is_token_at, token_find}
use share.Bytes.Token.Find.{token_find_sound, token_find_misses}
use share.Bytes.Cut.{cut_until_token, skip_after_token}
use share.Bytes.Cut.Plain.{IsCut, cut_until_token_plain, skip_after_token-cut_until_token}
use share.Bytes.Cut.Escape.{cut_until_token-quote}
use share.Bytes.Enclose.{enclose_remove, enclose_token}
use share.Bytes.Enclose.Remove.{Removes, enclose_remove-Removes}
use share.Bytes.Enclose.Token.{Pieces, enclose_token-Pieces}
use share.Bytes.Search.{indexes, word_indexes}
use share.Bytes.Search.Words.{IsIndexed, indexes-IsIndexed, IsWord, Kept, word_indexes-Kept}

abbrev prefix : Bytes
prefix = 1 ∷ 2 ∷ []

-- "a=b=c"
abbrev line : Bytes
line = b'a' ∷ b'=' ∷ b'b' ∷ b'=' ∷ b'c' ∷ []

abbrev equals : Bytes
equals = b'=' ∷ []

read_hex_byte_digits_example : read_hex_byte (1 ∷ 2 ∷ b'A' ∷ b'7' ∷ []) 2 ≡ some (0xa7, true)
read_hex_byte_digits_example = read_hex_byte_digits prefix [] b'A' 0xa7 (inr refl) (omega arith)

found_at_three : token_find line equals (pos 2) ≡ some 3
unfolding token_find
found_at_three = refl

token_find_sound_example : (2 ≤ 3) × (is_token_at line equals (pos 3) ≡ true)
token_find_sound_example = token_find_sound line equals (pos 2) found_at_three

token_find_misses_example :
    (token_find (b'a' ∷ b'a' ∷ b'b' ∷ []) (b'a' ∷ b'b' ∷ []) (pos 0) ≡ none)
    × (is_token_at (b'a' ∷ b'a' ∷ b'b' ∷ []) (b'a' ∷ b'b' ∷ []) (pos 1) ≡ true)
token_find_misses_example = token_find_misses b'a' b'b' [] (omega arith)

cut_run :
    cut_until_token line equals (pos 0) false
    ≡ record { cut = b'a' ∷ []; position = pos 2; found = true }
unfolding cut_until_token is_token_at
cut_run = refl

cut_until_token_plain_example : IsCut line equals 2 [] (cut_until_token line equals (pos 2) false)
cut_until_token_plain_example = cut_until_token_plain line equals 2 (λ e. cc) (omega arith)

skip_after_token-cut_until_token_example :
    (q : ℕ) × ((cut_until_token line equals (pos 2) false).position ≡ pos q)
    × (skip_after_token line equals (pos 2) false
        ≡ some (q, (cut_until_token line equals (pos 2) false).found))
skip_after_token-cut_until_token_example =
    skip_after_token-cut_until_token line equals 2 (λ e. cc) (omega arith)

-- "a\=b=", whose quoted text is "a=b"
abbrev quoted : Bytes
quoted = b'a' ∷ b'\\' ∷ b'=' ∷ b'b' ∷ b'=' ∷ []

cut_until_token-quote_example :
    cut_until_token quoted equals (pos 0) true
    ≡ record { cut = b'a' ∷ b'=' ∷ b'b' ∷ []; position = pos 5; found = true }
cut_until_token-quote_example =
    cut_until_token-quote quoted b'=' (b'a' ∷ b'=' ∷ b'b' ∷ []) [] 0 (omega arith) refl

-- "x(y)z"
abbrev capped : Bytes
capped = b'x' ∷ b'(' ∷ b'y' ∷ b')' ∷ b'z' ∷ []

remove_run : enclose_remove capped (b'(' ∷ []) (b')' ∷ []) ≡ (b'x' ∷ b'z' ∷ [], true)
unfolding enclose_remove token_find
remove_run = refl

enclose_remove-Removes_example :
    let r = enclose_remove capped (b'(' ∷ []) (b')' ∷ []) in
    Removes (b'(' ∷ []) (b')' ∷ []) capped r.0 r.1
    × (enclose_remove r.0 (b'(' ∷ []) (b')' ∷ []) ≡ (r.0, false))
enclose_remove-Removes_example = enclose_remove-Removes (b'(' ∷ []) (b')' ∷ []) capped

enclose_run :
    enclose_token (b'a' ∷ b'b' ∷ []) (b'b' ∷ []) (b'<' ∷ []) (b'>' ∷ [])
    ≡ (b'a' ∷ b'<' ∷ b'b' ∷ b'>' ∷ [], true)
unfolding enclose_token token_find
enclose_run = refl

enclose_token-Pieces_example :
    (newline : Bytes) × (end : ℕ) × Pieces line equals (b'<' ∷ []) (b'>' ∷ []) 0 newline end
    × (enclose_token line equals (b'<' ∷ []) (b'>' ∷ []) ≡ (newline, ltb 0 end))
enclose_token-Pieces_example = enclose_token-Pieces line equals (b'<' ∷ []) (b'>' ∷ [])

indexes_run : indexes line equals ≡ 1 ∷ 3 ∷ []
unfolding indexes is_token_at
indexes_run = refl

indexes-IsIndexed_example : IsIndexed line equals 0 (indexes line equals)
indexes-IsIndexed_example = indexes-IsIndexed line equals (λ e. cc)

word_indexes-Kept_example :
    Kept (IsWord line equals) (indexes line equals) (word_indexes line equals)
word_indexes-Kept_example = word_indexes-Kept line equals
