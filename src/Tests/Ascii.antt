-- ===== src/Tests/Ascii.antt =====
-- lib/ascii on concrete bytes.
use share.Base.{ℕ, ◌%◌, ◌<◌, ◌≡◌, ◌≢◌, ◌↔◌, refl, true, false, [], ◌∷◌, arith, length, Bytes, All}
use share.Ascii.{to_lower, to_upper, is_hex, is_digits, is_alnum, is_space}
use share.Ascii.Laws.{to_lower-to_upper, is_hex_iff, IsUpper, IsHexDigit}

abbrev mixed : Bytes
mixed = b'a' ∷ b'Z' ∷ b'-' ∷ 0xe9 ∷ []

to_lower_run : to_lower mixed ≡ b'a' ∷ b'z' ∷ b'-' ∷ 0xe9 ∷ []
unfolding to_lower
to_lower_run = refl

tests_run :
    (is_digits (b'0' ∷ b'9' ∷ []) ≡ true)
    × (is_alnum b'_' ≡ false)
    × (is_space 0x0b ≡ true)
    × (is_hex b'0' ≡ false)
unfolding is_digits is_alnum is_space is_hex
tests_run = (refl, refl, refl, refl)

to_lower-to_upper_example :
    (to_lower (to_upper mixed) ≡ to_lower mixed)
    × (to_upper (to_lower mixed) ≡ to_upper mixed)
    × (to_lower (to_lower mixed) ≡ to_lower mixed)
    × (length (to_lower mixed) ≡ length mixed)
    × All (λ b. ¬ IsUpper b) (to_lower mixed)
to_lower-to_upper_example = to_lower-to_upper mixed

is_hex_iff_example : (is_hex b'f' ≡ true) ↔ (IsHexDigit b'f' × ◌≢◌ {A = ℕ} b'f' b'0')
is_hex_iff_example = is_hex_iff b'f'

-- A generator that stays in range: the round modulo the length.
abbrev draw : ℕ → ℕ → ℕ
draw x k = x % k

draw_below : (x k : ℕ) → 0 < k → draw x k < k
draw_below x k h = omega arith
