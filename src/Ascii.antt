-- ===== src/Ascii.antt =====
-- lib/ascii/ascii.go: tests on one byte and the changes of case. A slice that is changed in place
-- is returned.
pub mod Laws
use share.Base.{
  ℕ, zero, suc, ◌+◌, ◌-◌, ◌%◌, ◌^◌, Bool, true, false, ◌&&◌, ◌||◌, List, [], ◌∷◌, Option, none,
  some, ltb, leb, ◌==◌, if◌then◌else◌, length, get_elem?, u8, Bytes,
}

abbrev pub within : ℕ → ℕ → ℕ → Bool
within lo hi b = leb lo b && leb b hi

unfoldable pub is_alpha : ℕ → Bool
is_alpha b = if within b'a' b'z' b || within b'A' b'Z' b then true else false

unfoldable pub is_digit : ℕ → Bool
is_digit b = if within b'0' b'9' b then true else false

unfoldable pub is_alnum : ℕ → Bool
unfolding is_alpha is_digit
is_alnum b = is_alpha b || is_digit b

unfoldable pub is_digits : Bytes → Bool
unfolding is_digit
is_digits [] = true
is_digits (b ∷ bs) = if is_digit b then is_digits bs else false

-- The range of the digits starts at '1', as in the source.
unfoldable pub is_hex : ℕ → Bool
is_hex b = if within b'1' b'9' b || within b'a' b'f' b || within b'A' b'F' b then true else false

unfoldable pub is_space : ℕ → Bool
is_space b =
    if b == 0x09 || b == 0x0a || b == 0x0b || b == 0x0c || b == 0x0d || b == 0x20
    then true
    else false

-- `(*data)[x] += 32` on a byte.
unfoldable pub lower_byte : ℕ → ℕ
lower_byte b = if ltb b b'A' || ltb b'Z' b then b else u8 (b + 32)

-- `(*data)[x] -= 32` on a byte.
upper_byte : ℕ → ℕ
upper_byte b = if ltb b b'a' || ltb b'z' b then b else u8 (b + 2 ^ 8 - 32)

unfoldable pub to_lower : Bytes → Bytes
unfolding lower_byte
to_lower [] = []
to_lower (b ∷ bs) = lower_byte b ∷ to_lower bs

unfoldable pub to_upper : Bytes → Bytes
unfolding upper_byte
to_upper [] = []
to_upper (b ∷ bs) = upper_byte b ∷ to_upper bs

-- `intn x n` is what `rand.Intn(n)` returns in round `x`. `none` is a panic: `rand.Intn` panics on
-- an empty range, and an index out of range does.
unfoldable pub random_from : (ℕ → ℕ → ℕ) → Bytes → ℕ → ℕ → Option Bytes
random_from intn source x zero = some []
random_from intn source x (suc n) =
    let rest = random_from intn source (x + 1) n in
    elim (get_elem? source (intn x (length source))) [
      | none ↦ none
      | some b ↦ elim rest [ none ↦ none | some bs ↦ some (b ∷ bs) ]
    ]

unfoldable pub random : (ℕ → ℕ → ℕ) → Bytes → ℕ → Option Bytes
unfolding random_from
random intn source n = random_from intn source 0 n
