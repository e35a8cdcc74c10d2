-- ===== src/Base/Bits.antt =====
-- `|` of separate fields and `^`, as arithmetic at every width, and the masks of one byte.
mod Step
use Step.{bit_or_step, bit_xor_step}
use Prim.Native.Nat.{ℕ, zero, suc, ◌+◌, ◌*◌, ◌/◌, ◌%◌, ◌^◌, ◌<◌, bit_and, bit_or, bit_xor}
use mathlib.Core.Bool.{Bool, true, false, not, ◌||◌}
use mathlib.Core.Path.{◌≡◌, refl, sym, ap, ◌∙◌}
use mathlib.Core.WellFounded
use native.Mathlib.Decide.{ℕ_discrete}
use native.Mathlib.Nat.{pow-suc}
use native.Mathlib.Omega.{arith}
use share.Base.Order.{lt_wf}
use share.Base.Tests.{ltb, ◌==◌, ==_iff, if◌then◌else◌}

-- A function that goes from the half to the whole by the lowest digit is the identity.
identity_by_digits :
    (g : ℕ → ℕ) → g 0 ≡ 0 → ((x : ℕ) → g x ≡ g (x / 2) * 2 + x % 2) → (x : ℕ) → g x ≡ x
identity_by_digits g start step x = WellFounded.induction lt_wf {C = λ y. g y ≡ y} x go
  where
    go : (y : ℕ) → ((z : ℕ) → z < y → g z ≡ z) → g y ≡ y
    go zero below = start
    go (suc y) below = omega (arith, step (suc y), below (suc y / 2) (omega arith))

pub bit_or-zero : (x : ℕ) → bit_or x 0 ≡ x
bit_or-zero = identity_by_digits (λ x. bit_or x 0) refl (λ x. omega (arith, bit_or_step x 0))

bit_xor-zero : (x : ℕ) → bit_xor x 0 ≡ x
bit_xor-zero = identity_by_digits (λ x. bit_xor x 0) refl (λ x. omega (arith, bit_xor_step x 0))

zero-bit_xor : (x : ℕ) → bit_xor 0 x ≡ x
zero-bit_xor = identity_by_digits (λ x. bit_xor 0 x) refl (λ x. omega (arith, bit_xor_step 0 x))

twice_field : (k hi : ℕ) → hi * 2 ^ suc k ≡ (hi * 2 ^ k) * 2
twice_field k hi = omega (arith, ap (λ (p : ℕ). hi * p) (pow-suc 2 k))

-- A field of `k` low bits below a multiple of `2 ^ k`: `|` is the sum.
pub bit_or_fields : (k hi lo : ℕ) → lo < 2 ^ k → bit_or (hi * 2 ^ k) lo ≡ hi * 2 ^ k + lo
bit_or_fields zero hi lo low =
    let none_left : lo ≡ 0 = omega arith in rw none_left (bit_or-zero _ ∙ omega arith)
bit_or_fields (suc k) hi lo low =
    let halved : hi * 2 ^ suc k / 2 ≡ hi * 2 ^ k = omega (arith, twice_field k hi) in
    let rest = bit_or_fields k hi (lo / 2) (omega (arith, pow-suc 2 k)) in
    let moved = ap (λ (t : ℕ). bit_or t (lo / 2)) halved in
    omega (arith, bit_or_step (hi * 2 ^ suc k) lo, moved, rest, twice_field k hi)

same_bits : (y : ℕ) → bit_xor y y ≡ 0
same_bits y =
    WellFounded.induction lt_wf {C = λ z. bit_xor z z ≡ 0} y
      (λ z below. ground (arith, bit_xor_step z z, below (z / 2)))

-- Two equal `^` cancel.
pub bit_xor_cancel : (x y : ℕ) → bit_xor (bit_xor x y) y ≡ x
bit_xor_cancel x = WellFounded.induction lt_wf {C = λ z. (y : ℕ) → bit_xor (bit_xor z y) y ≡ z} x go
  where
    halves : (a b : ℕ) → bit_xor a b / 2 ≡ bit_xor (a / 2) (b / 2)
    halves a b = omega (arith, bit_xor_step a b)

    go :
        (z : ℕ)
        → ((w : ℕ) → w < z → (y : ℕ) → bit_xor (bit_xor w y) y ≡ w)
        → (y : ℕ) → bit_xor (bit_xor z y) y ≡ z
    go zero below y = ap (λ (t : ℕ). bit_xor t y) (zero-bit_xor y) ∙ same_bits y
    go (suc z) below y = omega (
      arith,
      bit_xor_step (bit_xor (suc z) y) y,
      bit_xor_step (suc z) y,
      ap (λ (t : ℕ). bit_xor t (y / 2)) (halves (suc z) y),
      below (suc z / 2) (omega arith) (y / 2),
    )

-- `^` of two numbers of `k` bits has `k` bits.
pub bit_xor-lt : (k x y : ℕ) → x < 2 ^ k → y < 2 ^ k → bit_xor x y < 2 ^ k
bit_xor-lt zero x y p q =
    let (ex, ey) : (x ≡ 0) × (y ≡ 0) = omega arith in rw (ex, ey) (omega (arith, bit_xor-zero 0))
bit_xor-lt (suc k) x y p q =
    let rest =
      bit_xor-lt k (x / 2) (y / 2) (omega (arith, pow-suc 2 k)) (omega (arith, pow-suc 2 k)) in
    omega (arith, pow-suc 2 k, bit_xor_step x y, rest)

-- A test that holds for every number below `n` is checked by evaluation.
unfoldable pub every : (ℕ → Bool) → ℕ → Bool
every test zero = true
every test (suc n) = if test n then every test n else false

pub every-lt : (test : ℕ → Bool) (n x : ℕ) → every test n ≡ true → x < n → test x ≡ true
unfolding every
every-lt test zero x all lt = absurd (omega arith)
every-lt test (suc n) x all lt = elim (ℕ_discrete x n) [
  | yes last ↦ rw last (ground arith)
  | no before ↦ every-lt test n x (ground arith) (omega arith)
]

-- A mask as arithmetic, on every byte.
module _ (mask : ℕ) (f : ℕ → ℕ) where
  is_mask : ℕ → Bool
  is_mask x = bit_and x mask == f x

  mask_by_table : every is_mask 256 ≡ true → (x : ℕ) → x < 2 ^ 8 → bit_and x mask ≡ f x
  unfolding is_mask
  mask_by_table table x h = (==_iff _ _).0 (every-lt is_mask 256 x table h)

-- The masks of the two first bytes of a frame.
pub top_bit : (b : ℕ) → b < 2 ^ 8 → bit_and b 0x80 ≡ b / 128 * 128
unfolding every is_mask
top_bit = mask_by_table 0x80 (λ b. b / 128 * 128) refl

pub low_seven : (b : ℕ) → b < 2 ^ 8 → bit_and b 0x7f ≡ b % 128
unfolding every is_mask
low_seven = mask_by_table 0x7f (λ b. b % 128) refl

pub low_four : (b : ℕ) → b < 2 ^ 8 → bit_and b 0x0f ≡ b % 16
unfolding every is_mask
low_four = mask_by_table 0x0f (λ b. b % 16) refl

pub middle_bits :
    (b : ℕ)
    → b < 2 ^ 8
    → (bit_and b 0x40 ≡ b / 64 % 2 * 64)
      × (bit_and b 0x20 ≡ b / 32 % 2 * 32)
      × (bit_and b 0x10 ≡ b / 16 % 2 * 16)
unfolding every is_mask
middle_bits b h = (
  mask_by_table 0x40 (λ b. b / 64 % 2 * 64) refl b h,
  mask_by_table 0x20 (λ b. b / 32 % 2 * 32) refl b h,
  mask_by_table 0x10 (λ b. b / 16 % 2 * 16) refl b h,
)

pub high_two : (b : ℕ) → b < 2 ^ 8 → bit_and b 0xc0 ≡ b / 64 * 64
unfolding every is_mask
high_two = mask_by_table 0xc0 (λ b. b / 64 * 64) refl

pub low_six : (b : ℕ) → b < 2 ^ 8 → bit_and b 0x3f ≡ b % 64
unfolding every is_mask
low_six = mask_by_table 0x3f (λ b. b % 64) refl
