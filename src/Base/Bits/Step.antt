-- ===== src/Base/Bits/Step.antt =====
-- The native bit operations recur on binary digits with fuel. Here the fuel goes: one equation
-- gives the lowest digit and the rest.
use Prim.Native.Nat.{
  ℕ, zero, suc, ◌+◌, ◌-◌, ◌*◌, ◌/◌, ◌%◌, ◌≤◌, max, differ, digits, bit_or, bit_xor, bit_or-bitwise,
  bit_xor-bitwise,
}
use mathlib.Core.Path.{◌≡◌, refl, ◌∙◌}
use native.Mathlib.Omega.{arith}

-- `tail` is for a first number that is used up, and `digit` joins two digits.
module _ (tail : ℕ → ℕ) (digit : ℕ → ℕ → ℕ) where
  -- Fuel for the first number is enough, and one more unit changes nothing.
  one_more :
      (fuel x y : ℕ) → x ≤ fuel → digits tail digit (suc fuel) x y ≡ digits tail digit fuel x y
  one_more zero zero y le = refl
  one_more zero (suc x) y le = absurd (omega arith)
  one_more (suc fuel) zero y le = refl
  one_more (suc fuel) (suc x) y le = omega (arith, one_more fuel (suc x / 2) (y / 2) (omega arith))

  -- So any amount above it.
  much_more :
      (extra fuel x y : ℕ) {total : ℕ}
      → total ≡ fuel + extra
      → x ≤ fuel
      → digits tail digit total x y ≡ digits tail digit fuel x y
  much_more zero fuel x y {total} e le = let same : total ≡ fuel = omega arith in rw same
  much_more (suc extra) fuel x y {total} e le =
      let same : total ≡ suc (fuel + extra) = omega arith in
      rw same (one_more (fuel + extra) x y (omega arith) ∙ much_more extra fuel x y refl le)

  lowest :
      (x y : ℕ)
      → digits tail digit (suc x) (suc x) y
        ≡ digits tail digit (suc x / 2) (suc x / 2) (y / 2) * 2 + digit (suc x % 2) (y % 2)
  lowest x y =
      let half = suc x / 2 in
      omega (arith, much_more (x - half) half half (y / 2) {total = x} (omega arith) (omega arith))

pub bit_or_step : (x y : ℕ) → bit_or x y ≡ bit_or (x / 2) (y / 2) * 2 + max (x % 2) (y % 2)
bit_or_step zero y = simp bit_or-bitwise (omega arith)
bit_or_step (suc x) y = simp bit_or-bitwise (lowest (λ r. r) max x y)

-- Two digits differ or not, as a sum without carry.
differ_sum : (i j : ℕ) → i ≤ 1 → j ≤ 1 → differ i j ≡ (i + j) % 2
differ_sum zero j p q = omega arith
differ_sum (suc zero) zero p q = refl
differ_sum (suc zero) (suc zero) p q = refl
differ_sum (suc zero) (suc (suc j)) p q = absurd (omega arith)
differ_sum (suc (suc i)) j p q = absurd (omega arith)

pub bit_xor_step : (x y : ℕ) → bit_xor x y ≡ bit_xor (x / 2) (y / 2) * 2 + (x % 2 + y % 2) % 2
bit_xor_step zero y = simp bit_xor-bitwise (omega arith)
bit_xor_step (suc x) y = simp bit_xor-bitwise (
    omega (
      arith,
      lowest (λ r. r) differ x y,
      differ_sum (suc x % 2) (y % 2) (omega arith) (omega arith),
    ))
