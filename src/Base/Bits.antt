-- ===== src/Base/Bits.antt =====
-- Masks of one bit.
use Prim.Native.Nat.{ℕ, zero, suc, ◌*◌, ◌/◌, ◌%◌, ◌≤◌, min, digits, bit_and, bit_and-bitwise}
use mathlib.Core.Path.{◌≡◌, refl, ◌∙◌}
use native.Mathlib.Omega.{arith}

abbrev masked : ℕ → ℕ → ℕ → ℕ
masked n a mask = digits (λ b. zero) min n a mask

masked-zero : (n a : ℕ) → masked n a 0 ≡ 0
masked-zero zero zero = refl
masked-zero zero (suc a) = refl
masked-zero (suc n) zero = refl
masked-zero (suc n) (suc a) = omega (arith, masked-zero n (suc a / 2))

masked-one : (n a : ℕ) → a ≤ n → masked n a 1 ≡ a % 2
masked-one zero zero h = refl
masked-one zero (suc a) h = absurd (omega arith)
masked-one (suc n) zero h = refl
masked-one (suc n) (suc a) h = omega (arith, masked-zero n (suc a / 2))

masked_two : (n a : ℕ) → a ≤ n → masked n a 2 ≡ a / 2 % 2 * 2
masked_two zero zero h = refl
masked_two zero (suc a) h = absurd (omega arith)
masked_two (suc n) zero h = refl
masked_two (suc n) (suc a) h = omega (arith, masked-one n (suc a / 2) (omega arith))

pub bit_and-one : (a : ℕ) → bit_and a 1 ≡ a % 2
bit_and-one a = bit_and-bitwise a 1 ∙ masked-one a a (omega arith)

pub bit_and_two : (a : ℕ) → bit_and a 2 ≡ a / 2 % 2 * 2
bit_and_two a = bit_and-bitwise a 2 ∙ masked_two a a (omega arith)
