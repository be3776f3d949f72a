-- ===== src/Prelude/Bits/Digit.antt =====
-- The lowest binary digit of `bit_and` and `bit_or`, from the recursion with fuel that they stand
-- for.
use Prim.Native.Nat.{
  ℕ, zero, suc, ◌+◌, ◌*◌, ◌/◌, ◌%◌, ◌≤◌, min, max, digits, bit_and, bit_or, bit_and-bitwise,
  bit_or-bitwise,
}
use mathlib.Core.Path.{◌≡◌, refl}
use native.Mathlib.Omega.{arith}

module _ (past : ℕ → ℕ) (digit : ℕ → ℕ → ℕ) where
  -- Two amounts of fuel that both suffice give the same digits.
  same_digits : (f g a b : ℕ) → a ≤ f → a ≤ g → digits past digit f a b ≡ digits past digit g a b
  same_digits zero zero a b h k = refl
  same_digits zero (suc g) zero b h k = refl
  same_digits zero (suc g) (suc a) b h k = elim h [ ]
  same_digits (suc f) zero zero b h k = refl
  same_digits (suc f) zero (suc a) b h k = elim k [ ]
  same_digits (suc f) (suc g) zero b h k = refl
  same_digits (suc f) (suc g) (suc a) b h k =
      rw (same_digits f g (suc a / 2) (b / 2) (omega arith) (omega arith))

pub and_digit : (a b : ℕ) → bit_and a b ≡ bit_and (a / 2) (b / 2) * 2 + min (a % 2) (b % 2)
and_digit zero b = omega (arith, bit_and-bitwise 0 b, bit_and-bitwise 0 (b / 2))
and_digit (suc a) b = omega (
  arith,
  bit_and-bitwise (suc a) b,
  bit_and-bitwise (suc a / 2) (b / 2),
  same_digits (λ _. 0) min a (suc a / 2) (suc a / 2) (b / 2) (omega arith) (omega arith),
)

pub or_digit : (a b : ℕ) → bit_or a b ≡ bit_or (a / 2) (b / 2) * 2 + max (a % 2) (b % 2)
or_digit zero b = omega (arith, bit_or-bitwise 0 b, bit_or-bitwise 0 (b / 2))
or_digit (suc a) b = omega (
  arith,
  bit_or-bitwise (suc a) b,
  bit_or-bitwise (suc a / 2) (b / 2),
  same_digits (λ y. y) max a (suc a / 2) (suc a / 2) (b / 2) (omega arith) (omega arith),
)
