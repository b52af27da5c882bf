-- ===== src/Prelude/Bits.antt =====
-- `&` at variables: it is bounded by either argument.
use Prim.Native.Nat.{ℕ, zero, suc, ◌/◌, ◌≤◌, min, bit_and, digits, bit_and-bitwise}
use native.Mathlib.Omega.{arith}

digits-le : (n a b : ℕ) → a ≤ n → digits (λ b. zero) min n a b ≤ b
digits-le zero zero b p = omega arith
digits-le zero (suc a) b p = absurd (omega arith)
digits-le (suc n) zero b p = omega arith
digits-le (suc n) (suc a) b p = omega (arith, digits-le n (suc a / 2) (b / 2) (omega arith))

pub bit_and-le : (a b : ℕ) → bit_and a b ≤ b
bit_and-le a b = omega (arith, bit_and-bitwise a b, digits-le a a b (omega arith))
