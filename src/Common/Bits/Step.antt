-- ===== src/Common/Bits/Step.antt =====
-- The lowest digit of `bit_or` and `bit_and`: the native operations stand for `digits`, a recursion
-- on binary digits whose fuel is the first operand.
use Prim.Native.Nat.{
  ℕ, zero, suc, ◌+◌, ◌*◌, ◌/◌, ◌%◌, ◌≤◌, min, max, digits, bit_and, bit_or, bit_and-bitwise,
  bit_or-bitwise, bit_xor, bit_xor-bitwise, differ,
}
use mathlib.Core.Path.{◌≡◌, refl}
use native.Mathlib.Omega.{arith}

module _ (at_zero : ℕ → ℕ) (join : ℕ → ℕ → ℕ) where
  -- Any fuel from the first operand up gives the same digits.
  digits_enough :
      (x y fuel more : ℕ)
      → x ≤ fuel
      → x ≤ more
      → digits at_zero join fuel x y ≡ digits at_zero join more x y
  digits_enough zero y zero zero h k = refl
  digits_enough zero y zero (suc more) h k = refl
  digits_enough zero y (suc fuel) zero h k = refl
  digits_enough zero y (suc fuel) (suc more) h k = refl
  digits_enough (suc x) y (suc fuel) (suc more) h k =
      let half = suc x / 2 in rw (digits_enough half (y / 2) fuel more (omega arith) (omega arith))
  digits_enough (suc x) y zero more h k = absurd (omega arith)
  digits_enough (suc x) y fuel zero h k = absurd (omega arith)

  digits-suc :
      (x y : ℕ)
      → let half = suc x / 2 in
        digits at_zero join (suc x) (suc x) y
        ≡ digits at_zero join half half (y / 2) * 2 + join (suc x % 2) (y % 2)
  digits-suc x y =
      let half = suc x / 2 in
      omega (arith, digits_enough half (y / 2) x half (omega arith) (omega arith))

pub bit_and_step : (x y : ℕ) → bit_and x y ≡ bit_and (x / 2) (y / 2) * 2 + min (x % 2) (y % 2)
bit_and_step zero y = simp bit_and-bitwise (omega arith)
bit_and_step (suc x) y = simp bit_and-bitwise (digits-suc (λ _. 0) min x y)

pub bit_or_step : (x y : ℕ) → bit_or x y ≡ bit_or (x / 2) (y / 2) * 2 + max (x % 2) (y % 2)
bit_or_step zero y = simp bit_or-bitwise (omega arith)
bit_or_step (suc x) y = simp bit_or-bitwise (digits-suc (λ rest. rest) max x y)

pub bit_xor_step : (x y : ℕ) → bit_xor x y ≡ bit_xor (x / 2) (y / 2) * 2 + differ (x % 2) (y % 2)
bit_xor_step zero y = simp bit_xor-bitwise (omega arith)
bit_xor_step (suc x) y = simp bit_xor-bitwise (digits-suc (λ rest. rest) differ x y)
