-- ===== src/Common/Bits/Flags.antt =====
-- One bit of a word: `w & (1 << k)` tests it, `w | (1 << k)` sets it.
use Prim.Native.Nat.{ℕ, zero, suc, ◌+◌, ◌*◌, ◌/◌, ◌%◌, ◌^◌, ◌≤◌, ◌<◌, bit_and, bit_or}
use mathlib.Core.Path.{◌≡◌, refl, ap}
use mathlib.Core.Bool.{not}
use native.Mathlib.Nat.{pow-suc, one-le-pow}
use native.Mathlib.Omega.{arith}
use tonk.Common.Bits.Step.{bit_and_step, bit_or_step}
use tonk.Common.Bits.{bit_and_ones}
use tonk.Common.Bits.Zero.{bit_or-zero, bit_and-zero}
use tonk.Common.Tests.{◌==◌, if◌then◌else◌}

-- The bit at place `k`.
abbrev pub bit : ℕ → ℕ → ℕ
bit w zero = w % 2
bit w (suc k) = bit (w / 2) k

pub bit-le-one : (k w : ℕ) → bit w k ≤ 1
bit-le-one zero w = omega arith
bit-le-one (suc k) w = bit-le-one k (w / 2)

bit_and-pow : (k w : ℕ) → bit_and w (2 ^ k) ≡ bit w k * 2 ^ k
bit_and-pow zero w = ground (arith, bit_and_step w 1, bit_and-zero (w / 2))
bit_and-pow (suc k) w = ground (
  arith,
  bit_and_step w (2 ^ suc k),
  pow-suc 2 k,
  bit_and-pow k (w / 2),
  ap (λ (t : ℕ). bit (w / 2) k * t) (pow-suc 2 k),
)

pub bit-zero : (k : ℕ) → bit 0 k ≡ 0
bit-zero zero = refl
bit-zero (suc k) = bit-zero k

pub half-or_one : (w : ℕ) → bit_or w 1 / 2 ≡ w / 2
half-or_one w = omega (arith, bit_or_step w 1, bit_or-zero (w / 2))

pub half-or_pow : (k w : ℕ) → bit_or w (2 ^ suc k) / 2 ≡ bit_or (w / 2) (2 ^ k)
half-or_pow k w = ground (arith, bit_or_step w (2 ^ suc k), pow-suc 2 k)

-- `w | (1 << k)` sets the bit at `k` and no other.
pub bit-or_pow : (k j w : ℕ) → bit (bit_or w (2 ^ k)) j ≡ (if j == k then 1 else bit w j)
bit-or_pow zero zero w = ground (arith, bit_or_step w 1)
bit-or_pow zero (suc j) w = ground (arith, ap (λ (t : ℕ). bit t j) (half-or_one w))
bit-or_pow (suc k) zero w = ground (arith, bit_or_step w (2 ^ suc k), pow-suc 2 k)
bit-or_pow (suc k) (suc j) w =
    ground (arith, ap (λ (t : ℕ). bit t j) (half-or_pow k w), bit-or_pow k j (w / 2))

-- `(w & (1 << k)) != 0` reads the bit.
pub bit_and-pow_test : (k w : ℕ) → not (bit_and w (2 ^ k) == 0) ≡ (bit w k == 1)
bit_and-pow_test k w = grind (arith, bit_and-pow k w, bit-le-one k w, one-le-pow k 2)

-- `w & (1 << k)` is 0 exactly when the bit is.
pub bit_and-pow_zero : (k w : ℕ) → (bit_and w (2 ^ k) == 0) ≡ (bit w k == 0)
bit_and-pow_zero k w = grind (arith, bit_and-pow k w, bit-le-one k w, one-le-pow k 2)

-- An even mask passes its half on to the upper bits.
bit_and_even : (w m : ℕ) → bit_and w (m * 2) ≡ bit_and (w / 2) m * 2
bit_and_even w m = ground (arith, bit_and_step w (m * 2), ap (bit_and (w / 2)) (half-double m))
  where
    half-double : (m : ℕ) → m * 2 / 2 ≡ m
    half-double m = omega arith

-- `w & 0xE0` keeps the three high bits of a byte.
pub bit_and-top3 : (w : ℕ) → w < 256 → bit_and w 0xE0 ≡ w / 32 * 32
bit_and-top3 w h = omega (
  arith,
  bit_and_even w 0x70,
  bit_and_even (w / 2) 0x38,
  bit_and_even (w / 2 / 2) 0x1C,
  bit_and_even (w / 2 / 2 / 2) 0x0E,
  bit_and_even (w / 2 / 2 / 2 / 2) 7,
  bit_and_ones 3 (w / 2 / 2 / 2 / 2 / 2),
)

bit_or_even : (w m : ℕ) → bit_or w (m * 2) ≡ bit_or (w / 2) m * 2 + w % 2
bit_or_even w m = ground (arith, bit_or_step w (m * 2), ap (bit_or (w / 2)) (half-double m))
  where
    half-double : (m : ℕ) → m * 2 / 2 ≡ m
    half-double m = omega arith

bit_or-one : (w : ℕ) → bit_or w 1 ≡ w / 2 * 2 + 1
bit_or-one w = omega (arith, bit_or_step w 1, bit_or-zero (w / 2))

-- `w | 4` and `w | 0x80` set one bit.
pub bit_or-4 : (w : ℕ) → bit_or w 4 ≡ w / 8 * 8 + 4 + w % 4
bit_or-4 w = omega (arith, bit_or_even w 2, bit_or_even (w / 2) 1, bit_or-one (w / 2 / 2))

pub bit_or-0x80 : (w : ℕ) → bit_or w 0x80 ≡ w / 256 * 256 + 128 + w % 128
bit_or-0x80 w = omega (
  arith,
  bit_or_even w 0x40,
  bit_or_even (w / 2) 0x20,
  bit_or_even (w / 2 / 2) 0x10,
  bit_or_even (w / 2 / 2 / 2) 8,
  bit_or_even (w / 2 / 2 / 2 / 2) 4,
  bit_or_even (w / 2 / 2 / 2 / 2 / 2) 2,
  bit_or_even (w / 2 / 2 / 2 / 2 / 2 / 2) 1,
  bit_or-one (w / 2 / 2 / 2 / 2 / 2 / 2 / 2),
)
