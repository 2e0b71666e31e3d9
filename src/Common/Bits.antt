-- ===== src/Common/Bits.antt =====
-- The C++ operators `&`, `|`, `<<` and `>>` on unsigned words, and what they are in arithmetic.
pub mod Step
mod Zero
pub mod Flags
pub mod Xor
use Prim.Native.Nat.{
  ℕ, zero, suc, ◌+◌, ◌-◌, ◌*◌, ◌/◌, ◌%◌, ◌^◌, ◌≤◌, ◌<◌, bit_and, bit_or, bit_or-bitwise,
}
use mathlib.Core.Path.{◌≡◌, refl, ap}
use native.Mathlib.Nat.{pow-suc, one-le-pow}
use native.Mathlib.Omega.{arith}
use Step.{bit_and_step, bit_or_step}
use Zero.{bit_and-zero, bit_or-zero}

infixl 75 ◌<<◌ ◌>>◌
abbrev pub ◌<<◌ : ℕ → ℕ → ℕ
x << k = x * 2 ^ k

abbrev pub ◌>>◌ : ℕ → ℕ → ℕ
x >> k = x / 2 ^ k

-- The casts to the unsigned types.
abbrev pub u8 : ℕ → ℕ
u8 n = n % 2 ^ 8

abbrev pub u16 : ℕ → ℕ
u16 n = n % 2 ^ 16

abbrev pub u32 : ℕ → ℕ
u32 n = n % 2 ^ 32

abbrev pub u64 : ℕ → ℕ
u64 n = n % 2 ^ 64

zero-bit_or : (b : ℕ) → bit_or 0 b ≡ b
zero-bit_or b = bit_or-bitwise 0 b

times-pow-suc : (q k : ℕ) → q * 2 ^ suc k ≡ 2 * (q * 2 ^ k)
times-pow-suc q k = omega (arith, ap (λ (t : ℕ). q * t) (pow-suc 2 k))

-- A field `q` above `k` bits, joined with a field `r` that fits them, is a sum.
pub bit_or_disjoint : (k q r : ℕ) → r < 2 ^ k → bit_or (q << k) r ≡ q * 2 ^ k + r
bit_or_disjoint zero q r h = ground (arith, bit_or-zero q)
bit_or_disjoint (suc k) q r h = ground (
  arith,
  bit_or_step (q * 2 ^ suc k) r,
  times-pow-suc q k,
  bit_or_disjoint k q (r / 2) (omega (arith, pow-suc 2 k)),
)

-- The same with the operands the other way round.
pub bit_or_disjoint_left : (k r q : ℕ) → r < 2 ^ k → bit_or r (q << k) ≡ q * 2 ^ k + r
bit_or_disjoint_left zero r q h = ground (arith, zero-bit_or q)
bit_or_disjoint_left (suc k) r q h = ground (
  arith,
  bit_or_step r (q * 2 ^ suc k),
  times-pow-suc q k,
  bit_or_disjoint_left k (r / 2) q (omega (arith, pow-suc 2 k)),
)

bit_and_split : (k q r : ℕ) → r < 2 ^ k → bit_and (q * 2 ^ k + r) (2 ^ k - 1) ≡ r
bit_and_split zero q r h = rw bit_and-zero (omega arith)
bit_and_split (suc k) q r h = ground (
  arith,
  bit_and_step (q * 2 ^ suc k + r) (2 ^ suc k - 1),
  times-pow-suc q k,
  pow-suc 2 k,
  bit_and_split k q (r / 2) (omega (arith, pow-suc 2 k)),
)

-- Masking by `k` ones is the remainder by `2 ^ k`.
pub bit_and_ones : (k a : ℕ) → bit_and a (2 ^ k - 1) ≡ a % 2 ^ k
bit_and_ones k a = ground (arith, one-le-pow k 2, bit_and_split k (a / 2 ^ k) (a % 2 ^ k))
