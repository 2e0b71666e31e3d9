-- ===== src/BitSet/Counting.antt =====
-- PacketAllocator.h: what the number of set bits says of the bits of a word.
use Prim.Native.Nat.{bit_or}
use tonk.Common.{ℕ, zero, suc, ◌/◌, ◌^◌, ◌≤◌, ◌<◌, ◌≡◌, refl, ap, arith}
use native.Mathlib.Nat.{pow-suc}
use tonk.Common.Bits.Flags.{bit, half-or_one, half-or_pow}
use tonk.Common.Bits.Step.{bit_or_step}
use tonk.BitSet.{popcount}

pub popcount-le : (n x : ℕ) → popcount n x ≤ n
unfolding popcount
popcount-le zero x = omega arith
popcount-le (suc n) x = omega (arith, popcount-le n (x / 2))

-- As many ones as bits: all are ones.
pub popcount-full : (n x k : ℕ) → popcount n x ≡ n → k < n → bit x k ≡ 1
unfolding popcount
popcount-full zero x k h l = absurd (omega arith)
popcount-full (suc n) x zero h l = omega (arith, popcount-le n (x / 2))
popcount-full (suc n) x (suc k) h l =
    popcount-full n (x / 2) k (omega (arith, popcount-le n (x / 2))) (omega arith)

pub popcount-none : (n x k : ℕ) → popcount n x ≡ 0 → k < n → bit x k ≡ 0
unfolding popcount
popcount-none zero x k h l = absurd (omega arith)
popcount-none (suc n) x zero h l = omega arith
popcount-none (suc n) x (suc k) h l = popcount-none n (x / 2) k (omega arith) (omega arith)

pub popcount-zero : (n : ℕ) → popcount n 0 ≡ 0
unfolding popcount
popcount-zero zero = refl
popcount-zero (suc n) = omega (arith, popcount-zero n)

-- Setting a bit that was clear counts one more.
pub popcount-or_pow :
    (n k x : ℕ) → k < n → bit x k ≡ 0 → popcount n (bit_or x (2 ^ k)) ≡ suc (popcount n x)
unfolding popcount
popcount-or_pow zero k x h l = absurd (omega arith)
popcount-or_pow (suc n) zero x h l = omega (arith, bit_or_step x 1, ap (popcount n) (half-or_one x))
popcount-or_pow (suc n) (suc k) x h l = omega (
  arith,
  bit_or_step x (2 ^ suc k),
  pow-suc 2 k,
  ap (popcount n) (half-or_pow k x),
  popcount-or_pow n k (x / 2) (omega arith) l,
)

pub or_pow-lt : (n k x : ℕ) → k < n → x < 2 ^ n → bit_or x (2 ^ k) < 2 ^ n
or_pow-lt zero k x h l = absurd (omega arith)
or_pow-lt (suc n) zero x h l = omega (arith, half-or_one x, pow-suc 2 n)
or_pow-lt (suc n) (suc k) x h l = omega (
  arith,
  half-or_pow k x,
  pow-suc 2 n,
  or_pow-lt n k (x / 2) (omega arith) (omega (arith, pow-suc 2 n)),
)
