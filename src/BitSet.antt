-- ===== src/BitSet.antt =====
-- PacketAllocator.h: `CustomBitSet<N>` for the only size that the codec searches, N = 64 (one word).
-- With one word, the loops over further words do not run. The words are the native numbers below 2 ^ 64.
pub mod Search
pub mod Counting
mod Tests
use Prim.Native.Nat.{bit_and, bit_or}
use tonk.Common.{ℕ, zero, suc, ◌+◌, ◌-◌, ◌/◌, ◌%◌, ◌^◌, Bool, not, if◌then◌else◌, ◌==◌, ltb, leb}
use tonk.Common.Bits.{◌<<◌, ◌>>◌, u64}

-- `kValidBits` and `kWordBits`
abbrev pub valid_bits : ℕ
valid_bits = 64

-- `CustomBitSet::Set`
unfoldable pub set_bit : ℕ → ℕ → ℕ
set_bit word bit = bit_or word (1 << (bit % valid_bits))

-- `CustomBitSet::Check`
unfoldable pub check_bit : ℕ → ℕ → Bool
check_bit word bit = not (bit_and word (1 << (bit % valid_bits)) == 0)

-- The number of zero bits below the lowest one among `n` bits.
abbrev pub lowest_one : ℕ → ℕ → ℕ
lowest_one zero x = 0
lowest_one (suc n) x = let rest = lowest_one n (x / 2) in if x % 2 == 0 then suc rest else 0

-- `TrailingZeros64`
unfoldable pub trailing_zeros64 : ℕ → ℕ
trailing_zeros64 x = lowest_one 64 x

-- `FindFirstSet` with its default end, `kValidBits`.
unfoldable pub find_first_set : ℕ → ℕ → ℕ
unfolding trailing_zeros64
find_first_set words start =
    let word = words >> (start % valid_bits) in
    let offset = if bit_and word 1 == 0 then trailing_zeros64 word else 0 in
    if word == 0 then valid_bits else start + offset

-- `FindFirstClear`, on the complement of the word.
unfoldable pub find_first_clear : ℕ → ℕ → ℕ
unfolding trailing_zeros64
find_first_clear words start =
    let word = (2 ^ 64 - 1 - words) >> (start % valid_bits) in
    let offset = if bit_and word 1 == 0 then trailing_zeros64 word else 0 in
    if word == 0 then valid_bits else start + offset

-- The number of ones among the lowest `n` bits, `PopCount64` for 64.
unfoldable pub popcount : ℕ → ℕ → ℕ
popcount zero x = 0
popcount (suc n) x = x % 2 + popcount n (x / 2)
