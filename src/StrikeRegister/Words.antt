-- ===== src/StrikeRegister/Words.antt =====
-- StrikeRegister.cpp: the words of the sliding window, bit by bit.
use Prim.Native.Nat.{bit_or}
use tonk.Common.{
  ℕ, zero, suc, ◌+◌, ◌-◌, ◌*◌, ◌/◌, ◌%◌, ◌^◌, ◌≤◌, ◌<◌, ◌≡◌, refl, false, not, List, ◌||◌, ◌&&◌,
  ◌∙◌, if◌then◌else◌, ltb, leb, ◌==◌, get_or, set, replicate, length, length-set, get_or-set_self,
  get_or-set_ne, get_or-replicate, arith,
}
use tonk.Common.Bits.Flags.{bit, bit_and-pow_test, bit-or_pow, bit-zero}
use tonk.StrikeRegister.{word_count, test_bit, set_bit, clear_words}

pub test_bit_lem :
    (window : List ℕ) (b : ℕ) → test_bit window b ≡ (bit (get_or window (b / 64) 0) (b % 64) == 1)
unfolding test_bit
test_bit_lem window b = bit_and-pow_test (b % 64) (get_or window (b / 64) 0)

-- `SlidingWindow[bit / 64] |= 1 << (bit % 64)` sets that bit and no other.
pub test_bit-set_bit :
    (window : List ℕ) (b c : ℕ)
    → b < 64 * length window
    → test_bit (set_bit window b) c ≡ (c == b || test_bit window c)
unfolding set_bit
test_bit-set_bit window b c h = ground (
  arith,
  test_bit_lem (set_bit window b) c,
  test_bit_lem window c,
  get_or-set_self window (b / 64) (bit_or (get_or window (b / 64) 0) (2 ^ (b % 64))) 0,
  get_or-set_ne window (b / 64) (c / 64) (bit_or (get_or window (b / 64) 0) (2 ^ (b % 64))) 0,
  bit-or_pow (b % 64) (c % 64) (get_or window (b / 64) 0),
)

pub length-set_bit : (window : List ℕ) (b : ℕ) → length (set_bit window b) ≡ length window
unfolding set_bit
length-set_bit window b =
    length-set window (b / 64) (bit_or (get_or window (b / 64) 0) (2 ^ (b % 64)))

pub length-clear_words :
    (rounds word : ℕ) (window : List ℕ) → length (clear_words rounds word window) ≡ length window
unfolding clear_words
length-clear_words zero word window = refl
length-clear_words (suc rounds) word window =
    length-clear_words rounds (if leb word_count (word + 1) then 0 else word + 1)
      (set window word 0)
    ∙ length-set window word 0

-- The loop clears `rounds` words from `word` on, going round the window, and no other.
pub get_or-clear_words :
    (rounds word j : ℕ) (window : List ℕ)
    → length window ≡ word_count
    → word < word_count
    → j < word_count
    → rounds ≤ word_count
    → get_or (clear_words rounds word window) j 0
      ≡ (if ltb ((j + word_count - word) % word_count) rounds then 0 else get_or window j 0)
unfolding clear_words
get_or-clear_words zero word j window hl hw hj hr = ground arith
get_or-clear_words (suc rounds) word j window hl hw hj hr = ground (
  arith,
  get_or-clear_words rounds (if leb word_count (word + 1) then 0 else word + 1) j
      (set window word 0) (length-set window word 0 ∙ hl) (ground arith) hj (omega arith),
  get_or-set_self window word 0 0,
  get_or-set_ne window word j 0 0,
)

-- A bit of a cleared word reads as 0, any other as before.
pub test_bit-clear_words :
    (rounds word b : ℕ) (window : List ℕ)
    → length window ≡ word_count
    → word < word_count
    → b < 64 * word_count
    → rounds ≤ word_count
    → test_bit (clear_words rounds word window) b
      ≡ (not (ltb ((b / 64 + word_count - word) % word_count) rounds) && test_bit window b)
test_bit-clear_words rounds word b window hl hw hb hr = ground (
  arith,
  test_bit_lem (clear_words rounds word window) b,
  test_bit_lem window b,
  get_or-clear_words rounds word (b / 64) window hl hw (omega arith) hr,
  bit-zero (b % 64),
)

pub test_bit-replicate : (n b : ℕ) → test_bit (replicate n 0) b ≡ false
test_bit-replicate n b = ground (
  arith,
  test_bit_lem (replicate n 0) b,
  get_or-replicate {A = ℕ} n (b / 64) 0,
  bit-zero (b % 64),
)
