-- ===== src/StrikeRegister/Window.antt =====
-- StrikeRegister.cpp: the window of struck sequence numbers, by the distance from its base.
use tonk.Common.{
  ℕ, ◌+◌, ◌-◌, ◌*◌, ◌/◌, ◌%◌, ◌^◌, ◌≤◌, ◌<◌, ◌≡◌, Bool, false, ◌||◌, ◌&&◌, ltb, ◌==◌, length, arith,
  length-replicate,
}
use tonk.Counter.{sub, lt}
use tonk.StrikeRegister.{
  StrikeRegister, window_bits, word_count, test_bit, bit_index, is_duplicate, reset, slide, strike,
  slide_words,
}
use tonk.StrikeRegister.Words.{
  test_bit-set_bit, length-set_bit, length-clear_words, test_bit-clear_words, test_bit-replicate,
}

-- The window has its words, and its rotation is a word's first bit.
pub record IsWindow (r : StrikeRegister) : Type 0 where
  pub words : length r.sliding_window ≡ word_count
  pub aligned : r.window_bit_rotation % 64 ≡ 0
  pub rotation : r.window_bit_rotation < window_bits

-- The bit at a distance from the base.
unfoldable pub struck : StrikeRegister → ℕ → Bool
struck r distance = test_bit r.sliding_window (bit_index r distance)

bit_index-eq :
    (r : StrikeRegister) (d e : ℕ)
    → IsWindow r
    → d < window_bits
    → e < window_bits
    → (bit_index r d == bit_index r e) ≡ (d == e)
unfolding bit_index
bit_index-eq r d e v h k = ground arith

pub strike-IsWindow : (r : StrikeRegister) (d : ℕ) → IsWindow r → IsWindow (strike r d)
unfolding strike
strike-IsWindow r d v = ground (arith, length-set_bit r.sliding_window (bit_index r d))

pub slide-IsWindow :
    (r : StrikeRegister) (w : ℕ) → w < word_count → IsWindow r → IsWindow (slide r w)
unfolding slide
slide-IsWindow r w h v =
    ground (arith, length-clear_words w (r.window_bit_rotation / 64) r.sliding_window)

pub reset-IsWindow : (b : ℕ) → IsWindow (reset b)
unfolding reset
reset-IsWindow b = ground (arith, length-replicate {A = ℕ} word_count 0)

pub struck-strike :
    (r : StrikeRegister) (d e : ℕ)
    → IsWindow r
    → d < window_bits
    → e < window_bits
    → struck (strike r d) e ≡ (e == d || struck r e)
unfolding struck strike bit_index
struck-strike r d e v h k = ground (
  arith,
  bit_index-eq r e d v k h,
  test_bit-set_bit r.sliding_window (bit_index r d) (bit_index r e),
)

pub struck-slide :
    (r : StrikeRegister) (w d : ℕ)
    → IsWindow r
    → w < word_count
    → d < window_bits
    → struck (slide r w) d ≡ (ltb (d + 64 * w) window_bits && struck r (d + 64 * w))
unfolding struck slide bit_index
struck-slide r w d v h k = ground (
  arith,
  test_bit-clear_words w (r.window_bit_rotation / 64)
      ((d + 64 * w + r.window_bit_rotation) % window_bits) r.sliding_window,
)

pub struck-reset : (b d : ℕ) → struck (reset b) d ≡ false
unfolding struck reset
struck-reset b d = test_bit-replicate word_count (bit_index (reset b) d)

-- For counters below half the range the comparison and the distance are those of numbers.
pub lt64-eq : (a b : ℕ) → a < 2 ^ 63 → b < 2 ^ 63 → lt 64 a b ≡ ltb a b
unfolding lt
lt64-eq a b h k = ground arith

pub sub64-eq : (a b : ℕ) → a < 2 ^ 64 → b ≤ a → sub 64 a b ≡ a - b
unfolding sub
sub64-eq a b h k = omega arith

-- `IsDuplicate`, below half the range: too old, or struck.
pub is_duplicate_lem :
    (r : StrikeRegister) (s : ℕ)
    → r.window_base < 2 ^ 63
    → s < 2 ^ 63
    → is_duplicate r s ≡ (
        ltb s r.window_base
        || (ltb (s - r.window_base) window_bits && struck r (s - r.window_base)))
unfolding is_duplicate struck
is_duplicate_lem r s h k = ground (arith, lt64-eq s r.window_base, sub64-eq s r.window_base)

pub slide_words_lem : (d : ℕ) → d < 2 ^ 38 → slide_words d ≡ (d - window_bits) / 64 + 1
unfolding slide_words
slide_words_lem d h = omega arith
