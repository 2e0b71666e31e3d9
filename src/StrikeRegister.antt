-- ===== src/StrikeRegister.antt =====
-- StrikeRegister.h and StrikeRegister.cpp: the sliding window that rejects replayed datagrams.
-- Sequence numbers are `Counter64` values, below 2 ^ 64.
mod Words
pub mod Window
pub mod Accept
pub mod Replay
pub mod History
pub mod Slide
mod Tests
use Prim.Native.Nat.{bit_and, bit_or}
use tonk.Common.{
  ℕ, zero, suc, ◌+◌, ◌-◌, ◌*◌, ◌/◌, ◌%◌, ◌^◌, Bool, true, false, not, List, if◌then◌else◌, ltb, leb,
  ◌==◌, get_or, set, replicate,
}
use tonk.Common.Bits.{u32}
use tonk.Counter.{add, sub, lt, counter_expand}

-- `kStrikeRegisterBits` and `kWordCount`
abbrev pub window_bits : ℕ
window_bits = 4096

abbrev pub word_count : ℕ
word_count = (window_bits + 63) / 64

pub record StrikeRegister : Type 0 where
  pub sliding_window : List ℕ
  pub window_base : ℕ
  pub window_bit_rotation : ℕ
  pub largest_sequence : ℕ

-- `Reset`
unfoldable pub reset : ℕ → StrikeRegister
reset new_base = record {
  sliding_window = replicate word_count 0;
  window_base = new_base;
  window_bit_rotation = 0;
  largest_sequence = new_base;
}

-- The bit of the window at `distance` from its base, and the test and the write of one bit.
unfoldable pub bit_index : StrikeRegister → ℕ → ℕ
bit_index r distance = (distance + r.window_bit_rotation) % window_bits

unfoldable pub test_bit : List ℕ → ℕ → Bool
test_bit window bit = not (bit_and (get_or window (bit / 64) 0) (2 ^ (bit % 64)) == 0)

unfoldable pub set_bit : List ℕ → ℕ → List ℕ
set_bit window bit = set window (bit / 64) (bit_or (get_or window (bit / 64) 0) (2 ^ (bit % 64)))

-- `IsDuplicate`
unfoldable pub is_duplicate : StrikeRegister → ℕ → Bool
unfolding bit_index test_bit
is_duplicate r sequence =
    if lt 64 sequence r.window_base
    then true
    else (let distance = sub 64 sequence r.window_base in
        if leb window_bits distance
        then false
        else test_bit r.sliding_window (bit_index r distance))

-- The loop of `Accept` that clears the words to be reused, with `rounds` left.
unfoldable pub clear_words : ℕ → ℕ → List ℕ → List ℕ
clear_words zero word window = window
clear_words (suc rounds) word window =
    clear_words rounds (if leb word_count (word + 1) then 0 else word + 1) (set window word 0)

-- The number of words to slide. The cast to `unsigned` drops high bits.
unfoldable pub slide_words : ℕ → ℕ
slide_words distance = u32 ((distance - window_bits) / 64 + 1)

-- The slide of `Accept`: base and rotation move ahead by `words` words.
unfoldable pub slide : StrikeRegister → ℕ → StrikeRegister
unfolding clear_words
slide r words =
    let slide_bits = words * 64 in
    let rotated = r.window_bit_rotation + slide_bits in
    record r {
      sliding_window = clear_words words (r.window_bit_rotation / 64) r.sliding_window;
      window_base = add 64 r.window_base slide_bits;
      window_bit_rotation = if leb window_bits rotated then rotated - window_bits else rotated;
    }

-- `SlidingWindow[bit / 64] |= 1 << (bit % 64)` for the bit at `distance`.
unfoldable pub strike : StrikeRegister → ℕ → StrikeRegister
unfolding bit_index set_bit
strike r distance = record r { sliding_window = set_bit r.sliding_window (bit_index r distance) }

-- `Accept`. `distance -= slideBits` is a subtraction of 64-bit words.
unfoldable pub accept : StrikeRegister → ℕ → StrikeRegister
unfolding slide_words slide strike reset
accept r sequence =
    let largest = if lt 64 r.largest_sequence sequence then sequence else r.largest_sequence in
    let r = record r { largest_sequence = largest } in
    if lt 64 sequence r.window_base
    then r
    else (let distance = sub 64 sequence r.window_base in
        if leb window_bits distance
        then (let words = slide_words distance in
            if leb word_count words
            then (let fresh = reset sequence in
                record fresh { sliding_window = set fresh.sliding_window 0 1 })
            else strike (slide r words) (sub 64 distance (words * 64)))
        else strike r distance)

-- `GetNextExpected`
unfoldable pub next_expected : StrikeRegister → ℕ
next_expected r = add 64 r.largest_sequence 1

-- `Expand`
unfoldable pub expand : StrikeRegister → ℕ → ℕ → ℕ
expand r partial bytes = counter_expand r.largest_sequence partial bytes
