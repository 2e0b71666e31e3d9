-- ===== src/StrikeRegister/Accept.antt =====
-- StrikeRegister.cpp: `Accept` strikes one sequence number and keeps what is struck.
use tonk.Common.{
  ℕ, ◌+◌, ◌-◌, ◌*◌, ◌/◌, ◌^◌, ◌≤◌, ◌<◌, ◌≡◌, if◌then◌else◌, ltb, leb, set, replicate, arith,
}
use tonk.StrikeRegister.{StrikeRegister, window_bits, word_count, reset, slide, strike, accept}
use tonk.StrikeRegister.Window.{lt64-eq, sub64-eq, slide_words_lem}

-- Sequence numbers below half the 64-bit range, and a step ahead that `slideWords` can hold.
pub record InReach (r : StrikeRegister) (s : ℕ) : Type 0 where
  pub base_small : r.window_base < 2 ^ 62
  pub small : s < 2 ^ 62
  pub largest_small : r.largest_sequence < 2 ^ 62
  pub reach : s < r.window_base + 2 ^ 38

-- The words that a sequence number makes the window slide.
abbrev pub words_for : ℕ → ℕ → ℕ
words_for base s = (s - base - window_bits) / 64 + 1

-- Where the window starts after a sequence number is accepted.
unfoldable pub base_after : ℕ → ℕ → ℕ
base_after base s =
    if ltb s (base + window_bits)
    then base
    else if leb word_count (words_for base s)
    then s
    else base + 64 * words_for base s

-- `Accept` in four cases, with the arithmetic of numbers.
abbrev pub noted : StrikeRegister → ℕ → StrikeRegister
noted r s = record r {
  largest_sequence = if ltb r.largest_sequence s then s else r.largest_sequence;
}

abbrev pub cleared : ℕ → StrikeRegister
cleared s = record {
  sliding_window = set (replicate word_count 0) 0 1;
  window_base = s;
  window_bit_rotation = 0;
  largest_sequence = s;
}

pub accept-old :
    (r : StrikeRegister) (s : ℕ) → InReach r s → s < r.window_base → accept r s ≡ noted r s
unfolding accept
accept-old r s h p = ground (arith, lt64-eq s r.window_base, lt64-eq r.largest_sequence s)

pub accept-inside :
    (r : StrikeRegister) (s : ℕ)
    → InReach r s
    → r.window_base ≤ s
    → s < r.window_base + window_bits
    → accept r s ≡ strike (noted r s) (s - r.window_base)
unfolding accept
accept-inside r s h p q =
    ground (arith, lt64-eq s r.window_base, lt64-eq r.largest_sequence s, sub64-eq s r.window_base)

pub accept-slide :
    (r : StrikeRegister) (s : ℕ)
    → InReach r s
    → r.window_base + window_bits ≤ s
    → words_for r.window_base s < word_count
    → accept r s
      ≡ strike
          (slide (noted r s) (words_for r.window_base s))
          (s - r.window_base - 64 * words_for r.window_base s)
unfolding accept
accept-slide r s h p q = ground (
  arith,
  lt64-eq s r.window_base,
  lt64-eq r.largest_sequence s,
  sub64-eq s r.window_base,
  slide_words_lem (s - r.window_base),
  sub64-eq (s - r.window_base) (words_for r.window_base s * 64),
)

pub accept-clear :
    (r : StrikeRegister) (s : ℕ)
    → InReach r s
    → r.window_base + window_bits ≤ s
    → word_count ≤ words_for r.window_base s
    → accept r s ≡ cleared s
unfolding accept reset
accept-clear r s h p q = ground (
  arith,
  lt64-eq s r.window_base,
  lt64-eq r.largest_sequence s,
  sub64-eq s r.window_base,
  slide_words_lem (s - r.window_base),
)
