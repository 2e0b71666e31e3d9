-- ===== src/Counter.antt =====
-- Counter.h: `Counter<T, kBits>`, an unsigned counter of `kBits` bits that rolls over, and
-- `CounterExpand`. A counter is its value; the width is the argument `bits`.
-- The arithmetic of `T` wraps at a power of two that the counter's own range divides, so that the
-- mask `& kMask` after it is the remainder by `2 ^ bits` of the exact result.
pub mod Order
pub mod Expand
mod Tests
use tonk.Common.{ℕ, ◌+◌, ◌-◌, ◌*◌, ◌%◌, ◌^◌, Bool, if◌then◌else◌, ltb, leb, ◌==◌}
use Prim.Native.Nat.{bit_or}
use tonk.Common.Bits.{◌<<◌, ◌>>◌}

-- `kMask + 1`, the number of values.
abbrev pub size : ℕ → ℕ
size bits = 2 ^ bits

-- `kMSB`
abbrev pub msb : ℕ → ℕ
msb bits = 2 ^ (bits - 1)

module _ (bits : ℕ) where
  -- `Counter(T value)` and `operator=(T value)`
  abbrev pub counter : ℕ → ℕ
  counter value = value % size bits

  unfoldable pub increment : ℕ → ℕ
  increment value = (value + 1) % size bits

  unfoldable pub decrement : ℕ → ℕ
  decrement value = (value + size bits - 1) % size bits

  unfoldable pub add : ℕ → ℕ → ℕ
  add a b = (a + b) % size bits

  -- Both values lie below `size bits`.
  unfoldable pub sub : ℕ → ℕ → ℕ
  sub a b = (a + size bits - b) % size bits

  unfoldable pub eq : ℕ → ℕ → Bool
  eq a b = a == b

  unfoldable pub ge : ℕ → ℕ → Bool
  unfolding sub
  ge a b = ltb (sub a b) (msb bits)

  unfoldable pub lt : ℕ → ℕ → Bool
  unfolding sub
  lt a b = leb (msb bits) (sub a b)

  unfoldable pub le : ℕ → ℕ → Bool
  unfolding sub
  le a b = ltb (sub b a) (msb bits)

  unfoldable pub gt : ℕ → ℕ → Bool
  unfolding sub
  gt a b = leb (msb bits) (sub b a)

-- `Truncate`: to a counter of fewer bits.
unfoldable pub truncate : ℕ → ℕ → ℕ
truncate smaller_bits value = value % size smaller_bits

-- A two's complement value of `bits` bits, as a value of the wider type of `wide` bits: the
-- conversions of `smallerSigned`, `gapSigned` and of an `intN_t` gap to `T`.
unfoldable pub sign_extend : ℕ → ℕ → ℕ → ℕ
sign_extend wide bits value =
    if ltb value (msb bits) then value else (value + size wide - size bits) % size wide

-- `ExpandFromTruncated<SmallerT>`, the general case. `smallerMSB << 1` is `size` or 0, and `T`
-- subtraction wraps.
unfoldable pub expand_from_truncated : ℕ → ℕ → ℕ → ℕ → ℕ
unfolding sign_extend
expand_from_truncated wide bits recent smaller =
    let smaller_signed = sign_extend wide bits smaller in
    let small_recent = recent % size bits in
    let gap = (smaller_signed + size wide - small_recent) % size bits in
    let gap_signed = sign_extend wide bits gap in (recent + gap_signed) % size wide

-- The overloads for `Counter<uintN_t, N>` at N = 8, 16 and 32: `gap` is an `intN_t`, and
-- `recent + gap` converts it to a counter.
unfoldable pub expand_from_word : ℕ → ℕ → ℕ → ℕ → ℕ
unfolding sign_extend add
expand_from_word wide bits recent smaller =
    let gap = (smaller + size bits - recent % size bits) % size bits in
    add wide recent (counter wide (sign_extend wide bits gap))

-- `ExpandFromTruncatedWithBias`. The bias is a `SignedType`, here its bit pattern: `sub` and `add` in
-- `T` take it away from `kMSB` and add it. `recent & ~kMask` keeps the bits of `recent` above the
-- smaller counter's.
unfoldable pub expand_with_bias : ℕ → ℕ → ℕ → ℕ → ℕ → ℕ
unfolding add sub
expand_with_bias wide bits recent smaller bias =
    let result = bit_or ((recent >> bits) << bits) smaller in
    let recent_low = recent % size bits in
    let turn = counter wide (msb bits * 2) in
    if ltb recent_low smaller
    then (if leb (sub wide (msb bits) bias) (smaller - recent_low)
        then sub wide result turn
        else result)
    else (if ltb (add wide (msb bits) bias) (recent_low - smaller)
        then add wide result turn
        else result)

-- `CounterExpand`: 1 to 7 bytes against the largest counter; any other count of bytes gives 0.
unfoldable pub counter_expand : ℕ → ℕ → ℕ → ℕ
unfolding expand_from_word expand_from_truncated
counter_expand largest partial bytes =
    if bytes == 1
    then expand_from_word 64 8 largest (counter 8 partial)
    else if bytes == 2
    then expand_from_word 64 16 largest (counter 16 partial)
    else if bytes == 3
    then expand_from_truncated 64 24 largest (counter 24 partial)
    else if bytes == 4
    then expand_from_word 64 32 largest (counter 32 partial)
    else if bytes == 5
    then expand_from_truncated 64 40 largest (counter 40 partial)
    else if bytes == 6
    then expand_from_truncated 64 48 largest (counter 48 partial)
    else if bytes == 7
    then expand_from_truncated 64 56 largest (counter 56 partial)
    else 0
