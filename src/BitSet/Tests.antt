-- ===== src/BitSet/Tests.antt =====
-- The searches in a word.
use tonk.Common.{◌≡◌, refl}
use tonk.BitSet.{find_first_set, find_first_clear, trailing_zeros64, set_bit, check_bit}
use mathlib.Core.Bool.{true}

find_first_set-word : find_first_set 0x8000000000000010 5 ≡ 63
unfolding find_first_set trailing_zeros64
find_first_set-word = refl

find_first_clear-word : find_first_clear 0xfffffffffffffff7 4 ≡ 64
unfolding find_first_clear trailing_zeros64
find_first_clear-word = refl

check_bit-set_bit : (check_bit (set_bit 8 63) 63) ≡ true
unfolding check_bit set_bit
check_bit-set_bit = refl
