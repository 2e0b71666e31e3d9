-- ===== src/Counter/Tests.antt =====
-- Runs of the counters, and their theorems at concrete counters.
use tonk.Common.{◌≡◌, refl, true, false, arith}
use tonk.Counter.{eq, lt, le, gt, ge, increment, truncate, expand_with_bias, counter_expand}
use tonk.Counter.Order.{compare-ahead}
use tonk.Counter.Expand.{counter_expand-truncate}

wraps : increment 8 255 ≡ 0
unfolding increment
wraps = refl

-- Two counters half the range apart are each below the other.
antipodes : (lt 8 0 128 ≡ true) × (lt 8 128 0 ≡ true) × (le 8 0 128 ≡ false)
unfolding lt le
antipodes = (refl, refl, refl)

-- The examples in the comment of `ExpandFromTruncatedWithBias`.
comment_examples :
    (expand_with_bias 32 8 0x100 0xff 0 ≡ 0x0ff)
    × (expand_with_bias 32 8 0x16f 0x7f 0 ≡ 0x17f)
    × (expand_with_bias 32 8 0x17f 0x6f 0 ≡ 0x16f)
    × (expand_with_bias 32 8 0x1ff 0xa0 0 ≡ 0x1a0)
    × (expand_with_bias 32 8 0x1ff 0x01 0 ≡ 0x201)
unfolding expand_with_bias
comment_examples = (refl, refl, refl, refl, refl)

compare-ahead_example :
    (eq 24 0xfffffe 1 ≡ false)
    × (lt 24 0xfffffe 1 ≡ true)
    × (le 24 0xfffffe 1 ≡ true)
    × (gt 24 0xfffffe 1 ≡ false)
    × (ge 24 0xfffffe 1 ≡ false)
compare-ahead_example = compare-ahead 23 0xfffffe 3 (omega arith) (omega arith)

counter_expand-truncate_example :
    counter_expand 0x1_00ff_fff0 (truncate 24 0x1_0100_0005) 3 ≡ 0x1_0100_0005
counter_expand-truncate_example =
    counter_expand-truncate 3 0x1_00ff_fff0 0x1_0100_0005 (omega arith) (omega arith) (omega arith)
      (omega arith) (omega arith)
