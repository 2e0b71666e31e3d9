-- ===== src/Counter/Expand.antt =====
-- Counter.h: a truncated counter is expanded to the full counter nearest to a recent one.
use tonk.Common.{ℕ, zero, suc, ◌+◌, ◌*◌, ◌/◌, ◌%◌, ◌^◌, ◌≤◌, ◌<◌, ◌≡◌, arith}
use tonk.Common.Bits.{bit_or_disjoint}
use tonk.Counter.{
  msb, truncate, expand_from_word, expand_from_truncated, expand_with_bias, counter_expand,
}

-- `x` is less than half the smaller range ahead of `recent`, and at most half of it behind.
pub record IsNear (bits recent x : ℕ) : Type 0 where
  pub ahead : x < recent + msb bits
  pub behind : recent ≤ x + msb bits

-- The overloads for whole words compute what the general expansion does.
pub word_agrees :
    (recent smaller : ℕ)
    → recent < 2 ^ 64
    → (expand_from_word 64 8 recent (smaller % 2 ^ 8)
        ≡ expand_from_truncated 64 8 recent (smaller % 2 ^ 8))
      × (expand_from_word 64 16 recent (smaller % 2 ^ 16)
          ≡ expand_from_truncated 64 16 recent (smaller % 2 ^ 16))
      × (expand_from_word 64 32 recent (smaller % 2 ^ 32)
          ≡ expand_from_truncated 64 32 recent (smaller % 2 ^ 32))
unfolding expand_from_truncated expand_from_word
word_agrees r s h = (ground arith, ground arith, ground arith)

module _ (r x : ℕ) (hr : r < 2 ^ 64) (hx : x < 2 ^ 64) where
  expand1 : IsNear 8 r x → counter_expand r (x % 2 ^ 8) 1 ≡ x
  unfolding counter_expand
  expand1 h = ground arith

  expand2 : IsNear 16 r x → counter_expand r (x % 2 ^ 16) 2 ≡ x
  unfolding counter_expand
  expand2 h = ground arith

  expand3 : IsNear 24 r x → counter_expand r (x % 2 ^ 24) 3 ≡ x
  unfolding counter_expand
  expand3 h = ground arith

  expand4 : IsNear 32 r x → counter_expand r (x % 2 ^ 32) 4 ≡ x
  unfolding counter_expand
  expand4 h = ground arith

  expand5 : IsNear 40 r x → counter_expand r (x % 2 ^ 40) 5 ≡ x
  unfolding counter_expand
  expand5 h = ground arith

  expand6 : IsNear 48 r x → counter_expand r (x % 2 ^ 48) 6 ≡ x
  unfolding counter_expand
  expand6 h = ground arith

  expand7 : IsNear 56 r x → counter_expand r (x % 2 ^ 56) 7 ≡ x
  unfolding counter_expand
  expand7 h = ground arith

-- For 1 to 7 bytes, `CounterExpand` gives back a 64-bit counter from its low bytes, if the counter is
-- less than half the range of those bytes ahead of the recent one, and at most half behind it.
pub counter_expand-truncate :
    (bytes recent x : ℕ)
    → 1 ≤ bytes
    → bytes ≤ 7
    → recent < 2 ^ 64
    → x < 2 ^ 64
    → IsNear (8 * bytes) recent x
    → counter_expand recent (truncate (8 * bytes) x) bytes ≡ x
unfolding truncate
counter_expand-truncate zero r x p q hr hx h = absurd (omega arith)
counter_expand-truncate (suc zero) r x p q hr hx h = expand1 r x hr hx h
counter_expand-truncate (suc (suc zero)) r x p q hr hx h = expand2 r x hr hx h
counter_expand-truncate (suc (suc (suc zero))) r x p q hr hx h = expand3 r x hr hx h
counter_expand-truncate (suc (suc (suc (suc zero)))) r x p q hr hx h = expand4 r x hr hx h
counter_expand-truncate (suc (suc (suc (suc (suc zero))))) r x p q hr hx h = expand5 r x hr hx h
counter_expand-truncate (suc (suc (suc (suc (suc (suc zero)))))) r x p q hr hx h =
    expand6 r x hr hx h
counter_expand-truncate (suc (suc (suc (suc (suc (suc (suc zero))))))) r x p q hr hx h =
    expand7 r x hr hx h
counter_expand-truncate (suc (suc (suc (suc (suc (suc (suc (suc b)))))))) r x p q hr hx h =
    absurd (omega arith)

-- A bias moves the window: with a bias below `msb`, the expansion gives back every counter that is
-- less than `msb - bias` ahead of the recent one and at most `msb + bias` behind it, here for the
-- 16-bit and 23-bit counters of time synchronization and counters below half the 64-bit range.
pub record IsNearWithBias (bits bias recent x : ℕ) : Type 0 where
  pub recent_small : recent < 2 ^ 63
  pub small : x < 2 ^ 63
  pub ahead : x + bias < recent + msb bits
  pub behind : recent ≤ x + msb bits + bias

pub expand_with_bias-truncate16 :
    (recent x bias : ℕ)
    → bias < msb 16
    → IsNearWithBias 16 bias recent x
    → expand_with_bias 64 16 recent (truncate 16 x) bias ≡ x
unfolding expand_with_bias truncate
expand_with_bias-truncate16 r x bias hb h =
    ground (arith, bit_or_disjoint 16 (r / 2 ^ 16) (x % 2 ^ 16) (omega arith))

pub expand_with_bias-truncate23 :
    (recent x bias : ℕ)
    → bias < msb 23
    → IsNearWithBias 23 bias recent x
    → expand_with_bias 64 23 recent (truncate 23 x) bias ≡ x
unfolding expand_with_bias truncate
expand_with_bias-truncate23 r x bias hb h =
    ground (arith, bit_or_disjoint 23 (r / 2 ^ 23) (x % 2 ^ 23) (omega arith))
