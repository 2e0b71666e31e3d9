-- ===== src/TimeSync/Minimum.antt =====
-- TimeSync.cpp, `WindowedMinTS24::Update`: the three samples stay sorted and the best stays fresh.
use tonk.Common.{ℕ, ◌+◌, ◌-◌, ◌%◌, ◌^◌, ◌≤◌, ◌<◌, ◌≡◌, false, leb, arith}
use tonk.Counter.{le}
use tonk.TimeSync.{
  Sample, WindowedMin, timeout_expired, get_best, insert_sample, expire_samples, update,
}

-- How far a value is past `origin` in the circle of the 24-bit counter.
unfoldable pub past : ℕ → ℕ → ℕ
past origin v = (v + 2 ^ 24 - origin) % 2 ^ 24

-- Values of the counter in the half of its circle from `origin` on.
pub record IsClose (origin v : ℕ) : Type 0 where
  pub fits : v < 2 ^ 24
  pub half : past origin v < 2 ^ 23

le24-eq :
    (origin a b : ℕ)
    → origin < 2 ^ 24
    → IsClose origin a
    → IsClose origin b
    → le 24 a b ≡ leb (past origin a) (past origin b)
unfolding le past
le24-eq origin a b o h k = ground (arith, h.fits, h.half, k.fits, k.half)

-- The samples run from the smallest to the largest.
pub record IsSorted (origin : ℕ) (w : WindowedMin) : Type 0 where
  pub first : IsClose origin w.best.value
  pub second : IsClose origin w.second.value
  pub third : IsClose origin w.third.value
  pub first_le : past origin w.best.value ≤ past origin w.second.value
  pub second_le : past origin w.second.value ≤ past origin w.third.value

insert-IsSorted :
    (origin : ℕ) (w : WindowedMin) (s : Sample)
    → origin < 2 ^ 24
    → IsClose origin s.value
    → IsSorted origin w
    → past origin w.best.value ≤ past origin s.value
    → IsSorted origin (insert_sample w s)
      × ((insert_sample w s).best ≡ w.best)
      × (past origin (insert_sample w s).third.value ≤ past origin s.value)
unfolding insert_sample
insert-IsSorted origin w s o h v lo = ground (
  arith,
  v,
  le24-eq origin s.value w.second.value o h v.second,
  le24-eq origin s.value w.third.value o h v.third,
)

expire-IsSorted :
    (origin : ℕ) (w : WindowedMin) (s : Sample) (window : ℕ)
    → IsClose origin s.value
    → IsSorted origin w
    → past origin w.third.value ≤ past origin s.value
    → IsSorted origin (expire_samples w s window)
      × (past origin (get_best (expire_samples w s window)) ≤ past origin s.value)
unfolding expire_samples
expire-IsSorted origin w s window h v lo = ground (arith, v)

-- With the new value and the samples in one half of the circle of 24-bit values, which may lie across the
-- roll-over, `Update` keeps the samples sorted in that half from the first to the last, and leaves a best
-- sample that is at most the new value.
pub update-IsSorted :
    (origin : ℕ) (w : WindowedMin) (value timestamp window : ℕ)
    → origin < 2 ^ 24
    → IsClose origin value
    → IsSorted origin w
    → IsSorted origin (update w value timestamp window)
      × (past origin (get_best (update w value timestamp window)) ≤ past origin value)
unfolding update
update-IsSorted origin w value timestamp window o h v =
    let sample : Sample = record { value = value; timestamp = timestamp } in
    ground (
      arith,
      le24-eq origin value w.best.value o h v.first,
      insert-IsSorted origin w sample o h v,
      expire-IsSorted origin (insert_sample w sample) sample window h,
    )

insert-fresh :
    (w : WindowedMin) (s : Sample) (window : ℕ)
    → timeout_expired w.third s.timestamp window ≡ false
    → timeout_expired s s.timestamp window ≡ false
    → timeout_expired (insert_sample w s).third s.timestamp window ≡ false
unfolding insert_sample
insert-fresh w s window h k = ground arith

expire-fresh :
    (w : WindowedMin) (s : Sample) (window : ℕ)
    → timeout_expired w.third s.timestamp window ≡ false
    → timeout_expired (expire_samples w s window).best s.timestamp window ≡ false
unfolding expire_samples
expire-fresh w s window h = ground arith

now-fresh :
    (value now window : ℕ)
    → timeout_expired (record { value = value; timestamp = now }) now window ≡ false
unfolding timeout_expired
now-fresh value now window = ground arith

-- Whatever the samples, after `Update` the best sample is no older than the window.
pub update-fresh :
    (w : WindowedMin) (value timestamp window : ℕ)
    → timeout_expired (update w value timestamp window).best timestamp window ≡ false
unfolding update
update-fresh w value timestamp window =
    let sample : Sample = record { value = value; timestamp = timestamp } in
    ground (
      arith,
      now-fresh value timestamp window,
      insert-fresh w sample window,
      expire-fresh (insert_sample w sample) sample window,
    )
