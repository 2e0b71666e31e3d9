-- ===== src/TimeSync/Times.antt =====
-- TimeSync.h: a local time, sent as a truncated remote time, is read by the peer within the error
-- bound.
use tonk.Common.{ℕ, ◌+◌, ◌*◌, ◌/◌, ◌%◌, ◌^◌, ◌≤◌, ◌<◌, ◌≡◌, true, arith}
use tonk.Counter.{add, truncate}
use tonk.Counter.Expand.{IsNearWithBias, expand_with_bias-truncate16, expand_with_bias-truncate23}
use tonk.TimeSync.{
  TimeSynchronizer, to_remote_time16, from_local_time16, to_remote_time23, from_local_time23,
  time16_bias, time23_bias, time16_error_bound, time23_error_bound,
}

-- The peer's clock is ahead of the local one by `delta` microseconds, of which the synchronizer
-- knows the 23 bits above the lowest 3.
pub record Knows (t : TimeSynchronizer) (delta : ℕ) : Type 0 where
  pub synchronized : t.synchronized ≡ true
  pub known : t.remote_time_delta_usec ≡ 8 * (delta / 8 % 2 ^ 23)

to_remote_time23_lem :
    (t : TimeSynchronizer) (local delta : ℕ)
    → Knows t delta
    → to_remote_time23 t local ≡ truncate 23 (local / 8 + delta / 8)
unfolding to_remote_time23 truncate add
to_remote_time23_lem t local delta k = ground arith

to_remote_time16_lem :
    (t : TimeSynchronizer) (local delta : ℕ)
    → Knows t delta
    → to_remote_time16 t local ≡ truncate 16 (local / 512 + delta / 512)
unfolding to_remote_time16 truncate
to_remote_time16_lem t local delta k = ground arith

-- For a peer's clock that is ahead by `delta` microseconds, and a synchronized sender whose estimate of
-- this is exact (bits 3 to 25 of `delta`): a local time sent in 23 bits is read by the peer as at most
-- its own clock's value of that time, and less than that by no more than `kTime23ErrorBound` microseconds,
-- if that value is below 2 ^ 63 and near enough to the peer's present one for the expansion with
-- `kTime23Bias`.
pub from_local_time23-to_remote_time23 :
    (t : TimeSynchronizer) (local delta peer_now : ℕ)
    → Knows t delta
    → local + delta < 2 ^ 63
    → IsNearWithBias 23 time23_bias (peer_now / 8) (local / 8 + delta / 8)
    → let read = from_local_time23 peer_now (to_remote_time23 t local) in
      (read ≤ local + delta) × (local + delta ≤ read + time23_error_bound)
unfolding from_local_time23
from_local_time23-to_remote_time23 t local delta peer_now k small near = ground (
  arith,
  to_remote_time23_lem t local delta k,
  expand_with_bias-truncate23 (peer_now / 8) (local / 8 + delta / 8) time23_bias (omega arith) near,
)

-- For a synchronized sender, a local time sent in 16 bits of coarser units is read by the peer as at
-- most its own clock's value of that time, and less than that by no more than `kTime16ErrorBound`
-- microseconds, if the time is near enough to the peer's present one for the expansion with
-- `kTime16Bias`.
pub from_local_time16-to_remote_time16 :
    (t : TimeSynchronizer) (local delta peer_now : ℕ)
    → Knows t delta
    → local + delta < 2 ^ 63
    → IsNearWithBias 16 time16_bias (peer_now / 512) (local / 512 + delta / 512)
    → let read = from_local_time16 peer_now (to_remote_time16 t local) in
      (read ≤ local + delta) × (local + delta ≤ read + time16_error_bound)
unfolding from_local_time16
from_local_time16-to_remote_time16 t local delta peer_now k small near = ground (
  arith,
  to_remote_time16_lem t local delta k,
  expand_with_bias-truncate16 (peer_now / 512) (local / 512 + delta / 512) time16_bias (omega arith)
      near,
)
