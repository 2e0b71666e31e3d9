-- ===== src/TimeSync/Tests.antt =====
-- Runs of time synchronization, and its theorems at concrete states.
use tonk.Common.{ℕ, ◌+◌, ◌≤◌, ◌≡◌, refl, true, false, arith}
use tonk.Counter.{le}
use tonk.TimeSync.{
  Sample, WindowedMin, TimeSynchronizer, initial, timeout_expired, get_best, update, recalculate,
  on_datagram_timestamp, insert_sample, expire_samples, drift_window_usec, time23_error_bound,
  to_remote_time23, from_local_time23,
}
use tonk.TimeSync.Minimum.{past, IsSorted, update-IsSorted, update-fresh}
use tonk.TimeSync.Sync.{recalculate-Measured, on_datagram_timestamp-delay}
use tonk.TimeSync.Times.{from_local_time23-to_remote_time23}

abbrev sample : ℕ → ℕ → Sample
sample v t = record { value = v; timestamp = t }

abbrev samples : WindowedMin
samples = record { best = sample 10 1000; second = sample 12 2000; third = sample 15 3000 }

-- Values on both sides of the roll-over.
abbrev rolling : WindowedMin
rolling = record {
  best = sample 0xfffff0 1000;
  second = sample 0xfffffe 2000;
  third = sample 15 3000;
}

update-IsSorted_example :
    IsSorted 0xffff00 (update rolling 3 4000 drift_window_usec)
    × (past 0xffff00 (get_best (update rolling 3 4000 drift_window_usec)) ≤ past 0xffff00 3)
unfolding past
update-IsSorted_example =
    update-IsSorted 0xffff00 rolling 3 4000 drift_window_usec (omega arith)
      (record { fits = omega arith; half = omega arith })
      (record {
        first = record { fits = omega arith; half = omega arith };
        second = record { fits = omega arith; half = omega arith };
        third = record { fits = omega arith; half = omega arith };
        first_le = omega arith;
        second_le = omega arith;
      })

update-fresh_example :
    timeout_expired
      (update samples 13 10_001_500 drift_window_usec).best
      10_001_500
      drift_window_usec
    ≡ false
update-fresh_example = update-fresh samples 13 10_001_500 drift_window_usec

-- The peer's clock is 1000 units ahead; 40 units up and 30 down.
abbrev measured : TimeSynchronizer
measured = record initial {
  min_deltas = record samples { best = sample 16776246 1000 };
  last_fc_min_delta_ts24 = 1040;
  got_peer_update = true;
}

recalculate-Measured_example :
    let t = recalculate measured in
    (t.synchronized ≡ true)
    × (t.minimum_one_way_delay_usec ≡ 280)
    × (t.remote_time_delta_usec ≡ 8040)
recalculate-Measured_example = recalculate-Measured measured 1000 40 30 (record {
  received = refl;
  sent = refl;
  valid = refl;
  updated = refl;
  clock_small = omega arith;
  delay_small = omega arith;
})

-- A datagram that is sent at unit 5000 of the local clock and takes 45 units.
on_datagram_timestamp-delay_example : (on_datagram_timestamp measured 6000 40_363).1 ≡ 400
unfolding update timeout_expired insert_sample expire_samples le
on_datagram_timestamp-delay_example =
    on_datagram_timestamp-delay measured 1000 40 30 5000 45 6000 40_363
      (record {
        received = refl;
        sent = refl;
        valid = refl;
        updated = refl;
        clock_small = omega arith;
        delay_small = omega arith;
      })
      (omega arith) (omega arith) refl refl

abbrev synced : TimeSynchronizer
synced = record initial { synchronized = true; remote_time_delta_usec = 8040 }

from_local_time23-to_remote_time23_example :
    let read = from_local_time23 1_008_900 (to_remote_time23 synced 1_000_001) in
    (read ≤ 1_000_001 + 8045) × (1_000_001 + 8045 ≤ read + time23_error_bound)
from_local_time23-to_remote_time23_example =
    from_local_time23-to_remote_time23 synced 1_000_001 8045 1_008_900
      (record { synchronized = refl; known = refl }) (omega arith) (omega arith)
