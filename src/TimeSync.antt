-- ===== src/TimeSync.antt =====
-- TimeSync.h and TimeSync.cpp: the windowed minimum of datagram delays, the clock difference that is
-- computed from the two minima, and the truncated times that are sent.
-- One call runs at a time: the members that are `std::atomic` are plain fields.
pub mod Minimum
pub mod Sync
pub mod Times
mod Tests
use tonk.Common.{
  ℕ, ◌+◌, ◌-◌, ◌*◌, ◌/◌, ◌%◌, ◌^◌, Bool, true, false, not, ◌&&◌, ◌||◌, if◌then◌else◌, ltb, leb,
  ◌==◌,
}
use tonk.Common.Bits.{◌<<◌, ◌>>◌, u16, u32, u64}
use tonk.Counter.{counter, add, sub, le, gt, expand_with_bias}

abbrev pub time23_lost_bits : ℕ
time23_lost_bits = 3

abbrev pub time23_bias : ℕ
time23_bias = 0x200000

abbrev pub time16_lost_bits : ℕ
time16_lost_bits = 9

abbrev pub time16_bias : ℕ
time16_bias = 0x4000

abbrev pub time23_error_bound : ℕ
time23_error_bound = (1 << time23_lost_bits) * 2 - 1

abbrev pub time16_error_bound : ℕ
time16_error_bound = (1 << time16_lost_bits) * 2 - 1

abbrev pub drift_window_usec : ℕ
drift_window_usec = 10 * 1000 * 1000

abbrev pub default_owd_usec : ℕ
default_owd_usec = 200 * 1000

pub record Sample : Type 0 where
  pub value : ℕ
  pub timestamp : ℕ

-- `Sample::TimeoutExpired`, a difference of 64-bit words.
unfoldable pub timeout_expired : Sample → ℕ → ℕ → Bool
timeout_expired s now timeout = ltb timeout ((now + 2 ^ 64 - s.timestamp) % 2 ^ 64)

-- `WindowedMinTS24`
pub record WindowedMin : Type 0 where
  pub best : Sample
  pub second : Sample
  pub third : Sample

abbrev pub is_valid : WindowedMin → Bool
is_valid w = not (w.best.value == 0)

abbrev pub get_best : WindowedMin → ℕ
get_best w = w.best.value

abbrev pub reset : Sample → WindowedMin
reset sample = record { best = sample; second = sample; third = sample }

-- The insertion of `Update`.
unfoldable pub insert_sample : WindowedMin → Sample → WindowedMin
insert_sample w sample =
    if le 24 sample.value w.second.value
    then record w { second = sample; third = sample }
    else if le 24 sample.value w.third.value
    then record w { third = sample }
    else w

-- What `Update` does after the insertion: at most one of its three expirations.
unfoldable pub expire_samples : WindowedMin → Sample → ℕ → WindowedMin
expire_samples w sample window =
    let expired = λ (s : Sample) (timeout : ℕ). timeout_expired s sample.timestamp timeout in
    if expired w.best window
    then (if expired w.second window
        then record { best = w.third; second = sample; third = sample }
        else record { best = w.second; second = w.third; third = sample })
    else if w.second.value == w.best.value && expired w.second (window / 4)
    then record w { second = sample; third = sample }
    else if w.third.value == w.second.value && expired w.third (window / 2)
    then record w { third = sample }
    else w

-- `WindowedMinTS24::Update`
unfoldable pub update : WindowedMin → ℕ → ℕ → ℕ → WindowedMin
update w value timestamp window =
    let sample : Sample = record { value = value; timestamp = timestamp } in
    if not (is_valid w) || (le 24 value w.best.value || timeout_expired w.third timestamp window)
    then reset sample
    else expire_samples (insert_sample w sample) sample window

-- `TimeSynchronizer`
pub record TimeSynchronizer : Type 0 where
  pub synchronized : Bool
  pub remote_time_delta_usec : ℕ
  pub minimum_one_way_delay_usec : ℕ
  pub min_deltas : WindowedMin
  pub last_fc_min_delta_ts24 : ℕ
  pub got_peer_update : Bool

abbrev pub initial : TimeSynchronizer
initial = record {
  synchronized = false;
  remote_time_delta_usec = 0;
  minimum_one_way_delay_usec = default_owd_usec;
  min_deltas = reset (record { value = 0; timestamp = 0 });
  last_fc_min_delta_ts24 = 0;
  got_peer_update = false;
}

-- `kSignRolloverThreshold`
abbrev pub sign_rollover_threshold : ℕ
sign_rollover_threshold = (1 << 22) << time23_lost_bits

unfoldable pub recalculate : TimeSynchronizer → TimeSynchronizer
recalculate t =
    let min_recv_delta = get_best t.min_deltas in
    let min_send_delta = t.last_fc_min_delta_ts24 in
    let min_owd = counter 23 (add 24 min_send_delta min_recv_delta >> 1) in
    let clock_delta = counter 23 (sub 24 min_send_delta min_recv_delta >> 1) in
    let min_owd_usec = u32 (min_owd << time23_lost_bits) in
    if not (is_valid t.min_deltas) || not t.got_peer_update then t else record t {
      synchronized = true;
      remote_time_delta_usec = u32 (clock_delta << time23_lost_bits);
      minimum_one_way_delay_usec =
          if leb sign_rollover_threshold min_owd_usec then 0 else min_owd_usec;
    }

-- `OnPeerMinDeltaTS24`
unfoldable pub on_peer_min_delta : TimeSynchronizer → ℕ → TimeSynchronizer
unfolding recalculate
on_peer_min_delta t min_delta =
    recalculate (record t { last_fc_min_delta_ts24 = min_delta; got_peer_update = true })

-- `LocalTimeToDatagramTS24`
unfoldable pub local_time_to_datagram_ts24 : ℕ → ℕ
local_time_to_datagram_ts24 local_usec = u32 (local_usec >> time23_lost_bits) % 2 ^ 24

-- The second half of `OnAuthenticatedDatagramTimestamp`: the trip time estimated from a delta.
unfoldable pub trip_time : TimeSynchronizer → ℕ → ℕ
trip_time t delta_ts24 =
    let least = get_best t.min_deltas in
    let relative_usec = u32 (sub 24 delta_ts24 least << time23_lost_bits) in
    if not t.synchronized
    then 0
    else if gt 24 delta_ts24 least
    then u32 (t.minimum_one_way_delay_usec + relative_usec)
    else t.minimum_one_way_delay_usec

-- `OnAuthenticatedDatagramTimestamp`: the new state and the estimated trip time.
unfoldable pub on_datagram_timestamp : TimeSynchronizer → ℕ → ℕ → TimeSynchronizer × ℕ
on_datagram_timestamp t remote_send_ts24 local_recv_usec =
    let local_ts24 = counter 24 (u32 (local_recv_usec >> time23_lost_bits)) in
    let delta_ts24 = sub 24 local_ts24 remote_send_ts24 in
    let min_deltas = update t.min_deltas delta_ts24 local_recv_usec drift_window_usec in
    let t' = recalculate (record t { min_deltas = min_deltas }) in (t', trip_time t' delta_ts24)

unfoldable pub to_remote_time16 : TimeSynchronizer → ℕ → ℕ
to_remote_time16 t local_usec =
    if not t.synchronized
    then 0
    else u16
        (u16 (local_usec >> time16_lost_bits) + u16 (t.remote_time_delta_usec >> time16_lost_bits))

unfoldable pub from_local_time16 : ℕ → ℕ → ℕ
from_local_time16 local_usec timestamp16 = u64 (
    expand_with_bias 64 16 (local_usec >> time16_lost_bits) timestamp16 time16_bias
    << time16_lost_bits)

unfoldable pub to_remote_time23 : TimeSynchronizer → ℕ → ℕ
to_remote_time23 t local_usec =
    if not t.synchronized
    then 0
    else add 23 (counter 23 (u32 (local_usec >> time23_lost_bits)))
        (counter 23 (t.remote_time_delta_usec >> time23_lost_bits))

unfoldable pub from_local_time23 : ℕ → ℕ → ℕ
from_local_time23 local_usec timestamp23 = u64 (
    expand_with_bias 64 23 (local_usec >> time23_lost_bits) timestamp23 time23_bias
    << time23_lost_bits)
