-- ===== src/TimeSync/Sync.antt =====
-- TimeSync.cpp, `TimeSynchronizer::Recalculate`: the clock difference and the one-way delay that the
-- two minimum deltas determine.
use tonk.Common.{
  ℕ, ◌+◌, ◌-◌, ◌*◌, ◌/◌, ◌%◌, ◌^◌, ◌<◌, ◌≡◌, true, if◌then◌else◌, leb, ltb, arith, ap, ◌∙◌,
}
use tonk.Counter.{add, sub, gt}
use tonk.TimeSync.{
  TimeSynchronizer, is_valid, get_best, recalculate, update, on_datagram_timestamp, trip_time,
  drift_window_usec,
}

-- The two minimum deltas, in units of 8 microseconds: `clock` is the peer's clock less the local one,
-- `down` the least delay from the peer, `up` the least delay to it.
pub record Measured (t : TimeSynchronizer) (clock up down : ℕ) : Type 0 where
  pub received : get_best t.min_deltas ≡ (down + 2 ^ 24 - clock) % 2 ^ 24
  pub sent : t.last_fc_min_delta_ts24 ≡ (up + clock) % 2 ^ 24
  pub valid : is_valid t.min_deltas ≡ true
  pub updated : t.got_peer_update ≡ true
  pub clock_small : clock < 2 ^ 24
  pub delay_small : up + down < 2 ^ 23

-- From two minimum deltas of delays below 2 ^ 23 units together, `Recalculate` finds the mean of the
-- two delays, and the clock difference up to half the difference of the delays: exactly, where the
-- delays are equal. Both come in microseconds, the clock difference with 23 bits of units.
pub recalculate-Measured :
    (t : TimeSynchronizer) (clock up down : ℕ)
    → Measured t clock up down
    → let t' = recalculate t in
      (t'.synchronized ≡ true)
      × (t'.minimum_one_way_delay_usec ≡ 8 * ((up + down) / 2))
      × (t'.remote_time_delta_usec ≡ (
          if leb down up
          then 8 * ((clock + (up - down) / 2) % 2 ^ 23)
          else 8 * ((clock + 2 ^ 23 - (down - up + 1) / 2) % 2 ^ 23)))
unfolding recalculate add sub
recalculate-Measured t clock up down m = (ground arith, ground arith, ground arith)

best-recalculate :
    (t : TimeSynchronizer) → get_best (recalculate t).min_deltas ≡ get_best t.min_deltas
unfolding recalculate
best-recalculate t = ground arith

-- The difference of two delays is the one of their deltas.
delta-gap :
    (clock down delay : ℕ)
    → clock < 2 ^ 24
    → down < 2 ^ 23
    → delay < 2 ^ 23
    → let delta = (delay + 2 ^ 24 - clock) % 2 ^ 24 in
      let least = (down + 2 ^ 24 - clock) % 2 ^ 24 in
      (sub 24 delta least ≡ (delay + 2 ^ 24 - down) % 2 ^ 24) × (gt 24 delta least ≡ ltb down delay)
unfolding sub gt
delta-gap clock down delay h k l = (omega arith, ground arith)

-- The estimated trip time of a datagram with a delta, from a synchronizer that has the least delays.
trip_time-delay :
    (t : TimeSynchronizer) (clock up down delay : ℕ)
    → Measured t clock up down
    → delay < 2 ^ 23
    → trip_time (recalculate t) ((delay + 2 ^ 24 - clock) % 2 ^ 24)
      ≡ 8 * ((up + down) / 2 + (delay - down))
unfolding trip_time
trip_time-delay t clock up down delay m h =
    let least = get_best t.min_deltas in
    let same : get_best (recalculate t).min_deltas ≡ least = best-recalculate t in
    let measured = recalculate-Measured t clock up down m in
    let delta = (delay + 2 ^ 24 - clock) % 2 ^ 24 in
    let gap = delta-gap clock down delay m.clock_small (omega (arith, m.delay_small)) h in
    rw (measured.0, measured.1, same, m.received, gap.0, gap.1) (ground (arith, m.delay_small))

-- Take the times in units of 8 microseconds, and a datagram that the peer sends at local time `sent`, with
-- the peer's clock `clock` ahead, and that arrives after `delay` units, below 2 ^ 23. If the peer's minimum
-- delta is known, and the two minimum deltas, this datagram's included, are those of the least delays
-- `up` and `down`, below 2 ^ 23 together, the estimated trip time in microseconds is the mean of these two
-- and what `delay` is more than `down`, nothing if it is less.
pub on_datagram_timestamp-delay :
    (t : TimeSynchronizer) (clock up down sent delay remote_send local_recv : ℕ)
    → let delta = (local_recv / 8 % 2 ^ 24 + 2 ^ 24 - remote_send) % 2 ^ 24 in
      Measured
        (record t { min_deltas = update t.min_deltas delta local_recv drift_window_usec })
        clock
        up
        down
      → delay < 2 ^ 23
      → remote_send < 2 ^ 24
      → remote_send ≡ (sent + clock) % 2 ^ 24
      → local_recv / 8 ≡ sent + delay
      → (on_datagram_timestamp t remote_send local_recv).1 ≡ 8 * ((up + down) / 2 + (delay - down))
unfolding on_datagram_timestamp sub
on_datagram_timestamp-delay t clock up down sent delay remote_send local_recv m h r e f =
    let delta = (local_recv / 8 % 2 ^ 24 + 2 ^ 24 - remote_send) % 2 ^ 24 in
    let read : (local_recv / 8 % 2 ^ 32 % 2 ^ 24 + 2 ^ 24 - remote_send) % 2 ^ 24 ≡ delta =
      omega arith in
    let t' =
      λ (d : ℕ). record t { min_deltas = update t.min_deltas d local_recv drift_window_usec } in
    ap (λ (d : ℕ). trip_time (recalculate (t' d)) d) read
    ∙ (ap (trip_time (recalculate (t' delta))) {y = (delay + 2 ^ 24 - clock) % 2 ^ 24}
          (omega (arith, m.clock_small, r, e, f))
        ∙ trip_time-delay (t' delta) clock up down delay m h)
