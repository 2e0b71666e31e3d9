-- ===== src/Receive/Nonces.antt =====
-- The nonce that `ProcessDatagram` recovers lies near the largest accepted one, or is rejected.
use tonk.Common.{ℕ, zero, suc, ◌+◌, ◌^◌, ◌≤◌, ◌<◌, ◌≡◌, refl, true, arith, ◌⊎◌, inl, inr, ap}
use tonk.Counter.{add, lt, counter_expand}
use tonk.StrikeRegister.{StrikeRegister, is_duplicate, next_expected, expand}
use tonk.StrikeRegister.Accept.{InReach}
use tonk.StrikeRegister.Replay.{IsValid}
use tonk.Receive.{Datagram, nonce_of}

-- Less than 2 ^ 24 ahead, or so far behind that the counter wrapped below 0.
abbrev Recovered : ℕ → ℕ → Type 0
Recovered recent n = (n < recent + 2 ^ 24) ⊎ ((2 ^ 64 ≤ n + 2 ^ 24) × (n < 2 ^ 64))

expand-Recovered1 :
    (recent partial : ℕ) → recent < 2 ^ 61 → Recovered recent (counter_expand recent partial 1)
unfolding counter_expand
expand-Recovered1 recent partial h = ground arith

expand-Recovered2 :
    (recent partial : ℕ) → recent < 2 ^ 61 → Recovered recent (counter_expand recent partial 2)
unfolding counter_expand
expand-Recovered2 recent partial h = ground arith

expand-Recovered3 :
    (recent partial : ℕ) → recent < 2 ^ 61 → Recovered recent (counter_expand recent partial 3)
unfolding counter_expand
expand-Recovered3 recent partial h = ground arith

nonce_of-cases :
    (r : StrikeRegister) (d : Datagram) (b : ℕ)
    → d.nonce_bytes ≡ b
    → b ≤ 3
    → r.largest_sequence < 2 ^ 61
    → Recovered r.largest_sequence (nonce_of r d)
unfolding nonce_of next_expected expand add
nonce_of-cases r d zero e h hl = ground arith
nonce_of-cases r d (suc zero) e h hl = ground (
  arith,
  expand-Recovered1 r.largest_sequence d.partial_nonce,
  ap (counter_expand r.largest_sequence d.partial_nonce) e,
)
nonce_of-cases r d (suc (suc zero)) e h hl = ground (
  arith,
  expand-Recovered2 r.largest_sequence d.partial_nonce,
  ap (counter_expand r.largest_sequence d.partial_nonce) e,
)
nonce_of-cases r d (suc (suc (suc zero))) e h hl = ground (
  arith,
  expand-Recovered3 r.largest_sequence d.partial_nonce,
  ap (counter_expand r.largest_sequence d.partial_nonce) e,
)
nonce_of-cases r d (suc (suc (suc (suc b)))) e h hl = absurd (omega arith)

-- A number that wrapped below 0 lies before the base.
wrapped-is_duplicate :
    (r : StrikeRegister) (n : ℕ)
    → r.window_base < 2 ^ 61
    → 2 ^ 64 ≤ n + 2 ^ 24
    → n < 2 ^ 64
    → is_duplicate r n ≡ true
unfolding is_duplicate lt
wrapped-is_duplicate r n h lo hi = ground arith

-- For a valid register, a nonce of at most 3 bytes is rejected as a duplicate, or is in reach of
-- `Accept` and less than 2 ^ 24 past the largest accepted number.
pub nonce_of-InReach :
    (r : StrikeRegister) (d : Datagram)
    → IsValid r
    → d.nonce_bytes ≤ 3
    → r.largest_sequence < 2 ^ 61
    → (is_duplicate r (nonce_of r d) ≡ true)
      ⊎ (InReach r (nonce_of r d) × (nonce_of r d < r.largest_sequence + 2 ^ 24))
nonce_of-InReach r d v h hl = elim (nonce_of-cases r d d.nonce_bytes refl h hl) [
  | inl near ↦ inr (
    record {
      base_small = omega (arith, v.base_le);
      small = omega arith;
      largest_small = omega arith;
      reach = omega (arith, v.covers);
    },
    near,
  )
  | inr wrapped ↦
      inl (wrapped-is_duplicate r (nonce_of r d) (omega (arith, v.base_le)) wrapped.0 wrapped.1)
]
