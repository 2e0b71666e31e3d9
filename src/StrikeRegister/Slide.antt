-- ===== src/StrikeRegister/Slide.antt =====
-- StrikeRegister.cpp: how far `Accept` moves the window, and the jump that `slideWords` cannot hold.
use tonk.Common.{ℕ, ◌+◌, ◌^◌, ◌≤◌, ◌<◌, ◌≡◌, true, false, if◌then◌else◌, ltb, arith}
use tonk.Counter.{add}
use tonk.StrikeRegister.{StrikeRegister, is_duplicate, accept}
use tonk.StrikeRegister.Window.{is_duplicate_lem, lt64-eq, sub64-eq}
use tonk.StrikeRegister.Accept.{InReach, base_after}
use tonk.StrikeRegister.Replay.{IsValid, accept-Accepts}

-- A number accepted less than 8128 past the base of a valid window leaves each of the 4032 numbers
-- below it as it was, a duplicate exactly where it was one. A number accepted 8128 or more past the
-- base, but less than 2 ^ 38 past it, makes them all duplicates. All numbers are below 2 ^ 62.
pub accept-tolerance :
    (r : StrikeRegister) (s t : ℕ)
    → IsValid r
    → InReach r s
    → t < s
    → s ≤ t + 4032
    → is_duplicate (accept r s) t
      ≡ (if ltb s (r.window_base + 8128) then is_duplicate r t else true)
unfolding base_after
accept-tolerance r s t v h lt_s close =
    let step = accept-Accepts r s v h in ground (arith, step.view t, is_duplicate_lem r t)

jump_base :
    (r : StrikeRegister) (s : ℕ)
    → r.window_base < 2 ^ 61
    → r.largest_sequence < 2 ^ 61
    → r.window_base + 2 ^ 38 + 4032 ≤ s
    → s < r.window_base + 2 ^ 38 + 4096
    → (accept r s).window_base ≡ r.window_base
unfolding accept add
jump_base r s h hl lo hi = ground (arith, lt64-eq s r.window_base, sub64-eq s r.window_base)

-- With a base and a largest number below 2 ^ 61, and a number from 2 ^ 38 + 4032 to less than 2 ^ 38 + 4096
-- past the base: `Accept` leaves the base of the window where it is, and `IsDuplicate` does not know the
-- number right after it.
pub accept-jump :
    (r : StrikeRegister) (s : ℕ)
    → r.window_base < 2 ^ 61
    → r.largest_sequence < 2 ^ 61
    → r.window_base + 2 ^ 38 + 4032 ≤ s
    → s < r.window_base + 2 ^ 38 + 4096
    → ((accept r s).window_base ≡ r.window_base) × (is_duplicate (accept r s) s ≡ false)
accept-jump r s h hl lo hi =
    let base = jump_base r s h hl lo hi in
    (base, ground (arith, is_duplicate_lem (accept r s) s, base))
