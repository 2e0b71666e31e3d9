-- ===== src/StrikeRegister/Tests.antt =====
-- Runs of the strike register, and its theorems at concrete registers.
use tonk.Common.{
  if◌then◌else◌, ℕ, ◌+◌, ◌^◌, ◌<◌, ◌≡◌, refl, true, false, [], ◌∷◌, arith, ltb, ◌==◌, ◌||◌,
}
use tonk.Counter.{lt, sub, add}
use tonk.StrikeRegister.{reset, is_duplicate, accept}
use tonk.StrikeRegister.Accept.{InReach, base_after}
use tonk.StrikeRegister.Replay.{IsValid, accept-step}
use tonk.StrikeRegister.History.{accept_all, bases, elem, accept_all-exact, reset-IsValid}
use tonk.StrikeRegister.Slide.{accept-tolerance, accept-jump}

reset-InReach : (s : ℕ) → s < 2 ^ 38 → InReach (reset 0) s
unfolding reset
reset-InReach s h = record {
  base_small = omega arith;
  small = omega arith;
  largest_small = omega arith;
  reach = omega arith;
}

-- A number, and its replay after a slide by one word.
replayed :
    (is_duplicate (accept (reset 0) 70) 70 ≡ true)
    × (is_duplicate (accept (reset 0) 70) 71 ≡ false)
    × (is_duplicate (accept (accept (reset 0) 70) 4100) 70 ≡ true)
    × (is_duplicate (accept (accept (reset 0) 70) 4100) 63 ≡ true)
    × (is_duplicate (accept (accept (reset 0) 70) 4100) 64 ≡ false)
unfolding is_duplicate accept lt sub add
replayed = (refl, refl, refl, refl, refl)

accept-step_example :
    IsValid (accept (reset 0) 5000)
    × ((accept (reset 0) 5000).window_base ≡ base_after ((reset 0).window_base) 5000)
    × ((accept (reset 0) 5000).largest_sequence
        ≡ (if ltb ((reset 0).largest_sequence) 5000 then 5000 else (reset 0).largest_sequence))
    × (is_duplicate (accept (reset 0) 5000) 4990 ≡ (
        ltb 4990 (base_after ((reset 0).window_base) 5000)
        || (4990 == 5000 || is_duplicate (reset 0) 4990)))
accept-step_example =
    accept-step (reset 0) 5000 4990 (reset-IsValid 0) (reset-InReach 5000 (omega arith))
      (omega arith)

accept_all-exact_example :
    is_duplicate (accept_all (reset 0) (3 ∷ 5000 ∷ 4990 ∷ [])) 4990
    ≡ (ltb 4990 (bases 0 (3 ∷ 5000 ∷ 4990 ∷ [])) || elem 4990 (3 ∷ 5000 ∷ 4990 ∷ []))
accept_all-exact_example = accept_all-exact (3 ∷ 5000 ∷ 4990 ∷ []) 4990 (omega arith) (omega arith)

accept-tolerance_example :
    is_duplicate (accept (reset 0) 5000) 4000
    ≡ (if ltb 5000 ((reset 0).window_base + 8128) then is_duplicate (reset 0) 4000 else true)
accept-tolerance_example =
    accept-tolerance (reset 0) 5000 4000 (reset-IsValid 0) (reset-InReach 5000 (omega arith))
      (omega arith) (omega arith)

accept-jump_example :
    ((accept (reset 0) (2 ^ 38 + 4040)).window_base ≡ (reset 0).window_base)
    × (is_duplicate (accept (reset 0) (2 ^ 38 + 4040)) (2 ^ 38 + 4040) ≡ false)
unfolding reset
accept-jump_example =
    accept-jump (reset 0) (2 ^ 38 + 4040) (omega arith) (omega arith) (omega arith) (omega arith)
