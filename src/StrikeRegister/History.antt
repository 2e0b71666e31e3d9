-- ===== src/StrikeRegister/History.antt =====
-- StrikeRegister.cpp: what a register answers after any history of accepted sequence numbers.
use tonk.Common.{
  ℕ, ◌+◌, ◌^◌, ◌≤◌, ◌<◌, ◌≡◌, refl, Bool, false, List, [], ◌∷◌, ◌||◌, ltb, ◌==◌, arith, ap, All,
}
use tonk.StrikeRegister.{StrikeRegister, is_duplicate, reset, accept}
use tonk.StrikeRegister.Window.{reset-IsWindow, struck-reset, is_duplicate_lem}
use tonk.StrikeRegister.Accept.{InReach, base_after}
use tonk.StrikeRegister.Replay.{IsValid, accept-Accepts}

unfoldable pub accept_all : StrikeRegister → List ℕ → StrikeRegister
accept_all r [] = r
accept_all r (s ∷ ss) = accept_all (accept r s) ss

-- The base after a history, and whether a number stands in it.
unfoldable pub bases : ℕ → List ℕ → ℕ
bases b [] = b
bases b (s ∷ ss) = bases (base_after b s) ss

abbrev pub elem : ℕ → List ℕ → Bool
elem t [] = false
elem t (s ∷ ss) = t == s || elem t ss

pub base_after-le : (b s : ℕ) → (b ≤ base_after b s) × (base_after b s ≤ b + s)
unfolding base_after
base_after-le b s = ground arith

base_after-lt : (b s n : ℕ) → b < n → s < n → base_after b s < n
unfolding base_after
base_after-lt b s n h k = ground arith

bases-le : (b : ℕ) (ss : List ℕ) → b ≤ bases b ss
unfolding bases
bases-le b [] = omega arith
bases-le b (s ∷ ss) = omega (arith, bases-le (base_after b s) ss, base_after-le b s)

pub reset-IsValid : (b : ℕ) → IsValid (reset b)
unfolding reset
reset-IsValid b = record {
  window = unfold reset in reset-IsWindow b;
  base_le = omega arith;
  covers = omega arith;
}

pub is_duplicate-reset : (t : ℕ) → t < 2 ^ 62 → is_duplicate (reset 0) t ≡ false
is_duplicate-reset t h = ground (
  arith,
  is_duplicate_lem (reset 0) t,
  struck-reset 0 t,
  ap (λ (x : ℕ). x) {x = (reset 0).window_base} {y = 0} (unfold reset in refl),
)

accept_all-view :
    (r : StrikeRegister) (ss : List ℕ) (t : ℕ)
    → IsValid r
    → r.largest_sequence < 2 ^ 38
    → All (λ s. s < 2 ^ 38) ss
    → t < 2 ^ 62
    → is_duplicate (accept_all r ss) t
      ≡ (ltb t (bases r.window_base ss) || (elem t ss || is_duplicate r t))
unfolding accept_all bases
accept_all-view r [] t v hr h ht = ground (arith, is_duplicate_lem r t)
accept_all-view r (s ∷ ss) t v hr h ht =
    let reach : InReach r s = record {
      base_small = omega (arith, v.base_le);
      small = omega (arith, h.0);
      largest_small = omega arith;
      reach = omega (arith, h.0);
    } in
    let step = accept-Accepts r s v reach in
    let rest =
      accept_all-view (accept r s) ss t step.valid (ground (arith, step.largest, h.0)) h.1 ht in
    ground (arith, rest, step.base, step.view t, bases-le (base_after r.window_base s) ss)

-- From a register reset to 0, after any history of accepted numbers below 2 ^ 38, `IsDuplicate`
-- holds of a number below 2 ^ 62 exactly when it stands in the history or lies before the base of
-- the window.
pub accept_all-exact :
    (history : List ℕ) (t : ℕ)
    → All (λ s. s < 2 ^ 38) history
    → t < 2 ^ 62
    → is_duplicate (accept_all (reset 0) history) t ≡ (ltb t (bases 0 history) || elem t history)
accept_all-exact history t h ht = ground (
  arith,
  accept_all-view (reset 0) history t (reset-IsValid 0) (unfold reset in omega arith) h ht,
  is_duplicate-reset t ht,
  ap (λ b. bases b history) {x = (reset 0).window_base} {y = 0} (unfold reset in refl),
)
