-- ===== src/Acknowledgements/Fitting.antt =====
-- SiameseDecoder.cpp: the loss ranges fit their fields.
use tonk.Common.{ℕ, zero, suc, ◌+◌, ◌-◌, ◌^◌, ◌≤◌, ◌<◌, subst, sym, length, arith, All}
use native.Mathlib.Decide.{dec_lt}
use tonk.Decoder.{DecoderWindow, get_subwindow, find_next_lost, find_next_got}
use tonk.Decoder.Search.{IsCounted, find_next_lost-FirstFrom, find_next_got-FirstFrom}
use tonk.Encoder.Losses.Ranges.{Fits, range_field}
use tonk.Acknowledgements.Reported.{written, range_of}
use tonk.Acknowledgements.Steps.{written-none, written-last, written-range, written-behind}

module _ (window : DecoderWindow) (counts : (i : ℕ) → IsCounted (get_subwindow window i))
    (few : window.count < 2 ^ 22) where
  pub written-Fits :
      (fuel offset byte_limit : ℕ)
      → offset ≤ window.count
      → All Fits (written fuel window offset byte_limit)
  unfolding written
  written-Fits zero offset byte_limit h = tt
  written-Fits (suc fuel) offset byte_limit h = elim (dec_lt byte_limit 7) [
    | yes tight ↦ subst (All Fits) (sym (written-none window fuel offset byte_limit tight)) tt
    | no room ↦ elim (dec_lt (find_next_lost window offset) window.count) [
      | yes inside ↦
          let start = find_next_lost window offset in
          let range_end = find_next_got window (start + 1) in
          let lost = find_next_lost-FirstFrom window counts offset h in
          let got = find_next_got-FirstFrom window counts (start + 1) (omega (arith, inside)) in
          let left =
            byte_limit - length (range_field (range_of (start - offset) (range_end - start - 1))) in
          subst (All Fits)
            (sym (written-range window fuel offset byte_limit (omega (arith, room)) inside))
            (
              (omega (arith, few, lost.after), omega (arith, few, got.bounded)),
              elim (dec_lt range_end window.count) [
                | yes going ↦ written-Fits fuel (range_end + 1) left (omega (arith, going))
                | no ended ↦
                    subst (λ (k : ℕ). All Fits (written fuel window (k + 1) left))
                      {x = window.count} {y = range_end} (omega (arith, ended, got.bounded))
                      (subst (All Fits) (sym (written-behind window fuel left)) tt)
              ],
            )
      | no outside ↦
          subst (All Fits)
            (sym (
              written-last window fuel offset byte_limit (omega (arith, room)) h
                (omega (arith, outside))))
            ((omega arith, omega arith), tt)
    ]
  ]
