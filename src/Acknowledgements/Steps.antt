-- ===== src/Acknowledgements/Steps.antt =====
-- SiameseDecoder.cpp: one turn of the loop over the loss ranges.
use tonk.Common.{
  ℕ, zero, suc, ◌+◌, ◌-◌, subst, ◌≤◌, ◌<◌, ◌≡◌, refl, ap, ap₂, ◌∙◌, Bool, true, false, List, [],
  ◌∷◌, ◌++◌, length, arith, le→not-ltb, lt→not-leb, le→leb, lt→ltb, if◌then◌else◌, ltb, ◌⊎◌, inl,
  inr,
}
use native.Mathlib.Decide.{dec_lt}
use tonk.BitSet.Search.{FirstFrom}
use tonk.Decoder.{DecoderWindow, lost_element, got_element, find_next_lost, find_next_got}
use tonk.Decoder.Search.{find_next_lost-end}
use tonk.Encoder.Losses.Ranges.{LossRange, range_field, interval, range_elements}
use tonk.Acknowledgements.{lost_elements, end_mark, missing}
use tonk.Acknowledgements.Reported.{
  written, missing-range, lost_elements-got, lost_element-not_got, not_lost_element-got, range_of,
}

module _ (window : DecoderWindow) where
  -- Behind the end nothing is written.
  pub written-behind :
      (fuel byte_limit : ℕ) → written fuel window (window.count + 1) byte_limit ≡ []
  unfolding written
  written-behind zero byte_limit = refl
  written-behind (suc fuel) byte_limit =
      rw
        (
          find_next_lost-end window (window.count + 1) (omega arith),
          le→leb window.count window.count (omega arith),
          lt→not-leb (window.count + 1) window.count (omega arith),
        )
        (if-same (ltb byte_limit 7))
    where
      if-same : (b : Bool) → ◌≡◌ {A = List LossRange} (if b then [] else []) []
      if-same true = refl
      if-same false = refl

  -- Nothing is lost any more.
  pub missing-end :
      (offset : ℕ)
      → offset ≤ window.count
      → (offset < window.count) ⊎ (lost_element window (window.count - 1) ≡ false)
      → FirstFrom (lost_element window) offset window.count window.count
      → missing window offset ≡ window.count ∷ []
  missing-end offset h l lost = ap₂ (λ (a b : List ℕ). a ++ b) none_lost marked
    where
      last_got : lost_element window (window.count - 1) ≡ false
      last_got = elim l [
        | inl inside ↦
            lost.before (window.count - 1) (omega (arith, inside)) (omega (arith, inside))
        | inr got ↦ got
      ]

      marked : end_mark window ≡ window.count ∷ []
      marked = rw last_got refl

      none_lost : lost_elements window (window.count - offset) offset ≡ []
      none_lost =
          ap (λ (n : ℕ). lost_elements window n offset) {y = window.count - offset + 0}
            (omega arith)
          ∙ lost_elements-got window (window.count - offset) offset 0
              (λ k m j. lost.before k m (omega (arith, j, h)))

  pub written-none :
      (fuel offset byte_limit : ℕ)
      → byte_limit < 7
      → written (suc fuel) window offset byte_limit ≡ []
  unfolding written
  written-none fuel offset byte_limit h = rw (lt→ltb byte_limit 7 h) refl

  pub written-last :
      (fuel offset byte_limit : ℕ)
      → 7 ≤ byte_limit
      → offset ≤ window.count
      → window.count ≤ find_next_lost window offset
      → written (suc fuel) window offset byte_limit ≡ range_of (window.count - offset) 0 ∷ []
  unfolding written
  written-last fuel offset byte_limit h l m =
      rw
        (
          le→not-ltb byte_limit 7 h,
          le→leb window.count (find_next_lost window offset) m,
          le→leb offset window.count l,
        )
        refl

  pub written-range :
      (fuel offset byte_limit : ℕ)
      → 7 ≤ byte_limit
      → find_next_lost window offset < window.count
      → let start = find_next_lost window offset in
        let range_end = find_next_got window (start + 1) in
        let range = range_of (start - offset) (range_end - start - 1) in
        written (suc fuel) window offset byte_limit
        ≡ range ∷ written fuel window (range_end + 1) (byte_limit - length (range_field range))
  unfolding written
  written-range fuel offset byte_limit h m =
      rw (le→not-ltb byte_limit 7 h, lt→not-leb window.count (find_next_lost window offset) m) refl

  pub range_elements-range :
      (offset start range_end : ℕ) (ranges : List LossRange)
      → offset ≤ start
      → start < range_end
      → range_elements offset (range_of (start - offset) (range_end - start - 1) ∷ ranges)
        ≡ interval start (range_end - start) ++ range_elements (range_end + 1) ranges
  range_elements-range offset start range_end ranges h l =
      ap₂
        (λ (f : ℕ) (n : ℕ).
          interval f n
          ++ range_elements (offset + (start - offset) + (range_end - start - 1) + 2) ranges)
        first count
      ∙ ap (λ (e : ℕ). interval start (range_end - start) ++ range_elements e ranges) after
    where
      first : offset + (start - offset) ≡ start
      first = omega arith

      count : suc (range_end - start - 1) ≡ range_end - start
      count = omega arith

      after : offset + (start - offset) + (range_end - start - 1) + 2 ≡ range_end + 1
      after = omega arith

  module _ (offset start range_end : ℕ)
      (lost : FirstFrom (lost_element window) offset window.count start)
      (inside : start < window.count)
      (got : FirstFrom (got_element window) (start + 1) window.count range_end) where
    pub missing-next :
        range_end < window.count
        → missing window offset
          ≡ interval start (range_end - start) ++ missing window (range_end + 1)
    missing-next h =
        missing-range window offset start range_end lost inside got
        ∙ ap (λ elements. interval start (range_end - start) ++ (elements ++ end_mark window))
            onward
      where
        is_got : lost_element window range_end ≡ false
        is_got = not_lost_element-got window range_end (got.found h)

        fewer : window.count - range_end ≡ suc (window.count - (range_end + 1))
        fewer = omega arith

        onward :
            lost_elements window (window.count - range_end) range_end
            ≡ lost_elements window (window.count - (range_end + 1)) (range_end + 1)
        onward = ap (λ (n : ℕ). lost_elements window n range_end) fewer ∙ rw is_got refl

    pub missing-last :
        range_end ≡ window.count → missing window offset ≡ interval start (range_end - start) ++ []
    missing-last e =
        missing-range window offset start range_end lost inside got
        ∙ ap₂ (λ (a b : List ℕ). interval start (range_end - start) ++ (a ++ b)) none_left unmarked
      where
        nothing : window.count - range_end ≡ 0
        nothing = omega arith

        none_left : lost_elements window (window.count - range_end) range_end ≡ []
        none_left = ap (λ (n : ℕ). lost_elements window n range_end) nothing

        last_lost : lost_element window (window.count - 1) ≡ true
        last_lost = elim (dec_lt start (window.count - 1)) [
          | yes beyond ↦
              lost_element-not_got window (window.count - 1)
                (got.before (window.count - 1) (omega (arith, beyond)) (omega (arith, inside, e)))
          | no here ↦
              subst (λ (k : ℕ). lost_element window k ≡ true) {x = start} {y = window.count - 1}
                (omega (arith, here, inside)) (lost.found inside)
        ]

        unmarked : end_mark window ≡ []
        unmarked = rw last_lost refl
