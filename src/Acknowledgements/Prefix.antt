-- ===== src/Acknowledgements/Prefix.antt =====
-- SiameseDecoder.cpp: the loss ranges list the lost elements in order, as far as the bytes go.
use tonk.Common.{
  ℕ, zero, suc, ◌+◌, ◌-◌, ◌*◌, subst, ◌≤◌, ◌<◌, ◌≡◌, refl, ap, ◌∙◌, sym, false, List, [], ◌∷◌, ◌++◌,
  length, arith, ◌⊎◌, inl, inr,
}
use mathlib.Core.List.{append-nil, append_assoc}
use native.Mathlib.Decide.{dec_lt}
use tonk.Serializers.LossRange.{serialize_header, start_bytes, count_bytes}
use tonk.BitSet.Search.{FirstFrom}
use tonk.Decoder.{
  DecoderWindow, lost_element, got_element, get_subwindow, find_next_lost, find_next_got,
}
use tonk.Decoder.Search.{IsCounted, find_next_lost-FirstFrom, find_next_got-FirstFrom}
use tonk.Encoder.Losses.Ranges.{LossRange, range_field, interval, range_elements}
use tonk.Acknowledgements.{missing}
use tonk.Acknowledgements.Steps.{
  written-behind, written-none, written-last, written-range, range_elements-range, missing-end,
  missing-next, missing-last,
}
use tonk.Acknowledgements.Reported.{written, not_lost_element-got, range_of}

-- The elements that were written, followed by the rest of the missing ones. With bytes enough there is no rest.
pub record Prefix (elements whole : List ℕ) (enough : Type 0) : Type 0 where
  pub rest : List ℕ
  pub split : elements ++ rest ≡ whole
  pub all : enough → rest ≡ []

field-short : (start count : ℕ) → length (serialize_header start count) ≤ 7
unfolding serialize_header start_bytes count_bytes
field-short start count = ground arith

module _ (window : DecoderWindow) (counts : (i : ℕ) → IsCounted (get_subwindow window i)) where
  abbrev Enough : ℕ → ℕ → Type 0
  Enough offset byte_limit = 7 * (window.count + 1 - offset) ≤ byte_limit

  -- A turn that writes a range, with what the later turns write.
  written-Prefix-range :
      (fuel offset byte_limit : ℕ)
      → offset ≤ window.count
      → 7 ≤ byte_limit
      → (inside : find_next_lost window offset < window.count)
      → let start = find_next_lost window offset in
        let range_end = find_next_got window (start + 1) in
        let left =
          byte_limit - length (range_field (range_of (start - offset) (range_end - start - 1))) in
        (range_end < window.count
          → Prefix
              (range_elements (range_end + 1) (written fuel window (range_end + 1) left))
              (missing window (range_end + 1))
              (Enough (range_end + 1) left))
        → Prefix
            (range_elements offset (written (suc fuel) window offset byte_limit))
            (missing window offset)
            (Enough offset byte_limit)
  written-Prefix-range fuel offset byte_limit h room inside later =
      elim (dec_lt range_end window.count) [
        | yes going ↦
            let rest = later going in
            record {
              rest = rest.rest;
              split =
                  ap (λ elements. elements ++ rest.rest) elements_eq
                  ∙ (append_assoc (interval start (range_end - start))
                        (range_elements (range_end + 1) ranges) rest.rest
                      ∙ (ap (λ elements. interval start (range_end - start) ++ elements) rest.split
                          ∙ sym
                              (missing-next window offset start range_end lost inside got going)));
              all = λ enough. rest.all (
                  omega (
                    arith,
                    enough,
                    lost.after,
                    got.after,
                    going,
                    field-short (start - offset) (range_end - start - 1),
                  ));
            }
        | no ended ↦ record {
          rest = [];
          split =
              append-nil (range_elements offset (written (suc fuel) window offset byte_limit))
              ∙ (elements_eq
                  ∙ (ap
                        (λ rest.
                          interval start (range_end - start) ++ range_elements (range_end + 1) rest)
                        (nothing_more (at_end ended))
                      ∙ sym (
                          missing-last window offset start range_end lost inside got
                            (at_end ended))));
          all = λ _. refl;
        }
      ]
    where
      start : ℕ
      start = find_next_lost window offset

      range_end : ℕ
      range_end = find_next_got window (start + 1)

      left : ℕ
      left = byte_limit - length (range_field (range_of (start - offset) (range_end - start - 1)))

      ranges : List LossRange
      ranges = written fuel window (range_end + 1) left

      lost : FirstFrom (lost_element window) offset window.count start
      lost = find_next_lost-FirstFrom window counts offset h

      got : FirstFrom (got_element window) (start + 1) window.count range_end
      got = find_next_got-FirstFrom window counts (start + 1) (omega arith)

      at_end : ¬ (range_end < window.count) → range_end ≡ window.count
      at_end h = omega (arith, got.bounded)

      nothing_more : range_end ≡ window.count → ranges ≡ []
      nothing_more e =
          ap (λ (k : ℕ). written fuel window (k + 1) left) e ∙ written-behind window fuel left

      elements_eq :
          range_elements offset (written (suc fuel) window offset byte_limit)
          ≡ interval start (range_end - start) ++ range_elements (range_end + 1) ranges
      elements_eq =
          ap (range_elements offset) (written-range window fuel offset byte_limit room inside)
          ∙ range_elements-range window offset start range_end ranges lost.after
              (omega (arith, got.after))

  pub written-Prefix :
      (fuel offset byte_limit : ℕ)
      → offset ≤ window.count
      → window.count < offset + fuel
      → (offset < window.count) ⊎ (lost_element window (window.count - 1) ≡ false)
      → Prefix
          (range_elements offset (written fuel window offset byte_limit))
          (missing window offset)
          (Enough offset byte_limit)
  written-Prefix zero offset byte_limit h l m = absurd (omega arith)
  written-Prefix (suc fuel) offset byte_limit h l m = elim (dec_lt byte_limit 7) [
    | yes tight ↦ record {
      rest = missing window offset;
      split =
          ap (λ ranges. range_elements offset ranges ++ missing window offset)
            (written-none window fuel offset byte_limit tight);
      all = λ enough. absurd (omega (arith, tight, enough, h));
    }
    | no room ↦ elim (dec_lt (find_next_lost window offset) window.count) [
      | yes inside ↦
          written-Prefix-range fuel offset byte_limit h (omega (arith, room)) inside (λ going.
            let start = find_next_lost window offset in
            let range_end = find_next_got window (start + 1) in
            let got = find_next_got-FirstFrom window counts (start + 1) (omega (arith, inside)) in
            written-Prefix fuel (range_end + 1)
              (byte_limit
                - length (range_field (range_of (start - offset) (range_end - start - 1))))
              (omega (arith, going))
              (omega (arith, l, (find_next_lost-FirstFrom window counts offset h).after, got.after))
              (next-start range_end (not_lost_element-got window range_end (got.found going))
                going))
      | no outside ↦ record {
        rest = [];
        split =
            append-nil (range_elements offset (written (suc fuel) window offset byte_limit))
            ∙ (ap (range_elements offset) (
                  written-last window fuel offset byte_limit (omega (arith, room)) h
                    (omega (arith, outside)))
                ∙ (ap (λ (e : ℕ). e ∷ []) (end_element offset h)
                    ∙ sym (
                        missing-end window offset h m (at_end offset h (omega (arith, outside))))));
        all = λ _. refl;
      }
    ]
  ]
    where
      end_element :
          (offset : ℕ) → offset ≤ window.count → offset + (window.count - offset) ≡ window.count
      end_element offset h = omega arith

      at_end :
          (offset : ℕ)
          → offset ≤ window.count
          → window.count ≤ find_next_lost window offset
          → FirstFrom (lost_element window) offset window.count window.count
      at_end offset h k =
          let lost = find_next_lost-FirstFrom window counts offset h in
          subst (FirstFrom (lost_element window) offset window.count)
            {x = find_next_lost window offset} {y = window.count} (omega (arith, k, lost.bounded))
            lost

      next-start :
          (range_end : ℕ)
          → lost_element window range_end ≡ false
          → range_end < window.count
          → (range_end + 1 < window.count) ⊎ (lost_element window (window.count - 1) ≡ false)
      next-start range_end e h = elim (dec_lt (range_end + 1) window.count) [
        | yes more ↦ inl more
        | no last ↦ inr (
            subst (λ (k : ℕ). lost_element window k ≡ false) {x = range_end} {y = window.count - 1}
              (omega (arith, h, last)) e)
      ]
