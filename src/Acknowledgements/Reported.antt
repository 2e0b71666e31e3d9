-- ===== src/Acknowledgements/Reported.antt =====
-- SiameseDecoder.cpp: what the loss ranges of an acknowledgement stand for.
use tonk.Common.{
  ℕ, zero, suc, ◌+◌, ◌-◌, ◌/◌, ◌%◌, subst, ◌≤◌, ◌<◌, ◌≡◌, refl, ap, ap₂, ◌∙◌, sym, Bool, true,
  false, List, [], ◌∷◌, ◌++◌, length, arith, if◌then◌else◌, ltb, leb, ◌==◌,
}
use mathlib.Core.List.{append-nil, append_assoc}
use native.Mathlib.Decide.{dec_lt}
use tonk.Common.Bits.Flags.{bit, bit-le-one}
use tonk.BitSet.Search.{FirstFrom}
use tonk.Decoder.{
  DecoderWindow, lost_element, got_element, get_subwindow, find_next_lost, find_next_got,
}
use tonk.Decoder.Acknowledge.{loss_ranges}
use tonk.Encoder.Losses.Ranges.{LossRange, range_field, range_bytes, interval}
use tonk.Acknowledgements.{lost_elements, end_mark, missing}

abbrev pub range_of : ℕ → ℕ → LossRange
range_of start count_m1 = record { relative_start = start; loss_count_m1 = count_m1 }

-- The ranges whose bytes `loss_ranges` writes.
unfoldable pub written : ℕ → DecoderWindow → ℕ → ℕ → List LossRange
written zero window offset byte_limit = []
written (suc fuel) window offset byte_limit =
    let start = find_next_lost window offset in
    let range_end = find_next_got window (start + 1) in
    let range = range_of (start - offset) (range_end - start - 1) in
    let rest = written fuel window (range_end + 1) (byte_limit - length (range_field range)) in
    let last = if leb offset window.count then range_of (window.count - offset) 0 ∷ [] else [] in
    if ltb byte_limit 7 then [] else if leb window.count start then last else range ∷ rest

written-bytes :
    (none_left ended marked : Bool) (last range : LossRange) (ranges : List LossRange)
    (bytes : List ℕ)
    → bytes ≡ range_bytes ranges
    → (if none_left
        then []
        else if ended
        then (if marked then range_field last else [])
        else range_field range ++ bytes)
      ≡ range_bytes (
          if none_left
          then []
          else if ended
          then (if marked then last ∷ [] else [])
          else range ∷ ranges)
written-bytes true ended marked last range ranges bytes e = refl
written-bytes false true true last range ranges bytes e = sym (append-nil (range_field last))
written-bytes false true false last range ranges bytes e = refl
written-bytes false false marked last range ranges bytes e =
    ap (λ rest. range_field range ++ rest) e

pub loss_ranges-written :
    (fuel : ℕ) (window : DecoderWindow) (offset byte_limit : ℕ)
    → loss_ranges fuel window offset byte_limit
      ≡ range_bytes (written fuel window offset byte_limit)
unfolding loss_ranges written
loss_ranges-written zero window offset byte_limit = refl
loss_ranges-written (suc fuel) window offset byte_limit =
    let start = find_next_lost window offset in
    let range_end = find_next_got window (start + 1) in
    let range = range_of (start - offset) (range_end - start - 1) in
    let left = byte_limit - length (range_field range) in
    written-bytes (ltb byte_limit 7) (leb window.count start) (leb offset window.count)
      (range_of (window.count - offset) 0) range (written fuel window (range_end + 1) left)
      (loss_ranges fuel window (range_end + 1) left)
      (loss_ranges-written fuel window (range_end + 1) left)

pub lost_element-not_got :
    (window : DecoderWindow) (k : ℕ) → got_element window k ≡ false → lost_element window k ≡ true
lost_element-not_got window k e =
    digit (bit (get_subwindow window (k / 64)).got (k % 64))
      (bit-le-one (k % 64) (get_subwindow window (k / 64)).got) e
  where
    digit : (b : ℕ) → b ≤ 1 → (b == 1) ≡ false → (b == 0) ≡ true
    digit b h e = ground arith

pub not_lost_element-got :
    (window : DecoderWindow) (k : ℕ) → got_element window k ≡ true → lost_element window k ≡ false
not_lost_element-got window k e = digit (bit (get_subwindow window (k / 64)).got (k % 64)) e
  where
    digit : (b : ℕ) → (b == 1) ≡ true → (b == 0) ≡ false
    digit b e = ground arith

module _ (window : DecoderWindow) where
  lost_elements-here :
      (more element : ℕ)
      → lost_elements window (0 + more) element ≡ lost_elements window more (element + 0)
  lost_elements-here more element = ap₂ (lost_elements window) number place
    where
      number : 0 + more ≡ more
      number = omega arith

      place : element ≡ element + 0
      place = omega arith

  -- Elements that were all received, and elements that were all lost.
  pub lost_elements-got :
      (n element more : ℕ)
      → ((k : ℕ) → element ≤ k → k < element + n → lost_element window k ≡ false)
      → lost_elements window (n + more) element ≡ lost_elements window more (element + n)
  lost_elements-got zero element more h = lost_elements-here more element
  lost_elements-got (suc n) element more h =
      ap (λ (k : ℕ). lost_elements window k element) {y = suc (n + more)} (omega arith)
      ∙ rw (h element (omega arith) (omega arith)) (
          lost_elements-got n (element + 1) more
            (λ k l m. h k (omega (arith, l)) (omega (arith, m)))
          ∙ ap (lost_elements window more) (omega arith))

  lost_elements-lost :
      (n element more : ℕ)
      → ((k : ℕ) → element ≤ k → k < element + n → lost_element window k ≡ true)
      → lost_elements window (n + more) element
        ≡ interval element n ++ lost_elements window more (element + n)
  lost_elements-lost zero element more h = lost_elements-here more element
  lost_elements-lost (suc n) element more h =
      ap (λ (k : ℕ). lost_elements window k element) {y = suc (n + more)} (omega arith)
      ∙ rw (h element (omega arith) (omega arith)) (
          ap (λ (rest : List ℕ). element ∷ rest)
            (lost_elements-lost n (element + 1) more
                (λ k l m. h k (omega (arith, l)) (omega (arith, m)))
              ∙ ap (λ (e : ℕ). interval (element + 1) n ++ lost_elements window more e)
                  (omega arith)))

  -- From an element before which nothing is left to report to the next lost one, and on to the next
  -- received one or the end.
  pub missing-range :
      (offset start range_end : ℕ)
      → FirstFrom (lost_element window) offset window.count start
      → start < window.count
      → FirstFrom (got_element window) (start + 1) window.count range_end
      → missing window offset
        ≡ interval start (range_end - start)
          ++ (lost_elements window (window.count - range_end) range_end ++ end_mark window)
  missing-range offset start range_end lost inside got =
      let tail = lost_elements window (window.count - range_end) range_end in
      ap (λ elements. elements ++ end_mark window)
        (ap (λ (n : ℕ). lost_elements window n offset) whole
          ∙ (lost_elements-got (start - offset) offset (lost_n + left)
                (λ k l m. lost.before k l (omega (arith, m, lost.after)))
              ∙ (ap (lost_elements window (lost_n + left)) begin
                  ∙ (lost_elements-lost lost_n start left lost_run
                      ∙ ap (λ (e : ℕ). interval start lost_n ++ lost_elements window left e)
                          finish))))
      ∙ append_assoc (interval start lost_n) tail (end_mark window)
    where
      lost_n : ℕ
      lost_n = range_end - start

      left : ℕ
      left = window.count - range_end

      whole : window.count - offset ≡ start - offset + (lost_n + left)
      whole = omega (arith, lost.after, got.after, got.bounded)

      begin : offset + (start - offset) ≡ start
      begin = omega (arith, lost.after)

      finish : start + lost_n ≡ range_end
      finish = omega (arith, got.after)

      lost_run : (k : ℕ) → start ≤ k → k < start + lost_n → lost_element window k ≡ true
      lost_run k l m = elim (dec_lt start k) [
        | yes beyond ↦
            lost_element-not_got window k
              (got.before k (omega (arith, beyond)) (omega (arith, m, got.after)))
        | no here ↦
            subst (λ (e : ℕ). lost_element window e ≡ true) {x = start} {y = k}
              (omega (arith, l, here)) (lost.found inside)
      ]
