-- ===== src/Decoder/Kept.antt =====
-- SiameseDecoder.cpp: the invariant of the window, and that `AddOriginal` keeps it.
use tonk.Common.{
  ℕ, ◌+◌, ◌/◌, ◌%◌, ◌≤◌, ◌<◌, ◌≡◌, ◌≢◌, refl, ap, subst, sym, ◌∙◌, Bool, true, false, length, arith,
  if◌then◌else◌, ltb, ◌==◌, lt→not-leb, eq_cases, inl, inr,
}
use native.Mathlib.Decide.{dec_lt}
use tonk.Common.Bits.Flags.{bit, bit-le-one, bit-zero}
use tonk.BitSet.Search.{FirstFrom}
use tonk.Columns.{is_column_delta_negative}
use tonk.Originals.{SiamesePacket, disabled, duplicate_data}
use tonk.Decoder.{
  DecoderWindow, new_window, get_subwindow, lost_element, column_to_element, iterate_next_expected,
  find_next_lost,
}
use tonk.Decoder.Search.{find_next_lost-FirstFrom}
use tonk.Decoder.Adding.{
  AddOutcome, fill_element, grow_window, element_original, after_fill, add_original, unused,
}
use tonk.Decoder.Invariant.{IsSubwindow, empty_subwindow-IsSubwindow}
use tonk.Decoder.Filling.{
  get_subwindow-grow_window, length-grow_window, count-grow_window, bit-fill_other, bit-fill_same,
  fill_element-IsSubwindow,
}

-- The bits of the subwindows agree with their packets, the next expected element is the first lost one
-- or the end, and nothing is received from the end on.
pub record IsValid (window : DecoderWindow) : Type 0 where
  pub subwindows_valid : (i : ℕ) → IsSubwindow (get_subwindow window i)
  pub expected : FirstFrom (lost_element window) 0 window.count window.next_expected_element
  pub beyond : (element : ℕ) → window.count ≤ element → lost_element window element ≡ true

module _ (window : DecoderWindow) (element : ℕ) where
  abbrev grown : DecoderWindow
  grown = grow_window window (element + 1)

  lost_element-grow_window : (e : ℕ) → lost_element grown e ≡ lost_element window e
  lost_element-grow_window e =
      ap (λ subwindow. bit subwindow.got (e % 64) == 0)
        (get_subwindow-grow_window window (element + 1) (e / 64))

  next_expected-grow_window : grown.next_expected_element ≡ window.next_expected_element
  unfolding grow_window
  next_expected-grow_window = refl

  pub grow_window-IsValid : IsValid window → IsValid grown
  grow_window-IsValid valid =
      let next = grown.next_expected_element in
      let same = next_expected-grow_window in
      let counts = count-grow_window window element in
      record {
        subwindows_valid = λ i.
            subst IsSubwindow (sym (get_subwindow-grow_window window (element + 1) i))
              (valid.subwindows_valid i);
        expected = record {
          bounded = omega (arith, same, counts.0, valid.expected.bounded);
          after = omega arith;
          found = λ h. lost_element-grow_window next ∙ elim (dec_lt next window.count) [
            | yes inside ↦
                ap (lost_element window) same ∙ valid.expected.found (omega (arith, inside, same))
            | no outside ↦ valid.beyond next (omega (arith, outside))
          ];
          before = λ k h l.
              lost_element-grow_window k ∙ valid.expected.before k h (omega (arith, l, same));
        };
        beyond = λ e h. lost_element-grow_window e ∙ valid.beyond e (omega (arith, h, counts.0));
      }

-- A lost element's bit, and its empty place.
pub bit-lost :
    (window : DecoderWindow) (element : ℕ)
    → IsValid window
    → ltb 0 (length (element_original window element).buffer) ≡ false
    → bit (get_subwindow window (element / 64)).got (element % 64) ≡ 0
bit-lost window element valid h =
    clear (bit (get_subwindow window (element / 64)).got (element % 64))
      (bit-le-one (element % 64) (get_subwindow window (element / 64)).got)
      (sym ((valid.subwindows_valid (element / 64)).filled (element % 64) (omega arith)) ∙ h)
  where
    clear : (b : ℕ) → b ≤ 1 → (b == 1) ≡ false → b ≡ 0
    clear b h e = ground arith

-- A window with room for an element that is lost, filled with it.
module _ (window : DecoderWindow) (element : ℕ) (packet : SiamesePacket) (valid : IsValid window)
    (room : element / 64 < length window.subwindows) (inside : element < window.count)
    (clear : bit (get_subwindow window (element / 64)).got (element % 64) ≡ 0) where
  abbrev filled : DecoderWindow
  filled = fill_element window element packet

  lost_element-fill_same : lost_element filled element ≡ false
  lost_element-fill_same = ap (λ (b : ℕ). b == 0) (bit-fill_same window element packet room)

  lost_element-fill_other : (e : ℕ) → element ≢ e → lost_element filled e ≡ lost_element window e
  lost_element-fill_other e h =
      ap (λ (b : ℕ). b == 0) (bit-fill_other window element packet room e h)

  filled-subwindows : (i : ℕ) → IsSubwindow (get_subwindow filled i)
  filled-subwindows =
      fill_element-IsSubwindow window element packet room valid.subwindows_valid clear

  filled-beyond : (e : ℕ) → window.count ≤ e → lost_element filled e ≡ true
  filled-beyond e h =
      lost_element-fill_other e (λ p. absurd (omega (arith, p, h))) ∙ valid.beyond e h

  filled-before : (k : ℕ) → k < window.next_expected_element → lost_element filled k ≡ false
  filled-before k h = elim (eq_cases element k) [
    | inl same ↦ ap (lost_element filled) (sym same) ∙ lost_element-fill_same
    | inr other ↦ lost_element-fill_other k other ∙ valid.expected.before k (omega arith) h
  ]

  -- The element was not the next expected one, which stays.
  filled-IsValid : element ≢ window.next_expected_element → IsValid filled
  filled-IsValid h = record {
    subwindows_valid = filled-subwindows;
    expected = record {
      bounded = valid.expected.bounded;
      after = omega arith;
      found = λ l. lost_element-fill_other window.next_expected_element h ∙ valid.expected.found l;
      before = λ k l m. filled-before k m;
    };
    beyond = filled-beyond;
  }

  onward-eq :
      element ≡ window.next_expected_element
      → iterate_next_expected filled (element + 1)
        ≡ record filled { next_expected_element = find_next_lost filled (element + 1) }
  unfolding iterate_next_expected
  onward-eq same = rw (lt→not-leb window.count window.next_expected_element (omega arith)) refl

  -- It was, and the next lost element after it takes its place.
  onward-IsValid :
      element ≡ window.next_expected_element → IsValid (iterate_next_expected filled (element + 1))
  onward-IsValid same =
      let next =
        find_next_lost-FirstFrom filled (λ i. (filled-subwindows i).counts) (element + 1)
          (omega arith) in
      subst IsValid (sym (onward-eq same)) record {
        subwindows_valid = filled-subwindows;
        expected = record {
          bounded = next.bounded;
          after = omega arith;
          found = next.found;
          before = λ k h l. elim (dec_lt element k) [
            | yes beyond ↦ next.before k (omega (arith, beyond)) l
            | no within ↦ elim (eq_cases element k) [
              | inl here ↦ ap (lost_element filled) (sym here) ∙ lost_element-fill_same
              | inr other ↦ filled-before k (positioned k within other same)
            ]
          ];
        };
        beyond = filled-beyond;
      }
    where
      positioned :
          (k : ℕ)
          → ¬ (element < k)
          → element ≢ k
          → element ≡ window.next_expected_element
          → k < window.next_expected_element
      positioned k h l m = omega arith

  after_fill-IsValid :
      (checked_start next_check_start : ℕ)
      → IsValid (after_fill filled element checked_start next_check_start).window
  unfolding after_fill
  after_fill-IsValid checked_start next_check_start =
      elim (eq_cases element window.next_expected_element) [
        | inl same ↦
            subst
              (λ (b : Bool).
                IsValid (if b then iterate_next_expected filled (element + 1) else filled))
              (sym (equal element window.next_expected_element same)) (onward-IsValid same)
        | inr other ↦
            subst
              (λ (b : Bool).
                IsValid (if b then iterate_next_expected filled (element + 1) else filled))
              (sym (differ element window.next_expected_element other)) (filled-IsValid other)
      ]
    where
      differ : (a b : ℕ) → a ≢ b → (a == b) ≡ false
      differ a b n = ground arith

      equal : (a b : ℕ) → a ≡ b → (a == b) ≡ true
      equal a b e = ground arith

-- The branches of `AddOriginal`.
branches-IsValid :
    (off old double : Bool) (window bigger : DecoderWindow) (outcome : AddOutcome)
    → IsValid window
    → IsValid bigger
    → (double ≡ false → IsValid outcome.window)
    → IsValid
        (if off
          then unused disabled window
          else if old
          then unused duplicate_data window
          else if double
          then unused duplicate_data bigger
          else outcome).window
branches-IsValid true old double window bigger outcome h k l = h
branches-IsValid false true double window bigger outcome h k l = h
branches-IsValid false false true window bigger outcome h k l = k
branches-IsValid false false false window bigger outcome h k l = l refl

-- `AddOriginal` keeps the invariant of the window, whether it takes the packet or not.
pub add_original-IsValid :
    (window : DecoderWindow) (packet : SiamesePacket) (checked_start next_check_start : ℕ)
    → IsValid window
    → IsValid (add_original window packet checked_start next_check_start).window
unfolding add_original
add_original-IsValid window packet checked_start next_check_start valid =
    let element = column_to_element window packet.packet_num in
    let bigger = grow_window window (element + 1) in
    let grown-valid = grow_window-IsValid window element valid in
    branches-IsValid window.emergency_disabled (is_column_delta_negative element)
      (ltb 0 (length (element_original bigger element).buffer)) window bigger
      (after_fill (fill_element bigger element packet) element checked_start next_check_start) valid
      grown-valid
      (λ empty.
        after_fill-IsValid bigger element packet grown-valid (length-grow_window window element)
          (count-grow_window window element).1 (bit-lost bigger element grown-valid empty)
          checked_start next_check_start)

pub new_window-IsValid : IsValid new_window
new_window-IsValid = record {
  subwindows_valid = λ i. empty_subwindow-IsSubwindow;
  expected = record {
    bounded = omega arith;
    after = omega arith;
    found = λ h. absurd (omega (arith, h));
    before = λ k h l. absurd (omega (arith, l));
  };
  beyond = λ element h. ap (λ (b : ℕ). b == 0) (bit-zero (element % 64));
}
