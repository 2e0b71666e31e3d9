-- ===== src/Decoder/Filling.antt =====
-- SiameseDecoder.cpp: which elements of the window are received, as it grows and takes a packet.
use tonk.Common.{
  ℕ, ◌+◌, ◌-◌, ◌/◌, ◌%◌, ◌≤◌, ◌<◌, ◌≡◌, ◌≢◌, ap, subst, sym, ◌∙◌, Bool, true, false, length, get_or,
  replicate, arith, if◌then◌else◌, ◌==◌, get_or-set_self, get_or-set_ne, length-append,
  length-replicate, get_or-append_replicate, eq_cases, inl, inr,
}
use tonk.Common.Bits.Flags.{bit}
use tonk.Originals.{SiamesePacket, initialize_packet, no_packet}
use tonk.Decoder.{DecoderSubwindow, DecoderWindow, empty_subwindow, get_subwindow}
use tonk.Decoder.Adding.{fill_place, fill_element, grow_window, element_original}
use tonk.Decoder.Invariant.{IsSubwindow, fill_place-IsSubwindow, bit-set_bit}

-- Growing changes no subwindow, and leaves one for every element before the end.
pub get_subwindow-grow_window :
    (window : DecoderWindow) (element_end i : ℕ)
    → get_subwindow (grow_window window element_end) i ≡ get_subwindow window i
unfolding grow_window
get_subwindow-grow_window window element_end i =
    get_or-append_replicate window.subwindows
      ((element_end + 8 + 64 - 1) / 64 - length window.subwindows) i empty_subwindow

pub length-grow_window :
    (window : DecoderWindow) (element : ℕ)
    → element / 64 < length (grow_window window (element + 1)).subwindows
unfolding grow_window
length-grow_window window element =
    let n = (element + 1 + 8 + 64 - 1) / 64 - length window.subwindows in
    omega (
      arith,
      length-append window.subwindows (replicate n empty_subwindow),
      length-replicate n empty_subwindow,
    )

pub count-grow_window :
    (window : DecoderWindow) (element : ℕ)
    → (window.count ≤ (grow_window window (element + 1)).count)
      × (element < (grow_window window (element + 1)).count)
unfolding grow_window
count-grow_window window element = (ground arith, ground arith)

module _ (window : DecoderWindow) (element : ℕ) (packet : SiamesePacket)
    (room : element / 64 < length window.subwindows) where
  -- The subwindow of the element, and the others.
  pub get_subwindow-fill_same :
      get_subwindow (fill_element window element packet) (element / 64)
      ≡ fill_place (get_subwindow window (element / 64)) (element % 64) packet
  get_subwindow-fill_same =
      get_or-set_self window.subwindows (element / 64)
        (fill_place (get_subwindow window (element / 64)) (element % 64) packet) empty_subwindow
        room

  pub get_subwindow-fill_other :
      (i : ℕ)
      → element / 64 ≢ i
      → get_subwindow (fill_element window element packet) i ≡ get_subwindow window i
  get_subwindow-fill_other i h =
      get_or-set_ne window.subwindows (element / 64) i
        (fill_place (get_subwindow window (element / 64)) (element % 64) packet) empty_subwindow h

  pub element_original-fill_same :
      IsSubwindow (get_subwindow window (element / 64))
      → element_original (fill_element window element packet) element ≡ initialize_packet packet
  element_original-fill_same valid =
      ap (λ subwindow. get_or subwindow.originals (element % 64) no_packet) get_subwindow-fill_same
      ∙ unfold fill_place in
        get_or-set_self (get_subwindow window (element / 64)).originals (element % 64)
          (initialize_packet packet) no_packet (omega (arith, valid.places))

  differ : (a b : ℕ) → a ≢ b → (a == b) ≡ false
  differ a b n = ground arith

  equal : (a : ℕ) → (a == a) ≡ true
  equal a = ground arith

  same-place : (e : ℕ) → element / 64 ≡ e / 64 → element % 64 ≡ e % 64 → element ≡ e
  same-place e h l = omega arith

  -- The bits of the other elements stay as they are.
  pub bit-fill_other :
      (e : ℕ)
      → element ≢ e
      → bit (get_subwindow (fill_element window element packet) (e / 64)).got (e % 64)
        ≡ bit (get_subwindow window (e / 64)).got (e % 64)
  bit-fill_other e h = elim (eq_cases (element / 64) (e / 64)) [
    | inl same ↦
        ap (λ (subwindow : DecoderSubwindow). bit subwindow.got (e % 64))
          (ap (get_subwindow (fill_element window element packet)) (sym same)
            ∙ get_subwindow-fill_same)
        ∙ (unfold fill_place in
            bit-set_bit (get_subwindow window (element / 64)).got (element % 64) (e % 64)
              (omega arith)
            ∙ (ap
                  (λ (c : Bool).
                    if c then 1 else bit (get_subwindow window (element / 64)).got (e % 64))
                  (differ (e % 64) (element % 64) (λ p. h (same-place e same (sym p))))
                ∙ ap (λ (i : ℕ). bit (get_subwindow window i).got (e % 64)) same))
    | inr other ↦
        ap (λ (subwindow : DecoderSubwindow). bit subwindow.got (e % 64))
          (get_subwindow-fill_other (e / 64) other)
  ]

  pub element_original-fill_other :
      (e : ℕ)
      → element ≢ e
      → element_original (fill_element window element packet) e ≡ element_original window e
  element_original-fill_other e h = elim (eq_cases (element / 64) (e / 64)) [
    | inl same ↦
        ap (λ (subwindow : DecoderSubwindow). get_or subwindow.originals (e % 64) no_packet)
          (ap (get_subwindow (fill_element window element packet)) (sym same)
            ∙ get_subwindow-fill_same)
        ∙ (unfold fill_place in
            get_or-set_ne (get_subwindow window (element / 64)).originals (element % 64) (e % 64)
              (initialize_packet packet) no_packet (λ p. h (same-place e same p))
            ∙ ap (λ (i : ℕ). get_or (get_subwindow window i).originals (e % 64) no_packet) same)
    | inr other ↦
        ap (λ (subwindow : DecoderSubwindow). get_or subwindow.originals (e % 64) no_packet)
          (get_subwindow-fill_other (e / 64) other)
  ]

  pub bit-fill_same :
      bit (get_subwindow (fill_element window element packet) (element / 64)).got (element % 64) ≡ 1
  bit-fill_same =
      ap (λ (subwindow : DecoderSubwindow). bit subwindow.got (element % 64))
        get_subwindow-fill_same
      ∙ (unfold fill_place in
          bit-set_bit (get_subwindow window (element / 64)).got (element % 64) (element % 64)
            (omega arith)
          ∙ ap
              (λ (c : Bool).
                if c then 1 else bit (get_subwindow window (element / 64)).got (element % 64))
              (equal (element % 64)))

  pub fill_element-IsSubwindow :
      ((i : ℕ) → IsSubwindow (get_subwindow window i))
      → bit (get_subwindow window (element / 64)).got (element % 64) ≡ 0
      → (i : ℕ) → IsSubwindow (get_subwindow (fill_element window element packet) i)
  fill_element-IsSubwindow valid clear i = elim (eq_cases (element / 64) i) [
    | inl same ↦
        subst (λ (k : ℕ). IsSubwindow (get_subwindow (fill_element window element packet) k)) same
          (subst IsSubwindow (sym get_subwindow-fill_same) (
            fill_place-IsSubwindow (get_subwindow window (element / 64)) (element % 64) packet
              (valid (element / 64)) (omega arith) clear))
    | inr other ↦ subst IsSubwindow (sym (get_subwindow-fill_other i other)) (valid i)
  ]
