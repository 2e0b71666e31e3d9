-- ===== src/Encoder/Window/Places.antt =====
-- SiameseEncoder.cpp: the places of the encoder's window as it grows and stores a packet.
use tonk.Common.{
  ℕ, ◌+◌, ◌*◌, ◌/◌, ◌%◌, ◌≤◌, ◌<◌, ◌≡◌, ◌≢◌, refl, ap, sym, subst, ◌∙◌, Bool, true, false, [], ◌∷◌,
  ◌++◌, length, get_or, arith, if◌then◌else◌, leb, length-set, length-append, get_or-set_self,
  get_or-set_ne, get_or-append_replicate, eq_cases, inl, inr, Bool-cases, not-leb→lt,
}
use tonk.Originals.{SiamesePacket, initialize_packet, no_packet}
use tonk.Encoder.Window.{
  EncoderSubwindow, EncoderWindow, fresh_subwindow, subwindow_at, window_element, make_room,
  fill_sent, store_element,
}

-- A subwindow has 64 places.
abbrev pub HasPlaces : EncoderSubwindow → Type 0
HasPlaces subwindow = length subwindow.originals ≡ 64

-- Making room changes no place, and leaves one for the next element.
pub subwindow_at-make_room :
    (window : EncoderWindow) (i : ℕ) → subwindow_at (make_room window) i ≡ subwindow_at window i
unfolding make_room
subwindow_at-make_room window i = either (leb (length window.subwindows * 64) (window.count + 8))
  where
    either :
        (b : Bool)
        → get_or
            (if b then window.subwindows ++ fresh_subwindow ∷ [] else window.subwindows)
            i
            fresh_subwindow
          ≡ subwindow_at window i
    either true = get_or-append_replicate window.subwindows 1 i fresh_subwindow
    either false = refl

pub length-make_room :
    (window : EncoderWindow)
    → window.count ≤ length window.subwindows * 64
    → (window.count < length (make_room window).subwindows * 64)
      × (8 ≤ length (make_room window).subwindows * 64)
unfolding make_room
length-make_room window h =
    elim (Bool-cases (leb (length window.subwindows * 64) (window.count + 8))) [
      | inl grows ↦ subst Roomy (sym grows) (
        omega (arith, length-append window.subwindows (fresh_subwindow ∷ [])),
        omega (arith, length-append window.subwindows (fresh_subwindow ∷ [])),
      )
      | inr stays ↦ subst Roomy (sym stays) (
        omega (arith, not-leb→lt (length window.subwindows * 64) (window.count + 8) stays),
        omega (arith, not-leb→lt (length window.subwindows * 64) (window.count + 8) stays),
      )
    ]
  where
    Roomy : Bool → Type 0
    Roomy b =
        let subwindows =
          if b then window.subwindows ++ fresh_subwindow ∷ [] else window.subwindows in
        (window.count < length subwindows * 64) × (8 ≤ length subwindows * 64)

module _ (window : EncoderWindow) (element : ℕ) (packet : SiamesePacket) (now : ℕ)
    (room : element < length window.subwindows * 64) where
  abbrev stored : EncoderWindow
  stored = store_element window element packet now

  inside : element / 64 < length window.subwindows
  inside = omega arith

  subwindow_at-store_same :
      subwindow_at stored (element / 64)
      ≡ fill_sent (subwindow_at window (element / 64)) (element % 64) packet now
  subwindow_at-store_same =
      get_or-set_self window.subwindows (element / 64)
        (fill_sent (subwindow_at window (element / 64)) (element % 64) packet now) fresh_subwindow
        inside

  subwindow_at-store_other :
      (i : ℕ) → element / 64 ≢ i → subwindow_at stored i ≡ subwindow_at window i
  subwindow_at-store_other i h =
      get_or-set_ne window.subwindows (element / 64) i
        (fill_sent (subwindow_at window (element / 64)) (element % 64) packet now) fresh_subwindow h

  pub store_element-HasPlaces :
      ((i : ℕ) → HasPlaces (subwindow_at window i)) → (i : ℕ) → HasPlaces (subwindow_at stored i)
  store_element-HasPlaces valid i = elim (eq_cases (element / 64) i) [
    | inl same ↦
        ap (λ (k : ℕ). length (subwindow_at stored k).originals) (sym same)
        ∙ (ap (λ (subwindow : EncoderSubwindow). length subwindow.originals) subwindow_at-store_same
            ∙ (unfold fill_sent in
                length-set (subwindow_at window (element / 64)).originals (element % 64)
                  (initialize_packet packet)
                ∙ valid (element / 64)))
    | inr other ↦
        ap (λ (subwindow : EncoderSubwindow). length subwindow.originals)
          (subwindow_at-store_other i other)
        ∙ valid i
  ]

  -- The element has the packet, and every other element what it had.
  pub window_element-store_same :
      HasPlaces (subwindow_at window (element / 64))
      → window_element stored element ≡ initialize_packet packet
  window_element-store_same valid =
      ap (λ (subwindow : EncoderSubwindow). get_or subwindow.originals (element % 64) no_packet)
        subwindow_at-store_same
      ∙ unfold fill_sent in
        get_or-set_self (subwindow_at window (element / 64)).originals (element % 64)
          (initialize_packet packet) no_packet (omega (arith, valid))

  same-place : (e : ℕ) → element / 64 ≡ e / 64 → element % 64 ≡ e % 64 → element ≡ e
  same-place e h l = omega arith

  pub window_element-store_other :
      (e : ℕ) → element ≢ e → window_element stored e ≡ window_element window e
  window_element-store_other e h = elim (eq_cases (element / 64) (e / 64)) [
    | inl same ↦
        ap (λ (subwindow : EncoderSubwindow). get_or subwindow.originals (e % 64) no_packet)
          (ap (subwindow_at stored) (sym same) ∙ subwindow_at-store_same)
        ∙ (unfold fill_sent in
            get_or-set_ne (subwindow_at window (element / 64)).originals (element % 64) (e % 64)
              (initialize_packet packet) no_packet (λ p. h (same-place e same p))
            ∙ ap (λ (i : ℕ). get_or (subwindow_at window i).originals (e % 64) no_packet) same)
    | inr other ↦
        ap (λ (subwindow : EncoderSubwindow). get_or subwindow.originals (e % 64) no_packet)
          (subwindow_at-store_other (e / 64) other)
  ]
