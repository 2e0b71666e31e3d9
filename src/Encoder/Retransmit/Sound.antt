-- ===== src/Encoder/Retransmit/Sound.antt =====
-- SiameseEncoder.cpp: what the loops of `Retransmit` find is due.
use tonk.Common.{
  ℕ, zero, suc, ◌+◌, ◌-◌, ◌≤◌, ◌<◌, ◌≡◌, refl, sym, subst, Bool, true, false, List, [], ◌∷◌,
  if◌then◌else◌, leb, Bool-cases, inl, inr, arith, not-leb→lt,
}
use native.Mathlib.Decide.{dec_lt}
use tonk.Columns.{subtract_columns}
use tonk.Encoder.Window.{EncoderWindow, element_timestamp}
use tonk.Encoder.Retransmit.{
  Scan, expired, scanned, is_expired, is_older, scan_losses, scan_in_flight, scan_rest,
}

-- An element of the window whose timeout expired.
abbrev Due : EncoderWindow → ℕ → ℕ → ℕ → Type 0
Due window now timeout element =
    (element < window.count) × (is_expired now timeout (element_timestamp window element) ≡ true)

-- What a loop finds is due.
abbrev pub Sound : EncoderWindow → ℕ → ℕ → Scan → Type 0
Sound window now timeout (expired element) = Due window now timeout element
Sound window now timeout (scanned nack oldest oldest_time) = Unit

-- One turn of either loop: it stops behind the end of the window, or finds the element.
turn-Sound :
    (window : EncoderWindow) (now timeout element oldest oldest_time : ℕ) (behind : Bool)
    (rest : Scan)
    → (behind ≡ false → element < window.count)
    → Sound window now timeout rest
    → Sound window now timeout (
        if behind
        then scanned element oldest oldest_time
        else if is_expired now timeout (element_timestamp window element)
        then expired element
        else rest)
turn-Sound window now timeout element oldest oldest_time true rest h k = tt
turn-Sound window now timeout element oldest oldest_time false rest h k =
    elim (Bool-cases (is_expired now timeout (element_timestamp window element))) [
      | inl due ↦
          subst (λ (b : Bool). Sound window now timeout (if b then expired element else rest))
            (sym due) (h refl, due)
      | inr early ↦
          subst (λ (b : Bool). Sound window now timeout (if b then expired element else rest))
            (sym early) k
    ]

module _ (window : EncoderWindow) (now timeout : ℕ) where
  pub scan_losses-Sound :
      (columns : List ℕ) (nack oldest oldest_time : ℕ)
      → Sound window now timeout (scan_losses window now timeout columns nack oldest oldest_time)
  unfolding scan_losses
  scan_losses-Sound [] nack oldest oldest_time = tt
  scan_losses-Sound (column ∷ columns) nack oldest oldest_time =
      let element = subtract_columns column window.column_start in
      let time = element_timestamp window element in
      let older = is_older oldest_time time in
      turn-Sound window now timeout element oldest oldest_time (leb window.count element)
        (scan_losses window now timeout columns element (if older then element else oldest)
          (if older then time else oldest_time))
        (not-leb→lt window.count element)
        (scan_losses-Sound columns element (if older then element else oldest)
          (if older then time else oldest_time))

  scan_in_flight-Sound :
      (n element oldest oldest_time : ℕ)
      → element + n ≤ window.count
      → Sound window now timeout (scan_in_flight window now timeout n element oldest oldest_time)
  unfolding scan_in_flight
  scan_in_flight-Sound zero element oldest oldest_time h = tt
  scan_in_flight-Sound (suc n) element oldest oldest_time h =
      let time = element_timestamp window element in
      let older = is_older oldest_time time in
      turn-Sound window now timeout element oldest oldest_time false
        (scan_in_flight window now timeout n (element + 1) (if older then element else oldest)
          (if older then time else oldest_time))
        (λ _. omega arith)
        (scan_in_flight-Sound n (element + 1) (if older then element else oldest)
          (if older then time else oldest_time) (omega arith))

  pub scan_rest-Sound :
      (scan : Scan)
      → Sound window now timeout scan
      → Sound window now timeout (scan_rest window now timeout scan)
  unfolding scan_rest
  scan_rest-Sound (expired element) h = h
  scan_rest-Sound (scanned nack oldest oldest_time) h = elim (dec_lt nack window.count) [
    | yes inside ↦
        scan_in_flight-Sound (window.count - (nack + 1)) (nack + 1) oldest oldest_time
          (omega (arith, inside))
    | no outside ↦
        subst
          (λ (n : ℕ).
            Sound window now timeout
              (scan_in_flight window now timeout n (nack + 1) oldest oldest_time))
          {x = 0} {y = window.count - (nack + 1)} (omega (arith, outside))
          (nothing (nack + 1) oldest oldest_time)
  ]
    where
      nothing :
          (element oldest oldest_time : ℕ)
          → Sound window now timeout
              (scan_in_flight window now timeout 0 element oldest oldest_time)
      nothing element oldest oldest_time = unfold scan_in_flight in tt
