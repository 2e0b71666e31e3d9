-- ===== src/Encoder/Window/Invariant.antt =====
-- SiameseEncoder.h: what is always true of the encoder's window.
use tonk.Common.{ℕ, ◌*◌, ◌%◌, ◌≤◌, ◌<◌, ◌≡◌, ◌⊎◌, refl, length, arith, inr, length-replicate}
use tonk.Serializers.PacketCount.{max_packets}
use tonk.Columns.{column_period, add_columns}
use tonk.Originals.{no_packet}
use tonk.Encoder.Window.{EncoderWindow, new_encoder_window, subwindow_at, window_element}
use tonk.Encoder.Window.Places.{HasPlaces}

-- The window has a place for every element; its columns follow each other up to the next one; and the
-- packets that are not acknowledged have the columns of their elements.
pub record IsKept (window : EncoderWindow) : Type 0 where
  pub places : (i : ℕ) → HasPlaces (subwindow_at window i)
  pub room : window.count ≤ length window.subwindows * 64
  pub few : window.count ≤ max_packets
  pub first : (window.first_unremoved < window.count) ⊎ (window.count ≡ 0)
  pub start_below : window.column_start < column_period
  pub next_below : window.next_column < column_period
  pub aligned : window.column_start % 8 ≡ 0
  pub next : 0 < window.count → window.next_column ≡ add_columns window.count window.column_start
  pub kept :
      (element : ℕ)
      → window.first_unremoved ≤ element
      → element < window.count
      → (window_element window element).column ≡ add_columns element window.column_start

-- A new window has it.
pub new_encoder_window-IsKept : IsKept new_encoder_window
new_encoder_window-IsKept = record {
  places = λ i. length-replicate 64 no_packet;
  room = omega arith;
  few = omega arith;
  first = inr refl;
  start_below = omega arith;
  next_below = omega arith;
  aligned = refl;
  next = λ h. absurd (omega (arith, h));
  kept = λ e h l. absurd (omega (arith, l));
}
