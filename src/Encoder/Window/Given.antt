-- ===== src/Encoder/Window/Given.antt =====
-- SiameseEncoder.cpp: a packet that the window took is given back by the number it was assigned.
use tonk.Common.{
  ℕ, ◌+◌, ◌-◌, ◌*◌, ◌/◌, ◌%◌, ◌^◌, ◌<◌, ◌≡◌, ◌≢◌, refl, ap, sym, ◌∙◌, Bool, true, false, List,
  length, get_or, arith, if◌then◌else◌, leb, ◌==◌, eq_cases, inl, inr, lt→not-leb,
}
use tonk.Serializers.PacketCount.{max_packets}
use tonk.Columns.{column_period, add_columns, subtract_columns}
use tonk.Originals.{SiameseResult, SiamesePacket, no_packet, disabled, max_packets_reached, success}
use tonk.Encoder.Window.{
  EncoderSubwindow, EncoderWindow, subwindow_at, window_element, make_room, store_element,
  roll_column, add_packet, get_packet, get_remaining_slots,
}
use tonk.Encoder.Window.Places.{
  subwindow_at-make_room, length-make_room, window_element-store_same, window_element-store_other,
}
use tonk.Encoder.Window.Invariant.{IsKept}
use tonk.Encoder.Window.Kept.{with_packet}
use tonk.Encoder.Window.Answers.{answer, get_packet-answer, answer-initialize_packet}

-- Columns and their elements.
element-injective :
    (a b start : ℕ)
    → a < column_period
    → b < column_period
    → start < column_period
    → subtract_columns a start ≡ subtract_columns b start
    → a ≡ b
unfolding subtract_columns
element-injective a b start h k l e = omega arith

element-next :
    (count start : ℕ)
    → count < column_period
    → start < column_period
    → subtract_columns (add_columns count start) start ≡ count
unfolding subtract_columns add_columns
element-next count start h l = omega arith

module _ (window : EncoderWindow) (content : List ℕ) (now : ℕ) (valid : IsKept window)
    (enabled : window.emergency_disabled ≡ false) (some_count : 0 < window.count)
    (free : window.count < max_packets) (nonempty : 0 < length content) where
  abbrev packet : SiamesePacket
  packet = record { packet_num = window.next_column; content = content }

  abbrev started : EncoderWindow
  started = record (make_room window) { count = window.count + 1 }

  abbrev added : EncoderWindow
  added = with_packet false window content now

  add_packet-added : add_packet window content now ≡ (success, added)
  unfolding add_packet get_remaining_slots
  add_packet-added =
      third window.emergency_disabled (get_remaining_slots window == 0) (window.count == 0) enabled
        (remaining window.count free) (differ window.count some_count)
    where
      differ : (a : ℕ) → 0 < a → (a == 0) ≡ false
      differ a h = ground arith

      remaining : (n : ℕ) → n < max_packets → ((max_packets + 2 ^ 32 - n) % 2 ^ 32 == 0) ≡ false
      remaining n h = ground arith

      third :
          (off full is_first : Bool)
          → off ≡ false
          → full ≡ false
          → is_first ≡ false
          → ◌≡◌ {A = SiameseResult × EncoderWindow}
              (if off
                then (disabled, window)
                else if full
                then (max_packets_reached, window)
                else (success, with_packet is_first window content now))
              (success, added)
      third off full is_first e f g = rw (e, f, g) refl

  room : window.count < length started.subwindows * 64
  unfolding make_room
  room = (length-make_room window valid.room).0

  get_packet-added :
      (num : ℕ)
      → let element = subtract_columns num window.column_start in
        (get_packet added num).0
        ≡ answer num
            (leb (window.count + 1) element)
            (window_element (store_element started window.count packet now) element)
  unfolding roll_column make_room
  get_packet-added num = get_packet-answer added num enabled

  places : length (subwindow_at started (window.count / 64)).originals ≡ 64
  places =
      ap (λ (subwindow : EncoderSubwindow). length subwindow.originals)
        (subwindow_at-make_room window (window.count / 64))
      ∙ valid.places (window.count / 64)

  own : subtract_columns window.next_column window.column_start ≡ window.count
  own =
      ap (λ (c : ℕ). subtract_columns c window.column_start) (valid.next some_count)
      ∙ element-next window.count window.column_start (omega arith) valid.start_below

  get_packet-own : (get_packet added window.next_column).0 ≡ (success, packet)
  get_packet-own =
      let element = subtract_columns window.next_column window.column_start in
      get_packet-added window.next_column
      ∙ (ap
            (λ (e : ℕ).
              answer window.next_column (leb (window.count + 1) e)
                (window_element (store_element started window.count packet now) e))
            own
          ∙ (ap
                (λ (b : Bool).
                  answer window.next_column b
                    (window_element (store_element started window.count packet now) window.count))
                (lt→not-leb (window.count + 1) window.count (omega arith))
              ∙ (ap (answer window.next_column false)
                    (window_element-store_same started window.count packet now room places)
                  ∙ answer-initialize_packet window.next_column packet nonempty)))

  get_packet-other :
      (num : ℕ)
      → window.count ≢ subtract_columns num window.column_start
      → (get_packet added num).0 ≡ (get_packet window num).0
  get_packet-other num h =
      let element = subtract_columns num window.column_start in
      get_packet-added num
      ∙ (ap (answer num (leb (window.count + 1) element)) (
            window_element-store_other started window.count packet now room element h
            ∙ ap
                (λ (subwindow : EncoderSubwindow).
                  get_or subwindow.originals (element % 64) no_packet)
                (subwindow_at-make_room window (element / 64)))
          ∙ (ap (λ (b : Bool). answer num b (window_element window element))
                (same_side window.count element h)
              ∙ sym (get_packet-answer window num enabled)))
    where
      same_side : (n element : ℕ) → n ≢ element → leb (n + 1) element ≡ leb n element
      same_side n element h = ground arith

  -- A packet with data that is added to a window with packets and a free slot is taken: the number that it is
  -- assigned gives it back, and every other packet number what it gave before. The window is valid and not disabled.
  pub get_packet-add_packet :
      (num : ℕ)
      → num < column_period
      → ((add_packet window content now).0 ≡ success)
        × ((get_packet (add_packet window content now).1 num).0 ≡ (
            if num == window.next_column
            then (success, record { packet_num = window.next_column; content = content })
            else (get_packet window num).0))
  get_packet-add_packet num h = (
    ap (λ (r : SiameseResult × EncoderWindow). r.0) add_packet-added,
    ap (λ (r : SiameseResult × EncoderWindow). (get_packet r.1 num).0) add_packet-added
        ∙ elim (eq_cases num window.next_column) [
          | inl same ↦
              ap (λ (n : ℕ). (get_packet added n).0) same
              ∙ (get_packet-own
                  ∙ ap (λ (b : Bool). if b then (success, packet) else (get_packet window num).0)
                      (sym (equal num window.next_column same)))
          | inr other ↦
              get_packet-other num (λ e. other (
                element-injective num window.next_column window.column_start h valid.next_below
                  valid.start_below (sym e ∙ sym own)))
              ∙ ap (λ (b : Bool). if b then (success, packet) else (get_packet window num).0)
                  (sym (differ num window.next_column other))
        ],
  )
    where
      equal : (a b : ℕ) → a ≡ b → (a == b) ≡ true
      equal a b e = ground arith

      differ : (a b : ℕ) → a ≢ b → (a == b) ≡ false
      differ a b e = ground arith
