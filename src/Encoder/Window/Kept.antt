-- ===== src/Encoder/Window/Kept.antt =====
-- SiameseEncoder.cpp: `Add` keeps the invariant of the encoder's window.
use tonk.Common.{
  ℕ, ◌+◌, ◌-◌, ◌*◌, ◌/◌, ◌%◌, ◌≤◌, ◌<◌, ◌≡◌, ◌≢◌, refl, ap, sym, subst, ◌∙◌, Bool, true, false,
  List, length, get_or, arith, if◌then◌else◌, ◌==◌, eq_cases, inl, inr, length-set, not-==→ne,
}
use tonk.Serializers.PacketCount.{max_packets}
use tonk.Columns.{column_period, add_columns, increment_column1}
use tonk.Originals.{
  SiameseResult, SiamesePacket, OriginalPacket, initialize_packet, no_packet, disabled,
  max_packets_reached, success,
}
use tonk.Encoder.Window.{
  EncoderSubwindow, EncoderWindow, subwindow_at, window_element, make_room, start_new_window,
  store_element, fill_sent, roll_column, add_packet, get_remaining_slots,
}
use tonk.Encoder.Window.Places.{
  HasPlaces, subwindow_at-make_room, length-make_room, store_element-HasPlaces,
  window_element-store_same, window_element-store_other,
}
use tonk.Encoder.Window.Invariant.{IsKept}

next_column-lt : (column : ℕ) → increment_column1 column < column_period
unfolding increment_column1 add_columns
next_column-lt column = omega arith

next_column-eq :
    (count start : ℕ) → increment_column1 (add_columns count start) ≡ add_columns (count + 1) start
unfolding increment_column1 add_columns
next_column-eq count start = omega arith

new_column-eq :
    (column : ℕ) → column < column_period → add_columns (column % 8) (column - column % 8) ≡ column
unfolding add_columns
new_column-eq column h = omega arith

column-initialize_packet :
    (packet : SiamesePacket) → (initialize_packet packet).column ≡ packet.packet_num
unfolding initialize_packet
column-initialize_packet packet = refl

module _ (window : EncoderWindow) (valid : IsKept window) (content : List ℕ) (now bytes : ℕ) where
  abbrev column : ℕ
  column = window.next_column

  abbrev packet : SiamesePacket
  packet = record { packet_num = column; content = content }

  roomy-places : (i : ℕ) → HasPlaces (subwindow_at (make_room window) i)
  roomy-places i =
      ap (λ (subwindow : EncoderSubwindow). length subwindow.originals)
        (subwindow_at-make_room window i)
      ∙ valid.places i

  -- The first packet of a new window.
  new-IsKept : IsKept (
      roll_column
        (store_element (start_new_window (make_room window) column) (column % 8) packet now)
        column
        bytes)
  unfolding roll_column start_new_window make_room
  new-IsKept =
      let started = start_new_window (make_room window) column in
      let space = length-make_room window valid.room in
      let here : column % 8 < length started.subwindows * 64 = omega (arith, space.1) in
      record {
        places = store_element-HasPlaces started (column % 8) packet now here roomy-places;
        room = omega (
          arith,
          here,
          length-set started.subwindows (column % 8 / 64)
              (fill_sent (subwindow_at started (column % 8 / 64)) (column % 8 % 64) packet now),
        );
        few = omega arith;
        first = inl (omega arith);
        start_below = omega (arith, valid.next_below);
        next_below = next_column-lt column;
        aligned = omega arith;
        next = λ h.
            ap increment_column1 (sym (new_column-eq column valid.next_below))
            ∙ next_column-eq (column % 8) (column - column % 8);
        kept = λ e h l.
            ap
              (λ (k : ℕ). (window_element (store_element started (column % 8) packet now) k).column)
              {y = column % 8} (omega (arith, h, l))
            ∙ (ap (λ (original : OriginalPacket). original.column)
                  (window_element-store_same started (column % 8) packet now here
                    (roomy-places (column % 8 / 64)))
                ∙ (column-initialize_packet packet
                    ∙ (sym (new_column-eq column valid.next_below)
                        ∙ ap (λ (k : ℕ). add_columns k (column - column % 8)) {y = e}
                            (omega (arith, h, l)))));
      }

  -- One more packet.
  more-IsKept :
      0 < window.count
      → window.count < max_packets
      → IsKept (
          roll_column
            (store_element
              (record (make_room window) { count = window.count + 1 })
              window.count
              packet
              now)
            column
            bytes)
  unfolding roll_column make_room
  more-IsKept h l =
      let started = record (make_room window) { count = window.count + 1 } in
      let space = length-make_room window valid.room in
      let here : window.count < length started.subwindows * 64 = space.0 in
      record {
        places = store_element-HasPlaces started window.count packet now here roomy-places;
        room = omega (
          arith,
          here,
          length-set started.subwindows (window.count / 64)
              (fill_sent (subwindow_at started (window.count / 64)) (window.count % 64) packet now),
        );
        few = omega arith;
        first = elim valid.first [
          | inl inside ↦ inl (omega (arith, inside))
          | inr none ↦ absurd (omega (arith, none, h))
        ];
        start_below = valid.start_below;
        next_below = next_column-lt column;
        aligned = valid.aligned;
        next = λ _.
            ap increment_column1 (valid.next h) ∙ next_column-eq window.count window.column_start;
        kept = λ e j k. elim (eq_cases window.count e) [
          | inl same ↦
              ap
                (λ (n : ℕ).
                  (window_element (store_element started window.count packet now) n).column)
                (sym same)
              ∙ (ap (λ (original : OriginalPacket). original.column)
                    (window_element-store_same started window.count packet now here
                      (roomy-places (window.count / 64)))
                  ∙ (column-initialize_packet packet
                      ∙ (valid.next h ∙ ap (λ (n : ℕ). add_columns n window.column_start) same)))
          | inr other ↦
              ap (λ (original : OriginalPacket). original.column)
                (window_element-store_other started window.count packet now here e other
                  ∙ ap
                      (λ (subwindow : EncoderSubwindow).
                        get_or subwindow.originals (e % 64) no_packet)
                      (subwindow_at-make_room window (e / 64)))
              ∙ valid.kept e j (omega (arith, k, other))
        ];
      }

-- The branches of `Add`.
branches-IsKept :
    (off full : Bool) (window added : EncoderWindow)
    → IsKept window
    → (full ≡ false → IsKept added)
    → let answer : SiameseResult × EncoderWindow =
        if off
        then (disabled, window)
        else if full
        then (max_packets_reached, window)
        else (success, added) in
      IsKept answer.1
branches-IsKept true full window added h k = h
branches-IsKept false true window added h k = h
branches-IsKept false false window added h k = k refl

remaining_slots-left :
    (window : EncoderWindow)
    → window.count ≤ max_packets
    → (get_remaining_slots window == 0) ≡ false
    → window.count < max_packets
unfolding get_remaining_slots
remaining_slots-left window h e = omega (arith, h, not-==→ne (get_remaining_slots window) 0 e)

-- The window with a packet, the first one or not.
abbrev pub with_packet : Bool → EncoderWindow → List ℕ → ℕ → EncoderWindow
with_packet is_first window content now =
    let column = window.next_column in
    let packet : SiamesePacket = record { packet_num = column; content = content } in
    let roomy = make_room window in
    let element = if is_first then column % 8 else window.count in
    let started =
      if is_first
      then start_new_window roomy column
      else record roomy { count = window.count + 1 } in
    roll_column (store_element started element packet now) column
      (length (initialize_packet packet).buffer)

-- `Add` keeps the invariant of the window, whether it takes the packet or not.
pub add_packet-IsKept :
    (window : EncoderWindow) (content : List ℕ) (now : ℕ)
    → IsKept window
    → IsKept (add_packet window content now).1
unfolding add_packet
add_packet-IsKept window content now valid =
    branches-IsKept window.emergency_disabled (get_remaining_slots window == 0) window
      (with_packet (window.count == 0) window content now) valid
      (λ free. elim (eq_cases window.count 0) [
        | inl none ↦
            subst (λ (b : Bool). IsKept (with_packet b window content now))
              (sym (equal window.count none)) (new-IsKept window valid content now (bytes window))
        | inr some ↦
            subst (λ (b : Bool). IsKept (with_packet b window content now))
              (sym (differ window.count some))
              (more-IsKept window valid content now (bytes window) (omega (arith, some))
                (remaining_slots-left window valid.few free))
      ])
  where
    bytes : EncoderWindow → ℕ
    bytes window =
        length
          (initialize_packet record { packet_num = window.next_column; content = content }).buffer

    equal : (a : ℕ) → a ≡ 0 → (a == 0) ≡ true
    equal a e = ground arith

    differ : (a : ℕ) → a ≢ 0 → (a == 0) ≡ false
    differ a e = ground arith
