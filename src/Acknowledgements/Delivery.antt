-- ===== src/Acknowledgements/Delivery.antt =====
-- SiameseDecoder.cpp and SiameseEncoder.cpp: the encoder sees the losses that the decoder knows.
use tonk.Common.{
  ℕ, suc, ◌+◌, ◌-◌, ◌*◌, ◌^◌, ◌≤◌, ◌<◌, ◌≡◌, refl, ap, ◌∙◌, sym, false, List, ◌++◌, some, length,
  length-append, arith, lt→not-leb, leb, ◌==◌, inl, ◌≢◌,
}
use mathlib.Core.List.{append-nil, map-append}
use tonk.Serializers
use tonk.Serializers.PacketNum.{packet_num_max, packet_num_roundtrip}
use tonk.Originals.{SiameseResult, success}
use tonk.Columns.{add_columns, subtract_columns, is_column_delta_negative}
use tonk.Decoder.{DecoderWindow, get_subwindow, element_to_column}
use tonk.Decoder.Search.{IsCounted}
use tonk.Decoder.Acknowledge.{bytes_left, generate_acknowledgement, loss_ranges}
use tonk.Encoder.Losses.Ranges.{LossRange, range_bytes, range_elements, columns_from}
use tonk.Encoder.Reading.{Acknowledgement, read_acknowledgement, read_ranges, reset_losses}
use tonk.Acknowledgements.{missing}
use tonk.Acknowledgements.Reported.{written, loss_ranges-written}
use tonk.Acknowledgements.Prefix.{Prefix, written-Prefix}
use tonk.Acknowledgements.Seen.{seen, with_ranges, read_acknowledgement-newer, seen-read_ranges}
use tonk.Acknowledgements.Fitting.{written-Fits}

module _ (window : DecoderWindow) (counts : (i : ℕ) → IsCounted (get_subwindow window i))
    (few : window.count < 2 ^ 22) where
  -- The message, and what its reader makes of it: it is not older than the one before, and is about
  -- another next column.
  module _ (ack : Acknowledgement) (byte_limit : ℕ) (enabled : window.emergency_disabled ≡ false)
      (unfinished : window.next_expected_element < window.count)
      (newer : is_column_delta_negative (
          subtract_columns
            (element_to_column window window.next_expected_element)
            ack.next_column_expected)
        ≡ false)
      (moved : ack.next_column_expected
        ≢ element_to_column window window.next_expected_element) where
    abbrev column : ℕ
    column = element_to_column window window.next_expected_element

    abbrev header : List ℕ
    header = Serializers.PacketNum.serialize_header column

    abbrev ranges : List LossRange
    ranges =
        written (suc window.count) window window.next_expected_element
          (bytes_left byte_limit (length header))

    generate_acknowledgement-ranges :
        generate_acknowledgement window byte_limit ≡ (success, header ++ range_bytes ranges)
    unfolding generate_acknowledgement
    generate_acknowledgement-ranges =
        with_ranges window.emergency_disabled (window.count == 0)
          (leb window.count window.next_expected_element) header
          (loss_ranges (suc window.count) window window.next_expected_element
            (bytes_left byte_limit (length header)))
          enabled some_count (lt→not-leb window.count window.next_expected_element unfinished)
        ∙ (ap (λ bytes. (success, header ++ bytes))
            (loss_ranges-written (suc window.count) window window.next_expected_element
              (bytes_left byte_limit (length header))))
      where
        positive : (n : ℕ) → 0 < n → (n == 0) ≡ false
        positive n h = ground arith

        some_count : (window.count == 0) ≡ false
        some_count = positive window.count (omega arith)

    column-eq : column ≡ add_columns window.next_expected_element window.column_start
    unfolding element_to_column
    column-eq = refl

    column-le : column ≤ packet_num_max
    unfolding element_to_column add_columns
    column-le = omega arith

    seen-ranges :
        (more : ℕ)
        → seen
            (length (range_elements window.next_expected_element ranges) + suc more)
            (read_acknowledgement ack (generate_acknowledgement window byte_limit).1)
          ≡ some (
            column,
            columns_from window.column_start (range_elements window.next_expected_element ranges),
          )
    seen-ranges more =
        let fuel = length (range_elements window.next_expected_element ranges) + suc more in
        ap (λ (answer : SiameseResult × List ℕ). seen fuel (read_acknowledgement ack answer.1))
          generate_acknowledgement-ranges
        ∙ (ap (seen fuel)
              (read_acknowledgement-newer ack column (range_bytes ranges) column-le newer moved)
            ∙ (ap
                  (λ (c : ℕ).
                    seen fuel
                      (read_ranges (reset_losses ack c (range_bytes ranges)) (range_bytes ranges)))
                  column-eq
                ∙ (seen-read_ranges more window.column_start window.next_expected_element ack ranges
                      (written-Fits window counts few (suc window.count)
                        window.next_expected_element (bytes_left byte_limit (length header))
                        (omega arith))
                    ∙ ap
                        (λ (c : ℕ). some (
                          c,
                          columns_from window.column_start
                              (range_elements window.next_expected_element ranges),
                        ))
                        (sym column-eq))))

    abbrev whole : List ℕ
    whole = missing window window.next_expected_element

    listed : Prefix (range_elements window.next_expected_element ranges) whole (
        7 * (window.count + 1 - window.next_expected_element)
        ≤ bytes_left byte_limit (length header))
    listed =
        written-Prefix window counts (suc window.count) window.next_expected_element
          (bytes_left byte_limit (length header)) (omega arith) (omega arith) (inl unfinished)

    seen-enough :
        (fuel : ℕ)
        → length whole < fuel
        → seen fuel (read_acknowledgement ack (generate_acknowledgement window byte_limit).1)
          ≡ some (
            column,
            columns_from window.column_start (range_elements window.next_expected_element ranges),
          )
    seen-enough fuel h =
        let elements = range_elements window.next_expected_element ranges in
        ap
          (λ (k : ℕ).
            seen k (read_acknowledgement ack (generate_acknowledgement window byte_limit).1))
          {y = length elements + suc (fuel - length elements - 1)}
          (omega (arith, h, ap length listed.split, length-append elements listed.rest))
        ∙ seen-ranges (fuel - length elements - 1)

    header-short : (n : ℕ) → length (Serializers.PacketNum.serialize_header n) ≤ 3
    unfolding Serializers.PacketNum.serialize_header
    header-short n = ground arith

    bytes_left-eq : (limit used : ℕ) → used ≤ limit → bytes_left limit used ≡ limit - used
    bytes_left-eq limit used h = ground arith

    -- The encoder takes the message, and the columns that its loss iterator gives are the first of those
    -- of the lost elements from the next expected one on, in order, with the end of the window after them unless
    -- the last element was lost, also where the buffer is too short for all of them. The buffer has the 16 bytes
    -- that the decoder asks for, the window is not disabled, lacks an element that is expected, has fewer
    -- than 2 ^ 22 elements and counts its received packets, and the message is newer than the one before.
    pub generate_acknowledgement-read_acknowledgement :
        (fuel : ℕ)
        → length (missing window window.next_expected_element) < fuel
        → 16 ≤ byte_limit
        → (columns : List ℕ) × (rest : List ℕ) × (seen fuel
              (read_acknowledgement ack (generate_acknowledgement window byte_limit).1)
            ≡ some (element_to_column window window.next_expected_element, columns))
          × (columns ++ rest
              ≡ columns_from window.column_start (missing window window.next_expected_element))
    generate_acknowledgement-read_acknowledgement fuel h enough =
        let elements = range_elements window.next_expected_element ranges in
        let view = λ (element : ℕ). add_columns element window.column_start in
        (
          columns_from window.column_start elements,
          columns_from window.column_start listed.rest,
          seen-enough fuel h,
          sym (map-append view elements listed.rest)
              ∙ ap (columns_from window.column_start) listed.split,
        )

    -- If the buffer has 7 bytes for each element of the window and for two more, the encoder takes the message,
    -- and its loss iterator gives exactly the columns of the lost elements from the next expected one on, in
    -- order, and then the end of the window, unless the last element was lost. The window is not
    -- disabled, lacks an element that is expected, has fewer than 2 ^ 22 elements and counts its received
    -- packets, and the message is newer than the one before.
    pub generate_acknowledgement-all_losses :
        (fuel : ℕ)
        → length (missing window window.next_expected_element) < fuel
        → 7 * (window.count + 2) ≤ byte_limit
        → seen fuel (read_acknowledgement ack (generate_acknowledgement window byte_limit).1)
          ≡ some (
            element_to_column window window.next_expected_element,
            columns_from window.column_start (missing window window.next_expected_element),
          )
    generate_acknowledgement-all_losses fuel h room =
        let elements = range_elements window.next_expected_element ranges in
        let left =
          bytes_left-eq byte_limit (length header) (omega (arith, room, header-short column)) in
        let nothing = listed.all (omega (arith, room, left, header-short column)) in
        seen-enough fuel h
        ∙ ap (λ (es : List ℕ). some (column, columns_from window.column_start es))
            (sym (append-nil elements)
              ∙ (ap (λ rest. elements ++ rest) (sym nothing) ∙ listed.split))
