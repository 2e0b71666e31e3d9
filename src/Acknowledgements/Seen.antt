-- ===== src/Acknowledgements/Seen.antt =====
-- SiameseEncoder.cpp: what the encoder sees of the message that it reads.
use tonk.Common.{
  ℕ, suc, ◌+◌, ◌≤◌, ◌<◌, ◌≡◌, refl, ap, ◌∙◌, Bool, false, List, [], ◌∷◌, ◌++◌, Option, some, none,
  length, length-append, drop-append, arith, All, if◌then◌else◌, ◌==◌, ◌≢◌,
}
use tonk.Serializers
use tonk.Serializers.PacketNum.{packet_num_max, packet_num_roundtrip}
use tonk.Originals.{SiameseResult, success, disabled, need_more_data}
use tonk.Columns.{add_columns, subtract_columns, is_column_delta_negative}
use tonk.Encoder.Losses.{restart_loss_iterator, all_losses, decode_next_range}
use tonk.Encoder.Losses.Ranges.{
  LossRange, Fits, range_field, range_bytes, range_elements, columns_from, field-nonempty, decoded,
  decode_next_range-range,
}
use tonk.Encoder.Losses.Iteration.{restart_loss_iterator-all_losses}
use tonk.Encoder.Reading.{
  Acknowledgement, Reading, read_acknowledgement, rejected, ignored, taken, read_ranges,
  first_range, reset_losses, read_body, read_header,
}

-- What `Retransmit` sees of a message that was taken: the next column that the receiver expects, and
-- the columns that the iterator gives after a restart, in `fuel` turns at most.
unfoldable pub seen : ℕ → Reading → Option (ℕ × List ℕ)
seen fuel (rejected ack) = none
seen fuel (ignored ack) = none
seen fuel (taken ack) = some (
  ack.next_column_expected,
  all_losses fuel (restart_loss_iterator ack.next_column_expected ack.losses),
)

read_ranges-some :
    (ack : Acknowledgement) (bytes : List ℕ)
    → 0 < length bytes
    → read_ranges ack bytes ≡ first_range ack (decode_next_range ack.losses)
read_ranges-some ack [] h = absurd (omega arith)
read_ranges-some ack (byte ∷ bytes) h = refl

pub with_ranges :
    (off empty whole : Bool) (header ranges : List ℕ)
    → off ≡ false
    → empty ≡ false
    → whole ≡ false
    → ◌≡◌ {A = SiameseResult × List ℕ}
        (if off
          then (disabled, [])
          else if empty
          then (need_more_data, [])
          else if whole
          then (success, header)
          else (success, header ++ ranges))
        (success, header ++ ranges)
with_ranges off empty whole header ranges e f g = rw (e, f, g) refl

-- A message that is not older than the one before, and is about another next column, is taken.
read_body-newer :
    (ack : Acknowledgement) (column : ℕ) (bytes : List ℕ)
    → is_column_delta_negative (subtract_columns column ack.next_column_expected) ≡ false
    → ack.next_column_expected ≢ column
    → read_body ack column bytes ≡ read_ranges (reset_losses ack column bytes) bytes
unfolding read_body
read_body-newer ack column bytes newer moved =
    rw (newer, differ ack.next_column_expected column moved) refl
  where
    differ : (a b : ℕ) → a ≢ b → (a == b) ≡ false
    differ a b h = ground arith

pub read_acknowledgement-newer :
    (ack : Acknowledgement) (column : ℕ) (bytes : List ℕ)
    → column ≤ packet_num_max
    → is_column_delta_negative (subtract_columns column ack.next_column_expected) ≡ false
    → ack.next_column_expected ≢ column
    → read_acknowledgement ack (Serializers.PacketNum.serialize_header column ++ bytes)
      ≡ read_ranges (reset_losses ack column bytes) bytes
unfolding read_acknowledgement
read_acknowledgement-newer ack column bytes h newer moved =
    let header = Serializers.PacketNum.serialize_header column in
    ap (read_header ack (header ++ bytes)) (packet_num_roundtrip column [] bytes h).0
    ∙ (ap (read_body ack column) (drop-append header bytes)
        ∙ read_body-newer ack column bytes newer moved)

seen-taken :
    (fuel : ℕ) (ack : Acknowledgement)
    → seen fuel (taken ack)
      ≡ some (
        ack.next_column_expected,
        all_losses fuel (restart_loss_iterator ack.next_column_expected ack.losses),
      )
unfolding seen
seen-taken fuel ack = refl

-- The ranges of a message are seen as the columns of their elements.
pub seen-read_ranges :
    (more start expected : ℕ) (ack : Acknowledgement) (ranges : List LossRange)
    → All Fits ranges
    → let fuel = length (range_elements expected ranges) + suc more in
      let reset = reset_losses ack (add_columns expected start) (range_bytes ranges) in
      seen fuel (read_ranges reset (range_bytes ranges))
      ≡ some (add_columns expected start, columns_from start (range_elements expected ranges))
unfolding reset_losses
seen-read_ranges more start expected ack [] fits =
    let reset = reset_losses ack (add_columns expected start) [] in
    seen-taken (0 + suc more) reset
    ∙ ap (λ columns. some (add_columns expected start, columns))
        (restart_loss_iterator-all_losses more start expected reset.losses [] tt refl)
seen-read_ranges more start expected ack (range ∷ ranges) (fit, fits) =
    let bytes = range_bytes (range ∷ ranges) in
    let fuel = length (range_elements expected (range ∷ ranges)) + suc more in
    let reset = reset_losses ack (add_columns expected start) bytes in
    let after = record reset { losses = decoded reset.losses range } in
    ap (seen fuel) (
      read_ranges-some reset bytes (
        omega (arith, length-append (range_field range) (range_bytes ranges), field-nonempty range))
      ∙ ap (first_range reset)
          (decode_next_range-range reset.losses range (range_bytes ranges) fit (omega arith, refl)))
    ∙ (seen-taken fuel after
        ∙ ap (λ columns. some (add_columns expected start, columns))
            (restart_loss_iterator-all_losses more start expected after.losses (range ∷ ranges)
              (fit, fits) refl))
