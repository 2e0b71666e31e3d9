-- ===== src/Encoder/Reading.antt =====
-- SiameseEncoder.cpp: the first part of `EncoderAcknowledgementState::OnAcknowledgementData`, which
-- reads the message. What follows it there, the estimate of the timeout and `RemoveBefore` on the
-- window, does not touch this state.
use tonk.Common.{
  ℕ, Bool, true, false, Option, none, some, List, [], ◌∷◌, length, drop, if◌then◌else◌, ltb, ◌==◌,
  ◌&&◌, ◌||◌,
}
use tonk.Serializers
use tonk.Columns.{subtract_columns, is_column_delta_negative}
use tonk.Encoder.Losses.{LossIterator, decode_next_range}

-- `has_data` tells whether `Data` is not null. `Clear` is not used.
pub record Acknowledgement : Type 0 where
  pub losses : LossIterator
  pub has_data : Bool
  pub next_column_expected : ℕ
  pub found_oldest : Bool
  pub oldest_column : ℕ

-- `memcmp` for buffers of one length, with the test of the lengths.
abbrev pub same_bytes : List ℕ → List ℕ → Bool
same_bytes [] [] = true
same_bytes (x ∷ xs) (y ∷ ys) = (x == y) && same_bytes xs ys
same_bytes [] (y ∷ ys) = false
same_bytes (x ∷ xs) [] = false

-- The message is invalid, or is older than or the same as the one before, or is taken.
pub data Reading : Type 0 where
  rejected : Acknowledgement → Reading
  ignored : Acknowledgement → Reading
  taken : Acknowledgement → Reading

-- The new state before the first range is decoded.
unfoldable pub reset_losses : Acknowledgement → ℕ → List ℕ → Acknowledgement
reset_losses ack next_column_expected bytes = record ack {
  losses = record { bytes = bytes; offset = 0; loss_column = next_column_expected; loss_count = 0 };
  has_data = ack.has_data || ltb 0 (length bytes);
  next_column_expected = next_column_expected;
}

-- The result of decoding the first range.
abbrev pub first_range : Acknowledgement → Bool × LossIterator → Reading
first_range ack (false, losses) = rejected (record ack { losses = losses })
first_range ack (true, losses) = taken (record ack { losses = losses })

abbrev pub read_ranges : Acknowledgement → List ℕ → Reading
read_ranges ack [] = taken ack
read_ranges ack (byte ∷ bytes) = first_range ack (decode_next_range ack.losses)

-- With the message's next expected column and the bytes after it.
unfoldable pub read_body : Acknowledgement → ℕ → List ℕ → Reading
read_body ack next bytes =
    let delta = subtract_columns next ack.next_column_expected in
    if is_column_delta_negative delta
    then ignored ack
    else if (ack.next_column_expected == next) && ack.has_data && same_bytes bytes ack.losses.bytes
    then ignored ack
    else read_ranges (reset_losses ack next bytes) bytes

abbrev pub read_header : Acknowledgement → List ℕ → Option (ℕ × ℕ) → Reading
read_header ack message none = rejected ack
read_header ack message (some (n, next)) = read_body ack next (drop n message)

-- `OnAcknowledgementData`
unfoldable pub read_acknowledgement : Acknowledgement → List ℕ → Reading
read_acknowledgement ack message =
    read_header ack message (Serializers.PacketNum.deserialize_header message)
