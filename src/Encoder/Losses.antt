-- ===== src/Encoder/Losses.antt =====
-- SiameseEncoder.h and SiameseEncoder.cpp: the negative acknowledgements of
-- `EncoderAcknowledgementState` and the iterator over them.
pub mod Ranges
pub mod Turns
pub mod Iteration
use tonk.Common.{
  ℕ, zero, suc, ◌+◌, ◌-◌, Bool, true, false, Option, none, some, List, [], ◌∷◌, ◌++◌, length, drop,
  replicate, if◌then◌else◌, ltb, leb, ◌==◌,
}
use tonk.Serializers.LossRange.{deserialize_header}
use tonk.Columns.{add_columns, increment_column1}

-- The loss ranges are `bytes`, with `DataBytes` their number.
pub record LossIterator : Type 0 where
  pub bytes : List ℕ
  pub offset : ℕ
  pub loss_column : ℕ
  pub loss_count : ℕ

-- `kPaddingBytes`
abbrev pub padding_bytes : ℕ
padding_bytes = 8

-- The part of `DecodeNextRange` after the reader.
unfoldable pub take_range : LossIterator → Option (ℕ × ℕ × ℕ) → Bool × LossIterator
unfolding add_columns
take_range losses none = (false, losses)
take_range losses (some (n, relative_start, loss_count_m1)) =
    let offset = losses.offset + n in
    if ltb (length losses.bytes) offset then (false, record losses { offset = offset }) else (
      true,
      record losses {
        offset = offset;
        loss_column = add_columns losses.loss_column relative_start;
        loss_count = loss_count_m1 + 1;
      },
    )

-- `DecodeNextRange`
unfoldable pub decode_next_range : LossIterator → Bool × LossIterator
unfolding take_range deserialize_header
decode_next_range losses =
    let padded = losses.bytes ++ replicate padding_bytes 0 in
    if leb (length losses.bytes) losses.offset
    then (false, losses)
    else take_range losses (deserialize_header (drop losses.offset padded))

-- The part of `GetNextLossColumn` after the test of the count.
unfoldable pub take_column : LossIterator → Option ℕ × LossIterator
unfolding increment_column1
take_column losses = (
  some losses.loss_column,
  record losses {
    loss_column = increment_column1 losses.loss_column;
    loss_count = losses.loss_count - 1;
  },
)

-- What `GetNextLossColumn` does after `DecodeNextRange`.
abbrev pub take_next : Bool × LossIterator → Option ℕ × LossIterator
take_next (false, losses) = (none, losses)
take_next (true, losses) = take_column losses

-- `GetNextLossColumn`
unfoldable pub get_next_loss_column : LossIterator → Option ℕ × LossIterator
unfolding take_column decode_next_range increment_column1
get_next_loss_column losses =
    let beyond = record losses { loss_column = increment_column1 losses.loss_column } in
    if losses.loss_count == 0 then take_next (decode_next_range beyond) else take_column losses

-- `RestartLossIterator`
unfoldable pub restart_loss_iterator : ℕ → LossIterator → LossIterator
unfolding decode_next_range
restart_loss_iterator next_column_expected losses =
    (decode_next_range
      (record losses { offset = 0; loss_column = next_column_expected; loss_count = 0 })).1

abbrev pub add_column : Option ℕ → List ℕ → List ℕ
add_column none columns = []
add_column (some column) columns = column ∷ columns

-- The columns that a loop over `GetNextLossColumn` sees, in `fuel` turns at most.
unfoldable pub all_losses : ℕ → LossIterator → List ℕ
unfolding get_next_loss_column
all_losses zero losses = []
all_losses (suc fuel) losses =
    let next = get_next_loss_column losses in
    let rest = all_losses fuel next.1 in add_column next.0 rest
