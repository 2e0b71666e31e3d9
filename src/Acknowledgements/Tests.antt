-- ===== src/Acknowledgements/Tests.antt =====
-- The acknowledgement of a window, read by an encoder that knew of an older one.
use tonk.Common.{ℕ, ◌≡◌, ◌≢◌, refl, false, some, List, [], ◌∷◌, ◌++◌, arith}
use tonk.Columns.{add_columns, subtract_columns, is_column_delta_negative}
use tonk.Decoder.{element_to_column}
use tonk.Decoder.Acknowledge.{generate_acknowledgement}
use tonk.Decoder.Tests.{received, received-IsCounted}
use tonk.Encoder.Losses.Ranges.{columns_from}
use tonk.Encoder.Reading.{Acknowledgement, read_acknowledgement}
use tonk.Acknowledgements.{missing}
use tonk.Acknowledgements.Seen.{seen}
use tonk.Acknowledgements.Delivery.{
  generate_acknowledgement-read_acknowledgement, generate_acknowledgement-all_losses,
}

-- The next expected column was the first of the window.
abbrev older : Acknowledgement
older = record {
  losses = record { bytes = []; offset = 0; loss_column = 0x3ffffc; loss_count = 0 };
  has_data = false;
  next_column_expected = 0x3ffffc;
  found_oldest = false;
  oldest_column = 0;
}

missing-received : missing received 2 ≡ 2 ∷ 5 ∷ 6 ∷ 8 ∷ []
missing-received = refl

-- The end mark is column 4.
columns_from-received :
    columns_from received.column_start (missing received 2) ≡ 0x3ffffe ∷ 1 ∷ 2 ∷ 4 ∷ []
unfolding add_columns
columns_from-received = refl

newer :
    is_column_delta_negative
      (subtract_columns (element_to_column received 2) older.next_column_expected)
    ≡ false
unfolding is_column_delta_negative subtract_columns element_to_column add_columns
newer = refl

moved : older.next_column_expected ≢ element_to_column received 2
unfolding element_to_column add_columns
moved e = absurd (omega (arith, e))

generate_acknowledgement-read_acknowledgement_example :
    (columns : List ℕ) × (rest : List ℕ) × (seen 5
        (read_acknowledgement older (generate_acknowledgement received 16).1)
      ≡ some (element_to_column received 2, columns))
    × (columns ++ rest ≡ columns_from received.column_start (missing received 2))
generate_acknowledgement-read_acknowledgement_example =
    generate_acknowledgement-read_acknowledgement received received-IsCounted (omega arith) older 16
      refl (omega arith) newer moved 5 (omega arith) (omega arith)

generate_acknowledgement-all_losses_example :
    seen 5 (read_acknowledgement older (generate_acknowledgement received 100).1)
    ≡ some (element_to_column received 2, columns_from received.column_start (missing received 2))
generate_acknowledgement-all_losses_example =
    generate_acknowledgement-all_losses received received-IsCounted (omega arith) older 100 refl
      (omega arith) newer moved 5 (omega arith) (omega arith)
