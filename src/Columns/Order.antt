-- ===== src/Columns/Order.antt =====
-- SiameseCommon.h: the order of columns by the sign of their difference.
use tonk.Common.{ℕ, ◌/◌, ◌<◌, ◌≡◌, true, false, arith}
use tonk.Columns.{column_period, is_column_delta_negative, subtract_columns, add_columns}

-- A column that is less than half of the period ahead: the difference is the distance and not negative,
-- the difference the other way is negative, and both lead from one column to the other, also where
-- the column numbers roll over.
pub subtract_columns-add_columns :
    (column distance : ℕ)
    → column < column_period
    → 0 < distance
    → distance < column_period / 2
    → (subtract_columns (add_columns column distance) column ≡ distance)
      × (is_column_delta_negative (subtract_columns (add_columns column distance) column) ≡ false)
      × (is_column_delta_negative (subtract_columns column (add_columns column distance)) ≡ true)
      × (add_columns
            (add_columns column distance)
            (subtract_columns column (add_columns column distance))
          ≡ column)
unfolding subtract_columns add_columns is_column_delta_negative
subtract_columns-add_columns column distance below ahead half =
    (omega arith, ground arith, ground arith, omega arith)
