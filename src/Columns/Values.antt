-- ===== src/Columns/Values.antt =====
-- SiameseCommon.h: the values of columns and the operation codes of rows.
use Prim.Native.Nat.{bit_and}
use tonk.Common.{
  ℕ, ◌+◌, ◌*◌, ◌≤◌, ◌<◌, ◌≡◌, ◌==◌, if◌then◌else◌, arith, ap, inl, inr, Bool-cases, ==→eq,
}
use tonk.Common.Bits.{bit_and_ones}
use tonk.Columns.{column_value_period, column_period, get_column_value, get_row_opcode, int32_hash}

column_apart :
    (a b : ℕ)
    → a < column_period
    → b < column_period
    → a < b + column_value_period
    → b < a + column_value_period
    → get_column_value a ≡ get_column_value b
    → a ≡ b
unfolding get_column_value
column_apart a b ha hb low high same = omega (arith, same)

-- In any 253 columns in a row, below the column period, every column has a value from 3 to 255, and no
-- two of them have the same value: each of the 253 values is there once.
pub get_column_value-once :
    (first i j : ℕ)
    → first + column_value_period ≤ column_period
    → i < column_value_period
    → j < column_value_period
    → (3 ≤ get_column_value (first + i))
      × (get_column_value (first + i) < 256)
      × ((get_column_value (first + i) == get_column_value (first + j)) ≡ (i == j))
unfolding get_column_value
get_column_value-once first i j room hi hj = (
  omega arith,
  omega arith,
  elim (Bool-cases (i == j)) [
    | inl same ↦ ground (arith, same, ap (λ k. get_column_value (first + k)) (==→eq i j same))
    | inr other ↦ ground (arith, other, column_apart (first + i) (first + j), room)
  ],
)

one_of_63 : (x : ℕ) → x < 64 → (1 ≤ (if x == 0 then 16 else x)) × ((if x == 0 then 16 else x) < 64)
one_of_63 x h = (ground arith, ground arith)

-- An operation code is one of 63, and never none.
get_row_opcode-bounds :
    (lane row : ℕ) → (1 ≤ get_row_opcode lane row) × (get_row_opcode lane row < 64)
unfolding get_row_opcode
get_row_opcode-bounds lane row =
    let h = int32_hash (lane + (row + 3) * 8) in
    one_of_63 (bit_and h 63) (omega (arith, bit_and_ones 6 h))
