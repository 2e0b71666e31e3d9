-- ===== src/Columns.antt =====
-- SiameseCommon.h: column numbers of the erasure code, which roll over, and the values and operation
-- codes that rows and columns have.
pub mod Order
pub mod Values
mod Tests
use Prim.Native.Nat.{bit_and, bit_xor, ◌%◌}
use tonk.Common.{ℕ, ◌+◌, ◌-◌, ◌*◌, ◌/◌, ◌^◌, Bool, if◌then◌else◌, leb, ◌==◌}
use tonk.Common.Bits.{◌<<◌, ◌>>◌, u8, u32}

abbrev pub column_value_period : ℕ
column_value_period = 253

abbrev pub row_value_period : ℕ
row_value_period = 255

abbrev pub column_period : ℕ
column_period = 0x400000

abbrev pub column_lane_count : ℕ
column_lane_count = 8

abbrev pub column_sum_count : ℕ
column_sum_count = 3

unfoldable pub get_column_value : ℕ → ℕ
get_column_value column = u8 (3 + u32 (column * 199) % column_value_period)

unfoldable pub get_row_value : ℕ → ℕ
get_row_value row = u8 (1 + u32 (row + 1) % row_value_period)

unfoldable pub is_column_delta_negative : ℕ → Bool
is_column_delta_negative delta = leb (column_period / 2) delta

unfoldable pub subtract_columns : ℕ → ℕ → ℕ
subtract_columns a b = u32 (a + 2 ^ 32 - b) % column_period

unfoldable pub add_columns : ℕ → ℕ → ℕ
add_columns a b = u32 (a + b) % column_period

unfoldable pub increment_column1 : ℕ → ℕ
unfolding add_columns
increment_column1 column = add_columns column 1

-- `~x` of a 32-bit word
abbrev pub bit_not : ℕ → ℕ
bit_not x = 2 ^ 32 - 1 - x

unfoldable pub int32_hash : ℕ → ℕ
int32_hash key =
    let k1 = u32 (key + bit_not (u32 (key << 15))) in
    let k2 = bit_xor k1 (k1 >> 10) in
    let k3 = u32 (k2 + u32 (k2 << 3)) in
    let k4 = bit_xor k3 (k3 >> 6) in
    let k5 = u32 (k4 + bit_not (u32 (k4 << 11))) in bit_xor k5 (k5 >> 16)

unfoldable pub get_row_opcode : ℕ → ℕ → ℕ
unfolding int32_hash
get_row_opcode lane row =
    let sum_mask = (1 << (column_sum_count * 2)) - 1 in
    let zero_value = 1 << ((column_sum_count - 1) * 2) in
    let opcode = bit_and (int32_hash (lane + (row + 3) * column_lane_count)) sum_mask in
    if opcode == 0 then zero_value else opcode
