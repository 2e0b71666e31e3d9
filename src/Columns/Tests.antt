-- ===== src/Columns/Tests.antt =====
-- SiameseCommon.h: operation codes at concrete columns.
use tonk.Common.{◌≡◌, refl}
use tonk.Columns.{get_row_opcode}

-- Some operation codes, the last at the largest lane and row.
get_row_opcode-first :
    (get_row_opcode 0 0 ≡ 23) × (get_row_opcode 3 17 ≡ 54) × (get_row_opcode 7 254 ≡ 52)
unfolding get_row_opcode
get_row_opcode-first = (refl, refl, refl)
