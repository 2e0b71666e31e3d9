-- ===== src/Serializers/LossRange.antt =====
-- SiameseSerializers.h: the loss range of a negative acknowledgement, 1 to 7 bytes for the 22 bits
-- of a relative packet number and a loss count.
use Prim.Native.Nat.{bit_and, bit_or}
use tonk.Common.{
  ℕ, ◌+◌, ◌-◌, Option, none, some, List, [], ◌∷◌, ◌++◌, length, drop, if◌then◌else◌, ltb, leb, ◌==◌,
}
use tonk.Common.Bits.{◌<<◌, ◌>>◌, u8}
use tonk.Serializers.Bytes.{at}

-- `kMaxLossRangeFieldBytes`
abbrev pub max_loss_range_bytes : ℕ
max_loss_range_bytes = 7

-- A byte that says with its bit 0x80 whether another follows.
abbrev pub more_byte : ℕ → ℕ
more_byte x = u8 (bit_or x 0x80)

-- The bytes of `SerializeHeader_NACKLossRange` after the first: the upper bits of `relativeStart`.
unfoldable pub start_bytes : ℕ → List ℕ
start_bytes start =
    let byte1 = start >> 5 in
    let byte2 = start >> 12 in
    let byte3 = start >> 19 in
    if ltb start (1 << 5)
    then []
    else if ltb start (1 << 12)
    then u8 byte1 ∷ []
    else if ltb start (1 << 19)
    then more_byte byte1 ∷ u8 byte2 ∷ []
    else more_byte byte1 ∷ more_byte byte2 ∷ u8 byte3 ∷ []

-- Its extended loss count, with 3 already taken away.
unfoldable pub count_bytes : ℕ → List ℕ
count_bytes count =
    let byte2 = count >> 7 in
    let byte3 = count >> 14 in
    if ltb count (1 << 7)
    then u8 count ∷ []
    else if ltb count (1 << 14)
    then more_byte count ∷ u8 byte2 ∷ []
    else more_byte count ∷ more_byte byte2 ∷ u8 byte3 ∷ []

-- The first byte: two bits of the loss count, the bit 4 if more bytes of the start follow, and the
-- low bits of the start.
unfoldable pub first_byte : ℕ → ℕ → ℕ
first_byte start count_m1 =
    let low = bit_or (if leb count_m1 2 then count_m1 else 3) (start << 3) in
    u8 (if leb (1 << 5) start then bit_or low 4 else low)

-- `SerializeHeader_NACKLossRange`
unfoldable pub serialize_header : ℕ → ℕ → List ℕ
serialize_header start count_m1 =
    first_byte start count_m1 ∷ start_bytes start
    ++ (if leb 3 count_m1 then count_bytes (count_m1 - 3) else [])

-- The relative start, with the number of bytes that hold it.
unfoldable pub read_start : List ℕ → ℕ × ℕ
read_start buffer =
    let byte0 = at buffer 0 in
    let byte1 = at buffer 1 in
    let byte2 = at buffer 2 in
    let start0 = byte0 >> 3 in
    let start1 = bit_or start0 (bit_and byte1 0x7f << 5) in
    let start2 = bit_or start1 (bit_and byte2 0x7f << 12) in
    if bit_and byte0 4 == 0
    then (1, start0)
    else if bit_and byte1 0x80 == 0
    then (2, start1)
    else if bit_and byte2 0x80 == 0
    then (3, start2)
    else (4, bit_or start2 (at buffer 3 << 19))

-- An extended loss count, with the number of bytes that hold it.
unfoldable pub read_count : List ℕ → ℕ × ℕ
read_count buffer =
    let byte1 = at buffer 0 in
    let byte2 = at buffer 1 in
    let count1 = 3 + bit_and byte1 0x7f in
    let count2 = count1 + (bit_and byte2 0x7f << 7) in
    if bit_and byte1 0x80 == 0
    then (1, count1)
    else if bit_and byte2 0x80 == 0
    then (2, count2)
    else (3, count2 + (at buffer 2 << 14))

-- `DeserializeHeader_NACKLossRange`: the bytes read, the relative start and the loss count.
unfoldable pub deserialize_header : List ℕ → Option (ℕ × ℕ × ℕ)
deserialize_header buffer =
    let count_m1 = bit_and (at buffer 0) 3 in
    let (n, start) = read_start buffer in
    let (k, count) = read_count (drop n buffer) in
    if ltb (length buffer) max_loss_range_bytes
    then none
    else if count_m1 == 3
    then some (n + k, start, count)
    else some (n, start, count_m1)
