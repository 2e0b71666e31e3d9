-- ===== src/Serializers/PacketCount.antt =====
-- SiameseSerializers.h: the packet count field, 1 or 2 bytes for 15 bits.
use Prim.Native.Nat.{bit_and, bit_or}
use tonk.Common.{
  ℕ, ◌+◌, ◌/◌, ◌^◌, ◌<◌, ◌≡◌, Option, none, some, List, [], ◌∷◌, ◌++◌, length, arith, if◌then◌else◌,
  ltb, leb, ◌==◌,
}
use tonk.Common.Bits.{◌>>◌, u8, bit_or_disjoint, bit_and_ones}
use tonk.Common.Bits.Flags.{bit_and-pow_zero}
use tonk.Serializers.Bytes.{at, at_end, join2, join2-eq, end1, end2}

-- `SIAMESE_MAX_PACKETS`
abbrev pub max_packets : ℕ
max_packets = 16000

-- `SerializeHeader_PacketCount`
unfoldable pub serialize_header : ℕ → List ℕ
serialize_header n = if leb n 127 then u8 n ∷ [] else u8 (bit_or 0x80 (n >> 8)) ∷ u8 n ∷ []

-- `DeserializeHeader_PacketCount`
unfoldable pub deserialize_header : List ℕ → Option (ℕ × ℕ)
deserialize_header buffer =
    if ltb (length buffer) 1
    then none
    else if bit_and (at buffer 0) 0x80 == 0
    then some (1, at buffer 0)
    else if ltb (length buffer) 2
    then none
    else some (2, bit_and (join2 (at buffer 0) (at buffer 1)) 0x7fff)

-- `SerializeFooter_PacketCount`
unfoldable pub serialize_footer : ℕ → List ℕ
serialize_footer n = if leb n 127 then u8 n ∷ [] else u8 n ∷ u8 (bit_or 0x80 (n >> 8)) ∷ []

-- `DeserializeFooter_PacketCount`
unfoldable pub deserialize_footer : List ℕ → Option (ℕ × ℕ)
deserialize_footer buffer =
    if ltb (length buffer) 1
    then none
    else if bit_and (at_end buffer 0) 0x80 == 0
    then some (1, at_end buffer 0)
    else if ltb (length buffer) 2
    then none
    else some (2, bit_and (join2 (at_end buffer 0) (at_end buffer 1)) 0x7fff)

tag : (n : ℕ) → n < 2 ^ 15 → u8 (bit_or 0x80 (n >> 8)) ≡ 0x80 + n / 256
tag n h = omega (arith, bit_or_disjoint 7 1 (n >> 8) (omega arith))

mask : (n : ℕ) → n < 2 ^ 15 → bit_and (join2 (u8 (bit_or 0x80 (n >> 8))) (u8 n)) 0x7fff ≡ n
mask n h = omega (
  arith,
  tag n h,
  join2-eq (u8 (bit_or 0x80 (n >> 8))) (u8 n) (omega arith),
  bit_and_ones 15 (join2 (u8 (bit_or 0x80 (n >> 8))) (u8 n)),
)

header_roundtrip :
    (n : ℕ) (rest : List ℕ)
    → n < 2 ^ 15
    → deserialize_header (serialize_header n ++ rest) ≡ some (length (serialize_header n), n)
unfolding serialize_header deserialize_header
header_roundtrip n rest h = ground (
  arith,
  tag n h,
  mask n h,
  bit_and-pow_zero 7 (u8 n),
  bit_and-pow_zero 7 (u8 (bit_or 0x80 (n >> 8))),
)

pub footer_roundtrip :
    (n : ℕ) (before : List ℕ)
    → n < 2 ^ 15
    → deserialize_footer (before ++ serialize_footer n) ≡ some (length (serialize_footer n), n)
unfolding serialize_footer deserialize_footer
footer_roundtrip n before h = ground (
  arith,
  end1 before (u8 n),
  end2 before (u8 n) (u8 (bit_or 0x80 (n >> 8))),
  tag n h,
  mask n h,
  bit_and-pow_zero 7 (u8 n),
  bit_and-pow_zero 7 (u8 (bit_or 0x80 (n >> 8))),
)

-- A packet count of at most 15 bits is read back by the number of bytes written, from the front of
-- a buffer whatever follows it, and from the end of one whatever stands before it.
pub packet_count_roundtrip :
    (n : ℕ) (before rest : List ℕ)
    → n < 2 ^ 15
    → (deserialize_header (serialize_header n ++ rest) ≡ some (length (serialize_header n), n))
      × (deserialize_footer (before ++ serialize_footer n) ≡ some (length (serialize_footer n), n))
packet_count_roundtrip n before rest h = (header_roundtrip n rest h, footer_roundtrip n before h)
