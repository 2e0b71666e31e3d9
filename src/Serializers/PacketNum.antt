-- ===== src/Serializers/PacketNum.antt =====
-- SiameseSerializers.h: the packet number field, 1 to 3 bytes for 22 bits.
use Prim.Native.Nat.{bit_and, bit_or}
use tonk.Common.{
  ℕ, ◌+◌, ◌/◌, ◌≤◌, ◌<◌, ◌≡◌, Option, none, some, List, [], ◌∷◌, ◌++◌, length, arith, if◌then◌else◌,
  ltb, leb, ◌==◌, ◌⊎◌,
}
use tonk.Common.Bits.{◌>>◌, u8, bit_or_disjoint, bit_and_ones}
use tonk.Serializers.Bytes.{at, at_end, join2, join3, join2-eq, join3-eq, end1, end2, end3}

-- `SIAMESE_PACKET_NUM_MAX`
abbrev pub packet_num_max : ℕ
packet_num_max = 0x3fffff

-- `SerializeHeader_PacketNum`
unfoldable pub serialize_header : ℕ → List ℕ
serialize_header n =
    if leb n 0x7f
    then u8 n ∷ []
    else if leb n 0x3fff
    then u8 (bit_or 0x80 (n >> 8)) ∷ u8 n ∷ []
    else u8 (bit_or 0xC0 (n >> 16)) ∷ u8 (n >> 8) ∷ u8 n ∷ []

-- `DeserializeHeader_PacketNum`
unfoldable pub deserialize_header : List ℕ → Option (ℕ × ℕ)
deserialize_header buffer =
    let byte_count = at buffer 0 >> 6 in
    if ltb (length buffer) 1
    then none
    else if leb byte_count 1
    then some (1, at buffer 0)
    else if ltb (length buffer) byte_count
    then none
    else if byte_count == 2
    then some (byte_count, bit_and (join2 (at buffer 0) (at buffer 1)) 0x3fff)
    else some (byte_count, bit_and (join3 (at buffer 0) (at buffer 1) (at buffer 2)) 0x3fffff)

-- `SerializeFooter_PacketNum`
unfoldable pub serialize_footer : ℕ → List ℕ
serialize_footer n =
    if leb n 0x7f
    then u8 n ∷ []
    else if leb n 0x3fff
    then u8 n ∷ u8 (bit_or 0x80 (n >> 8)) ∷ []
    else u8 n ∷ u8 (n >> 8) ∷ u8 (bit_or 0xC0 (n >> 16)) ∷ []

-- `DeserializeFooter_PacketNum`
unfoldable pub deserialize_footer : List ℕ → Option (ℕ × ℕ)
deserialize_footer buffer =
    let byte_count = at_end buffer 0 >> 6 in
    if ltb (length buffer) 1
    then none
    else if leb byte_count 1
    then some (1, at_end buffer 0)
    else if ltb (length buffer) byte_count
    then none
    else if byte_count == 2
    then some (byte_count, bit_and (join2 (at_end buffer 0) (at_end buffer 1)) 0x3fff)
    else some
        (byte_count, bit_and (join3 (at_end buffer 0) (at_end buffer 1) (at_end buffer 2)) 0x3fffff)

-- `DeserializeFooter_PacketNum_Unsafe`, whose buffer ends at `bufferEnd` and is long enough.
unfoldable pub deserialize_footer_unsafe : List ℕ → ℕ × ℕ
deserialize_footer_unsafe buffer =
    let byte_count = at_end buffer 0 >> 6 in
    if leb byte_count 1
    then (1, at_end buffer 0)
    else if byte_count == 2
    then (byte_count, bit_and (join2 (at_end buffer 0) (at_end buffer 1)) 0x3fff)
    else (
      byte_count,
      bit_and (join3 (at_end buffer 0) (at_end buffer 1) (at_end buffer 2)) 0x3fffff,
    )

tag2 : (n : ℕ) → n ≤ 0x3fff → u8 (bit_or 0x80 (n >> 8)) ≡ 0x80 + n / 256
tag2 n h = omega (arith, bit_or_disjoint 6 2 (n >> 8) (omega arith))

tag3 : (n : ℕ) → n ≤ packet_num_max → u8 (bit_or 0xC0 (n >> 16)) ≡ 0xC0 + n / 65536
tag3 n h = omega (arith, bit_or_disjoint 6 3 (n >> 16) (omega arith))

-- The two longer forms, read back.
mask2 : (n : ℕ) → n ≤ 0x3fff → bit_and (join2 (u8 (bit_or 0x80 (n >> 8))) (u8 n)) 0x3fff ≡ n
mask2 n h = omega (
  arith,
  tag2 n h,
  join2-eq (u8 (bit_or 0x80 (n >> 8))) (u8 n) (omega arith),
  bit_and_ones 14 (join2 (u8 (bit_or 0x80 (n >> 8))) (u8 n)),
)

mask3 :
    (n : ℕ)
    → n ≤ packet_num_max
    → bit_and (join3 (u8 (bit_or 0xC0 (n >> 16))) (u8 (n >> 8)) (u8 n)) 0x3fffff ≡ n
mask3 n h = omega (
  arith,
  tag3 n h,
  join3-eq (u8 (bit_or 0xC0 (n >> 16))) (u8 (n >> 8)) (u8 n) (omega arith) (omega arith),
  bit_and_ones 22 (join3 (u8 (bit_or 0xC0 (n >> 16))) (u8 (n >> 8)) (u8 n)),
)

header_roundtrip :
    (n : ℕ) (rest : List ℕ)
    → n ≤ packet_num_max
    → deserialize_header (serialize_header n ++ rest) ≡ some (length (serialize_header n), n)
unfolding serialize_header deserialize_header
header_roundtrip n rest h = ground (arith, tag2 n, tag3 n h, mask2 n, mask3 n h)

footer_roundtrip :
    (n : ℕ) (before : List ℕ)
    → n ≤ packet_num_max
    → (deserialize_footer (before ++ serialize_footer n) ≡ some (length (serialize_footer n), n))
      × (deserialize_footer_unsafe (before ++ serialize_footer n)
          ≡ (length (serialize_footer n), n))
unfolding serialize_footer deserialize_footer deserialize_footer_unsafe
footer_roundtrip n before h = ground (
  arith,
  end1 before (u8 n),
  end2 before (u8 n) (u8 (bit_or 0x80 (n >> 8))),
  end3 before (u8 n) (u8 (n >> 8)) (u8 (bit_or 0xC0 (n >> 16))),
  tag2 n,
  tag3 n h,
  mask2 n,
  mask3 n h,
)

-- A packet number of at most 22 bits is read back by the number of bytes written, from the front of
-- a buffer whatever follows it, and from the end of one whatever stands before it.
pub packet_num_roundtrip :
    (n : ℕ) (before rest : List ℕ)
    → n ≤ packet_num_max
    → (deserialize_header (serialize_header n ++ rest) ≡ some (length (serialize_header n), n))
      × (deserialize_footer (before ++ serialize_footer n) ≡ some (length (serialize_footer n), n))
      × (deserialize_footer_unsafe (before ++ serialize_footer n)
          ≡ (length (serialize_footer n), n))
packet_num_roundtrip n before rest h =
    let footer = footer_roundtrip n before h in (header_roundtrip n rest h, footer.0, footer.1)

-- The readers look at no byte outside the buffer that they are given, and give 22 bits at most.
pub packet_num_bounds :
    (buffer : List ℕ) (k n : ℕ)
    → (deserialize_header buffer ≡ some (k, n)) ⊎ (deserialize_footer buffer ≡ some (k, n))
    → at buffer 0 < 256
    → at_end buffer 0 < 256
    → (1 ≤ k) × (k ≤ length buffer) × (k ≤ 3) × (n ≤ packet_num_max)
unfolding deserialize_header deserialize_footer
packet_num_bounds buffer k n e h l = ground (
  arith,
  bit_and_ones 14 (join2 (at buffer 0) (at buffer 1)),
  bit_and_ones 14 (join2 (at_end buffer 0) (at_end buffer 1)),
  bit_and_ones 22 (join3 (at buffer 0) (at buffer 1) (at buffer 2)),
  bit_and_ones 22 (join3 (at_end buffer 0) (at_end buffer 1) (at_end buffer 2)),
)
