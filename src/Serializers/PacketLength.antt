-- ===== src/Serializers/PacketLength.antt =====
-- SiameseSerializers.h: the packet length field, 1 to 4 bytes for 29 bits.
use Prim.Native.Nat.{bit_and, bit_or}
use tonk.Common.{
  ℕ, ◌+◌, ◌/◌, ◌≤◌, ◌<◌, ◌≡◌, refl, Option, none, some, List, [], ◌∷◌, ◌++◌, length, arith,
  if◌then◌else◌, ltb, leb, ◌==◌,
}
use native.Mathlib.Decide.{dec_lt}
use tonk.Common.Bits.{◌>>◌, u8, bit_or_disjoint, bit_and_ones}
use tonk.Common.Bits.Flags.{bit_and-top3}
use tonk.Serializers.Bytes.{
  at, at_end, join2, join3, join4, join2-eq, join3-eq, join4-eq, end1, end2, end3, end4,
}

-- `SIAMESE_MAX_PACKET_BYTES`
abbrev pub max_packet_bytes : ℕ
max_packet_bytes = 0x1fffffff

-- `SerializeHeader_PacketLength`
unfoldable pub serialize_header : ℕ → List ℕ
serialize_header n =
    if leb n 0x7f
    then u8 n ∷ []
    else if leb n 0x3fff
    then u8 (bit_or 0x80 (n >> 8)) ∷ u8 n ∷ []
    else if leb n 0x1fffff
    then u8 (bit_or 0xC0 (n >> 16)) ∷ u8 (n >> 8) ∷ u8 n ∷ []
    else u8 (bit_or 0xE0 (n >> 24)) ∷ u8 (n >> 16) ∷ u8 (n >> 8) ∷ u8 n ∷ []

-- `SerializeFooter_PacketLength`
unfoldable pub serialize_footer : ℕ → List ℕ
serialize_footer n =
    if leb n 0x7f
    then u8 n ∷ []
    else if leb n 0x3fff
    then u8 n ∷ u8 (bit_or 0x80 (n >> 8)) ∷ []
    else if leb n 0x1fffff
    then u8 n ∷ u8 (n >> 8) ∷ u8 (bit_or 0xC0 (n >> 16)) ∷ []
    else u8 n ∷ u8 (n >> 8) ∷ u8 (n >> 16) ∷ u8 (bit_or 0xE0 (n >> 24)) ∷ []

-- Both readers, over the way that they reach their bytes: from the front, or back from the end.
unfoldable pub deserialize : (ℕ → ℕ) → ℕ → Option (ℕ × ℕ)
deserialize byte space =
    let byte_count = byte 0 >> 6 in
    if ltb space 1
    then none
    else if leb byte_count 1
    then some (1, byte 0)
    else if byte_count == 2
    then (if ltb space 2 then none else some (2, bit_and (join2 (byte 0) (byte 1)) 0x3fff))
    else if bit_and (byte 0) 0xE0 == 0xC0
    then (if ltb space 3
        then none
        else some (3, bit_and (join3 (byte 0) (byte 1) (byte 2)) 0x1fffff))
    else if ltb space 4
    then none
    else some (4, bit_and (join4 (byte 0) (byte 1) (byte 2) (byte 3)) 0x1fffffff)

-- `DeserializeHeader_PacketLength`
unfoldable pub deserialize_header : List ℕ → Option (ℕ × ℕ)
deserialize_header buffer = deserialize (at buffer) (length buffer)

-- `DeserializeFooter_PacketLength`
unfoldable pub deserialize_footer : List ℕ → Option (ℕ × ℕ)
deserialize_footer buffer = deserialize (at_end buffer) (length buffer)

-- The tags of the three longer forms.
tag2 : (n : ℕ) → n ≤ 0x3fff → u8 (bit_or 0x80 (n >> 8)) ≡ 0x80 + n / 256
tag2 n h = omega (arith, bit_or_disjoint 6 2 (n >> 8) (omega arith))

tag3 : (n : ℕ) → n ≤ 0x1fffff → u8 (bit_or 0xC0 (n >> 16)) ≡ 0xC0 + n / 65536
tag3 n h = omega (arith, bit_or_disjoint 5 6 (n >> 16) (omega arith))

tag4 : (n : ℕ) → n ≤ max_packet_bytes → u8 (bit_or 0xE0 (n >> 24)) ≡ 0xE0 + n / 16777216
tag4 n h = omega (arith, bit_or_disjoint 5 7 (n >> 24) (omega arith))

-- A reader that meets the bytes of a length, whichever way it reaches them.
module _ (byte : ℕ → ℕ) (space : ℕ) where
  reads1 : (n : ℕ) → n ≤ 0x7f → byte 0 ≡ n → 1 ≤ space → deserialize byte space ≡ some (1, n)
  unfolding deserialize
  reads1 n h e room = ground arith

  reads2 :
      (n : ℕ)
      → 0x7f < n
      → n ≤ 0x3fff
      → byte 0 ≡ u8 (bit_or 0x80 (n >> 8))
      → byte 1 ≡ u8 n
      → 2 ≤ space
      → deserialize byte space ≡ some (2, n)
  unfolding deserialize
  reads2 n l h e f room =
      ground
        (arith, tag2 n h, join2-eq (byte 0) (byte 1), bit_and_ones 14 (join2 (byte 0) (byte 1)))

  reads3 :
      (n : ℕ)
      → 0x3fff < n
      → n ≤ 0x1fffff
      → byte 0 ≡ u8 (bit_or 0xC0 (n >> 16))
      → byte 1 ≡ u8 (n >> 8)
      → byte 2 ≡ u8 n
      → 3 ≤ space
      → deserialize byte space ≡ some (3, n)
  unfolding deserialize
  reads3 n l h e f g room = ground (
    arith,
    tag3 n h,
    bit_and-top3 (byte 0),
    join3-eq (byte 0) (byte 1) (byte 2),
    bit_and_ones 21 (join3 (byte 0) (byte 1) (byte 2)),
  )

  reads4 :
      (n : ℕ)
      → 0x1fffff < n
      → n ≤ max_packet_bytes
      → byte 0 ≡ u8 (bit_or 0xE0 (n >> 24))
      → byte 1 ≡ u8 (n >> 16)
      → byte 2 ≡ u8 (n >> 8)
      → byte 3 ≡ u8 n
      → 4 ≤ space
      → deserialize byte space ≡ some (4, n)
  unfolding deserialize
  reads4 n l h e f g k room = ground (
    arith,
    tag4 n h,
    bit_and-top3 (byte 0),
    join4-eq (byte 0) (byte 1) (byte 2) (byte 3),
    bit_and_ones 29 (join4 (byte 0) (byte 1) (byte 2) (byte 3)),
  )

-- What the writers write, by the size of the length.
writes1 : (n : ℕ) → n ≤ 0x7f → (serialize_header n ≡ n ∷ []) × (serialize_footer n ≡ n ∷ [])
unfolding serialize_header serialize_footer
writes1 n h = (ground arith, ground arith)

writes2 :
    (n : ℕ)
    → 0x7f < n
    → n ≤ 0x3fff
    → (serialize_header n ≡ u8 (bit_or 0x80 (n >> 8)) ∷ u8 n ∷ [])
      × (serialize_footer n ≡ u8 n ∷ u8 (bit_or 0x80 (n >> 8)) ∷ [])
unfolding serialize_header serialize_footer
writes2 n l h = (ground arith, ground arith)

writes3 :
    (n : ℕ)
    → 0x3fff < n
    → n ≤ 0x1fffff
    → (serialize_header n ≡ u8 (bit_or 0xC0 (n >> 16)) ∷ u8 (n >> 8) ∷ u8 n ∷ [])
      × (serialize_footer n ≡ u8 n ∷ u8 (n >> 8) ∷ u8 (bit_or 0xC0 (n >> 16)) ∷ [])
unfolding serialize_header serialize_footer
writes3 n l h = (ground arith, ground arith)

writes4 :
    (n : ℕ)
    → 0x1fffff < n
    → (serialize_header n ≡ u8 (bit_or 0xE0 (n >> 24)) ∷ u8 (n >> 16) ∷ u8 (n >> 8) ∷ u8 n ∷ [])
      × (serialize_footer n ≡ u8 n ∷ u8 (n >> 8) ∷ u8 (n >> 16) ∷ u8 (bit_or 0xE0 (n >> 24)) ∷ [])
unfolding serialize_header serialize_footer
writes4 n l = (ground arith, ground arith)

header_roundtrip :
    (n : ℕ) (rest : List ℕ)
    → n ≤ max_packet_bytes
    → deserialize_header (serialize_header n ++ rest) ≡ some (length (serialize_header n), n)
unfolding deserialize_header
header_roundtrip n rest h = elim (dec_lt 0x7f n) [
  | no small ↦ rw ((writes1 n (omega arith)).0) (reads1 _ _ n (omega arith) refl (omega arith))
  | yes l1 ↦ elim (dec_lt 0x3fff n) [
    | no two ↦
        rw ((writes2 n l1 (omega arith)).0) (reads2 _ _ n l1 (omega arith) refl refl (omega arith))
    | yes l2 ↦ elim (dec_lt 0x1fffff n) [
      | no three ↦
          rw ((writes3 n l2 (omega arith)).0)
            (reads3 _ _ n l2 (omega arith) refl refl refl (omega arith))
      | yes l3 ↦ rw ((writes4 n l3).0) (reads4 _ _ n l3 h refl refl refl refl (omega arith))
    ]
  ]
]

footer_roundtrip :
    (n : ℕ) (before : List ℕ)
    → n ≤ max_packet_bytes
    → deserialize_footer (before ++ serialize_footer n) ≡ some (length (serialize_footer n), n)
unfolding deserialize_footer
footer_roundtrip n before h = elim (dec_lt 0x7f n) [
  | no small ↦
      (let e = end1 before n in
        rw ((writes1 n (omega arith)).1) (reads1 _ _ n (omega arith) e.0 e.1))
  | yes l1 ↦ elim (dec_lt 0x3fff n) [
    | no two ↦
        (let e = end2 before (u8 n) (u8 (bit_or 0x80 (n >> 8))) in
          rw ((writes2 n l1 (omega arith)).1) (reads2 _ _ n l1 (omega arith) e.0 e.1 e.2))
    | yes l2 ↦ elim (dec_lt 0x1fffff n) [
      | no three ↦
          (let e = end3 before (u8 n) (u8 (n >> 8)) (u8 (bit_or 0xC0 (n >> 16))) in
            rw ((writes3 n l2 (omega arith)).1) (reads3 _ _ n l2 (omega arith) e.0 e.1 e.2 e.3))
      | yes l3 ↦
          (let e = end4 before (u8 n) (u8 (n >> 8)) (u8 (n >> 16)) (u8 (bit_or 0xE0 (n >> 24))) in
            rw ((writes4 n l3).1) (reads4 _ _ n l3 h e.0 e.1 e.2 e.3 e.4))
    ]
  ]
]

-- A packet length of at most 29 bits is read back by the number of bytes written, from the front of
-- a buffer whatever follows it, and from the end of one whatever stands before it.
pub packet_length_roundtrip :
    (n : ℕ) (before rest : List ℕ)
    → n ≤ max_packet_bytes
    → (deserialize_header (serialize_header n ++ rest) ≡ some (length (serialize_header n), n))
      × (deserialize_footer (before ++ serialize_footer n) ≡ some (length (serialize_footer n), n))
packet_length_roundtrip n before rest h = (header_roundtrip n rest h, footer_roundtrip n before h)
