-- ===== src/Serializers/Tests.antt =====
-- Runs of the serializers, and their theorems at concrete fields.
use tonk.Common.{ℕ, ◌≡◌, refl, none, some, List, [], ◌∷◌, ◌++◌, length, replicate, arith}
use tonk.Serializers.Bytes.{at, at_end}
use tonk.Serializers.PacketNum
use tonk.Serializers.PacketCount
use tonk.Serializers.PacketLength
use tonk.Serializers.Metadata
use tonk.Serializers.Metadata.{RecoveryMetadata}
use tonk.Serializers.MetadataRoundtrip.{IsValid, normal, metadata_roundtrip}
use tonk.Serializers.LossRange
use tonk.Serializers.LossRoundtrip.{loss_range_roundtrip}
use tonk.Serializers.Streams.{WriteByteStream, write_all, read_all}
use tonk.Serializers.StreamRoundtrip.{total, sizes, values, Fits, read_all-write_all}

-- Bytes of some fields.
fields :
    (PacketNum.serialize_header 0x12345 ≡ 0xC1 ∷ 0x23 ∷ 0x45 ∷ [])
    × (PacketCount.serialize_footer 300 ≡ 44 ∷ 0x81 ∷ [])
    × (PacketLength.serialize_header 0x12345 ≡ 0xC1 ∷ 0x23 ∷ 0x45 ∷ [])
    × (LossRange.serialize_header 70 5 ≡ 0x37 ∷ 2 ∷ 2 ∷ [])
    × (PacketCount.deserialize_footer [] ≡ none)
    × (PacketLength.deserialize_header (0xE0 ∷ 1 ∷ 2 ∷ []) ≡ none)
unfolding PacketNum.serialize_header PacketCount.serialize_footer PacketLength.serialize_header
    LossRange.serialize_header LossRange.first_byte LossRange.start_bytes LossRange.count_bytes
    PacketCount.deserialize_footer PacketLength.deserialize_header PacketLength.deserialize
fields = (refl, refl, refl, refl, refl, refl)

abbrev some_bytes : List ℕ
some_bytes = 0x81 ∷ 5 ∷ 6 ∷ []

header_of_some_bytes : PacketNum.deserialize_header some_bytes ≡ some (2, 0x105)
unfolding PacketNum.deserialize_header tonk.Serializers.Bytes.join2
header_of_some_bytes = refl

abbrev metadata : RecoveryMetadata
metadata = record { row = 77; column_start = 70000; sum_count = 2000; ldpc_count = 300 }

metadata-IsValid : IsValid metadata
metadata-IsValid = record {
  row = omega arith;
  column_start = omega arith;
  some_sum = omega arith;
  sum_count = omega arith;
  ldpc_count = omega arith;
}

metadata_roundtrip_example :
    Metadata.deserialize_footer ((1 ∷ 2 ∷ []) ++ Metadata.serialize_footer metadata)
    ≡ some (length (Metadata.serialize_footer metadata), normal metadata)
metadata_roundtrip_example = metadata_roundtrip metadata (1 ∷ 2 ∷ []) metadata-IsValid

loss_range_roundtrip_example :
    LossRange.deserialize_header (LossRange.serialize_header 70000 500 ++ replicate 3 0)
    ≡ some (length (LossRange.serialize_header 70000 500), 70000, 500)
loss_range_roundtrip_example =
    loss_range_roundtrip 70000 500 (replicate 3 0) (omega arith) (omega arith) (
      unfold LossRange.serialize_header LossRange.first_byte LossRange.start_bytes
        LossRange.count_bytes in
      omega arith)

abbrev some_words : List (ℕ × ℕ)
some_words = (1, 200) ∷ (2, 0x1234) ∷ (3, 0x56789a) ∷ []

abbrev eight : WriteByteStream
eight = record { buffer = replicate 8 0xff; written_bytes = 1 }

read_all-write_all_example :
    read_all
      (record { buffer = (write_all eight some_words).buffer; bytes_read = eight.written_bytes })
      (sizes some_words)
    ≡ values some_words
read_all-write_all_example =
    read_all-write_all some_words eight
      (unfold Fits in (omega arith, (omega arith, (omega arith, omega arith))))
      (unfold total in omega arith)
