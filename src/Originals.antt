-- ===== src/Originals.antt =====
-- SiameseCommon.h and SiameseCommon.cpp: the original packets that the encoder and the decoder keep.
-- Memory never runs out. Packets are not empty and have at most 0x1fffffff bytes, which
-- siamese.cpp checks.
pub mod Loading
mod Tests
use tonk.Common.{ℕ, ◌-◌, List, [], ◌++◌, length, drop}
use tonk.Serializers.PacketLength.{serialize_header}

-- The codes of `SiameseResult` that the encoder and the decoder give.
pub data SiameseResult : Type 0 where
  success : SiameseResult
  invalid_input : SiameseResult
  need_more_data : SiameseResult
  max_packets_reached : SiameseResult
  duplicate_data : SiameseResult
  disabled : SiameseResult

-- `SiameseOriginalPacket`: `DataBytes` is the length of the content.
pub record SiamesePacket : Type 0 where
  pub packet_num : ℕ
  pub content : List ℕ

-- `OriginalPacket`: `Buffer.Bytes` is the length of the buffer, which starts with the length field.
pub record OriginalPacket : Type 0 where
  pub buffer : List ℕ
  pub column : ℕ
  pub header_bytes : ℕ

-- A packet as its constructor leaves it.
abbrev pub no_packet : OriginalPacket
no_packet = record { buffer = []; column = 0; header_bytes = 0 }

-- `OriginalPacket::Initialize`
unfoldable pub initialize_packet : SiamesePacket → OriginalPacket
initialize_packet packet =
    let header = serialize_header (length packet.content) in
    record {
      buffer = header ++ packet.content;
      column = packet.packet_num;
      header_bytes = length header;
    }

-- `LoadOriginal`, without its check in debug builds.
unfoldable pub load_original : OriginalPacket → SiamesePacket
load_original original = record {
  packet_num = original.column;
  content = drop original.header_bytes original.buffer;
}
