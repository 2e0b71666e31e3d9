-- ===== src/Serializers.antt =====
-- SiameseSerializers.h: the fields of the Siamese protocol, each with a writer and a reader at the
-- front of a buffer (a header) or at its end (a footer).
-- A writer gives the bytes that it writes, whose number it returns. A reader takes the bytes that
-- its caller vouches for (`bufferSpaceBytes` of them), and gives the number that it read with the
-- value, or `none` for its -1. Buffers are not null.
pub mod Bytes
pub mod PacketNum
pub mod PacketCount
pub mod PacketLength
pub mod Metadata
pub mod MetadataRoundtrip
pub mod LossRange
pub mod LossRoundtrip
pub mod Streams
pub mod StreamRoundtrip
mod Tests
