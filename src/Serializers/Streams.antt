-- ===== src/Serializers/Streams.antt =====
-- SiameseSerializers.h: the plain-old-d words, little-endian, and the two byte streams over them.
use Prim.Native.Nat.{bit_or}
use tonk.Common.{ℕ, zero, suc, ◌+◌, ◌-◌, List, [], ◌∷◌, get_or, set, length}
use tonk.Common.Bits.{◌<<◌, ◌>>◌, u8}

-- `WriteU16_LE`, `WriteU24_LE`, `WriteU32_LE` and `WriteU64_LE` at 2, 3, 4 and 8 bytes, and
-- `Data[WrittenBytes] = value` at 1: byte `i` of a value is `value >> (8 * i)`.
unfoldable pub write_le : ℕ → List ℕ → ℕ → ℕ → List ℕ
write_le zero d offset value = d
write_le (suc bytes) d offset value =
    write_le bytes (set d offset (u8 value)) (offset + 1) (value >> 8)

-- `ReadU16_LE` and the others: `data[0] | (data[1] << 8) | …`.
unfoldable pub read_le : ℕ → List ℕ → ℕ → ℕ
read_le zero d offset = 0
read_le (suc bytes) d offset = bit_or (get_or d offset 0) (read_le bytes d (offset + 1) << 8)

-- `WriteByteStream`: `Data` holds `BufferBytes` bytes.
pub record WriteByteStream : Type 0 where
  pub buffer : List ℕ
  pub written_bytes : ℕ

abbrev pub write_remaining : WriteByteStream → ℕ
write_remaining s = length s.buffer - s.written_bytes

-- `Write8`, `Write16`, `Write24`, `Write32` and `Write64`.
unfoldable pub write : ℕ → WriteByteStream → ℕ → WriteByteStream
write bytes s value = record {
  buffer = write_le bytes s.buffer s.written_bytes value;
  written_bytes = s.written_bytes + bytes;
}

-- `WriteBuffer`, a copy of bytes.
unfoldable pub write_buffer : WriteByteStream → List ℕ → WriteByteStream
write_buffer s [] = s
write_buffer s (b ∷ bs) =
    write_buffer
      (record { buffer = set s.buffer s.written_bytes b; written_bytes = s.written_bytes + 1 }) bs

-- `ReadByteStream`
pub record ReadByteStream : Type 0 where
  pub buffer : List ℕ
  pub bytes_read : ℕ

abbrev pub read_remaining : ReadByteStream → ℕ
read_remaining s = length s.buffer - s.bytes_read

-- `Skip`, and the pointer of `Read(bytes)` as the offset that it points to.
unfoldable pub skip : ReadByteStream → ℕ → ReadByteStream
skip s bytes = record s { bytes_read = s.bytes_read + bytes }

-- `Read8`, `Read16`, `Read24`, `Read32` and `Read64`.
unfoldable pub read : ℕ → ReadByteStream → ℕ × ReadByteStream
unfolding skip
read bytes s = (read_le bytes s.buffer s.bytes_read, skip s bytes)

-- A message as a sequence of words, each a number of bytes and a value: written one after another,
-- and read one after another.
unfoldable pub write_all : WriteByteStream → List (ℕ × ℕ) → WriteByteStream
write_all s [] = s
write_all s ((bytes, value) ∷ words) = write_all (write bytes s value) words

unfoldable pub read_all : ReadByteStream → List ℕ → List ℕ
read_all s [] = []
read_all s (bytes ∷ sizes) = let (value, s') = read bytes s in value ∷ read_all s' sizes
