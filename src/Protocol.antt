-- ===== src/Protocol.antt =====
-- TonkineseProtocol.h, TonkineseProtocol.cpp: the footer of a datagram and its flags byte.
-- A connected datagram is a payload, then the sequence number, the nonce, the handshake, the
-- timestamp, the flags byte and the tag. SessionOutgoing::sendQueuedDatagram of TonkineseOutgoing.cpp
-- assembles it.
pub mod Footer
pub mod Frames
pub mod Handshakes
mod Tests
use Prim.Native.Nat.{bit_and, bit_or}
use tonk.Common.{
  Option, none, some, ℕ, ◌+◌, ◌-◌, ◌*◌, Bool, true, false, not, ◌&&◌, if◌then◌else◌, ltb, ◌==◌,
  List, [], ◌∷◌, ◌++◌, length,
}
use tonk.Common.Bits.{◌<<◌, ◌>>◌, u8}
use tonk.Serializers.Bytes.{at_end}

-- `kConnectionMask`, `kHandshakeMask`, `kSeqCompMask` and `kOnlyFECMask`
abbrev pub connection_mask : ℕ
connection_mask = 0x80

abbrev pub handshake_mask : ℕ
handshake_mask = 0x40

abbrev pub seq_comp_mask : ℕ
seq_comp_mask = 0x20

abbrev pub only_fec_mask : ℕ
only_fec_mask = 0x10

-- What the methods of `FlagsReader` read from a flags byte.
pub record Flags : Type 0 where
  pub is_connection_datagram : Bool
  pub is_only_fec : Bool
  pub should_compress_sequence_numbers : Bool
  pub sequence_number_bytes : ℕ
  pub encryption_nonce_bytes : ℕ
  pub handshake_bytes : ℕ

unfoldable pub read_flags : ℕ → Flags
read_flags flags_byte = record {
  is_connection_datagram = not (bit_and flags_byte connection_mask == 0);
  is_only_fec = not (bit_and flags_byte only_fec_mask == 0);
  should_compress_sequence_numbers = not (bit_and flags_byte seq_comp_mask == 0);
  sequence_number_bytes = bit_and flags_byte 3;
  encryption_nonce_bytes = bit_and flags_byte (3 << 2) >> 2;
  handshake_bytes = if bit_and flags_byte handshake_mask == 0 then 0 else 12;
}

-- `ConnectedFooterBytes`: the tag, the flags, the timestamp and the fields that the flags tell.
unfoldable pub connected_footer_bytes : Flags → ℕ
connected_footer_bytes flags =
    2 + 1 + 3 + flags.handshake_bytes + flags.encryption_nonce_bytes + flags.sequence_number_bytes

-- `DatagramIsTruncated`
unfoldable pub datagram_is_truncated : List ℕ → Bool
unfolding connected_footer_bytes
datagram_is_truncated data_bytes =
    let flags = read_flags (at_end data_bytes 2) in
    if ltb (length data_bytes) 3
    then true
    else flags.is_connection_datagram && ltb (length data_bytes) (connected_footer_bytes flags)

-- The flags byte of an assembled datagram.
unfoldable pub write_flags : Bool → Bool → ℕ → ℕ → ℕ
write_flags should_compress attach_handshake sequence_bytes nonce_bytes =
    let flags = if should_compress then bit_or connection_mask seq_comp_mask else connection_mask in
    let flags = bit_or (bit_or flags sequence_bytes) (nonce_bytes << 2) in
    u8 (if attach_handshake then bit_or flags handshake_mask else flags)

-- The fields of a datagram, before its timestamp.
pub record Datagram : Type 0 where
  pub payload : List ℕ
  pub sequence : List ℕ
  pub nonce : List ℕ
  pub handshake : Option (List ℕ)
  pub timestamp : List ℕ
  pub tag : List ℕ
  pub should_compress : Bool

-- The handshake of 12 bytes, if there is one.
abbrev pub handshake_field : Option (List ℕ) → List ℕ
handshake_field none = []
handshake_field (some field) = field

abbrev pub is_some : Option (List ℕ) → Bool
is_some none = false
is_some (some field) = true

unfoldable pub assemble : Datagram → List ℕ
assemble d =
    let flags =
      write_flags d.should_compress (is_some d.handshake) (length d.sequence) (length d.nonce) in
    d.payload
    ++ (d.sequence
        ++ (d.nonce ++ (handshake_field d.handshake ++ (d.timestamp ++ (flags ∷ d.tag)))))
