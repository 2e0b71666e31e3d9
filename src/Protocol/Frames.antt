-- ===== src/Protocol/Frames.antt =====
-- TonkineseProtocol.h, TonkineseIncoming.cpp: messages in the payload of a datagram, each behind a
-- frame header of 5 bits of type and 11 bits of length.
use Prim.Native.Nat.{bit_and, bit_or}
use tonk.Common.{
  ℕ, zero, suc, ◌+◌, ◌*◌, ◌≤◌, ◌<◌, ◌≡◌, refl, false, if◌then◌else◌, ltb, List, [], ◌∷◌, ◌++◌,
  length, length-append, take, drop, take-append, drop-append, Option, none, some, arith, All,
}
use tonk.Common.Bits.{◌<<◌, ◌>>◌, u8, u16, bit_or_disjoint, bit_and_ones}
use tonk.Serializers.Bytes.{at, join2, join2-eq}

pub record Message : Type 0 where
  pub message_type : ℕ
  pub message_data : List ℕ

-- `kMessageLengthBits` and `kMessageLengthMask`
abbrev pub message_length_bits : ℕ
message_length_bits = 11

abbrev pub message_length_mask : ℕ
message_length_mask = 2047

-- `headerWord` of `WriteMessageFrameHeader`
unfoldable pub header_word : ℕ → ℕ → ℕ
header_word message_type message_bytes =
    u16 (bit_or (message_type << message_length_bits) message_bytes)

-- A message behind its header, which `WriteU16_LE` writes with its low byte first.
unfoldable pub write_message : Message → List ℕ
unfolding header_word
write_message m =
    let word = header_word m.message_type (length m.message_data) in
    u8 word ∷ u8 (word >> 8) ∷ m.message_data

unfoldable pub write_messages : List Message → List ℕ
unfolding write_message
write_messages [] = []
write_messages (m ∷ ms) = write_message m ++ write_messages ms

abbrev pub prepend : ℕ → List ℕ → Option (List Message) → Option (List Message)
prepend message_type message_data none = none
prepend message_type message_data (some ms) =
    some (record { message_type = message_type; message_data = message_data } ∷ ms)

-- The loop of `ProcessDatagram` over the messages, `none` for a truncated one. A round takes two
-- bytes or more, so that the length of the payload is enough fuel.
unfoldable pub read_messages : ℕ → List ℕ → Option (List Message)
read_messages zero payload = some []
read_messages (suc fuel) payload =
    let word = join2 (at payload 1) (at payload 0) in
    let message_bytes = bit_and word message_length_mask in
    let rest = drop 2 payload in
    let later = read_messages fuel (drop message_bytes rest) in
    if ltb (length payload) 2
    then some []
    else if ltb (length rest) message_bytes
    then none
    else prepend (word >> message_length_bits) (take message_bytes rest) later

-- The sizes that the header can hold.
pub record IsValid (m : Message) : Type 0 where
  pub message_type : m.message_type < 32
  pub message_data : length m.message_data < 2048

header_word-eq :
    (m : Message)
    → IsValid m
    → header_word m.message_type (length m.message_data)
      ≡ m.message_type * 2048 + length m.message_data
unfolding header_word
header_word-eq m v = omega (
  arith,
  bit_or_disjoint 11 m.message_type (length m.message_data) v.message_data,
  v.message_type,
  v.message_data,
)

word-eq :
    (m : Message)
    → IsValid m
    → let word = header_word m.message_type (length m.message_data) in
      join2 (u8 (word >> 8)) (u8 word) ≡ m.message_type * 2048 + length m.message_data
word-eq m v =
    let word = header_word m.message_type (length m.message_data) in
    omega (
      arith,
      header_word-eq m v,
      join2-eq (u8 (word >> 8)) (u8 word) (omega arith),
      v.message_type,
      v.message_data,
    )

length-message : (m : Message) → length (write_message m) ≡ length m.message_data + 2
unfolding write_message
length-message m = omega arith

-- One message, whatever follows it.
first_message :
    (m : Message) (rest : List ℕ) (fuel : ℕ)
    → IsValid m
    → read_messages (suc fuel) (write_message m ++ rest)
      ≡ prepend m.message_type m.message_data (read_messages fuel rest)
unfolding read_messages write_message
first_message m rest fuel v =
    let size = length m.message_data in
    let value = m.message_type * 2048 + size in
    let low : bit_and value message_length_mask ≡ size =
      omega (arith, bit_and_ones 11 value, v.message_data) in
    let high : value >> message_length_bits ≡ m.message_type = omega (arith, v.message_data) in
    let enough : ltb (length (m.message_data ++ rest)) size ≡ false =
      ground (arith, length-append m.message_data rest) in
    rw
      (
        word-eq m v,
        low,
        high,
        drop-append m.message_data rest,
        take-append m.message_data rest,
        enough,
      )
      (ground arith)

-- Messages of at most 2047 bytes and of one of the 32 types are read back from a payload, in order,
-- with a fuel of at least the length of the payload.
pub read_messages-write_messages :
    (ms : List Message) (fuel : ℕ)
    → All IsValid ms
    → length (write_messages ms) ≤ fuel
    → read_messages fuel (write_messages ms) ≡ some ms
unfolding write_messages
read_messages-write_messages [] zero v h = unfold read_messages in refl
read_messages-write_messages [] (suc fuel) v h = unfold read_messages in refl
read_messages-write_messages (m ∷ ms) zero v h = absurd (omega arith)
read_messages-write_messages (m ∷ ms) (suc fuel) v h =
    let room = length-append (write_message m) (write_messages ms) in
    rw (
      first_message m (write_messages ms) fuel v.0,
      read_messages-write_messages ms fuel v.1 (omega (arith, room, length-message m)),
    )
