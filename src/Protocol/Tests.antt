-- ===== src/Protocol/Tests.antt =====
-- A datagram, messages and handshakes, and the theorems at them.
use tonk.Common.{ℕ, ◌≡◌, refl, true, false, List, [], ◌∷◌, replicate, some, arith}
use tonk.Protocol.{Datagram, read_flags, write_flags, datagram_is_truncated, assemble}
use tonk.Protocol.Footer.{assemble-payload, message_payload}
use tonk.Protocol.Footer as Footer
use tonk.Protocol.Frames.{
  Message, write_messages, read_messages, write_message, header_word, read_messages-write_messages,
}

abbrev datagram : Datagram
datagram = record {
  payload = 1 ∷ 2 ∷ 3 ∷ [];
  sequence = 7 ∷ 8 ∷ [];
  nonce = 9 ∷ [];
  handshake = some (replicate 12 0x55);
  timestamp = 10 ∷ 11 ∷ 12 ∷ [];
  tag = 13 ∷ 14 ∷ [];
  should_compress = true;
}

datagram-IsValid : Footer.IsValid datagram
datagram-IsValid = record {
  sequence = omega arith;
  nonce = omega arith;
  handshake = refl;
  timestamp = refl;
  tag = refl;
}

assemble-payload_example :
    (datagram_is_truncated (assemble datagram) ≡ false)
    × (read_flags (write_flags true true 2 1) ≡ record {
      is_connection_datagram = true;
      is_only_fec = false;
      should_compress_sequence_numbers = true;
      sequence_number_bytes = 2;
      encryption_nonce_bytes = 1;
      handshake_bytes = 12;
    })
    × (message_payload (assemble datagram) ≡ 1 ∷ 2 ∷ 3 ∷ [])
assemble-payload_example = assemble-payload datagram datagram-IsValid

abbrev messages : List Message
messages =
    record { message_type = 6; message_data = 1 ∷ 2 ∷ [] }
    ∷ record { message_type = 31; message_data = [] }
    ∷ []

messages_bytes : write_messages messages ≡ 2 ∷ 0x30 ∷ 1 ∷ 2 ∷ 0 ∷ 0xf8 ∷ []
unfolding write_messages write_message header_word
messages_bytes = refl

read_messages-write_messages_example : read_messages 6 (write_messages messages) ≡ some messages
read_messages-write_messages_example =
    read_messages-write_messages messages 6
      (
        record { message_type = omega arith; message_data = omega arith },
        (record { message_type = omega arith; message_data = omega arith }, record {}),
      )
      (unfold write_messages write_message header_word in omega arith)

abbrev field : List ℕ
field = replicate 12 0xff
