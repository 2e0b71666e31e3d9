-- ===== src/Lib.antt =====
-- Tonk: a reliable UDP transport, with the Siamese erasure code below it.
-- A session sends encrypted datagrams. Each carries a truncated nonce and a truncated timestamp. The
-- receiver expands the nonce around the largest one it accepted, rejects replays, checks the tag and
-- then strikes the nonce; it turns the timestamp into a one-way delay and a clock difference. The
-- Siamese layer numbers the packets of a flow and sends recovery packets and negative
-- acknowledgements, whose fields have lengths of their own.
--
-- Files, each over the one above it where they interact:
--   Counter: Counter.h. Counters of any width that roll over, comparison in half of the range,
--     truncation and expansion. A counter is a number below 2 ^ bits, and the width an argument.
--   StrikeRegister: StrikeRegister.h, StrikeRegister.cpp. The sliding window of 4096 bits as a list
--     of 64 words, its base and its rotation. `accept` is cut into `slide` and `strike`.
--   Receive: TonkineseIncoming.cpp, SessionIncoming::ProcessDatagram from the read of the nonce to
--     its acceptance. A datagram carries the test of its tag as a function of the nonce,
--     about which nothing is supposed.
--   Cipher: SimpleCipher.h, SimpleCipher.cpp, the loops without SIMD over a list of bytes, whose
--     numbers of rounds come from its length. The hash t1ha is a parameter of the tag.
--   Outgoing: TonkineseOutgoing.h, TonkineseOutgoing.cpp, writeNonce, UpdateNextExpectedNonceFromTimeSync
--     and OnAcknowledgements as far as the nonces, with GetNextExpectedNonce24 of TonkineseIncoming.h.
--   Link: one direction of a connection: the two sides, the datagrams written and the reports made,
--     and a step relation in which any of them arrives, late, twice or never, a report with a time
--     synchronization or an acknowledgement, and in which compression may be turned off at any time.
--     A delivery supposes that the 16-bit tag did not match a wrongly recovered nonce by chance, and
--     a report that it arrives within 2 ^ 23 nonces of what the sender knows.
--   TimeSync: TimeSync.h, TimeSync.cpp. The windowed minimum of three samples and the synchronizer.
--     A `uint32_t` or a `Counter24` keeps its wrap-around. Atomic fields are plain fields: each call
--     is one step.
--   Serializers: SiameseSerializers.h, RecoveryMetadata of SiameseCommon.h. Every field is written to
--     a list of bytes and read from one; a footer is read from the end of the list. The caller's
--     bufferSpaceBytes is the length of the list, and -1 is `none`. The byte streams are a buffer and
--     an offset.
--   Columns: SiameseCommon.h, column numbers, the values of rows and columns, operation codes of rows.
--   Protocol: TonkineseProtocol.h, TonkineseProtocol.cpp, the flags byte, the footer as
--     SessionOutgoing::sendQueuedDatagram assembles it, message frames, handshake fields. Encryption
--     of the payload is left out: an assembled datagram has its payload in the clear.
--   Maps: TonkineseMaps.h, TonkineseMaps.cpp. The table of LightHashMap is a list whose nodes may be
--     `none`; keys and connections are numbers, and the hasher is a parameter. Walk, Place, Take,
--     Rehash, Grow, NoGrow and Insert carry the insertion, Hole, Erase and Terminates the erasure,
--     View and History what a caller sees. Addresses, Cache and Requests are ConnectionAddrMap, with
--     asio's addresses as numbers; Ids, Vacancies, Assign, Unassign and IdReachable ConnectionIdMap.
--     The walk down a table has the table's length as fuel, and so has `close_hole`, which also says
--     whether it ended; the search for an id has the number of ids; a lock makes a call one step.
--   BitSet: PacketAllocator.h, CustomBitSet of one word of 64 bits.
--   Originals: SiameseCommon.h, SiameseCommon.cpp, the packets that both sides of the erasure code keep.
--   Decoder: SiameseDecoder.h, SiameseDecoder.cpp. The window as a list of subwindows of 64 places, each
--     with the word of its received ones and their number; AddOriginal, Get and the searches. The
--     loop over subwindows runs once for each that is in use; that of GenerateAcknowledgement
--     has one turn more than the window has elements as fuel, and each turn but the last
--     moves at least two elements on.
--   Encoder: SiameseEncoder.h, SiameseEncoder.cpp. Reading has the acknowledgement as it is read, Losses
--     the iterator over its losses, whose loop has fuel of its caller's choice. Window is
--     EncoderPacketWindow with Add, RemoveBefore, StartNewWindow and Encoder::Get, Retransmit the choice
--     of the packet that is sent again; the clock and the retransmit timeout are arguments.
--   Acknowledgements: the message from the decoder's window to the encoder's iterator.
--   Common: comparisons, lists, bit operations on natural numbers, and their lemmas.
--
-- Numbers are natural numbers and a word of w bits is taken modulo 2 ^ w where the code can wrap. The
-- loops run over a list, or over a number of rounds that the code fixes before them. The loop over
-- message frames runs on fuel, of which the number of bytes is enough, since a frame has two or more.
--
-- Not modelled: sockets and timers (asio), compression (zstd), the recovery packets of the erasure code,
-- the running sums of both of its windows and the removal of elements, the estimate of the retransmit
-- timeout, the outgoing queues, the handling of each message, NAT traversal, allocation. A
-- writer that is given a buffer too small for its field has no defined behaviour in the code, so a
-- writer here gives the bytes.
pub mod Common
pub mod BitSet
pub mod Counter
pub mod StrikeRegister
pub mod Receive
pub mod Maps
pub mod Cipher
pub mod Outgoing
pub mod Link
pub mod TimeSync
pub mod Serializers
pub mod Columns
pub mod Originals
pub mod Decoder
pub mod Encoder
pub mod Acknowledgements
pub mod Protocol
