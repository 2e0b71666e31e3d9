-- ===== src/Outgoing.antt =====
-- TonkineseOutgoing.h and TonkineseOutgoing.cpp: the nonce of an outgoing datagram, with as many
-- bytes as the peer needs to recover it, and what the peer reports about the nonces it accepted.
pub mod Nonce
pub mod Reports
mod Tests
use tonk.Common.{ℕ, ◌+◌, ◌-◌, ◌%◌, ◌^◌, ◌*◌, Bool, false, not, if◌then◌else◌, ltb, ◌==◌}
use tonk.Common.Bits.{u32, u64}
use tonk.Counter.{add, lt, truncate, expand_from_truncated}

-- The fields of `SessionOutgoing` and of its `LastAck` that nonces depend on.
pub record Outgoing : Type 0 where
  pub should_compress : Bool
  pub next_nonce : ℕ
  pub peer_next_expected_nonce : ℕ
  pub next_acceptable_nonce : ℕ

-- The datagram's nonce, the number of bytes of its nonce field, and the field.
pub record Sent : Type 0 where
  pub nonce : ℕ
  pub footer_bytes : ℕ
  pub partial_nonce : ℕ

-- `mag` of `writeNonce`: the difference of two `int32_t`, and its absolute value.
unfoldable pub magnitude : ℕ → ℕ → ℕ
magnitude nonce expected =
    let difference = u32 (u32 nonce + 2 ^ 32 - u32 expected) in
    if ltb difference (2 ^ 31) then difference else 2 ^ 32 - difference

-- Whether `mag` is 1 before its sign is dropped.
unfoldable pub is_next : ℕ → ℕ → Bool
is_next nonce expected = u32 (u32 nonce + 2 ^ 32 - u32 expected) == 1

-- The number of bytes that `writeNonce` chooses.
unfoldable pub nonce_bytes : Outgoing → ℕ
unfolding magnitude is_next
nonce_bytes o =
    let mag = magnitude o.next_nonce o.peer_next_expected_nonce + 1 in
    if not o.should_compress
    then 3
    else if is_next o.next_nonce o.peer_next_expected_nonce
    then 0
    else if ltb mag 0x80
    then 1
    else if ltb mag 0x8000
    then 2
    else 3

-- `writeNonce`. The field holds the low bytes of the nonce.
unfoldable pub write_nonce : Outgoing → Sent × Outgoing
unfolding nonce_bytes
write_nonce o =
    let bytes = nonce_bytes o in
    (
      record {
        nonce = o.next_nonce;
        footer_bytes = bytes;
        partial_nonce = u32 o.next_nonce % 2 ^ (8 * bytes);
      },
      record o { next_nonce = u64 (o.next_nonce + 1) },
    )

-- `UpdateNextExpectedNonceFromTimeSync`
unfoldable pub update_next_expected_nonce : Outgoing → ℕ → Outgoing
update_next_expected_nonce o next_expected_nonce24 =
    let expected = o.peer_next_expected_nonce in
    let recovered = expand_from_truncated 64 24 expected next_expected_nonce24 in
    if lt 64 expected recovered then record o { peer_next_expected_nonce = recovered } else o

-- What `OnAcknowledgements` returns: success for an ignored message and for one that it takes, and two errors.
pub data AckResult : Type 0 where
  ignored out_of_order encoder_failed taken : AckResult

-- `OnAcknowledgements` of a message that is long enough, as far as the nonces: the message came in the datagram
-- `ack_nonce`, and `encoder_ok` is whether the encoder takes the data that is attached, if any is.
unfoldable pub on_acknowledgements : Outgoing → ℕ → ℕ → Bool → AckResult × Outgoing
on_acknowledgements o ack_nonce partial_nonce encoder_ok =
    let expected = o.peer_next_expected_nonce in
    let recovered = expand_from_truncated 64 24 expected partial_nonce in
    let noted = record o { next_acceptable_nonce = add 64 ack_nonce 1 } in
    if lt 64 ack_nonce o.next_acceptable_nonce
    then (ignored, o)
    else if lt 64 recovered expected
    then (out_of_order, noted)
    else if not encoder_ok
    then (encoder_failed, noted)
    else (taken, record noted { peer_next_expected_nonce = recovered })

-- `DisableSequenceNumberCompress`
abbrev pub disable_compress : Outgoing → Outgoing
disable_compress o = record o { should_compress = false }
