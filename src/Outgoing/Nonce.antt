-- ===== src/Outgoing/Nonce.antt =====
-- TonkineseOutgoing.cpp and TonkineseIncoming.cpp: a nonce that one side wrote is the one that the
-- other side recovers.
use tonk.Common.{ℕ, ◌+◌, ◌-◌, ◌^◌, ◌*◌, ◌≤◌, ◌<◌, ◌≡◌, Bool, true, if◌then◌else◌, ltb, ◌==◌, arith}
use tonk.Counter.{truncate, add}
use tonk.Counter.Expand.{IsNear, counter_expand-truncate}
use tonk.StrikeRegister.{StrikeRegister, expand, next_expected}
use tonk.Receive.{Datagram, nonce_of}
use tonk.Outgoing.{Outgoing, Sent, magnitude, is_next, nonce_bytes, write_nonce}

-- The peer has accepted no nonce that was not sent, and everything that it reported; the field can
-- span the nonces that it may not know yet.
pub record Follows (o : Outgoing) (r : StrikeRegister) : Type 0 where
  pub reported : o.peer_next_expected_nonce ≤ r.largest_sequence + 1
  pub sent : r.largest_sequence ≤ o.next_nonce
  pub expected : o.peer_next_expected_nonce ≤ o.next_nonce + 1
  pub spread : o.next_nonce + 1 < o.peer_next_expected_nonce + 2 ^ 23
  pub small : o.next_nonce < 2 ^ 63

-- The datagram that carries a nonce.
abbrev pub carry : Sent → (ℕ → Bool) → Datagram
carry s tag = record {
  nonce_bytes = s.footer_bytes;
  partial_nonce = s.partial_nonce;
  tag_matches = tag;
}

magnitude-Follows :
    (o : Outgoing) (r : StrikeRegister)
    → Follows o r
    → magnitude o.next_nonce o.peer_next_expected_nonce ≡ (
        if ltb o.next_nonce o.peer_next_expected_nonce
        then 1
        else o.next_nonce - o.peer_next_expected_nonce)
unfolding magnitude
magnitude-Follows o r f = ground arith

nonce_bytes-IsNear :
    (o : Outgoing) (r : StrikeRegister)
    → Follows o r
    → 1 ≤ nonce_bytes o
    → IsNear (8 * nonce_bytes o) r.largest_sequence o.next_nonce
unfolding nonce_bytes
nonce_bytes-IsNear o r f h = ground (arith, magnitude-Follows o r f)

-- The field holds the low bytes, at most 3 of them.
partial-truncate :
    (o : Outgoing) → (write_nonce o).0.partial_nonce ≡ truncate (8 * nonce_bytes o) o.next_nonce
unfolding write_nonce nonce_bytes truncate
partial-truncate o = ground arith

pub nonce_bytes-le : (o : Outgoing) → nonce_bytes o ≤ 3
unfolding nonce_bytes
nonce_bytes-le o = ground arith

expand-written :
    (o : Outgoing) (r : StrikeRegister)
    → Follows o r
    → 1 ≤ nonce_bytes o
    → expand r (write_nonce o).0.partial_nonce (nonce_bytes o) ≡ o.next_nonce
unfolding expand
expand-written o r f h = rw (partial-truncate o) (
    counter_expand-truncate (nonce_bytes o) r.largest_sequence o.next_nonce h
      (omega (arith, nonce_bytes-le o)) (omega (arith, f.sent, f.small)) (omega (arith, f.small))
      (nonce_bytes-IsNear o r f h))

-- With fewer than 2 ^ 23 - 1 nonces past the one that the peer last reported to expect, and all of
-- them below 2 ^ 63: a peer that has accepted no nonce beyond the next one, and everything up to its
-- report, recovers the nonce that `writeNonce` wrote from its 1 to 3 bytes, wherever its largest
-- nonce stands between the two. Of a datagram without a nonce field it takes the nonce after its
-- largest one.
pub write_nonce-nonce_of :
    (o : Outgoing) (r : StrikeRegister) (tag : ℕ → Bool)
    → Follows o r
    → let sent = (write_nonce o).0 in
      nonce_of r (carry sent tag)
      ≡ (if sent.footer_bytes == 0 then r.largest_sequence + 1 else sent.nonce)
unfolding write_nonce nonce_of next_expected add
write_nonce-nonce_of o r tag f = ground (arith, expand-written o r f, f.sent, f.small)

-- For the nonce after the one that the peer expects, with compression on, `writeNonce` leaves the
-- field out. A peer that has accepted nothing since its report recovers the nonce before it, and a
-- peer that has accepted that one the nonce itself.
pub write_nonce-left_out :
    (o : Outgoing) (r : StrikeRegister) (tag : ℕ → Bool)
    → Follows o r
    → o.should_compress ≡ true
    → o.next_nonce ≡ o.peer_next_expected_nonce + 1
    → r.largest_sequence ≤ o.peer_next_expected_nonce
    → let sent = (write_nonce o).0 in
      (sent.footer_bytes ≡ 0)
      × (nonce_of r (carry sent tag) ≡ (
          if r.largest_sequence == o.peer_next_expected_nonce
          then o.next_nonce
          else o.next_nonce - 1))
unfolding write_nonce nonce_bytes is_next nonce_of next_expected add
write_nonce-left_out o r tag f on next low =
    (ground (arith, f.small), ground (arith, f.reported, f.small))
