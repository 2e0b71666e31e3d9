-- ===== src/Link.antt =====
-- TonkineseOutgoing.cpp and TonkineseIncoming.cpp together: one direction of a connection. The network
-- may lose, repeat and reorder datagrams and reports.
pub mod Reachable
mod Tests
use mathlib.Core.List.{Memᴰ}
use tonk.Common.{ℕ, ◌+◌, ◌*◌, ◌^◌, ◌≤◌, ◌<◌, ◌≡◌, Bool, true, List, [], ◌∷◌}
use tonk.Counter.{truncate}
use tonk.StrikeRegister.{StrikeRegister, reset}
use tonk.Receive.{Datagram, nonce_of, receive}
use tonk.Outgoing.{
  Outgoing, Sent, write_nonce, update_next_expected_nonce, on_acknowledgements, disable_compress,
}
use tonk.Outgoing.Nonce.{carry}
use tonk.Outgoing.Reports.{next_expected_nonce24}

-- Both sides, the nonces that were sent, and the states of the receiver that were reported.
pub record Link : Type 0 where
  pub sender : Outgoing
  pub receiver : StrikeRegister
  pub wire : List Sent
  pub reports : List StrikeRegister

abbrev pub initial : Bool → Link
initial should_compress = record {
  sender = record {
    should_compress = should_compress;
    next_nonce = 0;
    peer_next_expected_nonce = 0;
    next_acceptable_nonce = 0;
  };
  receiver = reset 0;
  wire = [];
  reports = [];
}

abbrev pub send : Link → Link
send l = let w = write_nonce l.sender in record l { sender = w.1; wire = w.0 ∷ l.wire }

abbrev pub deliver : Link → Sent → (ℕ → Bool) → Link
deliver l s tag = record l { receiver = (receive l.receiver (carry s tag)).1 }

abbrev pub report : Link → Link
report l = record l { reports = l.receiver ∷ l.reports }

abbrev pub hear : Link → StrikeRegister → Link
hear l r = record l { sender = update_next_expected_nonce l.sender (next_expected_nonce24 r) }

abbrev pub acknowledge : Link → StrikeRegister → ℕ → Bool → Link
acknowledge l r ack_nonce encoder_ok = record l {
  sender = (on_acknowledgements l.sender ack_nonce (next_expected_nonce24 r) encoder_ok).1;
}

-- The sender's own side rejected a datagram of the other direction.
abbrev pub disable : Link → Link
disable l = record l { sender = disable_compress l.sender }

-- The tag of 16 bits did not match by chance: if it matches the nonce that the receiver recovers, this is the
-- nonce of the datagram.
abbrev pub IsAuthentic : Link → Sent → (ℕ → Bool) → Type 0
IsAuthentic l s tag =
    let nonce = nonce_of l.receiver (carry s tag) in tag nonce ≡ true → nonce ≡ s.nonce

-- The peer's next expected nonce in a report is within 2 ^ 23 of what the sender knows.
abbrev pub IsTimely : Link → StrikeRegister → Type 0
IsTimely l r =
    (r.largest_sequence + 1 < l.sender.peer_next_expected_nonce + 2 ^ 23)
    × (l.sender.peer_next_expected_nonce ≤ r.largest_sequence + 1 + 2 ^ 23)

-- A nonce is written, a datagram arrives, a report is made, a report arrives with a time synchronization
-- or with an acknowledgement, or the compression of nonces is turned off.
pub data Step (l : Link) : Link → Type 0 where
  sends : l.sender.next_nonce < 2 ^ 60 → Step l (send l)
  delivers :
      (s : Sent) (tag : ℕ → Bool) → Memᴰ s l.wire → IsAuthentic l s tag → Step l (deliver l s tag)
  reports : Step l (report l)
  hears : (r : StrikeRegister) → Memᴰ r l.reports → IsTimely l r → Step l (hear l r)
  acknowledges :
      (r : StrikeRegister) (ack_nonce : ℕ) (encoder_ok : Bool)
      → Memᴰ r l.reports
      → IsTimely l r
      → Step l (acknowledge l r ack_nonce encoder_ok)
  disables : Step l (disable l)

-- From new sessions, by any steps.
pub data Reaches : Link → Type 0 where
  start : (should_compress : Bool) → Reaches (initial should_compress)
  after : (l l' : Link) → Reaches l → Step l l' → Reaches l'
