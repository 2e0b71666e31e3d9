-- ===== src/Link/Tests.antt =====
-- A short connection, and what holds in every state of one, at its last state.
use mathlib.Core.List.{Memᴰ}
use tonk.Common.{ℕ, ◌+◌, ◌^◌, ◌<◌, ◌≡◌, refl, Bool, true, arith, ==→eq, if◌then◌else◌, ◌==◌}
use tonk.Receive.{nonce_of}
use tonk.Outgoing.{Sent, write_nonce, update_next_expected_nonce}
use tonk.Outgoing.Nonce.{carry}
use tonk.Link.{
  Link, initial, send, deliver, report, hear, sends, delivers, reports, hears, Reaches, start,
  after,
}
use tonk.Link.Reachable.{reachable-nonce_of, reachable-bounds}

abbrev first : Sent
first = (write_nonce (initial true).sender).0

abbrev own_tag : ℕ → Bool
own_tag n = n == first.nonce

-- The first datagram arrives, the receiver reports, and the report arrives.
abbrev received : Link
received = deliver (send (initial true)) first own_tag

abbrev heard : Link
heard = hear (report received) received.receiver

received-Reaches : Reaches received
received-Reaches =
    after (send (initial true)) received
      (after (initial true) (send (initial true)) (start true) (sends (omega arith)))
      (delivers first own_tag (Memᴰ.head refl)
        (λ h. ==→eq (nonce_of (send (initial true)).receiver (carry first own_tag)) first.nonce h))

heard-Reaches : Reaches heard
unfolding write_nonce
heard-Reaches =
    let bounds = reachable-bounds received received-Reaches in
    after (report received) heard (after received (report received) received-Reaches reports)
      (hears received.receiver (Memᴰ.head refl) (omega (arith, bounds.0), omega (arith, bounds.1)))

-- Few nonces are written, so that the report spans them.
heard-spread : heard.sender.next_nonce + 1 < heard.sender.peer_next_expected_nonce + 2 ^ 23
unfolding write_nonce update_next_expected_nonce
heard-spread = ground arith

reachable-nonce_of_example :
    let sent = (write_nonce heard.sender).0 in
    nonce_of heard.receiver (carry sent own_tag)
    ≡ (if sent.footer_bytes == 0 then heard.receiver.largest_sequence + 1 else sent.nonce)
reachable-nonce_of_example = reachable-nonce_of heard own_tag heard-Reaches heard-spread
