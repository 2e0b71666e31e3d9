-- ===== src/Outgoing/Tests.antt =====
-- Nonces written, lost and reported, and the theorems at concrete states.
use tonk.Common.{◌+◌, ◌≡◌, refl, true, if◌then◌else◌, ltb, ◌==◌, arith}
use tonk.StrikeRegister.{StrikeRegister, reset}
use tonk.Receive.{nonce_of}
use tonk.Outgoing.{Outgoing, write_nonce, update_next_expected_nonce}
use tonk.Outgoing.Nonce.{Follows, carry, write_nonce-nonce_of, write_nonce-left_out}
use tonk.Outgoing.Reports.{next_expected_nonce24, update_next_expected_nonce-max}

abbrev sender : Outgoing
sender = record {
  should_compress = true;
  next_nonce = 70126;
  peer_next_expected_nonce = 70000;
  next_acceptable_nonce = 0;
}

abbrev peer : StrikeRegister
peer = reset 69999

peer-Follows : Follows sender peer
unfolding reset
peer-Follows = record {
  reported = omega arith;
  sent = omega arith;
  expected = omega arith;
  spread = omega arith;
  small = omega arith;
}

write_nonce-nonce_of_example :
    let sent = (write_nonce sender).0 in
    nonce_of peer (carry sent (λ n. true))
    ≡ (if sent.footer_bytes == 0 then peer.largest_sequence + 1 else sent.nonce)
write_nonce-nonce_of_example = write_nonce-nonce_of sender peer (λ n. true) peer-Follows

abbrev ahead : Outgoing
ahead = record {
  should_compress = true;
  next_nonce = 70001;
  peer_next_expected_nonce = 70000;
  next_acceptable_nonce = 0;
}

ahead-Follows : Follows ahead peer
unfolding reset
ahead-Follows = record {
  reported = omega arith;
  sent = omega arith;
  expected = omega arith;
  spread = omega arith;
  small = omega arith;
}

write_nonce-left_out_example :
    let sent = (write_nonce ahead).0 in
    (sent.footer_bytes ≡ 0)
    × (nonce_of peer (carry sent (λ n. true))
        ≡ (if peer.largest_sequence == 70000 then 70001 else 70000))
write_nonce-left_out_example =
    write_nonce-left_out ahead peer (λ n. true) ahead-Follows refl refl
      (unfold reset in omega arith)

update_next_expected_nonce-max_example :
    (update_next_expected_nonce sender
      (next_expected_nonce24 (reset 70050))).peer_next_expected_nonce
    ≡ (if ltb 70000 ((reset 70050).largest_sequence + 1)
        then (reset 70050).largest_sequence + 1
        else 70000)
update_next_expected_nonce-max_example =
    update_next_expected_nonce-max sender (reset 70050) (omega arith) (unfold reset in omega arith)
      (unfold reset in omega arith) (unfold reset in omega arith)
