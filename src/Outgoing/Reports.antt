-- ===== src/Outgoing/Reports.antt =====
-- TonkineseOutgoing.cpp, TonkineseIncoming.h: the peer's reports of its next expected nonce.
use tonk.Common.{
  ℕ, ◌+◌, ◌%◌, ◌^◌, ◌≤◌, ◌<◌, ◌≡◌, if◌then◌else◌, ltb, arith, Bool, true, false, not, ◌⊎◌, inl, inr,
  refl, ap, ◌∙◌,
}
use tonk.Counter.{truncate, add, lt, expand_from_truncated, sign_extend}
use tonk.StrikeRegister.{StrikeRegister, next_expected}
use tonk.Outgoing.{
  Outgoing, AckResult, ignored, out_of_order, encoder_failed, taken, on_acknowledgements,
  update_next_expected_nonce,
}

-- `GetNextExpectedNonce24`, in the 3 bytes that `WriteU24_LE_Min4Bytes` writes of it.
unfoldable pub next_expected_nonce24 : StrikeRegister → ℕ
unfolding next_expected truncate
next_expected_nonce24 r = truncate 24 (next_expected r)

expand24 :
    (e n : ℕ)
    → e < 2 ^ 63
    → n < 2 ^ 63
    → n < e + 2 ^ 23
    → e ≤ n + 2 ^ 23
    → expand_from_truncated 64 24 e (n % 2 ^ 24) ≡ n
unfolding expand_from_truncated sign_extend
expand24 e n he hn ahead behind = ground arith

-- A report, however late, moves the sender's view of the peer to the nonce that the peer expected
-- when it made the report, and never back, if the two are within 2 ^ 23 of each other and below 2 ^ 62.
pub update_next_expected_nonce-max :
    (o : Outgoing) (r : StrikeRegister)
    → o.peer_next_expected_nonce < 2 ^ 62
    → r.largest_sequence < 2 ^ 62
    → r.largest_sequence + 1 < o.peer_next_expected_nonce + 2 ^ 23
    → o.peer_next_expected_nonce ≤ r.largest_sequence + 1 + 2 ^ 23
    → (update_next_expected_nonce o (next_expected_nonce24 r)).peer_next_expected_nonce ≡ (
        if ltb o.peer_next_expected_nonce (r.largest_sequence + 1)
        then r.largest_sequence + 1
        else o.peer_next_expected_nonce)
unfolding update_next_expected_nonce next_expected_nonce24 next_expected truncate add lt
update_next_expected_nonce-max o r he hr ahead behind =
    ground (arith, expand24 o.peer_next_expected_nonce (r.largest_sequence + 1))

-- An acknowledgement moves the sender's view of the peer to the nonce that the peer expected when it wrote the
-- message, or leaves it, and writes no nonce, if the two are within 2 ^ 23 of each other.
pub on_acknowledgements-keeps :
    (o : Outgoing) (r : StrikeRegister) (ack_nonce : ℕ) (encoder_ok : Bool)
    → o.peer_next_expected_nonce < 2 ^ 62
    → r.largest_sequence < 2 ^ 62
    → r.largest_sequence + 1 < o.peer_next_expected_nonce + 2 ^ 23
    → o.peer_next_expected_nonce ≤ r.largest_sequence + 1 + 2 ^ 23
    → let o' = (on_acknowledgements o ack_nonce (next_expected_nonce24 r) encoder_ok).1 in
      (o'.next_nonce ≡ o.next_nonce)
      × ((o'.peer_next_expected_nonce ≡ o.peer_next_expected_nonce)
          ⊎ (o'.peer_next_expected_nonce ≡ r.largest_sequence + 1))
unfolding on_acknowledgements next_expected_nonce24 next_expected truncate add
on_acknowledgements-keeps o r ack_nonce encoder_ok he hr ahead behind =
    let near =
      expand24 o.peer_next_expected_nonce (r.largest_sequence + 1) (omega arith) (omega arith) ahead
        behind in
    branches (lt 64 ack_nonce o.next_acceptable_nonce) (lt 64 recovered o.peer_next_expected_nonce)
      encoder_ok
      (ap (λ (n : ℕ). expand_from_truncated 64 24 o.peer_next_expected_nonce n)
          {y = (r.largest_sequence + 1) % 2 ^ 24} (omega arith)
        ∙ near)
  where
    recovered : ℕ
    recovered = expand_from_truncated 64 24 o.peer_next_expected_nonce (next_expected_nonce24 r)

    noted : Outgoing
    noted = record o { next_acceptable_nonce = add 64 ack_nonce 1 }

    branches :
        (late behind ok : Bool)
        → recovered ≡ r.largest_sequence + 1
        → let answer : AckResult × Outgoing =
            if late
            then (ignored, o)
            else if behind
            then (out_of_order, noted)
            else if not ok
            then (encoder_failed, noted)
            else (taken, record noted { peer_next_expected_nonce = recovered }) in
          (answer.1.next_nonce ≡ o.next_nonce)
          × ((answer.1.peer_next_expected_nonce ≡ o.peer_next_expected_nonce)
              ⊎ (answer.1.peer_next_expected_nonce ≡ r.largest_sequence + 1))
    branches true behind ok e = (refl, inl refl)
    branches false true ok e = (refl, inl refl)
    branches false false false e = (refl, inl refl)
    branches false false true e = (refl, inr e)
