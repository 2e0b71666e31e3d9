-- ===== src/Link/Reachable.antt =====
-- TonkineseOutgoing.cpp and TonkineseIncoming.cpp: what holds in every state of a connection.
use mathlib.Core.List.{Memᴰ}
use tonk.Common.{
  ℕ, ◌+◌, ◌^◌, ◌≤◌, ◌<◌, ◌≡◌, Bool, List, [], ◌∷◌, arith, All, inl, inr, ◌==◌, if◌then◌else◌,
  Bool-cases, subst, sym,
}
use tonk.StrikeRegister.{StrikeRegister, reset, is_duplicate, accept}
use tonk.StrikeRegister.Accept.{InReach}
use tonk.StrikeRegister.Replay.{IsValid, accept-Accepts}
use tonk.StrikeRegister.History.{reset-IsValid}
use tonk.Receive.{receive, nonce_of}
use tonk.Receive.Nonces.{nonce_of-InReach}
use tonk.Outgoing.{Outgoing, Sent, write_nonce, update_next_expected_nonce}
use tonk.Outgoing.Nonce.{Follows, carry, write_nonce-nonce_of, nonce_bytes-le}
use tonk.Outgoing.Reports.{
  next_expected_nonce24, update_next_expected_nonce-max, on_acknowledgements-keeps,
}
use tonk.Link.{
  Link, initial, send, deliver, hear, acknowledge, IsAuthentic, IsTimely, Step, sends, delivers,
  reports, hears, acknowledges, disables, Reaches, start, after,
}

-- A datagram on the wire has a nonce that was written, in at most 3 bytes.
abbrev WasSent : ℕ → Sent → Type 0
WasSent next s = (s.nonce < next) × (s.footer_bytes ≤ 3)

-- A report was made before now.
abbrev WasReported : ℕ → StrikeRegister → Type 0
WasReported largest r = r.largest_sequence ≤ largest

record Invariant (l : Link) : Type 0 where
  valid : IsValid l.receiver
  small : l.sender.next_nonce ≤ 2 ^ 60
  sent : l.receiver.largest_sequence ≤ l.sender.next_nonce
  reported : l.sender.peer_next_expected_nonce ≤ l.receiver.largest_sequence + 1
  wire : All (WasSent l.sender.next_nonce) l.wire
  made : All (WasReported l.receiver.largest_sequence) l.reports

All-map {ℓ κ μ} :
    {A : Type ℓ} {P : A → Type κ} {Q : A → Type μ} (xs : List A)
    → ((x : A) → P x → Q x)
    → All P xs
    → All Q xs
All-map [] f h = record {}
All-map (x ∷ xs) f h = (f x h.0, All-map xs f h.1)

All-Mem {ℓ κ} : {A : Type ℓ} (P : A → Type κ) {x : A} {xs : List A} → All P xs → Memᴰ x xs → P x
All-Mem P h (Memᴰ.head e) = subst P (sym e) h.0
All-Mem P h (Memᴰ.tail m) = All-Mem P h.1 m

send-Invariant : (l : Link) → Invariant l → l.sender.next_nonce < 2 ^ 60 → Invariant (send l)
unfolding write_nonce
send-Invariant l v h = record {
  valid = v.valid;
  small = ground (arith, v.small);
  sent = ground (arith, v.sent);
  reported = v.reported;
  wire = (
    (ground arith, nonce_bytes-le l.sender),
    All-map l.wire (λ s w. (ground (arith, w.0), w.1)) v.wire,
  );
  made = v.made;
}

accept-Invariant :
    (l : Link) (n : ℕ)
    → Invariant l
    → InReach l.receiver n
    → n < l.sender.next_nonce
    → Invariant (record l { receiver = accept l.receiver n })
accept-Invariant l n v near below =
    let step = accept-Accepts l.receiver n v.valid near in
    let grows : l.receiver.largest_sequence ≤ (accept l.receiver n).largest_sequence =
      ground (arith, step.largest) in
    record {
      valid = step.valid;
      small = v.small;
      sent = ground (arith, step.largest, v.sent);
      reported = omega (arith, v.reported, grows);
      wire = v.wire;
      made = All-map l.reports (λ r h. omega (arith, h, grows)) v.made;
    }

deliver-Invariant :
    (l : Link) (s : Sent) (tag : ℕ → Bool)
    → Invariant l
    → WasSent l.sender.next_nonce s
    → IsAuthentic l s tag
    → Invariant (deliver l s tag)
unfolding receive
deliver-Invariant l s tag v w authentic =
    let r = l.receiver in
    let n = nonce_of r (carry s tag) in
    elim (Bool-cases (is_duplicate r n)) [
      | inl dupe ↦ rw dupe v
      | inr fresh ↦ elim (Bool-cases (tag n)) [
        | inr bad ↦ rw (fresh, bad) v
        | inl good ↦
            elim (nonce_of-InReach r (carry s tag) v.valid w.1 (omega (arith, v.sent, v.small))) [
              | inl dupe ↦ absurd cc
              | inr near ↦
                  rw (fresh, good)
                    (accept-Invariant l n v near.0 (omega (arith, authentic good, w.0)))
            ]
      ]
    ]

hear-fields : (o : Outgoing) (p : ℕ) → (update_next_expected_nonce o p).next_nonce ≡ o.next_nonce
unfolding update_next_expected_nonce
hear-fields o p = ground arith

hear-Invariant :
    (l : Link) (r : StrikeRegister)
    → Invariant l
    → WasReported l.receiver.largest_sequence r
    → IsTimely l r
    → Invariant (hear l r)
hear-Invariant l r v h (ahead, behind) =
    let next = hear-fields l.sender (next_expected_nonce24 r) in
    record {
      valid = v.valid;
      small = omega (arith, next, v.small);
      sent = omega (arith, next, v.sent);
      reported = ground (
        arith,
        update_next_expected_nonce-max l.sender r (omega (arith, v.reported, v.sent, v.small))
            (omega (arith, h, v.sent, v.small)) ahead behind,
        v.reported,
      );
      wire = rw next v.wire;
      made = v.made;
    }

acknowledge-Invariant :
    (l : Link) (r : StrikeRegister) (ack_nonce : ℕ) (encoder_ok : Bool)
    → Invariant l
    → WasReported l.receiver.largest_sequence r
    → IsTimely l r
    → Invariant (acknowledge l r ack_nonce encoder_ok)
acknowledge-Invariant l r ack_nonce encoder_ok v h (ahead, behind) =
    let (next, view) =
      on_acknowledgements-keeps l.sender r ack_nonce encoder_ok
        (omega (arith, v.reported, v.sent, v.small)) (omega (arith, h, v.sent, v.small)) ahead
        behind in
    record {
      valid = v.valid;
      small = omega (arith, next, v.small);
      sent = omega (arith, next, v.sent);
      reported = elim view [
        | inl same ↦ omega (arith, same, v.reported)
        | inr moved ↦ omega (arith, moved, h)
      ];
      wire = rw next v.wire;
      made = v.made;
    }

step-Invariant : (l l' : Link) → Invariant l → Step l l' → Invariant l'
step-Invariant l l' v (sends h) = send-Invariant l v h
step-Invariant l l' v (delivers s tag m authentic) =
    deliver-Invariant l s tag v (All-Mem (WasSent l.sender.next_nonce) v.wire m) authentic
step-Invariant l l' v reports = record {
  valid = v.valid;
  small = v.small;
  sent = v.sent;
  reported = v.reported;
  wire = v.wire;
  made = (omega arith, v.made);
}
step-Invariant l l' v (hears r m timely) =
    hear-Invariant l r v (All-Mem (WasReported l.receiver.largest_sequence) v.made m) timely
step-Invariant l l' v (acknowledges r ack_nonce encoder_ok m timely) =
    acknowledge-Invariant l r ack_nonce encoder_ok v
      (All-Mem (WasReported l.receiver.largest_sequence) v.made m) timely
step-Invariant l l' v disables = record {
  valid = v.valid;
  small = v.small;
  sent = v.sent;
  reported = v.reported;
  wire = v.wire;
  made = v.made;
}

initial-Invariant : (c : Bool) → Invariant (initial c)
unfolding reset
initial-Invariant c = record {
  valid = reset-IsValid 0;
  small = omega arith;
  sent = omega arith;
  reported = omega arith;
  wire = omega arith;
  made = omega arith;
}

reachable-Invariant : (l : Link) → Reaches l → Invariant l
reachable-Invariant _ (start c) = initial-Invariant c
reachable-Invariant _ (after l l' reached step) =
    step-Invariant l l' (reachable-Invariant l reached) step

reachable-Follows :
    (l : Link)
    → Reaches l
    → l.sender.next_nonce + 1 < l.sender.peer_next_expected_nonce + 2 ^ 23
    → Follows l.sender l.receiver
reachable-Follows l reached spread =
    let v = reachable-Invariant l reached in
    record {
      reported = v.reported;
      sent = v.sent;
      expected = omega (arith, v.reported, v.sent);
      spread = spread;
      small = omega (arith, v.small);
    }

-- In every state that one direction of a connection reaches, whatever datagrams and reports were lost, repeated
-- or reordered before, and whenever compression was turned off, if no 16-bit tag matched a wrongly recovered
-- nonce by chance, every report arrived within 2 ^ 23 nonces of what the sender knew, and fewer than
-- 2 ^ 60 nonces were written: with fewer than 2 ^ 23 - 1 nonces written past the last report that arrived, the
-- next datagram, if it arrives first, is received under the nonce that was written, or, where it has
-- no nonce field, under the nonce after the largest that the receiver accepted.
pub reachable-nonce_of :
    (l : Link) (tag : ℕ → Bool)
    → Reaches l
    → l.sender.next_nonce + 1 < l.sender.peer_next_expected_nonce + 2 ^ 23
    → let sent = (write_nonce l.sender).0 in
      nonce_of l.receiver (carry sent tag)
      ≡ (if sent.footer_bytes == 0 then l.receiver.largest_sequence + 1 else sent.nonce)
reachable-nonce_of l tag reached spread =
    write_nonce-nonce_of l.sender l.receiver tag (reachable-Follows l reached spread)

-- In every state that a connection reaches the receiver has accepted no nonce beyond those that were
-- written, and the sender expects no more of it than the nonce after the largest it accepted.
pub reachable-bounds :
    (l : Link)
    → Reaches l
    → (l.receiver.largest_sequence ≤ l.sender.next_nonce)
      × (l.sender.peer_next_expected_nonce ≤ l.receiver.largest_sequence + 1)
reachable-bounds l reached = let v = reachable-Invariant l reached in (v.sent, v.reported)
