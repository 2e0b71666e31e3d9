-- ===== src/Receive/Once.antt =====
-- `ProcessDatagram` over any sequence of datagrams: no nonce passes twice.
use tonk.Common.{
  ℕ, ◌+◌, ◌*◌, ◌^◌, ◌≤◌, ◌<◌, ◌≡◌, ◌≢◌, refl, true, false, List, [], ◌∷◌, length, arith, ◌⊎◌, inl,
  inr, ap, All, Bool-cases,
}
use tonk.StrikeRegister.{StrikeRegister, is_duplicate, accept, reset}
use tonk.StrikeRegister.Accept.{InReach}
use tonk.StrikeRegister.Replay.{IsValid, Accepts, accept-Accepts}
use tonk.StrikeRegister.History.{reset-IsValid}
use tonk.Receive.{
  Datagram, Outcome, ignored_dupe, bad_checksum, accepted, nonce_of, receive, receive_all,
}
use tonk.Receive.Nonces.{nonce_of-InReach}

-- Every nonce has at most 3 bytes: the flags byte has two bits for their number.
abbrev pub HasNonceBytes : Datagram → Type 0
HasNonceBytes d = d.nonce_bytes ≤ 3

-- No two items are equal.
abbrev pub Distinct : List ℕ → Type 0
Distinct [] = Unit {0}
Distinct (x ∷ xs) = All (λ y. x ≢ y) xs × Distinct xs

-- What one datagram does: it changes nothing and passes no nonce, or it passes a fresh nonce and
-- strikes it.
data Step (r : StrikeRegister) (d : Datagram) : Type 0 where
  drop : (o : Outcome) → receive r d ≡ (o, r) → (o ≡ ignored_dupe) ⊎ (o ≡ bad_checksum) → Step r d
  pass :
      (n : ℕ)
      → receive r d ≡ (accepted n, accept r n)
      → is_duplicate r n ≡ false
      → InReach r n
      → n < r.largest_sequence + 2 ^ 24
      → Step r d

receive-Step :
    (r : StrikeRegister) (d : Datagram)
    → IsValid r
    → HasNonceBytes d
    → r.largest_sequence < 2 ^ 61
    → Step r d
unfolding receive
receive-Step r d v h hl = elim (Bool-cases (is_duplicate r (nonce_of r d))) [
  | inl dupe ↦ drop ignored_dupe (ground arith) (inl refl)
  | inr fresh ↦ elim (Bool-cases (d.tag_matches (nonce_of r d))) [
    | inr bad ↦ drop bad_checksum (ground arith) (inr refl)
    | inl good ↦ elim (nonce_of-InReach r d v h hl) [
      | inl dupe ↦ absurd (cc)
      | inr near ↦ pass (nonce_of r d) (ground arith) fresh near.0 near.1
    ]
  ]
]

abbrev Room : StrikeRegister → List Datagram → Type 0
Room r ds = r.largest_sequence + 2 ^ 24 * length ds < 2 ^ 61

receive_all-drop :
    (r : StrikeRegister) (d : Datagram) (ds : List Datagram) (o : Outcome)
    → receive r d ≡ (o, r)
    → (o ≡ ignored_dupe) ⊎ (o ≡ bad_checksum)
    → receive_all r (d ∷ ds) ≡ receive_all r ds
unfolding receive_all
receive_all-drop r d ds o e (inl dupe) = rw (e, dupe)
receive_all-drop r d ds o e (inr bad) = rw (e, bad)

receive_all-pass :
    (r : StrikeRegister) (d : Datagram) (ds : List Datagram) (n : ℕ)
    → receive r d ≡ (accepted n, accept r n)
    → receive_all r (d ∷ ds) ≡ n ∷ receive_all (accept r n) ds
unfolding receive_all
receive_all-pass r d ds n e = rw e

accept-Room :
    (r : StrikeRegister) (d : Datagram) (ds : List Datagram) (n : ℕ)
    → Accepts r n (accept r n)
    → n < r.largest_sequence + 2 ^ 24
    → Room r (d ∷ ds)
    → Room (accept r n) ds
accept-Room r d ds n step near room = ground (arith, step.largest)

-- A struck number does not pass again.
receive_all-All :
    (r : StrikeRegister) (ds : List Datagram) (t : ℕ)
    → IsValid r
    → All HasNonceBytes ds
    → Room r ds
    → t < 2 ^ 62
    → is_duplicate r t ≡ true
    → All (λ y. t ≢ y) (receive_all r ds)
unfolding receive_all
receive_all-All r [] t v h room ht struck = tt
receive_all-All r (d ∷ ds) t v h room ht struck = elim (receive-Step r d v h.0 (omega arith)) [
  | drop o e dropped ↦
      rw (receive_all-drop r d ds o e dropped)
        (receive_all-All r ds t v h.1 (omega arith) ht struck)
  | pass n e fresh reach near ↦
      let step = accept-Accepts r n v reach in
      rw (receive_all-pass r d ds n e) (
        (λ same. cc (ap (is_duplicate r) same)),
        receive_all-All (accept r n) ds t step.valid h.1 (accept-Room r d ds n step near room) ht
            (ground (arith, step.view t)),
      )
]

receive_all-Distinct_from :
    (r : StrikeRegister) (ds : List Datagram)
    → IsValid r
    → All HasNonceBytes ds
    → Room r ds
    → Distinct (receive_all r ds)
unfolding receive_all
receive_all-Distinct_from r [] v h room = tt
receive_all-Distinct_from r (d ∷ ds) v h room = elim (receive-Step r d v h.0 (omega arith)) [
  | drop o e dropped ↦
      rw (receive_all-drop r d ds o e dropped) (receive_all-Distinct_from r ds v h.1 (omega arith))
  | pass n e fresh reach near ↦
      let step = accept-Accepts r n v reach in
      let room' = accept-Room r d ds n step near room in
      rw (receive_all-pass r d ds n e) (
        receive_all-All (accept r n) ds n step.valid h.1 room' reach.small
            (ground (arith, step.view n)),
        receive_all-Distinct_from (accept r n) ds step.valid h.1 room',
      )
]

-- Over any sequence of fewer than 2 ^ 36 datagrams with nonce fields of at most 3 bytes, whatever
-- these hold and whatever the tags, a register reset to 0 lets no nonce pass twice.
pub receive_all-Distinct :
    (ds : List Datagram)
    → All HasNonceBytes ds
    → length ds < 2 ^ 36
    → Distinct (receive_all (reset 0) ds)
receive_all-Distinct ds h short =
    receive_all-Distinct_from (reset 0) ds (reset-IsValid 0) h (unfold reset in omega arith)
