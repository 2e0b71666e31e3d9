-- ===== src/Protocol/Footer.antt =====
-- TonkineseProtocol.h: the footer that was written is the one that is read.
use tonk.Common.{
  ℕ, zero, suc, ◌+◌, ◌-◌, ◌≤◌, ◌≡◌, refl, ◌∙◌, ap, Bool, true, false, if◌then◌else◌, List, ◌∷◌,
  ◌++◌, length, length-append, arith, take, take-append, get_or,
}
use mathlib.Core.List.{append_assoc}
use tonk.Serializers.Bytes.{at_end, at_end-append}
use tonk.Protocol.{
  read_flags, write_flags, connected_footer_bytes, datagram_is_truncated, Datagram, assemble,
  handshake_field, is_some,
}

-- A property of the numbers up to 3.
four {ℓ} : (P : ℕ → Type ℓ) → P 0 → P 1 → P 2 → P 3 → (n : ℕ) → n ≤ 3 → P n
four P a b c d zero h = a
four P a b c d (suc zero) h = b
four P a b c d (suc (suc zero)) h = c
four P a b c d (suc (suc (suc zero))) h = d
four P a b c d (suc (suc (suc (suc n)))) h = absurd (omega arith)

abbrev Reads : Bool → Bool → ℕ → ℕ → Type 0
Reads compress handshake s n = read_flags (write_flags compress handshake s n) ≡ record {
  is_connection_datagram = true;
  is_only_fec = false;
  should_compress_sequence_numbers = compress;
  sequence_number_bytes = s;
  encryption_nonce_bytes = n;
  handshake_bytes = if handshake then 12 else 0;
}

-- The four numbers of nonce bytes, at one number of sequence bytes.
row :
    (c h : Bool) (s : ℕ)
    → Reads c h s 0
    → Reads c h s 1
    → Reads c h s 2
    → Reads c h s 3
    → (n : ℕ) → n ≤ 3
    → Reads c h s n
row c h s = four (Reads c h s)

read_flags-write_flags : (c h : Bool) (s n : ℕ) → s ≤ 3 → n ≤ 3 → Reads c h s n
unfolding read_flags write_flags
read_flags-write_flags true true s n p q =
    four (λ s. Reads true true s n) (row true true 0 refl refl refl refl n q)
      (row true true 1 refl refl refl refl n q) (row true true 2 refl refl refl refl n q)
      (row true true 3 refl refl refl refl n q) s p
read_flags-write_flags true false s n p q =
    four (λ s. Reads true false s n) (row true false 0 refl refl refl refl n q)
      (row true false 1 refl refl refl refl n q) (row true false 2 refl refl refl refl n q)
      (row true false 3 refl refl refl refl n q) s p
read_flags-write_flags false true s n p q =
    four (λ s. Reads false true s n) (row false true 0 refl refl refl refl n q)
      (row false true 1 refl refl refl refl n q) (row false true 2 refl refl refl refl n q)
      (row false true 3 refl refl refl refl n q) s p
read_flags-write_flags false false s n p q =
    four (λ s. Reads false false s n) (row false false 0 refl refl refl refl n q)
      (row false false 1 refl refl refl refl n q) (row false false 2 refl refl refl refl n q)
      (row false false 3 refl refl refl refl n q) s p

-- The sizes of the fields of a datagram, as the flags can tell them.
pub record IsValid (d : Datagram) : Type 0 where
  pub sequence : length d.sequence ≤ 3
  pub nonce : length d.nonce ≤ 3
  pub handshake : length (handshake_field d.handshake) ≡ (if is_some d.handshake then 12 else 0)
  pub timestamp : length d.timestamp ≡ 3
  pub tag : length d.tag ≡ 2

length-assemble :
    (d : Datagram)
    → IsValid d
    → length (assemble d)
      ≡ length d.payload
        + length d.sequence
        + length d.nonce
        + (if is_some d.handshake then 12 else 0)
        + 6
unfolding assemble
length-assemble d v =
    let flags =
      write_flags d.should_compress (is_some d.handshake) (length d.sequence) (length d.nonce) in
    let rest3 = d.timestamp ++ flags ∷ d.tag in
    let rest2 = handshake_field d.handshake ++ rest3 in
    let rest1 = d.nonce ++ rest2 in
    omega (
      arith,
      length-append d.payload (d.sequence ++ rest1),
      length-append d.sequence rest1,
      length-append d.nonce rest2,
      length-append (handshake_field d.handshake) rest3,
      length-append d.timestamp (flags ∷ d.tag),
      v.handshake,
      v.timestamp,
      v.tag,
    )

third : (x : ℕ) (ys : List ℕ) → length ys ≡ 2 → at_end (x ∷ ys) 2 ≡ x
unfolding at_end
third x ys h = ap (λ k. get_or (x ∷ ys) k 0) {x = suc (length ys) - 3} {y = 0} (omega (arith, h))

flags-assemble :
    (d : Datagram)
    → IsValid d
    → at_end (assemble d) 2
      ≡ write_flags d.should_compress (is_some d.handshake) (length d.sequence) (length d.nonce)
unfolding assemble
flags-assemble d v =
    let flags =
      write_flags d.should_compress (is_some d.handshake) (length d.sequence) (length d.nonce) in
    let front =
      d.payload ++ (d.sequence ++ (d.nonce ++ (handshake_field d.handshake ++ d.timestamp))) in
    let regroup : assemble d ≡ front ++ flags ∷ d.tag = simp append_assoc in
    rw regroup
      (at_end-append front (flags ∷ d.tag) 2 (omega (arith, v.tag)) ∙ third flags d.tag v.tag)

take-assemble : (d : Datagram) → take (length d.payload) (assemble d) ≡ d.payload
unfolding assemble
take-assemble d = take-append d.payload _

-- The payload of `ProcessDatagram`: what stands before the footer that the flags tell.
unfoldable pub message_payload : List ℕ → List ℕ
message_payload data_bytes =
    take (length data_bytes - connected_footer_bytes (read_flags (at_end data_bytes 2))) data_bytes

-- An assembled datagram is not truncated, its flags tell its fields, and the payload that
-- `ProcessDatagram` finds by the length of the footer is the one that was assembled.
pub assemble-payload :
    (d : Datagram)
    → IsValid d
    → (datagram_is_truncated (assemble d) ≡ false)
      × Reads d.should_compress (is_some d.handshake) (length d.sequence) (length d.nonce)
      × (message_payload (assemble d) ≡ d.payload)
unfolding message_payload datagram_is_truncated connected_footer_bytes
assemble-payload d v =
    let flags = flags-assemble d v in
    let reads =
      read_flags-write_flags d.should_compress (is_some d.handshake) (length d.sequence)
        (length d.nonce) v.sequence v.nonce in
    let size = length-assemble d v in
    (
      rw (flags, reads) (ground (arith, size)),
      reads,
      rw (flags, reads, size)
          (ap (λ k. take k (assemble d)) {y = length d.payload} (omega arith) ∙ take-assemble d),
    )
