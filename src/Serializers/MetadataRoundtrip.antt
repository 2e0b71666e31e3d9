-- ===== src/Serializers/MetadataRoundtrip.antt =====
-- SiameseSerializers.h: recovery metadata is read back from the end of a packet.
use mathlib.Core.List.{append_assoc}
use tonk.Common.{
  ℕ, suc, ◌+◌, ◌-◌, ◌^◌, ◌≤◌, ◌<◌, ◌≡◌, ◌∙◌, ap, some, List, [], ◌∷◌, ◌++◌, length, length-append,
  take-append, arith, if◌then◌else◌, ltb, leb, inl, inr, Bool-cases, leb→le, not-leb→lt, lt→not-leb,
  le→not-ltb, lt→ltb,
}
use tonk.Common.Bits.{u8}
use tonk.Serializers.Bytes.{at_end, end1, length-sub-append}
use tonk.Serializers.PacketNum
use tonk.Serializers.PacketCount
use tonk.Serializers.Metadata.{
  ◌>>=◌, RecoveryMetadata, serialize_footer, deserialize_footer, read_sums, read_row,
}

-- What the comments at the fields allow.
pub record IsValid (m : RecoveryMetadata) : Type 0 where
  pub row : m.row < 256
  pub column_start : m.column_start ≤ PacketNum.packet_num_max
  pub some_sum : 1 ≤ m.sum_count
  pub sum_count : m.sum_count ≤ PacketCount.max_packets
  pub ldpc_count : m.ldpc_count ≤ m.sum_count

-- A sum of one packet does not carry a row and an LDPC count.
abbrev pub normal : RecoveryMetadata → RecoveryMetadata
normal m = if leb m.sum_count 1 then record m { row = 0; ldpc_count = 1 } else m

count_step :
    (p : List ℕ) (s : ℕ)
    → s < 2 ^ 15
    → deserialize_footer (p ++ PacketCount.serialize_footer s) ≡ (
        PacketNum.deserialize_footer p >>= λ start.
        read_sums (p ++ PacketCount.serialize_footer s) (length p - start.0) (s + 1) start.1)
unfolding deserialize_footer
count_step p s h = rw (
  PacketCount.footer_roundtrip s p h,
  length-sub-append p (PacketCount.serialize_footer s),
  take-append p (PacketCount.serialize_footer s),
)

num_step :
    (p b : List ℕ) (s c : ℕ)
    → c ≤ PacketNum.packet_num_max
    → (PacketNum.deserialize_footer (p ++ PacketNum.serialize_footer c) >>= λ start.
        read_sums b (length (p ++ PacketNum.serialize_footer c) - start.0) s start.1)
      ≡ read_sums b (length p) s c
num_step p b s c h = rw (
  (PacketNum.packet_num_roundtrip c p [] h).1,
  length-sub-append p (PacketNum.serialize_footer c),
)

row_step :
    (p tail : List ℕ) (row l s c : ℕ)
    → row < 256
    → l ≤ s
    → let q = p ++ u8 row ∷ [] in
      read_row (q ++ tail) (length q) s c l
      ≡ some (
        length (q ++ tail) - length p,
        record { row = row; column_start = c; sum_count = s; ldpc_count = l },
      )
unfolding read_row
row_step p tail row l s c hr le =
    let q = p ++ u8 row ∷ [] in
    let small : u8 row ≡ row = omega arith in
    ground (
      arith,
      ap (λ x. at_end x 0) (take-append q tail),
      end1 p (u8 row),
      small,
      length-append p (u8 row ∷ []),
    )

-- The part of several sums: the row, then the LDPC count.
sums_step :
    (p tail : List ℕ) (row l s c : ℕ)
    → row < 256
    → l < 2 ^ 15
    → l ≤ s
    → 1 < s
    → let q = p ++ u8 row ∷ [] in
      let b = (q ++ PacketCount.serialize_footer l) ++ tail in
      read_sums b (length (q ++ PacketCount.serialize_footer l)) s c
      ≡ some (
        length b - length p,
        record { row = row; column_start = c; sum_count = s; ldpc_count = l },
      )
unfolding read_sums
sums_step p tail row l s c hr hl le more =
    let q = p ++ u8 row ∷ [] in
    let count = PacketCount.serialize_footer l in
    rw
      (
        lt→not-leb s 1 more,
        take-append (q ++ count) tail,
        PacketCount.footer_roundtrip l q hl,
        length-sub-append q count,
        append_assoc q count tail,
      )
      (row_step p (count ++ tail) row l s c hr le)

-- The two fields at the end, read from a buffer that starts with anything.
ends_step :
    (p : List ℕ) (c s : ℕ)
    → c ≤ PacketNum.packet_num_max
    → s < 2 ^ 15
    → let b = p ++ (PacketNum.serialize_footer c ++ PacketCount.serialize_footer s) in
      deserialize_footer b ≡ read_sums b (length p) (s + 1) c
ends_step p c s hc hs =
    rw (← append_assoc p (PacketNum.serialize_footer c) (PacketCount.serialize_footer s))
      (count_step (p ++ PacketNum.serialize_footer c) s hs ∙ num_step p _ (s + 1) c hc)

one_sum :
    (m : RecoveryMetadata) (before : List ℕ)
    → IsValid m
    → m.sum_count ≤ 1
    → deserialize_footer (before ++ serialize_footer m)
      ≡ some (length (serialize_footer m), record m { row = 0; ldpc_count = 1 })
unfolding serialize_footer read_sums
one_sum m before v one =
    let last = m.sum_count - 1 in
    let tail = PacketNum.serialize_footer m.column_start ++ PacketCount.serialize_footer last in
    let back : last + 1 ≡ m.sum_count = omega arith in
    rw (le→not-ltb 1 m.sum_count one) (
      ends_step before m.column_start last v.column_start (omega arith)
      ∙ ground (arith, back, length-append before tail))

more_sums :
    (m : RecoveryMetadata) (before : List ℕ)
    → IsValid m
    → 1 < m.sum_count
    → deserialize_footer (before ++ serialize_footer m) ≡ some (length (serialize_footer m), m)
unfolding serialize_footer
more_sums m before v more =
    let last = m.sum_count - 1 in
    let tail = PacketNum.serialize_footer m.column_start ++ PacketCount.serialize_footer last in
    let q = before ++ u8 m.row ∷ [] in
    let ldpc = PacketCount.serialize_footer m.ldpc_count in
    let shift : before ++ (u8 m.row ∷ ldpc ++ tail) ≡ (q ++ ldpc) ++ tail = simp append_assoc in
    let back : last + 1 ≡ m.sum_count = omega arith in
    rw (lt→ltb 1 m.sum_count more, shift)
      (ends_step (q ++ ldpc) m.column_start last v.column_start (omega arith)
        ∙ ap (λ s. read_sums ((q ++ ldpc) ++ tail) (length (q ++ ldpc)) s m.column_start) back
        ∙ sums_step before tail m.row m.ldpc_count m.sum_count m.column_start v.row (omega arith)
            v.ldpc_count more
        ∙ ap (λ k. some (k, m))
            (omega (arith, ap length shift, length-append before (u8 m.row ∷ ldpc ++ tail))))

-- Metadata within the limits of its fields is read back from the end of a packet, whatever stands
-- before it, by the number of bytes written; of a sum of one packet the row reads as 0 and the LDPC
-- count as 1.
pub metadata_roundtrip :
    (m : RecoveryMetadata) (before : List ℕ)
    → IsValid m
    → deserialize_footer (before ++ serialize_footer m)
      ≡ some (length (serialize_footer m), normal m)
metadata_roundtrip m before v = elim (Bool-cases (leb m.sum_count 1)) [
  | inl one ↦ rw one (one_sum m before v (leb→le m.sum_count 1 one))
  | inr more ↦ rw more (more_sums m before v (not-leb→lt m.sum_count 1 more))
]

-- The sizes of the two fields, by their values.
count_size : (n : ℕ) → length (PacketCount.serialize_footer n) ≡ (if leb n 127 then 1 else 2)
unfolding PacketCount.serialize_footer
count_size n = ground arith

num_size :
    (n : ℕ)
    → length (PacketNum.serialize_footer n)
      ≡ (if leb n 0x7f then 1 else if leb n 0x3fff then 2 else 3)
unfolding PacketNum.serialize_footer
num_size n = ground arith

-- The lengths of the parts.
length-metadata :
    (m : RecoveryMetadata)
    → length (serialize_footer m)
      ≡ (if ltb 1 m.sum_count then suc (length (PacketCount.serialize_footer m.ldpc_count)) else 0)
        + (length (PacketNum.serialize_footer m.column_start)
            + length (PacketCount.serialize_footer (m.sum_count - 1)))
unfolding serialize_footer
length-metadata m =
    let num = PacketNum.serialize_footer m.column_start in
    let count = PacketCount.serialize_footer (m.sum_count - 1) in
    ground (
      arith,
      length-append num count,
      length-append (u8 m.row ∷ PacketCount.serialize_footer m.ldpc_count) (num ++ count),
    )

-- The metadata takes 2 to 8 bytes: one or two for the sum count and up to three for the column,
-- and, with more than one sum, one for the row and one or two for the LDPC count.
pub metadata_length :
    (m : RecoveryMetadata)
    → let ldpc : ℕ = if leb m.ldpc_count 127 then 1 else 2 in
      let column : ℕ =
        if leb m.column_start 0x7f then 1 else if leb m.column_start 0x3fff then 2 else 3 in
      let sums : ℕ = if leb (m.sum_count - 1) 127 then 1 else 2 in
      (length (serialize_footer m) ≡ (if ltb 1 m.sum_count then 1 + ldpc else 0) + column + sums)
      × (2 ≤ length (serialize_footer m))
      × (length (serialize_footer m) ≤ 8)
metadata_length m =
    let all = length-metadata m in
    let ldpc = count_size m.ldpc_count in
    let num = num_size m.column_start in
    let count = count_size (m.sum_count - 1) in
    (
      ground (arith, all, ldpc, num, count),
      ground (arith, all, ldpc, num, count),
      ground (arith, all, ldpc, num, count),
    )
