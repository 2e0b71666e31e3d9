-- ===== src/Serializers/LossRoundtrip.antt =====
-- SiameseSerializers.h: a loss range is read back from the front of a buffer.
use Prim.Native.Nat.{bit_and, bit_or}
use tonk.Common.{
  ℕ, suc, ◌+◌, ◌-◌, ◌*◌, ◌/◌, ◌%◌, ◌^◌, ◌≤◌, ◌<◌, ◌≡◌, ap, some, List, [], ◌∷◌, ◌++◌, length, arith,
  if◌then◌else◌, leb, ◌==◌, ◌∙◌, lt→ltb, le→not-ltb, drop-append, length-append, subst,
}
use mathlib.Core.List.{append_assoc}
use native.Mathlib.Decide.{dec_lt}
use tonk.Common.Bits.{◌<<◌, ◌>>◌, u8, bit_or_disjoint_left, bit_and_ones}
use tonk.Common.Bits.Flags.{bit_and-pow_zero, bit_or-4, bit_or-0x80}
use tonk.Serializers.LossRange.{
  more_byte, start_bytes, count_bytes, first_byte, serialize_header, read_start, read_count,
  deserialize_header, max_loss_range_bytes,
}

first_byte-eq :
    (start count : ℕ)
    → first_byte start count
      ≡ start % 32 * 8 + (if leb 32 start then 4 else 0) + (if leb count 2 then count else 3)
unfolding first_byte
first_byte-eq start count = ground (
  arith,
  bit_or_disjoint_left 3 count start,
  bit_or_disjoint_left 3 3 start (omega arith),
  bit_or-4 (bit_or (if leb count 2 then count else 3) (start << 3)),
)

more_byte-eq : (x : ℕ) → more_byte x ≡ 128 + x % 128
more_byte-eq x = omega (arith, bit_or-0x80 x)

flag4 : (b : ℕ) → (bit_and b 4 == 0) ≡ (b / 4 % 2 == 0)
flag4 b = ground (arith, bit_and-pow_zero 2 b)

flag7 : (b : ℕ) → (bit_and b 0x80 == 0) ≡ (b / 128 % 2 == 0)
flag7 b = ground (arith, bit_and-pow_zero 7 b)

-- The readers on the bytes of each form.
module _ (first b1 b2 b3 : ℕ) (tail : List ℕ) where
  start1 : first / 4 % 2 ≡ 0 → read_start (first ∷ tail) ≡ (1, first / 8)
  unfolding read_start
  start1 e = ground (arith, flag4 first)

  start2 :
      first / 4 % 2 ≡ 1
      → first < 256
      → b1 < 128
      → read_start (first ∷ b1 ∷ tail) ≡ (2, b1 * 32 + first / 8)
  unfolding read_start
  start2 e h k = ground (
    arith,
    flag4 first,
    flag7 b1,
    bit_and_ones 7 b1,
    bit_or_disjoint_left 5 (first / 8) (bit_and b1 0x7f),
  )

  start3 :
      first / 4 % 2 ≡ 1
      → first < 256
      → b1 / 128 % 2 ≡ 1
      → b2 < 128
      → read_start (first ∷ b1 ∷ b2 ∷ tail) ≡ (3, b2 * 4096 + b1 % 128 * 32 + first / 8)
  unfolding read_start
  start3 e h k l = ground (
    arith,
    flag4 first,
    flag7 b1,
    flag7 b2,
    bit_and_ones 7 b1,
    bit_and_ones 7 b2,
    bit_or_disjoint_left 5 (first / 8) (bit_and b1 0x7f),
    bit_or_disjoint_left 12 (bit_or (first / 8) (bit_and b1 0x7f << 5)) (bit_and b2 0x7f),
  )

  start4 :
      first / 4 % 2 ≡ 1
      → first < 256
      → b1 / 128 % 2 ≡ 1
      → b2 / 128 % 2 ≡ 1
      → read_start (first ∷ b1 ∷ b2 ∷ b3 ∷ tail)
        ≡ (4, b3 * 524288 + b2 % 128 * 4096 + b1 % 128 * 32 + first / 8)
  unfolding read_start
  start4 e h k l =
      let x = bit_or (first / 8) (bit_and b1 0x7f << 5) in
      ground (
        arith,
        flag4 first,
        flag7 b1,
        flag7 b2,
        bit_and_ones 7 b1,
        bit_and_ones 7 b2,
        bit_or_disjoint_left 5 (first / 8) (bit_and b1 0x7f),
        bit_or_disjoint_left 12 x (bit_and b2 0x7f),
        bit_or_disjoint_left 19 (bit_or x (bit_and b2 0x7f << 12)) b3,
      )

  count1 : b1 < 128 → read_count (b1 ∷ tail) ≡ (1, 3 + b1)
  unfolding read_count
  count1 h = ground (arith, flag7 b1, bit_and_ones 7 b1)

  count2 : b1 / 128 % 2 ≡ 1 → b2 < 128 → read_count (b1 ∷ b2 ∷ tail) ≡ (2, 3 + b1 % 128 + b2 * 128)
  unfolding read_count
  count2 h k = ground (arith, flag7 b1, flag7 b2, bit_and_ones 7 b1, bit_and_ones 7 b2)

  count3 :
      b1 / 128 % 2 ≡ 1
      → b2 / 128 % 2 ≡ 1
      → read_count (b1 ∷ b2 ∷ b3 ∷ tail) ≡ (3, 3 + b1 % 128 + b2 % 128 * 128 + b3 * 16384)
  unfolding read_count
  count3 h k = ground (arith, flag7 b1, flag7 b2, bit_and_ones 7 b1, bit_and_ones 7 b2)

-- The start, after a first byte that says whether more of it follows.
reads_start :
    (first start : ℕ) (tail : List ℕ)
    → start < 2 ^ 22
    → first < 256
    → first / 4 % 2 ≡ (if leb 32 start then 1 else 0)
    → first / 8 ≡ start % 32
    → read_start (first ∷ start_bytes start ++ tail) ≡ (suc (length (start_bytes start)), start)
unfolding start_bytes
reads_start first start tail h b e f = elim (dec_lt start 32) [
  | yes l1 ↦
      rw (lt→ltb start 32 l1)
        (start1 first 0 0 0 tail (ground arith) ∙ ap (λ n. (1, n)) (omega arith))
  | no l1 ↦ elim (dec_lt start 4096) [
    | yes l2 ↦
        rw (le→not-ltb start 32 (omega arith), lt→ltb start 4096 l2)
          (start2 first (u8 (start >> 5)) 0 0 tail (ground arith) b (omega arith)
            ∙ ap (λ n. (2, n)) (omega arith))
    | no l2 ↦ elim (dec_lt start 524288) [
      | yes l3 ↦
          rw
            (
              le→not-ltb start 32 (omega arith),
              le→not-ltb start 4096 (omega arith),
              lt→ltb start 524288 l3,
            )
            (start3 first (more_byte (start >> 5)) (u8 (start >> 12)) 0 tail (ground arith) b
                (omega (arith, more_byte-eq (start >> 5))) (omega arith)
              ∙ ap (λ n. (3, n)) (omega (arith, more_byte-eq (start >> 5))))
      | no l3 ↦
          rw
            (
              le→not-ltb start 32 (omega arith),
              le→not-ltb start 4096 (omega arith),
              le→not-ltb start 524288 (omega arith),
            )
            (start4 first (more_byte (start >> 5)) (more_byte (start >> 12)) (u8 (start >> 19)) tail
                (ground arith) b (omega (arith, more_byte-eq (start >> 5)))
                (omega (arith, more_byte-eq (start >> 12)))
              ∙ ap (λ n. (4, n))
                  (omega (arith, more_byte-eq (start >> 5), more_byte-eq (start >> 12))))
    ]
  ]
]

reads_count :
    (count : ℕ) (tail : List ℕ)
    → count < 2 ^ 22
    → read_count (count_bytes count ++ tail) ≡ (length (count_bytes count), count + 3)
unfolding count_bytes
reads_count count tail h = elim (dec_lt count 128) [
  | yes l1 ↦
      rw (lt→ltb count 128 l1)
        (count1 0 (u8 count) 0 0 tail (omega arith) ∙ ap (λ n. (1, n)) (omega arith))
  | no l1 ↦ elim (dec_lt count 16384) [
    | yes l2 ↦
        rw (le→not-ltb count 128 (omega arith), lt→ltb count 16384 l2)
          (count2 0 (more_byte count) (u8 (count >> 7)) 0 tail (omega (arith, more_byte-eq count))
              (omega arith)
            ∙ ap (λ n. (2, n)) (omega (arith, more_byte-eq count)))
    | no l2 ↦
        rw (le→not-ltb count 128 (omega arith), le→not-ltb count 16384 (omega arith))
          (count3 0 (more_byte count) (more_byte (count >> 7)) (u8 (count >> 14)) tail
              (omega (arith, more_byte-eq count)) (omega (arith, more_byte-eq (count >> 7)))
            ∙ ap (λ n. (3, n)) (omega (arith, more_byte-eq count, more_byte-eq (count >> 7))))
  ]
]

-- The loss count, from the first byte and from the bytes after the start.
reads_whole :
    (start count : ℕ) (rest : List ℕ)
    → start < 2 ^ 22
    → count < 2 ^ 22 + 3
    → let head = first_byte start count ∷ start_bytes start in
      let counts = if leb 3 count then count_bytes (count - 3) else [] in
      7 ≤ length (head ++ (counts ++ rest))
      → deserialize_header (head ++ (counts ++ rest)) ≡ some (length (head ++ counts), start, count)
unfolding deserialize_header
reads_whole start count rest h k room =
    let first = first_byte start count in
    let head = first ∷ start_bytes start in
    let counts = if leb 3 count then count_bytes (count - 3) else [] in
    let e = first_byte-eq start count in
    let begun =
      reads_start first start (counts ++ rest) h (ground (arith, e)) (ground (arith, e))
        (ground (arith, e)) in
    rw (begun, drop-append head (counts ++ rest))
      (ground
        (arith, e, bit_and_ones 2 first, reads_count (count - 3) rest, length-append head counts))

-- A loss range of a 22-bit start and a loss count below 2 ^ 22 + 3 (one less than the losses) is read
-- back by the number of bytes written, whatever follows it, if the buffer has 7 bytes or more.
pub loss_range_roundtrip :
    (start count : ℕ) (rest : List ℕ)
    → start < 2 ^ 22
    → count < 2 ^ 22 + 3
    → max_loss_range_bytes ≤ length (serialize_header start count ++ rest)
    → deserialize_header (serialize_header start count ++ rest)
      ≡ some (length (serialize_header start count), start, count)
unfolding serialize_header
loss_range_roundtrip start count rest h k room =
    let head = first_byte start count ∷ start_bytes start in
    let counts = if leb 3 count then count_bytes (count - 3) else [] in
    let regroup = append_assoc head counts rest in
    rw regroup
      (reads_whole start count rest h k (subst (λ b. max_loss_range_bytes ≤ length b) regroup room))
