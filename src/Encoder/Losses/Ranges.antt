-- ===== src/Encoder/Losses/Ranges.antt =====
-- SiameseEncoder.cpp: what the iterator gives for loss ranges that were written one after the other.
use tonk.Common.{
  ℕ, zero, suc, ◌+◌, ◌^◌, ◌≤◌, ◌<◌, ◌≡◌, refl, ap, ◌∙◌, true, false, some, List, [], ◌∷◌, ◌++◌,
  length, drop, replicate, arith, drop-append, length-append, le→not-ltb, le→leb, lt→not-leb,
}
use mathlib.Core.List.{map, append_assoc}
use tonk.Serializers.LossRange.{serialize_header, deserialize_header}
use tonk.Serializers.LossRoundtrip.{loss_range_roundtrip}
use tonk.Columns.{add_columns}
use tonk.Encoder.Losses.{LossIterator, decode_next_range, take_range, padding_bytes}

-- A range that the fields have room for: the elements between it and the one before, and one less
-- than its number of losses.
pub record LossRange : Type 0 where
  pub relative_start : ℕ
  pub loss_count_m1 : ℕ

abbrev pub Fits : LossRange → Type 0
Fits range = (range.relative_start < 2 ^ 22) × (range.loss_count_m1 < 2 ^ 22 + 3)

abbrev pub range_field : LossRange → List ℕ
range_field range = serialize_header range.relative_start range.loss_count_m1

abbrev pub range_bytes : List LossRange → List ℕ
range_bytes [] = []
range_bytes (range ∷ ranges) = range_field range ++ range_bytes ranges

-- The elements `first`, `first + 1` and so on.
abbrev pub interval : ℕ → ℕ → List ℕ
interval first zero = []
interval first (suc n) = first ∷ interval (first + 1) n

-- The elements that the ranges stand for, the first one relative to `offset`.
abbrev pub range_elements : ℕ → List LossRange → List ℕ
range_elements offset [] = []
range_elements offset (range ∷ ranges) =
    let first = offset + range.relative_start in
    interval first (suc range.loss_count_m1)
    ++ range_elements (first + range.loss_count_m1 + 2) ranges

abbrev pub columns_from : ℕ → List ℕ → List ℕ
columns_from start elements = map (λ element. add_columns element start) elements

drop-add : (a b : ℕ) (xs : List ℕ) → drop (a + b) xs ≡ drop b (drop a xs)
drop-add zero b xs = ap (λ n. drop n xs) {x = 0 + b} {y = b} (omega arith)
drop-add (suc a) zero [] = ap (λ n. drop n []) {x = suc a + 0} {y = suc a} (omega arith)
drop-add (suc a) (suc b) [] =
    ap (λ n. drop n []) {x = suc a + suc b} {y = suc (a + suc b)} (omega arith)
drop-add (suc a) b (x ∷ xs) =
    ap (λ n. drop n (x ∷ xs)) {x = suc a + b} {y = suc (a + b)} (omega arith) ∙ drop-add a b xs

-- The iterator stands before the last bytes of its data.
abbrev pub Before : LossIterator → List ℕ → Type 0
Before losses rest =
    let padded = losses.bytes ++ replicate padding_bytes 0 in
    (losses.offset + length rest ≡ length losses.bytes)
    × (drop losses.offset padded ≡ rest ++ replicate padding_bytes 0)

-- The iterator after a range was decoded.
abbrev pub decoded : LossIterator → LossRange → LossIterator
decoded losses range = record losses {
  offset = losses.offset + length (range_field range);
  loss_column = add_columns losses.loss_column range.relative_start;
  loss_count = range.loss_count_m1 + 1;
}

pub decoded-Before :
    (losses : LossIterator) (range : LossRange) (rest : List ℕ)
    → Before losses (range_field range ++ rest)
    → Before (decoded losses range) rest
decoded-Before losses range rest (room, here) = (
  omega (arith, room, length-append (range_field range) rest),
  drop-add losses.offset (length (range_field range)) (losses.bytes ++ replicate padding_bytes 0)
      ∙ (ap (drop (length (range_field range))) here
          ∙ (ap (drop (length (range_field range)))
                (append_assoc (range_field range) rest (replicate padding_bytes 0))
              ∙ drop-append (range_field range) (rest ++ replicate padding_bytes 0))),
)

pub field-nonempty : (range : LossRange) → 0 < length (range_field range)
unfolding serialize_header
field-nonempty range = omega arith

take_range-decoded :
    (losses : LossIterator) (range : LossRange)
    → losses.offset + length (range_field range) ≤ length losses.bytes
    → take_range losses
        (some (length (range_field range), range.relative_start, range.loss_count_m1))
      ≡ (true, decoded losses range)
unfolding take_range
take_range-decoded losses range h =
    rw (le→not-ltb (length losses.bytes) (losses.offset + length (range_field range)) h) refl

decode_next_range-more :
    (losses : LossIterator)
    → losses.offset < length losses.bytes
    → decode_next_range losses
      ≡ take_range losses
          (deserialize_header (drop losses.offset (losses.bytes ++ replicate padding_bytes 0)))
unfolding decode_next_range
decode_next_range-more losses h = rw (lt→not-leb (length losses.bytes) losses.offset h) refl

pub decode_next_range-range :
    (losses : LossIterator) (range : LossRange) (rest : List ℕ)
    → Fits range
    → Before losses (range_field range ++ rest)
    → decode_next_range losses ≡ (true, decoded losses range)
decode_next_range-range losses range rest (h, k) (room, here) =
    let field = range_field range in
    let tail = rest ++ replicate padding_bytes 0 in
    let parts = length-append field rest in
    let roundtrip =
      loss_range_roundtrip range.relative_start range.loss_count_m1 tail h k
        (omega (arith, length-append field tail, length-append rest (replicate padding_bytes 0))) in
    decode_next_range-more losses (omega (arith, room, parts, field-nonempty range))
    ∙ (ap (λ buffer. take_range losses (deserialize_header buffer))
          (here ∙ append_assoc field rest (replicate padding_bytes 0))
        ∙ (ap (take_range losses) roundtrip
            ∙ take_range-decoded losses range (omega (arith, room, parts))))

pub decode_next_range-end :
    (losses : LossIterator) → Before losses [] → decode_next_range losses ≡ (false, losses)
unfolding decode_next_range
decode_next_range-end losses (room, here) =
    rw (le→leb (length losses.bytes) losses.offset (omega (arith, room))) refl
