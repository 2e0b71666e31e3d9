-- ===== src/Encoder/Losses/Iteration.antt =====
-- SiameseEncoder.cpp: the losses that the iterator gives, range after range.
use tonk.Common.{
  ℕ, zero, suc, ◌+◌, ◌≡◌, refl, ap, ◌∙◌, List, [], ◌∷◌, ◌++◌, length, replicate, arith,
  length-append, All, sym,
}
use mathlib.Core.List.{map-append}
use tonk.Columns.{add_columns}
use tonk.Encoder.Losses.{
  LossIterator, decode_next_range, restart_loss_iterator, all_losses, padding_bytes,
}
use tonk.Encoder.Losses.Ranges.{
  LossRange, Fits, range_bytes, interval, range_elements, columns_from, Before, decoded,
  decoded-Before, decode_next_range-end,
}
use tonk.Encoder.Losses.Turns.{
  sited, all_losses-range, all_losses-end, decode_next_range-sited, all_losses-next,
}

length-interval : (first n : ℕ) → length (interval first n) ≡ n
length-interval first zero = refl
length-interval first (suc n) = ap suc (length-interval (first + 1) n)

-- The losses that are left of the range at hand, and the elements after it.
all_losses-current :
    (n more start first : ℕ) (losses : LossIterator) (elements : List ℕ)
    → all_losses (length elements + suc more) (sited losses (add_columns (first + n) start) 0)
      ≡ columns_from start elements
    → all_losses
        (length (interval first n ++ elements) + suc more)
        (sited losses (add_columns first start) n)
      ≡ columns_from start (interval first n ++ elements)
all_losses-current n more start first losses elements h =
    ap (λ (fuel : ℕ). all_losses fuel (sited losses (add_columns first start) n))
      {y = n + (length elements + suc more)}
      (omega (arith, length-append (interval first n) elements, length-interval first n))
    ∙ (all_losses-range n (length elements + suc more) start first losses
        ∙ (ap (λ rest. columns_from start (interval first n) ++ rest) h
            ∙ sym (map-append (λ element. add_columns element start) (interval first n) elements)))

-- The ranges that are left, when the one before them is through at the element before `next`.
all_losses-ranges :
    (more start offset next : ℕ) (losses : LossIterator) (ranges : List LossRange)
    → next ≡ offset + 1
    → All Fits ranges
    → Before losses (range_bytes ranges)
    → all_losses
        (length (range_elements next ranges) + suc more)
        (sited losses (add_columns offset start) 0)
      ≡ columns_from start (range_elements next ranges)
all_losses-ranges more start offset next losses [] e fits h =
    ap (λ (fuel : ℕ). all_losses fuel (sited losses (add_columns offset start) 0)) {y = suc more}
      (omega arith)
    ∙ all_losses-end more (add_columns offset start) losses h
all_losses-ranges more start offset next losses (range ∷ ranges) e (fit, fits) h =
    let first = next + range.relative_start in
    let n = suc range.loss_count_m1 in
    let rest = range_elements (first + range.loss_count_m1 + 2) ranges in
    let after =
      all_losses-ranges more start (first + n) (first + range.loss_count_m1 + 2)
        (decoded losses range) ranges (omega arith) fits
        (decoded-Before losses range (range_bytes ranges) h) in
    let fuel = length (interval first n ++ rest) + more in
    ap (λ (k : ℕ). all_losses k (sited losses (add_columns offset start) 0)) {y = suc fuel}
      (omega arith)
    ∙ (all_losses-next fuel start offset next losses range (range_bytes ranges) e fit h
        ∙ (ap (λ (k : ℕ). all_losses k (sited (decoded losses range) (add_columns first start) n))
              {x = suc fuel} {y = length (interval first n ++ rest) + suc more} (omega arith)
            ∙ all_losses-current n more start first (decoded losses range) rest after))

restart_loss_iterator-eq :
    (column : ℕ) (losses : LossIterator)
    → restart_loss_iterator column losses
      ≡ (decode_next_range (sited (record losses { offset = 0 }) column 0)).1
unfolding restart_loss_iterator
restart_loss_iterator-eq column losses = refl

reset-Before :
    (losses : LossIterator) (ranges : List LossRange)
    → losses.bytes ≡ range_bytes ranges
    → Before (record losses { offset = 0 }) (range_bytes ranges)
reset-Before losses ranges e =
    (omega (arith, ap length e), ap (λ bytes. bytes ++ replicate padding_bytes 0) e)

-- After a restart the loop over `GetNextLossColumn` gives the columns of the elements that the loss
-- ranges stand for, in their order, and ends after one turn more than there are elements. The ranges
-- fit their fields, the first one is relative to the next element that the receiver expects, and the
-- columns may roll over.
pub restart_loss_iterator-all_losses :
    (more start expected : ℕ) (losses : LossIterator) (ranges : List LossRange)
    → All Fits ranges
    → losses.bytes ≡ range_bytes ranges
    → all_losses
        (length (range_elements expected ranges) + suc more)
        (restart_loss_iterator (add_columns expected start) losses)
      ≡ columns_from start (range_elements expected ranges)
restart_loss_iterator-all_losses more start expected losses [] fits e =
    let column = add_columns expected start in
    let reset = record losses { offset = 0 } in
    let whole = reset-Before losses [] e in
    ap (λ (k : ℕ). all_losses k (restart_loss_iterator column losses)) {y = suc more} (omega arith)
    ∙ (ap (all_losses (suc more)) (
          restart_loss_iterator-eq column losses
          ∙ ap (λ next. next.1) (decode_next_range-end (sited reset column 0) whole))
        ∙ all_losses-end more column reset whole)
restart_loss_iterator-all_losses more start expected losses (range ∷ ranges) (fit, fits) e =
    let reset = record losses { offset = 0 } in
    let first = expected + range.relative_start in
    let n = suc range.loss_count_m1 in
    let rest = range_elements (first + range.loss_count_m1 + 2) ranges in
    let whole = reset-Before losses (range ∷ ranges) e in
    let after =
      all_losses-ranges more start (first + n) (first + range.loss_count_m1 + 2)
        (decoded reset range) ranges (omega arith) fits
        (decoded-Before reset range (range_bytes ranges) whole) in
    ap (all_losses (length (interval first n ++ rest) + suc more)) (
      restart_loss_iterator-eq (add_columns expected start) losses
      ∙ ap (λ next. next.1)
          (decode_next_range-sited start expected reset range (range_bytes ranges) fit whole))
    ∙ all_losses-current n more start first (decoded reset range) rest after
