-- ===== src/Encoder/Losses/Turns.antt =====
-- SiameseEncoder.cpp: one turn of a loop over the losses.
use tonk.Common.{
  ℕ, zero, suc, ◌+◌, ◌-◌, ◌≡◌, refl, ap, ap₂, ◌∙◌, true, false, Option, none, some, List, [], ◌∷◌,
  ◌++◌, arith, ◌==◌, sym,
}
use tonk.Columns.{add_columns, increment_column1}
use tonk.Encoder.Losses.{
  LossIterator, decode_next_range, take_column, take_next, get_next_loss_column, all_losses,
  add_column,
}
use tonk.Encoder.Losses.Ranges.{
  LossRange, Fits, range_field, interval, columns_from, Before, decoded, decode_next_range-range,
  decode_next_range-end,
}

-- An iterator with another column and count.
abbrev pub sited : LossIterator → ℕ → ℕ → LossIterator
sited losses column count = record losses { loss_column = column; loss_count = count }

pub get_next_loss_column-take :
    (losses : LossIterator) (column n : ℕ)
    → get_next_loss_column (sited losses column (suc n))
      ≡ (some column, sited losses (increment_column1 column) n)
unfolding get_next_loss_column take_column
get_next_loss_column-take losses column n =
    rw (positive n)
      (ap (λ (k : ℕ). (some column, sited losses (increment_column1 column) k)) (less n))
  where
    positive : (n : ℕ) → (suc n == 0) ≡ false
    positive n = ground arith

    less : (n : ℕ) → suc n - 1 ≡ n
    less n = omega arith

pub get_next_loss_column-zero :
    (losses : LossIterator) (column : ℕ)
    → get_next_loss_column (sited losses column 0)
      ≡ take_next (decode_next_range (sited losses (increment_column1 column) 0))
unfolding get_next_loss_column
get_next_loss_column-zero losses column = refl

-- One more turn of the loop.
pub all_losses-turn :
    (fuel : ℕ) (losses : LossIterator) (next : Option ℕ × LossIterator)
    → get_next_loss_column losses ≡ next
    → all_losses (suc fuel) losses ≡ add_column next.0 (all_losses fuel next.1)
unfolding all_losses
all_losses-turn fuel losses next e = ap (λ t. add_column t.0 (all_losses fuel t.1)) e

pub increment_column1-add_columns :
    (first start : ℕ) → increment_column1 (add_columns first start) ≡ add_columns (first + 1) start
unfolding increment_column1 add_columns
increment_column1-add_columns first start = omega arith

-- The losses of the current range, and what comes after it.
pub all_losses-range :
    (n fuel start first : ℕ) (losses : LossIterator)
    → all_losses (n + fuel) (sited losses (add_columns first start) n)
      ≡ columns_from start (interval first n)
        ++ all_losses fuel (sited losses (add_columns (first + n) start) 0)
all_losses-range zero fuel start first losses =
    ap (λ (k : ℕ). all_losses k (sited losses (add_columns first start) 0)) {y = fuel} (omega arith)
    ∙ ap (λ (e : ℕ). all_losses fuel (sited losses (add_columns e start) 0)) {y = first + 0}
        (omega arith)
all_losses-range (suc n) fuel start first losses =
    let column = add_columns first start in
    let here = columns_from start (interval (first + 1) n) in
    ap (λ (k : ℕ). all_losses k (sited losses column (suc n))) {y = suc (n + fuel)} (omega arith)
    ∙ (all_losses-turn (n + fuel) (sited losses column (suc n))
          (some column, sited losses (increment_column1 column) n)
          (get_next_loss_column-take losses column n)
        ∙ ap (λ (columns : List ℕ). column ∷ columns)
            (ap (λ (c : ℕ). all_losses (n + fuel) (sited losses c n))
                (increment_column1-add_columns first start)
              ∙ (all_losses-range n fuel start (first + 1) losses
                  ∙ ap (λ (e : ℕ). here ++ all_losses fuel (sited losses (add_columns e start) 0))
                      {y = first + suc n} (omega arith))))

-- The end of the ranges.
pub all_losses-end :
    (fuel column : ℕ) (losses : LossIterator)
    → Before losses []
    → all_losses (suc fuel) (sited losses column 0) ≡ []
all_losses-end fuel column losses h =
    let beyond = sited losses (increment_column1 column) 0 in
    all_losses-turn fuel (sited losses column 0) (none, beyond)
      (get_next_loss_column-zero losses column ∙ ap take_next (decode_next_range-end beyond h))

pub get_next_loss_column-some :
    (losses : LossIterator) (column n : ℕ)
    → get_next_loss_column (sited losses column (suc n)) ≡ take_column (sited losses column (suc n))
unfolding get_next_loss_column
get_next_loss_column-some losses column n = rw (positive n) refl
  where
    positive : (n : ℕ) → (suc n == 0) ≡ false
    positive n = ground arith

-- Decoding at an element of the window moves on to the first lost one.
pub decode_next_range-sited :
    (start offset : ℕ) (losses : LossIterator) (range : LossRange) (rest : List ℕ)
    → Fits range
    → Before losses (range_field range ++ rest)
    → decode_next_range (sited losses (add_columns offset start) 0) ≡ (
      true,
      sited
          (decoded losses range)
          (add_columns (offset + range.relative_start) start)
          (suc range.loss_count_m1),
    )
decode_next_range-sited start offset losses range rest fits h =
    decode_next_range-range (sited losses (add_columns offset start) 0) range rest fits h
    ∙ ap₂ (λ (column : ℕ) (n : ℕ). (true, sited (decoded losses range) column n)) column one_more
  where
    column :
        add_columns (add_columns offset start) range.relative_start
        ≡ add_columns (offset + range.relative_start) start
    column = unfold add_columns in omega arith

    one_more : range.loss_count_m1 + 1 ≡ suc range.loss_count_m1
    one_more = omega arith

-- The next range, when the one before it is through.
pub all_losses-next :
    (fuel start offset next : ℕ) (losses : LossIterator) (range : LossRange) (rest : List ℕ)
    → next ≡ offset + 1
    → Fits range
    → Before losses (range_field range ++ rest)
    → all_losses (suc fuel) (sited losses (add_columns offset start) 0)
      ≡ all_losses (suc fuel) (
          sited
            (decoded losses range)
            (add_columns (next + range.relative_start) start)
            (suc range.loss_count_m1))
all_losses-next fuel start offset next losses range rest e fits h =
    let column = add_columns (next + range.relative_start) start in
    let following = sited (decoded losses range) column (suc range.loss_count_m1) in
    let decodes =
      ap (λ (c : ℕ). decode_next_range (sited losses c 0))
        (increment_column1-add_columns offset start ∙ ap (λ (k : ℕ). add_columns k start) (sym e))
      ∙ decode_next_range-sited start next losses range rest fits h in
    all_losses-turn fuel (sited losses (add_columns offset start) 0) (take_column following)
      (get_next_loss_column-zero losses (add_columns offset start) ∙ ap take_next decodes)
    ∙ sym (
        all_losses-turn fuel following (take_column following)
          (get_next_loss_column-some (decoded losses range) column range.loss_count_m1))
