-- ===== src/StrikeRegister/Replay.antt =====
-- StrikeRegister.cpp: what `IsDuplicate` answers after `Accept`.
use tonk.Common.{
  ℕ, ◌+◌, ◌-◌, ◌*◌, ◌^◌, ◌≤◌, ◌<◌, ◌≡◌, refl, ◌||◌, if◌then◌else◌, ltb, ◌==◌, arith, ap,
}
use native.Mathlib.Decide.{dec_lt}
use tonk.Counter.{add}
use tonk.StrikeRegister.{
  StrikeRegister, window_bits, word_count, set_bit, bit_index, is_duplicate, reset, slide, strike,
  accept,
}
use tonk.StrikeRegister.Window.{
  IsWindow, struck, strike-IsWindow, slide-IsWindow, reset-IsWindow, struck-strike, struck-slide,
  struck-reset, is_duplicate_lem,
}
use tonk.StrikeRegister.Accept.{
  InReach, words_for, base_after, noted, cleared, accept-old, accept-inside, accept-slide,
  accept-clear,
}

-- The largest accepted number lies in the window.
pub record IsValid (r : StrikeRegister) : Type 0 where
  pub window : IsWindow r
  pub base_le : r.window_base ≤ r.largest_sequence
  pub covers : r.largest_sequence < r.window_base + window_bits

-- `Accept` moves the base to `base_after`, notes the largest number and keeps the window.
pub record Accepts (r : StrikeRegister) (s : ℕ) (r' : StrikeRegister) : Type 0 where
  pub valid : IsValid r'
  pub base : r'.window_base ≡ base_after r.window_base s
  pub largest : r'.largest_sequence ≡ (if ltb r.largest_sequence s then s else r.largest_sequence)
  pub view :
      (t : ℕ)
      → t < 2 ^ 62
      → is_duplicate r' t ≡ (ltb t (base_after r.window_base s) || (t == s || is_duplicate r t))

-- What the parts of `Accept` leave alone.
strike-fields :
    (r : StrikeRegister) (d : ℕ)
    → ((strike r d).window_base ≡ r.window_base)
      × ((strike r d).largest_sequence ≡ r.largest_sequence)
unfolding strike
strike-fields r d = (refl, refl)

slide-fields :
    (r : StrikeRegister) (w : ℕ)
    → r.window_base < 2 ^ 63
    → w < word_count
    → ((slide r w).window_base ≡ r.window_base + 64 * w)
      × ((slide r w).largest_sequence ≡ r.largest_sequence)
unfolding slide add
slide-fields r w h k = (omega arith, refl)

noted-IsWindow : (r : StrikeRegister) (s : ℕ) → IsWindow r → IsWindow (noted r s)
noted-IsWindow r s v = record { words = v.words; aligned = v.aligned; rotation = v.rotation }

struck-noted : (r : StrikeRegister) (s d : ℕ) → struck (noted r s) d ≡ struck r d
unfolding struck bit_index
struck-noted r s d = refl

-- Setting the first bit of a cleared window strikes the new base.
cleared-strike : (s : ℕ) → cleared s ≡ strike (reset s) 0
unfolding strike reset bit_index set_bit
cleared-strike s = refl

reset-fields : (s : ℕ) → ((reset s).window_base ≡ s) × ((reset s).largest_sequence ≡ s)
unfolding reset
reset-fields s = (refl, refl)

module _ (r : StrikeRegister) (s : ℕ) (v : IsValid r) (h : InReach r s) where
  old-Accepts : s < r.window_base → Accepts r s (noted r s)
  unfolding base_after
  old-Accepts p = record {
    valid = record {
      window = noted-IsWindow r s v.window;
      base_le = ground arith;
      covers = ground arith;
    };
    base = ground arith;
    largest = refl;
    view = λ t ht. ground (
      arith,
      is_duplicate_lem r t,
      is_duplicate_lem (noted r s) t,
      is_duplicate_lem r s,
      struck-noted r s (t - r.window_base),
    );
  }

  inside-Accepts :
      r.window_base ≤ s
      → s < r.window_base + window_bits
      → Accepts r s (strike (noted r s) (s - r.window_base))
  unfolding base_after
  inside-Accepts p q =
      let q' = noted r s in
      let d = s - r.window_base in
      let fields = strike-fields q' d in
      record {
        valid = record {
          window = strike-IsWindow q' d (noted-IsWindow r s v.window);
          base_le = ground (arith, fields);
          covers = ground (arith, fields);
        };
        base = ground (arith, fields);
        largest = fields.1;
        view = λ t ht. ground (
          arith,
          fields,
          is_duplicate_lem r t,
          is_duplicate_lem (strike q' d) t,
          struck-strike q' d (t - r.window_base) (noted-IsWindow r s v.window),
          struck-noted r s (t - r.window_base),
        );
      }

  slide-Accepts :
      r.window_base + window_bits ≤ s
      → words_for r.window_base s < word_count
      → Accepts r s (
          strike
            (slide (noted r s) (words_for r.window_base s))
            (s - r.window_base - 64 * words_for r.window_base s))
  unfolding base_after
  slide-Accepts p q =
      let w = words_for r.window_base s in
      let q' = slide (noted r s) w in
      let d = s - r.window_base - 64 * w in
      let window = slide-IsWindow (noted r s) w q (noted-IsWindow r s v.window) in
      let fields = strike-fields q' d in
      let moved = slide-fields (noted r s) w (omega arith) q in
      record {
        valid = record {
          window = strike-IsWindow q' d window;
          base_le = ground (arith, fields, moved);
          covers = ground (arith, fields, moved);
        };
        base = ground (arith, fields, moved);
        largest = ground (arith, fields, moved);
        view = λ t ht. ground (
          arith,
          fields,
          moved,
          is_duplicate_lem r t,
          is_duplicate_lem (strike q' d) t,
          struck-strike q' d (t - (r.window_base + 64 * w)) window,
          struck-slide (noted r s) w (t - (r.window_base + 64 * w)) (noted-IsWindow r s v.window) q,
          struck-noted r s (t - (r.window_base + 64 * w) + 64 * w),
          ap (struck r) {x = t - (r.window_base + 64 * w) + 64 * w} {y = t - r.window_base},
        );
      }

  clear-Accepts :
      r.window_base + window_bits ≤ s
      → word_count ≤ words_for r.window_base s
      → Accepts r s (strike (reset s) 0)
  unfolding base_after
  clear-Accepts p q =
      let fields = strike-fields (reset s) 0 in
      let fresh = reset-fields s in
      record {
        valid = record {
          window = strike-IsWindow (reset s) 0 (reset-IsWindow s);
          base_le = ground (arith, fields, fresh);
          covers = ground (arith, fields, fresh);
        };
        base = ground (arith, fields, fresh);
        largest = ground (arith, fields, fresh);
        view = λ t ht. ground (
          arith,
          fields,
          fresh,
          is_duplicate_lem r t,
          is_duplicate_lem (strike (reset s) 0) t,
          struck-strike (reset s) 0 (t - s) (reset-IsWindow s),
          struck-reset s (t - s),
        );
      }

-- Whatever branch `Accept` takes.
pub accept-Accepts :
    (r : StrikeRegister) (s : ℕ) → IsValid r → InReach r s → Accepts r s (accept r s)
accept-Accepts r s v h = elim (dec_lt s r.window_base) [
  | yes old ↦ rw (accept-old r s h old) (old-Accepts r s v h old)
  | no new ↦ elim (dec_lt s (r.window_base + window_bits)) [
    | yes near ↦
        rw (accept-inside r s h (omega arith) near) (inside-Accepts r s v h (omega arith) near)
    | no far ↦ elim (dec_lt (words_for r.window_base s) word_count) [
      | yes few ↦
          rw (accept-slide r s h (omega arith) few) (slide-Accepts r s v h (omega arith) few)
      | no many ↦
          rw (accept-clear r s h (omega arith) (omega arith), cleared-strike s)
            (clear-Accepts r s v h (omega arith) (omega arith))
    ]
  ]
]

-- For a valid register and a sequence number in reach, `Accept` keeps the register valid, moves the
-- base to the one that the number asks for, notes the largest number, and makes the duplicates
-- below 2 ^ 62 exactly those before the new base, the number itself, and the old duplicates.
pub accept-step :
    (r : StrikeRegister) (s t : ℕ)
    → IsValid r
    → InReach r s
    → t < 2 ^ 62
    → IsValid (accept r s)
      × ((accept r s).window_base ≡ base_after r.window_base s)
      × ((accept r s).largest_sequence
          ≡ (if ltb r.largest_sequence s then s else r.largest_sequence))
      × (is_duplicate (accept r s) t
          ≡ (ltb t (base_after r.window_base s) || (t == s || is_duplicate r t)))
accept-step r s t v h ht =
    let step = accept-Accepts r s v h in (step.valid, step.base, step.largest, step.view t ht)
