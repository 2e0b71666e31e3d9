-- ===== src/Encoder/Window/Removed.antt =====
-- SiameseEncoder.cpp: `RemoveBefore` keeps the invariant of the encoder's window.
use tonk.Common.{
  ℕ, ◌<◌, ◌≡◌, refl, Bool, true, false, arith, if◌then◌else◌, leb, ltb, inl, inr, not-leb→lt,
  ltb→lt,
}
use tonk.Columns.{subtract_columns, is_column_delta_negative}
use tonk.Encoder.Window.{EncoderWindow, remove_before}
use tonk.Encoder.Window.Invariant.{IsKept}

-- `RemoveBefore` keeps the invariant of the window.
pub remove_before-IsKept :
    (window : EncoderWindow) (first_kept_column : ℕ)
    → IsKept window
    → IsKept (remove_before window first_kept_column)
unfolding remove_before
remove_before-IsKept window first_kept_column valid =
    let element = subtract_columns first_kept_column window.column_start in
    branches window.emergency_disabled (leb window.count element) (is_column_delta_negative element)
      (ltb window.first_unremoved element) element (λ e. not-leb→lt window.count element e)
      (λ e. ltb→lt window.first_unremoved element e)
  where
    emptied : IsKept (record window { count = 0 })
    emptied = record {
      places = valid.places;
      room = omega arith;
      few = omega arith;
      first = inr refl;
      start_below = valid.start_below;
      next_below = valid.next_below;
      aligned = valid.aligned;
      next = λ h. absurd (omega (arith, h));
      kept = λ e h l. absurd (omega (arith, l));
    }

    moved :
        (element : ℕ)
        → element < window.count
        → window.first_unremoved < element
        → IsKept (record window { first_unremoved = element })
    moved element h l = record {
      places = valid.places;
      room = valid.room;
      few = valid.few;
      first = inl h;
      start_below = valid.start_below;
      next_below = valid.next_below;
      aligned = valid.aligned;
      next = valid.next;
      kept = λ e j k. valid.kept e (omega (arith, j, l)) k;
    }

    branches :
        (off outside before later : Bool) (element : ℕ)
        → (outside ≡ false → element < window.count)
        → (later ≡ true → window.first_unremoved < element)
        → IsKept (
            if off
            then window
            else if outside
            then (if before then window else record window { count = 0 })
            else if later
            then record window { first_unremoved = element }
            else window)
    branches true outside before later element h l = valid
    branches false true true later element h l = valid
    branches false true false later element h l = emptied
    branches false false before true element h l = moved element (h refl) (l refl)
    branches false false before false element h l = valid
