-- ===== src/Decoder.antt =====
-- SiameseDecoder.h and SiameseDecoder.cpp: the window of received packets, by which the decoder knows
-- the lost ones and acknowledges. Memory never runs out, and the sums, the recovery packets and
-- the recovery matrix are not modelled.
pub mod Search
pub mod Acknowledge
pub mod Adding
pub mod Invariant
pub mod Filling
pub mod Kept
pub mod Taken
pub mod Tests
use tonk.Common.{
  ℕ, zero, suc, ◌+◌, ◌-◌, ◌*◌, ◌/◌, ◌%◌, ◌≡◌, Bool, true, false, List, [], ◌∷◌, ◌++◌, length,
  get_or, set, replicate, if◌then◌else◌, ltb, leb, ◌==◌, ◌&&◌,
}
use tonk.Common.Bits.Flags.{bit}
use tonk.BitSet.{set_bit, find_first_set, find_first_clear}
use tonk.Columns.{subtract_columns, add_columns, column_lane_count}
use tonk.Originals.{OriginalPacket, no_packet}

-- `kSubwindowSize`
abbrev pub subwindow_size : ℕ
subwindow_size = column_lane_count * 8

pub record DecoderSubwindow : Type 0 where
  pub originals : List OriginalPacket
  pub got : ℕ
  pub got_count : ℕ

-- A subwindow as its constructor leaves it.
abbrev pub empty_subwindow : DecoderSubwindow
empty_subwindow = record { originals = replicate subwindow_size no_packet; got = 0; got_count = 0 }

pub record DecoderWindow : Type 0 where
  pub count : ℕ
  pub column_start : ℕ
  pub next_expected_element : ℕ
  pub subwindows : List DecoderSubwindow
  pub emergency_disabled : Bool

-- A window as its constructor leaves it.
abbrev pub new_window : DecoderWindow
new_window = record {
  count = 0;
  column_start = 0;
  next_expected_element = 0;
  subwindows = [];
  emergency_disabled = false;
}

abbrev pub get_subwindow : DecoderWindow → ℕ → DecoderSubwindow
get_subwindow window i = get_or window.subwindows i empty_subwindow

-- The bit of an element in `Got`.
abbrev pub got_element : DecoderWindow → ℕ → Bool
got_element window element =
    bit (get_subwindow window (element / subwindow_size)).got (element % subwindow_size) == 1

abbrev pub lost_element : DecoderWindow → ℕ → Bool
lost_element window element =
    bit (get_subwindow window (element / subwindow_size)).got (element % subwindow_size) == 0

-- `ElementToColumn` and `ColumnToElement`
unfoldable pub element_to_column : DecoderWindow → ℕ → ℕ
element_to_column window element = add_columns element window.column_start

unfoldable pub column_to_element : DecoderWindow → ℕ → ℕ
column_to_element window column = subtract_columns column window.column_start

-- The loop of both searches over the subwindows: `n` are left, `may` tells whether to look into one,
-- and `find` looks into its bits from one of them on, and gives 64 or more if there is none.
module _ (may : DecoderSubwindow → Bool) (find : ℕ → ℕ → ℕ) (window : DecoderWindow) where
  abbrev pub find_next : ℕ → ℕ → ℕ → ℕ
  find_next zero index start = window.count
  find_next (suc n) index start =
      let subwindow = get_subwindow window index in
      let found = find subwindow.got start in
      let later = find_next n (suc index) 0 in
      let element = index * subwindow_size + found in
      if may subwindow && ltb found subwindow_size
      then if ltb window.count element then window.count else element
      else later

  -- The start of both, where `subwindowEnd` is the number of subwindows in use.
  abbrev pub find_from : ℕ → ℕ
  find_from start =
      let subwindow_end = (window.count + subwindow_size - 1) / subwindow_size in
      let index = start / subwindow_size in
      let found = find_next (subwindow_end - index) index (start % subwindow_size) in
      if leb window.count start then window.count else found

-- `FindNextLostElement`
unfoldable pub find_next_lost : DecoderWindow → ℕ → ℕ
find_next_lost = find_from (λ subwindow. ltb subwindow.got_count subwindow_size) find_first_clear

-- `FindNextGotElement`
unfoldable pub find_next_got : DecoderWindow → ℕ → ℕ
find_next_got = find_from (λ subwindow. ltb 0 subwindow.got_count) find_first_set

-- `IterateNextExpectedElement`
unfoldable pub iterate_next_expected : DecoderWindow → ℕ → DecoderWindow
unfolding find_next_lost
iterate_next_expected window start =
    if leb window.count window.next_expected_element
    then window
    else record window { next_expected_element = find_next_lost window start }
