-- ===== src/Decoder/Adding.antt =====
-- SiameseDecoder.cpp: how the window takes a received packet, and gives it back.
-- `AddOriginal` also tells two other components: it deletes recovery packets before an element, and
-- resets the checked region when that contains the new element. The outcome records both calls.
use tonk.Common.{
  ℕ, ◌+◌, ◌-◌, ◌/◌, ◌%◌, Bool, false, Option, none, some, List, [], ◌++◌, length, get_or, set,
  replicate, if◌then◌else◌, ltb, leb, ◌==◌, ◌&&◌,
}
use tonk.BitSet.{set_bit}
use tonk.Columns.{is_column_delta_negative, column_lane_count}
use tonk.Originals.{
  SiameseResult, SiamesePacket, OriginalPacket, no_packet, initialize_packet, load_original,
  success, need_more_data, duplicate_data, disabled,
}
use tonk.Decoder.{
  DecoderSubwindow, DecoderWindow, empty_subwindow, get_subwindow, subwindow_size,
  column_to_element, iterate_next_expected,
}

-- `GetWindowElement`
abbrev pub element_original : DecoderWindow → ℕ → OriginalPacket
element_original window element =
    get_or (get_subwindow window (element / subwindow_size)).originals (element % subwindow_size)
      no_packet

-- `GrowWindow`
unfoldable pub grow_window : DecoderWindow → ℕ → DecoderWindow
grow_window window element_end =
    let needed = (element_end + column_lane_count + subwindow_size - 1) / subwindow_size in
    let fresh = replicate (needed - length window.subwindows) empty_subwindow in
    record window {
      subwindows = window.subwindows ++ fresh;
      count = if ltb window.count element_end then element_end else window.count;
    }

-- A subwindow with a packet in one of its places.
unfoldable pub fill_place : DecoderSubwindow → ℕ → SiamesePacket → DecoderSubwindow
fill_place subwindow place packet = record {
  originals = set subwindow.originals place (initialize_packet packet);
  got = set_bit subwindow.got place;
  got_count = subwindow.got_count + 1;
}

abbrev pub fill_element : DecoderWindow → ℕ → SiamesePacket → DecoderWindow
fill_element window element packet =
    let i = element / subwindow_size in
    let filled = fill_place (get_subwindow window i) (element % subwindow_size) packet in
    record window { subwindows = set window.subwindows i filled }

-- What `AddOriginal` returns, the window, the argument of `DeletePacketsBefore` where it is called,
-- and whether the checked region is reset.
pub record AddOutcome : Type 0 where
  pub result : SiameseResult
  pub window : DecoderWindow
  pub delete_before : Option ℕ
  pub resets_checked : Bool

-- The end of `AddOriginal`: the next expected element and the other components.
unfoldable pub after_fill : DecoderWindow → ℕ → ℕ → ℕ → AddOutcome
after_fill window element checked_start next_check_start =
    let is_expected = element == window.next_expected_element in
    let onward = iterate_next_expected window (element + 1) in
    record {
      result = success;
      window = if is_expected then onward else window;
      delete_before = if is_expected then some onward.next_expected_element else none;
      resets_checked = leb checked_start element && ltb element next_check_start;
    }

abbrev pub unused : SiameseResult → DecoderWindow → AddOutcome
unused result window = record {
  result = result;
  window = window;
  delete_before = none;
  resets_checked = false;
}

-- `DecoderPacketWindow::AddOriginal`, with `ElementStart` and `NextCheckStart` of the checked region.
unfoldable pub add_original : DecoderWindow → SiamesePacket → ℕ → ℕ → AddOutcome
add_original window packet checked_start next_check_start =
    let element = column_to_element window packet.packet_num in
    let grown = grow_window window (element + 1) in
    let filled = fill_element grown element packet in
    let outcome = after_fill filled element checked_start next_check_start in
    if window.emergency_disabled
    then unused disabled window
    else if is_column_delta_negative element
    then unused duplicate_data window
    else if ltb 0 (length (element_original grown element).buffer)
    then unused duplicate_data grown
    else outcome

-- `Decoder::Get`, without its check in debug builds: the result and the data.
unfoldable pub get_original : DecoderWindow → ℕ → SiameseResult × List ℕ
get_original window packet_num =
    let element = column_to_element window packet_num in
    let original = element_original window element in
    if window.emergency_disabled
    then (disabled, [])
    else if leb window.count element
    then (need_more_data, [])
    else if length original.buffer == 0
    then (need_more_data, [])
    else (success, (load_original original).content)
