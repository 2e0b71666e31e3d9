-- ===== src/Encoder/Window.antt =====
-- SiameseEncoder.h and SiameseEncoder.cpp: `EncoderPacketWindow`, the packets that were sent and may be
-- needed again, without its running sums and the statistics. Memory never runs out.
pub mod Places
pub mod Invariant
pub mod Kept
pub mod Removed
pub mod Answers
pub mod Given
use tonk.Common.{
  ℕ, ◌+◌, ◌-◌, ◌*◌, ◌/◌, ◌%◌, ◌^◌, Bool, true, false, List, [], ◌∷◌, ◌++◌, length, get_or, set,
  replicate, if◌then◌else◌, ltb, leb, ◌==◌,
}
use tonk.Common.Bits.{u32}
use tonk.Serializers.PacketCount.{max_packets}
use tonk.Columns.{
  add_columns, subtract_columns, increment_column1, is_column_delta_negative, column_lane_count,
}
use tonk.Originals.{
  SiameseResult, SiamesePacket, OriginalPacket, no_packet, initialize_packet, load_original,
  success, need_more_data, max_packets_reached, disabled,
}
use tonk.Decoder.{subwindow_size}

pub record EncoderSubwindow : Type 0 where
  pub originals : List OriginalPacket
  pub last_send_msec : List ℕ

-- A new subwindow, whose times are written before they are read.
abbrev pub fresh_subwindow : EncoderSubwindow
fresh_subwindow = record {
  originals = replicate subwindow_size no_packet;
  last_send_msec = replicate subwindow_size 0;
}

-- `lane_longest` has the longest packet of each lane.
pub record EncoderWindow : Type 0 where
  pub next_column : ℕ
  pub count : ℕ
  pub column_start : ℕ
  pub longest_packet : ℕ
  pub lane_longest : List ℕ
  pub first_unremoved : ℕ
  pub subwindows : List EncoderSubwindow
  pub emergency_disabled : Bool

-- A window as its constructor leaves it.
abbrev pub new_encoder_window : EncoderWindow
new_encoder_window = record {
  next_column = 0;
  count = 0;
  column_start = 0;
  longest_packet = 0;
  lane_longest = replicate column_lane_count 0;
  first_unremoved = 0;
  subwindows = [];
  emergency_disabled = false;
}

abbrev pub subwindow_at : EncoderWindow → ℕ → EncoderSubwindow
subwindow_at window i = get_or window.subwindows i fresh_subwindow

-- `GetWindowElement` and `GetWindowElementTimestampPtr`
abbrev pub window_element : EncoderWindow → ℕ → OriginalPacket
window_element window element =
    get_or (subwindow_at window (element / subwindow_size)).originals (element % subwindow_size)
      no_packet

abbrev pub element_timestamp : EncoderWindow → ℕ → ℕ
element_timestamp window element =
    get_or (subwindow_at window (element / subwindow_size)).last_send_msec
      (element % subwindow_size) 0

-- `GetRemainingSlots`
unfoldable pub get_remaining_slots : EncoderWindow → ℕ
get_remaining_slots window = u32 (max_packets + 2 ^ 32 - window.count)

-- `GetUnacknowledgedCount`
unfoldable pub get_unacknowledged_count : EncoderWindow → ℕ
get_unacknowledged_count window = u32 (window.count + 2 ^ 32 - window.first_unremoved)

-- The part of `Add` that makes room for the element `Count`.
unfoldable pub make_room : EncoderWindow → EncoderWindow
make_room window = record window {
  subwindows =
      if leb (length window.subwindows * subwindow_size) (window.count + column_lane_count)
      then window.subwindows ++ fresh_subwindow ∷ []
      else window.subwindows;
}

-- `StartNewWindow`
unfoldable pub start_new_window : EncoderWindow → ℕ → EncoderWindow
start_new_window window column =
    let element = column % column_lane_count in
    record window {
      column_start = column - element;
      first_unremoved = element;
      count = element + 1;
      longest_packet = 0;
      lane_longest = replicate column_lane_count 0;
    }

-- The packet and its time in their place.
unfoldable pub fill_sent : EncoderSubwindow → ℕ → SiamesePacket → ℕ → EncoderSubwindow
fill_sent subwindow place packet now = record {
  originals = set subwindow.originals place (initialize_packet packet);
  last_send_msec = set subwindow.last_send_msec place (u32 now);
}

abbrev pub store_element : EncoderWindow → ℕ → SiamesePacket → ℕ → EncoderWindow
store_element window element packet now =
    let i = element / subwindow_size in
    let filled = fill_sent (subwindow_at window i) (element % subwindow_size) packet now in
    record window { subwindows = set window.subwindows i filled }

-- The end of `Add`: the next column and the longest packets.
unfoldable pub roll_column : EncoderWindow → ℕ → ℕ → EncoderWindow
roll_column window column bytes =
    let lane = column % column_lane_count in
    let lane_bytes = get_or window.lane_longest lane 0 in
    record window {
      next_column = increment_column1 window.next_column;
      lane_longest =
          if ltb lane_bytes bytes then set window.lane_longest lane bytes else window.lane_longest;
      longest_packet = if ltb window.longest_packet bytes then bytes else window.longest_packet;
    }

-- `Add`, of data at a time; the packet number it assigns is `next_column` before the call.
unfoldable pub add_packet : EncoderWindow → List ℕ → ℕ → SiameseResult × EncoderWindow
add_packet window content now =
    let column = window.next_column in
    let packet : SiamesePacket = record { packet_num = column; content = content } in
    let roomy = make_room window in
    let element = if window.count == 0 then column % column_lane_count else window.count in
    let started =
      if window.count == 0
      then start_new_window roomy column
      else record roomy { count = window.count + 1 } in
    let stored = store_element started element packet now in
    if window.emergency_disabled
    then (disabled, window)
    else if get_remaining_slots window == 0
    then (max_packets_reached, window)
    else (success, roll_column stored column (length (initialize_packet packet).buffer))

-- `RemoveBefore`
unfoldable pub remove_before : EncoderWindow → ℕ → EncoderWindow
remove_before window first_kept_column =
    let element = subtract_columns first_kept_column window.column_start in
    if window.emergency_disabled
    then window
    else if leb window.count element
    then (if is_column_delta_negative element then window else record window { count = 0 })
    else if ltb window.first_unremoved element
    then record window { first_unremoved = element }
    else window

-- `Encoder::Get`, without its checks in debug builds: the result with the loaded packet, and the window.
unfoldable pub get_packet : EncoderWindow → ℕ → (SiameseResult × SiamesePacket) × EncoderWindow
get_packet window packet_num =
    let element = subtract_columns packet_num window.column_start in
    let original = window_element window element in
    let loaded = load_original original in
    let nothing : SiamesePacket = record { packet_num = packet_num; content = [] } in
    if window.emergency_disabled
    then ((disabled, nothing), window)
    else if leb window.count element
    then ((need_more_data, nothing), window)
    else if length original.buffer == 0
    then ((need_more_data, nothing), window)
    else if length loaded.content == 0
    then ((disabled, loaded), record window { emergency_disabled = true })
    else ((success, loaded), window)
