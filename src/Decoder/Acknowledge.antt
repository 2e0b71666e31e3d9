-- ===== src/Decoder/Acknowledge.antt =====
-- SiameseDecoder.cpp: `Decoder::GenerateAcknowledgement`, without the statistics and the log.
use tonk.Common.{ℕ, zero, suc, ◌+◌, ◌-◌, ◌^◌, List, [], ◌++◌, length, if◌then◌else◌, ltb, leb, ◌==◌}
use tonk.Serializers
use tonk.Serializers.LossRange.{serialize_header, max_loss_range_bytes}
use tonk.Originals.{SiameseResult, success, need_more_data, disabled}
use tonk.Decoder.{DecoderWindow, element_to_column, find_next_lost, find_next_got}

-- The loop over the loss ranges, from the element `offset` on: a range starts at the next lost element,
-- relative to `offset`, and the next one cannot start before the element after the received one that
-- ended it. After the last one stands the end of the window, if that was not lost.
unfoldable pub loss_ranges : ℕ → DecoderWindow → ℕ → ℕ → List ℕ
loss_ranges zero window offset byte_limit = []
loss_ranges (suc fuel) window offset byte_limit =
    let start = find_next_lost window offset in
    let range_end = find_next_got window (start + 1) in
    let field = serialize_header (start - offset) (range_end - start - 1) in
    let rest = loss_ranges fuel window (range_end + 1) (byte_limit - length field) in
    let last = if leb offset window.count then serialize_header (window.count - offset) 0 else [] in
    if ltb byte_limit max_loss_range_bytes
    then []
    else if leb window.count start
    then last
    else field ++ rest

-- `byteLimit -= headerBytes`, which wraps for a buffer shorter than the header.
abbrev pub bytes_left : ℕ → ℕ → ℕ
bytes_left byte_limit used =
    if ltb byte_limit used then byte_limit + 2 ^ 32 - used else byte_limit - used

-- `Decoder::GenerateAcknowledgement`: the result and the bytes. The loop ends within `Count` turns.
unfoldable pub generate_acknowledgement : DecoderWindow → ℕ → SiameseResult × List ℕ
generate_acknowledgement window byte_limit =
    let expected = window.next_expected_element in
    let header = Serializers.PacketNum.serialize_header (element_to_column window expected) in
    let ranges =
      loss_ranges (suc window.count) window expected (bytes_left byte_limit (length header)) in
    if window.emergency_disabled
    then (disabled, [])
    else if window.count == 0
    then (need_more_data, [])
    else if leb window.count expected
    then (success, header)
    else (success, header ++ ranges)
