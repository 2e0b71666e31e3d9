-- ===== src/Encoder/Retransmit.antt =====
-- SiameseEncoder.cpp: `Encoder::Retransmit`, which chooses the packet that is sent again, without the
-- statistics and the log. The retransmit timeout and the time are arguments. The place that the loss iterator is left
-- at is not kept: it is restarted before every use.
pub mod Sound
pub mod Chosen
pub mod Sent
use tonk.Common.{
  ℕ, zero, suc, ◌+◌, ◌-◌, ◌/◌, ◌%◌, ◌^◌, Bool, true, false, not, Option, none, some, List, [], ◌∷◌,
  length, get_or, set, if◌then◌else◌, ltb, leb, ◌==◌, ◌&&◌, ◌||◌,
}
use tonk.Common.Bits.{u32}
use tonk.Columns.{subtract_columns, is_column_delta_negative}
use tonk.Originals.{SiameseResult, SiamesePacket, load_original, success, need_more_data, disabled}
use tonk.Decoder.{subwindow_size}
use tonk.Encoder.Losses.{restart_loss_iterator, all_losses}
use tonk.Encoder.Reading.{Acknowledgement}
use tonk.Encoder.Window.{
  EncoderWindow, subwindow_at, window_element, element_timestamp, get_unacknowledged_count,
}

-- The parts of `Encoder` that `Retransmit` uses.
pub record Sender : Type 0 where
  pub window : EncoderWindow
  pub ack : Acknowledgement

-- The result, the packet to send and the new state.
pub record Retransmission : Type 0 where
  pub result : SiameseResult
  pub packet : Option SiamesePacket
  pub sender : Sender

-- `(uint32_t)(nowMsec - lastSendMsec) >= retransmitMsec`
unfoldable pub is_expired : ℕ → ℕ → ℕ → Bool
is_expired now timeout last_send = leb timeout (u32 (now + 2 ^ 32 - last_send))

-- `(int32_t)(oldestSendMsec - lastSendMsec) > 0`
unfoldable pub is_older : ℕ → ℕ → Bool
is_older oldest last_send =
    let difference = u32 (oldest + 2 ^ 32 - last_send) in
    ltb 0 difference && ltb difference (2 ^ 31)

-- A new send time of an element.
abbrev pub set_timestamp : EncoderWindow → ℕ → ℕ → EncoderWindow
set_timestamp window element now =
    let i = element / subwindow_size in
    let subwindow = subwindow_at window i in
    let times = set subwindow.last_send_msec (element % subwindow_size) (u32 now) in
    record window {
      subwindows = set window.subwindows i (record subwindow { last_send_msec = times });
    }

-- `AttemptRetransmit`, after the new send time.
unfoldable pub attempt_retransmit : Sender → ℕ → ℕ → Retransmission
attempt_retransmit sender element now =
    let packet = load_original (window_element sender.window element) in
    let sent = set_timestamp sender.window element now in
    if length packet.content == 0
    then record {
      result = disabled;
      packet = none;
      sender = record sender { window = record sent { emergency_disabled = true } };
    }
    else record { result = success; packet = some packet; sender = record sender { window = sent } }

abbrev pub wait : Sender → Retransmission
wait sender = record { result = need_more_data; packet = none; sender = sender }

-- What the loops find: an element whose timeout expired, or the last one seen in the losses and the
-- oldest one with its time.
pub data Scan : Type 0 where
  expired : ℕ → Scan
  scanned : ℕ → ℕ → ℕ → Scan

-- The loop over the columns of the losses.
unfoldable pub scan_losses : EncoderWindow → ℕ → ℕ → List ℕ → ℕ → ℕ → ℕ → Scan
scan_losses window now timeout [] nack oldest oldest_time = scanned nack oldest oldest_time
scan_losses window now timeout (column ∷ columns) nack oldest oldest_time =
    let element = subtract_columns column window.column_start in
    let time = element_timestamp window element in
    let older = is_older oldest_time time in
    let rest =
      scan_losses window now timeout columns element (if older then element else oldest)
        (if older then time else oldest_time) in
    if leb window.count element
    then scanned element oldest oldest_time
    else if is_expired now timeout time
    then expired element
    else rest

-- The loop over the `n` elements from `element` on.
unfoldable pub scan_in_flight : EncoderWindow → ℕ → ℕ → ℕ → ℕ → ℕ → ℕ → Scan
scan_in_flight window now timeout zero element oldest oldest_time =
    scanned element oldest oldest_time
scan_in_flight window now timeout (suc n) element oldest oldest_time =
    let time = element_timestamp window element in
    let older = is_older oldest_time time in
    let rest =
      scan_in_flight window now timeout n (element + 1) (if older then element else oldest)
        (if older then time else oldest_time) in
    if is_expired now timeout time then expired element else rest

-- After the losses the loop goes on behind the last one seen.
unfoldable pub scan_rest : EncoderWindow → ℕ → ℕ → Scan → Scan
scan_rest window now timeout (expired element) = expired element
scan_rest window now timeout (scanned nack oldest oldest_time) =
    scan_in_flight window now timeout (window.count - (nack + 1)) (nack + 1) oldest oldest_time

-- The end of `Retransmit`: the packet found, or the oldest one for the next call.
unfoldable pub finish : Sender → ℕ → Scan → Retransmission
finish sender now (expired element) = attempt_retransmit sender element now
finish sender now (scanned nack oldest oldest_time) =
    let ack = record sender.ack {
      found_oldest = true;
      oldest_column = (window_element sender.window oldest).column;
    } in
    wait (record sender { ack = ack })

abbrev pub forget_oldest : Sender → Sender
forget_oldest sender = record sender { ack = record sender.ack { found_oldest = false } }

-- The search from the first element that the receiver expects, where the oldest one is not known. The
-- losses are seen in `fuel` turns at most.
unfoldable pub search_oldest : ℕ → Sender → ℕ → ℕ → ℕ → Retransmission
search_oldest fuel sender now timeout first =
    let time = element_timestamp sender.window first in
    let restarted = restart_loss_iterator sender.ack.next_column_expected sender.ack.losses in
    let columns =
      if ltb 0 (length sender.ack.losses.bytes) then all_losses fuel restarted else [] in
    let seen = scan_losses sender.window now timeout columns first first time in
    if is_expired now timeout time
    then attempt_retransmit sender first now
    else finish sender now (scan_rest sender.window now timeout seen)

-- `Encoder::Retransmit`
unfoldable pub retransmit : ℕ → Sender → ℕ → ℕ → Retransmission
retransmit fuel sender now timeout =
    let window = sender.window in
    let ack = sender.ack in
    let first = subtract_columns ack.next_column_expected window.column_start in
    let outside =
      is_column_delta_negative first
      || ltb first window.first_unremoved
      || leb window.count first in
    let element = subtract_columns ack.oldest_column window.column_start in
    let usable =
      not (is_column_delta_negative element) && leb first element && ltb element window.count in
    if window.emergency_disabled
    then record { result = disabled; packet = none; sender = sender }
    else if get_unacknowledged_count window == 0
    then wait (forget_oldest sender)
    else if outside
    then wait sender
    else if ack.found_oldest && usable
    then (if is_expired now timeout (element_timestamp window element)
        then attempt_retransmit (forget_oldest sender) element now
        else wait sender)
    else search_oldest fuel (forget_oldest sender) now timeout first
