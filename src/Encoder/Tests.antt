-- ===== src/Encoder/Tests.antt =====
-- SiameseEncoder.cpp: loss ranges that are read, a message that is cut off, small windows and a retransmission.
use tonk.Common.{
  ◌-◌, ◌^◌, ◌==◌, if◌then◌else◌, suc, ◌+◌, ◌≡◌, refl, true, false, List, [], ◌∷◌, arith, length,
  some,
}
use tonk.Serializers
use tonk.Columns.{add_columns, subtract_columns, is_column_delta_negative, increment_column1}
use tonk.Encoder.Losses.{
  LossIterator, restart_loss_iterator, all_losses, decode_next_range, take_range,
}
use tonk.Encoder.Losses.Ranges.{LossRange, range_bytes, range_elements, columns_from}
use tonk.Encoder.Losses.Iteration.{restart_loss_iterator-all_losses}
use tonk.Originals.{success, initialize_packet, load_original}
use tonk.Encoder.Window.{
  element_timestamp, EncoderWindow, new_encoder_window, add_packet, remove_before, get_packet,
  get_remaining_slots, make_room, start_new_window, roll_column, fill_sent,
  get_unacknowledged_count,
}
use tonk.Encoder.Window.Invariant.{IsKept, new_encoder_window-IsKept}
use tonk.Encoder.Window.Kept.{add_packet-IsKept}
use tonk.Encoder.Window.Removed.{remove_before-IsKept}
use tonk.Encoder.Window.Given.{get_packet-add_packet}
use tonk.Encoder.Retransmit.{Sender, retransmit, search_oldest, is_expired, attempt_retransmit}
use tonk.Encoder.Retransmit.Chosen.{Chooses, retransmit-Chooses}
use tonk.Encoder.Retransmit.Sent.{Sends, retransmit-Sends}
use tonk.Encoder.Reading.{Acknowledgement, read_acknowledgement, reset_losses, read_body, rejected}

-- One loss, and three losses after a gap.
abbrev two_ranges : List LossRange
two_ranges =
    record { relative_start = 0; loss_count_m1 = 0 }
    ∷ record { relative_start = 40; loss_count_m1 = 2 }
    ∷ []

abbrev iterator : LossIterator
iterator = record { bytes = range_bytes two_ranges; offset = 0; loss_column = 0; loss_count = 0 }

range_elements-two_ranges : range_elements 5 two_ranges ≡ 5 ∷ 47 ∷ 48 ∷ 49 ∷ []
range_elements-two_ranges = refl

-- The window starts at column 0x3ffffe.
restart_loss_iterator-all_losses_example :
    all_losses
      (length (range_elements 5 two_ranges) + suc 0)
      (restart_loss_iterator (add_columns 5 0x3ffffe) iterator)
    ≡ columns_from 0x3ffffe (range_elements 5 two_ranges)
restart_loss_iterator-all_losses_example =
    restart_loss_iterator-all_losses 0 0x3ffffe 5 iterator two_ranges
      ((omega arith, omega arith), ((omega arith, omega arith), tt)) refl

abbrev fresh : Acknowledgement
fresh = record {
  losses = record { bytes = []; offset = 0; loss_column = 0; loss_count = 0 };
  has_data = false;
  next_column_expected = 0;
  found_oldest = false;
  oldest_column = 0;
}

-- A range that lacks its second byte is refused, but the next expected column has moved.
read_acknowledgement-cut :
    read_acknowledgement fresh (5 ∷ 4 ∷ [])
    ≡ rejected record {
      losses = record { bytes = 4 ∷ []; offset = 2; loss_column = 5; loss_count = 0 };
      has_data = true;
      next_column_expected = 5;
      found_oldest = false;
      oldest_column = 0;
    }
unfolding read_acknowledgement read_body reset_losses decode_next_range take_range subtract_columns
    is_column_delta_negative Serializers.PacketNum.deserialize_header
    Serializers.LossRange.deserialize_header Serializers.LossRange.read_start
    Serializers.LossRange.read_count
read_acknowledgement-cut = refl

-- The window after two packets, of two bytes and one.
abbrev one_packet : EncoderWindow
one_packet = (add_packet new_encoder_window (1 ∷ 2 ∷ []) 500).1

one_packet-IsKept : IsKept one_packet
one_packet-IsKept = add_packet-IsKept new_encoder_window (1 ∷ 2 ∷ []) 500 new_encoder_window-IsKept

one_packet_fields :
    (one_packet.emergency_disabled ≡ false) × (one_packet.count ≡ 1) × (one_packet.next_column ≡ 1)
unfolding add_packet get_remaining_slots make_room start_new_window roll_column increment_column1
    add_columns
one_packet_fields = (refl, refl, refl)

add_packet-IsKept_example : IsKept (add_packet one_packet (3 ∷ []) 510).1
add_packet-IsKept_example = add_packet-IsKept one_packet (3 ∷ []) 510 one_packet-IsKept

remove_before-IsKept_example : IsKept (remove_before (add_packet one_packet (3 ∷ []) 510).1 1)
remove_before-IsKept_example =
    remove_before-IsKept (add_packet one_packet (3 ∷ []) 510).1 1 add_packet-IsKept_example

get_packet-add_packet_example :
    ((add_packet one_packet (3 ∷ []) 510).0 ≡ success)
    × ((get_packet (add_packet one_packet (3 ∷ []) 510).1 0).0 ≡ (
        if 0 == one_packet.next_column
        then (success, record { packet_num = one_packet.next_column; content = 3 ∷ [] })
        else (get_packet one_packet 0).0))
get_packet-add_packet_example =
    get_packet-add_packet one_packet (3 ∷ []) 510 one_packet-IsKept one_packet_fields.0
      (omega (arith, one_packet_fields.1)) (omega (arith, one_packet_fields.1)) (omega arith) 0
      (omega arith)

-- As after eleven packets, all of them acknowledged, with the first one in its place.
abbrev drained : EncoderWindow
drained = record one_packet { next_column = 11; count = 0 }

-- The next packet starts a window at column 8, in which the number 8 gives packet 0.
get_packet-stale :
    (get_packet (add_packet drained (4 ∷ []) 520).1 8).0
    ≡ (success, record { packet_num = 0; content = 1 ∷ 2 ∷ [] })
unfolding add_packet get_remaining_slots make_room start_new_window roll_column increment_column1
    add_columns subtract_columns remove_before is_column_delta_negative get_packet fill_sent
    initialize_packet load_original Serializers.PacketLength.serialize_header
get_packet-stale = refl

-- With every packet removed, the count of unacknowledged packets wraps around.
get_unacknowledged_count-wraps :
    get_unacknowledged_count
      (remove_before (remove_before (add_packet one_packet (3 ∷ []) 510).1 1) 2)
    ≡ 2 ^ 32 - 1
unfolding add_packet get_remaining_slots make_room start_new_window roll_column increment_column1
    add_columns subtract_columns remove_before is_column_delta_negative get_unacknowledged_count
get_unacknowledged_count-wraps = refl

abbrev sender : Sender
sender = record { window = one_packet; ack = fresh }

retransmit-Chooses_example : Chooses sender 5000 100 (retransmit 3 sender 5000 100)
retransmit-Chooses_example = retransmit-Chooses 3 sender 5000 100

sender_fields :
    (one_packet.first_unremoved ≡ 0)
    × (subtract_columns 0 one_packet.column_start ≡ 0)
    × (is_expired 5000 100 (element_timestamp one_packet 0) ≡ true)
unfolding add_packet get_remaining_slots make_room start_new_window roll_column fill_sent
    increment_column1 add_columns subtract_columns is_expired
sender_fields = (refl, refl, refl)

retransmit-Sends_example : Sends sender 5000 100 (retransmit 3 sender 5000 100)
retransmit-Sends_example =
    retransmit-Sends 3 sender 5000 100 0 one_packet-IsKept one_packet_fields.0 refl refl
      (omega (arith, sender_fields.0)) (omega (arith, sender_fields.1))
      (omega (arith, one_packet_fields.1)) sender_fields.2

-- The packet is sent again when its timeout expires.
retransmit-again :
    (retransmit 3 sender 5000 100).packet ≡ some record { packet_num = 0; content = 1 ∷ 2 ∷ [] }
unfolding retransmit search_oldest is_expired attempt_retransmit get_unacknowledged_count add_packet
    get_remaining_slots make_room start_new_window roll_column increment_column1 add_columns
    subtract_columns is_column_delta_negative fill_sent initialize_packet load_original
    Serializers.PacketLength.serialize_header
retransmit-again = refl
