-- ===== src/Decoder/Tests.antt =====
-- A window that lacks three of its first eight packets, and the theorems at a new one.
use tonk.Common.{ℕ, zero, suc, ◌+◌, ◌≡◌, refl, false, [], ◌∷◌, if◌then◌else◌, ◌==◌, arith}
use tonk.Serializers
use tonk.BitSet.{popcount, find_first_set, find_first_clear, set_bit, trailing_zeros64}
use tonk.Columns.{add_columns, subtract_columns, is_column_delta_negative}
use tonk.Originals.{SiamesePacket, initialize_packet, success, duplicate_data}
use tonk.Decoder.{
  DecoderWindow, new_window, get_subwindow, column_to_element, element_to_column, find_next_lost,
  find_next_got, iterate_next_expected,
}
use tonk.Decoder.Search.{IsCounted}
use tonk.Decoder.Adding.{add_original, get_original, grow_window, fill_place, after_fill}
use tonk.Decoder.Acknowledge.{generate_acknowledgement, loss_ranges}
use tonk.Decoder.Invariant.{empty_subwindow-IsSubwindow}
use tonk.Decoder.Kept.{IsValid, new_window-IsValid, add_original-IsValid}
use tonk.Decoder.Taken.{get_original-add_original}

abbrev packet : ℕ → SiamesePacket
packet n = record { packet_num = n; content = n ∷ (n + 1) ∷ [] }

-- The elements 0, 1, 3, 4 and 7 are received, and the columns roll over after the fourth.
abbrev pub received : DecoderWindow
received = record {
  count = 8;
  column_start = 0x3ffffc;
  next_expected_element = 2;
  subwindows = record { originals = []; got = 155; got_count = 5 } ∷ [];
  emergency_disabled = false;
}

pub received-IsCounted : (i : ℕ) → IsCounted (get_subwindow received i)
unfolding popcount
received-IsCounted zero = record { word = omega arith; counted = refl }
received-IsCounted (suc i) = empty_subwindow-IsSubwindow.counts

generate_acknowledgement-received :
    generate_acknowledgement received 30 ≡ (success, 0xff ∷ 0xff ∷ 0xfe ∷ 0 ∷ 9 ∷ 0 ∷ [])
unfolding find_next_lost find_next_got find_first_set find_first_clear trailing_zeros64
    generate_acknowledgement loss_ranges element_to_column add_columns
    Serializers.PacketNum.serialize_header Serializers.LossRange.serialize_header
    Serializers.LossRange.start_bytes Serializers.LossRange.count_bytes
    Serializers.LossRange.first_byte
generate_acknowledgement-received = refl

-- The same packet a second time.
add_original-twice :
    (add_original (add_original new_window (packet 1) 0 0).window (packet 1) 0 0).result
    ≡ duplicate_data
unfolding add_original grow_window fill_place after_fill iterate_next_expected find_next_lost
    find_first_clear trailing_zeros64 set_bit column_to_element subtract_columns
    is_column_delta_negative initialize_packet Serializers.PacketLength.serialize_header
add_original-twice = refl

add_original-IsValid_example : IsValid (add_original new_window (packet 3) 0 0).window
add_original-IsValid_example = add_original-IsValid new_window (packet 3) 0 0 new_window-IsValid

get_original-add_original_example :
    ((add_original new_window (packet 3) 0 0).result ≡ success)
    × (get_original (add_original new_window (packet 3) 0 0).window 3
        ≡ (if 3 == 3 then (success, (packet 3).content) else get_original new_window 3))
get_original-add_original_example =
    get_original-add_original new_window (packet 3) 0 0 new_window-IsValid refl
      (unfold column_to_element subtract_columns is_column_delta_negative in refl)
      (unfold column_to_element subtract_columns in refl) 3 (omega arith) (omega arith)
      (omega arith)
