-- ===== src/Encoder/Window/Answers.antt =====
-- SiameseEncoder.cpp: what `Encoder::Get` makes of one element of the window.
use tonk.Common.{
  ℕ, ◌<◌, ◌≡◌, ◌≢◌, refl, Bool, true, false, [], length, arith, if◌then◌else◌, leb, ◌==◌,
}
use tonk.Columns.{subtract_columns}
use tonk.Originals.{
  SiameseResult, SiamesePacket, OriginalPacket, initialize_packet, load_original, disabled,
  need_more_data, success,
}
use tonk.Originals.Loading.{load_original-initialize_packet, initialize_packet-nonempty}
use tonk.Encoder.Window.{EncoderWindow, window_element, get_packet}

-- What `Get` makes of an element: whether it is outside the window, and its place.
abbrev pub answer : ℕ → Bool → OriginalPacket → SiameseResult × SiamesePacket
answer num outside original =
    let nothing : SiamesePacket = record { packet_num = num; content = [] } in
    let loaded = load_original original in
    if outside
    then (need_more_data, nothing)
    else if length original.buffer == 0
    then (need_more_data, nothing)
    else if length loaded.content == 0
    then (disabled, loaded)
    else (success, loaded)

pub get_packet-answer :
    (window : EncoderWindow) (num : ℕ)
    → window.emergency_disabled ≡ false
    → let element = subtract_columns num window.column_start in
      (get_packet window num).0
      ≡ answer num (leb window.count element) (window_element window element)
unfolding get_packet
get_packet-answer window num h =
    let original = window_element window (subtract_columns num window.column_start) in
    branches window.emergency_disabled (leb window.count (subtract_columns num window.column_start))
      (length original.buffer == 0) (length (load_original original).content == 0)
      (load_original original) record { packet_num = num; content = [] } h
  where
    true-ne : true ≢ false
    true-ne e = ground arith

    branches :
        (off outside unused empty : Bool) (loaded nothing : SiamesePacket)
        → off ≡ false
        → let got : (SiameseResult × SiamesePacket) × EncoderWindow =
            if off
            then ((disabled, nothing), window)
            else if outside
            then ((need_more_data, nothing), window)
            else if unused
            then ((need_more_data, nothing), window)
            else if empty
            then ((disabled, loaded), record window { emergency_disabled = true })
            else ((success, loaded), window) in
          got.0 ≡ (
            if outside
            then (need_more_data, nothing)
            else if unused
            then (need_more_data, nothing)
            else if empty
            then (disabled, loaded)
            else (success, loaded))
    branches true outside unused empty loaded nothing e = absurd (true-ne e)
    branches false true unused empty loaded nothing e = refl
    branches false false true empty loaded nothing e = refl
    branches false false false true loaded nothing e = refl
    branches false false false false loaded nothing e = refl

pub answer-initialize_packet :
    (num : ℕ) (packet : SiamesePacket)
    → 0 < length packet.content
    → answer num false (initialize_packet packet) ≡ (success, packet)
answer-initialize_packet num packet h =
    branches (length (initialize_packet packet).buffer == 0)
      (is_some (length (initialize_packet packet).buffer) (initialize_packet-nonempty packet))
      (load_original (initialize_packet packet)) (load_original-initialize_packet packet)
  where
    is_some : (n : ℕ) → 0 < n → (n == 0) ≡ false
    is_some n h = ground arith

    branches :
        (unused : Bool)
        → unused ≡ false
        → (loaded : SiamesePacket) → loaded ≡ packet
        → ◌≡◌ {A = SiameseResult × SiamesePacket}
            (if unused
              then (need_more_data, record { packet_num = num; content = [] })
              else if length loaded.content == 0
              then (disabled, loaded)
              else (success, loaded))
            (success, packet)
    branches unused e loaded f = rw (e, f, is_some (length packet.content) h) refl
