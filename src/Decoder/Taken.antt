-- ===== src/Decoder/Taken.antt =====
-- SiameseDecoder.cpp: a packet that the window takes is given back by its number.
use tonk.Common.{
  ℕ, ◌+◌, ◌/◌, ◌%◌, ◌<◌, ◌≡◌, ◌≢◌, refl, ap, sym, ◌∙◌, Bool, true, false, List, [], length, get_or,
  arith, if◌then◌else◌, ltb, leb, ◌==◌, lt→not-leb, eq_cases, inl, inr,
}
use native.Mathlib.Decide.{dec_lt}
use tonk.Common.Bits.Flags.{bit}
use tonk.Columns.{is_column_delta_negative, subtract_columns, column_period}
use tonk.Originals.{
  SiameseResult, SiamesePacket, OriginalPacket, initialize_packet, load_original, no_packet,
  success, need_more_data, disabled, duplicate_data,
}
use tonk.Originals.Loading.{load_original-initialize_packet, initialize_packet-nonempty}
use tonk.Decoder.{
  DecoderWindow, get_subwindow, lost_element, column_to_element, iterate_next_expected,
  find_next_lost,
}
use tonk.Decoder.Adding.{
  AddOutcome, fill_element, grow_window, element_original, after_fill, add_original, get_original,
  unused,
}
use tonk.Decoder.Filling.{
  get_subwindow-grow_window, length-grow_window, count-grow_window, element_original-fill_same,
  element_original-fill_other,
}
use tonk.Decoder.Kept.{IsValid, grow_window-IsValid}

-- What `Get` makes of an element: whether it is outside the window, and its place.
abbrev answer : Bool → OriginalPacket → SiameseResult × List ℕ
answer outside original =
    if outside
    then (need_more_data, [])
    else if length original.buffer == 0
    then (need_more_data, [])
    else (success, (load_original original).content)

get_original-answer :
    (window : DecoderWindow) (num : ℕ)
    → window.emergency_disabled ≡ false
    → let element = column_to_element window num in
      get_original window num ≡ answer (leb window.count element) (element_original window element)
unfolding get_original
get_original-answer window num h =
    let element = column_to_element window num in
    ap
      (λ (b : Bool).
        if b
        then (disabled, [])
        else answer (leb window.count element) (element_original window element))
      h

is_empty : (n : ℕ) → ltb 0 n ≡ false → (n == 0) ≡ true
is_empty n h = ground arith

is_some : (n : ℕ) → 0 < n → (n == 0) ≡ false
is_some n h = ground arith

answer-initialize_packet :
    (packet : SiamesePacket) → answer false (initialize_packet packet) ≡ (success, packet.content)
answer-initialize_packet packet =
    ap
      (λ (b : Bool).
        if b
        then (need_more_data, [])
        else (success, (load_original (initialize_packet packet)).content))
      (is_some (length (initialize_packet packet).buffer) (initialize_packet-nonempty packet))
    ∙ ap (λ (loaded : SiamesePacket). (success, loaded.content))
        (load_original-initialize_packet packet)

-- An empty place gives no data, inside or outside the window.
answer-empty :
    (outside : Bool) (original : OriginalPacket)
    → ltb 0 (length original.buffer) ≡ false
    → answer outside original ≡ (need_more_data, [])
answer-empty true original h = refl
answer-empty false original h =
    ap
      (λ (b : Bool).
        if b then (need_more_data, []) else (success, (load_original original).content))
      (is_empty (length original.buffer) h)

-- Packet numbers that differ have elements that differ.
column_to_element-injective :
    (window : DecoderWindow) (a b : ℕ)
    → a < column_period
    → b < column_period
    → window.column_start < column_period
    → column_to_element window a ≡ column_to_element window b
    → a ≡ b
unfolding column_to_element subtract_columns
column_to_element-injective window a b h k l e = omega arith

module _ (window : DecoderWindow) (packet : SiamesePacket) (checked_start next_check_start : ℕ)
    (valid : IsValid window) (enabled : window.emergency_disabled ≡ false)
    (recent : is_column_delta_negative (column_to_element window packet.packet_num) ≡ false)
    (fresh : lost_element window (column_to_element window packet.packet_num) ≡ true) where
  abbrev place : ℕ
  place = column_to_element window packet.packet_num

  abbrev bigger : DecoderWindow
  bigger = grow_window window (place + 1)

  abbrev filled : DecoderWindow
  filled = fill_element bigger place packet

  abbrev outcome : AddOutcome
  outcome = add_original window packet checked_start next_check_start

  element_original-bigger : (e : ℕ) → element_original bigger e ≡ element_original window e
  element_original-bigger e =
      ap (λ subwindow. get_or subwindow.originals (e % 64) no_packet)
        (get_subwindow-grow_window window (place + 1) (e / 64))

  -- A lost element's place is empty.
  lost-empty :
      (e : ℕ)
      → lost_element window e ≡ true
      → ltb 0 (length (element_original window e).buffer) ≡ false
  lost-empty e h =
      (valid.subwindows_valid (e / 64)).filled (e % 64) (omega arith)
      ∙ not-one (bit (get_subwindow window (e / 64)).got (e % 64)) h
    where
      not-one : (b : ℕ) → (b == 0) ≡ true → (b == 1) ≡ false
      not-one b h = ground arith

  add_original-fresh : outcome ≡ after_fill filled place checked_start next_check_start
  unfolding add_original
  add_original-fresh =
      third window.emergency_disabled (is_column_delta_negative place)
        (ltb 0 (length (element_original bigger place).buffer)) (unused disabled window)
        (unused duplicate_data window) (unused duplicate_data bigger)
        (after_fill filled place checked_start next_check_start) enabled recent
        (ap (λ original. ltb 0 (length original.buffer)) (element_original-bigger place)
          ∙ lost-empty place fresh)
    where
      third :
          (a b c : Bool) (w x y z : AddOutcome)
          → a ≡ false
          → b ≡ false
          → c ≡ false
          → (if a then w else if b then x else if c then y else z) ≡ z
      third a b c w x y z e f g = rw (e, f, g) refl

  get_original-after_fill :
      (num : ℕ)
      → get_original (after_fill filled place checked_start next_check_start).window num
        ≡ get_original filled num
  unfolding after_fill iterate_next_expected get_original column_to_element
  get_original-after_fill num =
      either (place == bigger.next_expected_element) (iterate_next_expected filled (place + 1))
        filled
        (either (leb bigger.count bigger.next_expected_element) filled
          (record filled { next_expected_element = find_next_lost filled (place + 1) }) refl refl)
        refl
    where
      either :
          (b : Bool) (x y : DecoderWindow)
          → get_original x num ≡ get_original filled num
          → get_original y num ≡ get_original filled num
          → get_original (if b then x else y) num ≡ get_original filled num
      either true x y h k = h
      either false x y h k = k

  get_original-filled :
      (num : ℕ)
      → get_original filled num
        ≡ answer
            (leb bigger.count (column_to_element window num))
            (element_original filled (column_to_element window num))
  unfolding column_to_element grow_window
  get_original-filled num = get_original-answer filled num enabled

  get_original-filled_same : get_original filled packet.packet_num ≡ (success, packet.content)
  get_original-filled_same =
      get_original-filled packet.packet_num
      ∙ (ap (λ (b : Bool). answer b (element_original filled place))
            (lt→not-leb bigger.count place (count-grow_window window place).1)
          ∙ (ap (answer false) (
                element_original-fill_same bigger place packet (length-grow_window window place)
                  ((grow_window-IsValid window place valid).subwindows_valid (place / 64)))
              ∙ answer-initialize_packet packet))

  get_original-filled_other :
      (num : ℕ)
      → place ≢ column_to_element window num
      → get_original filled num ≡ get_original window num
  get_original-filled_other num h =
      let element = column_to_element window num in
      get_original-filled num
      ∙ (ap (answer (leb bigger.count element)) (
            element_original-fill_other bigger place packet (length-grow_window window place)
              element h
            ∙ element_original-bigger element)
          ∙ (same_answer element ∙ sym (get_original-answer window num enabled)))
    where
      same_answer :
          (element : ℕ)
          → answer (leb bigger.count element) (element_original window element)
            ≡ answer (leb window.count element) (element_original window element)
      same_answer element = elim (dec_lt element window.count) [
        | yes inside ↦
            ap (λ (b : Bool). answer b (element_original window element))
              (lt→not-leb bigger.count element
                  (omega (arith, inside, (count-grow_window window place).0))
                ∙ sym (lt→not-leb window.count element inside))
        | no outside ↦
            let empty = lost-empty element (valid.beyond element (omega (arith, outside))) in
            answer-empty (leb bigger.count element) (element_original window element) empty
            ∙ sym (answer-empty (leb window.count element) (element_original window element) empty)
      ]

  -- A packet that is not before the window and was not received yet is taken: its number gives its data, and every
  -- other packet number what it gave before. The window is valid and not disabled, and the numbers lie
  -- below the period.
  pub get_original-add_original :
      (num : ℕ)
      → num < column_period
      → packet.packet_num < column_period
      → window.column_start < column_period
      → ((add_original window packet checked_start next_check_start).result ≡ success)
        × (get_original (add_original window packet checked_start next_check_start).window num ≡ (
            if num == packet.packet_num
            then (success, packet.content)
            else get_original window num))
  get_original-add_original num h k l = (
    ap (λ (o : AddOutcome). o.result) add_original-fresh ∙ unfold after_fill in refl,
    ap (λ (o : AddOutcome). get_original o.window num) add_original-fresh
        ∙ (get_original-after_fill num ∙ elim (eq_cases num packet.packet_num) [
          | inl same ↦
              ap (get_original filled) same
              ∙ (get_original-filled_same
                  ∙ ap
                      (λ (b : Bool).
                        if b then (success, packet.content) else get_original window num)
                      (sym (equal num packet.packet_num same)))
          | inr other ↦
              get_original-filled_other num (λ e.
                other (sym (column_to_element-injective window packet.packet_num num k h l e)))
              ∙ ap (λ (b : Bool). if b then (success, packet.content) else get_original window num)
                  (sym (differ num packet.packet_num other))
        ]),
  )
    where
      differ : (a b : ℕ) → a ≢ b → (a == b) ≡ false
      differ a b n = ground arith

      equal : (a b : ℕ) → a ≡ b → (a == b) ≡ true
      equal a b e = ground arith
