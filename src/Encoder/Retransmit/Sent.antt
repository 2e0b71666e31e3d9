-- ===== src/Encoder/Retransmit/Sent.antt =====
-- SiameseEncoder.cpp: when `Retransmit` does send a packet.
use tonk.Common.{
  ℕ, zero, suc, ◌+◌, ◌-◌, ◌%◌, ◌^◌, ◌≤◌, ◌<◌, ◌≡◌, ◌≢◌, refl, ap, sym, subst, ◌∙◌, Bool, true,
  false, not, List, [], length, none, if◌then◌else◌, ltb, leb, ◌==◌, ◌&&◌, ◌||◌, Bool-cases,
  eq_cases, inl, inr, arith,
}
use tonk.Columns.{subtract_columns, is_column_delta_negative}
use tonk.Originals.{disabled}
use tonk.Encoder.Window.{EncoderWindow, element_timestamp, get_unacknowledged_count}
use tonk.Encoder.Window.Invariant.{IsKept}
use tonk.Encoder.Losses.{restart_loss_iterator, all_losses}
use tonk.Encoder.Retransmit.{
  Sender, Retransmission, Scan, expired, scanned, is_expired, is_older, attempt_retransmit, wait,
  scan_losses, scan_in_flight, scan_rest, finish, search_oldest, retransmit, forget_oldest,
}
use tonk.Encoder.Retransmit.Sound.{Sound, scan_rest-Sound}

-- The attempt to send an element of the window whose timeout expired.
pub data Sends (sender : Sender) (now timeout : ℕ) : Retransmission → Type 0 where
  attempts :
      (element : ℕ) (before : Sender)
      → before.window ≡ sender.window
      → element < sender.window.count
      → is_expired now timeout (element_timestamp sender.window element) ≡ true
      → Sends sender now timeout (attempt_retransmit before element now)

false→not-true : (b : Bool) → b ≡ false → b ≢ true
false→not-true b h l = ground arith

-- A loop that found an element.
abbrev Finds : Scan → Type 0
Finds (expired element) = Unit
Finds (scanned nack oldest oldest_time) = false ≡ true

scan_in_flight-Finds :
    (window : EncoderWindow) (now timeout n element oldest oldest_time due : ℕ)
    → element ≤ due
    → due < element + n
    → is_expired now timeout (element_timestamp window due) ≡ true
    → Finds (scan_in_flight window now timeout n element oldest oldest_time)
unfolding scan_in_flight
scan_in_flight-Finds window now timeout zero element oldest oldest_time due h l e =
    absurd (omega (arith, h, l))
scan_in_flight-Finds window now timeout (suc n) element oldest oldest_time due h l e =
    let time = element_timestamp window element in
    let older = is_older oldest_time time in
    let rest =
      scan_in_flight window now timeout n (element + 1) (if older then element else oldest)
        (if older then time else oldest_time) in
    elim (Bool-cases (is_expired now timeout time)) [
      | inl here ↦ subst (λ (b : Bool). Finds (if b then expired element else rest)) (sym here) tt
      | inr early ↦ elim (eq_cases element due) [
        | inl same ↦ absurd (
            false→not-true (is_expired now timeout time) early
              (ap (λ (k : ℕ). is_expired now timeout (element_timestamp window k)) same ∙ e))
        | inr other ↦
            subst (λ (b : Bool). Finds (if b then expired element else rest)) (sym early)
              (scan_in_flight-Finds window now timeout n (element + 1)
                (if older then element else oldest) (if older then time else oldest_time) due
                (omega (arith, h, other)) (omega (arith, l)) e)
      ]
    ]

finish-Sends :
    (sender before : Sender) (now timeout : ℕ) (scan : Scan)
    → before.window ≡ sender.window
    → Sound sender.window now timeout scan
    → Finds scan
    → Sends sender now timeout (finish before now scan)
unfolding finish
finish-Sends sender before now timeout (expired element) e (inside, due) f =
    attempts element before e inside due
finish-Sends sender before now timeout (scanned nack oldest oldest_time) e h f =
    absurd (false→not-true false refl f)

search_oldest-Sends :
    (fuel : ℕ) (sender : Sender) (now timeout first element : ℕ)
    → sender.ack.losses.bytes ≡ []
    → first ≤ element
    → element < sender.window.count
    → is_expired now timeout (element_timestamp sender.window element) ≡ true
    → Sends sender now timeout (search_oldest fuel (forget_oldest sender) now timeout first)
unfolding search_oldest scan_rest scan_losses
search_oldest-Sends fuel sender now timeout first element no_losses h l e =
    let restarted = restart_loss_iterator sender.ack.next_column_expected sender.ack.losses in
    subst Searched {x = []}
      {y = if ltb 0 (length sender.ack.losses.bytes) then all_losses fuel restarted else []}
      (ap (λ (bytes : List ℕ). if ltb 0 (length bytes) then all_losses fuel restarted else [])
        (sym no_losses))
      searched
  where
    window : EncoderWindow
    window = sender.window

    before : Sender
    before = forget_oldest sender

    time : ℕ
    time = element_timestamp window first

    Searched : List ℕ → Type 0
    Searched columns = Sends sender now timeout (
        if is_expired now timeout time
        then attempt_retransmit before first now
        else finish before now (
            scan_rest window now timeout (scan_losses window now timeout columns first first time)))

    scanned-Finds :
        first < element
        → Finds (scan_rest window now timeout (scan_losses window now timeout [] first first time))
    scanned-Finds later =
        scan_in_flight-Finds window now timeout (window.count - (first + 1)) (first + 1) first time
          element (omega (arith, later)) (omega (arith, later, l)) e

    scanned-Sound : Sound window now timeout (scan_losses window now timeout [] first first time)
    scanned-Sound = tt

    searched : Searched []
    searched =
        let scan = scan_losses window now timeout [] first first time in
        let found = finish before now (scan_rest window now timeout scan) in
        elim (Bool-cases (is_expired now timeout time)) [
          | inl here ↦
              subst
                (λ (b : Bool).
                  Sends sender now timeout
                    (if b then attempt_retransmit before first now else found))
                (sym here) (attempts first before refl (omega (arith, h, l)) here)
          | inr early ↦ elim (eq_cases first element) [
            | inl same ↦ absurd (
                false→not-true (is_expired now timeout time) early
                  (ap (λ (k : ℕ). is_expired now timeout (element_timestamp window k)) same ∙ e))
            | inr other ↦
                subst
                  (λ (b : Bool).
                    Sends sender now timeout
                      (if b then attempt_retransmit before first now else found))
                  (sym early)
                  (finish-Sends sender before now timeout (scan_rest window now timeout scan) refl
                    (scan_rest-Sound window now timeout scan scanned-Sound)
                    (scanned-Finds (omega (arith, h, other))))
          ]
        ]

-- `Retransmit` where none of its early returns is taken.
branches-Sends :
    (sender : Sender) (now timeout : ℕ) (off none_left outside known : Bool)
    (oldest search : Retransmission)
    → off ≡ false
    → none_left ≡ false
    → outside ≡ false
    → known ≡ false
    → Sends sender now timeout search
    → Sends sender now timeout (
        if off
        then record { result = disabled; packet = none; sender = sender }
        else if none_left
        then wait (forget_oldest sender)
        else if outside
        then wait sender
        else if known
        then oldest
        else search)
branches-Sends sender now timeout off none_left outside known oldest search e f g h k =
    subst (Sends sender now timeout) (sym (last e f g h)) k
  where
    last :
        off ≡ false
        → none_left ≡ false
        → outside ≡ false
        → known ≡ false
        → ◌≡◌ {A = Retransmission}
            (if off
              then record { result = disabled; packet = none; sender = sender }
              else if none_left
              then wait (forget_oldest sender)
              else if outside
              then wait sender
              else if known
              then oldest
              else search)
            search
    last e f g h = rw (e, f, g, h) refl

-- Where the encoder is enabled, its window is valid, the receiver reported no loss and the oldest packet is not known
-- from an earlier call: if the timeout of any element expired from the first that the receiver expects on, and that
-- one is in the window and not removed, `Retransmit` attempts to send an element whose timeout expired.
pub retransmit-Sends :
    (fuel : ℕ) (sender : Sender) (now timeout element : ℕ)
    → IsKept sender.window
    → sender.window.emergency_disabled ≡ false
    → sender.ack.losses.bytes ≡ []
    → sender.ack.found_oldest ≡ false
    → sender.window.first_unremoved
      ≤ subtract_columns sender.ack.next_column_expected sender.window.column_start
    → subtract_columns sender.ack.next_column_expected sender.window.column_start ≤ element
    → element < sender.window.count
    → is_expired now timeout (element_timestamp sender.window element) ≡ true
    → Sends sender now timeout (retransmit fuel sender now timeout)
unfolding retransmit get_unacknowledged_count is_column_delta_negative
retransmit-Sends fuel sender now timeout element valid enabled no_losses unknown unremoved h l e =
    let window = sender.window in
    let first = subtract_columns sender.ack.next_column_expected window.column_start in
    let oldest = subtract_columns sender.ack.oldest_column window.column_start in
    branches-Sends sender now timeout window.emergency_disabled
      (get_unacknowledged_count window == 0)
      (is_column_delta_negative first || ltb first window.first_unremoved || leb window.count first)
      (sender.ack.found_oldest
        && (not (is_column_delta_negative oldest) && leb first oldest && ltb oldest window.count))
      (if is_expired now timeout (element_timestamp window oldest)
        then attempt_retransmit (forget_oldest sender) oldest now
        else wait sender)
      (search_oldest fuel (forget_oldest sender) now timeout first) enabled
      (some_left window.count window.first_unremoved (omega (arith, unremoved, h, l)) valid.few)
      (is_inside first window.first_unremoved window.count unremoved (omega (arith, h, l))
        valid.few)
      (ap
        (λ (b : Bool).
          b
          && (not (is_column_delta_negative oldest) && leb first oldest && ltb oldest window.count))
        unknown)
      (search_oldest-Sends fuel sender now timeout first element no_losses h l e)
  where
    some_left :
        (count removed : ℕ)
        → removed < count
        → count ≤ 16000
        → ((count + 2 ^ 32 - removed) % 2 ^ 32 == 0) ≡ false
    some_left count removed h l = ground arith

    is_inside :
        (first removed count : ℕ)
        → removed ≤ first
        → first < count
        → count ≤ 16000
        → (is_column_delta_negative first || ltb first removed || leb count first) ≡ false
    is_inside first removed count h l k = ground arith
