-- ===== src/Encoder/Retransmit/Chosen.antt =====
-- SiameseEncoder.cpp: which packet `Retransmit` sends.
use tonk.Common.{
  ℕ, ◌<◌, ◌≡◌, refl, sym, subst, Bool, true, false, not, none, [], length, if◌then◌else◌, ltb, leb,
  ◌==◌, ◌&&◌, ◌||◌, Bool-cases, inl, inr, arith, not-leb→lt, ltb→lt,
}
use tonk.Columns.{subtract_columns, is_column_delta_negative}
use tonk.Originals.{SiameseResult, need_more_data, disabled}
use tonk.Encoder.Window.{window_element, element_timestamp, get_unacknowledged_count}
use tonk.Encoder.Losses.{restart_loss_iterator, all_losses}
use tonk.Encoder.Retransmit.{
  Sender, Retransmission, Scan, expired, scanned, is_expired, attempt_retransmit, wait, scan_losses,
  scan_rest, finish, search_oldest, retransmit, forget_oldest,
}
use tonk.Encoder.Retransmit.Sound.{Sound, scan_losses-Sound, scan_rest-Sound}

-- A call either gives no packet and leaves the window as it is, or is the attempt to send an element that
-- is due.
pub data Chooses (sender : Sender) (now timeout : ℕ) : Retransmission → Type 0 where
  waits :
      (result : SiameseResult) (after : Sender)
      → after.window ≡ sender.window
      → Chooses sender now timeout record { result = result; packet = none; sender = after }
  sends :
      (element : ℕ) (before : Sender)
      → before.window ≡ sender.window
      → element < sender.window.count
      → is_expired now timeout (element_timestamp sender.window element) ≡ true
      → Chooses sender now timeout (attempt_retransmit before element now)

finish-Chooses :
    (sender before : Sender) (now timeout : ℕ) (scan : Scan)
    → before.window ≡ sender.window
    → Sound sender.window now timeout scan
    → Chooses sender now timeout (finish before now scan)
unfolding finish
finish-Chooses sender before now timeout (expired element) e (inside, due) =
    sends element before e inside due
finish-Chooses sender before now timeout (scanned nack oldest oldest_time) e h =
    let ack = record before.ack {
      found_oldest = true;
      oldest_column = (window_element before.window oldest).column;
    } in
    waits need_more_data (record before { ack = ack }) e

-- Of two outcomes of a test that an element is due.
due-Chooses :
    (sender before : Sender) (now timeout element : ℕ) (later : Retransmission)
    → before.window ≡ sender.window
    → element < sender.window.count
    → Chooses sender now timeout later
    → Chooses sender now timeout (
        if is_expired now timeout (element_timestamp sender.window element)
        then attempt_retransmit before element now
        else later)
due-Chooses sender before now timeout element later e inside h =
    elim (Bool-cases (is_expired now timeout (element_timestamp sender.window element))) [
      | inl due ↦
          subst
            (λ (b : Bool).
              Chooses sender now timeout
                (if b then attempt_retransmit before element now else later))
            (sym due) (sends element before e inside due)
      | inr early ↦
          subst
            (λ (b : Bool).
              Chooses sender now timeout
                (if b then attempt_retransmit before element now else later))
            (sym early) h
    ]

search_oldest-Chooses :
    (fuel : ℕ) (sender : Sender) (now timeout first : ℕ)
    → first < sender.window.count
    → Chooses sender now timeout (search_oldest fuel (forget_oldest sender) now timeout first)
unfolding search_oldest
search_oldest-Chooses fuel sender now timeout first inside =
    let window = sender.window in
    let before = forget_oldest sender in
    let restarted = restart_loss_iterator before.ack.next_column_expected before.ack.losses in
    let columns =
      if ltb 0 (length before.ack.losses.bytes) then all_losses fuel restarted else [] in
    let time = element_timestamp window first in
    let seen = scan_losses window now timeout columns first first time in
    due-Chooses sender before now timeout first
      (finish before now (scan_rest window now timeout seen)) refl inside
      (finish-Chooses sender before now timeout (scan_rest window now timeout seen) refl (
        scan_rest-Sound window now timeout seen
          (scan_losses-Sound window now timeout columns first first time)))

-- The branches of `Retransmit` before the search.
branches-Chooses :
    (sender : Sender) (now timeout : ℕ) (off none_left outside known : Bool)
    (oldest search : Retransmission)
    → (outside ≡ false → known ≡ true → Chooses sender now timeout oldest)
    → (outside ≡ false → Chooses sender now timeout search)
    → Chooses sender now timeout (
        if off
        then record { result = disabled; packet = none; sender = sender }
        else if none_left
        then wait (forget_oldest sender)
        else if outside
        then wait sender
        else if known
        then oldest
        else search)
branches-Chooses sender now timeout true none_left outside known oldest search h k =
    waits disabled sender refl
branches-Chooses sender now timeout false true outside known oldest search h k =
    waits need_more_data (forget_oldest sender) refl
branches-Chooses sender now timeout false false true known oldest search h k =
    waits need_more_data sender refl
branches-Chooses sender now timeout false false false true oldest search h k = h refl refl
branches-Chooses sender now timeout false false false false oldest search h k = k refl

-- Every call of `Retransmit` gives no packet and leaves the window as it is, or it is the attempt to send an
-- element inside the window whose timeout expired since it was last sent, whatever acknowledgement the
-- encoder has read.
pub retransmit-Chooses :
    (fuel : ℕ) (sender : Sender) (now timeout : ℕ)
    → Chooses sender now timeout (retransmit fuel sender now timeout)
unfolding retransmit
retransmit-Chooses fuel sender now timeout =
    let window = sender.window in
    let first = subtract_columns sender.ack.next_column_expected window.column_start in
    let element = subtract_columns sender.ack.oldest_column window.column_start in
    branches-Chooses sender now timeout window.emergency_disabled
      (get_unacknowledged_count window == 0)
      (is_column_delta_negative first || ltb first window.first_unremoved || leb window.count first)
      (sender.ack.found_oldest
        && (not (is_column_delta_negative element)
            && leb first element
            && ltb element window.count))
      (if is_expired now timeout (element_timestamp window element)
        then attempt_retransmit (forget_oldest sender) element now
        else wait sender)
      (search_oldest fuel (forget_oldest sender) now timeout first)
      (λ _ known.
        due-Chooses sender (forget_oldest sender) now timeout element (wait sender) refl
          (ltb→lt element window.count (
            last_and sender.ack.found_oldest (not (is_column_delta_negative element))
              (leb first element) (ltb element window.count) known))
          (waits need_more_data sender refl))
      (λ inside. search_oldest-Chooses fuel sender now timeout first (
        not-leb→lt window.count first (
          last_or (is_column_delta_negative first) (ltb first window.first_unremoved)
            (leb window.count first) inside)))
  where
    last_and : (a b c d : Bool) → (a && (b && c && d)) ≡ true → d ≡ true
    last_and a b c d e = ground arith

    last_or : (a b c : Bool) → (a || b || c) ≡ false → c ≡ false
    last_or a b c e = ground arith
