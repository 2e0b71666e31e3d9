-- ===== src/Decoder/Search.antt =====
-- SiameseDecoder.cpp: the searches of the window for the next lost and the next received element.
use tonk.Common.{
  ℕ, zero, suc, ◌+◌, ◌-◌, ◌*◌, ◌/◌, ◌%◌, ◌^◌, ◌≤◌, ◌<◌, ◌≡◌, refl, Bool, true, false, if◌then◌else◌,
  ltb, ◌==◌, arith, ap, ap₂, ◌∙◌, Bool-cases, lt→ltb, le→not-ltb, le→leb, not-ltb→le, lt→not-leb,
  inl, inr, ◌⊎◌,
}
use native.Mathlib.Decide.{dec_lt}
use tonk.Common.Bits.Flags.{bit}
use tonk.BitSet.{popcount, find_first_set, find_first_clear}
use tonk.BitSet.Search.{FirstFrom, find_first_set-FirstFrom, find_first_clear-FirstFrom}
use tonk.BitSet.Counting.{popcount-full, popcount-none, popcount-le}
use tonk.Decoder.{
  DecoderSubwindow, DecoderWindow, get_subwindow, got_element, lost_element, find_next, find_from,
  find_next_lost, find_next_got, subwindow_size,
}

-- Both searches: `holds` is what is looked for in the bits of a subwindow.
module _ (may : DecoderSubwindow → Bool) (find : ℕ → ℕ → ℕ) (window : DecoderWindow)
    (holds : ℕ → ℕ → Bool)
    (found : (i start : ℕ)
      → start < 64
      → FirstFrom (holds i) start 64 (find (get_subwindow window i).got start))
    (skips : (i k : ℕ) → may (get_subwindow window i) ≡ false → k < 64 → holds i k ≡ false) where
  abbrev at_element : ℕ → Bool
  at_element element = holds (element / 64) (element % 64)

  -- As `FirstFrom`, for a start that may lie behind the end.
  record Found (start r : ℕ) : Type 0 where
    bounded : r ≤ window.count
    after : (start ≤ r) ⊎ (r ≡ window.count)
    found_at : r < window.count → at_element r ≡ true
    before : (k : ℕ) → start ≤ k → k < r → at_element k ≡ false

  at-inside :
      (i element : ℕ)
      → i * 64 ≤ element
      → element < i * 64 + 64
      → at_element element ≡ holds i (element - i * 64)
  at-inside i element h l = ap₂ holds quotient rest
    where
      quotient : element / 64 ≡ i
      quotient = omega arith

      rest : element % 64 ≡ element - i * 64
      rest = omega arith

  -- The bit that was found, unless it lies behind the end.
  Found-here :
      (i start first : ℕ)
      → start < 64
      → first < 64
      → FirstFrom (holds i) start 64 first
      → Found
          (i * 64 + start)
          (if ltb window.count (i * 64 + first) then window.count else i * 64 + first)
  Found-here i start first h l f = elim (dec_lt window.count (i * 64 + first)) [
    | yes out ↦ rw (lt→ltb window.count (i * 64 + first) out) record {
      bounded = omega arith;
      after = inr refl;
      found_at = λ m. absurd (omega (arith, m));
      before = λ k m j. inside k m (omega (arith, out, j));
    }
    | no in_window ↦
        rw (le→not-ltb window.count (i * 64 + first) (omega (arith, in_window))) record {
          bounded = omega (arith, in_window);
          after = inl (omega (arith, f.after));
          found_at = λ m.
              at-inside i (i * 64 + first) (omega arith) (omega arith)
              ∙ (ap (holds i) {x = i * 64 + first - i * 64} {y = first} (omega arith) ∙ f.found l);
          before = inside;
        }
  ]
    where
      inside : (k : ℕ) → i * 64 + start ≤ k → k < i * 64 + first → at_element k ≡ false
      inside k m j =
          at-inside i k (omega arith) (omega arith)
          ∙ f.before (k - i * 64) (omega arith) (omega arith)

  -- A subwindow in which nothing is found.
  Found-later :
      (i start r : ℕ)
      → start < 64
      → ((k : ℕ) → start ≤ k → k < 64 → holds i k ≡ false)
      → Found (suc i * 64 + 0) r
      → Found (i * 64 + start) r
  Found-later i start r h none later = record {
    bounded = later.bounded;
    after = elim later.after [ inl m ↦ inl (omega (arith, m, h)) | inr m ↦ inr m ];
    found_at = later.found_at;
    before = λ k m j. elim (dec_lt k (suc i * 64)) [
      | yes inside ↦
          at-inside i k (omega (arith, m)) (omega (arith, inside))
          ∙ none (k - i * 64) (omega (arith, m)) (omega (arith, inside))
      | no outside ↦ later.before k (omega (arith, outside)) j
    ];
  }

  find_next-Found :
      (n index start : ℕ)
      → start < 64
      → window.count ≤ (index + n) * 64
      → Found (index * 64 + start) (find_next may find window n index start)
  find_next-Found zero index start h l = record {
    bounded = omega arith;
    after = inr refl;
    found_at = λ m. absurd (omega (arith, m));
    before = λ k m j. absurd (omega (arith, m, j));
  }
  find_next-Found (suc n) index start h l =
      let first = find (get_subwindow window index).got start in
      let f = found index start h in
      let next = find_next may find window n (suc index) 0 in
      let later = find_next-Found n (suc index) 0 (omega arith) (omega arith) in
      elim (Bool-cases (may (get_subwindow window index))) [
        | inl looks ↦ elim (dec_lt first 64) [
          | yes here ↦ rw (looks, lt→ltb first 64 here) (Found-here index start first h here f)
          | no none ↦
              rw (looks, le→not-ltb first 64 (omega (arith, none)))
                (Found-later index start next h (λ k m j. f.before k m (omega (arith, none, j)))
                  later)
        ]
        | inr skipped ↦
            rw skipped (Found-later index start next h (λ k m j. skips index k skipped j) later)
      ]

  find_from-FirstFrom :
      (start : ℕ)
      → start ≤ window.count
      → FirstFrom at_element start window.count (find_from may find window start)
  find_from-FirstFrom start h = elim (dec_lt start window.count) [
    | yes inside ↦
        let index = start / 64 in
        let n = (window.count + 64 - 1) / 64 - index in
        let r = find_next-Found n index (start % 64) (omega arith) (omega (arith, inside)) in
        rw (lt→not-leb window.count start inside) record {
          bounded = r.bounded;
          after = elim r.after [ inl m ↦ omega (arith, m) | inr m ↦ omega (arith, m, h) ];
          found = r.found_at;
          before = λ k m j. r.before k (omega (arith, m)) j;
        }
    | no outside ↦ rw (le→leb window.count start (omega (arith, outside))) record {
      bounded = omega arith;
      after = h;
      found = λ m. absurd (omega (arith, m));
      before = λ k m j. absurd (omega (arith, m, j, outside));
    }
  ]

-- A subwindow whose `GotCount` is the number of bits in `Got`.
pub record IsCounted (subwindow : DecoderSubwindow) : Type 0 where
  pub word : subwindow.got < 2 ^ 64
  pub counted : subwindow.got_count ≡ popcount 64 subwindow.got

module _ (window : DecoderWindow) (counts : (i : ℕ) → IsCounted (get_subwindow window i)) where
  -- The search gives the next lost element from `start` on, or the end of the window if there is none, in
  -- a window whose subwindows count their received packets, for a start that is not behind the end.
  pub find_next_lost-FirstFrom :
      (start : ℕ)
      → start ≤ window.count
      → FirstFrom (lost_element window) start window.count (find_next_lost window start)
  unfolding find_next_lost
  find_next_lost-FirstFrom start h =
      find_from-FirstFrom (λ subwindow. ltb subwindow.got_count subwindow_size) find_first_clear
        window (λ i k. bit (get_subwindow window i).got k == 0)
        (λ i k m. find_first_clear-FirstFrom (get_subwindow window i).got k (counts i).word m)
        (λ i k e m. full i k (not-ltb→le (get_subwindow window i).got_count 64 e) m) start h
    where
      full :
          (i k : ℕ)
          → 64 ≤ (get_subwindow window i).got_count
          → k < 64
          → (bit (get_subwindow window i).got k == 0) ≡ false
      full i k e m =
          let word = (get_subwindow window i).got in
          ap (λ t. t == 0)
            (popcount-full 64 word k (omega (arith, e, (counts i).counted, popcount-le 64 word)) m)

  -- The next received element from `start` on, or the end of the window.
  pub find_next_got-FirstFrom :
      (start : ℕ)
      → start ≤ window.count
      → FirstFrom (got_element window) start window.count (find_next_got window start)
  unfolding find_next_got
  find_next_got-FirstFrom start h =
      find_from-FirstFrom (λ subwindow. ltb 0 subwindow.got_count) find_first_set window
        (λ i k. bit (get_subwindow window i).got k == 1)
        (λ i k m. find_first_set-FirstFrom (get_subwindow window i).got k (counts i).word m)
        (λ i k e m. none i k (not-ltb→le 0 (get_subwindow window i).got_count e) m) start h
    where
      none :
          (i k : ℕ)
          → (get_subwindow window i).got_count ≤ 0
          → k < 64
          → (bit (get_subwindow window i).got k == 1) ≡ false
      none i k e m =
          ap (λ t. t == 1)
            (popcount-none 64 (get_subwindow window i).got k (omega (arith, e, (counts i).counted))
              m)

-- Behind the end nothing is searched.
pub find_next_lost-end :
    (window : DecoderWindow) (start : ℕ)
    → window.count ≤ start
    → find_next_lost window start ≡ window.count
unfolding find_next_lost
find_next_lost-end window start h = rw (le→leb window.count start h) refl
