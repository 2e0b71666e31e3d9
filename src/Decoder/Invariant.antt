-- ===== src/Decoder/Invariant.antt =====
-- SiameseDecoder.cpp: the decoder's window stays consistent as packets arrive.
use Prim.Native.Nat.{bit_or}
use tonk.Common.{
  ℕ, ◌*◌, ◌^◌, ◌<◌, ◌≡◌, ◌≢◌, ap, subst, sym, ◌∙◌, Bool, true, false, length, get_or, set, arith,
  if◌then◌else◌, ltb, ◌==◌, length-set, get_or-set_self, get_or-set_ne, length-replicate,
  get_or-replicate, lt→ltb,
}
use native.Mathlib.Decide.{dec_lt}
use native.Mathlib.Nat.{mod-eq_of_lt}
use tonk.Common.Bits.Flags.{bit, bit-or_pow, bit-zero}
use tonk.BitSet.{set_bit, popcount}
use tonk.BitSet.Counting.{popcount-or_pow, or_pow-lt, popcount-zero}
use tonk.Originals.{SiamesePacket, initialize_packet, no_packet}
use tonk.Originals.Loading.{initialize_packet-nonempty}
use tonk.Decoder.{DecoderSubwindow, empty_subwindow}
use tonk.Decoder.Search.{IsCounted}
use tonk.Decoder.Adding.{fill_place}

-- A subwindow: 64 places, whose bits tell which have a packet, and the number of these.
pub record IsSubwindow (subwindow : DecoderSubwindow) : Type 0 where
  pub counts : IsCounted subwindow
  pub places : length subwindow.originals ≡ 64
  pub filled :
      (k : ℕ)
      → k < 64
      → ltb 0 (length (get_or subwindow.originals k no_packet).buffer) ≡ (bit subwindow.got k == 1)

set_bit-eq : (word place : ℕ) → place < 64 → set_bit word place ≡ bit_or word (2 ^ place)
unfolding set_bit
set_bit-eq word place h =
    ap (bit_or word) (ap (λ (k : ℕ). 1 * 2 ^ k) (mod-eq_of_lt h) ∙ one-mul (2 ^ place))
  where
    one-mul : (n : ℕ) → 1 * n ≡ n
    one-mul n = omega arith

pub bit-set_bit :
    (word place k : ℕ)
    → place < 64
    → bit (set_bit word place) k ≡ (if k == place then 1 else bit word k)
bit-set_bit word place k h =
    ap (λ (w : ℕ). bit w k) (set_bit-eq word place h) ∙ bit-or_pow place k word

fill_place-IsCounted :
    (subwindow : DecoderSubwindow) (place : ℕ) (packet : SiamesePacket)
    → IsCounted subwindow
    → place < 64
    → bit subwindow.got place ≡ 0
    → IsCounted (fill_place subwindow place packet)
unfolding fill_place
fill_place-IsCounted subwindow place packet valid h e = record {
  word =
      subst (λ (w : ℕ). w < 2 ^ 64) (sym (set_bit-eq subwindow.got place h))
        (or_pow-lt 64 place subwindow.got h valid.word);
  counted = omega (
    arith,
    valid.counted,
    ap (popcount 64) (set_bit-eq subwindow.got place h),
    popcount-or_pow 64 place subwindow.got h e,
  );
}

fill_place-filled :
    (subwindow : DecoderSubwindow) (place : ℕ) (packet : SiamesePacket)
    → IsSubwindow subwindow
    → place < 64
    → (k : ℕ) → k < 64
    → ltb 0 (
        length
          (get_or (set subwindow.originals place (initialize_packet packet)) k no_packet).buffer)
      ≡ (bit (set_bit subwindow.got place) k == 1)
fill_place-filled subwindow place packet valid h k l = elim (dec_lt k place) [
  | yes below ↦ other (omega (arith, below))
  | no from ↦ elim (dec_lt place k) [
    | yes above ↦ other (omega (arith, above))
    | no here ↦ same (omega (arith, from, here))
  ]
]
  where
    is_filled : 0 < length (initialize_packet packet).buffer
    is_filled = initialize_packet-nonempty packet

    differ : (a b : ℕ) → a ≢ b → (a == b) ≡ false
    differ a b n = ground arith

    equal : (a b : ℕ) → a ≡ b → (a == b) ≡ true
    equal a b e = ground arith

    other :
        place ≢ k
        → ltb 0 (
            length
              (get_or
                (set subwindow.originals place (initialize_packet packet))
                k
                no_packet).buffer)
          ≡ (bit (set_bit subwindow.got place) k == 1)
    other n =
        ap (λ original. ltb 0 (length original.buffer))
          (get_or-set_ne subwindow.originals place k (initialize_packet packet) no_packet n)
        ∙ (valid.filled k l
            ∙ ap (λ (b : ℕ). b == 1)
                (sym (
                  bit-set_bit subwindow.got place k h
                  ∙ ap (λ (c : Bool). if c then 1 else bit subwindow.got k)
                      (differ k place (λ e. n (sym e))))))

    same :
        place ≡ k
        → ltb 0 (
            length
              (get_or
                (set subwindow.originals place (initialize_packet packet))
                k
                no_packet).buffer)
          ≡ (bit (set_bit subwindow.got place) k == 1)
    same e =
        ap (λ original. ltb 0 (length original.buffer))
          (ap
              (λ (j : ℕ).
                get_or (set subwindow.originals place (initialize_packet packet)) j no_packet)
              (sym e)
            ∙ get_or-set_self subwindow.originals place (initialize_packet packet) no_packet
                (omega (arith, valid.places, h)))
        ∙ (lt→ltb 0 (length (initialize_packet packet).buffer) is_filled
            ∙ ap (λ (b : ℕ). b == 1)
                (sym (
                  bit-set_bit subwindow.got place k h
                  ∙ ap (λ (c : Bool). if c then 1 else bit subwindow.got k)
                      (equal k place (sym e)))))

pub fill_place-IsSubwindow :
    (subwindow : DecoderSubwindow) (place : ℕ) (packet : SiamesePacket)
    → IsSubwindow subwindow
    → place < 64
    → bit subwindow.got place ≡ 0
    → IsSubwindow (fill_place subwindow place packet)
fill_place-IsSubwindow subwindow place packet valid h e = record {
  counts = fill_place-IsCounted subwindow place packet valid.counts h e;
  places =
      unfold fill_place in
      (length-set subwindow.originals place (initialize_packet packet) ∙ valid.places);
  filled = unfold fill_place in fill_place-filled subwindow place packet valid h;
}

pub empty_subwindow-IsSubwindow : IsSubwindow empty_subwindow
empty_subwindow-IsSubwindow = record {
  counts = record { word = omega arith; counted = sym (popcount-zero 64) };
  places = length-replicate 64 no_packet;
  filled = λ k h.
      ap (λ original. ltb 0 (length original.buffer)) (get_or-replicate 64 k no_packet)
      ∙ ap (λ (b : ℕ). b == 1) (sym (bit-zero k));
}
