-- ===== src/BitSet/Search.antt =====
-- PacketAllocator.h: the bits that `CustomBitSet` finds and counts.
use Prim.Native.Nat.{bit_and}
use tonk.Common.{
  ℕ, zero, suc, ◌+◌, ◌-◌, ◌*◌, ◌/◌, ◌%◌, ◌^◌, ◌≤◌, ◌<◌, ◌≡◌, refl, Bool, true, false, arith, ◌==◌,
  if◌then◌else◌, subst,
}
use mathlib.Core.Path.{ap, sym, ◌∙◌}
use native.Mathlib.Nat.{pow-suc, one-le-pow, div-le_self, mod-eq_of_lt, div-div-eq-div-mul}
use native.Mathlib.Decide.{dec_lt}
use tonk.Common.Bits.{bit_and_ones}
use tonk.Common.Bits.Flags.{bit, bit-zero}
use tonk.BitSet.{find_first_set, find_first_clear, lowest_one, trailing_zeros64}

suc-add : (k j : ℕ) → suc (k + j) ≡ suc k + j
suc-add k j = omega arith

-- Shifting a word moves its bits.
bit-shift : (k j w : ℕ) → bit (w / 2 ^ k) j ≡ bit w (k + j)
bit-shift zero j w = ground arith
bit-shift (suc k) j w =
    ap (λ t. bit t j) {x = w / 2 ^ suc k} {y = w / 2 / 2 ^ k}
      (ap (λ (t : ℕ). w / t) {y = 2 * 2 ^ k} (omega (arith, pow-suc 2 k))
        ∙ sym (div-div-eq-div-mul w 2 (2 ^ k)))
    ∙ bit-shift k j (w / 2)
    ∙ ap (bit w) {y = suc k + j} (suc-add k j)

complement : (n k w : ℕ) → k < n → w < 2 ^ n → bit (2 ^ n - 1 - w) k + bit w k ≡ 1
complement zero k w h l = absurd (omega arith)
complement (suc n) zero w h l = omega (arith, pow-suc 2 n, one-le-pow n 2)
complement (suc n) (suc k) w h l =
    ap (λ t. bit t k + bit (w / 2) k) {x = (2 ^ suc n - 1 - w) / 2} {y = 2 ^ n - 1 - w / 2}
      (omega (arith, pow-suc 2 n, one-le-pow n 2))
    ∙ complement n k (w / 2) (omega arith) (omega (arith, pow-suc 2 n))

lowest_one-finds :
    (n x : ℕ) → x < 2 ^ n → 0 < x → (lowest_one n x < n) × (bit x (lowest_one n x) ≡ 1)
lowest_one-finds zero x h k = absurd (omega arith)
lowest_one-finds (suc n) x h k = elim (dec_lt 0 (x % 2)) [
  | yes odd ↦ (ground arith, ground arith)
  | no even ↦
      let later = lowest_one-finds n (x / 2) (omega (arith, pow-suc 2 n)) (omega arith) in
      (ground (arith, later), ground (arith, later))
]

lowest_one-below : (n x j : ℕ) → j < lowest_one n x → bit x j ≡ 0
lowest_one-below zero x j h = absurd (omega arith)
lowest_one-below (suc n) x zero h = ground arith
lowest_one-below (suc n) x (suc j) h = lowest_one-below n (x / 2) j (ground arith)

-- `r` is the first place from `start` on where `holds` does, or `limit` where there is none below it.
pub record FirstFrom (holds : ℕ → Bool) (start limit r : ℕ) : Type 0 where
  pub bounded : r ≤ limit
  pub after : start ≤ r
  pub found : r < limit → holds r ≡ true
  pub before : (k : ℕ) → start ≤ k → k < r → holds k ≡ false

bit-high : (n k w : ℕ) → w < 2 ^ n → n ≤ k → bit w k ≡ 0
bit-high zero k zero h l = bit-zero k
bit-high zero k (suc w) h l = absurd (omega arith)
bit-high (suc n) zero w h l = absurd (omega arith)
bit-high (suc n) (suc k) w h l = bit-high n k (w / 2) (omega (arith, pow-suc 2 n)) (omega arith)

-- A bit of the shifted word is a bit of the word.
shifted-bit : (word start k : ℕ) → start ≤ k → bit (word / 2 ^ start) (k - start) ≡ bit word k
shifted-bit word start k h =
    bit-shift start (k - start) word ∙ ap (bit word) {x = start + (k - start)} {y = k} (omega arith)

search-none :
    (n word start : ℕ)
    → start < n
    → word / 2 ^ start ≡ 0
    → FirstFrom (λ k. bit word k == 1) start n n
search-none n word start h e = record {
  bounded = omega arith;
  after = omega arith;
  found = λ l. absurd (omega (arith, l));
  before = λ k l m.
      ground
        (arith, shifted-bit word start k l, ap (λ t. bit t (k - start)) e, bit-zero (k - start));
}

search-some :
    (n word start : ℕ)
    → word < 2 ^ n
    → start < n
    → 0 < word / 2 ^ start
    → FirstFrom (λ k. bit word k == 1) start n (start + lowest_one n (word / 2 ^ start))
search-some n word start h l some_bit =
    let shifted = word / 2 ^ start in
    let first = lowest_one n shifted in
    let finds : (first < n) × (bit shifted first ≡ 1) =
      lowest_one-finds n shifted (omega (arith, div-le_self word (2 ^ start))) some_bit in
    let here : bit word (start + first) ≡ 1 = sym (bit-shift start first word) ∙ finds.1 in
    record {
      bounded = elim (dec_lt (start + first) n) [
        | yes inside ↦ omega (arith, inside)
        | no outside ↦
            absurd (omega (arith, here, bit-high n (start + first) word h (omega (arith, outside))))
      ];
      after = omega arith;
      found = λ _. ground (arith, here);
      before = λ k m j. ground (
        arith,
        shifted-bit word start k m,
        lowest_one-below n shifted (k - start) (omega (arith, m, j)),
      );
    }

lowest_one-odd : (n x : ℕ) → x % 2 ≡ 1 → lowest_one n x ≡ 0
lowest_one-odd zero x h = refl
lowest_one-odd (suc n) x h = ground arith

-- What both functions do with a word of `n` bits, where `zeros` counts the zeros below the lowest one.
module _ (n : ℕ) (zeros : ℕ → ℕ) (zeros-eq : (x : ℕ) → zeros x ≡ lowest_one n x) where
  abbrev search : ℕ → ℕ → ℕ
  search shifted start =
      if shifted == 0 then n else start + (if bit_and shifted 1 == 0 then zeros shifted else 0)

  search-eq : (x start : ℕ) → 0 < x → start + lowest_one n x ≡ search x start
  search-eq x start h = ground (arith, bit_and_ones 1 x, zeros-eq x, lowest_one-odd n x)

  search-FirstFrom :
      (word start : ℕ)
      → word < 2 ^ n
      → start < n
      → FirstFrom (λ k. bit word k == 1) start n (search (word / 2 ^ start) start)
  search-FirstFrom word start h l =
      let shifted = word / 2 ^ start in
      elim (dec_lt 0 shifted) [
        | yes some_bit ↦
            subst (FirstFrom (λ k. bit word k == 1) start n) (search-eq shifted start some_bit)
              (search-some n word start h l some_bit)
        | no none ↦
            subst (FirstFrom (λ k. bit word k == 1) start n) (ground arith)
              (search-none n word start l (omega arith))
      ]

trailing_zeros64-eq : (x : ℕ) → trailing_zeros64 x ≡ lowest_one 64 x
unfolding trailing_zeros64
trailing_zeros64-eq x = refl

-- The first set bit from `start` on, or 64.
pub find_first_set-FirstFrom :
    (words start : ℕ)
    → words < 2 ^ 64
    → start < 64
    → FirstFrom (λ k. bit words k == 1) start 64 (find_first_set words start)
unfolding find_first_set
find_first_set-FirstFrom words start h l =
    rw (mod-eq_of_lt l) (search-FirstFrom 64 trailing_zeros64 trailing_zeros64-eq words start h l)

-- The first clear bit from `start` on, or 64.
pub find_first_clear-FirstFrom :
    (words start : ℕ)
    → words < 2 ^ 64
    → start < 64
    → FirstFrom (λ k. bit words k == 0) start 64 (find_first_clear words start)
unfolding find_first_clear
find_first_clear-FirstFrom words start h l =
    let found : FirstFrom (λ k. bit (2 ^ 64 - 1 - words) k == 1) start 64
        (find_first_clear words start) =
      rw (mod-eq_of_lt l) (
        search-FirstFrom 64 trailing_zeros64 trailing_zeros64-eq (2 ^ 64 - 1 - words) start
          (omega arith) l) in
    record {
      bounded = found.bounded;
      after = found.after;
      found = λ k. sym (flip (find_first_clear words start) k) ∙ found.found k;
      before = λ k m j. sym (flip k (omega (arith, j, found.bounded))) ∙ found.before k m j;
    }
  where
    digits : (a b : ℕ) → a + b ≡ 1 → (a == 1) ≡ (b == 0)
    digits a b e = ground arith

    flip : (k : ℕ) → k < 64 → (bit (2 ^ 64 - 1 - words) k == 1) ≡ (bit words k == 0)
    flip k m = digits (bit (2 ^ 64 - 1 - words) k) (bit words k) (complement 64 k words m h)
