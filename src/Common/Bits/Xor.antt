-- ===== src/Common/Bits/Xor.antt =====
-- The C++ operator `^` on unsigned words.
use Prim.Native.Nat.{ℕ, zero, suc, ◌+◌, ◌*◌, ◌/◌, ◌%◌, ◌^◌, ◌≤◌, ◌<◌, bit_xor, differ}
use mathlib.Core.Path.{◌≡◌, refl, ap, ap₂, ◌∙◌}
use native.Mathlib.Nat.{pow-suc}
use native.Mathlib.Omega.{arith}
use tonk.Common.Bits.Step.{bit_xor_step}

-- Two binary digits: their difference is one, and gives back the first.
differ-undo : (x y : ℕ) → x ≤ 1 → y ≤ 1 → (differ x y ≤ 1) × (differ (differ x y) y ≡ x)
differ-undo zero zero h k = (omega arith, refl)
differ-undo zero (suc zero) h k = (omega arith, refl)
differ-undo (suc zero) zero h k = (omega arith, refl)
differ-undo (suc zero) (suc zero) h k = (omega arith, refl)
differ-undo (suc (suc x)) y h k = absurd (omega arith)
differ-undo x (suc (suc y)) h k = absurd (omega arith)

zero-bit_xor-zero : bit_xor 0 0 ≡ 0
zero-bit_xor-zero = refl

pub bit_xor-lt : (n a b : ℕ) → a < 2 ^ n → b < 2 ^ n → bit_xor a b < 2 ^ n
bit_xor-lt zero zero zero h k = omega arith
bit_xor-lt zero (suc a) b h k = absurd (omega arith)
bit_xor-lt zero a (suc b) h k = absurd (omega arith)
bit_xor-lt (suc n) a b h k = omega (
  arith,
  bit_xor_step a b,
  pow-suc 2 n,
  (differ-undo (a % 2) (b % 2) (omega arith) (omega arith)).0,
  bit_xor-lt n (a / 2) (b / 2) (omega (arith, pow-suc 2 n)) (omega (arith, pow-suc 2 n)),
)

-- The halves and the lowest digit of a difference.
halves :
    (a b : ℕ)
    → (bit_xor a b / 2 ≡ bit_xor (a / 2) (b / 2)) × (bit_xor a b % 2 ≡ differ (a % 2) (b % 2))
halves a b =
    let d = (differ-undo (a % 2) (b % 2) (omega arith) (omega arith)).0 in
    (omega (arith, bit_xor_step a b, d), omega (arith, bit_xor_step a b, d))

-- The same word twice is none.
pub bit_xor-undo : (n a b : ℕ) → a < 2 ^ n → b < 2 ^ n → bit_xor (bit_xor a b) b ≡ a
bit_xor-undo zero zero zero h k = refl
bit_xor-undo zero (suc a) b h k = absurd (omega arith)
bit_xor-undo zero a (suc b) h k = absurd (omega arith)
bit_xor-undo (suc n) a b h k =
    let high = (halves a b).0 in
    let low = (halves a b).1 in
    omega (
      arith,
      bit_xor_step (bit_xor a b) b,
      ap (λ x. bit_xor x (b / 2)) high,
      ap (λ x. differ x (b % 2)) low,
      (differ-undo (a % 2) (b % 2) (omega arith) (omega arith)).1,
      bit_xor-undo n (a / 2) (b / 2) (omega (arith, pow-suc 2 n)) (omega (arith, pow-suc 2 n)),
    )

times-pow-suc : (q k : ℕ) → q * 2 ^ suc k ≡ 2 * (q * 2 ^ k)
times-pow-suc q k = omega (arith, ap (λ (t : ℕ). q * t) (pow-suc 2 k))

-- The low and the high digits of two words differ on their own.
pub bit_xor-split :
    (n p r q s : ℕ)
    → r < 2 ^ n
    → s < 2 ^ n
    → bit_xor (p * 2 ^ n + r) (q * 2 ^ n + s) ≡ bit_xor p q * 2 ^ n + bit_xor r s
bit_xor-split zero p zero q zero h k =
    let a : p * 2 ^ 0 + 0 ≡ p = omega arith in
    let b : q * 2 ^ 0 + 0 ≡ q = omega arith in ap₂ bit_xor a b ∙ omega arith
bit_xor-split zero p (suc r) q s h k = absurd (omega arith)
bit_xor-split zero p r q (suc s) h k = absurd (omega arith)
bit_xor-split (suc n) p r q s h k =
    let a : (p * 2 ^ suc n + r) / 2 ≡ p * 2 ^ n + r / 2 = omega (arith, times-pow-suc p n) in
    let b : (q * 2 ^ suc n + s) / 2 ≡ q * 2 ^ n + s / 2 = omega (arith, times-pow-suc q n) in
    let c : (p * 2 ^ suc n + r) % 2 ≡ r % 2 = omega (arith, times-pow-suc p n) in
    let d : (q * 2 ^ suc n + s) % 2 ≡ s % 2 = omega (arith, times-pow-suc q n) in
    omega (
      arith,
      bit_xor_step (p * 2 ^ suc n + r) (q * 2 ^ suc n + s),
      ap₂ bit_xor a b,
      ap₂ differ c d,
      bit_xor_step r s,
      times-pow-suc (bit_xor p q) n,
      bit_xor-split n p (r / 2) q (s / 2) (omega (arith, pow-suc 2 n)) (omega (arith, pow-suc 2 n)),
    )
