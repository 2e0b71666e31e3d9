-- ===== src/Counter/Order.antt =====
-- Counter.h: the comparisons of two counters, by the distance from the one to the other.
use native.Mathlib.Nat.{pow-suc, mod-eq_of_lt, mod-eq-sub-mod}
use native.Mathlib.Decide.{dec_lt}
use tonk.Common.{
  ℕ, suc, ◌+◌, ◌-◌, ◌*◌, ◌%◌, ◌^◌, ◌<◌, ◌≡◌, ◌⊎◌, inl, inr, refl, ap, ◌∙◌, ◌&&◌, ◌||◌, ltb, leb,
  ◌==◌, if◌then◌else◌, arith,
}
use tonk.Counter.{size, msb, increment, decrement, add, sub, eq, lt, le, gt, ge}

predecessor : (n : ℕ) → suc n - 1 ≡ n
predecessor n = omega arith

size-suc : (n : ℕ) → size (suc n) ≡ 2 * msb (suc n)
size-suc n = omega (arith, pow-suc 2 n, ap (λ (t : ℕ). 2 ^ t) (predecessor n))

-- A sum of two counters wraps at most once.
mod_once : (s x r : ℕ) → x ≡ r + s → r < s → x % s ≡ r
mod_once s x r e h =
    ap (λ (t : ℕ). t % s) e
    ∙ mod-eq-sub-mod {n = r + s} {m = s} (omega arith)
    ∙ ap (λ (t : ℕ). t % s) (omega arith)
    ∙ mod-eq_of_lt h

mod_none : (s x r : ℕ) → x ≡ r → r < s → x % s ≡ r
mod_none s x r e h = ap (λ (t : ℕ). t % s) e ∙ mod-eq_of_lt h

ahead-cases :
    (n a k : ℕ)
    → a < size n
    → k < size n
    → ((a + k) % size n ≡ a + k) ⊎ ((a + k) % size n + size n ≡ a + k)
ahead-cases n a k h p = elim (dec_lt (a + k) (size n)) [
  | yes q ↦ inl (mod-eq_of_lt q)
  | no q ↦
      inr (omega (arith, mod_once (size n) (a + k) (a + k - size n) (omega arith) (omega arith)))
]

-- The distance to a counter that is `k` ahead is `k`.
pub sub-ahead : (n a k : ℕ) → a < size n → k < size n → sub n ((a + k) % size n) a ≡ k
unfolding sub
sub-ahead n a k h p = elim (ahead-cases n a k h p) [
  | inl e ↦ mod_once (size n) _ k (omega arith) p
  | inr e ↦ mod_none (size n) _ k (omega arith) p
]

-- The distance back from it is what is left of the range.
pub sub-behind :
    (n a k : ℕ)
    → a < size n
    → k < size n
    → sub n a ((a + k) % size n) ≡ (if k == 0 then 0 else size n - k)
unfolding sub
sub-behind n a k h p = elim (ahead-cases n a k h p) [
  | inl e ↦ ground (
    arith,
    mod_once (size n) (a + size n - (a + k) % size n) 0,
    mod_none (size n) (a + size n - (a + k) % size n) (size n - k),
  )
  | inr e ↦ ground (arith, mod_once (size n) (a + size n - (a + k) % size n) (size n - k))
]

-- For counters of at least one bit, with `b` the counter that is `k` steps ahead of `a` and `k`
-- below the number of values: `a == b` exactly when `k` is 0, `a < b` exactly when `k` is from 1 to
-- half the range, `a <= b` exactly when `k` is below half the range, `a > b` exactly when `k` is half
-- the range or more, and `a >= b` exactly when `k` is 0 or more than half the range.
pub compare-ahead :
    (n a k : ℕ)
    → a < size (suc n)
    → k < size (suc n)
    → let b = (a + k) % size (suc n) in
      (eq (suc n) a b ≡ (k == 0))
      × (lt (suc n) a b ≡ (ltb 0 k && leb k (msb (suc n))))
      × (le (suc n) a b ≡ ltb k (msb (suc n)))
      × (gt (suc n) a b ≡ leb (msb (suc n)) k)
      × (ge (suc n) a b ≡ ((k == 0) || ltb (msb (suc n)) k))
unfolding eq lt le gt ge
compare-ahead n a k h p = ground (
  arith,
  sub-ahead (suc n) a k h p,
  sub-behind (suc n) a k h p,
  size-suc n,
  ahead-cases (suc n) a k h p,
)

-- The distance, written without a wrap.
sub-cases :
    (n a b : ℕ) → a < size n → b < size n → (a + sub n b a ≡ b) ⊎ (a + sub n b a ≡ b + size n)
unfolding sub
sub-cases n a b h k = elim (dec_lt b a) [
  | yes q ↦
      inr (omega (arith, mod_none (size n) (b + size n - a) (b + size n - a) refl (omega arith)))
  | no q ↦
      inl (omega (arith, mod_once (size n) (b + size n - a) (b - a) (omega arith) (omega arith)))
]

add-sub_lem : (n a b : ℕ) → a < size n → b < size n → add n a (sub n b a) ≡ b
unfolding add
add-sub_lem n a b h k = elim (sub-cases n a b h k) [
  | inl e ↦ mod_none (size n) (a + sub n b a) b e k
  | inr e ↦ mod_once (size n) (a + sub n b a) b e k
]

decrement-increment : (n a : ℕ) → a < size n → decrement n (increment n a) ≡ a
unfolding increment decrement
decrement-increment n a h = elim (dec_lt (a + 1) (size n)) [
  | yes q ↦ mod_once (size n) _ a (omega (arith, mod-eq_of_lt q)) h
  | no q ↦
      mod_none (size n) _ a (omega (arith, mod_once (size n) (a + 1) 0 (omega arith) (omega arith)))
        h
]

-- For two counter values, `operator-` undoes `operator+` and `operator+` undoes `operator-`, and a
-- step back undoes a step ahead.
pub sub-add :
    (n a b : ℕ)
    → a < size n
    → b < size n
    → (sub n (add n a b) a ≡ b) × (add n a (sub n b a) ≡ b) × (decrement n (increment n a) ≡ a)
unfolding add
sub-add n a b h k = (sub-ahead n a b h k, add-sub_lem n a b h k, decrement-increment n a h)
