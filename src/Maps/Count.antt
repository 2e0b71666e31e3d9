-- ===== src/Maps/Count.antt =====
-- TonkineseMaps.h: the number of valid nodes of a table.
use tonk.Common.{
  ℕ, zero, suc, ◌+◌, ◌<◌, ◌≡◌, refl, none, some, [], ◌∷◌, length, set, replicate, arith,
}
use tonk.Maps.{Table, get_node}

module _ {ℓ} {V : Type ℓ} where
  unfoldable pub count : Table V → ℕ
  count [] = 0
  count (none ∷ t) = count t
  count (some e ∷ t) = suc (count t)

  pub count-set-some :
      (t : Table V) (i : ℕ) (e : ℕ × V)
      → i < length t
      → get_node t i ≡ none
      → count (set t i (some e)) ≡ count t + 1
  unfolding count
  count-set-some [] i e h free = absurd (omega arith)
  count-set-some (none ∷ t) zero e h free = omega arith
  count-set-some (some d ∷ t) zero e h free = cc
  count-set-some (none ∷ t) (suc i) e h free = count-set-some t i e (omega arith) free
  count-set-some (some d ∷ t) (suc i) e h free =
      omega (arith, count-set-some t i e (omega arith) free)

  pub count-set-none :
      (t : Table V) (i : ℕ) (e : ℕ × V) → get_node t i ≡ some e → count (set t i none) + 1 ≡ count t
  unfolding count
  count-set-none [] i e h = cc
  count-set-none (none ∷ t) zero e h = cc
  count-set-none (some d ∷ t) zero e h = omega arith
  count-set-none (none ∷ t) (suc i) e h = count-set-none t i e h
  count-set-none (some d ∷ t) (suc i) e h = omega (arith, count-set-none t i e h)

  -- A table that is not full has a free node.
  pub free_node :
      (t : Table V) → count t < length t → (i : ℕ) × (i < length t) × (get_node t i ≡ none)
  unfolding count
  free_node [] h = absurd (omega arith)
  free_node (none ∷ t) h = (0, omega arith, refl)
  free_node (some e ∷ t) h =
      let (i, below, free) = free_node t (omega arith) in (suc i, omega arith, free)

  -- A table with no valid node has none anywhere.
  pub none_valid : (t : Table V) (i : ℕ) → count t ≡ 0 → get_node t i ≡ none
  unfolding count
  none_valid [] i h = refl
  none_valid (none ∷ t) zero h = refl
  none_valid (none ∷ t) (suc i) h = none_valid t i h
  none_valid (some e ∷ t) i h = absurd (omega arith)

pub count-replicate {ℓ} : (V : Type ℓ) (n : ℕ) → count {V = V} (replicate n none) ≡ 0
unfolding count
count-replicate V zero = refl
count-replicate V (suc n) = count-replicate V n
