-- ===== src/Maps/Walk.antt =====
-- TonkineseMaps.h: what the probe loops end at.
use tonk.Common.{
  ℕ, zero, suc, ◌+◌, ◌-◌, ◌≤◌, ◌<◌, ◌≡◌, ◌≢◌, refl, Bool, true, false, not, ◌&&◌, ◌||◌,
  if◌then◌else◌, ltb, leb, ◌==◌, Option, none, some, [], ◌∷◌, length, set, arith, ◌⊎◌, inl, inr,
  Bool-cases,
}
use tonk.Maps.{Table, get_node, previous, Probe, found, vacant, full, walk, probe}

-- On the way down from `first` to `i`, ends included.
abbrev pub between : ℕ → ℕ → ℕ → Bool
between i s first = if leb i first then leb i s && leb s first else leb s first || leb i s

-- The steps left until the first index comes back.
abbrev pub steps_left : ℕ → ℕ → ℕ → ℕ
steps_left n first index = if ltb first index then index - first else index + n - first

module _ {ℓ} {V : Type ℓ} where
  pub get_node-set :
      (t : Table V) (i s : ℕ) (x : Option (ℕ × V))
      → i < length t
      → get_node (set t i x) s ≡ (if s == i then x else get_node t s)
  get_node-set [] i s x h = absurd (omega arith)
  get_node-set (y ∷ t) zero zero x h = refl
  get_node-set (y ∷ t) zero (suc s) x h = ground arith
  get_node-set (y ∷ t) (suc i) zero x h = ground arith
  get_node-set (y ∷ t) (suc i) (suc s) x h = ground (arith, get_node-set t i s x)

  pub some-lt : (t : Table V) (i : ℕ) (e : ℕ × V) → get_node t i ≡ some e → i < length t
  some-lt [] i e h = cc
  some-lt (x ∷ t) zero e h = omega arith
  some-lt (x ∷ t) (suc i) e h = omega (arith, some-lt t i e h)

  abbrev pub is_taken : Option (ℕ × V) → Bool
  is_taken none = false
  is_taken (some e) = true

  -- A valid node that does not stop a probe.
  abbrev pub passes : (ℕ → Bool) → Option (ℕ × V) → Bool
  passes stop none = false
  passes stop (some e) = not (stop e.0)

  pub data Ends (t : Table V) (stop : ℕ → Bool) (first : ℕ) : Probe → Type ℓ where
    ends_found :
        (i : ℕ) (e : ℕ × V) → get_node t i ≡ some e → stop e.0 ≡ true → Ends t stop first (found i)
    ends_vacant :
        (i : ℕ)
        → i < length t
        → get_node t i ≡ none
        → ((s : ℕ)
            → s < length t
            → between i s first ≡ true
            → s ≢ i
            → passes stop (get_node t s) ≡ true)
        → Ends t stop first (vacant i)
    ends_full :
        ((s : ℕ) → s < length t → passes stop (get_node t s) ≡ true) → Ends t stop first full

  pub Option-cases : (x : Option (ℕ × V)) → (x ≡ none) ⊎ ((e : ℕ × V) × (x ≡ some e))
  Option-cases none = inl refl
  Option-cases (some e) = inr (e, refl)

  module _ (t : Table V) (stop : ℕ → Bool) (first : ℕ) (h : first < length t) where
    walk-Ends :
        (fuel index : ℕ)
        → index < length t
        → steps_left (length t) first index ≤ fuel
        → ((s : ℕ)
            → s < length t
            → between index s first ≡ true
            → passes stop (get_node t s) ≡ true)
        → Ends t stop first (walk fuel t stop first index)
    unfolding walk
    walk-Ends zero index k room good = absurd (ground arith)
    walk-Ends (suc fuel) index k room good =
        let i = previous (length t) index in
        elim (Bool-cases (i == first)) [
          | inl back ↦ rw back (ends_full (λ s p. ground (arith, good s p)))
          | inr on ↦ elim (Option-cases (get_node t i)) [
            | inl free ↦
                rw (on, free)
                  (ends_vacant i (ground arith) free (λ s p b n. good s p (ground arith)))
            | inr (e, node) ↦ elim (Bool-cases (stop e.0)) [
              | inl stopped ↦ rw (on, node, stopped) (ends_found i e node stopped)
              | inr passed ↦
                  rw (on, node, passed)
                    (walk-Ends fuel i (ground arith) (ground arith)
                      (λ s p b. ground (arith, good s p, node, passed)))
            ]
          ]
        ]

    pub probe-Ends : Ends t stop first (probe t stop first)
    unfolding probe
    probe-Ends = elim (Option-cases (get_node t first)) [
      | inl free ↦ rw (probe, free) (ends_vacant first h free (λ s p b n. absurd (ground arith)))
      | inr (e, node) ↦ elim (Bool-cases (stop e.0)) [
        | inl stopped ↦ rw (probe, node, stopped) (ends_found first e node stopped)
        | inr passed ↦
            rw (probe, node, passed)
              (walk-Ends (length t) first h (ground arith) (λ s p b. ground (arith, node, passed)))
      ]
    ]
