-- ===== src/Maps/View.antt =====
-- TonkineseMaps.h: what `find` gives is what the table holds.
use tonk.Common.{
  ℕ, ◌≡◌, ◌≢◌, refl, ◌∙◌, ◌==◌, none, some, arith, ◌⊎◌, inl, inr, Bool-cases, ap, sym, ==→eq,
}
use tonk.Maps.{Table, LightHashMap, get_node, Probe, found, probe, hash_key, find_index, find}
use tonk.Maps.Walk.{Ends, ends_found, ends_vacant, ends_full, probe-Ends}
use tonk.Maps.Place.{at_key, probe-reaches}
use tonk.Maps.Count.{none_valid}
use tonk.Maps.Take.{IsTable, Holds}

-- No node has the key.
abbrev pub Lacks {ℓ} : {V : Type ℓ} → Table V → ℕ → Type ℓ
Lacks {V} t k = (j : ℕ) (e : ℕ × V) → get_node t j ≡ some e → e.0 ≢ k

module _ {ℓ} {V : Type ℓ} (hasher : ℕ → ℕ) where
  module _ (m : LightHashMap V) (v : IsTable hasher m) (k : ℕ) where
    pub find-Holds : (x : V) → Holds m.values k x → find hasher m k ≡ some x
    unfolding find
    find-Holds x h = elim (Bool-cases (m.num_valid == 0)) [
      | inl nothing ↦ absurd (ground (arith, h.node, none_valid m.values h.index, v.counted))
      | inr some_valid ↦ rw (
        find,
        find_index,
        some_valid,
        probe-reaches _ m.values v.searchable k h.index (k, x) h.node refl,
        h.node,
      )
    ]

    pub find-Lacks : Lacks m.values k → find hasher m k ≡ none
    unfolding find
    find-Lacks lacks =
        go _ refl
          (probe-Ends m.values (at_key k) (hash_key hasher m.hash_shift k) (v.searchable.homes k))
      where
        go :
            (p : Probe)
            → probe m.values (at_key k) (hash_key hasher m.hash_shift k) ≡ p
            → Ends m.values (at_key k) (hash_key hasher m.hash_shift k) p
            → find hasher m k ≡ none
        go _ at_p (ends_found i e node stopped) = absurd (lacks i e node (==→eq e.0 k stopped))
        go _ at_p (ends_vacant i below free path) = rw (find, find_index, at_p) (ground arith)
        go _ at_p (ends_full good) = rw (find, find_index, at_p) (ground arith)

    -- A probe that ends at no node has missed none.
    pub missed-Lacks :
        (p : Probe)
        → probe m.values (at_key k) (hash_key hasher m.hash_shift k) ≡ p
        → ((i : ℕ) → p ≢ found i)
        → Lacks m.values k
    missed-Lacks p at_p not_found j e node same =
        not_found j (sym at_p ∙ probe-reaches _ m.values v.searchable k j e node same)

    -- A key has a node, or it has none.
    pub Holds_or_Lacks : ((x : V) × Holds m.values k x) ⊎ Lacks m.values k
    Holds_or_Lacks =
        go _
          (probe-Ends m.values (at_key k) (hash_key hasher m.hash_shift k) (v.searchable.homes k))
          refl
      where
        go :
            (p : Probe)
            → Ends m.values (at_key k) (hash_key hasher m.hash_shift k) p
            → probe m.values (at_key k) (hash_key hasher m.hash_shift k) ≡ p
            → ((x : V) × Holds m.values k x) ⊎ Lacks m.values k
        go _ (ends_found i e node stopped) at_p = inl (
          e.1,
          record { index = i; node = node ∙ ap (λ key. some (key, e.1)) (==→eq e.0 k stopped) },
        )
        go _ (ends_vacant i below free path) at_p = inr (missed-Lacks _ at_p (λ j e. absurd cc))
        go _ (ends_full good) at_p = inr (missed-Lacks _ at_p (λ j e. absurd cc))

-- Two tables with the same nodes for a key give the same value.
pub find-agrees {ℓ} :
    {V : Type ℓ} (hasher : ℕ → ℕ) (m r : LightHashMap V) (k q : ℕ)
    → IsTable hasher m
    → IsTable hasher r
    → ((y : V) → Holds m.values k y → Holds r.values q y)
    → ((y : V) → Holds r.values q y → Holds m.values k y)
    → find hasher r q ≡ find hasher m k
find-agrees hasher m r k q v w to from = elim (Holds_or_Lacks hasher m v k) [
  | inl (x, h) ↦ find-Holds hasher r w q x (to x h) ∙ sym (find-Holds hasher m v k x h)
  | inr lacks ↦
      find-Lacks hasher r w q (λ j e node same.
        let back =
          from e.1 (record { index = j; node = node ∙ ap (λ key. some (key, e.1)) same }) in
        lacks back.index (k, e.1) back.node refl)
      ∙ sym (find-Lacks hasher m v k lacks)
]
