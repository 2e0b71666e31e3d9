-- ===== src/Maps/Place.antt =====
-- TonkineseMaps.h: what makes a table searchable, and a node put where a probe ends.
use tonk.Common.{
  ℕ, ◌<◌, ◌≡◌, ◌≢◌, ◌∙◌, Bool, true, ◌==◌, none, some, length, set, arith, length-set, ap, sym,
  ==→eq,
}
use tonk.Maps.{Table, get_node, Probe, found, probe}
use tonk.Maps.Walk.{
  between, get_node-set, some-lt, is_taken, Ends, ends_found, ends_vacant, ends_full, probe-Ends,
}

-- What stops the probe for a key.
abbrev pub at_key : ℕ → ℕ → Bool
at_key k key = key == k

module _ {ℓ} {V : Type ℓ} (home : ℕ → ℕ) where
  -- Every node on the way from a key's home to its node is valid, and no key has two nodes.
  pub record IsSearchable (t : Table V) : Type ℓ where
    pub placed :
        (i s : ℕ) (e : ℕ × V)
        → get_node t i ≡ some e
        → s < length t
        → between i s (home e.0) ≡ true
        → is_taken (get_node t s) ≡ true
    pub unique :
        (i j : ℕ) (e d : ℕ × V) → get_node t i ≡ some e → get_node t j ≡ some d → e.0 ≡ d.0 → i ≡ j
    pub homes : (k : ℕ) → home k < length t

  module _ (t : Table V) (v : IsSearchable t) where
    -- A key that has a node is found there.
    reaches :
        (k i : ℕ) (e : ℕ × V) (p : Probe)
        → get_node t i ≡ some e
        → e.0 ≡ k
        → Ends t (at_key k) (home k) p
        → p ≡ found i
    reaches k i e _ node same (ends_found j d other stopped) =
        ap found (v.unique j i d e other node (==→eq d.0 k stopped ∙ sym same))
    reaches k i e _ node same (ends_full good) =
        absurd (ground (arith, good i (some-lt t i e node), node))
    reaches k i e _ node same (ends_vacant j below free good) = absurd (
        ground (
          arith,
          good i (some-lt t i e node),
          node,
          free,
          v.placed i j e node below,
          v.homes k,
          some-lt t i e node,
        ))

    pub probe-reaches :
        (k i : ℕ) (e : ℕ × V)
        → get_node t i ≡ some e
        → e.0 ≡ k
        → probe t (at_key k) (home k) ≡ found i
    probe-reaches k i e node same =
        reaches k i e _ node same (probe-Ends t (at_key k) (home k) (v.homes k))

    -- A free node at the end of a probe takes a key that no node has.
    pub set-IsSearchable :
        (k i : ℕ) (x : V)
        → i < length t
        → get_node t i ≡ none
        → ((s : ℕ)
            → s < length t
            → between i s (home k) ≡ true
            → s ≢ i
            → is_taken (get_node t s) ≡ true)
        → ((j : ℕ) (e : ℕ × V) → get_node t j ≡ some e → e.0 ≢ k)
        → IsSearchable (set t i (some (k, x)))
    set-IsSearchable k i x below free path absent = record {
      placed = λ j s e node p b. ground (
        arith,
        get_node-set t i j (some (k, x)) below,
        get_node-set t i s (some (k, x)) below,
        length-set t i (some (k, x)),
        path s,
        v.placed j s e,
      );
      unique = λ j l e d node other same. ground (
        arith,
        get_node-set t i j (some (k, x)) below,
        get_node-set t i l (some (k, x)) below,
        absent l d,
        absent j e,
        v.unique j l e d,
      );
      homes = λ q. rw (length-set t i (some (k, x))) (v.homes q);
    }
