-- ===== src/Maps/NoGrow.antt =====
-- TonkineseMaps.h: what `insert_no_grow` does to a table that has room.
use tonk.Common.{
  ℕ, ◌≤◌, ◌<◌, ◌≡◌, refl, ◌∙◌, Bool, true, false, leb, ◌==◌, Option, none, some, length, arith, inl,
  inr, Bool-cases, ap, ==→eq,
}
use tonk.Maps.{LightHashMap, get_node, Probe, probe, hash_key, insert_no_grow}
use tonk.Maps.Walk.{Ends, ends_found, ends_vacant, ends_full, probe-Ends, get_node-set}
use tonk.Maps.Place.{at_key}
use tonk.Maps.Count.{count, free_node}
use tonk.Maps.Take.{IsTable, Takes, with_node, with_node-Takes}
use tonk.Maps.View.{Lacks, missed-Lacks}

module _ {ℓ} {V : Type ℓ} (hasher : ℕ → ℕ) (m : LightHashMap V) (k : ℕ) (v : V) where
  pub data NoGrow : Option ((ℕ × Bool) × LightHashMap V) → Type ℓ where
    present : (i : ℕ) (x : V) → get_node m.values i ≡ some (k, x) → NoGrow (some ((i, false), m))
    refused : Lacks m.values k → m.grow_threshold ≤ m.num_valid → NoGrow none
    added :
        (i : ℕ) (m' : LightHashMap V)
        → Lacks m.values k
        → m.num_valid < m.grow_threshold
        → Takes hasher m m' k v
        → get_node m'.values i ≡ some (k, v)
        → NoGrow (some ((i, true), m'))

  pub insert_no_grow-NoGrow :
      IsTable hasher m → count m.values < length m.values → NoGrow (insert_no_grow hasher m k v)
  unfolding insert_no_grow
  insert_no_grow-NoGrow t room =
      go _ refl
        (probe-Ends m.values (at_key k) (hash_key hasher m.hash_shift k) (t.searchable.homes k))
    where
      some_nodes : (length m.values == 0) ≡ false
      some_nodes = ground (arith, room)

      go :
          (p : Probe)
          → probe m.values (at_key k) (hash_key hasher m.hash_shift k) ≡ p
          → Ends m.values (at_key k) (hash_key hasher m.hash_shift k) p
          → NoGrow (insert_no_grow hasher m k v)
      go _ at_p (ends_found i e node stopped) =
          rw (insert_no_grow, some_nodes, at_p)
            (present i e.1 (node ∙ ap (λ key. some (key, e.1)) (==→eq e.0 k stopped)))
      go _ at_p (ends_full good) =
          let (i, below, free) = free_node m.values room in
          absurd (ground (arith, good i below, free))
      go _ at_p (ends_vacant i below free path) =
          let lacks = missed-Lacks hasher m t k _ at_p (λ j e. absurd cc) in
          elim (Bool-cases (leb m.grow_threshold m.num_valid)) [
            | inl reached ↦
                rw (insert_no_grow, some_nodes, at_p, reached)
                  (refused lacks (ground (arith, reached)))
            | inr more ↦
                rw (insert_no_grow, some_nodes, at_p, more)
                  (added i (with_node hasher m i k v) lacks (ground (arith, more))
                    (with_node-Takes hasher m i k v t below free
                      (λ s p b n. ground (arith, path s p b n)) lacks)
                    (ground (arith, get_node-set m.values i i (some (k, v)) below)))
          ]
