-- ===== src/Maps/Take.antt =====
-- TonkineseMaps.h: a table whose counter is right, and one node taken into it.
use tonk.Common.{
  ℕ, ◌+◌, ◌<◌, ◌≡◌, ◌≢◌, refl, true, false, none, some, length, set, arith, length-set,
}
use tonk.Maps.{Table, LightHashMap, get_node, Probe, probe, hash_key, move_into}
use tonk.Maps.Walk.{
  between, get_node-set, is_taken, Ends, ends_found, ends_vacant, ends_full, probe-Ends,
}
use tonk.Maps.Place.{IsSearchable, set-IsSearchable}
use tonk.Maps.Count.{count, count-set-some, free_node}

-- A key has a node with this value.
pub record Holds {ℓ} {V : Type ℓ} (t : Table V) (k : ℕ) (x : V) : Type ℓ where
  pub index : ℕ
  pub node : get_node t index ≡ some (k, x)

module _ {ℓ} {V : Type ℓ} (hasher : ℕ → ℕ) where
  -- A map whose counter is right and whose table can be searched.
  pub record IsTable (m : LightHashMap V) : Type ℓ where
    pub searchable : IsSearchable (hash_key hasher m.hash_shift) m.values
    pub counted : count m.values ≡ m.num_valid

  -- What a table holds after it took a node.
  pub record Takes (m m' : LightHashMap V) (k : ℕ) (x : V) : Type ℓ where
    pub table : IsTable m'
    pub shift : m'.hash_shift ≡ m.hash_shift
    pub threshold : m'.grow_threshold ≡ m.grow_threshold
    pub table_size : length m'.values ≡ length m.values
    pub more : m'.num_valid ≡ m.num_valid + 1
    pub new : Holds m'.values k x
    pub kept : (q : ℕ) (y : V) → Holds m.values q y → Holds m'.values q y
    pub only : (q : ℕ) (y : V) → Holds m'.values q y → q ≢ k → Holds m.values q y

  abbrev pub with_node : LightHashMap V → ℕ → ℕ → V → LightHashMap V
  with_node m i k x = record m {
    values = set m.values i (some (k, x));
    num_valid = m.num_valid + 1;
  }

  pub with_node-Takes :
      (m : LightHashMap V) (i k : ℕ) (x : V)
      → IsTable m
      → i < length m.values
      → get_node m.values i ≡ none
      → ((s : ℕ)
          → s < length m.values
          → between i s (hash_key hasher m.hash_shift k) ≡ true
          → s ≢ i
          → is_taken (get_node m.values s) ≡ true)
      → ((j : ℕ) (e : ℕ × V) → get_node m.values j ≡ some e → e.0 ≢ k)
      → Takes m (with_node m i k x) k x
  with_node-Takes m i k x v below free path absent = record {
    table = record {
      searchable =
          set-IsSearchable (hash_key hasher m.hash_shift) m.values v.searchable k i x below free
            path absent;
      counted = omega (arith, count-set-some m.values i (k, x) below free, v.counted);
    };
    shift = refl;
    threshold = refl;
    table_size = length-set m.values i (some (k, x));
    more = refl;
    new = record {
      index = i;
      node = ground (arith, get_node-set m.values i i (some (k, x)) below);
    };
    kept = λ q y h. record {
      index = h.index;
      node = ground (arith, get_node-set m.values i h.index (some (k, x)) below, h.node, free);
    };
    only = λ q y h differs. record {
      index = h.index;
      node = ground (arith, get_node-set m.values i h.index (some (k, x)) below, h.node);
    };
  }

  -- `move_into` finds a free node, if there is one, for a key that has none.
  pub move_into-Takes :
      (m : LightHashMap V) (k : ℕ) (x : V)
      → IsTable m
      → count m.values < length m.values
      → ((j : ℕ) (e : ℕ × V) → get_node m.values j ≡ some e → e.0 ≢ k)
      → Takes m (move_into hasher m (k, x)) k x
  unfolding move_into
  move_into-Takes m k x v room absent =
      go _ refl
        (probe-Ends m.values (λ _. false) (hash_key hasher m.hash_shift k) (v.searchable.homes k))
    where
      go :
          (p : Probe)
          → probe m.values (λ _. false) (hash_key hasher m.hash_shift k) ≡ p
          → Ends m.values (λ _. false) (hash_key hasher m.hash_shift k) p
          → Takes m (move_into hasher m (k, x)) k x
      go _ at_i (ends_vacant i below free path) =
          rw (move_into, at_i)
            (with_node-Takes m i k x v below free (λ s p b n. ground (arith, path s p b n)) absent)
      go _ at_i (ends_found i e node stopped) = absurd cc
      go _ at_i (ends_full good) =
          let (i, below, free) = free_node m.values room in
          absurd (ground (arith, good i below, free))
