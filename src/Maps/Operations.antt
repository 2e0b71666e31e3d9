-- ===== src/Maps/Operations.antt =====
-- TonkineseMaps.h: any sequence of `Insert` and `Remove` of a `ConnectionMap` answers as a finite map.
use tonk.Common.{
  ℕ, ◌+◌, ◌≡◌, refl, ◌∙◌, Bool, true, false, ◌&&◌, if◌then◌else◌, ◌==◌, Option, none, some, length,
  arith, inl, inr, Bool-cases, ap, sym, ==→eq,
}
use tonk.Maps.{LightHashMap, empty, get_node, erase_index, find_index, find, hash_key, Probe, probe}
use tonk.Maps.Walk.{Ends, ends_found, ends_vacant, ends_full, probe-Ends}
use tonk.Maps.Place.{at_key}
use tonk.Maps.Take.{IsTable}
use tonk.Maps.View.{find-Holds}
use tonk.Maps.Insert.{IsValid}
use tonk.Maps.Erase.{Erased, erase_index-Erased}
use tonk.Maps.Connections.{remove_connection}

-- The connection of a key is this one.
abbrev pub is_connection : Option ℕ → ℕ → Bool
is_connection none c = false
is_connection (some d) c = d == c

module _ (hasher : ℕ → ℕ) where
  -- An index is found for the keys that have a value, and only for these.
  data Indexed (m : LightHashMap ℕ) (k : ℕ) : Type 0 where
    no_index : find_index hasher m k ≡ none → find hasher m k ≡ none → Indexed m k
    has_index :
        (i x : ℕ) → find_index hasher m k ≡ some i → get_node m.values i ≡ some (k, x) → Indexed m k

  find_index-Indexed : (m : LightHashMap ℕ) (k : ℕ) → IsTable hasher m → Indexed m k
  unfolding find_index find
  find_index-Indexed m k t = elim (Bool-cases (m.num_valid == 0)) [
    | inl nothing ↦ no_index (rw (find_index, nothing) refl) (rw (find, find_index, nothing) refl)
    | inr some_valid ↦
        go some_valid _ refl
          (probe-Ends m.values (at_key k) (hash_key hasher m.hash_shift k) (t.searchable.homes k))
  ]
    where
      go :
          (m.num_valid == 0) ≡ false
          → (p : Probe) → probe m.values (at_key k) (hash_key hasher m.hash_shift k) ≡ p
          → Ends m.values (at_key k) (hash_key hasher m.hash_shift k) p
          → Indexed m k
      go some_valid _ at_p (ends_found i e node stopped) =
          has_index i e.1 (rw (find_index, some_valid, at_p) refl)
            (node ∙ ap (λ key. some (key, e.1)) (==→eq e.0 k stopped))
      go some_valid _ at_p (ends_vacant i below free path) =
          no_index (rw (find_index, some_valid, at_p) refl)
            (rw (find, find_index, some_valid, at_p) refl)
      go some_valid _ at_p (ends_full good) =
          no_index (rw (find_index, some_valid, at_p) refl)
            (rw (find, find_index, some_valid, at_p) refl)

  -- What `Remove` gives, seen as a map of keys to connections.
  pub record Removed (m : LightHashMap ℕ) (k c : ℕ) (r : Bool × LightHashMap ℕ) : Type 0 where
    pub valid : IsValid hasher r.1
    pub answer : r.0 ≡ is_connection (find hasher m k) c
    pub lookup :
        (q : ℕ)
        → find hasher r.1 q
          ≡ (if q == k && is_connection (find hasher m k) c then none else find hasher m q)
    pub key_count :
        r.1.num_valid + (if is_connection (find hasher m k) c then 1 else 0) ≡ m.num_valid
    pub same_size : length r.1.values ≡ length m.values

  unchanged-Removed :
      (m : LightHashMap ℕ) (k c : ℕ)
      → IsValid hasher m
      → is_connection (find hasher m k) c ≡ false
      → Removed m k c (false, m)
  unchanged-Removed m k c v other = record {
    valid = v;
    answer = sym other;
    lookup = λ q. rw other (ground arith);
    key_count = rw other (omega arith);
    same_size = refl;
  }

  Erased-Removed :
      (m r : LightHashMap ℕ) (k c : ℕ)
      → is_connection (find hasher m k) c ≡ true
      → Erased hasher m k r
      → Removed m k c (true, r)
  Erased-Removed m r k c same e = record {
    valid = inr e.built;
    answer = sym same;
    lookup = λ q. rw same (e.lookup q ∙ ground arith);
    key_count = rw same e.key_count;
    same_size = e.same_size;
  }

  pub remove-Removed :
      (m : LightHashMap ℕ) (k c : ℕ)
      → IsValid hasher m
      → Removed m k c (remove_connection hasher m k c)
  unfolding remove_connection find find_index
  remove-Removed m k c (inl e) = rw e (unchanged-Removed empty k c (inl refl) refl)
  remove-Removed m k c (inr b) = go (find_index-Indexed m k b.table)
    where
      go : Indexed m k → Removed m k c (remove_connection hasher m k c)
      go (no_index missing nothing) =
          rw (remove_connection, missing) (unchanged-Removed m k c (inr b) (rw nothing refl))
      go (has_index i x at_i node) =
          let there = find-Holds hasher m b.table k x (record { index = i; node = node }) in
          elim (Bool-cases (x == c)) [
            | inl same ↦
                rw (remove_connection, at_i, node, same)
                  (Erased-Removed m (erase_index hasher m i) k c (rw there same)
                    (erase_index-Erased hasher m i k x b node))
            | inr other ↦
                rw (remove_connection, at_i, node, other)
                  (unchanged-Removed m k c (inr b) (rw there other))
          ]
