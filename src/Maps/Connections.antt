-- ===== src/Maps/Connections.antt =====
-- TonkineseMaps.h: `ConnectionMap`, from keys to connections, and a finite map as what it promises.
-- A connection is a number, for its address. `Find` is `find` of Maps.antt.
use tonk.Common.{ℕ, Bool, true, false, if◌then◌else◌, ◌==◌, Option, none, some}
use tonk.Maps.{LightHashMap, get_node, insert, erase_index, find_index}

module _ (hasher : ℕ → ℕ) where
  -- `ConnectionMap::Insert`: `none` would be a result that is not set.
  unfoldable pub insert_connection : LightHashMap ℕ → ℕ → ℕ → Option (Bool × LightHashMap ℕ)
  unfolding insert
  insert_connection m k c = elim (insert hasher m k c) [ none ↦ none | some r ↦ some (r.0.1, r.1) ]

  -- `ConnectionMap::Remove`
  unfoldable pub remove_connection : LightHashMap ℕ → ℕ → ℕ → Bool × LightHashMap ℕ
  unfolding find_index erase_index
  remove_connection m k c = elim (find_index hasher m k) [
    | none ↦ (false, m)
    | some i ↦ elim (get_node m.values i) [
      | none ↦ (false, m)
      | some e ↦ if e.1 == c then (true, erase_index hasher m i) else (false, m)
    ]
  ]
