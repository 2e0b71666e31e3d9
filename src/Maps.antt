-- ===== src/Maps.antt =====
-- TonkineseMaps.h: `LightHashMap`, open addressing that probes downwards, and `ConnectionMap` over it.
-- A node is a key and a value, and `none` is a node whose state is `cStateInvalid`. Keys are numbers,
-- as ids and P2P keys are; the hasher is a parameter. An index of -1 is `none`.
pub mod Walk
pub mod Count
pub mod Place
pub mod Take
pub mod Rehash
pub mod View
pub mod Grow
pub mod NoGrow
pub mod Insert
pub mod Hole
pub mod Erase
pub mod Terminates
pub mod Connections
pub mod Operations
pub mod History
pub mod Addresses
pub mod Cache
pub mod Requests
pub mod Ids
pub mod Vacancies
pub mod Assign
pub mod Unassign
pub mod IdReachable
mod Tests
use tonk.Common.{
  ℕ, zero, suc, ◌+◌, ◌-◌, ◌*◌, ◌/◌, ◌^◌, Bool, true, false, not, ◌&&◌, ◌||◌, if◌then◌else◌, ltb,
  leb, ◌==◌, Option, none, some, List, [], ◌∷◌, length, get_or, set, replicate,
}
use tonk.Common.Bits.{◌>>◌, u32}

-- `m_values`
abbrev pub Table {ℓ} : Type ℓ → Type ℓ
Table V = List (Option (ℕ × V))

pub record LightHashMap {ℓ} (V : Type ℓ) : Type ℓ where
  pub values : Table V
  pub hash_shift : ℕ
  pub num_valid : ℕ
  pub grow_threshold : ℕ

abbrev pub empty {ℓ} : {V : Type ℓ} → LightHashMap V
empty = record { values = []; hash_shift = 32; num_valid = 0; grow_threshold = 0 }

abbrev pub min_hash_size : ℕ
min_hash_size = 4

-- `NonzeroLowestBitIndex`, 31 less the leading zeros: the place of the highest bit, by rounds of
-- halving, of which a 32-bit word needs 31.
unfoldable pub highest_bit : ℕ → ℕ → ℕ
highest_bit zero x = 0
highest_bit (suc rounds) x =
    let rest = highest_bit rounds (x / 2) in if ltb x 2 then 0 else suc rest

unfoldable pub nonzero_lowest_bit_index : ℕ → ℕ
unfolding highest_bit
nonzero_lowest_bit_index x = highest_bit 31 x

abbrev pub get_node {ℓ} : {V : Type ℓ} → Table V → ℕ → Option (ℕ × V)
get_node t i = get_or t i none

-- One step down, from the first node to the last.
abbrev pub previous : ℕ → ℕ → ℕ
previous count i = if i == 0 then count - 1 else i - 1

-- What a probe from a key's hash ends at: a node with a key that stops it, a free node, or neither.
pub data Probe : Type 0 where
  found vacant : ℕ → Probe
  full : Probe

module _ {ℓ} {V : Type ℓ} where
  -- The probe loops of `find_index`, `insert_no_grow` and `move_into`: down from `index` until the
  -- first index comes back. The first two stop at their key, the third at no key.
  unfoldable pub walk : ℕ → Table V → (ℕ → Bool) → ℕ → ℕ → Probe
  walk zero t stop first index = full
  walk (suc fuel) t stop first index =
      let i = previous (length t) index in
      let rest = walk fuel t stop first i in
      if i == first
      then full
      else elim (get_node t i) [ none ↦ vacant i | some e ↦ if stop e.0 then found i else rest ]

  unfoldable pub probe : Table V → (ℕ → Bool) → ℕ → Probe
  unfolding walk
  probe t stop first = elim (get_node t first) [
    | none ↦ vacant first
    | some e ↦ if stop e.0 then found first else walk (length t) t stop first first
  ]

-- `UInt32Hasher`
abbrev pub uint32_hasher : ℕ → ℕ
uint32_hasher id = id

-- `hash_key`: Fibonacci hashing
unfoldable pub hash_key : (ℕ → ℕ) → ℕ → ℕ → ℕ
hash_key hasher shift k = u32 (2654435769 * u32 (hasher k)) >> shift

module _ {ℓ} {V : Type ℓ} (hasher : ℕ → ℕ) where
  -- `find_index`
  unfoldable pub find_index : LightHashMap V → ℕ → Option ℕ
  unfolding probe hash_key
  find_index m k =
      if m.num_valid == 0
      then none
      else elim (probe m.values (λ key. key == k) (hash_key hasher m.hash_shift k)) [
        | found i ↦ some i
        | vacant _ ↦ none
        | full ↦ none
      ]

  -- `insert_no_grow`: `none` for false, else `insert_result` and the map.
  unfoldable pub insert_no_grow : LightHashMap V → ℕ → V → Option ((ℕ × Bool) × LightHashMap V)
  unfolding probe hash_key
  insert_no_grow m k v =
      if length m.values == 0
      then none
      else elim (probe m.values (λ key. key == k) (hash_key hasher m.hash_shift k)) [
        | found i ↦ some ((i, false), m)
        | full ↦ none
        | vacant i ↦
            if leb m.grow_threshold m.num_valid
            then none
            else some (
              (i, true),
              record m { values = set m.values i (some (k, v)); num_valid = m.num_valid + 1 },
            )
      ]

  -- `move_into`: no node is free only where an assertion fails.
  unfoldable pub move_into : LightHashMap V → ℕ × V → LightHashMap V
  unfolding probe hash_key
  move_into m node = elim (probe m.values (λ _. false) (hash_key hasher m.hash_shift node.0)) [
    | vacant i ↦ record m { values = set m.values i (some node); num_valid = m.num_valid + 1 }
    | found _ ↦ m
    | full ↦ m
  ]

  -- The loop of `rehash` over the old nodes, until all that were valid have moved.
  unfoldable pub move_all : ℕ → Table V → LightHashMap V → LightHashMap V
  unfolding move_into
  move_all total [] m = m
  move_all total (none ∷ nodes) m = move_all total nodes m
  move_all total (some node ∷ nodes) m =
      let moved = move_into m node in
      let rest = move_all total nodes moved in if total == moved.num_valid then moved else rest

  -- `rehash`
  unfoldable pub rehash : LightHashMap V → ℕ → LightHashMap V
  unfolding move_all nonzero_lowest_bit_index
  rehash m new_hash_size =
      let fresh : LightHashMap V = record {
        values = replicate new_hash_size none;
        hash_shift = 32 - nonzero_lowest_bit_index new_hash_size;
        num_valid = 0;
        grow_threshold = (new_hash_size + 1) / 2;
      } in
      if ltb new_hash_size m.num_valid || new_hash_size == length m.values
      then m
      else move_all m.num_valid m.values fresh

  -- `insert`: `none` would be the result that the code leaves unset.
  unfoldable pub insert : LightHashMap V → ℕ → V → Option ((ℕ × Bool) × LightHashMap V)
  unfolding insert_no_grow rehash
  insert m k v =
      let doubled = u32 (length m.values * 2) in
      let new_size = if ltb doubled min_hash_size then min_hash_size else doubled in
      elim (insert_no_grow m k v) [
        | some result ↦ some result
        | none ↦ insert_no_grow (rehash m new_size) k v
      ]

  -- The loops of `erase_index`: the hole is at `hole`, and every node down to `i` was looked at. A node
  -- whose home lies past the hole moves into it. With the table comes whether the loops ended on this fuel.
  unfoldable pub close_hole : ℕ → ℕ → Table V → ℕ → ℕ → Bool × Table V
  unfolding hash_key
  close_hole zero shift t hole i = (false, t)
  close_hole (suc fuel) shift t hole i =
      let j = previous (length t) i in
      elim (get_node t j) [
        | none ↦ (true, t)
        | some e ↦
            (let r = hash_key hasher shift e.0 in
              let skip = close_hole fuel shift t hole j in
              let move = close_hole fuel shift (set (set t hole (some e)) j none) j j in
              if leb j r && ltb r hole || (ltb r hole && ltb hole j || ltb hole j && leb j r)
              then skip
              else move)
      ]

  -- `erase_index`
  unfoldable pub erase_index : LightHashMap V → ℕ → LightHashMap V
  unfolding close_hole
  erase_index m i = record m {
    values = (close_hole (length m.values) m.hash_shift (set m.values i none) i i).1;
    num_valid = m.num_valid - 1;
  }

  -- `ConnectionMap::Find`, with `none` for the null pointer.
  unfoldable pub find : LightHashMap V → ℕ → Option V
  unfolding find_index
  find m k = elim (find_index m k) [
    | none ↦ none
    | some i ↦ elim (get_node m.values i) [ none ↦ none | some e ↦ some e.1 ]
  ]
