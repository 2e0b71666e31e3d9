-- ===== src/Maps/Ids.antt =====
-- TonkineseMaps.h and TonkineseMaps.cpp: `ConnectionIdMap`, which gives each connection an id.
-- `best_unused_ids` is the used part of `BestUnusedIds`, its last entry first.
use tonk.Common.{
  ℕ, zero, suc, ◌+◌, ◌-◌, Bool, true, false, ◌&&◌, ◌||◌, if◌then◌else◌, ltb, leb, ◌==◌, Option,
  none, some, List, [], ◌∷◌, length,
}
use tonk.Common.Bits.{u8, u32}
use tonk.Maps.{LightHashMap, empty}
use tonk.Maps.Connections.{insert_connection, remove_connection}

-- `kConnectionIdCount`
abbrev pub connection_id_count : ℕ
connection_id_count = 16777216

-- `TONK_INVALID_ID`
abbrev pub invalid_id : ℕ
invalid_id = 2147483647

pub record ConnectionIdMap : Type 0 where
  pub id_map : LightHashMap ℕ
  pub best_unused_ids : List ℕ
  pub next_id : ℕ

-- The first `count` entries that the constructor writes.
unfoldable pub unused_ids : ℕ → ℕ → List ℕ
unused_ids offset zero = []
unused_ids offset (suc i) = u8 (255 - i + offset) ∷ unused_ids offset i

abbrev pub new_id_map : ℕ → ConnectionIdMap
new_id_map offset = record { id_map = empty; best_unused_ids = unused_ids offset 256; next_id = 0 }

-- The step of `NextId`
unfoldable pub advance : ℕ → ℕ
advance next =
    let id = u32 (next + 1) in if ltb id 256 || leb connection_id_count id then 256 else id

module _ (hasher : ℕ → ℕ) where
  -- The loop of `InsertAndAssignId`, on fuel.
  unfoldable pub assign_next : ℕ → LightHashMap ℕ → ℕ → ℕ → Option (ℕ × LightHashMap ℕ)
  unfolding advance insert_connection
  assign_next zero m next c = none
  assign_next (suc fuel) m next c = elim (insert_connection hasher m (advance next) c) [
    | none ↦ none
    | some r ↦ elim r.0 [
      | true ↦ some (advance next, r.1)
      | false ↦ assign_next fuel r.1 (advance next) c
    ]
  ]

  -- `InsertAndAssignId`: what it returns, and `idOut`.
  unfoldable pub insert_and_assign_id :
      ConnectionIdMap → ℕ → ℕ → Option ((Bool × ℕ) × ConnectionIdMap)
  unfolding insert_connection assign_next
  insert_and_assign_id s id_out c = elim s.best_unused_ids [
    | id ∷ rest ↦ elim (insert_connection hasher s.id_map id c) [
      | none ↦ none
      | some r ↦ some (
        (r.0, id),
        record s { id_map = r.1; best_unused_ids = if r.0 then rest else s.best_unused_ids },
      )
    ]
    | [] ↦
        if leb connection_id_count s.id_map.num_valid
        then some ((false, id_out), s)
        else elim (assign_next connection_id_count s.id_map s.next_id c) [
          | none ↦ none
          | some r ↦ some ((true, r.0), record s { id_map = r.1; next_id = r.0 })
        ]
  ]

  -- `RemoveAndUnassignId`
  unfoldable pub remove_and_unassign_id : ConnectionIdMap → ℕ → ℕ → Bool × ConnectionIdMap
  unfolding remove_connection
  remove_and_unassign_id s id c =
      let r = remove_connection hasher s.id_map id c in
      let back = ltb id 256 && ltb (length s.best_unused_ids) 256 in
      if id == invalid_id then (false, s) else (
        r.0,
        record s {
          id_map = r.1;
          best_unused_ids = if back then u8 id ∷ s.best_unused_ids else s.best_unused_ids;
        },
      )
