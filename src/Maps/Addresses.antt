-- ===== src/Maps/Addresses.antt =====
-- TonkineseMaps.h and TonkineseMaps.cpp: `ConnectionAddrMap`, from source addresses to connections, with
-- the address found last kept beside the table. An address is a number; `UDPAddress` is of asio, so
-- its test for an unspecified address and the default address are parameters.
use tonk.Common.{
  ℕ, Bool, true, false, not, ◌&&◌, if◌then◌else◌, ◌==◌, Option, none, some, List, [], ◌∷◌,
}
use tonk.Maps.{LightHashMap, empty, find}
use tonk.Maps.Connections.{insert_connection, remove_connection}
use tonk.Maps.Operations.{is_connection}
use tonk.Maps.History.{insert_of, remove_of, answer, update}

pub record ConnectionAddrMap : Type 0 where
  pub address_map : LightHashMap ℕ
  pub recent_address : ℕ
  pub recent_connection : Option ℕ

pub data Request : Type 0 where
  find_at : ℕ → Request
  insert_at remove_at : ℕ → ℕ → Request
  change_at : ℕ → ℕ → ℕ → Request

pub data Reply : Type 0 where
  connection : Option ℕ → Reply
  success : Bool → Reply

module _ (no_address : ℕ) where
  -- `recent` is the pointer that is not set at first.
  abbrev pub initial : Option ℕ → ConnectionAddrMap
  initial recent = record {
    address_map = empty;
    recent_address = no_address;
    recent_connection = recent;
  }

  -- The connection is no longer the recent one.
  unfoldable pub forget_recent : ConnectionAddrMap → ℕ → ConnectionAddrMap
  forget_recent s c =
      let recent = is_connection s.recent_connection c in
      record s {
        recent_address = if recent then no_address else s.recent_address;
        recent_connection = if recent then none else s.recent_connection;
      }

module _ (hasher : ℕ → ℕ) (is_unspecified : ℕ → Bool) (no_address : ℕ) where
  -- `FindByAddr`. The reference that it takes is one to the connection it returns.
  unfoldable pub find_by_addr : ConnectionAddrMap → ℕ → Option ℕ × ConnectionAddrMap
  unfolding find
  find_by_addr s a =
      if a == s.recent_address
      then (s.recent_connection, s)
      else elim (find hasher s.address_map a) [
        | none ↦ (none, s)
        | some c ↦ (some c, record s { recent_address = a; recent_connection = some c })
      ]

  -- `InsertAddress`
  unfoldable pub insert_address : ConnectionAddrMap → ℕ → ℕ → Option (Bool × ConnectionAddrMap)
  unfolding insert_connection
  insert_address s a c =
      if is_unspecified a
      then some (false, s)
      else elim (insert_connection hasher s.address_map a c) [
        | none ↦ none
        | some r ↦ some (r.0, record s { address_map = r.1 })
      ]

  -- `RemoveAddress`
  unfoldable pub remove_address : ConnectionAddrMap → ℕ → ℕ → Bool × ConnectionAddrMap
  unfolding forget_recent remove_connection
  remove_address s a c =
      let forgot = forget_recent no_address s c in
      let r = remove_connection hasher forgot.address_map a c in
      if is_unspecified a then (false, s) else (r.0, record forgot { address_map = r.1 })

  -- `ChangeAddress`
  unfoldable pub change_address : ConnectionAddrMap → ℕ → ℕ → ℕ → Option (Bool × ConnectionAddrMap)
  unfolding forget_recent remove_connection insert_connection
  change_address s old new c =
      let forgot = forget_recent no_address s c in
      let removed : ConnectionAddrMap = if is_unspecified old then forgot else record forgot {
        address_map = (remove_connection hasher forgot.address_map old c).1;
      } in
      if is_unspecified new
      then some (true, removed)
      else elim (insert_connection hasher removed.address_map new c) [
        | none ↦ none
        | some r ↦ some (r.0, record removed { address_map = r.1 })
      ]

  unfoldable pub handle : ConnectionAddrMap → Request → Option (Reply × ConnectionAddrMap)
  unfolding find_by_addr insert_address remove_address change_address
  handle s (find_at a) = let r = find_by_addr s a in some (connection r.0, r.1)
  handle s (insert_at a c) = elim (insert_address s a c) [
    | none ↦ none
    | some r ↦ some (success r.0, r.1)
  ]
  handle s (remove_at a c) = let r = remove_address s a c in some (success r.0, r.1)
  handle s (change_at old new c) = elim (change_address s old new c) [
    | none ↦ none
    | some r ↦ some (success r.0, r.1)
  ]

  unfoldable pub handle_all :
      ConnectionAddrMap → List Request → Option (List Reply × ConnectionAddrMap)
  unfolding handle
  handle_all s [] = some ([], s)
  handle_all s (req ∷ reqs) = elim (handle s req) [
    | none ↦ none
    | some r ↦ elim (handle_all r.1 reqs) [ none ↦ none | some rest ↦ some (r.0 ∷ rest.0, rest.1) ]
  ]

module _ (is_unspecified : ℕ → Bool) where
  -- The same requests to a finite map, which keeps no recent address: the reply, and the map after it.
  unfoldable pub without : (ℕ → Option ℕ) → ℕ → ℕ → ℕ → Option ℕ
  unfolding update
  without f old c q = if is_unspecified old then f q else update f (remove_of old c) q

  unfoldable pub reply : (ℕ → Option ℕ) → Request → Reply
  unfolding answer without
  reply f (find_at a) = connection (f a)
  reply f (insert_at a c) = success (if is_unspecified a then false else answer f (insert_of a c))
  reply f (remove_at a c) = success (if is_unspecified a then false else answer f (remove_of a c))
  reply f (change_at old new c) =
      success (if is_unspecified new then true else answer (without f old c) (insert_of new c))

  unfoldable pub after : (ℕ → Option ℕ) → Request → ℕ → Option ℕ
  unfolding update without
  after f (find_at a) q = f q
  after f (insert_at a c) q = if is_unspecified a then f q else update f (insert_of a c) q
  after f (remove_at a c) q = if is_unspecified a then f q else update f (remove_of a c) q
  after f (change_at old new c) q =
      if is_unspecified new then without f old c q else update (without f old c) (insert_of new c) q

  unfoldable pub replies : (ℕ → Option ℕ) → List Request → List Reply
  unfolding reply after
  replies f [] = []
  replies f (req ∷ reqs) = reply f req ∷ replies (after f req) reqs

  -- `FindByAddr` asserts that its address is specified.
  unfoldable pub is_proper : Request → Bool
  is_proper (find_at a) = not (is_unspecified a)
  is_proper (insert_at a c) = true
  is_proper (remove_at a c) = true
  is_proper (change_at old new c) = true

  unfoldable pub are_proper : List Request → Bool
  unfolding is_proper
  are_proper [] = true
  are_proper (req ∷ reqs) = is_proper req && are_proper reqs
