-- ===== src/Maps/Tests.antt =====
-- TonkineseMaps.h and TonkineseMaps.cpp: runs on small tables, and the theorems at them.
use tonk.Common.{
  ℕ, ◌^◌, ◌<◌, ◌≡◌, refl, Bool, true, false, if◌then◌else◌, ◌==◌, none, some, List, [], ◌∷◌, length,
  set, arith, inl, inr, ap, subst,
}
use tonk.Maps.{LightHashMap, empty, uint32_hasher, get_node, insert, erase_index, close_hole, find}
use tonk.Maps.Grow.{IsBuilt}
use tonk.Maps.Insert.{IsValid, Inserted, insert-Inserted}
use tonk.Maps.Erase.{Erased, erase_index-Erased}
use tonk.Maps.Terminates.{erase_index-terminates}
use tonk.Maps.History.{
  Operation, insert_of, remove_of, answers, answer, update, view, apply_all, apply_all-answers,
}
use tonk.Maps.Addresses.{
  ConnectionAddrMap, initial, Request, find_at, insert_at, remove_at, change_at, handle_all,
  replies, reply, after, without, are_proper, is_proper, connection, success,
}
use tonk.Maps.Requests.{handle_all-replies}
use tonk.Maps.Ids.{
  connection_id_count, ConnectionIdMap, new_id_map, unused_ids, insert_and_assign_id,
}
use tonk.Maps.IdReachable.{assigns, Reachable, starts, then_step, Reachable-assigns}

abbrev one_key : LightHashMap ℕ
one_key = record {
  values = none ∷ none ∷ some (1, 10) ∷ none ∷ [];
  hash_shift = 30;
  num_valid = 1;
  grow_threshold = 2;
}

one_key_lem : insert uint32_hasher empty 1 10 ≡ some ((2, true), one_key)
unfolding insert
one_key_lem = refl

insert-IsBuilt :
    (m : LightHashMap ℕ) (k v : ℕ) (r : (ℕ × Bool) × LightHashMap ℕ)
    → IsValid uint32_hasher m
    → length m.values < 2 ^ 31
    → insert uint32_hasher m k v ≡ some r
    → IsBuilt uint32_hasher r.1
insert-IsBuilt m k v r valid small at_r =
    let (t, at_t, done) = insert-Inserted uint32_hasher m k v valid small in
    let same : t ≡ r = cc in
    subst (λ z. IsBuilt uint32_hasher z.1) same
      (elim done.valid [
        | inl e ↦ absurd (
            let gone = ap (λ z. get_node z.values t.0.0) e in
            let here = done.at_index in ground (arith, gone, here))
        | inr b ↦ b
      ])

one_key-IsBuilt : IsBuilt uint32_hasher one_key
one_key-IsBuilt = insert-IsBuilt empty 1 10 _ (inl refl) (omega arith) one_key_lem

-- Keys of one table, with growth, a key that is there, and a removal by another connection.
abbrev some_operations : List Operation
some_operations =
    insert_of 1 10
    ∷ insert_of 4 40
    ∷ insert_of 1 11
    ∷ insert_of 7 70
    ∷ remove_of 4 41
    ∷ remove_of 4 40
    ∷ insert_of 4 42
    ∷ []

answers-some_operations :
    answers (λ q. none) some_operations ≡ true ∷ true ∷ false ∷ true ∷ false ∷ true ∷ true ∷ []
unfolding answers answer update
answers-some_operations = refl

apply_all-answers_example :
    (m : LightHashMap ℕ) × (apply_all uint32_hasher empty some_operations
      ≡ some (answers (λ q. none) some_operations, m))
    × ((q : ℕ) → find uint32_hasher m q ≡ view (λ q. none) some_operations q)
apply_all-answers_example = apply_all-answers uint32_hasher some_operations (omega arith)

-- The address 0 is the unspecified one.
abbrev is_zero : ℕ → Bool
is_zero a = a == 0

abbrev some_requests : List Request
some_requests =
    insert_at 5 50
    ∷ find_at 5
    ∷ find_at 5
    ∷ change_at 5 6 50
    ∷ find_at 5
    ∷ find_at 6
    ∷ remove_at 6 51
    ∷ remove_at 6 50
    ∷ find_at 6
    ∷ []

replies-some_requests :
    replies is_zero (λ q. none) some_requests
    ≡ success true
      ∷ connection (some 50)
      ∷ connection (some 50)
      ∷ success true
      ∷ connection none
      ∷ connection (some 50)
      ∷ success false
      ∷ success true
      ∷ connection none
      ∷ []
unfolding replies reply after without answer update
replies-some_requests = refl

some_requests_proper : are_proper is_zero some_requests ≡ true
unfolding are_proper is_proper
some_requests_proper = refl

handle_all-replies_example :
    (r : ConnectionAddrMap) × (handle_all uint32_hasher is_zero 0
        (initial 0 (some 99))
        some_requests
      ≡ some (replies is_zero (λ q. none) some_requests, r))
handle_all-replies_example =
    handle_all-replies uint32_hasher is_zero 0 refl (some 99) some_requests (omega arith)
      some_requests_proper

-- Two keys with one home, the second at the node below.
abbrev two_keys : LightHashMap ℕ
two_keys = record {
  values = none ∷ some (6, 60) ∷ some (1, 10) ∷ none ∷ [];
  hash_shift = 30;
  num_valid = 2;
  grow_threshold = 2;
}

two_keys_lem : insert uint32_hasher one_key 6 60 ≡ some ((1, true), two_keys)
unfolding insert
two_keys_lem = refl

two_keys-IsBuilt : IsBuilt uint32_hasher two_keys
two_keys-IsBuilt = insert-IsBuilt one_key 6 60 _ (inr one_key-IsBuilt) (omega arith) two_keys_lem

-- Without its first key the second has moved up.
erased_values :
    (erase_index uint32_hasher two_keys 2).values ≡ none ∷ none ∷ some (6, 60) ∷ none ∷ []
unfolding erase_index
erased_values = refl

erase_index-Erased_example : Erased uint32_hasher two_keys 1 (erase_index uint32_hasher two_keys 2)
erase_index-Erased_example = erase_index-Erased uint32_hasher two_keys 2 1 10 two_keys-IsBuilt refl

erase_index-terminates_example :
    close_hole uint32_hasher 9 30 (set two_keys.values 2 none) 2 2
    ≡ (true, (erase_index uint32_hasher two_keys 2).values)
erase_index-terminates_example =
    erase_index-terminates uint32_hasher two_keys 2 1 10 9 two_keys-IsBuilt refl (omega arith)

-- A third key doubles the table.
insert-Inserted_example :
    (r : (ℕ × Bool) × LightHashMap ℕ) × (insert uint32_hasher two_keys 9 90 ≡ some r)
    × Inserted uint32_hasher two_keys 9 90 r
insert-Inserted_example =
    insert-Inserted uint32_hasher two_keys 9 90 (inr two_keys-IsBuilt) (omega arith)

-- The map of ids after one connection took one.
abbrev one_id : ConnectionIdMap
one_id = record {
  id_map = record {
    values = none ∷ some (7, 10) ∷ none ∷ none ∷ [];
    hash_shift = 30;
    num_valid = 1;
    grow_threshold = 2;
  };
  best_unused_ids = unused_ids 7 255;
  next_id = 0;
}

one_id_lem : insert_and_assign_id uint32_hasher (new_id_map 7) 0 10 ≡ some ((true, 7), one_id)
unfolding insert_and_assign_id unused_ids
one_id_lem = refl

one_id-Reachable : Reachable uint32_hasher 7 1 one_id
one_id-Reachable =
    then_step 0 (new_id_map 7) one_id starts
      (assigns 0 10 ((true, 7), one_id) (omega arith) one_id_lem)

Reachable-assigns_example :
    (id : ℕ) × (s' : ConnectionIdMap) × (insert_and_assign_id uint32_hasher one_id 0 20
      ≡ some ((true, id), s'))
    × (id < connection_id_count)
    × (find uint32_hasher one_id.id_map id ≡ none)
    × ((q : ℕ)
        → find uint32_hasher s'.id_map q
          ≡ (if q == id then some 20 else find uint32_hasher one_id.id_map q))
Reachable-assigns_example =
    Reachable-assigns uint32_hasher 7 1 one_id 0 20 one_id-Reachable (omega arith) (omega arith)
