-- ===== src/Maps/IdReachable.antt =====
-- TonkineseMaps.cpp: the states of a `ConnectionIdMap` that assignments and removals come to.
use tonk.Common.{
  ℕ, zero, suc, ◌+◌, ◌*◌, ◌^◌, ◌<◌, ◌≡◌, ◌≢◌, refl, ◌∙◌, Bool, true, if◌then◌else◌, ◌==◌, Option,
  none, some, length, arith, inl, ap, ap₂, sym, subst,
}
use tonk.Maps.{find}
use tonk.Maps.Insert.{find-empty, first_value}
use tonk.Maps.History.{insert_of, remove_of, update, Shows-le}
use tonk.Maps.Ids.{
  connection_id_count, invalid_id, ConnectionIdMap, new_id_map, insert_and_assign_id,
  remove_and_unassign_id, unused_ids,
}
use tonk.Maps.Vacancies.{vacancies, unused_ids-IsUnused}
use tonk.Maps.Assign.{IsIdMap, insert_and_assign_id-Assigned}
use tonk.Maps.Unassign.{remove_and_unassign_id-IsIdMap}

module _ (hasher : ℕ → ℕ) where
  -- A connection takes an id, or one that has an id gives it back.
  pub data Step (s : ConnectionIdMap) : ConnectionIdMap → Type 0 where
    assigns :
        (id_out c : ℕ) (r : (Bool × ℕ) × ConnectionIdMap)
        → s.id_map.num_valid < connection_id_count
        → insert_and_assign_id hasher s id_out c ≡ some r
        → Step s r.1
    gives_back :
        (id c : ℕ)
        → find hasher s.id_map id ≡ some c
        → id ≢ invalid_id
        → Step s (remove_and_unassign_id hasher s id c).1

  -- The states after a number of steps.
  pub data Reachable (offset : ℕ) : ℕ → ConnectionIdMap → Type 0 where
    starts : Reachable offset 0 (new_id_map offset)
    then_step :
        (n : ℕ) (s s' : ConnectionIdMap)
        → Reachable offset n s
        → Step s s'
        → Reachable offset (n + 1) s'

  none-vacancies : (n : ℕ) → vacancies (λ q. none) n ≡ n
  unfolding vacancies
  none-vacancies zero = refl
  none-vacancies (suc n) = ap suc (none-vacancies n)

  length-unused_ids : (offset n : ℕ) → length (unused_ids offset n) ≡ n
  unfolding unused_ids
  length-unused_ids offset zero = refl
  length-unused_ids offset (suc n) = omega (arith, length-unused_ids offset n)

  new-IsIdMap : (offset : ℕ) → IsIdMap hasher (new_id_map offset) (λ q. none) 0
  new-IsIdMap offset = record {
    shows = record {
      valid = inl refl;
      shown = find-empty hasher;
      few = omega arith;
      table_size = omega arith;
    };
    unused = unused_ids-IsUnused offset 256 (λ q. none) (omega arith) (λ i below. refl);
    all_unused = length-unused_ids offset 256 ∙ sym (none-vacancies 256);
    next_below = omega arith;
  }

  assigned :
      (s : ConnectionIdMap) (id_out c : ℕ) (r t : (Bool × ℕ) × ConnectionIdMap)
      → insert_and_assign_id hasher s id_out c ≡ some r
      → insert_and_assign_id hasher s id_out c ≡ some t
      → t.1 ≡ r.1
  assigned s id_out c r t at_r at_t = let same : t ≡ r = cc in ap (λ p. p.1) same

  pub step-IsIdMap :
      (s s' : ConnectionIdMap) (f : ℕ → Option ℕ) (n : ℕ)
      → Step s s'
      → IsIdMap hasher s f n
      → 4 * n + 4 < 2 ^ 31
      → (g : ℕ → Option ℕ) × IsIdMap hasher s' g (n + 1)
  step-IsIdMap s _ f n (assigns id_out c r room at_r) v small =
      let (id, s', at_s', free, below, w) =
        insert_and_assign_id-Assigned hasher s f n id_out c v small room in
      (
        update f (insert_of id c),
        subst (λ z. IsIdMap hasher z (update f (insert_of id c)) (n + 1))
            (assigned s id_out c r _ at_r at_s') w,
      )
  step-IsIdMap s _ f n (gives_back id c there real) v small =
      let (done, w) =
        remove_and_unassign_id-IsIdMap hasher s f n id c v ((sym (v.shows.shown id)) ∙ there)
          real in
      (
        update f (remove_of id c),
        record {
          shows = Shows-le hasher _ _ n (n + 1) w.shows (omega arith);
          unused = w.unused;
          all_unused = w.all_unused;
          next_below = w.next_below;
        },
      )

  pub Reachable-IsIdMap :
      (offset n : ℕ) (s : ConnectionIdMap)
      → Reachable offset n s
      → n < 2 ^ 28
      → (f : ℕ → Option ℕ) × IsIdMap hasher s f n
  Reachable-IsIdMap offset _ _ starts small = ((λ q. none), new-IsIdMap offset)
  Reachable-IsIdMap offset _ s' (then_step n s _ before step) small =
      let (f, v) = Reachable-IsIdMap offset n s before (omega arith) in
      let (g, w) = step-IsIdMap s s' f n step v (omega arith) in (g, w)

  -- In every state that fewer than 2 ^ 28 steps come to (a connection takes an id while there are fewer than
  -- 2 ^ 24, or gives back the id it has), with fewer than 2 ^ 24 connections, `InsertAndAssignId` ends and
  -- returns true with an id below 2 ^ 24 that no connection had; after it the id finds the new
  -- connection, and every other id what it found before.
  pub Reachable-assigns :
      (offset n : ℕ) (s : ConnectionIdMap) (id_out c : ℕ)
      → Reachable offset n s
      → n < 2 ^ 28
      → s.id_map.num_valid < connection_id_count
      → (id : ℕ) × (s' : ConnectionIdMap) × (insert_and_assign_id hasher s id_out c
          ≡ some ((true, id), s'))
        × (id < connection_id_count)
        × (find hasher s.id_map id ≡ none)
        × ((q : ℕ) → find hasher s'.id_map q ≡ (if q == id then some c else find hasher s.id_map q))
  unfolding update
  Reachable-assigns offset n s id_out c reach small room =
      let (f, v) = Reachable-IsIdMap offset n s reach small in
      let (id, s', at_s', free, below, w) =
        insert_and_assign_id-Assigned hasher s f n id_out c v (omega arith) room in
      (
        id,
        s',
        at_s',
        below,
        v.shows.shown id ∙ free,
        λ q.
            w.shows.shown q
            ∙ ap₂ (λ o p. if q == id then some (first_value o c) else p) free
                (sym (v.shows.shown q)),
      )
