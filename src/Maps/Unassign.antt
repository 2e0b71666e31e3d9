-- ===== src/Maps/Unassign.antt =====
-- TonkineseMaps.cpp: `RemoveAndUnassignId` gives back the id of a connection.
use tonk.Common.{
  ℕ, ◌≤◌, ◌<◌, ◌≡◌, ◌≢◌, refl, ◌∙◌, true, false, ◌&&◌, ltb, ◌==◌, Option, none, some, length, arith,
  inl, inr, Bool-cases, ==→eq,
}
use tonk.Maps.Insert.{is_none}
use tonk.Maps.Connections.{remove_connection}
use tonk.Maps.History.{remove_of, answer, update, remove-Shows}
use tonk.Maps.Ids.{invalid_id, ConnectionIdMap, remove_and_unassign_id}
use tonk.Maps.Vacancies.{
  fill, vacancies-agree, vacancies-fill, vacancies-lt, unused_more, IsUnused-agree,
}
use tonk.Maps.Assign.{IsIdMap, byte}

module _ (hasher : ℕ → ℕ) where
  -- Removing a connection by its own id makes the id vacant again.
  remove-clears :
      (f : ℕ → Option ℕ) (id c q : ℕ)
      → f id ≡ some c
      → is_none (f q) ≡ is_none (fill (update f (remove_of id c)) id q)
  unfolding update
  remove-clears f id c q there = elim (Bool-cases (q == id)) [
    | inl same ↦ rw (same, ==→eq q id same, there) refl
    | inr other ↦ rw other refl
  ]

  cleared : (f : ℕ → Option ℕ) (id c : ℕ) → f id ≡ some c → update f (remove_of id c) id ≡ none
  unfolding update
  cleared f id c there = ground (arith, there)

  -- An id above a byte leaves the one-byte ids as they are.
  remove-agrees :
      (f : ℕ → Option ℕ) (id c q : ℕ)
      → 256 ≤ id
      → q < 256
      → is_none (f q) ≡ is_none (update f (remove_of id c) q)
  unfolding update
  remove-agrees f id c q high low = ground arith

  pub remove_and_unassign_id-IsIdMap :
      (s : ConnectionIdMap) (f : ℕ → Option ℕ) (n id c : ℕ)
      → IsIdMap hasher s f n
      → f id ≡ some c
      → id ≢ invalid_id
      → ((remove_and_unassign_id hasher s id c).0 ≡ true)
        × IsIdMap hasher (remove_and_unassign_id hasher s id c).1 (update f (remove_of id c)) n
  unfolding remove_and_unassign_id answer
  remove_and_unassign_id-IsIdMap s f n id c v there real =
      let g = update f (remove_of id c) in
      let (at_r, shows) = remove-Shows hasher s.id_map f n id c v.shows in
      let valid_id : (id == invalid_id) ≡ false = ground (arith, real) in
      let removed : (remove_connection hasher s.id_map id c).0 ≡ true =
        at_r ∙ ground (arith, there) in
      let clears = λ (q : ℕ) (below : q < 256). remove-clears f id c q there in
      elim (Bool-cases (ltb id 256)) [
        | inl low ↦
            let small = byte id (ground (arith, low)) in
            let back : (ltb id 256 && ltb (length s.best_unused_ids) 256) ≡ true =
              ground (arith, low, v.all_unused, vacancies-lt f 256 id c, there) in
            (
              rw (remove_and_unassign_id, valid_id) removed,
              rw (remove_and_unassign_id, valid_id, back, small)
                  (record {
                    shows = shows;
                    unused =
                        unused_more g id s.best_unused_ids (ground (arith, low))
                          (cleared f id c there)
                          (IsUnused-agree s.best_unused_ids f (fill g id) clears v.unused);
                    all_unused = omega (
                      arith,
                      v.all_unused,
                      vacancies-fill g id 256 (ground (arith, low)) (cleared f id c there),
                      vacancies-agree f (fill g id) 256 clears,
                    );
                    next_below = v.next_below;
                  }),
            )
        | inr high ↦
            let agrees =
              λ (q : ℕ) (below : q < 256). remove-agrees f id c q (ground (arith, high)) below in
            (
              rw (remove_and_unassign_id, valid_id) removed,
              rw (remove_and_unassign_id, valid_id, high)
                  (record {
                    shows = shows;
                    unused = IsUnused-agree s.best_unused_ids f g agrees v.unused;
                    all_unused = v.all_unused ∙ vacancies-agree f g 256 agrees;
                    next_below = v.next_below;
                  }),
            )
      ]
