-- ===== src/Maps/Assign.antt =====
-- TonkineseMaps.cpp: `InsertAndAssignId` finds an id that no connection has, while there is one.
use tonk.Common.{
  ℕ, zero, suc, ◌+◌, ◌-◌, ◌*◌, ◌^◌, ◌≤◌, ◌<◌, ◌≡◌, ◌≢◌, refl, ◌∙◌, true, false, if◌then◌else◌, ltb,
  leb, ◌==◌, Option, none, some, List, [], length, arith, ◌⊎◌, inl, inr, ap, sym, Bool-cases,
}
use tonk.Common.Bits.{u8}
use tonk.Maps.{LightHashMap}
use tonk.Maps.Insert.{is_none}
use tonk.Maps.History.{insert_of, answer, update, Shows, insert-Shows, insert-keeps}
use tonk.Maps.Ids.{connection_id_count, ConnectionIdMap, advance, assign_next, insert_and_assign_id}
use tonk.Maps.Vacancies.{
  vacancies, fill, vacancies-agree, vacancies-fill, vacancies-none, vacancies-above, IsUnused,
  unused_none, unused_more, IsUnused-agree, fewer-vacant,
}

-- The steps of `NextId` until it comes to an id.
abbrev steps_to : ℕ → ℕ → ℕ
steps_to id next =
    if ltb next 256
    then id - 255
    else if ltb next id
    then id - next
    else connection_id_count - next + (id - 255)

advance-lt : (next : ℕ) → (256 ≤ advance next) × (advance next < connection_id_count)
unfolding advance
advance-lt next = (ground arith, ground arith)

advance-steps :
    (id next : ℕ)
    → 256 ≤ id
    → id < connection_id_count
    → next < connection_id_count
    → advance next ≢ id
    → steps_to id (advance next) + 1 ≤ steps_to id next
unfolding advance
advance-steps id next low high below other = ground arith

steps_to-le :
    (id next : ℕ)
    → 256 ≤ id
    → id < connection_id_count
    → next < connection_id_count
    → steps_to id next ≤ connection_id_count
steps_to-le id next low high below = ground arith

not_reached : (a b : ℕ) → b < a → leb a b ≡ false
not_reached a b h = ground arith

pub byte : (id : ℕ) → id < 256 → u8 id ≡ id
byte id h = ground arith

connection-cases : (o : Option ℕ) → (o ≡ none) ⊎ ((d : ℕ) × (o ≡ some d))
connection-cases none = inl refl
connection-cases (some d) = inr (d, refl)

module _ (hasher : ℕ → ℕ) where
  -- The loop comes to a vacant id.
  assign_next-fresh :
      (fuel : ℕ) (m : LightHashMap ℕ) (f : ℕ → Option ℕ) (n next c goal : ℕ)
      → Shows hasher m f n
      → 4 * n + 4 < 2 ^ 31
      → 256 ≤ goal
      → goal < connection_id_count
      → f goal ≡ none
      → next < connection_id_count
      → steps_to goal next ≤ fuel
      → (id : ℕ) × (r : LightHashMap ℕ) × (assign_next hasher fuel m next c ≡ some (id, r))
        × (f id ≡ none)
        × (256 ≤ id)
        × (id < connection_id_count)
        × Shows hasher r (update f (insert_of id c)) (n + 1)
  unfolding assign_next answer
  assign_next-fresh zero m f n next c goal s small low high free below room =
      absurd (ground (arith, room))
  assign_next-fresh (suc fuel) m f n next c goal s small low high free below room =
      elim (connection-cases (f (advance next))) [
        | inl vacant ↦
            let (r, at_r, shows) = insert-Shows hasher m f n (advance next) c s small in
            let fresh = at_r ∙ ap (λ o. some (is_none o, r)) vacant in
            (
              advance next,
              r,
              rw (assign_next, fresh) refl,
              vacant,
              (advance-lt next).0,
              (advance-lt next).1,
              shows,
            )
        | inr (d, taken) ↦
            let (r, at_r, shows) = insert-keeps hasher m f n (advance next) c d s small taken in
            let (id, r', at_id, free', low', high', shows') =
              assign_next-fresh fuel r f n (advance next) c goal shows small low high free
                (advance-lt next).1
                (omega (
                  arith,
                  room,
                  advance-steps goal next low high below
                      (λ same. absurd (ground (arith, same, taken, free))),
                )) in
            (id, r', rw (assign_next, at_r) at_id, free', low', high', shows')
      ]

  -- The invariant: the one-byte ids that are kept are the vacant ones.
  pub record IsIdMap (s : ConnectionIdMap) (f : ℕ → Option ℕ) (n : ℕ) : Type 0 where
    pub shows : Shows hasher s.id_map f n
    pub unused : IsUnused f s.best_unused_ids
    pub all_unused : length s.best_unused_ids ≡ vacancies f 256
    pub next_below : s.next_id < connection_id_count

  -- Seen by `is_none`, an insertion fills its id.
  insert-fills :
      (f : ℕ → Option ℕ) (id c q : ℕ)
      → is_none (fill f id q) ≡ is_none (update f (insert_of id c) q)
  unfolding update
  insert-fills f id c q = elim (Bool-cases (q == id)) [
    | inl same ↦ rw same refl
    | inr other ↦ rw other refl
  ]

  abbrev pub Assigned : ConnectionIdMap → (ℕ → Option ℕ) → ℕ → ℕ → ℕ → Type 0
  Assigned s f n id_out c =
      (id : ℕ) × (s' : ConnectionIdMap) × (insert_and_assign_id hasher s id_out c
        ≡ some ((true, id), s'))
      × (f id ≡ none)
      × (id < connection_id_count)
      × IsIdMap s' (update f (insert_of id c)) (n + 1)

  popped-Assigned :
      (m : LightHashMap ℕ) (next : ℕ) (ids : List ℕ) (f : ℕ → Option ℕ) (n id_out c : ℕ)
      → IsUnused f ids
      → IsIdMap (record { id_map = m; best_unused_ids = ids; next_id = next }) f n
      → 4 * n + 4 < 2 ^ 31
      → m.num_valid < connection_id_count
      → Assigned (record { id_map = m; best_unused_ids = ids; next_id = next }) f n id_out c
  unfolding insert_and_assign_id answer
  popped-Assigned m next _ f n id_out c (unused_none _) v small room =
      let taken = vacancies-none f 256 in
      let (goal, low, high, free) =
        fewer-vacant hasher m f 256 connection_id_count v.shows.valid v.shows.shown room
          (λ id below. taken id (sym v.all_unused) below) in
      let (id, r, at_id, vacant, above, below, shows) =
        assign_next-fresh connection_id_count m f n next c goal v.shows small low high free
          v.next_below (steps_to-le goal next low high v.next_below) in
      let open_ids : leb connection_id_count m.num_valid ≡ false = not_reached _ _ room in
      (
        id,
        record { id_map = r; best_unused_ids = []; next_id = id },
        rw (insert_and_assign_id, open_ids, at_id) refl,
        vacant,
        below,
        record {
          shows = shows;
          unused = unused_none _;
          all_unused = omega (
            arith,
            v.all_unused,
            vacancies-above f id 256 above,
            vacancies-agree _ _ 256 (λ q _. insert-fills f id c q),
          );
          next_below = below;
        },
      )
  popped-Assigned m next _ f n id_out c (unused_more _ id ids low free rest) v small room =
      let (r, at_r, shows) = insert-Shows hasher m f n id c v.shows small in
      let fresh = at_r ∙ ap (λ o. some (is_none o, r)) free in
      (
        id,
        record { id_map = r; best_unused_ids = ids; next_id = next },
        rw (insert_and_assign_id, fresh) refl,
        free,
        omega arith,
        record {
          shows = shows;
          unused = IsUnused-agree ids _ _ (λ q _. insert-fills f id c q) rest;
          all_unused = omega (
            arith,
            v.all_unused,
            vacancies-fill f id 256 low free,
            vacancies-agree _ _ 256 (λ q _. insert-fills f id c q),
          );
          next_below = v.next_below;
        },
      )

  pub insert_and_assign_id-Assigned :
      (s : ConnectionIdMap) (f : ℕ → Option ℕ) (n id_out c : ℕ)
      → IsIdMap s f n
      → 4 * n + 4 < 2 ^ 31
      → s.id_map.num_valid < connection_id_count
      → Assigned s f n id_out c
  insert_and_assign_id-Assigned s f n id_out c v small room =
      popped-Assigned s.id_map s.next_id s.best_unused_ids f n id_out c v.unused v small room
