-- ===== src/Maps/History.antt =====
-- TonkineseMaps.h: any sequence of `Insert` and `Remove` of a `ConnectionMap`, against a finite map.
use tonk.Common.{
  ℕ, suc, ◌+◌, ◌*◌, ◌^◌, ◌≤◌, ◌<◌, ◌≡◌, refl, ◌∙◌, Bool, false, ◌&&◌, if◌then◌else◌, ◌==◌, Option,
  none, some, List, [], ◌∷◌, length, arith, inl, ap, ap₂,
}
use tonk.Maps.{LightHashMap, empty, insert, find}
use tonk.Maps.Insert.{IsValid, insert-Inserted, first_value, is_none, find-empty}
use tonk.Maps.Connections.{insert_connection, remove_connection}
use tonk.Maps.Operations.{remove-Removed, is_connection}

pub data Operation : Type 0 where
  insert_of remove_of : ℕ → ℕ → Operation

-- The finite map: what an operation answers, and the map after it.
unfoldable pub answer : (ℕ → Option ℕ) → Operation → Bool
answer f (insert_of k c) = is_none (f k)
answer f (remove_of k c) = is_connection (f k) c

unfoldable pub update : (ℕ → Option ℕ) → Operation → ℕ → Option ℕ
update f (insert_of k c) q = if q == k then some (first_value (f k) c) else f q
update f (remove_of k c) q = if q == k && is_connection (f k) c then none else f q

unfoldable pub answers : (ℕ → Option ℕ) → List Operation → List Bool
answers f [] = []
answers f (op ∷ ops) = answer f op ∷ answers (update f op) ops

unfoldable pub view : (ℕ → Option ℕ) → List Operation → ℕ → Option ℕ
view f [] q = f q
view f (op ∷ ops) q = view (update f op) ops q

module _ (hasher : ℕ → ℕ) where
  unfoldable pub apply : LightHashMap ℕ → Operation → Option (Bool × LightHashMap ℕ)
  unfolding insert_connection remove_connection
  apply m (insert_of k c) = insert_connection hasher m k c
  apply m (remove_of k c) = some (remove_connection hasher m k c)

  unfoldable pub apply_all : LightHashMap ℕ → List Operation → Option (List Bool × LightHashMap ℕ)
  unfolding apply
  apply_all m [] = some ([], m)
  apply_all m (op ∷ ops) = elim (apply m op) [
    | none ↦ none
    | some r ↦ elim (apply_all r.1 ops) [ none ↦ none | some rest ↦ some (r.0 ∷ rest.0, rest.1) ]
  ]

  -- The map shows `f`, and is as large as `n` insertions can make it.
  pub record Shows (m : LightHashMap ℕ) (f : ℕ → Option ℕ) (n : ℕ) : Type 0 where
    pub valid : IsValid hasher m
    pub shown : (q : ℕ) → find hasher m q ≡ f q
    pub few : m.num_valid ≤ n
    pub table_size : length m.values ≤ 4 * n + 4

  pub Shows-le :
      (m : LightHashMap ℕ) (f : ℕ → Option ℕ) (a b : ℕ) → Shows m f a → a ≤ b → Shows m f b
  Shows-le m f a b s le = record {
    valid = s.valid;
    shown = s.shown;
    few = omega (arith, s.few, le);
    table_size = omega (arith, s.table_size, le);
  }

  inserted :
      (m : LightHashMap ℕ) (k c : ℕ) (r : (ℕ × Bool) × LightHashMap ℕ)
      → insert hasher m k c ≡ some r
      → insert_connection hasher m k c ≡ some (r.0.1, r.1)
  unfolding insert_connection
  inserted m k c r e = rw (insert_connection, e) refl

  pub insert-Shows :
      (m : LightHashMap ℕ) (f : ℕ → Option ℕ) (n k c : ℕ)
      → Shows m f n
      → 4 * n + 4 < 2 ^ 31
      → (r : LightHashMap ℕ) × (insert_connection hasher m k c ≡ some (answer f (insert_of k c), r))
        × Shows r (update f (insert_of k c)) (n + 1)
  unfolding answer update
  insert-Shows m f n k c s small =
      let (r, at_r, done) =
        insert-Inserted hasher m k c s.valid (omega (arith, s.table_size, small)) in
      (
        r.1,
        inserted m k c r at_r ∙ ap (λ b. some (b, r.1)) (done.is_new ∙ ap is_none (s.shown k)),
        record {
          valid = done.valid;
          shown = λ q.
              done.lookup q
              ∙ ap₂ (λ o p. if q == k then some (first_value o c) else p) (s.shown k) (s.shown q);
          few = ground (arith, done.key_count, s.few);
          table_size = done.size_bound _ (omega (arith, s.table_size)) (omega (arith, s.few));
        },
      )

  -- A key that has a connection keeps it.
  pub insert-keeps :
      (m : LightHashMap ℕ) (f : ℕ → Option ℕ) (n k c d : ℕ)
      → Shows m f n
      → 4 * n + 4 < 2 ^ 31
      → f k ≡ some d
      → (r : LightHashMap ℕ) × (insert_connection hasher m k c ≡ some (false, r)) × Shows r f n
  insert-keeps m f n k c d s small there =
      let (r, at_r, done) =
        insert-Inserted hasher m k c s.valid (omega (arith, s.table_size, small)) in
      let held = s.shown k ∙ there in
      (
        r.1,
        inserted m k c r at_r ∙ ap (λ b. some (b, r.1)) (done.is_new ∙ ap is_none held),
        record {
          valid = done.valid;
          shown = λ q. done.lookup q ∙ ground (arith, held, s.shown q, there, ap f {x = q} {y = k});
          few = ground (arith, done.key_count, s.few, held);
          table_size = done.size_bound _ s.table_size (omega (arith, s.few));
        },
      )

  pub remove-Shows :
      (m : LightHashMap ℕ) (f : ℕ → Option ℕ) (n k c : ℕ)
      → Shows m f n
      → ((remove_connection hasher m k c).0 ≡ answer f (remove_of k c))
        × Shows (remove_connection hasher m k c).1 (update f (remove_of k c)) n
  unfolding answer update
  remove-Shows m f n k c s =
      let done = remove-Removed hasher m k c s.valid in
      (
        done.answer ∙ ap (λ o. is_connection o c) (s.shown k),
        record {
          valid = done.valid;
          shown = λ q.
              done.lookup q
              ∙ ap₂ (λ o p. if q == k && is_connection o c then none else p) (s.shown k)
                  (s.shown q);
          few = ground (arith, done.key_count, s.few);
          table_size = omega (arith, done.same_size, s.table_size);
        },
      )

  apply-Shows :
      (m : LightHashMap ℕ) (f : ℕ → Option ℕ) (n : ℕ) (op : Operation)
      → Shows m f n
      → 4 * n + 4 < 2 ^ 31
      → (r : LightHashMap ℕ) × (apply m op ≡ some (answer f op, r)) × Shows r (update f op) (n + 1)
  unfolding apply
  apply-Shows m f n (insert_of k c) s small = insert-Shows m f n k c s small
  apply-Shows m f n (remove_of k c) s small =
      let (at_r, shows) = remove-Shows m f n k c s in
      (
        (remove_connection hasher m k c).1,
        ap (λ b. some (b, (remove_connection hasher m k c).1)) at_r,
        Shows-le _ _ n (n + 1) shows (omega arith),
      )

  apply_all-Shows :
      (ops : List Operation) (m : LightHashMap ℕ) (f : ℕ → Option ℕ) (n : ℕ)
      → Shows m f n
      → 4 * (n + length ops) + 4 < 2 ^ 31
      → (r : LightHashMap ℕ) × (apply_all m ops ≡ some (answers f ops, r))
        × Shows r (view f ops) (n + length ops)
  unfolding apply_all answers view
  apply_all-Shows [] m f n s small = (m, refl, Shows-le m f n (n + 0) s (omega arith))
  apply_all-Shows (op ∷ ops) m f n s small =
      let (m', at_m', s') = apply-Shows m f n op s (omega (arith, small)) in
      let (r, at_r, t) = apply_all-Shows ops m' (update f op) (n + 1) s' (omega (arith, small)) in
      (
        r,
        rw (apply_all, at_m', at_r) refl,
        Shows-le r (view (update f op) ops) (n + 1 + length ops) (n + suc (length ops)) t
            (omega arith),
      )

  -- For any sequence of fewer than 2 ^ 28 calls of `Insert` and `Remove` on an empty map, with any hasher:
  -- every call returns, and answers what a finite map answers, where `Insert` is true for a new key and
  -- keeps the connection of a key that is there, and `Remove` is true for a key with that connection;
  -- `Find` gives the values of the finite map afterwards. The table grows and moves its nodes on the way.
  pub apply_all-answers :
      (ops : List Operation)
      → length ops < 2 ^ 28
      → (m : LightHashMap ℕ) × (apply_all empty ops ≡ some (answers (λ q. none) ops, m))
        × ((q : ℕ) → find hasher m q ≡ view (λ q. none) ops q)
  apply_all-answers ops small =
      let (m, at_m, s) =
        apply_all-Shows ops empty (λ q. none) 0
          (record {
            valid = inl refl;
            shown = find-empty hasher;
            few = omega arith;
            table_size = omega arith;
          })
          (omega (arith, small)) in
      (m, at_m, s.shown)
