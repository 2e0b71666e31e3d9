-- ===== src/Maps/Erase.antt =====
-- TonkineseMaps.h: `erase_index` ends, and leaves a searchable table without one key.
use tonk.Common.{
  ℕ, zero, suc, ◌+◌, ◌≤◌, ◌<◌, ◌≡◌, ◌≢◌, refl, ◌∙◌, true, not, if◌then◌else◌, ◌==◌, Option, none,
  some, length, set, arith, inl, inr, length-set, Bool-cases, ap, sym, ==→eq, not-==→ne,
}
use tonk.Maps.{LightHashMap, Table, get_node, previous, hash_key, close_hole, erase_index, find}
use tonk.Maps.Walk.{between, get_node-set, some-lt, Option-cases, steps_left}
use tonk.Maps.Place.{IsSearchable}
use tonk.Maps.Count.{count, count-set-none, free_node}
use tonk.Maps.Take.{IsTable, Holds}
use tonk.Maps.Grow.{IsBuilt, room}
use tonk.Maps.View.{Lacks, find-Lacks, find-agrees}
use tonk.Maps.Hole.{
  IsOpen, stays-between, closed-IsSearchable, skip-IsOpen, moved, apart, length-moved,
  get_node-moved, count-moved, shifted-kept, shifted-only, shifted-IsOpen,
}

module _ {ℓ} {V : Type ℓ} (home : ℕ → ℕ) where
  -- A searchable table with the same nodes.
  pub record Closes (t r : Table V) : Type ℓ where
    pub searchable : IsSearchable home r
    pub table_size : length r ≡ length t
    pub same_count : count r ≡ count t
    pub kept : (q : ℕ) (y : V) → Holds t q y → Holds r q y
    pub only : (q : ℕ) (y : V) → Holds r q y → Holds t q y

module _ {ℓ} {V : Type ℓ} (hasher : ℕ → ℕ) (shift : ℕ) where
  module _ (t : Table V) (hole i e : ℕ) (o : IsOpen (hash_key hasher shift) t hole i e) where
    move-Closes :
        (d : ℕ × V) (r : Table V)
        → get_node t (previous (length t) i) ≡ some d
        → Closes (hash_key hasher shift) (moved (hash_key hasher shift) t hole i e o d) r
        → Closes (hash_key hasher shift) t r
    move-Closes d r node c =
        let j = previous (length t) i in
        let t' = moved (hash_key hasher shift) t hole i e o d in
        let far = apart (hash_key hasher shift) t hole i e o d node in
        let at = get_node-moved (hash_key hasher shift) t hole i e o d node in
        let size = length-moved (hash_key hasher shift) t hole i e o d node in
        record {
          searchable = c.searchable;
          table_size = c.table_size ∙ size;
          same_count = c.same_count ∙ count-moved (hash_key hasher shift) t hole i e o d node;
          kept = λ q y h. c.kept q y (
              shifted-kept (hash_key hasher shift) t t' hole j d node far size at o.hole_free q y
                h);
          only = λ q y h.
              shifted-only (hash_key hasher shift) t t' hole j d node far size at q y
                (c.only q y h);
        }

    pub move-IsOpen :
        (d : ℕ × V)
        → get_node t (previous (length t) i) ≡ some d
        → between (previous (length t) i) hole ((hash_key hasher shift) d.0) ≡ true
        → IsOpen
            (hash_key hasher shift)
            (moved (hash_key hasher shift) t hole i e o d)
            (previous (length t) i)
            (previous (length t) i)
            e
    move-IsOpen d node far =
        shifted-IsOpen (hash_key hasher shift) t (moved (hash_key hasher shift) t hole i e o d) hole
          (previous (length t) i) d node (apart (hash_key hasher shift) t hole i e o d node)
          (length-moved (hash_key hasher shift) t hole i e o d node)
          (get_node-moved (hash_key hasher shift) t hole i e o d node) i e o far

    pub step_less :
        (d : ℕ × V)
        → get_node t (previous (length t) i) ≡ some d
        → steps_left (length t) e (previous (length t) i) + 1 ≡ steps_left (length t) e i
    step_less d node =
        let below = o.i_below in
        let at_e = o.e_free in
        let e_below = o.e_below in ground (arith, below, e_below, at_e, node, o.e_ahead)

  pub close_hole-Closes :
      (fuel : ℕ) (t : Table V) (hole i e : ℕ)
      → IsOpen (hash_key hasher shift) t hole i e
      → steps_left (length t) e i ≤ fuel
      → Closes (hash_key hasher shift) t (close_hole hasher fuel shift t hole i).1
  unfolding close_hole
  close_hole-Closes zero t hole i e o room = absurd (
      let below = o.i_below in
      let e_below = o.e_below in ground (arith, room, below, e_below, o.e_ahead))
  close_hole-Closes (suc fuel) t hole i e o room =
      let j = previous (length t) i in
      elim (Option-cases (get_node t j)) [
        | inl free ↦
            rw (close_hole, free)
              (record {
                searchable = closed-IsSearchable (hash_key hasher shift) t hole i e o free;
                table_size = refl;
                same_count = refl;
                kept = λ q y h. h;
                only = λ q y h. h;
              })
        | inr (d, node) ↦
            let condition =
              stays-between j ((hash_key hasher shift) d.0) hole
                (λ same. apart (hash_key hasher shift) t hole i e o d node (sym same)) in
            elim (Bool-cases (between j hole ((hash_key hasher shift) d.0))) [
              | inr short ↦
                  rw (close_hole, node, condition ∙ ap not short)
                    (close_hole-Closes fuel t hole j e
                      (skip-IsOpen (hash_key hasher shift) t hole i e o d node short)
                      (omega (arith, step_less t hole i e o d node, room)))
              | inl far ↦
                  rw (close_hole, node, condition ∙ ap not far)
                    (move-Closes t hole i e o d _ node (
                      close_hole-Closes fuel (moved (hash_key hasher shift) t hole i e o d) j j e
                        (move-IsOpen t hole i e o d node far)
                        (rw (length-moved (hash_key hasher shift) t hole i e o d node)
                          (omega (arith, step_less t hole i e o d node, room)))))
            ]
      ]

module _ {ℓ} {V : Type ℓ} (hasher : ℕ → ℕ) where
  -- What `erase_index` gives, seen as a map of keys to values.
  pub record Erased (m : LightHashMap V) (k : ℕ) (r : LightHashMap V) : Type ℓ where
    pub built : IsBuilt hasher r
    pub lookup : (q : ℕ) → find hasher r q ≡ (if q == k then none else find hasher m q)
    pub key_count : r.num_valid + 1 ≡ m.num_valid
    pub same_size : length r.values ≡ length m.values

  module _ (m : LightHashMap V) (i k : ℕ) (x : V) (b : IsBuilt hasher m)
      (node : get_node m.values i ≡ some (k, x)) where
    -- The table with the node only made invalid.
    abbrev opened : Table V
    opened = set m.values i none

    at_opened : (s : ℕ) → get_node opened s ≡ (if s == i then none else get_node m.values s)
    at_opened s = get_node-set m.values i s none (some-lt m.values i (k, x) node)

    pub opened-IsOpen :
        (e : ℕ)
        → e < length m.values
        → get_node m.values e ≡ none
        → IsOpen (hash_key hasher m.hash_shift) opened i i e
    opened-IsOpen e below free =
        let nothing : Option (ℕ × V) = none in
        let size = length-set m.values i nothing in
        let searchable = b.table.searchable in
        record {
          hole_below = rw size (some-lt m.values i (k, x) node);
          i_below = rw size (some-lt m.values i (k, x) node);
          e_below = rw size below;
          hole_free = ground (arith, at_opened i);
          e_free = ground (arith, at_opened e, free);
          e_other = λ same. absurd (ground (arith, same, node, free));
          e_ahead = λ same. absurd (ground (arith, same, node, free));
          placed = λ p s d at_p s_below path other. ground (
            arith,
            at_opened p,
            at_opened s,
            at_p,
            searchable.placed p s d,
            path,
            other,
            size,
            s_below,
          );
          passed = λ s d within at_s. absurd (ground (arith, at_opened s, at_s, within));
          unique = λ p q c d at_p at_q same.
              ground (arith, at_opened p, at_opened q, at_p, at_q, searchable.unique p q c d, same);
          homes = λ q. rw size (searchable.homes q);
        }

    opened-kept : (q : ℕ) (y : V) → q ≢ k → Holds m.values q y → Holds opened q y
    opened-kept q y other h = record {
      index = h.index;
      node = let g = h.node in ground (arith, at_opened h.index, g, node, other);
    }

    opened-only : (q : ℕ) (y : V) → Holds opened q y → Holds m.values q y
    opened-only q y h = record {
      index = h.index;
      node = let g = h.node in ground (arith, at_opened h.index, g);
    }

    opened-Lacks : Lacks opened k
    opened-Lacks j d at_j same =
        ground (arith, at_opened j, at_j, b.table.searchable.unique j i d (k, x), same, node)

    -- `erase_index` at a valid node of a built map leaves a built map of the same size, in which the key of
    -- that node is not found, every other key finds what it found before, and the count is one lower.
    pub erase_index-Erased : Erased m k (erase_index hasher m i)
    unfolding erase_index
    erase_index-Erased =
        let (e, below, free) = free_node m.values (room hasher m b) in
        let nothing : Option (ℕ × V) = none in
        let size = length-set m.values i nothing in
        let c =
          close_hole-Closes hasher m.hash_shift (length m.values) opened i i e
            (opened-IsOpen e below free)
            (ground (arith, size, some-lt m.values i (k, x) node, below)) in
        let fewer = count-set-none m.values i (k, x) node in
        let table : IsTable hasher (erase_index hasher m i) = record {
          searchable = c.searchable;
          counted = omega (arith, c.same_count, fewer, b.table.counted);
        } in
        record {
          built = record {
            table = table;
            bits = b.bits;
            table_size = c.table_size ∙ size ∙ b.table_size;
            some_bits = b.some_bits;
            few_bits = b.few_bits;
            shift = b.shift;
            threshold = omega (arith, c.table_size, size, b.threshold);
            load = omega (arith, b.load);
          };
          lookup = λ q. elim (Bool-cases (q == k)) [
            | inl same ↦
                rw (same, ==→eq q k same)
                  (find-Lacks hasher (erase_index hasher m i) table k (λ j d at_j is_k.
                    let h =
                      c.only k d.1
                        (record { index = j; node = at_j ∙ ap (λ key. some (key, d.1)) is_k }) in
                    opened-Lacks h.index (k, d.1) h.node refl))
            | inr other ↦ rw other (
                find-agrees hasher m (erase_index hasher m i) q q b.table table
                  (λ y h. c.kept q y (opened-kept q y (not-==→ne q k other) h))
                  (λ y h. opened-only q y (c.only q y h)))
          ];
          key_count = omega (arith, fewer, b.table.counted);
          same_size = c.table_size ∙ size;
        }
