-- ===== src/Maps/Insert.antt =====
-- TonkineseMaps.h: `insert` as a map of keys to values, its growth included.
use native.Mathlib.Nat.{pow-suc}
use tonk.Common.{
  ℕ, suc, ◌+◌, ◌*◌, ◌^◌, ◌≤◌, ◌<◌, ◌≡◌, refl, ◌∙◌, Bool, true, false, if◌then◌else◌, ltb, ◌==◌,
  Option, none, some, length, arith, ◌⊎◌, inl, inr, Bool-cases, ap, ap₂, ==→eq, not-==→ne,
}
use tonk.Maps.{
  LightHashMap, empty, get_node, insert_no_grow, rehash, insert, find_index, find, min_hash_size,
}
use tonk.Common.Bits.{u32}
use tonk.Maps.Count.{count}
use tonk.Maps.Take.{Takes}
use tonk.Maps.View.{Lacks, find-Holds, find-Lacks, find-agrees}
use tonk.Maps.Grow.{IsBuilt, rehash-Rehashed, pow-le, room}
use tonk.Maps.NoGrow.{NoGrow, present, refused, added, insert_no_grow-NoGrow}

-- The value that a key has after an insertion: the one it had stays.
abbrev pub first_value {ℓ} : {V : Type ℓ} → Option V → V → V
first_value none v = v
first_value (some old) v = old

abbrev pub is_none {ℓ} : {V : Type ℓ} → Option V → Bool
is_none none = true
is_none (some x) = false

module _ {ℓ} {V : Type ℓ} (hasher : ℕ → ℕ) where
  -- A map is empty, or has a table of a power of two nodes.
  abbrev pub IsValid : LightHashMap V → Type ℓ
  IsValid m = (m ≡ empty) ⊎ IsBuilt hasher m

  -- What `insert` gives, seen as a map of keys to values.
  pub record Inserted (m : LightHashMap V) (k : ℕ) (v : V) (r : (ℕ × Bool) × LightHashMap V)
      : Type ℓ where
    pub valid : IsValid r.1
    pub is_new : r.0.1 ≡ is_none (find hasher m k)
    pub at_index : get_node r.1.values r.0.0 ≡ some (k, first_value (find hasher m k) v)
    pub lookup :
        (q : ℕ)
        → find hasher r.1 q
          ≡ (if q == k then some (first_value (find hasher m k) v) else find hasher m q)
    pub key_count :
        r.1.num_valid ≡ (if is_none (find hasher m k) then m.num_valid + 1 else m.num_valid)
    pub size_bound : (b : ℕ) → length m.values ≤ b → 4 * m.num_valid + 4 ≤ b → length r.1.values ≤ b

  present-Inserted :
      (m : LightHashMap V) (k : ℕ) (v : V) (i : ℕ) (x : V)
      → IsBuilt hasher m
      → get_node m.values i ≡ some (k, x)
      → Inserted m k v ((i, false), m)
  present-Inserted m k v i x b node =
      let there = find-Holds hasher m b.table k x (record { index = i; node = node }) in
      record {
        valid = inr b;
        is_new = rw there refl;
        at_index = rw there node;
        lookup = λ q. elim (Bool-cases (q == k)) [
          | inl same ↦ rw (same, there) (ap (find hasher m) (==→eq q k same) ∙ there)
          | inr other ↦ rw other refl
        ];
        key_count = rw there refl;
        size_bound = λ b small many. small;
      }

  Takes-IsBuilt :
      (m m' : LightHashMap V) (k : ℕ) (v : V)
      → IsBuilt hasher m
      → m.num_valid < m.grow_threshold
      → Takes hasher m m' k v
      → IsBuilt hasher m'
  Takes-IsBuilt m m' k v b less t = record {
    table = t.table;
    bits = b.bits;
    table_size = t.table_size ∙ b.table_size;
    some_bits = b.some_bits;
    few_bits = b.few_bits;
    shift = t.shift ∙ b.shift;
    threshold = omega (arith, t.threshold, b.threshold, t.table_size);
    load = omega (arith, t.threshold, t.more, less);
  }

  added-Inserted :
      (m m' : LightHashMap V) (k : ℕ) (v : V) (i : ℕ)
      → IsBuilt hasher m
      → Lacks m.values k
      → m.num_valid < m.grow_threshold
      → Takes hasher m m' k v
      → get_node m'.values i ≡ some (k, v)
      → Inserted m k v ((i, true), m')
  added-Inserted m m' k v i b lacks less t node =
      let gone = find-Lacks hasher m b.table k lacks in
      record {
        valid = inr (Takes-IsBuilt m m' k v b less t);
        is_new = rw gone refl;
        at_index = rw gone node;
        lookup = λ q. elim (Bool-cases (q == k)) [
          | inl same ↦
              rw (same, gone)
                (ap (find hasher m') (==→eq q k same) ∙ find-Holds hasher m' t.table k v t.new)
          | inr other ↦ rw other (
              find-agrees hasher m m' q q b.table t.table (λ y. t.kept q y)
                (λ y h. t.only q y h (not-==→ne q k other)))
        ];
        key_count = rw gone t.more;
        size_bound = λ b small many. omega (arith, t.table_size, small);
      }

  NoGrow-Inserted :
      (m : LightHashMap V) (k : ℕ) (v : V) (o : Option ((ℕ × Bool) × LightHashMap V))
      → IsBuilt hasher m
      → m.num_valid < m.grow_threshold
      → NoGrow hasher m k v o
      → (r : (ℕ × Bool) × LightHashMap V) × (o ≡ some r) × Inserted m k v r
  NoGrow-Inserted m k v _ b less (present i x node) = (_, refl, present-Inserted m k v i x b node)
  NoGrow-Inserted m k v _ b less (refused lacks reached) = absurd (omega arith)
  NoGrow-Inserted m k v _ b less (added i m' lacks below t node) =
      (_, refl, added-Inserted m m' k v i b lacks below t node)

  -- The map that `rehash` gives is the same map, with room.
  pub record Grown (m r : LightHashMap V) : Type ℓ where
    pub built : IsBuilt hasher r
    pub has_room : r.num_valid < r.grow_threshold
    pub same_count : r.num_valid ≡ m.num_valid
    pub table_size : length r.values ≤ 4 * m.num_valid + 4
    pub same : (q : ℕ) → find hasher r q ≡ find hasher m q

  after-Grown :
      (m r : LightHashMap V) (k : ℕ) (v : V)
      → Grown m r
      → (res : (ℕ × Bool) × LightHashMap V) × (insert_no_grow hasher r k v ≡ some res)
        × Inserted m k v res
  after-Grown m r k v g =
      let (res, at_res, done) =
        NoGrow-Inserted r k v _ g.built g.has_room
          (insert_no_grow-NoGrow hasher r k v g.built.table (room hasher r g.built)) in
      (
        res,
        at_res,
        record {
          valid = done.valid;
          is_new = done.is_new ∙ ap is_none (g.same k);
          at_index = done.at_index ∙ ap (λ o. some (k, first_value o v)) (g.same k);
          lookup = λ q.
              done.lookup q
              ∙ ap₂ (λ o p. if q == k then some (first_value o v) else p) (g.same k) (g.same q);
          key_count =
              done.key_count ∙ ap₂ (λ o n. if is_none o then n + 1 else n) (g.same k) g.same_count;
          size_bound = λ b small many.
              done.size_bound b (omega (arith, g.table_size, many))
                (omega (arith, g.same_count, many));
        },
      )

  built-Grown :
      (m : LightHashMap V)
      → (b : IsBuilt hasher m) → b.bits ≤ 30
      → m.grow_threshold ≤ m.num_valid
      → Grown m (rehash hasher m (2 ^ suc b.bits))
  built-Grown m b few reached =
      let next = pow-suc 2 b.bits in
      let low = pow-le 2 b.bits b.some_bits in
      let r =
        rehash-Rehashed hasher m (suc b.bits) b.table.searchable.unique b.table.counted
          (omega (arith, b.some_bits)) (omega arith) (omega (arith, b.table_size))
          (omega (arith, b.load, b.threshold, b.table_size)) in
      record {
        built = r.built;
        has_room = omega (
          arith, r.same_count, r.table_size, r.built.threshold, b.load, b.threshold, b.table_size,
        );
        same_count = r.same_count;
        table_size = omega (arith, r.table_size, next, b.table_size, b.threshold, reached);
        same = λ q. find-agrees hasher m _ q q b.table r.built.table (r.kept q) (r.only q);
      }

  pub find-empty : (q : ℕ) → find hasher (empty {V = V}) q ≡ none
  unfolding find find_index
  find-empty q = refl

  empty-Grown : Grown empty (rehash hasher empty 4)
  unfolding count
  empty-Grown =
      let nothing : LightHashMap V = empty in
      let r =
        rehash-Rehashed hasher nothing 2 (λ i j e d f g. absurd (ground (arith, f))) refl
          (omega arith) (omega arith) (ground arith) (omega arith) in
      record {
        built = r.built;
        has_room = omega (arith, r.same_count, r.table_size, r.built.threshold);
        same_count = r.same_count;
        table_size = omega (arith, r.table_size);
        same = λ q.
            find-Lacks hasher _ r.built.table q (λ j e node same.
              let old = r.only e.0 e.1 (record { index = j; node = node }) in
              absurd (let f = old.node in ground (arith, f)))
            ∙ ground (arith, find-empty q);
      }

  no_growth :
      (m : LightHashMap V) (k : ℕ) (v : V) (r : (ℕ × Bool) × LightHashMap V)
      → insert_no_grow hasher m k v ≡ some r
      → insert hasher m k v ≡ some r
  unfolding insert
  no_growth m k v r e = rw (insert, e) refl

  growth :
      (m : LightHashMap V) (k : ℕ) (v : V) (size : ℕ)
      → insert_no_grow hasher m k v ≡ none
      → (if ltb (u32 (length m.values * 2)) min_hash_size
          then min_hash_size
          else u32 (length m.values * 2))
        ≡ size
      → insert hasher m k v ≡ insert_no_grow hasher (rehash hasher m size) k v
  unfolding insert
  growth m k v size e same =
      rw (insert, e) (ap (λ s. insert_no_grow hasher (rehash hasher m s) k v) same)

  insert_no_grow-empty : (k : ℕ) (v : V) → insert_no_grow hasher (empty {V = V}) k v ≡ none
  unfolding insert_no_grow
  insert_no_grow-empty k v = refl

  module _ (m : LightHashMap V) (b : IsBuilt hasher m) (few : length m.values < 2 ^ 31) where
    few_bits : b.bits ≤ 30
    few_bits = ground (arith, pow-le 31 b.bits, b.table_size, few)

    doubled :
        (if ltb (u32 (length m.values * 2)) min_hash_size
          then min_hash_size
          else u32 (length m.values * 2))
        ≡ 2 ^ suc b.bits
    doubled = ground (arith, b.table_size, few, pow-suc 2 b.bits, pow-le 2 b.bits b.some_bits)

  -- `insert` on a map that is empty or built, of fewer than 2 ^ 31 nodes, always sets its result. The map
  -- stays valid; the flag says whether the key had no value; the index is that of the key, with the value
  -- it had, or else the new one; every other key finds what it found before; the count goes up by one
  -- for a new key only; and the table grows to no more than four times its keys, and four.
  pub insert-Inserted :
      (m : LightHashMap V) (k : ℕ) (v : V)
      → IsValid m
      → length m.values < 2 ^ 31
      → (r : (ℕ × Bool) × LightHashMap V) × (insert hasher m k v ≡ some r) × Inserted m k v r
  insert-Inserted m k v (inl e) few = rw e (
      let (r, at_r, done) = after-Grown empty (rehash hasher empty 4) k v empty-Grown in
      (r, growth empty k v 4 (insert_no_grow-empty k v) refl ∙ at_r, done))
  insert-Inserted m k v (inr b) few =
      go _ refl (insert_no_grow-NoGrow hasher m k v b.table (room hasher m b))
    where
      go :
          (o : Option ((ℕ × Bool) × LightHashMap V))
          → insert_no_grow hasher m k v ≡ o
          → NoGrow hasher m k v o
          → (r : (ℕ × Bool) × LightHashMap V) × (insert hasher m k v ≡ some r) × Inserted m k v r
      go _ at_o (present i x node) = (_, no_growth m k v _ at_o, present-Inserted m k v i x b node)
      go _ at_o (added i m' lacks below t node) =
          (_, no_growth m k v _ at_o, added-Inserted m m' k v i b lacks below t node)
      go _ at_o (refused lacks reached) =
          let (r, at_r, done) =
            after-Grown m (rehash hasher m (2 ^ suc b.bits)) k v
              (built-Grown m b (few_bits m b few) reached) in
          (r, growth m k v (2 ^ suc b.bits) at_o (doubled m b few) ∙ at_r, done)
