-- ===== src/Maps/Grow.antt =====
-- TonkineseMaps.h: the sizes of a table, and `rehash` to another of them.
use native.Mathlib.Nat.{pow-suc, one-le-pow, pow-le-pow_right, div-lt_iff_lt-mul}
use tonk.Common.{
  ℕ, zero, suc, ◌+◌, ◌-◌, ◌*◌, ◌/◌, ◌^◌, ◌≤◌, ◌<◌, ◌≡◌, ◌≢◌, refl, ◌∙◌, false, ◌||◌, ltb, ◌==◌,
  Option, none, length, arith, inl, inr, ap, sym, replicate, length-replicate, get_or-replicate,
}
use tonk.Maps.{LightHashMap, hash_key, highest_bit, nonzero_lowest_bit_index, rehash}
use tonk.Maps.Count.{count, count-replicate}
use tonk.Maps.Take.{IsTable, Holds}
use tonk.Maps.Rehash.{HasDistinctKeys, move_all-Moves}

pub pow-le : (a b : ℕ) → a ≤ b → 2 ^ a ≤ 2 ^ b
pow-le a b h = pow-le-pow_right (omega arith) h

highest_bit-pow : (rounds b : ℕ) → b ≤ rounds → highest_bit rounds (2 ^ b) ≡ b
unfolding highest_bit
highest_bit-pow zero zero h = refl
highest_bit-pow zero (suc b) h = absurd (omega arith)
highest_bit-pow (suc rounds) zero h = ground arith
highest_bit-pow (suc rounds) (suc b) h =
    let half : 2 ^ suc b / 2 ≡ 2 ^ b = omega (arith, pow-suc 2 b) in
    ground
      (arith, one-le-pow b 2, pow-suc 2 b, ap (highest_bit rounds) half, highest_bit-pow rounds b)

pow-times : (a b : ℕ) → 2 ^ a * 2 ^ b ≡ 2 ^ (a + b)
pow-times zero b = omega (arith, ap (λ k. 2 ^ k) {x = 0 + b} {y = b} (omega arith))
pow-times (suc a) b =
    ap (λ k. k * 2 ^ b) (pow-suc 2 a)
    ∙ omega (
      arith,
      pow-times a b,
      pow-suc 2 (a + b),
      ap (λ k. 2 ^ k) {x = suc a + b} {y = suc (a + b)} (omega arith),
    )

split-32 : (b : ℕ) → b ≤ 32 → 2 ^ 32 ≡ 2 ^ b * 2 ^ (32 - b)
split-32 b h =
    ap (λ k. 2 ^ k) {x = 32} {y = b + (32 - b)} (omega arith) ∙ sym (pow-times b (32 - b))

hash_key-lt : (hasher : ℕ → ℕ) (b k : ℕ) → b ≤ 32 → hash_key hasher (32 - b) k < 2 ^ b
unfolding hash_key
hash_key-lt hasher b k h =
    (div-lt_iff_lt-mul (omega (arith, one-le-pow (32 - b) 2))).1 (omega (arith, split-32 b h))

module _ {ℓ} {V : Type ℓ} (hasher : ℕ → ℕ) where
  -- A table of a power of two nodes, half of them valid at most.
  pub record IsBuilt (m : LightHashMap V) : Type ℓ where
    pub table : IsTable hasher m
    pub bits : ℕ
    pub table_size : length m.values ≡ 2 ^ bits
    pub some_bits : 2 ≤ bits
    pub few_bits : bits ≤ 31
    pub shift : m.hash_shift ≡ 32 - bits
    pub threshold : m.grow_threshold ≡ (length m.values + 1) / 2
    pub load : m.num_valid ≤ m.grow_threshold

  -- A table has a free node.
  pub room : (m : LightHashMap V) → IsBuilt m → count m.values < length m.values
  room m b =
      omega (arith, b.table.counted, b.load, b.threshold, b.table_size, pow-le 2 b.bits b.some_bits)

  -- A table after `rehash`.
  pub record Rehashed (m : LightHashMap V) (bits : ℕ) (r : LightHashMap V) : Type ℓ where
    pub built : IsBuilt r
    pub table_size : length r.values ≡ 2 ^ bits
    pub same_count : r.num_valid ≡ m.num_valid
    pub kept : (q : ℕ) (y : V) → Holds m.values q y → Holds r.values q y
    pub only : (q : ℕ) (y : V) → Holds r.values q y → Holds m.values q y

  fresh : ℕ → LightHashMap V
  fresh bits = record {
    values = replicate (2 ^ bits) none;
    hash_shift = 32 - bits;
    num_valid = 0;
    grow_threshold = (2 ^ bits + 1) / 2;
  }

  fresh-IsTable : (bits : ℕ) → bits ≤ 31 → IsTable hasher (fresh bits)
  unfolding fresh
  fresh-IsTable bits h = record {
    searchable = record {
      placed = λ i s e node.
          absurd (ground (arith, get_or-replicate {A = Option (ℕ × V)} (2 ^ bits) i none, node));
      unique = λ i j e d node.
          absurd (ground (arith, get_or-replicate {A = Option (ℕ × V)} (2 ^ bits) i none, node));
      homes = λ k. omega (
        arith,
        length-replicate {A = Option (ℕ × V)} (2 ^ bits) none,
        hash_key-lt hasher bits k (omega arith),
      );
    };
    counted = count-replicate V (2 ^ bits);
  }

  -- `rehash` of any table to a power of two that holds its nodes.
  pub rehash-Rehashed :
      (m : LightHashMap V) (bits : ℕ)
      → HasDistinctKeys m.values
      → count m.values ≡ m.num_valid
      → 2 ≤ bits
      → bits ≤ 31
      → length m.values ≢ 2 ^ bits
      → m.num_valid ≤ (2 ^ bits + 1) / 2
      → Rehashed m bits (rehash hasher m (2 ^ bits))
  unfolding fresh rehash nonzero_lowest_bit_index
  rehash-Rehashed m bits distinct counted lo hi other room =
      let low = pow-le 2 bits lo in
      let few = pow-le bits 31 hi in
      let wide = length-replicate {A = Option (ℕ × V)} (2 ^ bits) none in
      let moves =
        move_all-Moves hasher m.values m.num_valid (fresh bits) (fresh-IsTable bits hi)
          (omega (arith, counted)) (omega (arith, wide, room)) distinct
          (λ j i e d f g.
            absurd (ground (arith, get_or-replicate {A = Option (ℕ × V)} (2 ^ bits) i none, g))) in
      let allowed : (ltb (2 ^ bits) m.num_valid || 2 ^ bits == length m.values) ≡ false =
        ground (arith, room, other) in
      rw (rehash, allowed, nonzero_lowest_bit_index, highest_bit-pow 31 bits hi)
        (record {
          built = record {
            table = moves.table;
            bits = bits;
            table_size = moves.table_size ∙ wide;
            some_bits = lo;
            few_bits = hi;
            shift = moves.shift;
            threshold = omega (arith, moves.threshold, moves.table_size, wide);
            load = omega (arith, moves.threshold, moves.counted, room);
          };
          table_size = moves.table_size ∙ wide;
          same_count = moves.counted;
          kept = λ q y h. moves.moved q y h;
          only = λ q y h. elim (moves.only q y h) [
            | inl old ↦ absurd (
                let g = old.node in
                ground (arith, get_or-replicate {A = Option (ℕ × V)} (2 ^ bits) old.index none, g))
            | inr there ↦ there
          ];
        })
