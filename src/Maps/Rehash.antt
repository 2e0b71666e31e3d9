-- ===== src/Maps/Rehash.antt =====
-- TonkineseMaps.h: `rehash` moves every node, and no key changes its value.
use tonk.Common.{
  ℕ, zero, suc, ◌+◌, ◌<◌, ◌≡◌, ◌≢◌, refl, ◌∙◌, ◌==◌, Option, none, some, [], ◌∷◌, length, arith,
  ◌⊎◌, inl, inr, Bool-cases, ap, sym, ==→eq, not-==→ne,
}
use tonk.Maps.{Table, LightHashMap, get_node, move_into, move_all}
use tonk.Maps.Take.{IsTable, Holds, Takes, move_into-Takes}
use tonk.Maps.Count.{count, none_valid}

module _ {ℓ} {V : Type ℓ} where
  -- No two nodes of a table have one key.
  abbrev pub HasDistinctKeys : Table V → Type ℓ
  HasDistinctKeys t =
      (i j : ℕ) (e d : ℕ × V) → get_node t i ≡ some e → get_node t j ≡ some d → e.0 ≡ d.0 → i ≡ j

module _ {ℓ} {V : Type ℓ} (hasher : ℕ → ℕ) where
  -- The map `r` is `m` with the nodes of a table moved into it.
  pub record Moves (m : LightHashMap V) (nodes : Table V) (total : ℕ) (r : LightHashMap V)
      : Type ℓ where
    pub table : IsTable hasher r
    pub counted : r.num_valid ≡ total
    pub shift : r.hash_shift ≡ m.hash_shift
    pub threshold : r.grow_threshold ≡ m.grow_threshold
    pub table_size : length r.values ≡ length m.values
    pub kept : (q : ℕ) (y : V) → Holds m.values q y → Holds r.values q y
    pub moved : (q : ℕ) (y : V) → Holds nodes q y → Holds r.values q y
    pub only : (q : ℕ) (y : V) → Holds r.values q y → Holds m.values q y ⊎ Holds nodes q y

  later : (x : Option (ℕ × V)) (t : Table V) (q : ℕ) (y : V) → Holds t q y → Holds (x ∷ t) q y
  later x t q y h = record { index = suc h.index; node = h.node }

  earlier :
      (x : Option (ℕ × V)) (t : Table V) (q : ℕ) (y : V)
      → Holds (x ∷ t) q y
      → (x ≡ some (q, y)) ⊎ Holds t q y
  earlier x t q y h = go h.index h.node
    where
      go : (i : ℕ) → get_node (x ∷ t) i ≡ some (q, y) → (x ≡ some (q, y)) ⊎ Holds t q y
      go zero e = inl e
      go (suc i) e = inr (record { index = i; node = e })

  -- The break of the loop: nothing is left to move.
  none_left :
      (nodes : Table V) (total : ℕ) (m : LightHashMap V)
      → IsTable hasher m
      → m.num_valid ≡ total
      → count nodes ≡ 0
      → Moves m nodes total m
  none_left nodes total m v done gone = record {
    table = v;
    counted = done;
    shift = refl;
    threshold = refl;
    table_size = refl;
    kept = λ q y h. h;
    moved = λ q y h. absurd (ground (arith, h.node, none_valid nodes h.index gone));
    only = λ q y h. inl h;
  }

  -- One node moved, and then the others.
  cons-Moves :
      (k : ℕ) (x : V) (nodes : Table V) (total : ℕ) (m m' r : LightHashMap V)
      → Takes hasher m m' k x
      → Moves m' nodes total r
      → Moves m (some (k, x) ∷ nodes) total r
  cons-Moves k x nodes total m m' r taken rest = record {
    table = rest.table;
    counted = rest.counted;
    shift = rest.shift ∙ taken.shift;
    threshold = rest.threshold ∙ taken.threshold;
    table_size = rest.table_size ∙ taken.table_size;
    kept = λ q y h. rest.kept q y (taken.kept q y h);
    moved = λ q y h. elim (earlier (some (k, x)) nodes q y h) [
      | inl e ↦ rest.kept q y (
          let new : Holds m'.values k x = taken.new in
          record { index = new.index; node = new.node ∙ e })
      | inr t ↦ rest.moved q y t
    ];
    only = λ q y h. elim (rest.only q y h) [
      | inr t ↦ inr (later (some (k, x)) nodes q y t)
      | inl old ↦ elim (Bool-cases (q == k)) [
        | inr other ↦ inl (taken.only q y old (not-==→ne q k other))
        | inl same ↦
            let new : Holds m'.values k x = taken.new in
            let node =
              taken.table.searchable.unique new.index old.index (k, x) (q, y) new.node old.node
                (sym (==→eq q k same)) in
            inr
              (record { index = 0; node = sym new.node ∙ ap (get_node m'.values) node ∙ old.node })
      ]
    ];
  }

  pub move_all-Moves :
      (nodes : Table V) (total : ℕ) (m : LightHashMap V)
      → IsTable hasher m
      → m.num_valid + count nodes ≡ total
      → total < length m.values
      → HasDistinctKeys nodes
      → ((j i : ℕ) (e d : ℕ × V)
          → get_node nodes j ≡ some e
          → get_node m.values i ≡ some d
          → e.0 ≢ d.0)
      → Moves m nodes total (move_all hasher total nodes m)
  unfolding move_all count
  move_all-Moves [] total m v sum room distinct apart = record {
    table = v;
    counted = omega (arith, sum);
    shift = refl;
    threshold = refl;
    table_size = refl;
    kept = λ q y h. h;
    moved = λ q y h. absurd (ground (arith, h.node));
    only = λ q y h. inl h;
  }
  move_all-Moves (none ∷ nodes) total m v sum room distinct apart =
      let rest =
        move_all-Moves nodes total m v sum room
          (λ i j e d f g same. omega (arith, distinct (suc i) (suc j) e d f g same))
          (λ j i. apart (suc j) i) in
      record {
        table = rest.table;
        counted = rest.counted;
        shift = rest.shift;
        threshold = rest.threshold;
        table_size = rest.table_size;
        kept = rest.kept;
        moved = λ q y h. elim (earlier none nodes q y h) [
          | inl e ↦ absurd cc
          | inr t ↦ rest.moved q y t
        ];
        only = λ q y h. elim (rest.only q y h) [
          | inl old ↦ inl old
          | inr t ↦ inr (later none nodes q y t)
        ];
      }
  move_all-Moves (some (k, x) ∷ nodes) total m v sum room distinct apart =
      let taken =
        move_into-Takes hasher m k x v (omega (arith, v.counted, sum))
          (λ j e node same. apart 0 j (k, x) e refl node (sym same)) in
      let m' = move_into hasher m (k, x) in
      elim (Bool-cases (total == m'.num_valid)) [
        | inl done ↦ rw done (
            cons-Moves k x nodes total m m' m' taken (
              none_left nodes total m' taken.table (sym (==→eq total m'.num_valid done))
                (ground (arith, taken.more, sum))))
        | inr on ↦ rw on (
            cons-Moves k x nodes total m m' (move_all hasher total nodes m') taken (
              move_all-Moves nodes total m' taken.table (omega (arith, taken.more, sum))
                (omega (arith, taken.table_size, room))
                (λ i j e d f g same. omega (arith, distinct (suc i) (suc j) e d f g same))
                (λ j i e d f g same. elim (Bool-cases (d.0 == k)) [
                  | inl at_k ↦ absurd (
                      omega
                        (arith, distinct 0 (suc j) (k, x) e refl f (sym (same ∙ ==→eq d.0 k at_k))))
                  | inr other ↦
                      let old =
                        taken.only d.0 d.1 (record { index = i; node = g })
                          (not-==→ne d.0 k other) in
                      apart (suc j) old.index e (d.0, d.1) f old.node same
                ])))
      ]
