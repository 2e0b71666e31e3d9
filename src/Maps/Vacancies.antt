-- ===== src/Maps/Vacancies.antt =====
-- TonkineseMaps.cpp: the ids that no connection has, and that a table with every id is as large as these.
use tonk.Common.{
  ℕ, zero, suc, ◌+◌, ◌-◌, ◌≤◌, ◌<◌, ◌≡◌, ◌≢◌, refl, ◌∙◌, if◌then◌else◌, ltb, leb, ◌&&◌, ◌==◌,
  Option, none, some, List, [], ◌∷◌, set, arith, ◌⊎◌, inl, inr, ap, sym, Bool-cases, ==→eq,
  not-==→ne,
}
use tonk.Common.Bits.{u8}
use tonk.Maps.{LightHashMap, Table, find}
use tonk.Maps.Walk.{get_node-set, some-lt}
use tonk.Maps.Count.{count, count-set-none}
use tonk.Maps.Take.{Holds}
use tonk.Maps.View.{find-Lacks, Holds_or_Lacks}
use tonk.Maps.Insert.{is_none, IsValid, find-empty}
use tonk.Maps.Ids.{unused_ids}

-- The ids below a bound that no connection has.
unfoldable pub vacancies : (ℕ → Option ℕ) → ℕ → ℕ
vacancies f zero = 0
vacancies f (suc n) = let rest = vacancies f n in if is_none (f n) then suc rest else rest

-- The map with one more id.
abbrev pub fill : (ℕ → Option ℕ) → ℕ → ℕ → Option ℕ
fill f id q = if q == id then some 0 else f q

pub vacancies-agree :
    (f g : ℕ → Option ℕ) (n : ℕ)
    → ((q : ℕ) → q < n → is_none (f q) ≡ is_none (g q))
    → vacancies f n ≡ vacancies g n
unfolding vacancies
vacancies-agree f g zero same = refl
vacancies-agree f g (suc n) same =
    rw (same n (omega arith), vacancies-agree f g n (λ q below. same q (omega arith))) refl

pub vacancies-above :
    (f : ℕ → Option ℕ) (id n : ℕ) → n ≤ id → vacancies (fill f id) n ≡ vacancies f n
unfolding vacancies
vacancies-above f id zero h = refl
vacancies-above f id (suc n) h = ground (arith, vacancies-above f id n)

pub vacancies-fill :
    (f : ℕ → Option ℕ) (id n : ℕ)
    → id < n
    → f id ≡ none
    → vacancies (fill f id) n + 1 ≡ vacancies f n
unfolding vacancies
vacancies-fill f id zero h free = absurd (omega arith)
vacancies-fill f id (suc n) h free = elim (Bool-cases (n == id)) [
  | inl same ↦ rw (same, ==→eq n id same, free) (ground (arith, vacancies-above f id id))
  | inr other ↦ rw other (ground (arith, vacancies-fill f id n, not-==→ne n id other))
]

pub vacancies-le : (f : ℕ → Option ℕ) (n : ℕ) → vacancies f n ≤ n
unfolding vacancies
vacancies-le f zero = omega arith
vacancies-le f (suc n) = ground (arith, vacancies-le f n)

-- With an id that is taken not all are vacant.
pub vacancies-lt : (f : ℕ → Option ℕ) (n id c : ℕ) → id < n → f id ≡ some c → vacancies f n < n
unfolding vacancies
vacancies-lt f zero id c below taken = absurd (omega arith)
vacancies-lt f (suc n) id c below taken = elim (Bool-cases (n == id)) [
  | inl same ↦ rw (==→eq n id same, taken) (omega (arith, vacancies-le f id, ==→eq n id same))
  | inr other ↦ ground (arith, vacancies-lt f n id c, vacancies-le f n, not-==→ne n id other)
]

pub vacancies-none : (f : ℕ → Option ℕ) (n id : ℕ) → vacancies f n ≡ 0 → id < n → f id ≢ none
vacancies-none f n id nothing below free = omega (arith, vacancies-fill f id n below free, nothing)

-- No id is vacant, or one is.
pub vacant_id :
    (f : ℕ → Option ℕ) (low n : ℕ)
    → ((id : ℕ) → low ≤ id → id < n → f id ≢ none)
      ⊎ ((id : ℕ) × (low ≤ id) × (id < n) × (f id ≡ none))
vacant_id f low zero = inl (λ id from h e. omega arith)
vacant_id f low (suc n) = elim (vacant_id f low n) [
  | inr (id, from, below, free) ↦ inr (id, from, omega arith, free)
  | inl all ↦ elim (Bool-cases (is_none (f n) && leb low n)) [
    | inl here ↦ inr (n, ground (arith, here), omega arith, ground (arith, here))
    | inr full ↦ inl (λ id from below e. elim (Bool-cases (id == n)) [
      | inl same ↦ absurd (ground (arith, full, same, e, from, ==→eq id n same))
      | inr other ↦ all id from (ground (arith, other, below)) e
    ])
  ]
]

-- None of the ids of a list is taken, and none is there twice.
pub data IsUnused : (ℕ → Option ℕ) → List ℕ → Type 0 where
  unused_none : (f : ℕ → Option ℕ) → IsUnused f []
  unused_more :
      (f : ℕ → Option ℕ) (id : ℕ) (ids : List ℕ)
      → id < 256
      → f id ≡ none
      → IsUnused (fill f id) ids
      → IsUnused f (id ∷ ids)

pub IsUnused-agree :
    (ids : List ℕ) (f g : ℕ → Option ℕ)
    → ((q : ℕ) → q < 256 → is_none (f q) ≡ is_none (g q))
    → IsUnused f ids
    → IsUnused g ids
IsUnused-agree _ f g same (unused_none _) = unused_none g
IsUnused-agree _ f g same (unused_more _ id ids small free rest) =
    unused_more g id ids small (ground (arith, same id, free))
      (IsUnused-agree ids (fill f id) (fill g id) (λ q below. ground (arith, same q)) rest)

-- What the constructor writes.
pub unused_ids-IsUnused :
    (offset n : ℕ) (f : ℕ → Option ℕ)
    → n ≤ 256
    → ((i : ℕ) → i < n → f (u8 (255 - i + offset)) ≡ none)
    → IsUnused f (unused_ids offset n)
unfolding unused_ids
unused_ids-IsUnused offset zero f h free = unused_none f
unused_ids-IsUnused offset (suc n) f h free =
    unused_more f _ _ (omega arith) (free n (omega arith))
      (unused_ids-IsUnused offset n _ (omega arith) (λ i below. ground (arith, free i)))

-- A table with a node for every number below a bound has as many nodes.
holds_all : (n : ℕ) (t : Table ℕ) → ((id : ℕ) → id < n → (x : ℕ) × Holds t id x) → n ≤ count t
holds_all zero t all = omega arith
holds_all (suc n) t all =
    let (y, h) = all n (omega arith) in
    let below = some-lt t h.index (n, y) h.node in
    let fewer = holds_all n (set t h.index none) (λ id small.
      let (x, k) = all id (omega arith) in
      (
        x,
        record {
          index = k.index;
          node =
              let g = k.node in
              let e = h.node in
              ground (arith, get_node-set t h.index k.index none below, g, e, small);
        },
      )) in
    omega (arith, fewer, count-set-none t h.index (n, y) h.node)

-- With fewer connections than ids some id is vacant.
pub fewer-vacant :
    (hasher : ℕ → ℕ) (m : LightHashMap ℕ) (f : ℕ → Option ℕ) (low n : ℕ)
    → IsValid hasher m
    → ((q : ℕ) → find hasher m q ≡ f q)
    → m.num_valid < n
    → ((id : ℕ) → id < low → f id ≢ none)
    → (id : ℕ) × (low ≤ id) × (id < n) × (f id ≡ none)
fewer-vacant hasher m f low n v shown fewer taken = elim (vacant_id f low n) [
  | inr found ↦ found
  | inl full ↦ absurd (
      go v (λ id below e. elim (Bool-cases (ltb id low)) [
        | inl early ↦ taken id (ground (arith, early)) e
        | inr late ↦ full id (ground (arith, late)) below e
      ]))
]
  where
    go : IsValid hasher m → ((id : ℕ) → id < n → f id ≢ none) → ⊥
    go (inl e) all =
        all 0 (omega (arith, fewer))
          (sym (shown 0) ∙ ap (λ k. find hasher k 0) e ∙ find-empty hasher 0)
    go (inr b) all =
        let enough = holds_all n m.values (λ id below. elim (Holds_or_Lacks hasher m b.table id) [
          | inl held ↦ held
          | inr lacks ↦
              absurd (all id below (sym (shown id) ∙ find-Lacks hasher m b.table id lacks))
        ]) in
        omega (arith, enough, b.table.counted, fewer)
