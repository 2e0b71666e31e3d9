-- ===== src/Maps/Hole.antt =====
-- TonkineseMaps.h: the loops of `erase_index`, a hole closed by the nodes that it cuts off.
use tonk.Common.{
  ℕ, ◌<◌, ◌≡◌, ◌≢◌, ◌∙◌, Bool, true, false, not, ◌&&◌, ◌||◌, if◌then◌else◌, ltb, leb, ◌==◌, none,
  some, length, set, arith, inl, inr, length-set, Bool-cases, not-==→ne,
}
use tonk.Maps.{Table, get_node, previous}
use tonk.Maps.Walk.{between, get_node-set, some-lt, is_taken}
use tonk.Maps.Place.{IsSearchable}
use tonk.Maps.Count.{count, count-set-some, count-set-none}
use tonk.Maps.Take.{Holds}

-- The condition to look further: the home of the node at `j` is not past the hole.
abbrev pub stays : ℕ → ℕ → ℕ → Bool
stays j r hole = leb j r && ltb r hole || (ltb r hole && ltb hole j || ltb hole j && leb j r)

pub stays-between : (j r hole : ℕ) → j ≢ hole → stays j r hole ≡ not (between j hole r)
stays-between j r hole apart = ground arith

module _ {ℓ} {V : Type ℓ} (home : ℕ → ℕ) where
  -- A table with a hole, where the nodes down to `i` do not need it and `e` is another free node.
  pub record IsOpen (t : Table V) (hole i e : ℕ) : Type ℓ where
    pub hole_below : hole < length t
    pub i_below : i < length t
    pub e_below : e < length t
    pub hole_free : get_node t hole ≡ none
    pub e_free : get_node t e ≡ none
    pub e_other : e ≢ hole
    pub e_ahead : e ≢ i
    pub placed :
        (p s : ℕ) (d : ℕ × V)
        → get_node t p ≡ some d
        → s < length t
        → between p s (home d.0) ≡ true
        → s ≢ hole
        → is_taken (get_node t s) ≡ true
    pub passed :
        (s : ℕ) (d : ℕ × V)
        → between i s hole ≡ true
        → get_node t s ≡ some d
        → between s hole (home d.0) ≡ false
    pub unique :
        (p q : ℕ) (c d : ℕ × V) → get_node t p ≡ some c → get_node t q ≡ some d → c.0 ≡ d.0 → p ≡ q
    pub homes : (k : ℕ) → home k < length t

  -- A table `t'` that has at `hole` the node that was at `j`.
  module _ (t t' : Table V) (hole j : ℕ) (d : ℕ × V) (node : get_node t j ≡ some d)
      (apart : hole ≢ j) (size : length t' ≡ length t)
      (at : (s : ℕ)
        → get_node t' s
          ≡ (if s == j then none else if s == hole then some d else get_node t s)) where
    pub shifted-kept : get_node t hole ≡ none → (q : ℕ) (y : V) → Holds t q y → Holds t' q y
    shifted-kept free q y h = elim (Bool-cases (h.index == j)) [
      | inl same ↦ record {
        index = hole;
        node = let g = h.node in ground (arith, at hole, node, same, g);
      }
      | inr other ↦ record {
        index = h.index;
        node = let g = h.node in ground (arith, at h.index, other, g, free);
      }
    ]

    pub shifted-only : (q : ℕ) (y : V) → Holds t' q y → Holds t q y
    shifted-only q y h = elim (Bool-cases (h.index == hole)) [
      | inl same ↦ record {
        index = j;
        node = let g = h.node in ground (arith, at h.index, node, same, g);
      }
      | inr other ↦ record {
        index = h.index;
        node = let g = h.node in ground (arith, at h.index, other, g);
      }
    ]

    pub shifted-IsOpen :
        (i e : ℕ) → IsOpen t hole i e → between j hole (home d.0) ≡ true → IsOpen t' j j e
    shifted-IsOpen i e o far =
        let at_hole = o.hole_free in
        let at_e = o.e_free in
        let aside = o.e_other in
        let below = some-lt t j d node in
        record {
          hole_below = rw size below;
          i_below = rw size below;
          e_below = rw size o.e_below;
          hole_free = ground (arith, at j);
          e_free = ground (arith, at e, at_e, aside);
          e_other = λ same. absurd (ground (arith, same, node, at_e));
          e_ahead = λ same. absurd (ground (arith, same, node, at_e));
          placed = λ p s c at_p s_below path other. elim (Bool-cases (p == hole)) [
            | inl same ↦ ground (
              arith,
              at p,
              at s,
              at_p,
              o.placed j s d node,
              path,
              far,
              other,
              same,
              size,
              s_below,
              o.hole_below,
              below,
              o.homes d.0,
            )
            | inr elsewhere ↦
                ground
                  (arith, at p, at s, at_p, o.placed p s c, path, other, elsewhere, size, s_below)
          ];
          passed = λ s c within at_s. absurd (ground (arith, at s, at_s, within));
          unique = λ p q b c at_p at_q same. ground (
            arith,
            at p,
            at q,
            at_p,
            at_q,
            o.unique p q b c,
            o.unique p j b d,
            o.unique j q d c,
            o.unique j j d d,
            node,
            same,
            apart,
          );
          homes = λ k. rw size (o.homes k);
        }

  module _ (t : Table V) (hole i e : ℕ) (o : IsOpen t hole i e) where
    pub closed-IsSearchable : get_node t (previous (length t) i) ≡ none → IsSearchable home t
    closed-IsSearchable free = record {
      placed = λ p s d node below path. elim (Bool-cases (s == hole)) [
        | inr other ↦ o.placed p s d node below path (not-==→ne s hole other)
        | inl same ↦ absurd (
            let q = some-lt t p d node in
            let at_hole = o.hole_free in
            ground (
              arith,
              o.passed p d,
              o.placed p (previous (length t) i) d node,
              free,
              node,
              at_hole,
              o.i_below,
              o.hole_below,
              o.homes d.0,
            ))
      ];
      unique = o.unique;
      homes = o.homes;
    }

    pub skip-IsOpen :
        (d : ℕ × V)
        → get_node t (previous (length t) i) ≡ some d
        → between (previous (length t) i) hole (home d.0) ≡ false
        → IsOpen t hole (previous (length t) i) e
    skip-IsOpen d node short = record {
      hole_below = o.hole_below;
      i_below = some-lt t _ d node;
      e_below = o.e_below;
      hole_free = o.hole_free;
      e_free = o.e_free;
      e_other = o.e_other;
      e_ahead = λ same. absurd (let at_e = o.e_free in ground (arith, same, node, at_e));
      placed = o.placed;
      passed = λ s c within at_s. elim (Bool-cases (s == previous (length t) i)) [
        | inl same ↦ ground (arith, short, node, at_s, same)
        | inr other ↦
            o.passed s c
              (let at_hole = o.hole_free in
                ground (
                  arith,
                  within,
                  other,
                  at_hole,
                  node,
                  some-lt t s c at_s,
                  o.i_below,
                  o.hole_below,
                ))
              at_s
      ];
      unique = o.unique;
      homes = o.homes;
    }

    -- The node `d` at the next index goes into the hole, and leaves another.
    abbrev pub moved : ℕ × V → Table V
    moved d = set (set t hole (some d)) (previous (length t) i) none

    module _ (d : ℕ × V) (node : get_node t (previous (length t) i) ≡ some d) where
      pub apart : hole ≢ previous (length t) i
      apart = λ same. absurd (let at_hole = o.hole_free in ground (arith, same, node, at_hole))

      pub length-moved : length (moved d) ≡ length t
      length-moved =
          length-set (set t hole (some d)) (previous (length t) i) none ∙ length-set t hole (some d)

      pub get_node-moved :
          (s : ℕ)
          → get_node (moved d) s ≡ (
              if s == previous (length t) i
              then none
              else if s == hole
              then some d
              else get_node t s)
      get_node-moved s = ground (
        arith,
        get_node-set (set t hole (some d)) (previous (length t) i) s none,
        get_node-set t hole s (some d) o.hole_below,
        some-lt t _ d node,
        length-set t hole (some d),
      )

      pub count-moved : count (moved d) ≡ count t
      count-moved = ground (
        arith,
        count-set-some t hole d o.hole_below o.hole_free,
        count-set-none (set t hole (some d)) (previous (length t) i) d (
            ground (
              arith,
              get_node-set t hole (previous (length t) i) (some d) o.hole_below,
              node,
              apart,
            )),
      )
