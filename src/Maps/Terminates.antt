-- ===== src/Maps/Terminates.antt =====
-- TonkineseMaps.h: the loops of `erase_index` end before they come round the table.
use tonk.Common.{
  ℕ, zero, suc, ◌≤◌, ◌≡◌, refl, ◌∙◌, not, Option, none, some, length, set, true, arith, inl, inr,
  length-set, Bool-cases, ap, sym,
}
use tonk.Maps.{LightHashMap, Table, get_node, previous, hash_key, close_hole, erase_index}
use tonk.Maps.Walk.{between, some-lt, Option-cases, steps_left}
use tonk.Maps.Count.{free_node}
use tonk.Maps.Grow.{IsBuilt, room}
use tonk.Maps.Hole.{IsOpen, stays-between, skip-IsOpen, moved, apart, length-moved}
use tonk.Maps.Erase.{move-IsOpen, step_less, opened-IsOpen}

module _ {ℓ} {V : Type ℓ} (hasher : ℕ → ℕ) where
  -- On fuel that reaches the free node `e` the loops end, with the table that any other such fuel gives.
  close_hole-agrees :
      (shift a b : ℕ) (t : Table V) (hole i e : ℕ)
      → IsOpen (hash_key hasher shift) t hole i e
      → steps_left (length t) e i ≤ a
      → steps_left (length t) e i ≤ b
      → close_hole hasher a shift t hole i ≡ (true, (close_hole hasher b shift t hole i).1)
  unfolding close_hole
  close_hole-agrees shift zero b t hole i e o p q =
      absurd (let x = o.i_below in let y = o.e_below in ground (arith, p, x, y, o.e_ahead))
  close_hole-agrees shift (suc a) zero t hole i e o p q =
      absurd (let x = o.i_below in let y = o.e_below in ground (arith, q, x, y, o.e_ahead))
  close_hole-agrees shift (suc a) (suc b) t hole i e o p q =
      let home = hash_key hasher shift in
      let j = previous (length t) i in
      elim (Option-cases (get_node t j)) [
        | inl free ↦ rw (close_hole, free) refl
        | inr (d, node) ↦
            let less = step_less hasher shift t hole i e o d node in
            let condition =
              stays-between j (home d.0) hole (λ same. apart home t hole i e o d node (sym same)) in
            elim (Bool-cases (between j hole (home d.0))) [
              | inr short ↦
                  rw (close_hole, node, condition ∙ ap not short)
                    (close_hole-agrees shift a b t hole j e
                      (skip-IsOpen home t hole i e o d node short) (omega (arith, less, p))
                      (omega (arith, less, q)))
              | inl far ↦
                  rw (close_hole, node, condition ∙ ap not far)
                    (close_hole-agrees shift a b (moved home t hole i e o d) j j e
                      (move-IsOpen hasher shift t hole i e o d node far)
                      (rw (length-moved home t hole i e o d node) (omega (arith, less, p)))
                      (rw (length-moved home t hole i e o d node) (omega (arith, less, q))))
            ]
      ]

  -- The loops of `erase_index` end within one round of the table: for a map that was built by insertions
  -- and an index with a valid node, on any fuel of at least the table's length they reach their return, and
  -- the table is the one of `erase_index`.
  pub erase_index-terminates :
      (m : LightHashMap V) (i k : ℕ) (x : V) (fuel : ℕ)
      → IsBuilt hasher m
      → get_node m.values i ≡ some (k, x)
      → length m.values ≤ fuel
      → close_hole hasher fuel m.hash_shift (set m.values i none) i i
        ≡ (true, (erase_index hasher m i).values)
  unfolding erase_index
  erase_index-terminates m i k x fuel b node enough =
      let (e, below, free) = free_node m.values (room hasher m b) in
      let nothing : Option (ℕ × V) = none in
      let size = length-set m.values i nothing in
      let here = some-lt m.values i (k, x) node in
      close_hole-agrees m.hash_shift fuel (length m.values) (set m.values i none) i i e
        (opened-IsOpen hasher m i k x b node e below free)
        (ground (arith, size, here, below, enough)) (ground (arith, size, here, below))
