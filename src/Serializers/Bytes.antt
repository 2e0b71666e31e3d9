-- ===== src/Serializers/Bytes.antt =====
-- SiameseSerializers.h: bytes of a buffer, and the words that the readers join from them.
use Prim.Native.Nat.{bit_or}
use tonk.Common.{
  ℕ, suc, ◌+◌, ◌-◌, ◌*◌, ◌≤◌, ◌<◌, ◌≡◌, refl, ap, ◌∙◌, List, [], ◌∷◌, ◌++◌, get_or, length,
  length-append, arith,
}
use tonk.Common.Bits.{◌<<◌, bit_or_disjoint}

-- `buffer[i]`, and the byte `i` places before the last one.
abbrev pub at : List ℕ → ℕ → ℕ
at buffer i = get_or buffer i 0

unfoldable pub at_end : List ℕ → ℕ → ℕ
at_end buffer i = at buffer (length buffer - suc i)

get_or-append : (xs ys : List ℕ) (i : ℕ) → get_or (xs ++ ys) (length xs + i) 0 ≡ get_or ys i 0
get_or-append [] ys i = ap (λ k. get_or ys k 0) {x = 0 + i} {y = i} (omega arith)
get_or-append (x ∷ xs) ys i =
    ap (λ k. get_or (x ∷ xs ++ ys) k 0) {x = suc (length xs) + i} {y = suc (length xs + i)}
      (omega arith)
    ∙ get_or-append xs ys i

-- Bytes at the end of a buffer do not depend on what stands before them.
pub at_end-append : (xs ys : List ℕ) (i : ℕ) → i < length ys → at_end (xs ++ ys) i ≡ at_end ys i
unfolding at_end
at_end-append xs ys i h =
    ap (at (xs ++ ys)) (omega (arith, length-append xs ys))
    ∙ get_or-append xs ys (length ys - suc i)

-- A footer of 1 to 4 bytes, seen from the end: its bytes and the length of the buffer.
pub end1 : (xs : List ℕ) (a : ℕ) → (at_end (xs ++ a ∷ []) 0 ≡ a) × (1 ≤ length (xs ++ a ∷ []))
end1 xs a = (
  at_end-append xs (a ∷ []) 0 (omega arith) ∙ unfold at_end in refl,
  omega (arith, length-append xs (a ∷ [])),
)

pub end2 :
    (xs : List ℕ) (a b : ℕ)
    → let buffer = xs ++ a ∷ b ∷ [] in
      (at_end buffer 0 ≡ b) × (at_end buffer 1 ≡ a) × (2 ≤ length buffer)
end2 xs a b =
    let ys : List ℕ = a ∷ b ∷ [] in
    (
      at_end-append xs ys 0 (omega arith) ∙ unfold at_end in refl,
      at_end-append xs ys 1 (omega arith) ∙ unfold at_end in refl,
      omega (arith, length-append xs ys),
    )

pub end3 :
    (xs : List ℕ) (a b c : ℕ)
    → let buffer = xs ++ a ∷ b ∷ c ∷ [] in
      (at_end buffer 0 ≡ c) × (at_end buffer 1 ≡ b) × (at_end buffer 2 ≡ a) × (3 ≤ length buffer)
end3 xs a b c =
    let ys : List ℕ = a ∷ b ∷ c ∷ [] in
    (
      at_end-append xs ys 0 (omega arith) ∙ unfold at_end in refl,
      at_end-append xs ys 1 (omega arith) ∙ unfold at_end in refl,
      at_end-append xs ys 2 (omega arith) ∙ unfold at_end in refl,
      omega (arith, length-append xs ys),
    )

pub end4 :
    (xs : List ℕ) (a b c d : ℕ)
    → let buffer = xs ++ a ∷ b ∷ c ∷ d ∷ [] in
      (at_end buffer 0 ≡ d)
      × (at_end buffer 1 ≡ c)
      × (at_end buffer 2 ≡ b)
      × (at_end buffer 3 ≡ a)
      × (4 ≤ length buffer)
end4 xs a b c d =
    let ys : List ℕ = a ∷ b ∷ c ∷ d ∷ [] in
    (
      at_end-append xs ys 0 (omega arith) ∙ unfold at_end in refl,
      at_end-append xs ys 1 (omega arith) ∙ unfold at_end in refl,
      at_end-append xs ys 2 (omega arith) ∙ unfold at_end in refl,
      at_end-append xs ys 3 (omega arith) ∙ unfold at_end in refl,
      omega (arith, length-append xs ys),
    )

-- `(hi << 8) | lo` and its longer forms.
unfoldable pub join2 : ℕ → ℕ → ℕ
join2 a b = bit_or (a << 8) b

unfoldable pub join3 : ℕ → ℕ → ℕ → ℕ
join3 a b c = bit_or (bit_or (a << 16) (b << 8)) c

unfoldable pub join4 : ℕ → ℕ → ℕ → ℕ → ℕ
join4 a b c d = bit_or (bit_or (bit_or (a << 24) (b << 16)) (c << 8)) d

pub join2-eq : (a b : ℕ) → b < 256 → join2 a b ≡ a * 256 + b
unfolding join2
join2-eq a b h = bit_or_disjoint 8 a b h

or_byte : (x y b : ℕ) → x ≡ y * 256 → b < 256 → bit_or x b ≡ y * 256 + b
or_byte x y b e h = ap (λ (t : ℕ). bit_or t b) e ∙ bit_or_disjoint 8 y b h

pub join3-eq : (a b c : ℕ) → b < 256 → c < 256 → join3 a b c ≡ a * 65536 + b * 256 + c
unfolding join3
join3-eq a b c h k = omega (
  arith,
  or_byte (bit_or (a << 16) (b << 8)) (a * 256 + b) c
      (omega (arith, bit_or_disjoint 16 a (b << 8) (omega arith))) k,
)

pub join4-eq :
    (a b c d : ℕ)
    → b < 256
    → c < 256
    → d < 256
    → join4 a b c d ≡ a * 16777216 + b * 65536 + c * 256 + d
unfolding join4
join4-eq a b c d h k l = omega (
  arith,
  or_byte (bit_or (bit_or (a << 24) (b << 16)) (c << 8)) (a * 65536 + b * 256 + c) d
      (upper ∙ omega (arith, bit_or_disjoint 16 (a * 256 + b) (c << 8) (omega arith))) l,
)
  where
    high : bit_or (a << 24) (b << 16) ≡ (a * 256 + b) << 16
    high = omega (arith, bit_or_disjoint 24 a (b << 16) (omega arith))

    upper : bit_or (bit_or (a << 24) (b << 16)) (c << 8) ≡ bit_or ((a * 256 + b) << 16) (c << 8)
    upper = ap (λ (t : ℕ). bit_or t (c << 8)) high

pub length-sub-append : (xs ys : List ℕ) → length (xs ++ ys) - length ys ≡ length xs
length-sub-append xs ys = omega (arith, length-append xs ys)
