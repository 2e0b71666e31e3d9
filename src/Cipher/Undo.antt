-- ===== src/Cipher/Undo.antt =====
-- SimpleCipher.cpp: its loops over words and over blocks, taken twice.
use Prim.Native.Nat.{bit_and, bit_xor}
use tonk.Common.{
  ℕ, zero, suc, ◌+◌, ◌*◌, ◌^◌, ◌≤◌, ◌<◌, ◌≡◌, refl, ◌∙◌, List, [], ◌∷◌, ◌++◌, All, length, get_or,
  set, take, drop, length-append, drop-append, arith, ap, ap₂, sym, subst,
}
use tonk.Cipher.{read_u32, write_u32, next_key, cipher_words, cipher_blocks}
use tonk.Cipher.Words.{word-undo}

abbrev pub IsByte : ℕ → Type 0
IsByte b = b < 256

set-lt : (k : List ℕ) (j x m : ℕ) → x < m → get_or (set k j x) j 0 < m
set-lt [] j x m h = omega arith
set-lt (y ∷ k) zero x m h = h
set-lt (y ∷ k) (suc j) x m h = set-lt k j x m h

pub key_word-lt : (a k : List ℕ) (i : ℕ) → get_or (next_key a k i) (bit_and i 3) 0 < 2 ^ 32
unfolding next_key
key_word-lt a k i = set-lt k (bit_and i 3) _ (2 ^ 32) (omega arith)

pub words-undo :
    (n : ℕ) (a k : List ℕ) (i : ℕ) (front rest more : List ℕ)
    → length front ≡ 4 * n
    → All IsByte front
    → cipher_words n a k i ((cipher_words n a k i (front ++ rest)).1 ++ more)
      ≡ ((cipher_words n a k i (front ++ rest)).0, front)
unfolding cipher_words write_u32
words-undo zero a k i [] rest more size bytes = refl
words-undo zero a k i (b ∷ front) rest more size bytes = absurd (omega arith)
words-undo (suc n) a k i (b0 ∷ b1 ∷ b2 ∷ b3 ∷ front) rest more size bytes =
    let k' = next_key a k i in
    let y = get_or k' (bit_and i 3) 0 in
    let r = cipher_words n a k' (i + 1) (front ++ rest) in
    let back = words-undo n a k' (i + 1) front rest more (omega (arith, size)) bytes.1.1.1.1 in
    ap
      (λ p. (
        p.0,
        write_u32 (
              bit_xor
                (read_u32 (
                  write_u32 (bit_xor (read_u32 (b0 ∷ b1 ∷ b2 ∷ b3 ∷ front ++ rest)) y)
                  ++ r.1
                  ++ more))
                y)
            ++ p.1,
      ))
      back
    ∙ ap (λ w. (r.0, w ++ front))
        (word-undo b0 b1 b2 b3 y (front ++ rest) (r.1 ++ more) bytes.0 bytes.1.0 bytes.1.1.0
          bytes.1.1.1.0 (key_word-lt a k i))
words-undo (suc n) a k i [] rest more size bytes = absurd (omega (arith, size))
words-undo (suc n) a k i (b0 ∷ []) rest more size bytes = absurd (omega (arith, size))
words-undo (suc n) a k i (b0 ∷ b1 ∷ []) rest more size bytes = absurd (omega (arith, size))
words-undo (suc n) a k i (b0 ∷ b1 ∷ b2 ∷ []) rest more size bytes = absurd (omega (arith, size))

pub length-cipher_words :
    (n : ℕ) (a k : List ℕ) (i : ℕ) (d : List ℕ) → length (cipher_words n a k i d).1 ≡ 4 * n
unfolding cipher_words write_u32
length-cipher_words zero a k i d = omega arith
length-cipher_words (suc n) a k i d =
    omega (arith, length-cipher_words n a (next_key a k i) (i + 1) (drop 4 d))

pub append_assoc : (xs ys zs : List ℕ) → xs ++ ys ++ zs ≡ xs ++ (ys ++ zs)
append_assoc [] ys zs = refl
append_assoc (x ∷ xs) ys zs = ap (λ l. x ∷ l) (append_assoc xs ys zs)

pub take-drop : (n : ℕ) (d : List ℕ) → take n d ++ drop n d ≡ d
take-drop zero d = refl
take-drop (suc n) [] = refl
take-drop (suc n) (x ∷ d) = ap (λ l. x ∷ l) (take-drop n d)

pub length-take : (n : ℕ) (d : List ℕ) → n ≤ length d → length (take n d) ≡ n
length-take zero d h = refl
length-take (suc n) [] h = absurd (omega arith)
length-take (suc n) (x ∷ d) h = omega (arith, length-take n d (omega arith))

pub take-AreBytes : (n : ℕ) (d : List ℕ) → All IsByte d → All IsByte (take n d)
take-AreBytes zero d b = tt
take-AreBytes (suc n) [] b = tt
take-AreBytes (suc n) (x ∷ d) b = (b.0, take-AreBytes n d b.1)

pub drop-AreBytes : (n : ℕ) (d : List ℕ) → All IsByte d → All IsByte (drop n d)
drop-AreBytes zero d b = b
drop-AreBytes (suc n) [] b = tt
drop-AreBytes (suc n) (x ∷ d) b = drop-AreBytes n d b.1

pub drop-at : (n : ℕ) (xs ys : List ℕ) → length xs ≡ n → drop n (xs ++ ys) ≡ ys
drop-at n xs ys e = ap (λ m. drop m (xs ++ ys)) (sym e) ∙ drop-append xs ys

pub length-cipher_blocks : (n : ℕ) (a k d : List ℕ) → length (cipher_blocks n a k d).1 ≡ 16 * n
unfolding cipher_blocks
length-cipher_blocks zero a k d = omega arith
length-cipher_blocks (suc n) a k d =
    let block = cipher_words 4 a k 0 d in
    let rest = cipher_blocks n a block.0 (drop 16 d) in
    omega (
      arith,
      length-append block.1 rest.1,
      length-cipher_words 4 a k 0 d,
      length-cipher_blocks n a block.0 (drop 16 d),
    )

-- One block in front of others.
blocks-cons :
    (n : ℕ) (a k front z : List ℕ)
    → length front ≡ 16
    → cipher_blocks (suc n) a k (front ++ z) ≡ (
      (cipher_blocks n a (cipher_words 4 a k 0 (front ++ z)).0 z).0,
      (cipher_words 4 a k 0 (front ++ z)).1
          ++ (cipher_blocks n a (cipher_words 4 a k 0 (front ++ z)).0 z).1,
    )
unfolding cipher_blocks
blocks-cons n a k front z size =
    let w = cipher_words 4 a k 0 (front ++ z) in
    ap (λ l. ((cipher_blocks n a w.0 l).0, w.1 ++ (cipher_blocks n a w.0 l).1))
      (drop-at 16 front z size)

block-undo :
    (n : ℕ) (a k front others rest more : List ℕ)
    → length front ≡ 16
    → All IsByte front
    → ((k' : List ℕ)
        → cipher_blocks n a k' ((cipher_blocks n a k' (others ++ rest)).1 ++ more)
          ≡ ((cipher_blocks n a k' (others ++ rest)).0, others))
    → cipher_blocks (suc n) a k ((cipher_blocks (suc n) a k (front ++ (others ++ rest))).1 ++ more)
      ≡ ((cipher_blocks (suc n) a k (front ++ (others ++ rest))).0, front ++ others)
block-undo n a k front others rest more size bytes back =
    let w = cipher_words 4 a k 0 (front ++ (others ++ rest)) in
    let b = cipher_blocks n a w.0 (others ++ rest) in
    let here =
      words-undo 4 a k 0 front (others ++ rest) (b.1 ++ more) (omega (arith, size)) bytes in
    let long : length w.1 ≡ 16 =
      omega (arith, length-cipher_words 4 a k 0 (front ++ (others ++ rest))) in
    subst
      (λ (p : List ℕ × List ℕ). cipher_blocks (suc n) a k (p.1 ++ more) ≡ (p.0, front ++ others))
      (sym (blocks-cons n a k front (others ++ rest) size))
      (ap (cipher_blocks (suc n) a k) (append_assoc w.1 b.1 more)
        ∙ blocks-cons n a k w.1 (b.1 ++ more) long
        ∙ ap
            (λ (p : List ℕ × List ℕ). (
              (cipher_blocks n a p.0 (b.1 ++ more)).0,
              p.1 ++ (cipher_blocks n a p.0 (b.1 ++ more)).1,
            ))
            here
        ∙ ap (λ (p : List ℕ × List ℕ). (p.0, front ++ p.1)) (back w.0))

pub blocks-undo :
    (n : ℕ) (a k front rest more : List ℕ)
    → length front ≡ 16 * n
    → All IsByte front
    → cipher_blocks n a k ((cipher_blocks n a k (front ++ rest)).1 ++ more)
      ≡ ((cipher_blocks n a k (front ++ rest)).0, front)
unfolding cipher_blocks
blocks-undo zero a k [] rest more size bytes = refl
blocks-undo zero a k (x ∷ front) rest more size bytes = absurd (omega arith)
blocks-undo (suc n) a k front rest more size bytes =
    let one = take 16 front in
    let others = drop 16 front in
    let whole = take-drop 16 front in
    let one_size = length-take 16 front (omega (arith, size)) in
    let other_size : length others ≡ 16 * n =
      omega (arith, size, one_size, length-append one others, ap length whole) in
    let done =
      block-undo n a k one others rest more one_size (take-AreBytes 16 front bytes)
        (λ k'. blocks-undo n a k' others rest more other_size (drop-AreBytes 16 front bytes)) in
    let joined = sym (append_assoc one others rest) ∙ ap (λ l. l ++ rest) whole in
    subst
      (λ (p : List ℕ × List ℕ).
        cipher_blocks (suc n) a k ((cipher_blocks (suc n) a k p.0).1 ++ more)
        ≡ ((cipher_blocks (suc n) a k p.0).0, p.1))
      (ap₂ (λ x y. (x, y)) joined whole) done
