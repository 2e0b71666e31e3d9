-- ===== src/Cipher/Twice.antt =====
-- SimpleCipher.cpp: `Cipher` decrypts what it encrypted.
use Prim.Native.Nat.{◌%◌}
use tonk.Common.{
  ℕ, ◌+◌, ◌*◌, ◌/◌, ◌<◌, ◌≡◌, refl, ◌∙◌, ◌&&◌, ◌==◌, List, ◌++◌, All, length, get_or, take, drop,
  length-append, inl, inr, arith, ap, subst, Bool-cases,
}
use tonk.Cipher.{
  SimpleCipher, cipher_words, cipher_blocks, cipher_tail, cipher_loops, adders, cipher,
}
use tonk.Cipher.Words.{tail-undo, length-tail_write}
use tonk.Cipher.Undo.{
  IsByte, words-undo, length-cipher_words, blocks-undo, length-cipher_blocks, drop-at, take-drop,
  length-take, take-AreBytes, drop-AreBytes,
}

module _ (n m : ℕ) (a k : List ℕ) where
  -- The loops on the three parts of a payload.
  loops-parts :
      (f1 f2 f3 : List ℕ)
      → length f1 ≡ 16 * n
      → length f2 ≡ 4 * m
      → cipher_loops n m a k (f1 ++ (f2 ++ f3)) ≡ (
          let blocks = cipher_blocks n a k (f1 ++ (f2 ++ f3)) in
          let words = cipher_words m a blocks.0 0 (f2 ++ f3) in
          blocks.1 ++ (words.1 ++ cipher_tail a words.0 m f3))
  unfolding cipher_loops
  loops-parts f1 f2 f3 one two =
      let blocks = cipher_blocks n a k (f1 ++ (f2 ++ f3)) in
      let words = λ (d : List ℕ). cipher_words m a blocks.0 0 d in
      ap (λ (d : List ℕ). blocks.1 ++ ((words d).1 ++ cipher_tail a (words d).0 m (drop (4 * m) d)))
        (drop-at (16 * n) f1 (f2 ++ f3) one)
      ∙ ap
          (λ (d : List ℕ).
            blocks.1 ++ ((words (f2 ++ f3)).1 ++ cipher_tail a (words (f2 ++ f3)).0 m d))
          (drop-at (4 * m) f2 f3 two)

  tail-twice :
      (k' : List ℕ) (i : ℕ) (d : List ℕ)
      → length d < 4
      → All IsByte d
      → cipher_tail a k' i (cipher_tail a k' i d) ≡ d
  unfolding cipher_tail
  tail-twice k' i d few bytes = rw (length-tail_write (length d) _ few) (tail-undo d _ few bytes)

  length-tail :
      (k' : List ℕ) (i : ℕ) (d : List ℕ) → length d < 4 → length (cipher_tail a k' i d) ≡ length d
  unfolding cipher_tail
  length-tail k' i d few = length-tail_write (length d) _ few

  module _ (f1 f2 f3 : List ℕ) (one : length f1 ≡ 16 * n) (two : length f2 ≡ 4 * m)
      (few : length f3 < 4) where
    -- The number of bytes stays.
    length-loops : length (cipher_loops n m a k (f1 ++ (f2 ++ f3))) ≡ length (f1 ++ (f2 ++ f3))
    length-loops =
        let b = cipher_blocks n a k (f1 ++ (f2 ++ f3)) in
        let w = cipher_words m a b.0 0 (f2 ++ f3) in
        let t = cipher_tail a w.0 m f3 in
        ap length (loops-parts f1 f2 f3 one two)
        ∙ omega (
          arith,
          length-append b.1 (w.1 ++ t),
          length-append w.1 t,
          length-append f1 (f2 ++ f3),
          length-append f2 f3,
          length-cipher_blocks n a k (f1 ++ (f2 ++ f3)),
          length-cipher_words m a b.0 0 (f2 ++ f3),
          length-tail w.0 m f3 few,
          one,
          two,
        )

    loops-twice :
        All IsByte f1
        → All IsByte f2
        → All IsByte f3
        → cipher_loops n m a k (cipher_loops n m a k (f1 ++ (f2 ++ f3))) ≡ f1 ++ (f2 ++ f3)
    loops-twice bytes1 bytes2 bytes3 =
        let b = cipher_blocks n a k (f1 ++ (f2 ++ f3)) in
        let w = cipher_words m a b.0 0 (f2 ++ f3) in
        let t = cipher_tail a w.0 m f3 in
        ap (cipher_loops n m a k) (loops-parts f1 f2 f3 one two)
        ∙ loops-parts b.1 w.1 t (length-cipher_blocks n a k (f1 ++ (f2 ++ f3)))
            (length-cipher_words m a b.0 0 (f2 ++ f3))
        ∙ ap
            (λ (p : List ℕ × List ℕ).
              p.1
              ++ ((cipher_words m a p.0 0 (w.1 ++ t)).1
                  ++ cipher_tail a (cipher_words m a p.0 0 (w.1 ++ t)).0 m t))
            (blocks-undo n a k f1 (f2 ++ f3) (w.1 ++ t) one bytes1)
        ∙ ap (λ (p : List ℕ × List ℕ). f1 ++ (p.1 ++ cipher_tail a p.0 m t))
            (words-undo m a b.0 0 f2 f3 t two bytes2)
        ∙ ap (λ (d : List ℕ). f1 ++ (f2 ++ d)) (tail-twice w.0 m f3 few bytes3)

-- A payload cut as the loops cut it.
cut :
    (d : List ℕ)
    → let n = length d / 16 in
      let m = length d % 16 / 4 in
      take (16 * n) d ++ (take (4 * m) (drop (16 * n) d) ++ drop (4 * m) (drop (16 * n) d)) ≡ d
cut d =
    ap (λ (l : List ℕ). take (16 * (length d / 16)) d ++ l)
      (take-drop (4 * (length d % 16 / 4)) (drop (16 * (length d / 16)) d))
    ∙ take-drop (16 * (length d / 16)) d

loops-cut :
    (a k d : List ℕ)
    → All IsByte d
    → let n = length d / 16 in
      let m = length d % 16 / 4 in
      (length (cipher_loops n m a k d) ≡ length d)
      × (cipher_loops n m a k (cipher_loops n m a k d) ≡ d)
loops-cut a k d bytes =
    let n = length d / 16 in
    let m = length d % 16 / 4 in
    let d1 = drop (16 * n) d in
    let one = length-take (16 * n) d (omega arith) in
    let past : length d1 + 16 * n ≡ length d =
      omega (arith, one, length-append (take (16 * n) d) d1, ap length (take-drop (16 * n) d)) in
    let two = length-take (4 * m) d1 (omega (arith, past)) in
    let left : length (drop (4 * m) d1) < 4 = omega (
      arith,
      past,
      two,
      length-append (take (4 * m) d1) (drop (4 * m) d1),
      ap length (take-drop (4 * m) d1),
    ) in
    let bytes1 = drop-AreBytes (16 * n) d bytes in
    subst
      (λ (l : List ℕ).
        (length (cipher_loops n m a k l) ≡ length l)
        × (cipher_loops n m a k (cipher_loops n m a k l) ≡ l))
      (cut d)
      (
        length-loops n m a k (take (16 * n) d) (take (4 * m) d1) (drop (4 * m) d1) one two left,
        loops-twice n m a k (take (16 * n) d) (take (4 * m) d1) (drop (4 * m) d1) one two left
            (take-AreBytes (16 * n) d bytes) (take-AreBytes (4 * m) d1 bytes1)
            (drop-AreBytes (4 * m) d1 bytes1),
      )

-- For any key words, any sequence number and a payload of any length, `Cipher` keeps the number of
-- bytes, and taken again with the same sequence number gives the payload back.
pub cipher-twice :
    (s : SimpleCipher) (d : List ℕ) (sequence : ℕ)
    → All (λ b. b < 256) d
    → (length (cipher s d sequence) ≡ length d) × (cipher s (cipher s d sequence) sequence ≡ d)
unfolding cipher
cipher-twice s d sequence bytes =
    let (size, back) = loops-cut (adders sequence) s.expanded_key d bytes in
    elim (Bool-cases (get_or s.expanded_key 0 0 == 0 && get_or s.expanded_key 1 0 == 0)) [
      | inl plain ↦ rw plain (refl, refl)
      | inr keyed ↦ rw keyed (
        size,
        ap
              (λ (l : ℕ). cipher_loops (l / 16) (l % 16 / 4) (adders sequence) s.expanded_key (
                cipher_loops (length d / 16) (length d % 16 / 4) (adders sequence) s.expanded_key
                  d))
              size
            ∙ back,
      )
    ]
