-- ===== src/Cipher/Words.antt =====
-- SimpleCipher.cpp: one word, or the bytes at the end, taken twice with one key word.
use Prim.Native.Nat.{bit_xor, ◌%◌}
use tonk.Common.{
  ℕ, zero, suc, ◌+◌, ◌*◌, ◌/◌, ◌^◌, ◌<◌, ◌≡◌, refl, ◌∙◌, List, [], ◌∷◌, ◌++◌, All, length, arith,
  ap, ap₂,
}
use tonk.Common.Bits.{◌<<◌, ◌>>◌, u8, u16, u32}
use tonk.Common.Bits.Xor.{bit_xor-lt, bit_xor-undo, bit_xor-split}
use tonk.Serializers.Bytes.{join2, join4, join2-eq, join4-eq}
use tonk.Cipher.{read_u32, write_u32, tail_read, tail_write}

-- The low digits of a difference are those of the low digits.
xor_split :
    (m x y : ℕ)
    → x < 2 ^ m
    → y % 2 ^ m < 2 ^ m
    → y ≡ y / 2 ^ m * 2 ^ m + y % 2 ^ m
    → bit_xor x y ≡ bit_xor 0 (y / 2 ^ m) * 2 ^ m + bit_xor x (y % 2 ^ m)
xor_split m x y h k whole =
    let low : x ≡ 0 * 2 ^ m + x = omega arith in
    ap₂ bit_xor low whole ∙ bit_xor-split m 0 x (y / 2 ^ m) (y % 2 ^ m) h k

xor_low8 : (x y : ℕ) → x < 2 ^ 8 → bit_xor x y % 2 ^ 8 ≡ bit_xor x (y % 2 ^ 8)
xor_low8 x y h = omega (
  arith,
  xor_split 8 x y h (omega arith) (omega arith),
  bit_xor-lt 8 x (y % 2 ^ 8) h (omega arith),
)

xor_low16 : (x y : ℕ) → x < 2 ^ 16 → bit_xor x y % 2 ^ 16 ≡ bit_xor x (y % 2 ^ 16)
xor_low16 x y h = omega (
  arith,
  xor_split 16 x y h (omega arith) (omega arith),
  bit_xor-lt 16 x (y % 2 ^ 16) h (omega arith),
)

xor_low24 : (x y : ℕ) → x < 2 ^ 24 → bit_xor x y % 2 ^ 24 ≡ bit_xor x (y % 2 ^ 24)
xor_low24 x y h = omega (
  arith,
  xor_split 24 x y h (omega arith) (omega arith),
  bit_xor-lt 24 x (y % 2 ^ 24) h (omega arith),
)

low_undo :
    (m x y : ℕ)
    → ((z : ℕ) → z < 2 ^ m → bit_xor z y % 2 ^ m ≡ bit_xor z (y % 2 ^ m))
    → x < 2 ^ m
    → y % 2 ^ m < 2 ^ m
    → bit_xor (bit_xor x y % 2 ^ m) y % 2 ^ m ≡ x
low_undo m x y low h k =
    ap (λ z. bit_xor z y % 2 ^ m) (low x h)
    ∙ low (bit_xor x (y % 2 ^ m)) (bit_xor-lt m x (y % 2 ^ m) h k)
    ∙ bit_xor-undo m x (y % 2 ^ m) h k

read-write : (v : ℕ) (rest : List ℕ) → v < 2 ^ 32 → read_u32 (write_u32 v ++ rest) ≡ v
unfolding read_u32 write_u32
read-write v rest h = omega (
  arith,
  join4-eq (u8 (v >> 24)) (u8 (v >> 16)) (u8 (v >> 8)) (u8 v) (omega arith) (omega arith)
      (omega arith),
)

same-cons : (x y : ℕ) (xs ys : List ℕ) → x ≡ y → xs ≡ ys → x ∷ xs ≡ y ∷ ys
same-cons x y xs ys e f = ap₂ (λ z zs. z ∷ zs) e f

write-bytes :
    (a b c d v : ℕ)
    → a < 256
    → b < 256
    → c < 256
    → d < 256
    → v ≡ d * 16777216 + c * 65536 + b * 256 + a
    → write_u32 v ≡ a ∷ b ∷ c ∷ d ∷ []
unfolding write_u32
write-bytes a b c d v ha hb hc hd e = same-cons _ _ _ _ (omega (arith, e)) (
    same-cons _ _ _ _ (omega (arith, e))
      (same-cons _ _ _ _ (omega (arith, e)) (same-cons _ _ _ _ (omega (arith, e)) refl)))

-- Four bytes come back from two words with one key word.
pub word-undo :
    (a b c d y : ℕ) (rest more : List ℕ)
    → a < 256
    → b < 256
    → c < 256
    → d < 256
    → y < 2 ^ 32
    → write_u32
        (bit_xor (read_u32 (write_u32 (bit_xor (read_u32 (a ∷ b ∷ c ∷ d ∷ rest)) y) ++ more)) y)
      ≡ a ∷ b ∷ c ∷ d ∷ []
unfolding read_u32
word-undo a b c d y rest more ha hb hc hd hy =
    let x = join4 d c b a in
    let is_x = join4-eq d c b a hc hb ha in
    let below : x < 2 ^ 32 = omega (arith, is_x) in
    ap (λ v. write_u32 (bit_xor v y)) (read-write (bit_xor x y) more (bit_xor-lt 32 x y below hy))
    ∙ ap write_u32 (bit_xor-undo 32 x y below hy)
    ∙ write-bytes a b c d x ha hb hc hd is_x

-- The bytes at the end, taken twice.
abbrev pub twice : ℕ → List ℕ → List ℕ
twice y d =
    tail_write (length d) (bit_xor (tail_read (tail_write (length d) (bit_xor (tail_read d) y))) y)

tail1-undo : (a y : ℕ) → a < 256 → twice y (a ∷ []) ≡ a ∷ []
unfolding tail_read tail_write
tail1-undo a y h = same-cons _ _ _ _ (low_undo 8 a y (λ z. xor_low8 z y) h (omega arith)) refl

tail2-undo : (a b y : ℕ) → a < 256 → b < 256 → twice y (a ∷ b ∷ []) ≡ a ∷ b ∷ []
unfolding tail_read tail_write
tail2-undo a b y ha hb =
    let x = join2 b a in
    let is_x = join2-eq b a ha in
    let v = bit_xor x y in
    let again : join2 (u8 (u16 v >> 8)) (u8 (u16 v)) ≡ u16 v =
      omega (arith, join2-eq (u8 (u16 v >> 8)) (u8 (u16 v)) (omega arith)) in
    let back : u16 (bit_xor (join2 (u8 (u16 v >> 8)) (u8 (u16 v))) y) ≡ x =
      ap (λ z. u16 (bit_xor z y)) again
      ∙ low_undo 16 x y (λ z. xor_low16 z y) (omega (arith, is_x)) (omega arith) in
    same-cons _ _ _ _ (omega (arith, back, is_x))
      (same-cons _ _ _ _ (omega (arith, back, is_x)) refl)

tail3-undo : (a b c y : ℕ) → a < 256 → b < 256 → c < 256 → twice y (a ∷ b ∷ c ∷ []) ≡ a ∷ b ∷ c ∷ []
unfolding tail_read tail_write
tail3-undo a b c y ha hb hc =
    let x = u32 ((c << 16) + join2 b a) in
    let is_x : x ≡ c * 65536 + b * 256 + a = omega (arith, join2-eq b a ha) in
    let v = bit_xor x y in
    let w = u32 ((u8 (v >> 16) << 16) + join2 (u8 (u16 v >> 8)) (u8 (u16 v))) in
    let again : w ≡ v % 2 ^ 24 =
      omega (arith, join2-eq (u8 (u16 v >> 8)) (u8 (u16 v)) (omega arith)) in
    let back : bit_xor w y % 2 ^ 24 ≡ x =
      ap (λ z. bit_xor z y % 2 ^ 24) again
      ∙ low_undo 24 x y (λ z. xor_low24 z y) (omega (arith, is_x)) (omega arith) in
    same-cons _ _ _ _ (omega (arith, back, is_x)) (
      same-cons _ _ _ _ (omega (arith, back, is_x))
        (same-cons _ _ _ _ (omega (arith, back, is_x)) refl))

pub tail-undo : (d : List ℕ) (y : ℕ) → length d < 4 → All (λ b. b < 256) d → twice y d ≡ d
unfolding tail_write
tail-undo [] y h bytes = refl
tail-undo (a ∷ []) y h bytes = tail1-undo a y bytes.0
tail-undo (a ∷ b ∷ []) y h bytes = tail2-undo a b y bytes.0 bytes.1.0
tail-undo (a ∷ b ∷ c ∷ []) y h bytes = tail3-undo a b c y bytes.0 bytes.1.0 bytes.1.1.0
tail-undo (a ∷ b ∷ c ∷ d ∷ rest) y h bytes = absurd (omega arith)

pub length-tail_write : (n v : ℕ) → n < 4 → length (tail_write n v) ≡ n
unfolding tail_write
length-tail_write zero v h = refl
length-tail_write (suc zero) v h = refl
length-tail_write (suc (suc zero)) v h = refl
length-tail_write (suc (suc (suc zero))) v h = refl
length-tail_write (suc (suc (suc (suc n)))) v h = absurd (omega arith)
