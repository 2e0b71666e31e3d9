-- ===== src/Cipher.antt =====
-- SimpleCipher.h, SimpleCipher.cpp: the cipher of a payload and its tag, as compiled without SIMD.
-- t1ha is a library, so its hash is a parameter of `tag`.
pub mod Words
pub mod Undo
pub mod Twice
mod Tests
use Prim.Native.Nat.{bit_and, bit_or, bit_xor, ◌%◌}
use tonk.Common.{
  ℕ, zero, suc, ◌+◌, ◌-◌, ◌*◌, ◌/◌, ◌^◌, Bool, true, false, ◌&&◌, if◌then◌else◌, ◌==◌, List, [],
  ◌∷◌, ◌++◌, length, get_or, set, drop,
}
use tonk.Common.Bits.{◌<<◌, ◌>>◌, u8, u16, u32, u64}
use tonk.Serializers.Bytes.{at, join2, join4}

-- `ExpandedKey`, four words
pub record SimpleCipher : Type 0 where
  pub expanded_key : List ℕ

unfoldable pub read_u32 : List ℕ → ℕ
unfolding join4
read_u32 d = join4 (at d 3) (at d 2) (at d 1) (at d 0)

unfoldable pub write_u32 : ℕ → List ℕ
write_u32 v = u8 v ∷ u8 (v >> 8) ∷ u8 (v >> 16) ∷ u8 (v >> 24) ∷ []

-- `TailReadLE32` of the bytes that are left, fewer than four
unfoldable pub tail_read : List ℕ → ℕ
unfolding join2 read_u32
tail_read [] = 0
tail_read (a ∷ []) = a
tail_read (a ∷ b ∷ []) = join2 b a
tail_read (a ∷ b ∷ c ∷ []) = u32 ((c << 16) + join2 b a)
tail_read (a ∷ b ∷ c ∷ d ∷ rest) = read_u32 (a ∷ b ∷ c ∷ d ∷ rest)

-- `TailWriteLE32` of this many bytes
unfoldable pub tail_write : ℕ → ℕ → List ℕ
unfolding write_u32
tail_write zero v = []
tail_write (suc zero) v = u8 v ∷ []
tail_write (suc (suc zero)) v = u8 (u16 v) ∷ u8 (u16 v >> 8) ∷ []
tail_write (suc (suc (suc zero))) v = u8 (u16 v) ∷ u8 (u16 v >> 8) ∷ u8 (v >> 16) ∷ []
tail_write (suc (suc (suc (suc n)))) v = write_u32 v

unfoldable pub multiply_and_fold19 : ℕ → ℕ → ℕ
multiply_and_fold19 a b = let p = u64 (a * b) in bit_xor (u32 p) (u32 (p >> 19))

-- `Initialize`
unfoldable pub initialize : ℕ → SimpleCipher
unfolding multiply_and_fold19
initialize key =
    let low = u32 key in
    let high = u32 (key >> 32) in
    record {
      expanded_key =
          low
          ∷ high
          ∷ multiply_and_fold19 0xe7988061 low
          ∷ multiply_and_fold19 0xbd9fa5c7 high
          ∷ [];
    }

-- The words `a` of `Cipher`
unfoldable pub adders : ℕ → List ℕ
unfolding multiply_and_fold19
adders sequence =
    let n0 = u32 (u32 sequence + 0x80771ab1) in
    let n1 = multiply_and_fold19 (u32 (u32 (sequence >> 32) + 0x55f2cc88)) 0xf3f77d13 in
    u32 (multiply_and_fold19 0x905c4577 n0 + n1)
    ∷ u32 (multiply_and_fold19 0xb84c88cb n0 + n1)
    ∷ u32 (multiply_and_fold19 0xde0efbf1 n0 + n1)
    ∷ u32 (multiply_and_fold19 0x9f614c3d n0 + n1)
    ∷ []

-- `k[i & 3] += a[i & 3]`
unfoldable pub next_key : List ℕ → List ℕ → ℕ → List ℕ
next_key a k i = let j = bit_and i 3 in set k j (u32 (get_or k j 0 + get_or a j 0))

-- The loop over words: the key after `n` of them from index `i`, and their bytes.
unfoldable pub cipher_words : ℕ → List ℕ → List ℕ → ℕ → List ℕ → List ℕ × List ℕ
unfolding next_key read_u32 write_u32
cipher_words zero a k i d = (k, [])
cipher_words (suc n) a k i d =
    let k' = next_key a k i in
    let rest = cipher_words n a k' (i + 1) (drop 4 d) in
    (rest.0, write_u32 (bit_xor (read_u32 d) (get_or k' (bit_and i 3) 0)) ++ rest.1)

-- The loop over sets of 16 bytes.
unfoldable pub cipher_blocks : ℕ → List ℕ → List ℕ → List ℕ → List ℕ × List ℕ
unfolding cipher_words
cipher_blocks zero a k d = (k, [])
cipher_blocks (suc n) a k d =
    let block = cipher_words 4 a k 0 d in
    let rest = cipher_blocks n a block.0 (drop 16 d) in (rest.0, block.1 ++ rest.1)

-- The bytes that are left.
unfoldable pub cipher_tail : List ℕ → List ℕ → ℕ → List ℕ → List ℕ
unfolding next_key tail_read tail_write
cipher_tail a k i d =
    let k' = next_key a k i in
    tail_write (length d) (bit_xor (tail_read d) (get_or k' (bit_and i 3) 0))

-- The loops of `Cipher`: `n` sets of 16 bytes, `m` words and the bytes that are left.
unfoldable pub cipher_loops : ℕ → ℕ → List ℕ → List ℕ → List ℕ → List ℕ
unfolding cipher_blocks cipher_words cipher_tail
cipher_loops n m a k d =
    let blocks = cipher_blocks n a k d in
    let d1 = drop (16 * n) d in
    let words = cipher_words m a blocks.0 0 d1 in
    blocks.1 ++ (words.1 ++ cipher_tail a words.0 m (drop (4 * m) d1))

-- `Cipher`
unfoldable pub cipher : SimpleCipher → List ℕ → ℕ → List ℕ
unfolding adders cipher_loops
cipher s d sequence =
    if get_or s.expanded_key 0 0 == 0 && get_or s.expanded_key 1 0 == 0
    then d
    else cipher_loops (length d / 16) (length d % 16 / 4) (adders sequence) s.expanded_key d

-- `Tag`
unfoldable pub tag : (List ℕ → ℕ → ℕ) → SimpleCipher → List ℕ → ℕ → ℕ
tag t1ha s d nonce =
    let key = bit_or (get_or s.expanded_key 1 0 << 32) (get_or s.expanded_key 0 0) in
    u16 (t1ha d (bit_xor nonce key) >> 19)

unfoldable pub rot64 : ℕ → ℕ → ℕ
rot64 v s = bit_or (v >> s) (u64 (v << (64 - s)))

-- `TagInt`
unfoldable pub tag_int : SimpleCipher → ℕ → ℕ
unfolding rot64
tag_int s x =
    let prod = u64 (get_or s.expanded_key 0 0 * bit_xor x (get_or s.expanded_key 1 0)) in
    u16 (bit_xor prod (rot64 prod 41) >> 19)
