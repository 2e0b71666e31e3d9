-- ===== src/Serializers/StreamRoundtrip.antt =====
-- SiameseSerializers.h: words written to a stream with room for them are read back.
use Prim.Native.Nat.{bit_or}
use native.Mathlib.Nat.{pow-suc}
use tonk.Common.{
  ℕ, zero, suc, ◌+◌, ◌^◌, ◌≤◌, ◌<◌, ◌≡◌, refl, ◌∙◌, ap₂, List, [], ◌∷◌, get_or, set, length, arith,
  length-set, get_or-set_self, get_or-set_ne,
}
use tonk.Common.Bits.{◌<<◌, ◌>>◌, u8, bit_or_disjoint_left}
use tonk.Serializers.Streams.{
  write_le, read_le, WriteByteStream, write, read, skip, write_all, read_all,
}

pub length-write_le : (n : ℕ) (d : List ℕ) (o v : ℕ) → length (write_le n d o v) ≡ length d
unfolding write_le
length-write_le zero d o v = refl
length-write_le (suc n) d o v =
    length-write_le n (set d o (u8 v)) (o + 1) (v >> 8) ∙ length-set d o (u8 v)

-- Bytes before the offset stay.
pub get_or-write_le :
    (n : ℕ) (d : List ℕ) (o v i : ℕ) → i < o → get_or (write_le n d o v) i 0 ≡ get_or d i 0
unfolding write_le
get_or-write_le zero d o v i h = refl
get_or-write_le (suc n) d o v i h =
    get_or-write_le n (set d o (u8 v)) (o + 1) (v >> 8) i (omega arith)
    ∙ get_or-set_ne d o i (u8 v) 0 (omega arith)

-- One word, read at the offset where it was written.
pub read_le-write_le :
    (n : ℕ) (d : List ℕ) (o v : ℕ)
    → o + n ≤ length d
    → v < 256 ^ n
    → read_le n (write_le n d o v) o ≡ v
unfolding write_le read_le
read_le-write_le zero d o v h k = ground arith
read_le-write_le (suc n) d o v h k =
    let d' = set d o (u8 v) in
    let room = length-set d o (u8 v) in
    let low : get_or (write_le n d' (o + 1) (v >> 8)) o 0 ≡ u8 v =
      get_or-write_le n d' (o + 1) (v >> 8) o (omega arith)
      ∙ get_or-set_self d o (u8 v) 0 (omega arith) in
    let high : read_le n (write_le n d' (o + 1) (v >> 8)) (o + 1) ≡ v >> 8 =
      read_le-write_le n d' (o + 1) (v >> 8) (omega arith) (omega (arith, pow-suc 256 n)) in
    rw (low, high) (omega (arith, bit_or_disjoint_left 8 (u8 v) (v >> 8) (omega arith)))

-- A word depends on no byte outside it.
pub read_le-agrees :
    (n : ℕ) (d d' : List ℕ) (o : ℕ)
    → ((i : ℕ) → i < o + n → get_or d i 0 ≡ get_or d' i 0)
    → read_le n d o ≡ read_le n d' o
unfolding read_le
read_le-agrees zero d d' o h = refl
read_le-agrees (suc n) d d' o h =
    ap₂ (λ (x : ℕ) (y : ℕ). bit_or x (y << 8)) (h o (omega arith))
      (read_le-agrees n d d' (o + 1) (λ i k. h i (omega arith)))

-- The numbers of bytes of words, the sum of them, and that each value fits its word.
unfoldable pub total : List (ℕ × ℕ) → ℕ
total [] = 0
total ((bytes, value) ∷ words) = bytes + total words

unfoldable pub sizes : List (ℕ × ℕ) → List ℕ
sizes [] = []
sizes ((bytes, value) ∷ words) = bytes ∷ sizes words

unfoldable pub values : List (ℕ × ℕ) → List ℕ
values [] = []
values ((bytes, value) ∷ words) = value ∷ values words

unfoldable pub Fits : List (ℕ × ℕ) → Type 0
Fits [] = ◌≤◌ 0 0
Fits ((bytes, value) ∷ words) = (value < 256 ^ bytes) × Fits words

get_or-write_all :
    (ws : List (ℕ × ℕ)) (s : WriteByteStream) (i : ℕ)
    → i < s.written_bytes
    → get_or ((write_all s ws).buffer) i 0 ≡ get_or s.buffer i 0
unfolding write_all write
get_or-write_all [] s i h = refl
get_or-write_all ((n, v) ∷ ws) s i h =
    get_or-write_all ws (write n s v) i (omega arith)
    ∙ get_or-write_le n s.buffer s.written_bytes v i h

-- Words of any sizes, written one after another to a stream with room for them, are read back from
-- where they were written.
pub read_all-write_all :
    (ws : List (ℕ × ℕ)) (s : WriteByteStream)
    → Fits ws
    → total ws + s.written_bytes ≤ length s.buffer
    → read_all
        (record { buffer = (write_all s ws).buffer; bytes_read = s.written_bytes })
        (sizes ws)
      ≡ values ws
unfolding write_all read_all total sizes values Fits write read skip
read_all-write_all [] s f h = refl
read_all-write_all ((n, v) ∷ ws) s (f, fs) h =
    let s' = write n s v in
    let room = length-write_le n s.buffer s.written_bytes v in
    ap₂ ◌∷◌
      (read_le-agrees n _ s'.buffer s.written_bytes (get_or-write_all ws s')
        ∙ read_le-write_le n s.buffer s.written_bytes v (omega arith) f)
      (read_all-write_all ws s' fs (omega arith))
