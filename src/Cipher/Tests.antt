-- ===== src/Cipher/Tests.antt =====
-- SimpleCipher.cpp: a payload of a set of 16 bytes, a word and three bytes, and the theorem at it.
use tonk.Common.{ℕ, ◌<◌, ◌≡◌, refl, Bool, true, ◌&&◌, ltb, List, [], ◌∷◌, All, length, arith}
use tonk.Cipher.{initialize, cipher}
use tonk.Cipher.Twice.{cipher-twice}

abbrev some_payload : List ℕ
some_payload =
    1 ∷ 2 ∷ 3 ∷ 4 ∷ 5 ∷ 6 ∷ 7 ∷ 8 ∷ 9 ∷ 10 ∷ 11 ∷ 12 ∷ 13 ∷ 14 ∷ 15 ∷ 16 ∷ 17 ∷ 18 ∷ 19 ∷ 20 ∷ 255
    ∷ 0 ∷ 128 ∷ []

abbrev some_key : ℕ
some_key = 0x123456789abcdef

-- Every item of a list is a byte, as a test.
unfoldable are_bytes : List ℕ → Bool
are_bytes [] = true
are_bytes (b ∷ d) = ltb b 256 && are_bytes d

are_bytes-All : (d : List ℕ) → are_bytes d ≡ true → All (λ b. b < 256) d
unfolding are_bytes
are_bytes-All [] h = tt
are_bytes-All (b ∷ d) h = (ground (arith, h), are_bytes-All d (ground (arith, h)))

some_payload-All : All (λ b. b < 256) some_payload
unfolding are_bytes
some_payload-All = are_bytes-All some_payload refl

cipher-twice_example :
    (length (cipher (initialize some_key) some_payload 7) ≡ length some_payload)
    × (cipher (initialize some_key) (cipher (initialize some_key) some_payload 7) 7 ≡ some_payload)
cipher-twice_example = cipher-twice (initialize some_key) some_payload 7 some_payload-All

-- A key of zero leaves the payload as it is.
plain : cipher (initialize 0) some_payload 7 ≡ some_payload
unfolding cipher initialize
plain = refl

-- The bytes that go out for the key.
cipher-some_payload :
    cipher (initialize some_key) some_payload 7
    ≡ 201 ∷ 72 ∷ 201 ∷ 159 ∷ 199 ∷ 238 ∷ 56 ∷ 44 ∷ 214 ∷ 196 ∷ 80 ∷ 63 ∷ 72 ∷ 80 ∷ 124 ∷ 173 ∷ 176
      ∷ 213 ∷ 251 ∷ 185 ∷ 226 ∷ 140 ∷ 220 ∷ []
unfolding cipher initialize
cipher-some_payload = refl
