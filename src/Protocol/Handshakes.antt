-- ===== src/Protocol/Handshakes.antt =====
-- TonkineseProtocol.h, TonkineseProtocol.cpp: the handshake field of 12 bytes, a 4-byte word that
-- tells its type and an 8-byte key, and the datagrams that hold nothing else.
use Prim.Native.Nat.{bit_or}
use tonk.Common.{
  ℕ, ◌+◌, ◌*◌, ◌/◌, ◌^◌, ◌≤◌, ◌<◌, ◌≡◌, refl, ◌∙◌, ap, if◌then◌else◌, ◌==◌, List, length, set,
  length-set, arith,
}
use tonk.Common.Bits.{◌<<◌, ◌>>◌, u8, u32, bit_or_disjoint}
use tonk.Serializers.Streams.{write_le, read_le}
use tonk.Serializers.StreamRoundtrip.{
  read_le-write_le, read_le-agrees, get_or-write_le, length-write_le,
}

-- `HandshakeType`
pub data HandshakeType : Type 0 where
  not_handshake c2s_connection_request s2c_cookie_response disconnect s2c_unknown_source_address
        c2s_update_source_address peer2peer_connect c2s_discovery s2c_discovery :
      HandshakeType

abbrev pub magic_c2s_connection_request : ℕ
magic_c2s_connection_request = 0x6b6e6f54

abbrev pub magic_s2c_cookie_response : ℕ
magic_s2c_cookie_response = 0x546f6e6b

abbrev pub magic_p2p_connection_request : ℕ
magic_p2p_connection_request = 0x50325054

-- The values of `HandshakeType_Disconnect` and the two after it.
abbrev pub disconnect_type : ℕ
disconnect_type = 3

abbrev pub s2c_unknown_source_address_type : ℕ
s2c_unknown_source_address_type = 4

abbrev pub c2s_update_source_address_type : ℕ
c2s_update_source_address_type = 5

-- Each writer writes a word at 0 and a key at 4.
unfoldable pub write_word_key : List ℕ → ℕ → ℕ → List ℕ
write_word_key field word key = write_le 8 (write_le 4 field 0 word) 4 key

-- `WriteC2SConnectionRequest`
abbrev pub write_c2s_connection_request : List ℕ → ℕ → List ℕ
write_c2s_connection_request field key = write_word_key field magic_c2s_connection_request key

-- `WriteS2CCookieResponse`
abbrev pub write_s2c_cookie_response : List ℕ → ℕ → List ℕ
write_s2c_cookie_response field cookie = write_word_key field magic_s2c_cookie_response cookie

-- `WriteP2PConnectionRequest`
abbrev pub write_p2p_connection_request : List ℕ → ℕ → List ℕ
write_p2p_connection_request field key = write_word_key field magic_p2p_connection_request key

-- `WriteDisconnect`
abbrev pub write_disconnect : List ℕ → ℕ → List ℕ
write_disconnect field key = write_word_key field disconnect_type key

-- `WriteS2CUnknownSourceAddress`
abbrev pub write_s2c_unknown_source_address : List ℕ → List ℕ
write_s2c_unknown_source_address field = write_word_key field s2c_unknown_source_address_type 0

-- `WriteC2SUpdateSourceAddress`
abbrev pub write_c2s_update_source_address : List ℕ → ℕ → ℕ → List ℕ
write_c2s_update_source_address field key id =
    write_word_key field (u32 (bit_or (id << 8) c2s_update_source_address_type)) key

-- `GetType`, on the word that it reads.
unfoldable pub type_of : ℕ → HandshakeType
type_of word =
    if word == magic_c2s_connection_request
    then c2s_connection_request
    else if word == magic_s2c_cookie_response
    then s2c_cookie_response
    else if word == magic_p2p_connection_request
    then peer2peer_connect
    else if word == disconnect_type
    then disconnect
    else if word == s2c_unknown_source_address_type
    then s2c_unknown_source_address
    else if u8 word == c2s_update_source_address_type
    then c2s_update_source_address
    else not_handshake

-- `GetType`
unfoldable pub get_type : List ℕ → HandshakeType
unfolding type_of
get_type field = type_of (read_le 4 field 0)

-- `GetKey`
unfoldable pub get_key : List ℕ → ℕ
get_key field = read_le 8 field 4

-- `GetConnectionId`
unfoldable pub get_connection_id : List ℕ → ℕ
get_connection_id field = read_le 3 field 1

-- Bytes below 4 are those of the word.
read_word :
    (n o : ℕ) (field : List ℕ) (word key : ℕ)
    → o + n ≤ 4
    → read_le n (write_word_key field word key) o ≡ read_le n (write_le 4 field 0 word) o
unfolding write_word_key
read_word n o field word key h =
    read_le-agrees n _ (write_le 4 field 0 word) o
      (λ i k. get_or-write_le 8 (write_le 4 field 0 word) 4 key i (omega arith))

word_back :
    (field : List ℕ) (word key : ℕ)
    → 12 ≤ length field
    → word < 256 ^ 4
    → get_type (write_word_key field word key) ≡ type_of word
unfolding get_type
word_back field word key h k =
    ap type_of
      (read_word 4 0 field word key (omega arith) ∙ read_le-write_le 4 field 0 word (omega arith) k)

id_back :
    (field : List ℕ) (word key : ℕ)
    → 12 ≤ length field
    → word < 256 ^ 4
    → get_connection_id (write_word_key field word key) ≡ word / 256
unfolding get_connection_id
id_back field word key h k =
    read_word 3 1 field word key (omega arith)
    ∙ unfold write_le in
      read_le-write_le 3 (set field 0 (u8 word)) 1 (word >> 8)
        (omega (arith, length-set field 0 (u8 word))) (omega arith)

key_back :
    (field : List ℕ) (word key : ℕ)
    → 12 ≤ length field
    → key < 256 ^ 8
    → get_key (write_word_key field word key) ≡ key
unfolding get_key write_word_key
key_back field word key h k =
    read_le-write_le 8 (write_le 4 field 0 word) 4 key
      (omega (arith, length-write_le 4 field 0 word)) k

update_word :
    (id : ℕ) → id < 2 ^ 24 → u32 (bit_or (id << 8) c2s_update_source_address_type) ≡ id * 256 + 5
update_word id h = omega (arith, bit_or_disjoint 8 id 5 (omega arith))

update_type : (id : ℕ) → type_of (id * 256 + 5) ≡ c2s_update_source_address
unfolding type_of
update_type id = ground arith

-- In a field of 12 bytes, `GetType` tells the writers apart.
pub get_type_lem :
    (field : List ℕ) (key id : ℕ)
    → 12 ≤ length field
    → id < 2 ^ 24
    → (get_type (write_c2s_connection_request field key) ≡ c2s_connection_request)
      × (get_type (write_s2c_cookie_response field key) ≡ s2c_cookie_response)
      × (get_type (write_p2p_connection_request field key) ≡ peer2peer_connect)
      × (get_type (write_disconnect field key) ≡ disconnect)
      × (get_type (write_s2c_unknown_source_address field) ≡ s2c_unknown_source_address)
      × (get_type (write_c2s_update_source_address field key id) ≡ c2s_update_source_address)
get_type_lem field key id h k =
    let back = λ (word key : ℕ) (small : word < 256 ^ 4). word_back field word key h small in
    (
      back magic_c2s_connection_request key (omega arith) ∙ unfold type_of in refl,
      back magic_s2c_cookie_response key (omega arith) ∙ unfold type_of in refl,
      back magic_p2p_connection_request key (omega arith) ∙ unfold type_of in refl,
      back disconnect_type key (omega arith) ∙ unfold type_of in refl,
      back s2c_unknown_source_address_type 0 (omega arith) ∙ unfold type_of in refl,
      rw (update_word id k) (back (id * 256 + 5) key (omega arith) ∙ update_type id),
    )

-- In a field of 12 bytes, the key and the connection id that were written are read back.
pub get_key_lem :
    (field : List ℕ) (key id : ℕ)
    → 12 ≤ length field
    → key < 2 ^ 64
    → id < 2 ^ 24
    → (get_key (write_c2s_connection_request field key) ≡ key)
      × (get_key (write_p2p_connection_request field key) ≡ key)
      × (get_key (write_disconnect field key) ≡ key)
      × (get_key (write_c2s_update_source_address field key id) ≡ key)
      × (get_connection_id (write_c2s_update_source_address field key id) ≡ id)
get_key_lem field key id h k l = (
  key_back field _ key h (omega arith),
  key_back field _ key h (omega arith),
  key_back field _ key h (omega arith),
  key_back field _ key h (omega arith),
  rw (update_word id l) (id_back field (id * 256 + 5) key h (omega arith) ∙ omega arith),
)
