-- ===== src/Serializers/Metadata.antt =====
-- SiameseSerializers.h and SiameseCommon.h: the metadata at the end of a recovery packet.
use tonk.Common.{
  ℕ, ◌+◌, ◌-◌, Option, none, some, List, [], ◌∷◌, ◌++◌, length, take, if◌then◌else◌, ltb, leb,
}
use tonk.Common.Bits.{u8}
use tonk.Serializers.Bytes.{at_end}
use tonk.Serializers.PacketNum
use tonk.Serializers.PacketCount

-- `RecoveryMetadata`
pub record RecoveryMetadata : Type 0 where
  pub row : ℕ
  pub column_start : ℕ
  pub sum_count : ℕ
  pub ldpc_count : ℕ

-- `SerializeFooter_RecoveryMetadata`
unfoldable pub serialize_footer : RecoveryMetadata → List ℕ
serialize_footer m =
    let sums =
      if ltb 1 m.sum_count then u8 m.row ∷ PacketCount.serialize_footer m.ldpc_count else [] in
    sums
    ++ (PacketNum.serialize_footer m.column_start ++ PacketCount.serialize_footer (m.sum_count - 1))

infixl 5 ◌>>=◌
abbrev pub ◌>>=◌ {ℓ κ} : {A : Type ℓ} {B : Type κ} → Option A → (A → Option B) → Option B
none >>= f = none
some a >>= f = f a

-- Each field is read from the end of what the fields before it left: `rest space` is the buffer of
-- `space` bytes.
unfoldable pub read_row : List ℕ → ℕ → ℕ → ℕ → ℕ → Option (ℕ × RecoveryMetadata)
read_row buffer space sum_count column_start ldpc_count =
    if ltb sum_count ldpc_count
    then none
    else if leb 1 space
    then some (
      length buffer - (space - 1),
      record {
        row = at_end (take space buffer) 0;
        column_start = column_start;
        sum_count = sum_count;
        ldpc_count = ldpc_count;
      },
    )
    else none

unfoldable pub read_sums : List ℕ → ℕ → ℕ → ℕ → Option (ℕ × RecoveryMetadata)
read_sums buffer space sum_count column_start =
    if leb sum_count 1
    then some (
      length buffer - space,
      record { row = 0; column_start = column_start; sum_count = sum_count; ldpc_count = 1 },
    )
    else (PacketCount.deserialize_footer (take space buffer) >>= λ f.
        read_row buffer (space - f.0) sum_count column_start f.1)

-- `DeserializeFooter_RecoveryMetadata`
unfoldable pub deserialize_footer : List ℕ → Option (ℕ × RecoveryMetadata)
deserialize_footer buffer = PacketCount.deserialize_footer buffer >>= λ sums.
    (let space = length buffer - sums.0 in
      PacketNum.deserialize_footer (take space buffer) >>= λ start.
      read_sums buffer (space - start.0) (sums.1 + 1) start.1)
