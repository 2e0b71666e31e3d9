-- ===== src/Originals/Tests.antt =====
-- A packet as it is kept.
use tonk.Common.{◌≡◌, refl, [], ◌∷◌}
use tonk.Serializers
use tonk.Originals.{initialize_packet}

initialize_packet-bytes :
    (initialize_packet record { packet_num = 9; content = 1 ∷ 2 ∷ [] }).buffer ≡ 2 ∷ 1 ∷ 2 ∷ []
unfolding initialize_packet Serializers.PacketLength.serialize_header
initialize_packet-bytes = refl
