-- ===== src/Originals/Loading.antt =====
-- SiameseCommon.cpp and SiameseEncoder.cpp: what is loaded from a packet that was initialized.
use tonk.Common.{ℕ, ◌<◌, ◌≡◌, ap, length, length-append, drop-append, arith}
use tonk.Serializers.PacketLength.{serialize_header}
use tonk.Originals.{SiamesePacket, initialize_packet, load_original}

pub load_original-initialize_packet :
    (packet : SiamesePacket) → load_original (initialize_packet packet) ≡ packet
unfolding load_original initialize_packet
load_original-initialize_packet packet =
    let header = serialize_header (length packet.content) in
    ap (λ bytes. record { packet_num = packet.packet_num; content = bytes })
      (drop-append header packet.content)

header-nonempty : (n : ℕ) → 0 < length (serialize_header n)
unfolding serialize_header
header-nonempty n = ground arith

-- The buffer of a packet in use is never empty, which is how an unused one is told.
pub initialize_packet-nonempty :
    (packet : SiamesePacket) → 0 < length (initialize_packet packet).buffer
unfolding initialize_packet
initialize_packet-nonempty packet =
    let header = serialize_header (length packet.content) in
    omega (arith, length-append header packet.content, header-nonempty (length packet.content))
