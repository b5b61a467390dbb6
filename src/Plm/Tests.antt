-- ===== src/Plm/Tests.antt =====
-- The properties of the modem's frames at sample packets.
use insteonrf.Common.{
  some, [], ◌∷◌, ok, ◌≡◌, refl, true, false, take, slice, length, arith, ◌↔◌, ◌%◌, ◌/◌, ◌≤◌,
}
use insteonrf.Packet.Samples.{on_packet, on_octets, on_frame}
use insteonrf.Packet.Fields.{Packet, of_data, crc_ok, hops_ok, is_false, crc_index, extended}
use insteonrf.Packet.Crc.{first}
use insteonrf.Plm.{to_plm_bytes, from_plm_bytes, message_key, need}
use insteonrf.Plm.Gate.{to_plm_safe}
use insteonrf.Plm.RoundTrip.{from_plm-to_plm}
use insteonrf.Plm.Key.{message_key_iff}

on_framed : to_plm_bytes on_packet true ≡ ok on_frame
unfolding to_plm_bytes insteonrf.Plm.plm_gate extended hops_ok crc_ok insteonrf.Packet.Fields.crc
    insteonrf.Packet.Fields.calc_crc insteonrf.Packet.Crc.pkt_crc insteonrf.Packet.Crc.crc_loop
    insteonrf.Packet.Crc.crc_mix insteonrf.Packet.Address.from_wire insteonrf.Plm.plm_frame
    insteonrf.Packet.Fields.is_group_broadcast insteonrf.Packet.Address.bytes
on_framed = refl

to_plm_safe_example :
    (crc_ok on_packet ≡ some true)
    × (hops_ok on_packet ≡ true)
    × (is_false on_packet.index_ok ≡ false)
    × (need on_packet ≤ length on_packet.bytes)
to_plm_safe_example = to_plm_safe on_packet on_framed

from_plm-to_plm_example :
    (q : Packet) × (from_plm_bytes on_frame ≡ ok q)
    × (take (crc_index q) q.bytes ≡ take (crc_index on_packet) on_packet.bytes)
    × (message_key q ≡ message_key on_packet)
    × (crc_ok q ≡ some true)
from_plm-to_plm_example = from_plm-to_plm on_packet on_octets on_framed

-- `on_packet` after one hop
abbrev hopped_packet : Packet
hopped_packet = of_data (11 ∷ 102 ∷ 85 ∷ 68 ∷ 60 ∷ 43 ∷ 26 ∷ 17 ∷ 255 ∷ 15 ∷ 0 ∷ 0 ∷ 170 ∷ [])

long_on : need on_packet ≤ length on_packet.bytes
unfolding extended
long_on = omega arith

long_hopped : need hopped_packet ≤ length hopped_packet.bytes
unfolding extended
long_hopped = omega arith

message_key_iff_example : (message_key on_packet ≡ message_key hopped_packet) ↔ (
    (first on_packet.bytes / 16 ≡ first hopped_packet.bytes / 16)
    × (first on_packet.bytes % 4 ≡ first hopped_packet.bytes % 4)
    × (slice 1 (crc_index on_packet) on_packet.bytes
        ≡ slice 1 (crc_index hopped_packet) hopped_packet.bytes))
message_key_iff_example = message_key_iff on_packet hopped_packet long_on long_hopped
