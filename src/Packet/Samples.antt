-- ===== src/Packet/Samples.antt =====
-- Packets for the tests, built field by field and byte by byte.
use insteonrf.Packet.Crc.Laws.{IsByte}
use insteonrf.Manchester.{Bits}
use insteonrf.Packet.Frames.{to_bits}
use insteonrf.Packet.Frames.RoundTrip.{decode_frames-to_bits}
use insteonrf.Packet.Crc.{pkt_crc}
use insteonrf.Common.{
  length, if◌then◌else◌, arith, All, ℕ, some, List, [], ◌∷◌, ok, ◌≡◌, refl, true, false,
}
use insteonrf.Packet.Address.{any_wide, Address}
use insteonrf.Packet.Build.{Fields, defaults, build}
use insteonrf.Packet.Fields.{Packet, of_data, extended, crc_ok, crc, calc_crc, crc_index}

abbrev pub hub : Address
hub = record { value = 0x1A2B3C }

abbrev pub lamp : Address
lamp = record { value = 0x445566 }

abbrev pub on_fields : Fields
on_fields = record (defaults hub) { dst = some lamp; cmd1 = 0x11; cmd2 = 0xFF }

abbrev pub scene_fields : Fields
scene_fields = record (defaults lamp) { group = some 5; bcast = true; cmd1 = 0x11 }

abbrev pub set_fields : Fields
set_fields = record (defaults hub) { dst = some lamp; cmd1 = 0x2E; ext_data = 1 ∷ 2 ∷ 3 ∷ [] }

abbrev pub on_packet : Packet
on_packet = of_data (15 ∷ 102 ∷ 85 ∷ 68 ∷ 60 ∷ 43 ∷ 26 ∷ 17 ∷ 255 ∷ 203 ∷ 0 ∷ 0 ∷ 170 ∷ [])

abbrev pub scene_packet : Packet
scene_packet = of_data (207 ∷ 102 ∷ 85 ∷ 68 ∷ 5 ∷ 0 ∷ 0 ∷ 17 ∷ 0 ∷ 188 ∷ 0 ∷ 0 ∷ 170 ∷ [])

-- the lamp's answer to `on_packet`
abbrev pub ack_packet : Packet
ack_packet = of_data (47 ∷ 60 ∷ 43 ∷ 26 ∷ 102 ∷ 85 ∷ 68 ∷ 17 ∷ 255 ∷ 11 ∷ 0 ∷ 0 ∷ 170 ∷ [])

-- another query of the same lamp
abbrev pub status_packet : Packet
status_packet = of_data (15 ∷ 102 ∷ 85 ∷ 68 ∷ 60 ∷ 43 ∷ 26 ∷ 25 ∷ 0 ∷ 44 ∷ 0 ∷ 0 ∷ 170 ∷ [])

-- the modem's frame for `on_packet`
abbrev pub on_frame : List ℕ
on_frame = 2 ∷ 80 ∷ 26 ∷ 43 ∷ 60 ∷ 68 ∷ 85 ∷ 102 ∷ 15 ∷ 17 ∷ 255 ∷ []

pub narrow : (bytes : List ℕ) → any_wide bytes ≡ false → All IsByte bytes
unfolding any_wide
narrow [] h = tt
narrow (b ∷ bytes) h = (ground (arith, h), narrow bytes (ground (arith, h)))

pub on_octets : All IsByte on_packet.bytes
unfolding any_wide
on_octets = narrow on_packet.bytes refl

pub on_built : build on_fields ≡ ok on_packet
unfolding build insteonrf.Packet.Build.build_data insteonrf.Packet.Build.add_pad
    insteonrf.Packet.Build.add_crc insteonrf.Packet.Build.add_ext insteonrf.Packet.Build.build_head
    insteonrf.Packet.Address.wire insteonrf.Packet.Crc.pkt_crc insteonrf.Packet.Crc.crc_loop
    insteonrf.Packet.Crc.crc_mix
on_built = refl

pub scene_built : build scene_fields ≡ ok scene_packet
unfolding build insteonrf.Packet.Build.build_data insteonrf.Packet.Build.add_pad
    insteonrf.Packet.Build.add_crc insteonrf.Packet.Build.add_ext insteonrf.Packet.Build.build_head
    insteonrf.Packet.Address.wire insteonrf.Packet.Crc.pkt_crc insteonrf.Packet.Crc.crc_loop
    insteonrf.Packet.Crc.crc_mix
scene_built = refl

pub on_length : length on_packet.bytes ≡ (if extended on_packet then 32 else 13)
unfolding extended
on_length = refl

-- the line of `on_packet`, and its bits
pub on_line : (line : Bits) × (to_bits on_packet false ≡ ok line)
on_line = let made = decode_frames-to_bits on_packet on_octets on_length in (made.0, made.1)

pub on_crc : crc_ok on_packet ≡ some true
unfolding crc_ok crc calc_crc crc_index extended pkt_crc insteonrf.Packet.Crc.crc_loop
    insteonrf.Packet.Crc.crc_mix
on_crc = refl
