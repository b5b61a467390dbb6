-- ===== src/Packet/Tests.antt =====
-- The properties of the packet codec at sample packets.
use insteonrf.Manchester.{invert_bits}
use insteonrf.Packet.Frames.{
  decode_frames, parse_bits, decode_loop, header_loop, find_first, start_header,
}
use insteonrf.Packet.Frames.Whole.{parse_bits-to_bits}
use insteonrf.Packet.Frames.Parsed.{IsParsed, parse_bits-IsParsed, parse_fuel}
use insteonrf.Packet.Fields.{Packet, crc_ok, valid, ext_crc_ok}
use insteonrf.Packet.Samples.{
  narrow, on_packet, on_fields, on_built, on_octets, on_length, on_line, hub, lamp,
}
use insteonrf.Packet.Crc.Laws.{IsByte, shift_loop, pkt_crc_one_byte, pkt_crc-shift_loop}
use insteonrf.Packet.Address.{any_wide, address_beq}
use insteonrf.Packet.Crc.{pkt_crc}
use insteonrf.Packet.Build.{is_extended}
use insteonrf.Packet.Address.Text.{hex_digit, show, of_text, text_beq}
use insteonrf.Packet.Address.Text.RoundTrip.{hex_value, ReadsHex, of_text-show}
use mathlib.Core.Path.{ap₂}
use insteonrf.Common.{
  ◌-◌, map, ltb, ap, Option, drop, List, All, ◌<◌, ◌+◌, if◌then◌else◌, length, arith, ℕ, some, none,
  [], ◌∷◌, ok, ◌≡◌, refl, true, false,
}
use insteonrf.Packet.Flags.{direct_ack, Flags}
use insteonrf.Packet.Build.Laws.{build-valid}

abbrev command : ℕ
command = 17

pkt_crc_one_byte_example : command ≡ 17
pkt_crc_one_byte_example =
    pkt_crc_one_byte (15 ∷ 102 ∷ 85 ∷ 68 ∷ 60 ∷ 43 ∷ 26 ∷ []) command 17
      (255 ∷ 203 ∷ 0 ∷ 0 ∷ 170 ∷ []) on_octets (omega arith) refl (omega arith) refl

pkt_crc-shift_loop_example :
    pkt_crc on_packet.bytes ≡ shift_loop 0 (15 ∷ 102 ∷ 85 ∷ 68 ∷ 60 ∷ 43 ∷ 26 ∷ 17 ∷ 255 ∷ [])
pkt_crc-shift_loop_example = pkt_crc-shift_loop on_packet.bytes on_octets

build-valid_example :
    (crc_ok on_packet ≡ some true)
    × (ext_crc_ok on_packet ≡ (if is_extended on_fields then some true else none))
    × (valid on_packet ≡ true)
build-valid_example = build-valid on_fields on_built refl

abbrev ack_flags : Flags
ack_flags = record { msg_type = direct_ack; extended = false; hops_left = 2; max_hops = 3 }

abbrev head : List ℕ
head = 15 ∷ 102 ∷ 85 ∷ 68 ∷ 60 ∷ 43 ∷ 26 ∷ 17 ∷ 255 ∷ []

head_octets : All IsByte head
unfolding any_wide
head_octets = narrow head refl

parse_bits-IsParsed_example : All (IsParsed 4) (parse_bits on_line.0 none 4)
parse_bits-IsParsed_example = parse_bits-IsParsed on_line.0 none 4

parse_fuel_example :
    (decode_loop (length (drop 20 on_line.0) + 1) (drop 20 on_line.0) ≡ decode_frames on_line.0 20)
    × (header_loop (length on_line.0 + 1 + 1) on_line.0 (find_first start_header on_line.0)
        ≡ header_loop (length on_line.0 + 1) on_line.0 (find_first start_header on_line.0))
parse_fuel_example = parse_fuel on_line.0 20 1

parse_bits-to_bits_example :
    (q : Packet) × (more : List Packet) × (parse_bits on_line.0 none 4 ≡ q ∷ more)
    × (parse_bits (invert_bits on_line.0) none 4 ≡ q ∷ more)
    × (q.bytes ≡ on_packet.bytes)
    × (q.complete ≡ true)
    × (q.index_ok ≡ some true)
    × (q.timestamp ≡ none)
parse_bits-to_bits_example =
    parse_bits-to_bits on_packet none 4 on_octets on_length (omega arith) on_line.1

-- what `int(text, 16)` reads of upper-case digits
abbrev digit_of : ℕ → ℕ
digit_of c = if ltb c 0x3A then c - 0x30 else c - 0x37

abbrev read_hex : List ℕ → Option ℕ
read_hex text = some (hex_value 0 (map digit_of text))

digit_back : (d : ℕ) → d < 16 → digit_of (hex_digit d) ≡ d
unfolding hex_digit
digit_back d h = ground arith

digits_back : (ds : List ℕ) → All (λ d. d < 16) ds → map digit_of (map hex_digit ds) ≡ ds
digits_back [] h = refl
digits_back (d ∷ ds) h = ap₂ ◌∷◌ (digit_back d h.0) (digits_back ds h.1)

read_hex-ReadsHex : ReadsHex read_hex
unfolding ReadsHex
read_hex-ReadsHex ds small some_digits = ap (λ t. some (hex_value 0 t)) (digits_back ds small)

of_text-show_example :
    (of_text read_hex (show hub) ≡ ok hub)
    × (text_beq read_hex lamp (show hub) ≡ address_beq lamp hub)
of_text-show_example = of_text-show read_hex hub lamp read_hex-ReadsHex (omega arith)
