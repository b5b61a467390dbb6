-- ===== src/Cli/Tests.antt =====
-- The properties of the command line at sample arguments.
use insteonrf.Common.{
  ℕ, ◌-◌, ltb, true, false, if◌then◌else◌, Option, none, some, List, [], ◌∷◌, ◌++◌, take, drop, map,
  list_beq, Result, ok, raise, ◌≡◌, refl,
}
use insteonrf.Manchester.{Bits}
use insteonrf.Packet.Samples.{on_packet, narrow}
use insteonrf.Packet.Fields.{Packet, crc_ok, crc_index}
use insteonrf.Packet.Frames.{to_bits, parse_bits}
use insteonrf.Packet.Address.Text.RoundTrip.{hex_value}
use insteonrf.Recover.At.{mem_bytes, recover_packets}
use insteonrf.Cli.Build.{Args, read_words, without_colons, build_from_args}
use insteonrf.Cli.Build.Sealed.{IsFlagged, build_from_args-raw}
use insteonrf.Cli.Decode.{packets_of, key, decode_limits, decode}
use insteonrf.Cli.Decode.Found.{AllNew, Among, is_shown, decode-found}

-- what `int(text, 16)` reads of upper-case digits
abbrev digit_of : ℕ → ℕ
digit_of c = if ltb c 0x3A then c - 0x30 else c - 0x37

abbrev read_hex : List ℕ → Option ℕ
read_hex text = some (hex_value 0 (map digit_of text))

-- raw bytes of a query, to be sent as an acknowledgement with one hop left
abbrev raw_args : Args
raw_args = record {
  raw = true;
  words =
      (b'0' ∷ b'F' ∷ [])
      ∷ (b'6' ∷ b'6' ∷ [])
      ∷ (b'5' ∷ b'5' ∷ [])
      ∷ (b'4' ∷ b'4' ∷ [])
      ∷ (b':' ∷ [])
      ∷ (b'3' ∷ b'C' ∷ [])
      ∷ (b'2' ∷ b'B' ∷ [])
      ∷ (b'1' ∷ b'A' ∷ [])
      ∷ (b'1' ∷ b'1' ∷ [])
      ∷ (b'F' ∷ b'F' ∷ [])
      ∷ [];
  src = none;
  dst = none;
  group = none;
  extended = false;
  broadcast = false;
  ack = some true;
  max_hops = none;
  hops_left = some 1;
  pad = false;
}

abbrev raw_octets : List ℕ
raw_octets = 102 ∷ 85 ∷ 68 ∷ 60 ∷ 43 ∷ 26 ∷ 17 ∷ 255 ∷ []

raw_read : read_words read_hex (without_colons raw_args.words) ≡ ok (15 ∷ raw_octets)
unfolding read_words without_colons hex_value list_beq
raw_read = refl

build_from_args-raw_example :
    (p : Packet) × (build_from_args read_hex raw_args ≡ ok p)
    × (crc_ok p ≡ some true)
    × (drop 1 (take (crc_index p) p.bytes) ≡ raw_octets)
    × IsFlagged raw_args 15 p
unfolding insteonrf.Packet.Address.any_wide
build_from_args-raw_example =
    build_from_args-raw read_hex raw_args 15 raw_octets refl raw_read
      (narrow (15 ∷ raw_octets) refl) refl

abbrev line_of : Result Bits → Bits
line_of (ok bits) = bits
line_of (raise e) = []

-- the line of a packet
line : Bits
line = line_of (to_bits on_packet true)

decode-found_example :
    let recs = packets_of (recover_packets decode_limits line (some 1_000_000) none) in
    let found = parse_bits line (some 1_000_000) 4 in
    let out = decode line (some 1_000_000) true false none in
    ((rest : List Packet) × (out ≡ recs ++ rest)
      × AllNew (map key recs) rest
      × ((p : Packet) → Among p rest → Among p found × (is_shown false p ≡ true)))
    × ((p : Packet)
        → Among p found
        → is_shown false p ≡ true
        → mem_bytes (key p) (map key out) ≡ true)
decode-found_example = decode-found line (some 1_000_000) false none
