-- ===== src/Radio/Mqtt/Synced.antt =====
-- radio/mqtt.py with packet.py: a radio delivers the bits behind the sync word that it matched, and
-- the header that is put back makes the packet readable.
use insteonrf.Common.{
  ◌<◌, ℕ, ◌%◌, ◌/◌, ◌≤◌, ◌≡◌, refl, sym, ap, ◌∙◌, arith, Bool, true, false, ◌||◌, ◌==◌,
  if◌then◌else◌, none, some, List, [], ◌∷◌, ◌++◌, length, drop, ok, All,
}
use insteonrf.Manchester.{Bits, Cell, zero as low, one as high, cell_beq, invert_bit, invert_bits}
use insteonrf.Packet.Fields.{Packet, extended, crc_ok}
use insteonrf.Packet.Frames.{
  start_header, starts_with, low_bits, to_bits, count_down, expected_indexes, packet_at,
}
use insteonrf.Packet.Frames.Loop.{frames}
use insteonrf.Manchester.RoundTrip.{pairs, invert_bits-invert_bits}
use insteonrf.Packet.Crc.Laws.{IsByte}
use insteonrf.Packet.Frames.Whole.{others, lead, to_bits-lead}
use insteonrf.Packet.Frames.Headless.{headed, to_bits-headed, find_headers-headed, packet_at-headed}
use insteonrf.Fusion.{Sighting, sighting}
use insteonrf.Fusion.Capture.{Source, bit_time, capture_loop, sightings_from_capture}
use insteonrf.Fusion.Capture.Credible.{sighting_lem}
use insteonrf.Fusion.Capture.Clean.{first_sighting}
use insteonrf.Radio.Mqtt.{bits_from_bytes, with_sync_header}

cell_of : Bool → Cell
cell_of b = if b then low else high

-- behind the first counter no header starts, whatever the three lowest bits of the flags are
no_header :
    (a b c : Bool) (more rest after : Bits)
    → let line =
        invert_bits
          (high ∷ ((pairs (cell_of a ∷ cell_of b ∷ cell_of c ∷ more) ++ rest) ++ after)) in
      (starts_with start_header line || starts_with (invert_bits start_header) line) ≡ false
unfolding starts_with cell_beq invert_bits invert_bit pairs cell_of
no_header true true true more rest after = refl
no_header true true false more rest after = refl
no_header true false true more rest after = refl
no_header true false false more rest after = refl
no_header false true true more rest after = refl
no_header false true false more rest after = refl
no_header false false true more rest after = refl
no_header false false false more rest after = refl

no_header-headed :
    (ext : Bool) (bytes : List ℕ) (after : Bits)
    → 0 < length bytes
    → let line = invert_bits (drop 16 (headed ext bytes after)) in
      (starts_with start_header line || starts_with (invert_bits start_header) line) ≡ false
unfolding headed frames expected_indexes low_bits pairs cell_of
no_header-headed ext [] after h = absurd (omega arith)
no_header-headed ext (b ∷ bytes) after h =
    no_header (b % 2 == 0) (b / 2 % 2 == 0) (b / 2 / 2 % 2 == 0) (low_bits 5 (b / 2 / 2 / 2))
      (frames (count_down (if ext then 30 else 11)) bytes) after

rejoined :
    (ext : Bool) (bytes : List ℕ) (after : Bits)
    → 0 < length bytes
    → invert_bits start_header ++ invert_bits (drop 16 (headed ext bytes after))
      ≡ invert_bits (headed ext bytes after)
unfolding headed frames expected_indexes low_bits pairs invert_bits
rejoined ext [] after h = absurd (omega arith)
rejoined ext (b ∷ bytes) after h = refl

-- the header that is put back is the one that was consumed
with_sync_header-headed :
    (ext : Bool) (bytes : List ℕ) (after : Bits)
    → 0 < length bytes
    → with_sync_header (invert_bits (drop 16 (headed ext bytes after))) none
      ≡ invert_bits (headed ext bytes after)
unfolding with_sync_header
with_sync_header-headed ext bytes after h =
    rw (no_header-headed ext bytes after h) (rejoined ext bytes after h)

invert_bits-append : (a b : Bits) → invert_bits (a ++ b) ≡ invert_bits a ++ invert_bits b
unfolding invert_bits
invert_bits-append [] b = refl
invert_bits-append (c ∷ a) b = ap (λ x. invert_bit c ∷ x) (invert_bits-append a b)

delivered_lem :
    (rest noise : Bits)
    → drop 31 (invert_bits (lead ++ rest)) ++ noise
      ≡ invert_bits (drop 16 (drop 15 (lead ++ rest) ++ invert_bits noise))
unfolding invert_bits
delivered_lem rest noise =
    ap (λ x. low ∷ x)
      (sym (
        invert_bits-append rest (invert_bits noise)
        ∙ ap (λ x. invert_bits rest ++ x) (invert_bits-invert_bits noise)))

-- what the radio delivers: the line behind the header, and then noise
delivered :
    (p : Packet) {bits : Bits} (noise : Bits)
    → length p.bytes ≡ (if extended p then 32 else 13)
    → to_bits p false ≡ ok bits
    → drop 31 (invert_bits bits) ++ noise
      ≡ invert_bits (drop 16 (drop 15 bits ++ invert_bits noise))
delivered p {bits} noise h e =
    let (rest, led) = to_bits-lead p h e in
    ap (λ b. drop 31 (invert_bits b) ++ noise) led
    ∙ delivered_lem rest noise
    ∙ ap (λ b. invert_bits (drop 16 (drop 15 b ++ invert_bits noise))) (sym led)

now_lem : (timestamp : ℕ) → bit_time timestamp 0 ≡ timestamp
unfolding bit_time
now_lem timestamp = omega arith

-- A board's radio matches the start header of a packet on the air and delivers what comes behind it,
-- the rest of the line of the packet and then any bits. With the header put back, the capture's
-- first sighting has the bytes of the packet, complete, with right counters, and the time of the
-- capture. The packet has the full length of its kind, consists of bytes with a good CRC, and is
-- at least as long as was asked for; the board names no sync word.
pub synced_capture :
    (src : Source) (p : Packet) {bits : Bits} (raw : List ℕ) (noise : Bits)
    → All IsByte p.bytes
    → length p.bytes ≡ (if extended p then 32 else 13)
    → src.min_bytes ≤ length p.bytes
    → crc_ok p ≡ some true
    → to_bits p false ≡ ok bits
    → bits_from_bytes raw ≡ drop 31 (invert_bits bits) ++ noise
    → (s : Sighting) × (more : List Sighting) × (sightings_from_capture src
          (with_sync_header (bits_from_bytes raw) none)
        ≡ s ∷ more)
      × (s.packet.bytes ≡ p.bytes)
      × (s.packet.complete ≡ true)
      × (s.packet.index_ok ≡ some true)
      × (s.receiver ≡ src.receiver)
      × (s.at ≡ src.timestamp)
synced_capture src p {bits} raw noise o h m c e d =
    let (after, line) = to_bits-headed p (invert_bits noise) h e in
    let whole = headed (extended p) p.bytes after in
    let some_bytes : 0 < length p.bytes = ground (arith, h) in
    let when = bit_time src.timestamp 0 in
    let q = packet_at whole 0 (some when) in
    let (same, ended, counted) = packet_at-headed p after (some when) o h in
    let back : with_sync_header (bits_from_bytes raw) none ≡ invert_bits whole =
      ap (λ b. with_sync_header b none)
        (d ∙ delivered p noise h e ∙ ap (λ b. invert_bits (drop 16 b)) line)
      ∙ with_sync_header-headed (extended p) p.bytes after some_bytes in
    let l = sighting_lem q src.receiver src.rssi when whole in
    (
      sighting q src.receiver src.rssi when whole,
      capture_loop src whole (others 0 whole),
      ap (sightings_from_capture src) back
          ∙ first_sighting src p (invert_bits whole) whole 0 (others 0 whole)
              (find_headers-headed (extended p) p.bytes after some_bytes) m c same counted,
      ap (λ r. r.bytes) l.0 ∙ same,
      ap (λ r. r.complete) l.0 ∙ ended,
      ap (λ r. r.index_ok) l.0 ∙ counted,
      l.1,
      l.3 ∙ now_lem src.timestamp,
    )
