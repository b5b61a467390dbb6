-- ===== src/Fusion/Capture/Clean.antt =====
-- fusion.py, `sightings_from_capture` on the line of a packet whose CRC is good.
use insteonrf.Common.{
  ◌++◌, ℕ, ◌+◌, ◌≤◌, ◌≡◌, refl, ap, ◌∙◌, arith, true, false, if◌then◌else◌, Option, some, List, ◌∷◌,
  length, drop, ok, All,
}
use insteonrf.Manchester.{Bits, invert_bits}
use insteonrf.Packet.Crc.Laws.{IsByte}
use insteonrf.Packet.Fields.{crc_index, calc_crc, crc, Packet, extended, crc_ok}
use insteonrf.Packet.Frames.{find_headers, packet_at, to_bits}
use insteonrf.Packet.Frames.Whole.{to_bits-lead, lead, others, find_headers-to_bits}
use insteonrf.Fusion.{Sighting, sighting}
use insteonrf.Packet.Frames.RoundTrip.{packet_at-to_bits}
use insteonrf.Fusion.Capture.Credible.{sighting_lem}
use insteonrf.Fusion.Capture.{
  bit_time, hard_packet, is_doubtful, capture_packet, Source, cons_sighting, capture_loop,
  sightings_from_capture,
}

-- the CRC looks at the bytes alone
crc_ok-bytes : (p q : Packet) → p.bytes ≡ q.bytes → crc_ok p ≡ crc_ok q
unfolding crc_ok crc calc_crc crc_index extended
crc_ok-bytes p q h = ap (λ b. crc_ok (record p { bytes = b })) h

sure_lem :
    (p : Packet) → crc_ok p ≡ some true → p.index_ok ≡ some true → is_doubtful (some p) ≡ false
unfolding is_doubtful
sure_lem p h k = rw (h, k) refl

clean_packet :
    (bits : Bits) (pos when min_bytes : ℕ)
    → min_bytes ≤ length (packet_at bits pos (some when)).bytes
    → is_doubtful (some (packet_at bits pos (some when))) ≡ false
    → capture_packet bits pos when min_bytes ≡ some (packet_at bits pos (some when))
unfolding capture_packet hard_packet
clean_packet bits pos when min_bytes m h = ground (arith, h, m)

long_lem :
    (q p : Packet) (min_bytes : ℕ)
    → q.bytes ≡ p.bytes
    → min_bytes ≤ length p.bytes
    → min_bytes ≤ length q.bytes
long_lem q p min_bytes h m = omega (arith, ap length h)

fresh_lem :
    (bits : Bits) (pos : ℕ) (timestamp : Option ℕ) → (packet_at bits pos timestamp).corrected ≡ 0
unfolding packet_at
fresh_lem bits pos timestamp = refl

sighting_bits :
    (q : Packet) (src : Source) (when : ℕ) (bits : Bits)
    → ((rest : Bits) × (bits ≡ lead ++ rest))
    → (sighting q src.receiver src.rssi when (drop 15 bits)).bits ≡ drop 15 bits
sighting_bits q src when bits (rest, e) = rw e refl

-- the first sighting of a capture whose first header is that of a good packet
pub first_sighting :
    (src : Source) (p : Packet) (capture bits : Bits) (at : ℕ) (offsets : List ℕ)
    → find_headers capture ≡ (bits, at ∷ offsets)
    → src.min_bytes ≤ length p.bytes
    → crc_ok p ≡ some true
    → (packet_at bits at (some (bit_time src.timestamp at))).bytes ≡ p.bytes
    → (packet_at bits at (some (bit_time src.timestamp at))).index_ok ≡ some true
    → let when = bit_time src.timestamp at in
      let q = packet_at bits at (some when) in
      sightings_from_capture src capture
      ≡ sighting q src.receiver src.rssi when (drop at bits) ∷ capture_loop src bits offsets
unfolding sightings_from_capture capture_loop
first_sighting src p capture bits at offsets f m c same counted =
    let when = bit_time src.timestamp at in
    let q = packet_at bits at (some when) in
    let more = capture_loop src bits offsets in
    ap (λ f. capture_loop src f.0 f.1) f
    ∙ ap (λ o. cons_sighting src bits at when o more)
        (clean_packet bits at when src.min_bytes (long_lem q p src.min_bytes same m)
          (sure_lem q (crc_ok-bytes q p same ∙ c) counted))

-- The capture of the line of a packet, in either polarity, has a first sighting with the bytes of the
-- packet, complete, with right counters and nothing repaired, the time of the line's 16th bit
-- and the bits from there on. The packet has the full length of its kind, consists of bytes with a
-- good CRC, and is at least as long as was asked for.
pub sightings-to_bits :
    (src : Source) (p : Packet) {bits : Bits}
    → All IsByte p.bytes
    → length p.bytes ≡ (if extended p then 32 else 13)
    → src.min_bytes ≤ length p.bytes
    → crc_ok p ≡ some true
    → to_bits p false ≡ ok bits
    → (s : Sighting) × (more : List Sighting) × (sightings_from_capture src bits ≡ s ∷ more)
      × (sightings_from_capture src (invert_bits bits) ≡ s ∷ more)
      × (s.packet.bytes ≡ p.bytes)
      × (s.packet.complete ≡ true)
      × (s.packet.index_ok ≡ some true)
      × (s.packet.corrected ≡ 0)
      × (s.receiver ≡ src.receiver)
      × (s.at ≡ src.timestamp + 1644)
      × (s.bits ≡ drop 15 bits)
unfolding bit_time
sightings-to_bits src p {bits} o h m c e =
    let (plain, turned) = find_headers-to_bits p h e in
    let when = bit_time src.timestamp 15 in
    let q = packet_at bits 15 (some when) in
    let (same, whole, counted) = packet_at-to_bits p (some when) o h e in
    let more = capture_loop src bits (others 15 bits) in
    let s = sighting q src.receiver src.rssi when (drop 15 bits) in
    let l = sighting_lem q src.receiver src.rssi when (drop 15 bits) in
    (
      s,
      more,
      first_sighting src p bits bits 15 (others 15 bits) plain m c same counted,
      first_sighting src p (invert_bits bits) bits 15 (others 15 bits) turned m c same counted,
      ap (λ r. r.bytes) l.0 ∙ same,
      ap (λ r. r.complete) l.0 ∙ whole,
      ap (λ r. r.index_ok) l.0 ∙ counted,
      ap (λ r. r.corrected) l.0 ∙ fresh_lem bits 15 (some when),
      l.1,
      l.3,
      sighting_bits q src when bits (to_bits-lead p h e),
    )
