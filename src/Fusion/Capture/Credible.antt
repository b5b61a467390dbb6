-- ===== src/Fusion/Capture/Credible.antt =====
-- fusion.py, `sightings_from_capture`: what can be relied on in a sighting.
use insteonrf.Common.{
  ◌⊎◌, ℕ, ◌≤◌, ◌≡◌, refl, sym, ap, ◌∙◌, arith, Bool, true, false, Option, none, some, List, [], ◌∷◌,
  length, drop, ltb, All, Bool-cases, Option-cases, inl, inr,
}
use insteonrf.Manchester.{Bits}
use insteonrf.Packet.Fields.{Packet, crc_ok, is_true, is_false}
use insteonrf.Packet.Frames.{find_headers, packet_at}
use insteonrf.Recover.{Recovered}
use insteonrf.Recover.At.{recover_at}
use insteonrf.Recover.Checked.{IsChecked, recover_at-IsChecked}
use insteonrf.Fusion.{Sighting, sighting}
use insteonrf.Fusion.Capture.{
  capture_limits, bit_time, hard_packet, is_doubtful, capture_packet, Source, cons_sighting,
  capture_loop, sightings_from_capture,
}

-- what is said of a packet of a capture: it is the hard decode at a header, long enough, and either
-- its checks pass or recovery finds nothing; or it is what recovery finds, and passed its checks
pub data IsCredible (bits : Bits) (pos when min_bytes : ℕ) (p : Packet) : Type 0 where
  intact :
      p ≡ packet_at bits pos (some when)
      → min_bytes ≤ length p.bytes
      → crc_ok p ≡ some true
      → is_false p.index_ok ≡ false
      → IsCredible bits pos when min_bytes p
  damaged :
      p ≡ packet_at bits pos (some when)
      → min_bytes ≤ length p.bytes
      → recover_at capture_limits bits pos (some when) ≡ none
      → IsCredible bits pos when min_bytes p
  repaired :
      (r : Recovered)
      → recover_at capture_limits bits pos (some when) ≡ some r
      → p ≡ r.packet
      → IsChecked capture_limits r
      → IsCredible bits pos when min_bytes p

long_enough :
    (min_bytes : ℕ) (p q : Packet)
    → length p.bytes ≡ length q.bytes
    → ltb (length q.bytes) min_bytes ≡ false
    → min_bytes ≤ length p.bytes
long_enough min_bytes p q e h = ground (arith, e, h)

is_true-some : (o : Option Bool) → is_true o ≡ true → o ≡ some true
is_true-some none h = cc
is_true-some (some true) h = refl
is_true-some (some false) h = cc

some_inj : {a b : Packet} → some a ≡ some b → a ≡ b
some_inj h = cc

hard_packet-some :
    (bits : Bits) (pos when min_bytes : ℕ) (p : Packet)
    → hard_packet bits pos when min_bytes ≡ some p
    → (p ≡ packet_at bits pos (some when)) × (min_bytes ≤ length p.bytes)
unfolding hard_packet
hard_packet-some bits pos when min_bytes p =
    let q = packet_at bits pos (some when) in
    elim (Bool-cases (ltb (length q.bytes) min_bytes)) [
      | inl short ↦ rw short (λ e. absurd cc)
      | inr long ↦ rw long (λ e.
          let same = some_inj (sym e) in
          (same, long_enough min_bytes p q (ap (λ x. length x.bytes) same) long))
    ]

certain_lem :
    (p : Packet)
    → is_doubtful (some p) ≡ false
    → (crc_ok p ≡ some true) × (is_false p.index_ok ≡ false)
unfolding is_doubtful
certain_lem p h = (is_true-some (crc_ok p) (ground (arith, h)), ground (arith, h))

capture_packet-IsCredible :
    (bits : Bits) (pos when min_bytes : ℕ) (p : Packet)
    → capture_packet bits pos when min_bytes ≡ some p
    → IsCredible bits pos when min_bytes p
unfolding capture_packet
capture_packet-IsCredible bits pos when min_bytes p =
    let hard = hard_packet bits pos when min_bytes in
    elim (Bool-cases (is_doubtful hard)) [
      | inr sure ↦ rw sure (λ e.
          let (same, long) = hard_packet-some bits pos when min_bytes p e in
          let (crc, counted) = certain_lem p (ap is_doubtful (sym e) ∙ sure) in
          intact same long crc counted)
      | inl doubtful ↦ elim (Option-cases (recover_at capture_limits bits pos (some when))) [
        | inl lost ↦
            rw (doubtful, lost)
              (λ e.
                let (same, long) = hard_packet-some bits pos when min_bytes p e in
                damaged same long lost)
        | inr found ↦
            rw (doubtful, found.1)
              (λ e.
                repaired found.0 found.1 (some_inj (sym e))
                  (recover_at-IsChecked capture_limits bits pos (some when) found.0 found.1).0)
      ]
    ]

-- a number is in a list
abbrev pub Among : ℕ → List ℕ → Type 0
Among n [] = ⊥
Among n (m ∷ ms) = (n ≡ m) ⊎ Among n ms

-- what is said of a sighting: it stands at one of the headers
abbrev pub IsSighted : Source → Bits → List ℕ → Sighting → Type 0
IsSighted src bits offsets s =
    (s.receiver ≡ src.receiver)
    × (s.rssi ≡ src.rssi)
    × ((pos : ℕ) × Among pos offsets
        × (s.at ≡ bit_time src.timestamp pos)
        × IsCredible bits pos (bit_time src.timestamp pos) src.min_bytes s.packet)

pub sighting_lem :
    (p : Packet) (receiver : List ℕ) (rssi : Option ℕ) (at : ℕ) (bits : Bits)
    → ((sighting p receiver rssi at bits).packet ≡ p)
      × ((sighting p receiver rssi at bits).receiver ≡ receiver)
      × ((sighting p receiver rssi at bits).rssi ≡ rssi)
      × ((sighting p receiver rssi at bits).at ≡ at)
sighting_lem p receiver rssi at [] = (refl, refl, refl, refl)
sighting_lem p receiver rssi at (b ∷ bits) = (refl, refl, refl, refl)

cons-IsSighted :
    (src : Source) (bits : Bits) (pos : ℕ) (all : List ℕ) (more : List Sighting)
    → Among pos all
    → All (IsSighted src bits all) more
    → (o : Option Packet)
    → ((p : Packet) → o ≡ some p → IsCredible bits pos (bit_time src.timestamp pos) src.min_bytes p)
    → All (IsSighted src bits all) (cons_sighting src bits pos (bit_time src.timestamp pos) o more)
cons-IsSighted src bits pos all more m h none c = h
cons-IsSighted src bits pos all more m h (some p) c =
    let when = bit_time src.timestamp pos in
    let s = sighting_lem p src.receiver src.rssi when (drop pos bits) in
    ((s.1, s.2, (pos, m, s.3, rw (s.0) (c p refl))), h)

loop-IsSighted :
    (src : Source) (bits : Bits) (all offsets : List ℕ)
    → ((n : ℕ) → Among n offsets → Among n all)
    → All (IsSighted src bits all) (capture_loop src bits offsets)
unfolding capture_loop
loop-IsSighted src bits all [] sub = tt
loop-IsSighted src bits all (pos ∷ offsets) sub =
    let when = bit_time src.timestamp pos in
    cons-IsSighted src bits pos all (capture_loop src bits offsets) (sub pos (inl refl))
      (loop-IsSighted src bits all offsets (λ n m. sub n (inr m)))
      (capture_packet bits pos when src.min_bytes)
      (capture_packet-IsCredible bits pos when src.min_bytes)

-- Every sighting of a capture is that of its receiver, with its signal strength, and stands at a
-- header that the capture has in normal polarity, at the time of that header's first bit. Its packet
-- is the hard decode there, at least as long as was asked for, with a good CRC and no wrong counter
-- or one in which recovery finds nothing; or it is what recovery finds there, checked and within
-- the limits of a capture.
pub sightings-IsSighted :
    (src : Source) (capture : Bits)
    → All
        (IsSighted src (find_headers capture).0 (find_headers capture).1)
        (sightings_from_capture src capture)
unfolding sightings_from_capture
sightings-IsSighted src capture =
    let found = find_headers capture in loop-IsSighted src found.0 found.1 found.1 (λ n m. m)
