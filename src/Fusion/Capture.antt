-- ===== src/Fusion/Capture.antt =====
-- insteonrf/fusion.py, `sightings_from_capture` for hard bits (`soft` is None). A line is given
-- without the white space at its ends; the time of a bit in its capture, `pos / BAUD` seconds, is
-- cut to whole microseconds.
pub mod Credible
pub mod Clean
use insteonrf.Common.{
  ◌⊎◌, ℕ, ◌+◌, ◌*◌, ◌/◌, ◌≤◌, ◌≡◌, refl, sym, ap, ◌∙◌, arith, Bool, true, false, ◌||◌, not,
  if◌then◌else◌, Option, none, some, List, [], ◌∷◌, length, drop, ltb, ok, All, Bool-cases,
  Option-cases, inl, inr,
}
use insteonrf.Manchester.{Bits, invert_bits}
use insteonrf.Packet.Crc.Laws.{IsByte}
use insteonrf.Packet.Fields.{Packet, extended, crc_ok, is_true, is_false}
use insteonrf.Packet.Frames.{find_headers, packet_at, to_bits}
use insteonrf.Packet.Frames.Whole.{others, find_headers-to_bits}
use insteonrf.Recover.{Recovered}
use insteonrf.Recover.At.{Limits, recover_at}
use insteonrf.Recover.Checked.{IsChecked, recover_at-IsChecked}
use insteonrf.Fusion.{Sighting, sighting}

abbrev pub baud : ℕ
baud = 9124

-- RECOVER_MAX_FLIPS and RECOVER_CANDIDATES, with the defaults of `recover_at`
abbrev pub capture_limits : Limits
capture_limits = record { max_flips = 1; candidates = 8; max_index_errors = 1; allow_repair = true }

-- `timestamp + pos / BAUD`
unfoldable pub bit_time : ℕ → ℕ → ℕ
bit_time timestamp pos = timestamp + pos * 1_000_000 / baud

-- the packet of the hard decode, if it is long enough
unfoldable pub hard_packet : Bits → ℕ → ℕ → ℕ → Option Packet
hard_packet bits pos when min_bytes =
    let p = packet_at bits pos (some when) in
    if ltb (length p.bytes) min_bytes then none else some p

-- `pkt is None or pkt.crc_ok is not True or pkt.index_ok is False`
unfoldable pub is_doubtful : Option Packet → Bool
is_doubtful none = true
is_doubtful (some p) = not (is_true (crc_ok p)) || is_false p.index_ok

-- what recovery finds, or else what the hard decode left
abbrev pub recovered_or : Option Recovered → Option Packet → Option Packet
recovered_or (some r) hard = some r.packet
recovered_or none hard = hard

-- the packet of one header
unfoldable pub capture_packet : Bits → ℕ → ℕ → ℕ → Option Packet
capture_packet bits pos when min_bytes =
    let hard = hard_packet bits pos when min_bytes in
    if is_doubtful hard
    then recovered_or (recover_at capture_limits bits pos (some when)) hard
    else hard

-- what a capture is taken with
pub record Source : Type 0 where
  pub receiver : List ℕ
  pub rssi : Option ℕ
  pub timestamp : ℕ
  pub min_bytes : ℕ

abbrev pub cons_sighting : Source → Bits → ℕ → ℕ → Option Packet → List Sighting → List Sighting
cons_sighting src bits pos when none more = more
cons_sighting src bits pos when (some p) more =
    sighting p src.receiver src.rssi when (drop pos bits) ∷ more

-- the loop over the headers
unfoldable pub capture_loop : Source → Bits → List ℕ → List Sighting
capture_loop src bits [] = []
capture_loop src bits (pos ∷ offsets) =
    let when = bit_time src.timestamp pos in
    cons_sighting src bits pos when (capture_packet bits pos when src.min_bytes)
      (capture_loop src bits offsets)

unfoldable pub sightings_from_capture : Source → Bits → List Sighting
sightings_from_capture src capture =
    let found = find_headers capture in capture_loop src found.0 found.1
