-- ===== src/Fusion.antt =====
-- insteonrf/fusion.py: the sightings of receivers, the fused event, and the distance between two
-- strings of bits. Times are numbers of microseconds, and a sighting has one (`when` of a sighting
-- without any reads the clock anew at each use). A receiver's name is the list of its characters.
-- A signal strength counts from -999 dBm, the value that the source puts for a missing one, in a
-- unit that all receivers share. The copies are those of receivers with hard bits: no confidence (`soft`), no signal-to-noise ratio.
mod Tests
pub mod Hamming
pub mod Combine
pub mod Bucket
pub mod Collect
pub mod Emit
pub mod Sound
pub mod Verified
pub mod Nearest
pub mod Counts
pub mod Capture
pub mod Skew
use insteonrf.Manchester.{Bits, cell_beq}
use insteonrf.Common.{
  [], ◌∷◌, ◌+◌, none, some, true, false, if◌then◌else◌, ltb, length, min, ℕ, Bool, Option, List,
  list_eq,
}
use insteonrf.Common.Dict.{Dict}
use insteonrf.Packet.Fields.{Packet}

abbrev pub default_window : ℕ
default_window = 600_000

abbrev pub default_extend : ℕ
default_extend = 200_000

abbrev pub default_max_window : ℕ
default_max_window = 2_000_000

abbrev pub default_repeat_memory : ℕ
default_repeat_memory = 60_000_000

abbrev pub max_combine_flips : ℕ
max_combine_flips = 2

abbrev pub max_disagreements : ℕ
max_disagreements = 12

pub record Sighting : Type 0 where
  pub packet : Packet
  pub receiver : List ℕ
  pub rssi : Option ℕ
  pub at : ℕ
  pub bits : Bits

-- `Sighting(packet, receiver, rssi_dbm, timestamp, bits)`, with `__post_init__`
abbrev pub sighting : Packet → List ℕ → Option ℕ → ℕ → Bits → Sighting
sighting p receiver rssi at [] = record {
  packet = p;
  receiver = receiver;
  rssi = rssi;
  at = at;
  bits = p.bits;
}
sighting p receiver rssi at (b ∷ bits) = record {
  packet = p;
  receiver = receiver;
  rssi = rssi;
  at = at;
  bits = b ∷ bits;
}

pub record ReceiverView : Type 0 where
  pub copies : ℕ
  pub crc_ok : Bool
  pub rssi : Option ℕ
  pub best_hops_left : ℕ

-- `ReceiverView()`: the source starts `best_hops_left` at -1 and takes the maximum with a copy
abbrev pub new_view : ReceiverView
new_view = record { copies = 0; crc_ok = false; rssi = none; best_hops_left = 0 }

pub record FusedEvent : Type 0 where
  pub key : List ℕ
  pub packet : Packet
  pub first_seen : ℕ
  pub last_seen : ℕ
  pub hops_left_min : ℕ
  pub hops_left_max : ℕ
  pub receivers : Dict (List ℕ) ReceiverView
  pub closest : Option (List ℕ)
  pub combined : Bool
  pub combined_from : ℕ
  pub repeat_index : ℕ
  pub plm_saw_it : Option Bool

abbrev pub min_compare_bits : ℕ
min_compare_bits = 200

-- `limit is not None and d > limit`
abbrev pub exceeds : Option ℕ → ℕ → Bool
exceeds none d = false
exceeds (some limit) d = ltb limit d

-- the loop of `hamming`, from the distance `d`
unfoldable pub hamming_loop : Option ℕ → ℕ → Bits → Bits → ℕ
unfolding cell_beq
hamming_loop limit d [] b = d
hamming_loop limit d (x ∷ a) [] = d
hamming_loop limit d (x ∷ a) (y ∷ b) =
    let same = hamming_loop limit d a b in
    let further = hamming_loop limit (d + 1) a b in
    if cell_beq x y then same else if exceeds limit (d + 1) then d + 1 else further

unfoldable pub hamming : Bits → Bits → Option ℕ → Option ℕ
hamming a b limit =
    if ltb (min (length a) (length b)) min_compare_bits
    then none
    else some (hamming_loop limit 0 a b)
