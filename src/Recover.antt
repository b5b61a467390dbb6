-- ===== src/Recover.antt =====
-- insteonrf/recover.py: the logical bits of a packet's frames, their checks, and the search for few
-- wrong bits, for hard bits, in lines of '0' and '1'. A symbol's soft value is then 1 for '1' and
-- -1 for '0', so that the confidence of a pair is 0 where its two symbols agree and 2 where they
-- differ; a median of confidences is kept doubled.
mod Tests
pub mod At
pub mod Flips
pub mod Checked
use insteonrf.Common.{
  ℕ, zero, suc, ◌+◌, ◌-◌, ◌*◌, ◌^◌, ◌==◌, ltb, leb, min, Bool, true, false, not, ◌&&◌, ◌||◌,
  if◌then◌else◌, Option, none, some, List, [], ◌∷◌, ◌++◌, length, take, drop, slice, get_or,
  get_elem?,
}
use insteonrf.Manchester.{Bits, Cell, cell_beq}
use insteonrf.Packet.Crc.{pkt_crc, ext_crc, has_flag, flag_ext}
use insteonrf.Packet.Fields.{Packet, hops_ok}
use insteonrf.Packet.Frames.{frame_bits, marker_offset, expected_indexes}
use insteonrf.Fusion.Combine.{combinations}

abbrev pub frame_index_bits : ℕ
frame_index_bits = 5

abbrev pub frame_data_bits : ℕ
frame_data_bits = 8

abbrev pub frame_logical_bits : ℕ
frame_logical_bits = 13

pub record Recovered : Type 0 where
  pub packet : Packet
  pub corrected : ℕ
  pub index_errors : ℕ
  pub manchester_errors : ℕ

-- a logical bit of a pair, by the sign of `s1 - s0`, and whether the pair is legal
pub record Logical : Type 0 where
  pub value : Bool
  pub sure : Bool

abbrev pub logical_of : Cell → Cell → Logical
logical_of a b = record {
  value = not (cell_beq a Cell.one) && cell_beq b Cell.one;
  sure =
      not (cell_beq a Cell.one && cell_beq b Cell.one)
      && (cell_beq a Cell.one || cell_beq b Cell.one);
}

-- `_logical`, on the symbols from `start` on
unfoldable pub logical : ℕ → Bits → List Logical
logical zero bits = []
logical (suc count) [] = []
logical (suc count) (a ∷ []) = []
logical (suc count) (a ∷ b ∷ bits) = logical_of a b ∷ logical count bits

-- a number from bits, the least first
unfoldable pub number_of : List Logical → ℕ
number_of [] = 0
number_of (l ∷ ls) = let rest = number_of ls in if l.value then 1 + 2 * rest else 2 * rest

-- `_bytes_from`
unfoldable pub bytes_from : ℕ → List Logical → List ℕ
bytes_from zero ls = []
bytes_from (suc nframes) ls =
    number_of (slice frame_index_bits frame_logical_bits ls)
    ∷ bytes_from nframes (drop frame_logical_bits ls)

-- `_index_errors`, against the counters that are wanted
unfoldable pub index_errors_in : ℕ → List ℕ → List Logical → ℕ
index_errors_in zero want ls = 0
index_errors_in (suc nframes) [] ls = 0
index_errors_in (suc nframes) (n ∷ want) ls =
    let rest = index_errors_in nframes want (drop frame_logical_bits ls) in
    if number_of (take frame_index_bits ls) == n then rest else rest + 1

unfoldable pub index_errors : List Logical → ℕ → Bool → ℕ
index_errors ls nframes extended = index_errors_in nframes (expected_indexes extended) ls

-- `_crc_ok`
unfoldable pub crc_checks : List ℕ → Bool → Bool
crc_checks bytes extended =
    if extended
    then if leb (length bytes) 23
      then false
      else get_or bytes 23 0 == pkt_crc bytes && get_or bytes 22 0 == ext_crc bytes
    else if leb (length bytes) 9
    then false
    else get_or bytes 9 0 == pkt_crc bytes

-- `data_positions`: the bits after the counter, in each of the frames
unfoldable pub positions_from : ℕ → ℕ → List ℕ
positions_from zero base = []
positions_from (suc count) base = base ∷ positions_from count (base + 1)

unfoldable pub data_positions : ℕ → ℕ → List ℕ
data_positions zero base = []
data_positions (suc nframes) base =
    positions_from frame_data_bits (base + frame_index_bits)
    ++ data_positions nframes (base + frame_logical_bits)

-- `conf[p]`
abbrev pub unsure : Logical
unsure = record { value = false; sure = false }

abbrev pub confidence : List Logical → ℕ → ℕ
confidence ls p = if (get_or ls p unsure).sure then 2 else 0

-- how many positions have no confidence
unfoldable pub doubtful : List Logical → List ℕ → ℕ
doubtful ls [] = 0
doubtful ls (p ∷ ps) = let rest = doubtful ls ps in if confidence ls p == 0 then rest + 1 else rest

-- twice the median, and twice 1.0 where the median is 0
unfoldable pub double_median : List Logical → List ℕ → ℕ
double_median ls ps =
    let none_sure = doubtful ls ps in
    if ltb (length ps) (none_sure + none_sure)
    then 2
    else if length ps == none_sure + none_sure
    then 2
    else 4

-- `conf[p] <= SUSPECT_RATIO * median`, both sides four times
unfoldable pub suspects_in : ℕ → List Logical → List ℕ → List ℕ
suspects_in median ls [] = []
suspects_in median ls (p ∷ ps) =
    let rest = suspects_in median ls ps in
    if leb (4 * confidence ls p) median then p ∷ rest else rest

-- `trial[p] ^= 1`
abbrev pub toggle : ℕ → List Logical → List Logical
toggle p [] = []
toggle zero (l ∷ ls) = record l { value = not l.value } ∷ ls
toggle (suc p) (l ∷ ls) = l ∷ toggle p ls

unfoldable pub toggle_all : List ℕ → List Logical → List Logical
toggle_all [] ls = ls
toggle_all (p ∷ ps) ls = toggle_all ps (toggle p ls)

-- the loop over the sets of `k` positions
unfoldable pub repair_sets : List (List ℕ) → ℕ → List Logical → ℕ → Bool → Option (List ℕ × ℕ)
repair_sets [] k ls nframes extended = none
repair_sets (combo ∷ more) k ls nframes extended =
    let trial = toggle_all combo ls in
    let rest = repair_sets more k ls nframes extended in
    if crc_checks (bytes_from nframes trial) extended && index_errors trial nframes extended == 0
    then some (bytes_from nframes trial, k)
    else rest

abbrev pub or_next : Option (List ℕ × ℕ) → Option (List ℕ × ℕ) → Option (List ℕ × ℕ)
or_next none next = next
or_next (some found) next = some found

-- the loop over `k`, from `k` on, for `left` rounds
unfoldable pub repair_loop : ℕ → ℕ → List ℕ → List Logical → ℕ → Bool → Option (List ℕ × ℕ)
repair_loop zero k suspects ls nframes extended = none
repair_loop (suc left) k suspects ls nframes extended =
    or_next (repair_sets (combinations k suspects) k ls nframes extended)
      (repair_loop left (k + 1) suspects ls nframes extended)

-- `_repair`; a stable sort by confidence leaves suspects in place, since all have none
unfoldable pub repair : List Logical → ℕ → Bool → ℕ → ℕ → Option (List ℕ × ℕ)
repair ls nframes extended max_flips candidates =
    let ps = data_positions nframes 0 in
    repair_loop max_flips 1 (take candidates (suspects_in (double_median ls ps) ls ps)) ls nframes
      extended
