-- ===== src/Fusion/Combine.antt =====
-- fusion.py: `_vote`, `_accept` and `combine`, for copies of hard bits.
use insteonrf.Common.{
  ℕ, zero, suc, ◌+◌, ltb, Bool, not, ◌&&◌, if◌then◌else◌, Option, none, some, List, [], ◌∷◌, ◌++◌,
  length, max, map,
}
use insteonrf.Manchester.{Bits, Cell, cell_beq}
use insteonrf.Packet.Fields.{Packet, crc_ok, ext_crc_ok, hops_ok, extended, is_true, is_false}
use insteonrf.Packet.Frames.{parse_bits}
use insteonrf.Fusion.{max_combine_flips, Sighting, max_disagreements}

-- `[s for s in sightings if s.bits]`, as strings of bits
unfoldable pub runs_of : List Sighting → List Bits
runs_of [] = []
runs_of (s ∷ ss) = elim s.bits [ [] ↦ runs_of ss | b ∷ bits ↦ (b ∷ bits) ∷ runs_of ss ]

unfoldable pub width_of : List Bits → ℕ
width_of [] = 0
width_of (r ∷ rs) = max (length r) (width_of rs)

-- the characters that the runs have at the first position, and the runs after it
unfoldable pub column : List Bits → Bits
column [] = []
column ([] ∷ rs) = column rs
column ((b ∷ r) ∷ rs) = b ∷ column rs

unfoldable pub tails : List Bits → List Bits
tails [] = []
tails ([] ∷ rs) = [] ∷ tails rs
tails ((b ∷ r) ∷ rs) = r ∷ tails rs

unfoldable pub ones : Bits → ℕ
ones [] = 0
ones (b ∷ bits) = let rest = ones bits in if cell_beq b Cell.one then rest + 1 else rest

-- `decided`: more ones than not, fewer, or what the first copy has there
unfoldable pub decide : Bits → Cell
decide [] = Cell.zero
decide (b ∷ bits) =
    let up = ones (b ∷ bits) in
    if ltb (length (b ∷ bits)) (up + up)
    then Cell.one
    else if ltb (up + up) (length (b ∷ bits))
    then Cell.zero
    else if cell_beq b Cell.one
    then Cell.one
    else Cell.zero

-- `(ones > 0) & (ones < count)`
unfoldable pub split : Bits → Bool
split bits = ltb 0 (ones bits) && ltb (ones bits) (length bits)

pub record Vote : Type 0 where
  pub bits : Bits
  pub disagree : List ℕ

-- the vote over `width` positions, the first of which has the index `at`
unfoldable pub vote_from : ℕ → ℕ → List Bits → Vote
vote_from zero at runs = record { bits = []; disagree = [] }
vote_from (suc width) at runs =
    let rest = vote_from width (at + 1) (tails runs) in
    record {
      bits = decide (column runs) ∷ rest.bits;
      disagree = if split (column runs) then at ∷ rest.disagree else rest.disagree;
    }

-- `_vote`
unfoldable pub vote : List Sighting → Option Vote
vote ss =
    let runs = runs_of ss in
    if ltb (length runs) 2 then none else some (vote_from (width_of runs) 0 runs)

-- the test of `_accept`
unfoldable pub is_sound : Packet → Bool
is_sound p =
    is_true (crc_ok p)
    && not (is_false p.index_ok)
    && hops_ok p
    && not (extended p && is_false (ext_crc_ok p))

unfoldable pub first_sound : List Packet → Option Packet
first_sound [] = none
first_sound (p ∷ ps) = if is_sound p then some p else first_sound ps

-- `_accept`
unfoldable pub accept : Bits → ℕ → Option Packet
accept bits at = first_sound (parse_bits bits (some at) 4)

-- `"0" if flip[i] == "1" else "1"` at one position
abbrev pub flip_at : ℕ → Bits → Bits
flip_at i [] = []
flip_at zero (b ∷ bits) = (if cell_beq b Cell.one then Cell.zero else Cell.one) ∷ bits
flip_at (suc i) (b ∷ bits) = b ∷ flip_at i bits

unfoldable pub flip_all : List ℕ → Bits → Bits
flip_all [] bits = bits
flip_all (i ∷ positions) bits = flip_all positions (flip_at i bits)

-- `combinations(suspects, count)`
unfoldable pub combinations : ℕ → List ℕ → List (List ℕ)
combinations zero suspects = [] ∷ []
combinations (suc count) [] = []
combinations (suc count) (i ∷ suspects) =
    map (◌∷◌ i) (combinations count suspects) ++ combinations (suc count) suspects

-- the first answer of two that is one
abbrev pub or_else : Option Packet → Option Packet → Option Packet
or_else none o = o
or_else (some p) o = some p

unfoldable pub try_flips : List (List ℕ) → Bits → ℕ → Option Packet
try_flips [] bits at = none
try_flips (positions ∷ more) bits at =
    or_else (accept (flip_all positions bits) at) (try_flips more bits at)

-- the loop over `count`, from `count` on, for `left` rounds
unfoldable pub try_counts : ℕ → ℕ → List ℕ → Bits → ℕ → Option Packet
try_counts zero count suspects bits at = none
try_counts (suc left) count suspects bits at =
    or_else (try_flips (combinations count suspects) bits at)
      (try_counts left (count + 1) suspects bits at)

-- the packet of a vote
unfoldable pub settle_vote : Vote → ℕ → Option Packet
settle_vote v at = or_else (accept v.bits at) (
    if ltb max_disagreements (length v.disagree)
    then none
    else try_counts max_combine_flips 1 v.disagree v.bits at)

abbrev pub first_at : List Sighting → ℕ
first_at [] = 0
first_at (s ∷ ss) = s.at

abbrev pub with_count : ℕ → Option Packet → Option (Packet × ℕ)
with_count n none = none
with_count n (some p) = some (p, n)

abbrev pub of_vote : List Sighting → Option Vote → Option (Packet × ℕ)
of_vote ss none = none
of_vote ss (some v) = with_count (length ss) (settle_vote v (first_at ss))

-- `combine`
unfoldable pub combine : List Sighting → Option (Packet × ℕ)
combine ss = of_vote ss (vote ss)
