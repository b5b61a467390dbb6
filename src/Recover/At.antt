-- ===== src/Recover/At.antt =====
-- recover.py: `recover_at` with `_recover_at`, and `recover_packets`.
use insteonrf.Common.{
  ℕ, zero, suc, ◌+◌, ◌*◌, ◌==◌, ltb, Bool, true, false, ◌||◌, if◌then◌else◌, Option, none, some,
  List, [], ◌∷◌, ◌++◌, length, drop, slice, list_beq,
}
use insteonrf.Manchester.{Bits}
use insteonrf.Packet.Crc.{has_flag, flag_ext}
use insteonrf.Packet.Fields.{Packet, hops_ok}
use insteonrf.Packet.Frames.{frame_bits, marker_offset, find_headers}
use insteonrf.Monitor.{mem_nat}
use insteonrf.Recover.{
  frame_index_bits, frame_logical_bits, logical, number_of, bytes_from, index_errors, crc_checks,
  repair, Recovered, Logical,
}

-- the logical bits of the frames, up to the first that is cut short, with their number
unfoldable pub read_frames : ℕ → Bits → List Logical × ℕ
read_frames zero bits = ([], 0)
read_frames (suc nframes) bits =
    let ls = logical frame_logical_bits (drop 2 bits) in
    let rest = read_frames nframes (drop frame_bits bits) in
    if ltb (length ls) frame_logical_bits then ([], 0) else (ls ++ rest.0, rest.1 + 1)

-- the number of illegal pairs
unfoldable pub illegal : List Logical → ℕ
illegal [] = 0
illegal (l ∷ ls) = let rest = illegal ls in if l.sure then rest else rest + 1

-- the packet at the end of `_recover_at`
abbrev pub packed : Bits → ℕ → Option ℕ → ℕ → List ℕ × ℕ → Packet
packed bits pos timestamp nframes fixed = record {
  bytes = fixed.0;
  bits = slice pos (pos + marker_offset + nframes * frame_bits) bits;
  timestamp = timestamp;
  complete = true;
  corrected = fixed.1;
  ack_of_extended = none;
  index_ok = some true;
}

-- the end of `_recover_at`
abbrev pub recovered : Bits → ℕ → Option ℕ → List Logical → ℕ → ℕ → List ℕ × ℕ → Option Recovered
recovered bits pos timestamp ls nframes idx_bad fixed =
    let p = packed bits pos timestamp nframes fixed in
    if hops_ok p
    then some (record {
      packet = p;
      corrected = fixed.1;
      index_errors = idx_bad;
      manchester_errors = illegal ls;
    })
    else none

pub record Limits : Type 0 where
  pub max_flips : ℕ
  pub candidates : ℕ
  pub max_index_errors : ℕ
  pub allow_repair : Bool

-- the repaired bytes, if repair is allowed and finds some
abbrev pub repaired_from :
    Bits → ℕ → Option ℕ → List Logical → ℕ → Option (List ℕ × ℕ) → Option Recovered
repaired_from bits pos timestamp ls nframes none = none
repaired_from bits pos timestamp ls nframes (some fixed) =
    recovered bits pos timestamp ls nframes 0 fixed

-- `_recover_at`, once the frames are read
unfoldable pub recover_frames :
    Limits → Bits → ℕ → Option ℕ → Bool → List Logical → ℕ → Option Recovered
recover_frames lim bits pos timestamp extended ls nframes =
    let idx_bad = index_errors ls nframes extended in
    if nframes == 0 || ltb lim.max_index_errors idx_bad
    then none
    else if crc_checks (bytes_from nframes ls) extended
    then recovered bits pos timestamp ls nframes idx_bad (bytes_from nframes ls, 0)
    else if lim.allow_repair
    then repaired_from bits pos timestamp ls nframes
        (repair ls nframes extended lim.max_flips lim.candidates)
    else none

-- `recover_at`, with `soft` None
unfoldable pub recover_at : Limits → Bits → ℕ → Option ℕ → Option Recovered
recover_at lim bits pos timestamp =
    let first = drop (pos + marker_offset) bits in
    let ls = logical frame_logical_bits (drop 2 first) in
    let extended = has_flag (number_of (slice frame_index_bits frame_logical_bits ls)) flag_ext in
    let frames = read_frames (if extended then 32 else 13) first in
    if ltb (length ls) frame_logical_bits
    then none
    else recover_frames lim bits pos timestamp extended frames.0 frames.1

abbrev pub mem_bytes : List ℕ → List (List ℕ) → Bool
mem_bytes key [] = false
mem_bytes key (k ∷ seen) = list_beq k key || mem_bytes key seen

-- a packet that was not seen before, and the bytes that were seen
abbrev pub add_new : Option Recovered → List (List ℕ) → List Recovered × List (List ℕ)
add_new none seen = ([], seen)
add_new (some r) seen =
    if mem_bytes r.packet.bytes seen then ([], seen) else (r ∷ [], r.packet.bytes ∷ seen)

-- the loop of `recover_packets`
unfoldable pub recover_loop : Limits → Bits → Option ℕ → List ℕ → List (List ℕ) → List Recovered
recover_loop lim bits timestamp [] seen = []
recover_loop lim bits timestamp (pos ∷ offsets) seen =
    let step = add_new (recover_at lim bits pos timestamp) seen in
    step.0 ++ recover_loop lim bits timestamp offsets step.1

-- `[header_index, *offsets]`, unless it is missing or among them
abbrev pub with_header : Option ℕ → List ℕ → List ℕ
with_header none offsets = offsets
with_header (some h) offsets = if mem_nat h offsets then offsets else h ∷ offsets

-- `recover_packets`, with `soft` None
unfoldable pub recover_packets : Limits → Bits → Option ℕ → Option ℕ → List Recovered
recover_packets lim line timestamp header =
    let found = find_headers line in
    recover_loop lim found.0 timestamp (with_header header found.1) []
