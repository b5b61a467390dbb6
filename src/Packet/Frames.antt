-- ===== src/Packet/Frames.antt =====
-- packet.py, "encoding" and "decoding": the frames on the air, 28 bits for each byte, with a
-- counter in front of the byte. Strings of bits are lists of cells, as in Manchester; a line is
-- given without the white space at its ends. `f"{n:05b}"` has five digits for n below 32.
pub mod Loop
pub mod RoundTrip
pub mod Parsed
pub mod Polarity
pub mod Whole
pub mod Headless
use insteonrf.Common.{
  ◌-◌, ℕ, zero, suc, ◌+◌, ◌*◌, ◌/◌, ◌%◌, Option, none, some, List, [], ◌∷◌, ◌++◌, Bool, true, false,
  ◌&&◌, ◌||◌, if◌then◌else◌, ◌==◌, ltb, length, take, drop, slice, replicate, Result, ok, raise,
  value_error, ◌>>=◌, list_beq, list_eq, get_or,
}
use insteonrf.Manchester.{
  Bits, Cell, zero as low, one as high, other, cell_beq, manchester_encode, manchester_decode,
  invert_bits,
}
use insteonrf.Packet.Crc.{first, has_flag, flag_ext}
use insteonrf.Packet.Fields.{Packet, extended}

abbrev pub start_header : Bits
start_header =
    high ∷ high ∷ low ∷ low ∷ high ∷ high ∷ high ∷ low ∷ high ∷ low ∷ high ∷ low ∷ high ∷ low ∷ high
    ∷ low ∷ []

abbrev pub marker_offset : ℕ
marker_offset = 5

abbrev pub frame_bits : ℕ
frame_bits = 28

abbrev pub preamble : Bits
preamble = low ∷ high ∷ low ∷ high ∷ low ∷ high ∷ low ∷ high ∷ low ∷ high ∷ []

abbrev pub marker : Bits
marker = high ∷ high ∷ []

-- `"01" * n`
unfoldable pub alternate : ℕ → Bits
alternate zero = []
alternate (suc n) = low ∷ high ∷ alternate n

unfoldable pub trailer : Bits
unfolding alternate
trailer = alternate 24

-- `f"{n:0{width}b}"[::-1]`, for n below 2 ^ width
unfoldable pub low_bits : ℕ → ℕ → Bits
low_bits zero n = []
low_bits (suc width) n = (if n % 2 == 0 then low else high) ∷ low_bits width (n / 2)

-- `int(bits[::-1], 2)`
unfoldable pub bits_int : Bits → ℕ
bits_int [] = 0
bits_int (high ∷ bits) = 1 + 2 * bits_int bits
bits_int (c ∷ bits) = 2 * bits_int bits

-- `idx -= 1`; what is below zero has no digits that `manchester_encode` takes
unfoldable pub count_on : ℕ → Option ℕ
count_on zero = none
count_on (suc n) = some n

unfoldable pub index_at : Bool → ℕ → Option ℕ → Option ℕ
index_at ext i idx = if i == 1 then some (if ext then 30 else 11) else idx

-- the loop of `to_bits`
unfoldable pub encode_frames : Bool → ℕ → Option ℕ → List ℕ → Result Bits
encode_frames ext i idx [] = ok []
encode_frames ext i idx (byte ∷ bytes) = elim (index_at ext i idx) [
  | none ↦ raise value_error
  | some n ↦ do
    code ← manchester_encode (low_bits 5 n ++ low_bits 8 byte)
    rest ← encode_frames ext (i + 1) (count_on n) bytes
    ok (marker ++ code ++ rest)
]

-- the bits added for a whole number of bytes
abbrev pub byte_pad : Bits → Bits → Bits
byte_pad bits tail = if length bits % 8 == 0 then bits else bits ++ take (8 - length bits % 8) tail

unfoldable pub to_bits : Packet → Bool → Result Bits
to_bits p invert = do
  head ← manchester_encode preamble
  frames ← encode_frames (extended p) 0 (some 31) p.bytes
  tail ← manchester_encode trailer
  let bits = byte_pad (head ++ (frames ++ tail)) tail
  ok (if invert then invert_bits bits else bits)

-- `bits[i : i + 2] == "11"`
abbrev pub marked : Bits → Bool
marked (high ∷ high ∷ bits) = true
marked _ = false

-- the loop of `decode_frames`, on the bits from `i` on
unfoldable pub decode_loop : ℕ → Bits → List ℕ × List ℕ
decode_loop zero bits = ([], [])
decode_loop (suc fuel) bits =
    let rest = decode_loop fuel (drop frame_bits bits) in
    if marked bits
    then elim (manchester_decode (slice 2 frame_bits bits)) [
      | raise e ↦ ([], [])
      | ok dm ↦
          let n = bits_int (take 5 dm) in
          let byte = bits_int (slice 5 13 dm) in
          if ltb (length dm) 13
          then ([], [])
          else if n == 0
          then (byte ∷ [], n ∷ [])
          else (byte ∷ rest.0, n ∷ rest.1)
    ]
    else ([], [])

unfoldable pub decode_frames : Bits → ℕ → List ℕ × List ℕ
decode_frames bits start = let rest = drop start bits in decode_loop (length rest) rest

-- `list(range(n, -1, -1))`
unfoldable pub count_down : ℕ → List ℕ
count_down zero = 0 ∷ []
count_down (suc n) = suc n ∷ count_down n

unfoldable pub expected_indexes : Bool → List ℕ
unfolding count_down
expected_indexes ext = 31 ∷ count_down (if ext then 30 else 11)

unfoldable pub indexes_ok : List ℕ → List ℕ → Bool
indexes_ok [] idx = false
indexes_ok bytes [] = false
indexes_ok bytes idx =
    list_beq idx (take (length idx) (expected_indexes (has_flag (first bytes) flag_ext)))

unfoldable pub starts_with : Bits → Bits → Bool
starts_with [] bits = true
starts_with (c ∷ pattern) [] = false
starts_with (c ∷ pattern) (b ∷ bits) = cell_beq c b && starts_with pattern bits

-- `bits.find(pattern)`
unfoldable pub find_first : Bits → Bits → Option ℕ
find_first pattern [] = if starts_with pattern [] then some 0 else none
find_first pattern (b ∷ bits) =
    if starts_with pattern (b ∷ bits)
    then some 0
    else elim (find_first pattern bits) [ none ↦ none | some n ↦ some (n + 1) ]

-- `bits.find(pattern, start)`
unfoldable pub find_from : Bits → ℕ → Bits → Option ℕ
find_from pattern start bits = elim (find_first pattern (drop start bits)) [
  | none ↦ none
  | some n ↦ some (start + n)
]

-- `while pos != -1`
unfoldable pub header_loop : ℕ → Bits → Option ℕ → List ℕ
header_loop fuel bits none = []
header_loop zero bits (some at) = []
header_loop (suc fuel) bits (some at) =
    at ∷ header_loop fuel bits (find_from start_header (at + length start_header) bits)

-- whether the inverted header comes first: `a == -1 or (b != -1 and b < a)`
abbrev pub flipped : Option ℕ → Option ℕ → Bool
flipped none none = false
flipped none (some b) = true
flipped (some a) none = false
flipped (some a) (some b) = ltb b a

unfoldable pub find_headers : Bits → Bits × List ℕ
find_headers bits =
    let up = find_first start_header bits in
    let down = find_first (invert_bits start_header) bits in
    let line = if flipped up down then invert_bits bits else bits in
    (line, header_loop (length line + 1) line (find_first start_header line))

abbrev pub last_is_zero : List ℕ → Bool
last_is_zero [] = false
last_is_zero (n ∷ []) = n == 0
last_is_zero (n ∷ m ∷ idx) = last_is_zero (m ∷ idx)

-- the packet of one header, in `parse_bits`
unfoldable pub packet_at : Bits → ℕ → Option ℕ → Packet
packet_at bits at timestamp =
    let start = at + marker_offset in
    let frames = decode_frames bits start in
    record {
      bytes = frames.0;
      bits = slice at (start + frame_bits * length frames.0) bits;
      timestamp = timestamp;
      complete = last_is_zero frames.1;
      corrected = 0;
      ack_of_extended = none;
      index_ok = some (indexes_ok frames.0 frames.1);
    }

unfoldable pub parse_at : Bits → List ℕ → Option ℕ → ℕ → List Packet
parse_at bits [] timestamp min_bytes = []
parse_at bits (at ∷ offsets) timestamp min_bytes =
    let rest = parse_at bits offsets timestamp min_bytes in
    let p = packet_at bits at timestamp in if ltb (length p.bytes) min_bytes then rest else p ∷ rest

unfoldable pub parse_bits : Bits → Option ℕ → ℕ → List Packet
parse_bits line timestamp min_bytes =
    let found = find_headers line in parse_at found.0 found.1 timestamp min_bytes
