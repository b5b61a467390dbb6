-- ===== src/Radio/Mqtt.antt =====
-- insteonrf/radio/mqtt.py: the bits of a capture. Bytes are expanded the highest bit first. A line
-- of bits holds '0' and '1'; another character counts as '0' where `int(chunk, 2)` would raise. A
-- soft value is an integer, in units of 1 / SOFT_SCALE.
pub mod Payload
pub mod Receiver
pub mod Octets
pub mod Aligned
pub mod Synced
use insteonrf.Common.{
  ℕ, zero, suc, ◌+◌, ◌-◌, ◌*◌, ◌/◌, ◌%◌, ◌^◌, ◌==◌, ltb, Bool, true, false, ◌||◌, if◌then◌else◌,
  Option, none, some, List, [], ◌∷◌, ◌++◌, map, length, take, drop, replicate,
}
use insteonrf.Common.Int.{ℤ, pos, negsuc}
use insteonrf.Manchester.{Bits, Cell, zero as low, one as high, cell_beq, invert_bits}
use insteonrf.Packet.Frames.{start_header, starts_with}

abbrev pub max_capture_bytes : ℕ
max_capture_bytes = 4096

abbrev pub soft_scale : ℕ
soft_scale = 127

-- `format(n, "0{width}b")`, for n below 2 ^ width
unfoldable pub digits : ℕ → ℕ → Bits
digits zero n = []
digits (suc width) n = (if n / 2 ^ width % 2 == 0 then low else high) ∷ digits width n

unfoldable pub bits_from_bytes : List ℕ → Bits
bits_from_bytes [] = []
bits_from_bytes (b ∷ bytes) = digits 8 b ++ bits_from_bytes bytes

-- `int(bits, 2)`
unfoldable pub digits_int : ℕ → Bits → ℕ
digits_int n [] = n
digits_int n (c ∷ bits) = digits_int (if cell_beq c high then 2 * n + 1 else 2 * n) bits

-- `bits + "0" * pad`
abbrev pub padded : Bits → Bits
padded bits = bits ++ replicate ((8 - length bits % 8) % 8) low

-- the loop over the chunks of 8, on at most so many
unfoldable pub chunks : ℕ → Bits → List ℕ
chunks zero bits = []
chunks (suc count) bits = digits_int 0 (take 8 bits) ∷ chunks count (drop 8 bits)

unfoldable pub bytes_from_bits : Bits → List ℕ
bytes_from_bits bits = let line = padded bits in chunks (length line / 8) line

-- one signed byte
abbrev pub signed_byte : ℕ → ℤ
signed_byte b = if ltb b 128 then pos b else negsuc (255 - b)

-- `soft_from_bytes`, before the division by SOFT_SCALE
abbrev pub soft_from_bytes : List ℕ → List ℤ
soft_from_bytes = map signed_byte

-- `hard_soft`: ±1 for each bit
abbrev pub hard_soft : Bits → List ℤ
hard_soft [] = []
hard_soft (c ∷ bits) = (if cell_beq c high then pos 127 else negsuc 126) ∷ hard_soft bits

-- `sync_word & 0xFFFF`
abbrev pub low_word : ℤ → ℕ
low_word (pos n) = n % 65536
low_word (negsuc n) = 65535 - n % 65536

-- the header that the radio matched on
abbrev pub sync_header : Option ℤ → Bits
sync_header none = invert_bits start_header
sync_header (some word) = digits 16 (low_word word)

unfoldable pub with_sync_header : Bits → Option ℤ → Bits
with_sync_header bits word =
    if starts_with start_header bits || starts_with (invert_bits start_header) bits
    then bits
    else sync_header word ++ bits
