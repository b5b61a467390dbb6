-- ===== src/Packet/Crc.antt =====
-- packet.py, "CRCs": the packet CRC and the checksum of extended data. Bytes are numbers below
-- 256. Both functions are only called on packets with a flags byte; at an empty list, where the
-- source raises IndexError, the flags byte reads as 0 here.
pub mod Laws
use insteonrf.Common.{
  ℕ, ◌+◌, ◌-◌, ◌%◌, bit_and, bit_xor, Bool, not, ◌==◌, if◌then◌else◌, List, [], ◌∷◌, take, slice,
  get_or,
}

abbrev pub flag_bcast : ℕ
flag_bcast = 0x80

abbrev pub flag_group : ℕ
flag_group = 0x40

abbrev pub flag_ack : ℕ
flag_ack = 0x20

abbrev pub flag_ext : ℕ
flag_ext = 0x10

abbrev pub std_len : ℕ
std_len = 13

abbrev pub ext_len : ℕ
ext_len = 32

abbrev pub std_crc_index : ℕ
std_crc_index = 9

abbrev pub ext_crc_index : ℕ
ext_crc_index = 23

abbrev pub ext_data_crc_index : ℕ
ext_data_crc_index = 22

abbrev pub ext_data_len : ℕ
ext_data_len = 13

-- `bool(b & flag)`
abbrev pub has_flag : ℕ → ℕ → Bool
has_flag b flag = not (bit_and b flag == 0)

-- `data[0]`
abbrev pub first : List ℕ → ℕ
first data' = get_or data' 0 0

abbrev pub crc_table : List ℕ
crc_table =
    0x00 ∷ 0x30 ∷ 0x60 ∷ 0x50 ∷ 0xC0 ∷ 0xF0 ∷ 0xA0 ∷ 0x90 ∷ 0x80 ∷ 0xB0 ∷ 0xE0 ∷ 0xD0 ∷ 0x40 ∷ 0x70
    ∷ 0x20 ∷ 0x10 ∷ []

-- `r ^= _CRC_TABLE[r & 0x0F]`
unfoldable pub crc_mix : ℕ → ℕ
crc_mix r = bit_xor r (get_or crc_table (bit_and r 0x0F) 0)

-- the loop of `pkt_crc`
unfoldable pub crc_loop : ℕ → List ℕ → ℕ
crc_loop r [] = r
crc_loop r (b ∷ bytes) = crc_loop (crc_mix (bit_xor r b)) bytes

-- `n` of `pkt_crc`, which is also `Packet.crc_index`
abbrev pub crc_index_of : ℕ → ℕ
crc_index_of flags = if has_flag flags flag_ext then ext_crc_index else std_crc_index

unfoldable pub pkt_crc : List ℕ → ℕ
pkt_crc bytes = crc_loop 0 (take (crc_index_of (first bytes)) bytes)

unfoldable pub sum : List ℕ → ℕ
sum [] = 0
sum (b ∷ bytes) = b + sum bytes

-- `(-sum(data[7:22])) & 0xFF`: the two's complement, written without a negative number.
unfoldable pub ext_crc : List ℕ → ℕ
unfolding sum
ext_crc bytes = (256 - sum (slice 7 ext_data_crc_index bytes) % 256) % 256
