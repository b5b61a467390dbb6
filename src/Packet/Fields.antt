-- ===== src/Packet/Fields.antt =====
-- packet.py, "packet": class Packet and its properties, read off the wire bytes.
-- The measures that a receiver attaches (SNR, carrier offset, clipping, RSSI) are not fields
-- here: this class only carries them. Times are numbers of microseconds.
pub mod Laws
use insteonrf.Common.{
  ℕ, ◌+◌, ◌/◌, ◌^◌, bit_and, Bool, true, false, ◌&&◌, ◌||◌, not, ltb, leb, ◌==◌, if◌then◌else◌,
  Option, none, some, List, [], ◌∷◌, length, get_elem?, slice, Result, ok, raise,
}
use insteonrf.Manchester.{Bits}
use insteonrf.Packet.Crc.{
  flag_bcast, flag_group, flag_ack, flag_ext, has_flag, first, crc_index_of, pkt_crc, ext_crc,
  ext_data_crc_index,
}
use insteonrf.Packet.Address.{Address, from_wire}
use insteonrf.Packet.Flags.{MsgType, msg_type_of}

pub record Packet : Type 0 where
  pub bytes : List ℕ
  pub bits : Bits
  pub timestamp : Option ℕ
  pub complete : Bool
  pub corrected : ℕ
  pub ack_of_extended : Option Bool
  pub index_ok : Option Bool

-- `Packet(data)`, every other field at its default
abbrev pub of_data : List ℕ → Packet
of_data bytes = record {
  bytes = bytes;
  bits = [];
  timestamp = none;
  complete = true;
  corrected = 0;
  ack_of_extended = none;
  index_ok = none;
}

module _ (p : Packet) where
  abbrev pub flags_byte : ℕ
  flags_byte = first p.bytes

  unfoldable pub extended : Bool
  extended = has_flag flags_byte flag_ext

  unfoldable pub bcast : Bool
  bcast = has_flag flags_byte flag_bcast

  unfoldable pub group_msg : Bool
  group_msg = has_flag flags_byte flag_group

  unfoldable pub ack : Bool
  ack = has_flag flags_byte flag_ack

  unfoldable pub max_hops : ℕ
  max_hops = bit_and flags_byte 3

  unfoldable pub hops_left : ℕ
  hops_left = bit_and (flags_byte / 2 ^ 2) 3

  unfoldable pub hops_ok : Bool
  unfolding hops_left max_hops
  hops_ok = leb hops_left max_hops

  unfoldable pub msg_type : MsgType
  unfolding msg_type_of
  msg_type = msg_type_of (flags_byte / 2 ^ 5)

  unfoldable pub is_group_broadcast : Bool
  unfolding bcast group_msg
  is_group_broadcast = bcast && group_msg

  -- `from_wire` is given three bytes at each of its calls, and then does not raise.
  abbrev pub slot : ℕ → Option Address
  slot i = elim (from_wire (slice i (i + 3) p.bytes)) [ ok a ↦ some a | raise e ↦ none ]

  unfoldable pub to_addr : Option Address
  to_addr = if leb 4 (length p.bytes) then slot 1 else none

  unfoldable pub from_addr : Option Address
  unfolding is_group_broadcast
  from_addr = if ltb (length p.bytes) 7 || is_group_broadcast then none else slot 4

  unfoldable pub group : Option ℕ
  unfolding is_group_broadcast
  group = if is_group_broadcast && leb 5 (length p.bytes) then get_elem? p.bytes 4 else none

  unfoldable pub cmd1 : Option ℕ
  cmd1 = if ltb 7 (length p.bytes) then get_elem? p.bytes 7 else none

  unfoldable pub cmd2 : Option ℕ
  cmd2 = if ltb 8 (length p.bytes) then get_elem? p.bytes 8 else none

  unfoldable pub ext_data : Option (List ℕ)
  unfolding extended
  ext_data = if extended && leb 22 (length p.bytes) then some (slice 9 22 p.bytes) else none

  unfoldable pub crc_index : ℕ
  crc_index = crc_index_of flags_byte

  unfoldable pub crc : Option ℕ
  unfolding crc_index
  crc = if ltb crc_index (length p.bytes) then get_elem? p.bytes crc_index else none

  unfoldable pub calc_crc : Option ℕ
  unfolding crc_index
  calc_crc = if leb crc_index (length p.bytes) then some (pkt_crc p.bytes) else none

  -- `==` between two values that may be None
  abbrev pub same_crc : Option ℕ → Option ℕ → Bool
  same_crc none none = true
  same_crc (some a) (some b) = a == b
  same_crc _ _ = false

  unfoldable pub crc_ok : Option Bool
  crc_ok = elim crc [ none ↦ none | some c ↦ some (same_crc (some c) calc_crc) ]

  unfoldable pub ext_crc_ok : Option Bool
  unfolding extended
  ext_crc_ok =
      if not extended || leb (length p.bytes) ext_data_crc_index
      then none
      else elim (get_elem? p.bytes ext_data_crc_index) [
        | none ↦ none
        | some c ↦ some (c == ext_crc p.bytes)
      ]

-- `x is True`, and `x is not False`
abbrev pub is_true : Option Bool → Bool
is_true (some true) = true
is_true _ = false

abbrev pub is_false : Option Bool → Bool
is_false (some false) = true
is_false _ = false

unfoldable pub valid : Packet → Bool
valid p = is_true (crc_ok p) && not (is_false (ext_crc_ok p))
