-- ===== src/Packet/Flags/Laws.antt =====
-- packet.py, class Flags: `from_byte` and `to_byte`.
use insteonrf.Common.{
  ℕ, ◌*◌, ◌/◌, ◌%◌, ◌+◌, ◌<◌, ◌≡◌, refl, Bool, true, false, ◌==◌, ==_iff, Result, ok, raise, arith,
}
use insteonrf.Packet.Crc.{has_flag, flag_ext, flag_ack, flag_group, flag_bcast}
use insteonrf.Common.Bits.{
  and_bit5, and_bit6, and_bit7, all_below, all_below_sound, and_seven, and_three, or-zero, or_shift,
  and_bit4,
}
use insteonrf.Packet.Flags.{direct, Flags, MsgType, from_byte, to_byte, msg_type_int, msg_type_of}

same_byte : ℕ → Bool
same_byte b = elim (from_byte b) [ ok f ↦ to_byte f == b | raise e ↦ false ]

byte_table : all_below 256 same_byte ≡ true
unfolding all_below same_byte from_byte to_byte
byte_table = refl

-- Every byte unpacks into flags that pack into the same byte.
pub to_byte-from_byte : (b : ℕ) → b < 256 → (f : Flags) × (from_byte b ≡ ok f) × (to_byte f ≡ b)
unfolding same_byte
to_byte-from_byte b h = go (from_byte b) refl (all_below_sound 256 same_byte b byte_table h)
  where
    go :
        (r : Result Flags)
        → from_byte b ≡ r
        → elim r as (λ _. Bool) [ ok f ↦ to_byte f == b | raise e ↦ false ] ≡ true
        → (f : Flags) × (from_byte b ≡ ok f) × (to_byte f ≡ b)
    go (ok f) e t = (f, e, (==_iff (to_byte f) b).0 t)
    go (raise x) e t = cc

msg_type_int-lt : (t : MsgType) → msg_type_int t < 8
unfolding msg_type_int
msg_type_int-lt direct = omega arith
msg_type_int-lt _ = omega arith

pub msg_type_of-int : (t : MsgType) → msg_type_of (msg_type_int t) ≡ t
unfolding msg_type_int msg_type_of
msg_type_of-int direct = refl
msg_type_of-int _ = refl

abbrev pub bit_value : Bool → ℕ → ℕ
bit_value true v = v
bit_value false v = 0

-- The flags byte is the sum of its fields at their places.
to_byte_sum :
    (f : Flags)
    → f.hops_left < 4
    → f.max_hops < 4
    → to_byte f
      ≡ msg_type_int f.msg_type * 32 + bit_value f.extended 16 + f.hops_left * 4 + f.max_hops
unfolding to_byte
to_byte_sum f h k = ground (
  arith,
  msg_type_int-lt f.msg_type,
  and_seven (msg_type_int f.msg_type),
  and_three f.hops_left,
  and_three f.max_hops,
  or-zero (msg_type_int f.msg_type * 32),
  or_shift 5 (msg_type_int f.msg_type) 16,
  or_shift 4 (msg_type_int f.msg_type * 2 + 1) (f.hops_left * 4),
  or_shift 4 (msg_type_int f.msg_type * 2) (f.hops_left * 4),
  or_shift 2 (msg_type_int f.msg_type * 8 + 4 + f.hops_left) f.max_hops,
  or_shift 2 (msg_type_int f.msg_type * 8 + f.hops_left) f.max_hops,
)

-- Flags with two-bit hop counts survive packing and unpacking.
pub from_byte-to_byte :
    (f : Flags) → f.hops_left < 4 → f.max_hops < 4 → from_byte (to_byte f) ≡ ok f
unfolding from_byte
from_byte-to_byte f h k = ground (
  arith,
  to_byte_sum f h k,
  msg_type_int-lt f.msg_type,
  msg_type_of-int f.msg_type,
  and_bit4 (to_byte f),
  and_three (to_byte f),
  and_three (to_byte f / 4),
)

-- A flag of a number is one of its binary digits.
module _ (x : ℕ) (b : Bool) where
  pub has_flag_ext : x / 16 % 2 ≡ bit_value b 1 → has_flag x flag_ext ≡ b
  has_flag_ext h = ground (arith, and_bit4 x)

  pub has_flag_ack : x / 32 % 2 ≡ bit_value b 1 → has_flag x flag_ack ≡ b
  has_flag_ack h = ground (arith, and_bit5 x)

  pub has_flag_group : x / 64 % 2 ≡ bit_value b 1 → has_flag x flag_group ≡ b
  has_flag_group h = ground (arith, and_bit6 x)

  pub has_flag_bcast : x / 128 % 2 ≡ bit_value b 1 → has_flag x flag_bcast ≡ b
  has_flag_bcast h = ground (arith, and_bit7 x)
