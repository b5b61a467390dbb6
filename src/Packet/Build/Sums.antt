-- ===== src/Packet/Build/Sums.antt =====
-- packet.py, `Packet.build`: the flags byte as the sum of its bits.
use insteonrf.Common.{
  ℕ, ◌+◌, ◌*◌, ◌/◌, ◌%◌, ◌^◌, ◌≤◌, ◌<◌, bit_and, bit_or, ◌≡◌, Bool, true, false, arith, list_eq,
}
use insteonrf.Common.Bits.{and_three, or_high, or_comm, or_shift}
use insteonrf.Packet.Flags.Laws.{has_flag_ext, bit_value}
use insteonrf.Packet.Build.{flag_ext, has_flag, Fields, build_flags, set_flag, is_some, is_extended}

set_flag_sum : (k x : ℕ) (b : Bool) → x < 2 ^ k → set_flag b (2 ^ k) x ≡ x + bit_value b (2 ^ k)
set_flag_sum k x true h = or_high k x h
set_flag_sum k x false h = omega arith

hops_sum : (m h : ℕ) → bit_or (bit_and m 3) (bit_and h 3 * 4) ≡ h % 4 * 4 + m % 4
hops_sum m h = omega (
  arith,
  and_three m,
  and_three h,
  or_comm (bit_and m 3) (bit_and h 3 * 4),
  or_shift 2 (bit_and h 3) (bit_and m 3) (omega (arith, and_three m)),
)

bit_value-le : (b : Bool) (v : ℕ) → bit_value b v ≤ v
bit_value-le true v = omega arith
bit_value-le false v = omega arith

-- The flags byte is a sum of its bits.
pub build_flags_sum :
    (f : Fields)
    → build_flags f
      ≡ f.hops_left % 4 * 4
        + f.max_hops % 4
        + bit_value (is_extended f) 16
        + bit_value f.ack 32
        + bit_value (is_some f.group) 64
        + bit_value f.bcast 128
unfolding build_flags
build_flags_sum f = ground (
  arith,
  hops_sum f.max_hops f.hops_left,
  set_flag_sum 4 x0 ext (omega arith),
  set_flag_sum 5 x1 f.ack (omega (arith, bit_value-le ext 16)),
  set_flag_sum 6 x2 grp (omega (arith, bit_value-le ext 16, bit_value-le f.ack 32)),
  set_flag_sum 7 x3 f.bcast
      (omega (arith, bit_value-le ext 16, bit_value-le f.ack 32, bit_value-le grp 64)),
)
  where
    ext : Bool
    ext = is_extended f

    grp : Bool
    grp = is_some f.group

    x0 : ℕ
    x0 = f.hops_left % 4 * 4 + f.max_hops % 4

    x1 : ℕ
    x1 = x0 + bit_value ext 16

    x2 : ℕ
    x2 = x1 + bit_value f.ack 32

    x3 : ℕ
    x3 = x2 + bit_value grp 64

-- The bits of the flags byte.
pub flag_bits :
    (h m : ℕ) (e a g b : Bool)
    → let x =
        h % 4 * 4 + m % 4 + bit_value e 16 + bit_value a 32 + bit_value g 64 + bit_value b 128 in
      (x / 16 % 2 ≡ bit_value e 1)
      × (x / 32 % 2 ≡ bit_value a 1)
      × (x / 64 % 2 ≡ bit_value g 1)
      × (x / 128 % 2 ≡ bit_value b 1)
      × (x % 4 ≡ m % 4)
      × (x / 4 % 4 ≡ h % 4)
flag_bits h m e a g b = ground arith

pub build_flags_ext : (f : Fields) → has_flag (build_flags f) flag_ext ≡ is_extended f
build_flags_ext f = has_flag_ext (build_flags f) (is_extended f) (
    omega (
      arith,
      build_flags_sum f,
      (flag_bits f.hops_left f.max_hops (is_extended f) f.ack (is_some f.group) f.bcast).0,
    ))
