-- ===== src/Packet/Flags.antt =====
-- packet.py, "flags": the message type and the flags byte, unpacked.
pub mod Laws
use insteonrf.Common.{
  ℕ, zero, suc, ◌*◌, ◌/◌, ◌^◌, bit_and, bit_or, Bool, ltb, if◌then◌else◌, Result, ok, raise,
  value_error,
}
use insteonrf.Packet.Crc.{flag_bcast, flag_group, flag_ack, flag_ext, has_flag}

pub data MsgType : Type 0 where
  direct direct_ack group_cleanup group_cleanup_ack broadcast direct_nak group_broadcast
        group_cleanup_nak :
      MsgType

-- `MsgType(n)` at the top three bits of a byte, at most 7
unfoldable pub msg_type_of : ℕ → MsgType
msg_type_of zero = direct
msg_type_of (suc zero) = direct_ack
msg_type_of (suc (suc zero)) = group_cleanup
msg_type_of (suc (suc (suc zero))) = group_cleanup_ack
msg_type_of (suc (suc (suc (suc zero)))) = broadcast
msg_type_of (suc (suc (suc (suc (suc zero))))) = direct_nak
msg_type_of (suc (suc (suc (suc (suc (suc zero)))))) = group_broadcast
msg_type_of _ = group_cleanup_nak

-- `int(msg_type)`
unfoldable pub msg_type_int : MsgType → ℕ
msg_type_int direct = 0
msg_type_int direct_ack = 1
msg_type_int group_cleanup = 2
msg_type_int group_cleanup_ack = 3
msg_type_int broadcast = 4
msg_type_int direct_nak = 5
msg_type_int group_broadcast = 6
msg_type_int group_cleanup_nak = 7

pub record Flags : Type 0 where
  pub msg_type : MsgType
  pub extended : Bool
  pub hops_left : ℕ
  pub max_hops : ℕ

-- `MsgType(b >> 5)` raises ValueError above 7.
unfoldable pub from_byte : ℕ → Result Flags
unfolding msg_type_of
from_byte b =
    if ltb 7 (b / 2 ^ 5)
    then raise value_error
    else ok (record {
      msg_type = msg_type_of (b / 2 ^ 5);
      extended = has_flag b flag_ext;
      hops_left = bit_and (b / 2 ^ 2) 3;
      max_hops = bit_and b 3;
    })

unfoldable pub to_byte : Flags → ℕ
unfolding msg_type_int
to_byte f =
    bit_or
      (bit_or
        (bit_or (bit_and (msg_type_int f.msg_type) 7 * 2 ^ 5) (if f.extended then flag_ext else 0))
        (bit_and f.hops_left 3 * 2 ^ 2))
      (bit_and f.max_hops 3)

unfoldable pub bcast : Flags → Bool
unfolding to_byte
bcast f = has_flag (to_byte f) flag_bcast

unfoldable pub group : Flags → Bool
unfolding to_byte
group f = has_flag (to_byte f) flag_group

unfoldable pub ack : Flags → Bool
unfolding to_byte
ack f = has_flag (to_byte f) flag_ack
