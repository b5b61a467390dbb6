-- ===== src/Inject/Classify.antt =====
-- inject.py: the tiers, the reasons of a refusal, the state of class Injector, and `classify`.
use insteonrf.Common.{
  ℕ, Bool, true, false, not, ◌||◌, Option, none, some, List, [], ◌∷◌, if◌then◌else◌, Error, list_eq,
}
use insteonrf.Common.Dict.{Dict}
use insteonrf.Packet.Address.{Address, address_beq}
use insteonrf.Packet.Flags.{
  MsgType, direct, direct_ack, group_cleanup, group_cleanup_ack, direct_nak, group_cleanup_nak,
}
use insteonrf.Packet.Fields.{Packet, msg_type, is_group_broadcast, to_addr, from_addr}
use insteonrf.Inject.Memory.{PlmMemory}

pub data Tier : Type 0 where
  battery group state : Tier

-- The texts of the refusals, with the values that are printed in them.
pub data Reason : Type 0 where
  kill_switch reply no_sender own_transmission unknown_sender crc_failed index_rejected bad_hops
        ext_crc_failed plm_heard device_rate global_rate shadow_mode injected assertion_failed :
      Reason
  unhandled : MsgType → Reason
  tier_disabled : Tier → Reason
  repaired : ℕ → Reason
  few_receivers : ℕ → ℕ → Reason
  unrenderable : Error → Reason

pub record Counters : Type 0 where
  pub considered : ℕ
  pub injected : ℕ
  pub would_inject : ℕ
  pub refused : Dict (List ℕ) ℕ

-- `publish` is whether a callback was given; `sent` lists the frames that were passed to it, the
-- latest first.
pub record Injector : Type 0 where
  pub publish : Bool
  pub plm_addr : Option Address
  pub battery_addrs : List Address
  pub known_addrs : Option (List Address)
  pub allow : List Tier
  pub shadow : Bool
  pub per_device_interval : ℕ
  pub global_per_minute : ℕ
  pub min_combined_receivers : ℕ
  pub counters : Counters
  pub memory : PlmMemory
  pub last_per_device : Dict Address ℕ
  pub recent_injections : List ℕ
  pub sent : List (List ℕ)

unfoldable pub sender_of : Packet → Option Address
sender_of p = if is_group_broadcast p then to_addr p else from_addr p

-- `msg_type in REPLY_TYPES`
abbrev pub is_reply : MsgType → Bool
is_reply direct_ack = true
is_reply direct_nak = true
is_reply group_cleanup_ack = true
is_reply group_cleanup_nak = true
is_reply _ = false

abbrev pub is_cleanup : MsgType → Bool
is_cleanup group_cleanup = true
is_cleanup _ = false

abbrev pub is_direct : MsgType → Bool
is_direct direct = true
is_direct _ = false

-- `sender in addrs`
unfoldable pub mem_addr : Address → List Address → Bool
mem_addr a [] = false
mem_addr a (b ∷ addrs) = address_beq a b || mem_addr a addrs

-- `addr is not None and sender == addr`
abbrev pub is_own : Option Address → Address → Bool
is_own none sender = false
is_own (some a) sender = address_beq sender a

-- `known is not None and sender not in known`
abbrev pub is_unknown : Option (List Address) → Address → Bool
is_unknown none sender = false
is_unknown (some known) sender = not (mem_addr sender known)

pub data Class : Type 0 where
  refused : Reason → Class
  tier : Tier → Class

-- `classify`, past the checks of the sender
unfoldable pub tier_of : Injector → Packet → Address → Class
tier_of inj p sender =
    if mem_addr sender inj.battery_addrs
    then tier battery
    else if is_group_broadcast p || is_cleanup (msg_type p)
    then tier group
    else if is_direct (msg_type p)
    then tier state
    else refused (unhandled (msg_type p))

unfoldable pub classify : Injector → Packet → Class
unfolding tier_of
classify inj p = if is_reply (msg_type p) then refused reply else elim (sender_of p) [
  | none ↦ refused no_sender
  | some sender ↦
      if is_own inj.plm_addr sender
      then refused own_transmission
      else if is_unknown inj.known_addrs sender
      then refused unknown_sender
      else tier_of inj p sender
]
