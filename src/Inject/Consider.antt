-- ===== src/Inject/Consider.antt =====
-- inject.py, `Injector.consider`: the decision on one fused event.
pub mod Cleared
pub mod Safety
pub mod Spacing
pub mod Counts
use insteonrf.Common.{
  ℕ, zero, suc, ◌+◌, ◌-◌, ◌*◌, ◌/◌, ◌%◌, ◌^◌, ◌≤◌, ◌<◌, min, max, bit_and, bit_or, bit_xor, ◌≡◌,
  refl, sym, ap, ◌∙◌, ◌≢◌, ◌↔◌, ◌⊎◌, inl, inr, Bool, true, false, not, ◌&&◌, ◌||◌, Option, none,
  some, List, [], ◌∷◌, ◌++◌, map, arith, ltb, leb, ◌==◌, if◌then◌else◌, ltb→lt, lt→ltb, leb→le,
  ==_iff, ==_self, Bool-cases, Option-cases, Eq, length, get_elem?, get_or, take, drop, replicate,
  slice, length-append, length-take, length-drop, length-replicate, take-append, drop-append, All,
  All-append, All-take, All-drop, All-split, All-replicate, take-append_over, get_elem?-append_mid,
  take-append_le, slice-append, take_all, append_get_or, Error, Result, ok, raise, value_error,
  manchester_error, plm_format_error, ◌>>=◌, ◌>>◌, raise_if, >>=-eq-ok, list_eq, list_beq,
  list_beq_iff, bool_beq,
}
use insteonrf.Common.Dict.{Dict, get, put}
use insteonrf.Packet.Address.{Address, address_eq}
use insteonrf.Packet.Fields.{Packet, crc_ok, hops_ok, extended, ext_crc_ok, is_true, is_false}
use insteonrf.Plm.{to_plm_bytes}
use insteonrf.Fusion.{FusedEvent}
use insteonrf.Inject.Memory.{PlmMemory, heard, forget_old}
use insteonrf.Inject.Classify.{
  Tier, battery, group, state, Reason, Counters, Injector, Class, classify, sender_of, tier,
}

pub record Decision : Type 0 where
  pub inject : Bool
  pub reason : Reason
  pub tier : Option Tier
  pub frame : Option (List ℕ)
  pub would_inject : Bool

-- the injector and the event after a call, and the decision
pub record Outcome : Type 0 where
  pub injector : Injector
  pub event : FusedEvent
  pub decision : Decision

-- A number for each text that `refuse` counts under.
abbrev pub tier_int : Tier → ℕ
tier_int battery = 1
tier_int group = 2
tier_int state = 3

unfoldable pub reason_key : Reason → List ℕ
reason_key Reason.kill_switch = 0 ∷ []
reason_key Reason.reply = 1 ∷ []
reason_key Reason.no_sender = 2 ∷ []
reason_key Reason.own_transmission = 3 ∷ []
reason_key Reason.unknown_sender = 4 ∷ []
reason_key Reason.crc_failed = 5 ∷ []
reason_key Reason.index_rejected = 6 ∷ []
reason_key Reason.bad_hops = 7 ∷ []
reason_key Reason.ext_crc_failed = 8 ∷ []
reason_key Reason.plm_heard = 9 ∷ []
reason_key Reason.device_rate = 10 ∷ []
reason_key Reason.global_rate = 11 ∷ []
reason_key Reason.shadow_mode = 12 ∷ []
reason_key Reason.injected = 13 ∷ []
reason_key Reason.assertion_failed = 14 ∷ []
reason_key (Reason.unhandled t) = 15 ∷ insteonrf.Packet.Flags.msg_type_int t ∷ []
reason_key (Reason.tier_disabled t) = 16 ∷ tier_int t ∷ []
reason_key (Reason.repaired n) = 17 ∷ n ∷ []
reason_key (Reason.few_receivers n m) = 18 ∷ n ∷ m ∷ []
reason_key (Reason.unrenderable e) = 19 ∷ []

-- `self.refused.get(reason, 0) + 1`
unfoldable pub refuse : Counters → Reason → Counters
refuse c why =
    let k = reason_key why in
    record c { refused = put k (elim (get k c.refused) [ none ↦ 0 | some n ↦ n ] + 1) c.refused }

-- `_no`
unfoldable pub no_ : Injector → FusedEvent → Reason → Outcome
no_ inj ev why = record {
  injector = record inj { counters = refuse inj.counters why };
  event = ev;
  decision = record {
    inject = false;
    reason = why;
    tier = none;
    frame = none;
    would_inject = false;
  };
}

-- `[t for t in recent if now - t < 60.0]`
unfoldable pub last_minute : ℕ → List ℕ → List ℕ
last_minute now [] = []
last_minute now (t ∷ ts) =
    if ltb now (t + 60_000_000) then t ∷ last_minute now ts else last_minute now ts

-- `considered += 1; _forget_old(now)`
unfoldable pub begin : Injector → ℕ → Injector
begin inj now = record inj {
  counters = record (inj.counters) { considered = inj.counters.considered + 1 };
  memory = forget_old inj.memory now;
  recent_injections = last_minute now inj.recent_injections;
}

abbrev pub tier_beq : Tier → Tier → Bool
tier_beq a b = tier_int a == tier_int b

unfoldable pub mem_tier : Tier → List Tier → Bool
mem_tier t [] = false
mem_tier t (u ∷ tiers) = tier_beq t u || mem_tier t tiers

-- the checks of the bytes, in order
unfoldable pub packet_fault : Injector → FusedEvent → Option Reason
packet_fault inj ev =
    let p = ev.packet in
    if not (is_true (crc_ok p))
    then some Reason.crc_failed
    else if is_false p.index_ok
    then some Reason.index_rejected
    else if not (hops_ok p)
    then some Reason.bad_hops
    else if extended p && is_false (ext_crc_ok p)
    then some Reason.ext_crc_failed
    else if ltb 0 p.corrected
    then some (Reason.repaired p.corrected)
    else if ev.combined && ltb ev.combined_from inj.min_combined_receivers
    then some (Reason.few_receivers ev.combined_from inj.min_combined_receivers)
    else none

-- shadow mode, or the injection
unfoldable pub fire : Injector → FusedEvent → Tier → Address → List ℕ → ℕ → Outcome
fire inj ev t sender frame now =
    if inj.shadow
    then record {
      injector = record inj {
        counters = record (inj.counters) { would_inject = inj.counters.would_inject + 1 };
      };
      event = ev;
      decision = record {
        inject = false;
        reason = Reason.shadow_mode;
        tier = some t;
        frame = some frame;
        would_inject = true;
      };
    }
    else record {
      injector = record inj {
        last_per_device = put sender now inj.last_per_device;
        recent_injections = inj.recent_injections ++ now ∷ [];
        counters = record (inj.counters) { injected = inj.counters.injected + 1 };
        sent = if inj.publish then frame ∷ inj.sent else inj.sent;
      };
      event = ev;
      decision = record {
        inject = true;
        reason = Reason.injected;
        tier = some t;
        frame = some frame;
        would_inject = false;
      };
    }

-- `last is not None and now - last < self.per_device_interval_s`
abbrev pub too_soon : Injector → Address → ℕ → Bool
too_soon inj sender now = elim (get sender inj.last_per_device) [
  | none ↦ false
  | some last ↦ ltb now (last + inj.per_device_interval)
]

-- the rate limits, and the frame
unfoldable pub rate : Injector → FusedEvent → Tier → ℕ → Outcome
rate inj ev t now = elim (sender_of ev.packet) [
  | none ↦ no_ inj ev Reason.assertion_failed
  | some sender ↦
      if too_soon inj sender now
      then no_ inj ev Reason.device_rate
      else if leb inj.global_per_minute (length inj.recent_injections)
      then no_ inj ev Reason.global_rate
      else elim (to_plm_bytes ev.packet true) [
        | raise e ↦ no_ inj ev (Reason.unrenderable e)
        | ok frame ↦ fire inj ev t sender frame now
      ]
]

-- `if self.plm_heard(...)`, which also marks the event
unfoldable pub settle : Injector → FusedEvent → Tier → ℕ → Outcome
settle inj ev t now =
    if heard inj.memory ev.key ev.last_seen
    then no_ inj (record ev { plm_saw_it = some true }) Reason.plm_heard
    else rate inj (record ev { plm_saw_it = some false }) t now

unfoldable pub admit : Injector → FusedEvent → Tier → ℕ → Outcome
admit inj ev t now =
    if not (mem_tier t inj.allow)
    then no_ inj ev (Reason.tier_disabled t)
    else elim (packet_fault inj ev) [ some why ↦ no_ inj ev why | none ↦ settle inj ev t now ]

-- `enabled` is the answer of the kill switch.
unfoldable pub consider : Injector → Bool → FusedEvent → ℕ → Outcome
consider inj0 enabled ev now =
    let inj = begin inj0 now in
    if not enabled then no_ inj ev Reason.kill_switch else elim (classify inj ev.packet) [
      | Class.refused why ↦ no_ inj ev why
      | Class.tier t ↦ admit inj ev t now
    ]
