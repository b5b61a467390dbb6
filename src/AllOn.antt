-- ===== src/AllOn.antt =====
-- insteonrf/allon.py: class AllOnWatcher, which watches for broadcasts that turn everything on.
-- Times are numbers of microseconds. The text of a trigger and the signal strengths are left out;
-- the key of a sender's tally is its address, or none for "unknown".
mod Tests
pub mod Cooldown
pub mod Raises
pub mod Reports
pub mod Watch
use insteonrf.Common.{
  ◌*◌, ℕ, ◌+◌, Option, none, some, List, [], ◌∷◌, ◌++◌, Bool, true, false, not, ◌&&◌, ◌||◌, ◌==◌,
  ltb, leb, if◌then◌else◌, length, drop, take, list_eq, list_beq, Result, ok, raise, type_error,
  ◌>>=◌, get_elem?,
}
use insteonrf.Common.Dict.{Dict, get, put}
use insteonrf.Packet.Address.{Address}
use insteonrf.Packet.Fields.{
  Packet, is_group_broadcast, from_addr, to_addr, group, cmd1, crc_ok, is_false, crc_index,
}
use insteonrf.Plm.{mask_hops}
use insteonrf.Monitor.{mem_nat}

abbrev pub on_commands : List ℕ
on_commands = 0x11 ∷ 0x12 ∷ []

abbrev pub all_devices_group : ℕ
all_devices_group = 0

abbrev pub device_groups : List ℕ
device_groups = 1 ∷ 2 ∷ 3 ∷ 4 ∷ 5 ∷ 6 ∷ 7 ∷ 8 ∷ []

abbrev pub default_cooldown : ℕ
default_cooldown = 300_000_000

abbrev pub default_window : ℕ
default_window = 30_000_000

abbrev pub default_storm_count : ℕ
default_storm_count = 12

abbrev pub default_storm_window : ℕ
default_storm_window = 3_000_000

pub record Seen : Type 0 where
  pub at : ℕ
  pub packet : Option Packet

pub data TriggerKind : Type 0 where
  all_link_group_0 unknown_group storm : TriggerKind

pub record Trigger : Type 0 where
  pub kind : TriggerKind
  pub at : ℕ
  pub packet : Packet

pub record Suspect : Type 0 where
  pub packets : ℕ
  pub crc_failures : ℕ
  pub group0 : ℕ
  pub unknown_groups : ℕ
  pub repaired : ℕ

abbrev pub new_suspect : Suspect
new_suspect = record { packets = 0; crc_failures = 0; group0 = 0; unknown_groups = 0; repaired = 0 }

pub record Watcher : Type 0 where
  pub known_groups : Option (List ℕ)
  pub own_groups : List ℕ
  pub window : ℕ
  pub storm_count : ℕ
  pub storm_window : ℕ
  pub cooldown : ℕ
  pub history : List Seen
  pub suspects : Dict (List ℕ) Suspect
  pub triggers : List Trigger
  pub suppressed : Dict (List ℕ) ℕ
  pub recent_groups : List (ℕ × Option ℕ)
  pub last_fired : Dict (List ℕ) ℕ

-- `AllOnWatcher(known_groups=...)`, every other argument at its default
abbrev pub watcher : Option (List ℕ) → Watcher
watcher known = record {
  known_groups = known;
  own_groups = device_groups;
  window = default_window;
  storm_count = default_storm_count;
  storm_window = default_storm_window;
  cooldown = default_cooldown;
  history = [];
  suspects = [];
  triggers = [];
  suppressed = [];
  recent_groups = [];
  last_fired = [];
}

-- the property `score`
unfoldable pub score : Suspect → ℕ
score s = s.group0 * 100 + s.unknown_groups * 10 + s.crc_failures

-- the entries of the history that are kept: `h.at >= now - window_s`
unfoldable pub recent_seen : ℕ → ℕ → List Seen → List Seen
recent_seen now window [] = []
recent_seen now window (h ∷ hs) =
    if leb now (h.at + window) then h ∷ recent_seen now window hs else recent_seen now window hs

-- `_expire`
unfoldable pub expire_history : ℕ → ℕ → List Seen → List Seen
expire_history now window [] = []
expire_history now window (h ∷ hs) =
    if ltb (h.at + window) now then recent_seen now window (h ∷ hs) else h ∷ hs

-- `pkt.from_addr or pkt.to_addr`
unfoldable pub sender_key : Packet → List ℕ
sender_key p = elim (from_addr p) [
  | some a ↦ a.value ∷ []
  | none ↦ elim (to_addr p) [ some a ↦ a.value ∷ [] | none ↦ [] ]
]

-- `group == 0`
abbrev pub is_group_0 : Option ℕ → Bool
is_group_0 none = false
is_group_0 (some g) = g == all_devices_group

-- `x in xs`, where x may be None
abbrev pub mem_option : Option ℕ → List ℕ → Bool
mem_option none xs = false
mem_option (some x) xs = mem_nat x xs

-- `known_groups is not None and group not in known_groups and group not in device_groups`
unfoldable pub is_unknown_group : Watcher → Packet → Bool
is_unknown_group w p = elim w.known_groups [
  | none ↦ false
  | some known ↦ not (mem_option (group p) known) && not (mem_option (group p) w.own_groups)
]

abbrev pub one_if : Bool → ℕ
one_if true = 1
one_if false = 0

-- the tally of one packet
unfoldable pub tallied : Watcher → Packet → Suspect → Suspect
tallied w p s =
    let cast = is_group_broadcast p in
    let zeroth = is_group_0 (group p) in
    record {
      packets = s.packets + 1;
      crc_failures = s.crc_failures + one_if (is_false (crc_ok p));
      group0 = s.group0 + one_if (cast && zeroth);
      unknown_groups = s.unknown_groups + one_if (cast && not zeroth && is_unknown_group w p);
      repaired = s.repaired + one_if (ltb 0 p.corrected);
    }

-- `setdefault(who, Suspect(who))`
abbrev pub suspect_of : Option Suspect → Suspect
suspect_of none = new_suspect
suspect_of (some s) = s

-- `_tally`
unfoldable pub tally : Watcher → Packet → Watcher
tally w p =
    let who = sender_key p in
    record w { suspects = put who (tallied w p (suspect_of (get who w.suspects))) w.suspects }
