-- ===== src/Mesh.antt =====
-- insteonrf/mesh.py: class MissTable, how often each device was heard on RF but not by the modem.
-- A device is listed under its address's number, a receiver under the characters of its name.
mod Tests
pub mod Tallies
pub mod Service
pub mod Link
pub mod Run
pub mod Held
pub mod Judged
use insteonrf.Common.{
  ℕ, ◌+◌, ◌==◌, Bool, true, false, not, ◌&&◌, ◌||◌, if◌then◌else◌, Option, none, some, List, [],
  ◌∷◌, ◌++◌, list_eq, list_beq,
}
use insteonrf.Common.Dict.{Dict, get, put}
use insteonrf.Packet.Address.{Address}
use insteonrf.Packet.Fields.{crc_ok, hops_ok, is_true}
use insteonrf.Fusion.{FusedEvent, ReceiverView}
use insteonrf.Fusion.Bucket.{louder}
use insteonrf.Fusion.Collect.{add_late}
use insteonrf.Inject.Classify.{sender_of, is_own, is_unknown}

pub record DeviceMisses : Type 0 where
  pub heard_by_rf : ℕ
  pub plm_also_heard : ℕ
  pub plm_missed : ℕ
  pub injected : ℕ
  pub best_rssi : Option ℕ
  pub receivers : List (List ℕ)

-- `DeviceMisses()`
abbrev pub new_device : DeviceMisses
new_device = record {
  heard_by_rf = 0;
  plm_also_heard = 0;
  plm_missed = 0;
  injected = 0;
  best_rssi = none;
  receivers = [];
}

pub record MissTable : Type 0 where
  pub devices : Dict (List ℕ) DeviceMisses
  pub known_addrs : Option (List Address)
  pub unknown_senders : ℕ
  pub plm_addr : Option Address
  pub plm_own_transmissions : ℕ
  pub undecodable : ℕ
  pub messages : ℕ
  pub heard : Dict (List ℕ) ℕ
  pub sole : Dict (List ℕ) ℕ

-- `MissTable(plm_addr, known_addrs)`
abbrev pub new_table : Option Address → Option (List Address) → MissTable
new_table plm known = record {
  devices = [];
  known_addrs = known;
  unknown_senders = 0;
  plm_addr = plm;
  plm_own_transmissions = 0;
  undecodable = 0;
  messages = 0;
  heard = [];
  sole = [];
}

-- the loop over the receivers: `self.heard[name] = self.heard.get(name, 0) + 1`
unfoldable pub count_heard : Dict (List ℕ) ReceiverView → Dict (List ℕ) ℕ → Dict (List ℕ) ℕ
count_heard [] heard = heard
count_heard ((name, view) ∷ views) heard = count_heard views (add_late name heard)

-- a message that one receiver alone heard
abbrev pub count_sole : Dict (List ℕ) ReceiverView → Dict (List ℕ) ℕ → Dict (List ℕ) ℕ
count_sole [] sole = sole
count_sole ((name, view) ∷ []) sole = add_late name sole
count_sole (v ∷ w ∷ views) sole = sole

-- `name in names`, and `names.update(views)`
unfoldable pub mem_name : List ℕ → List (List ℕ) → Bool
mem_name name [] = false
mem_name name (n ∷ names) = list_beq n name || mem_name name names

unfoldable pub add_names : Dict (List ℕ) ReceiverView → List (List ℕ) → List (List ℕ)
add_names [] names = names
add_names ((name, view) ∷ views) names =
    add_names views (if mem_name name names then names else names ++ name ∷ [])

-- the loudest copy so far
unfoldable pub loudest : Dict (List ℕ) ReceiverView → Option ℕ → Option ℕ
loudest [] best = best
loudest ((name, view) ∷ views) best = loudest views (louder best view.rssi)

abbrev pub one_if : Bool → ℕ
one_if true = 1
one_if false = 0

-- `is True`, and `is False`, of the modem's verdict
abbrev pub saw : Bool → Option Bool → Bool
saw answer none = false
saw true (some b) = b
saw false (some b) = not b

abbrev pub device_of : Option DeviceMisses → DeviceMisses
device_of none = new_device
device_of (some d) = d

-- the tally of one message of a device
unfoldable pub tally_device : DeviceMisses → FusedEvent → Bool → DeviceMisses
tally_device d ev injected = record {
  heard_by_rf = d.heard_by_rf + 1;
  plm_also_heard = d.plm_also_heard + one_if (saw true ev.plm_saw_it);
  plm_missed = d.plm_missed + one_if (saw false ev.plm_saw_it);
  injected = d.injected + one_if injected;
  best_rssi = loudest ev.receivers d.best_rssi;
  receivers = add_names ev.receivers d.receivers;
}

-- the part of `note` for a message of a device
unfoldable pub count_message : MissTable → FusedEvent → Address → Bool → MissTable
count_message t ev who injected =
    let key = who.value ∷ [] in
    record t {
      messages = t.messages + 1;
      heard = count_heard ev.receivers t.heard;
      sole = count_sole ev.receivers t.sole;
      devices = put key (tally_device (device_of (get key t.devices)) ev injected) t.devices;
    }

-- the part of `note` for a packet that decoded, by its sender
abbrev pub note_sender : MissTable → FusedEvent → Bool → Option Address → MissTable
note_sender t ev injected none = t
note_sender t ev injected (some who) =
    if is_own t.plm_addr who
    then record t { plm_own_transmissions = t.plm_own_transmissions + 1 }
    else if is_unknown t.known_addrs who
    then record t { unknown_senders = t.unknown_senders + 1 }
    else count_message t ev who injected

-- `note`
unfoldable pub note : MissTable → FusedEvent → Bool → MissTable
note t ev injected =
    if is_true (crc_ok ev.packet) && hops_ok ev.packet
    then note_sender t ev injected (sender_of ev.packet)
    else record t { undecodable = t.undecodable + 1 }
