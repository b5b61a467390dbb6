-- ===== src/Mesh/Service.antt =====
-- mesh.py: class MeshService, from sightings to settled events. `handle_capture` is given the
-- sightings of its capture (Run makes them); arguments are also the clock, the kill switch of the
-- injector and the answer of `plm.healthy()` (none without a link to the modem). The calls of the
-- writer and of `on_event` are left out. The service and its injector share one memory: the model
-- keeps it in the service, lends it to the injector for a call of `consider` and takes it back.
use insteonrf.Common.{
  ℕ, ◌+◌, leb, Bool, false, not, ◌&&◌, if◌then◌else◌, Option, none, some, List, [], ◌∷◌, ◌++◌,
  length,
}
use insteonrf.Context.{CommandTracker}
use insteonrf.Context as Context
use insteonrf.Fusion.{Sighting, FusedEvent}
use insteonrf.Fusion.Collect.{Fusion}
use insteonrf.Fusion.Collect as Collect
use insteonrf.Fusion.Emit as Emit
use insteonrf.Packet.Address.{Address}
use insteonrf.Mesh.{new_table, MissTable, note}
use insteonrf.Inject.Memory.{suppress_window, PlmMemory, heard}
use insteonrf.Inject.Classify.{Injector}
use insteonrf.Inject.Consider.{Outcome, consider}

abbrev pub default_grace : ℕ
default_grace = 2_500_000

pub record MeshService : Type 0 where
  pub injector : Option Injector
  pub fusion : Fusion
  pub tracker : CommandTracker
  pub require_plm_link : Bool
  pub grace : ℕ
  pub holding : List (ℕ × FusedEvent)
  pub misses : MissTable
  pub captures : ℕ
  pub packets : ℕ
  pub events : ℕ
  pub memory : PlmMemory

-- the memory that is given, or the injector's, or a new one
abbrev pub first_memory : Option PlmMemory → Option Injector → PlmMemory
first_memory (some m) inj = m
first_memory none (some inj) = inj.memory
first_memory none none = record { window = suppress_window; frames = 0; seen = [] }

-- what is given, or what an injector has
abbrev pub or_of : {A : Type 0} → Option A → Option A → Option A
or_of (some a) o = some a
or_of none o = o

abbrev pub own_addr : Option Injector → Option Address
own_addr none = none
own_addr (some inj) = inj.plm_addr

abbrev pub own_known : Option Injector → Option (List Address)
own_known none = none
own_known (some inj) = inj.known_addrs

-- `MeshService(...)`, with a fusion and a tracker
abbrev pub new_service :
    Option Injector
    → Fusion
    → CommandTracker
    → Bool
    → ℕ
    → Option PlmMemory
    → Option Address
    → Option (List Address)
    → MeshService
new_service inj f tracker require grace memory plm known = record {
  injector = inj;
  fusion = f;
  tracker = tracker;
  require_plm_link = require;
  grace = grace;
  holding = [];
  misses = new_table (or_of plm (own_addr inj)) (or_of known (own_known inj));
  captures = 0;
  packets = 0;
  events = 0;
  memory = first_memory memory inj;
}

-- the loop of `handle_capture`: each packet is annotated before its sighting is added
unfoldable pub take_sightings :
    CommandTracker → Fusion → List Sighting → ℕ → CommandTracker × Fusion
take_sightings tracker f [] clock = (tracker, f)
take_sightings tracker f (s ∷ found) clock =
    let observed = Context.observe tracker s.packet clock in
    take_sightings observed.0 (Collect.add f (record s { packet = observed.1 })) found clock

-- `handle_capture`, with the sightings of the capture
unfoldable pub handle_capture : MeshService → List Sighting → ℕ → MeshService × ℕ
handle_capture svc found clock =
    let taken = take_sightings svc.tracker svc.fusion found clock in
    (
      record svc {
        captures = svc.captures + 1;
        packets = svc.packets + length found;
        tracker = taken.0;
        fusion = taken.1;
      },
      length found,
    )

-- `self.require_plm_link and self.plm is not None and not self.plm.healthy()`
abbrev pub link_lost : Bool → Option Bool → Bool
link_lost require none = false
link_lost require (some healthy) = require && not healthy

-- the service after `consider`
abbrev pub settle_outcome : MeshService → Outcome → MeshService × FusedEvent
settle_outcome svc o = (
  record svc {
    injector = some o.injector;
    memory = o.injector.memory;
    misses = note svc.misses o.event o.decision.inject;
  },
  o.event,
)

-- the rest of `_finish`, at the injector and at an event with the modem's verdict
abbrev pub finish_event :
    MeshService → FusedEvent → ℕ → Bool → Option Bool → Option Injector → MeshService × FusedEvent
finish_event svc ev now enabled link none = (record svc { misses = note svc.misses ev false }, ev)
finish_event svc ev now enabled link (some inj) =
    if link_lost svc.require_plm_link link
    then (record svc { misses = note svc.misses ev false }, ev)
    else settle_outcome svc (consider (record inj { memory = svc.memory }) enabled ev now)

-- `_finish`
unfoldable pub finish : MeshService → FusedEvent → ℕ → Bool → Option Bool → MeshService × FusedEvent
finish svc ev now enabled link =
    finish_event svc (record ev { plm_saw_it = some (heard svc.memory ev.key ev.last_seen) }) now
      enabled link svc.injector

-- the result of settling some held events: the service, what is still held, and what came out
pub record Settled : Type 0 where
  pub service : MeshService
  pub held : List (ℕ × FusedEvent)
  pub out : List FusedEvent

-- the loop of `drain`: the head of the held events is settled while it is due
unfoldable pub settle_due : MeshService → ℕ → Bool → Option Bool → List (ℕ × FusedEvent) → Settled
settle_due svc now enabled link [] = record { service = svc; held = []; out = [] }
settle_due svc now enabled link ((due, ev) ∷ held) =
    let done = finish svc ev now enabled link in
    let rest = settle_due done.0 now enabled link held in
    if leb due now
    then record rest { out = done.1 ∷ rest.out }
    else record { service = svc; held = (due, ev) ∷ held; out = [] }

-- `self._holding.append((due, event))` for each event
unfoldable pub hold : ℕ → List FusedEvent → List (ℕ × FusedEvent)
hold due [] = []
hold due (ev ∷ evs) = (due, ev) ∷ hold due evs

-- `drain`
unfoldable pub drain : MeshService → ℕ → Bool → Option Bool → MeshService × List FusedEvent
drain svc now enabled link =
    let popped = Emit.pop_ready svc.fusion now in
    let settled =
      settle_due (record svc { fusion = popped.0; events = svc.events + length popped.1 }) now
        enabled link (svc.holding ++ hold (now + svc.grace) popped.1) in
    (record settled.service { holding = settled.held }, settled.out)

-- `flush`
unfoldable pub settle_all :
    MeshService → ℕ → Bool → Option Bool → List (ℕ × FusedEvent) → MeshService × List FusedEvent
settle_all svc now enabled link [] = (svc, [])
settle_all svc now enabled link ((due, ev) ∷ held) =
    let done = finish svc ev now enabled link in
    let rest = settle_all done.0 now enabled link held in (rest.0, done.1 ∷ rest.1)

unfoldable pub flush : MeshService → ℕ → Bool → Option Bool → MeshService × List FusedEvent
flush svc now enabled link =
    let settled = settle_all svc now enabled link svc.holding in
    (record settled.0 { holding = [] }, settled.1)

-- the end of `run`
unfoldable pub stop : MeshService → ℕ → Bool → Option Bool → MeshService × List FusedEvent
stop svc now enabled link =
    let popped = Emit.flush svc.fusion now in
    flush
      (record svc {
        fusion = popped.0;
        events = svc.events + length popped.1;
        holding = svc.holding ++ hold now popped.1;
      })
      now enabled link
