-- ===== src/Inject/Tests.antt =====
-- The properties of the injector at a sample event.
use insteonrf.Common.Dict.{IsDict, put, get}
use insteonrf.Common.{
  ◌++◌, Bool, list_beq, ◌&&◌, leb, if◌then◌else◌, list_eq, ℕ, Option, some, none, List, [], ◌∷◌, ok,
  ◌≡◌, ◌≢◌, refl, true, false, arith, ◌↔◌, ◌≤◌, length, ◌+◌,
}
use insteonrf.Packet.Samples.{on_packet, on_frame, hub, lamp}
use insteonrf.Packet.Address.{Address}
use insteonrf.Fusion.{FusedEvent}
use insteonrf.Plm.{message_key, from_plm_bytes, to_plm_bytes}
use insteonrf.Inject.Memory.{PlmMemory, heard, forget_old, suppress_window}
use insteonrf.Inject.Memory.Log.{
  Step, frame, forget, run, last_frame, is_near, ForgetsBy, run-heard,
}
use insteonrf.Inject.Classify.{Injector, Tier, state, sender_of}
use insteonrf.Inject.Consider.{last_minute, consider}
use insteonrf.Inject.Consider.Cleared.{Cleared}
use insteonrf.Inject.Consider.Safety.{consider-inject_iff}
use insteonrf.Inject.Consider.Counts.{added, consider-counts, consider-limit, decided}
use insteonrf.Inject.Consider.Spacing.{considers, consider-spaced}

abbrev memory : PlmMemory
memory = record { window = suppress_window; frames = 0; seen = [] }

abbrev injector : Injector
injector = record {
  publish = true;
  plm_addr = some lamp;
  battery_addrs = [];
  known_addrs = some (hub ∷ []);
  allow = state ∷ [];
  shadow = false;
  per_device_interval = 30_000_000;
  global_per_minute = 6;
  min_combined_receivers = 3;
  counters = record { considered = 0; injected = 0; would_inject = 0; refused = [] };
  memory = memory;
  last_per_device = [];
  recent_injections = [];
  sent = [];
}

abbrev event : FusedEvent
event = record {
  key = message_key on_packet;
  packet = on_packet;
  first_seen = 1_000_000;
  last_seen = 1_200_000;
  hops_left_min = 3;
  hops_left_max = 3;
  receivers = [];
  closest = none;
  combined = false;
  combined_from = 0;
  repeat_index = 0;
  plm_saw_it = none;
}

on_parsed : from_plm_bytes on_frame ≡ ok on_packet
unfolding from_plm_bytes insteonrf.Plm.plm_code insteonrf.Packet.Address.of_seq
    insteonrf.Plm.air_body insteonrf.Packet.Address.wire insteonrf.Packet.Crc.pkt_crc
    insteonrf.Packet.Build.pad_bytes insteonrf.Packet.Crc.crc_loop insteonrf.Packet.Crc.crc_mix
on_parsed = refl

abbrev steps : List Step
steps = frame on_frame 1_000_000 ∷ forget 9_000_000 ∷ frame on_frame 20_000_000 ∷ []

memory-IsDict : IsDict memory.seen
unfolding IsDict
memory-IsDict = tt

steps-ForgetsBy : ForgetsBy memory.window 1_700_000 steps
unfolding ForgetsBy
steps-ForgetsBy = (omega arith, tt)

run-heard_example :
    heard (run memory steps) (message_key on_packet) 1_700_000
    ≡ is_near memory.window 1_700_000
        (last_frame (message_key on_packet) steps (get (message_key on_packet) memory.seen))
run-heard_example =
    run-heard memory steps (message_key on_packet) 1_700_000 memory-IsDict steps-ForgetsBy

event_injected : (consider injector true event 2_000_000).decision.inject ≡ true
unfolding consider insteonrf.Inject.Classify.classify insteonrf.Packet.Fields.msg_type sender_of
    insteonrf.Packet.Fields.is_group_broadcast insteonrf.Packet.Fields.from_addr
    insteonrf.Packet.Address.from_wire insteonrf.Inject.Consider.begin
    insteonrf.Inject.Classify.mem_addr insteonrf.Inject.Consider.admit
    insteonrf.Inject.Consider.mem_tier insteonrf.Inject.Consider.packet_fault
    insteonrf.Packet.Fields.crc_ok insteonrf.Packet.Fields.crc insteonrf.Packet.Fields.calc_crc
    insteonrf.Packet.Crc.pkt_crc insteonrf.Packet.Crc.crc_loop insteonrf.Packet.Crc.crc_mix get
    insteonrf.Common.Dict.purge insteonrf.Inject.Classify.tier_of insteonrf.Inject.Consider.fire
    insteonrf.Inject.Consider.last_minute insteonrf.Inject.Consider.rate
    insteonrf.Inject.Consider.settle forget_old heard insteonrf.Packet.Address.any_wide
    insteonrf.Packet.Address.bytes insteonrf.Packet.Address.of_seq insteonrf.Packet.Fields.crc_index
    insteonrf.Packet.Fields.extended insteonrf.Packet.Fields.hops_ok
    insteonrf.Packet.Flags.msg_type_of insteonrf.Plm.plm_frame insteonrf.Plm.plm_gate to_plm_bytes
event_injected = refl

consider-inject_iff_example : ((consider injector true event 2_000_000).decision.inject ≡ true) ↔ (
    (t : Tier) × (sender : Address) × (frame : List ℕ) × Cleared injector true event 2_000_000 t
      sender frame)
consider-inject_iff_example = consider-inject_iff injector true event 2_000_000

consider-counts_example :
    ((consider injector true event 2_000_000).injector.counters.considered ≡ 1)
    × (decided (consider injector true event 2_000_000).injector.counters
        ≡ decided injector.counters + 1)
consider-counts_example = consider-counts injector true event 2_000_000

consider-limit_example :
    (length (consider injector true event 2_000_000).injector.recent_injections
      ≤ (consider injector true event 2_000_000).injector.global_per_minute)
    × ((consider injector true event 2_000_000).injector.recent_injections
        ≡ last_minute 2_000_000 injector.recent_injections
          ++ added (consider injector true event 2_000_000).decision.inject 2_000_000)
consider-limit_example = consider-limit injector true event 2_000_000 (omega arith)

-- the same event again, and one while the kill switch is on
abbrev between : List (Bool × FusedEvent × ℕ)
between = (true, event, 3_000_000) ∷ (false, event, 9_000_000) ∷ []

consider-spaced_example :
    (consider
      (considers (consider injector true event 2_000_000).injector between)
      true
      event
      20_000_000).decision.inject
    ≡ false
consider-spaced_example =
    consider-spaced injector true true event event 2_000_000 20_000_000 between event_injected refl
      (omega arith)
