-- ===== src/Mesh/Tests.antt =====
-- A service that holds two events, one of them due.
use insteonrf.Common.{
  ℕ, List, Option, ◌+◌, ◌≡◌, refl, arith, none, some, [], ◌∷◌, true, false, length, list_eq,
}
use insteonrf.Common.Int.{pos}
use insteonrf.Packet.Samples.{on_frame, on_packet}
use insteonrf.Radio.Mqtt.Payload.{Capture, Json, object, text}
use insteonrf.Radio.Mqtt.Receiver.{new_receiver}
use insteonrf.Mesh.Link.{new_link}
use insteonrf.Mesh.Run.{Running, Turn, poll, captured, mirrored, run_turns}
use insteonrf.Mesh.Run as Run
use insteonrf.Mesh.Run.Handled.{messages_in, run_totals}
use insteonrf.Common.Totals.{total}
use insteonrf.Plm.{message_key}
use insteonrf.Context.{tracker}
use insteonrf.Context as Context
use insteonrf.Fusion.{FusedEvent, new_view}
use insteonrf.Fusion.Bucket.{Config}
use insteonrf.Fusion.Collect.{new_fusion}
use insteonrf.Mesh.Tallies.{AddsUp}
use insteonrf.Mesh.Service.{MeshService, new_service, default_grace, drain}
use insteonrf.Mesh.Held.{Rising, AllUpTo, AllAfter, drain_due}
use insteonrf.Mesh.Judged.{drain-AddsUp}

abbrev config : Config
config = record {
  window = 600_000;
  extend = 200_000;
  max_window = 2_000_000;
  repeat_memory = 60_000_000;
  allow_combine = true;
  lateness = 1_000_000;
}

abbrev event : FusedEvent
event = record {
  key = message_key on_packet;
  packet = on_packet;
  first_seen = 1_000_000;
  last_seen = 1_050_000;
  hops_left_min = 3;
  hops_left_max = 3;
  receivers = (107 ∷ [], new_view) ∷ [];
  closest = some (107 ∷ []);
  combined = false;
  combined_from = 0;
  repeat_index = 0;
  plm_saw_it = none;
}

abbrev fresh_service : MeshService
fresh_service =
    new_service none (new_fusion config) (tracker Context.default_window) true default_grace none
      none none

abbrev service : MeshService
service = record fresh_service {
  holding = (4_000_000, event) ∷ (5_500_000, event) ∷ [];
  events = 2;
}

service-Rising : Rising 0 service.holding
unfolding Rising
service-Rising = (omega arith, (omega arith, tt))

service-AllUpTo : AllUpTo (4_500_000 + service.grace) service.holding
unfolding AllUpTo
service-AllUpTo = (omega arith, (omega arith, tt))

drain_due_example :
    Rising 0 (drain service 4_500_000 true none).0.holding
    × AllUpTo (4_500_000 + service.grace) (drain service 4_500_000 true none).0.holding
    × AllAfter 4_500_000 (drain service 4_500_000 true none).0.holding
    × (length (drain service 4_500_000 true none).1
          + length (drain service 4_500_000 true none).0.holding
          + service.events
        ≡ length service.holding + (drain service 4_500_000 true none).0.events)
drain_due_example = drain_due service 4_500_000 true none service-Rising service-AllUpTo

fresh-AddsUp : AddsUp service.misses
unfolding total
fresh-AddsUp = (refl, refl)

drain-AddsUp_example : AddsUp (drain service 4_500_000 true none).0.misses
drain-AddsUp_example = drain-AddsUp service 4_500_000 true none fresh-AddsUp

-- a capture of nothing, and a mirror that reports one frame
abbrev capture : Capture
capture = record {
  receiver = 107 ∷ [];
  bits = [];
  timestamp = 1_000_000;
  rssi = none;
  seq = some (pos 3);
  micros = none;
  sync_word = none;
  soft = none;
  snr = none;
}

abbrev loads : List ℕ → Option Json
loads payload = some (object ((b'r' ∷ b'a' ∷ b'w' ∷ [], text payload) ∷ []))

abbrev fromhex : List ℕ → Option (List ℕ)
fromhex digits = some on_frame

abbrev turns : List Turn
turns =
    captured (some capture)
    ∷ captured (some capture)
    ∷ mirrored (48 ∷ 50 ∷ []) 900_000
    ∷ poll 1_100_000 1_100_000 true
    ∷ captured none
    ∷ captured (some capture)
    ∷ captured (some capture)
    ∷ []

abbrev start : Running
start = record { service = fresh_service; receiver = new_receiver 2; link = new_link }

run_totals_example :
    let r = (run_turns loads fromhex start turns).0.receiver in
    let final = Run.run loads fromhex start turns 9_000_000 false in
    (final.0.captures + length r.queue ≡ r.received)
    × (r.received + r.dropped ≡ messages_in turns)
    × (final.0.holding ≡ [])
    × (length final.1 ≡ final.0.events)
run_totals_example = run_totals loads fromhex fresh_service 2 turns 9_000_000 false refl refl refl
