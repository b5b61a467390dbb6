-- ===== src/Mesh/Run.antt =====
-- mesh.py, `MeshService.handle_capture` on a capture with hard bits, and `MeshService.run` with its
-- receiver and its link to the modem, whose callbacks run between the turns of its loop. What the
-- injector publishes is in the state of the injector.
pub mod Totals
pub mod Handled
use insteonrf.Common.{
  Result, ok, raise, ℕ, zero, suc, ◌+◌, ◌-◌, ◌*◌, ◌/◌, ◌%◌, ◌^◌, ◌==◌, ltb, leb, bit_and, bit_or,
  Bool, true, false, not, ◌&&◌, ◌||◌, if◌then◌else◌, Option, none, some, List, [], ◌∷◌, ◌++◌,
  length, take, drop, map, list_beq, Result, ok, raise, value_error,
}
use insteonrf.Common.Int.{ℤ, pos, negsuc}
use insteonrf.Fusion.{Sighting, FusedEvent}
use insteonrf.Fusion.Capture.{Source, sightings_from_capture}
use insteonrf.Inject.Memory.{PlmMemory}
use insteonrf.Inject.Memory as Memory
use insteonrf.Mesh.Service.{MeshService, handle_capture, drain, stop}
use insteonrf.Mesh.Link.{PlmLink, on_message, healthy}
use insteonrf.Radio.Mqtt.Payload.{Json, Capture}
use insteonrf.Radio.Mqtt.Receiver.{MqttReceiver, next_capture}
use insteonrf.Radio.Mqtt.Receiver as Receiver

-- a signal strength, in thousandths of a dBm from -999 dBm
abbrev pub strength : ℤ → ℕ
strength (pos x) = 999_000 + x
strength (negsuc x) = 999_000 - (x + 1)

abbrev pub source_of : Capture → Source
source_of cap = record {
  receiver = cap.receiver;
  rssi = elim cap.rssi [ none ↦ none | some x ↦ some (strength x) ];
  timestamp = cap.timestamp;
  min_bytes = 4;
}

-- `handle_capture`
unfoldable pub capture_sightings : Capture → List Sighting
capture_sightings cap = sightings_from_capture (source_of cap) cap.bits

-- `if cap is not None: self.handle_capture(cap)`
abbrev pub handle_next : MeshService → Option Capture → ℕ → MeshService
handle_next svc none clock = svc
handle_next svc (some cap) clock = (handle_capture svc (capture_sightings cap) clock).0

-- the service with its receiver and its link
pub record Running : Type 0 where
  pub service : MeshService
  pub receiver : MqttReceiver
  pub link : PlmLink

-- a turn of the loop: its clocks, and the kill switch; a message of a receiver, with its capture if
-- it is usable; a message of the modem's mirror
pub data Turn : Type 0 where
  poll : ℕ → ℕ → Bool → Turn
  captured : Option Capture → Turn
  mirrored : List ℕ → ℕ → Turn

abbrev pub max_silence : ℕ
max_silence = 900_000_000

-- the memory after `note`; a call that raises leaves it as it was
abbrev pub noted : PlmMemory → Result (PlmMemory × Bool) → PlmMemory
noted m (ok (n, is_new)) = n
noted m (raise e) = m

-- `self.plm.on_frame(raw)`, which is `memory.note`
abbrev pub note_frame : MeshService → Option (List ℕ) → ℕ → MeshService
note_frame svc none now = svc
note_frame svc (some raw) now = record svc {
  memory = noted svc.memory (Memory.note svc.memory raw now);
}

-- the body of the loop
unfoldable pub poll_once : Running → ℕ → ℕ → Bool → Running × List FusedEvent
poll_once w clock now enabled =
    let next = next_capture w.receiver in
    let svc = handle_next w.service next.1 clock in
    let drained = drain svc now enabled (some (healthy w.link now max_silence)) in
    (record w { service = drained.0; receiver = next.0 }, drained.1)

module _ (loads : List ℕ → Option Json) (fromhex : List ℕ → Option (List ℕ)) where
  unfoldable pub turn : Running → Turn → Running × List FusedEvent
  turn w (poll clock now enabled) = poll_once w clock now enabled
  turn w (captured cap) = (record w { receiver = Receiver.on_message w.receiver cap }, [])
  turn w (mirrored payload now) =
      let answer = on_message loads fromhex w.link payload now in
      (record w { link = answer.0; service = note_frame w.service answer.1 now }, [])

  -- the turns of a run, and the events that they settle
  unfoldable pub run_turns : Running → List Turn → Running × List FusedEvent
  run_turns w [] = (w, [])
  run_turns w (t ∷ turns) =
      let step = turn w t in let rest = run_turns step.0 turns in (rest.0, step.1 ++ rest.1)

  -- the whole of `run`
  unfoldable pub run : Running → List Turn → ℕ → Bool → MeshService × List FusedEvent
  run w turns now enabled =
      let ran = run_turns w turns in
      let stopped = stop ran.0.service now enabled (some (healthy ran.0.link now max_silence)) in
      (stopped.0, ran.1 ++ stopped.1)
