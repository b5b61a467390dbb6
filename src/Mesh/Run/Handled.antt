-- ===== src/Mesh/Run/Handled.antt =====
-- mesh.py, `MeshService.run` over any turns: what its counters add up to.
use insteonrf.Common.{
  ℕ, suc, ◌+◌, Bool, Option, none, some, List, [], ◌∷◌, length, ◌≡◌, refl, ap, ◌∙◌, arith,
  length-append,
}
use insteonrf.Mesh.Service.{MeshService, handle_capture, stop}
use insteonrf.Mesh.Link.{new_link, on_message, healthy}
use insteonrf.Mesh.Run.{
  Running, Turn, poll, captured, mirrored, max_silence, handle_next, note_frame, poll_once, turn,
  run_turns, run,
}
use insteonrf.Mesh.Run.Totals.{drain-kept, stop-kept}
use insteonrf.Radio.Mqtt.Payload.{Json, Capture}
use insteonrf.Radio.Mqtt.Receiver.{MqttReceiver, new_receiver, next_capture, pop_head}
use insteonrf.Radio.Mqtt.Receiver as Receiver
use insteonrf.Radio.Mqtt.Receiver.Counts.{listed, joined, on_message-Joins}

-- the messages of the receivers
unfoldable pub messages_in : List Turn → ℕ
messages_in [] = 0
messages_in (captured cap ∷ turns) = suc (messages_in turns)
messages_in (poll clock now enabled ∷ turns) = messages_in turns
messages_in (mirrored payload now ∷ turns) = messages_in turns

-- what some turns change, from `w` to `v`, with so many messages and so many settled events
abbrev Adds : Running → Running → ℕ → ℕ → Type 0
Adds w v sent settled =
    (v.service.captures + length v.receiver.queue + w.receiver.received
      ≡ w.service.captures + length w.receiver.queue + v.receiver.received)
    × (v.receiver.received + v.receiver.dropped ≡ w.receiver.received + w.receiver.dropped + sent)
    × (settled + length v.service.holding + w.service.events
        ≡ length w.service.holding + v.service.events)

handled :
    (svc : MeshService) (cap : Option Capture) (clock : ℕ)
    → let out = handle_next svc cap clock in
      (out.captures ≡ svc.captures + length (listed cap))
      × (out.events ≡ svc.events)
      × (out.holding ≡ svc.holding)
unfolding handle_capture
handled svc none clock = (omega arith, refl, refl)
handled svc (some cap) clock = (refl, refl, refl)

popped_lem :
    (r : MqttReceiver) (queue : List Capture)
    → r.queue ≡ queue
    → let out = pop_head r queue in
      (length r.queue ≡ length out.0.queue + length (listed out.1))
      × (out.0.received ≡ r.received)
      × (out.0.dropped ≡ r.dropped)
popped_lem r [] e = (omega arith, refl, refl)
popped_lem r (cap ∷ queue) e = (omega (arith, ap length e), refl, refl)

poll-Adds :
    (w : Running) (clock now : ℕ) (enabled : Bool)
    → let out = poll_once w clock now enabled in Adds w out.0 0 (length out.1)
unfolding poll_once next_capture
poll-Adds w clock now enabled =
    let next = pop_head w.receiver w.receiver.queue in
    let p = popped_lem w.receiver w.receiver.queue refl in
    let svc = handle_next w.service next.1 clock in
    let h = handled w.service next.1 clock in
    let d = drain-kept now enabled (some (healthy w.link now max_silence)) svc in
    (
      omega (arith, p.0, p.1, h.0, d.0),
      omega (arith, p.1, p.2),
      omega (arith, d.1, h.1, ap length h.2),
    )

captured-Adds :
    (w : Running) (cap : Option Capture)
    → Adds w (record w { receiver = Receiver.on_message w.receiver cap }) 1 0
captured-Adds w cap =
    let m = on_message-Joins w.receiver cap in
    let n = ap length m.0 ∙ length-append w.receiver.queue (joined w.receiver cap) in
    (omega (arith, n, m.1), omega (arith, m.2), omega arith)

note_frame-kept :
    (svc : MeshService) (raw : Option (List ℕ)) (now : ℕ)
    → let out = note_frame svc raw now in
      (out.captures ≡ svc.captures) × (out.events ≡ svc.events) × (out.holding ≡ svc.holding)
note_frame-kept svc none now = (refl, refl, refl)
note_frame-kept svc (some raw) now = (refl, refl, refl)

module _ (loads : List ℕ → Option Json) (fromhex : List ℕ → Option (List ℕ)) where
  turn-Adds :
      (w : Running) (t : Turn)
      → let out = turn loads fromhex w t in Adds w out.0 (messages_in (t ∷ [])) (length out.1)
  unfolding turn messages_in
  turn-Adds w (poll clock now enabled) = poll-Adds w clock now enabled
  turn-Adds w (captured cap) = captured-Adds w cap
  turn-Adds w (mirrored payload now) =
      let k = note_frame-kept w.service (on_message loads fromhex w.link payload now).1 now in
      (omega (arith, k.0), omega arith, omega (arith, k.1, ap length k.2))

  messages_in-cons :
      (t : Turn) (turns : List Turn)
      → messages_in (t ∷ turns) ≡ messages_in (t ∷ []) + messages_in turns
  unfolding messages_in
  messages_in-cons (poll clock now enabled) turns = omega arith
  messages_in-cons (captured cap) turns = omega arith
  messages_in-cons (mirrored payload now) turns = omega arith

  run_turns-Adds :
      (w : Running) (turns : List Turn)
      → let out = run_turns loads fromhex w turns in Adds w out.0 (messages_in turns) (length out.1)
  unfolding run_turns messages_in
  run_turns-Adds w [] = (omega arith, omega arith, omega arith)
  run_turns-Adds w (t ∷ turns) =
      let step = turn loads fromhex w t in
      let a = turn-Adds w t in
      let rest = run_turns loads fromhex step.0 turns in
      let b = run_turns-Adds step.0 turns in
      (
        omega (arith, a.0, b.0),
        omega (arith, a.1, b.1, messages_in-cons t turns),
        omega (arith, a.2, b.2, length-append step.1 rest.1),
      )

-- A run of the service, started anew, with any messages of receivers and of the modem's mirror
-- between the turns of its loop: each capture that the receiver accepted has been handled or is
-- still in its queue, and each message was accepted or dropped; the end of the run settles what is
-- held, and then as many events have come out as were counted.
pub run_totals :
    (loads : List ℕ → Option Json) (fromhex : List ℕ → Option (List ℕ)) (svc : MeshService)
    (maxsize : ℕ) (turns : List Turn) (now : ℕ) (enabled : Bool)
    → svc.captures ≡ 0
    → svc.events ≡ 0
    → svc.holding ≡ []
    → let w : Running = record {
      service = svc;
      receiver = new_receiver maxsize;
      link = new_link;
    } in
      let r = (run_turns loads fromhex w turns).0.receiver in
      let final = run loads fromhex w turns now enabled in
      (final.0.captures + length r.queue ≡ r.received)
      × (r.received + r.dropped ≡ messages_in turns)
      × (final.0.holding ≡ [])
      × (length final.1 ≡ final.0.events)
unfolding run
run_totals loads fromhex svc maxsize turns now enabled no_captures no_events none_held =
    let w : Running = record { service = svc; receiver = new_receiver maxsize; link = new_link } in
    let ran = run_turns loads fromhex w turns in
    let a = run_turns-Adds loads fromhex w turns in
    let healthy_now = some (healthy ran.0.link now max_silence) in
    let s = stop-kept now enabled healthy_now ran.0.service in
    (
      omega (arith, a.0, s.0, no_captures),
      omega (arith, a.1),
      s.1,
      omega (
        arith,
        a.2,
        s.2,
        no_events,
        ap length none_held,
        length-append ran.1 (stop ran.0.service now enabled healthy_now).1,
      ),
    )
