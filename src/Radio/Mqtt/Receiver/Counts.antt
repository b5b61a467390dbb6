-- ===== src/Radio/Mqtt/Receiver/Counts.antt =====
-- radio/mqtt.py, class MqttReceiver over any sequence of messages and calls.
use insteonrf.Common.{
  ==_iff, ℕ, suc, ◌+◌, ◌≤◌, ◌≡◌, refl, sym, ap, ◌∙◌, arith, ◌⊎◌, inl, inr, false, ◌==◌,
  if◌then◌else◌, Option, none, some, List, [], ◌∷◌, ◌++◌, length, length-append, Bool-cases,
  list_eq,
}
use mathlib.Core.Path.{subst}
use mathlib.Core.List.{append_assoc, append-nil}
use insteonrf.Radio.Mqtt.Payload.{Capture}
use insteonrf.Radio.Mqtt.Receiver.{
  ℤ, MqttReceiver, new_receiver, is_full, note_seq, enqueue, on_message, next_capture, pop_head,
}

-- what happens to a receiver: a message, which holds a capture or not, or a call of `next_capture`
pub data Event : Type 0 where
  message : Option Capture → Event
  take_one : Event

abbrev pub listed : Option Capture → List Capture
listed none = []
listed (some c) = c ∷ []

-- the captures that the calls returned, in order, with the receiver
unfoldable pub run : MqttReceiver → List Event → MqttReceiver × List Capture
run r [] = (r, [])
run r (message c ∷ events) = run (on_message r c) events
run r (take_one ∷ events) =
    let next = next_capture r in let rest = run next.0 events in (rest.0, listed next.1 ++ rest.1)

unfoldable pub messages : List Event → ℕ
messages [] = 0
messages (message c ∷ events) = suc (messages events)
messages (take_one ∷ events) = messages events

-- the queue is within its bound
abbrev pub IsBounded : MqttReceiver → Type 0
IsBounded r = (r.maxsize ≡ 0) ⊎ (length r.queue ≤ r.maxsize)

-- what a message changes: a capture joins the queue or is dropped, and is counted
abbrev pub Joins : MqttReceiver → List Capture → MqttReceiver → Type 0
Joins r more q =
    (q.queue ≡ r.queue ++ more)
    × (q.received ≡ r.received + length more)
    × (q.received + q.dropped ≡ suc (r.received + r.dropped))
    × (IsBounded r → IsBounded q)

room_lem :
    (r : MqttReceiver) (c : Capture)
    → is_full r ≡ false
    → (r.maxsize ≡ 0) ⊎ (length (r.queue ++ (c ∷ [])) ≤ r.maxsize)
room_lem r c room = elim (Bool-cases (r.maxsize == 0)) [
  | inl free ↦ inl ((==_iff r.maxsize 0).0 free)
  | inr bound ↦ inr (ground (arith, room, bound, length-append r.queue (c ∷ [])))
]

enqueue-Joins :
    (r : MqttReceiver) (c : Capture) → Joins r (if is_full r then [] else c ∷ []) (enqueue r c)
unfolding enqueue
enqueue-Joins r c = elim (Bool-cases (is_full r)) [
  | inl full ↦ rw full (sym (append-nil r.queue), omega arith, omega arith, λ b. b)
  | inr room ↦ rw room (refl, omega arith, omega arith, λ b. room_lem r c room)
]

note_seq_lem :
    (r : MqttReceiver) (c : Capture) (s : Option ℤ) (more : List Capture) (q : MqttReceiver)
    → Joins (note_seq r c s) more q
    → Joins r more q
unfolding note_seq
note_seq_lem r c none more q h = h
note_seq_lem r c (some seq) more q h = h

full_lem : (r : MqttReceiver) (c : Capture) (s : Option ℤ) → is_full (note_seq r c s) ≡ is_full r
unfolding note_seq
full_lem r c none = refl
full_lem r c (some seq) = refl

abbrev pub joined : MqttReceiver → Option Capture → List Capture
joined r none = []
joined r (some c) = if is_full r then [] else c ∷ []

pub on_message-Joins :
    (r : MqttReceiver) (c : Option Capture) → Joins r (joined r c) (on_message r c)
unfolding on_message
on_message-Joins r none = (sym (append-nil r.queue), omega arith, omega arith, λ b. b)
on_message-Joins r (some c) =
    let s = note_seq r c c.seq in
    note_seq_lem r c c.seq (joined r (some c)) (enqueue s c) (
      subst (λ f. Joins s (if f then [] else c ∷ []) (enqueue s c)) (full_lem r c c.seq)
        (enqueue-Joins s c))

-- the captures that found room in the queue, in order
unfoldable pub accepted : MqttReceiver → List Event → List Capture
accepted r [] = []
accepted r (message c ∷ events) = joined r c ++ accepted (on_message r c) events
accepted r (take_one ∷ events) = accepted (next_capture r).0 events

-- what a whole run keeps
abbrev Kept : MqttReceiver → List Event → MqttReceiver × List Capture → Type 0
Kept r events result =
    (result.1 ++ result.0.queue ≡ r.queue ++ accepted r events)
    × (result.0.received ≡ r.received + length (accepted r events))
    × (result.0.received + result.0.dropped ≡ r.received + r.dropped + messages events)
    × (IsBounded r → IsBounded result.0)

pop_head_lem :
    (r : MqttReceiver) (queue : List Capture)
    → r.queue ≡ queue
    → (listed (pop_head r queue).1 ++ (pop_head r queue).0.queue ≡ queue)
      × ((pop_head r queue).0.received ≡ r.received)
      × ((pop_head r queue).0.dropped ≡ r.dropped)
      × (IsBounded r → IsBounded (pop_head r queue).0)
pop_head_lem r [] e = (e, refl, refl, λ b. b)
pop_head_lem r (c ∷ queue) e = (
  refl,
  refl,
  refl,
  λ b. elim b [ inl free ↦ inl free | inr full ↦ inr (omega (arith, full, ap length e)) ],
)

next_capture_lem :
    (r : MqttReceiver)
    → (listed (next_capture r).1 ++ (next_capture r).0.queue ≡ r.queue)
      × ((next_capture r).0.received ≡ r.received)
      × ((next_capture r).0.dropped ≡ r.dropped)
      × (IsBounded r → IsBounded (next_capture r).0)
unfolding next_capture
next_capture_lem r = pop_head_lem r r.queue refl

run-Kept : (r : MqttReceiver) (events : List Event) → Kept r events (run r events)
unfolding run messages accepted
run-Kept r [] = (sym (append-nil r.queue), omega arith, omega arith, λ b. b)
run-Kept r (message c ∷ events) =
    let q = on_message r c in
    let j = on_message-Joins r c in
    let h = run-Kept q events in
    let more = joined r c in
    let rest = accepted q events in
    (
      h.0 ∙ ap (λ x. x ++ rest) j.0 ∙ append_assoc r.queue more rest,
      omega (arith, h.1, j.1, length-append more rest),
      omega (arith, h.2, j.2),
      λ b. h.3 (j.3 b),
    )
run-Kept r (take_one ∷ events) =
    let next = next_capture r in
    let n = next_capture_lem r in
    let h = run-Kept next.0 events in
    let rest = run next.0 events in
    let found = accepted next.0 events in
    (
      append_assoc (listed next.1) rest.1 rest.0.queue
          ∙ ap (λ x. listed next.1 ++ x) h.0
          ∙ sym (append_assoc (listed next.1) next.0.queue found)
          ∙ ap (λ x. x ++ found) n.0,
      omega (arith, h.1, n.1),
      omega (arith, h.2, n.1, n.2),
      λ b. h.3 (n.3 b),
    )

-- Over any sequence of messages and calls of `next_capture`, started on an empty queue: the captures
-- that the calls return, followed by what is left in the queue, are those that found room, in the
-- order of their arrival; `received` counts them, `received` and `dropped` together count the
-- messages, and the queue stays within its bound if it has one.
pub run-captures :
    (maxsize : ℕ) (events : List Event)
    → let result = run (new_receiver maxsize) events in
      let found = accepted (new_receiver maxsize) events in
      (result.1 ++ result.0.queue ≡ found)
      × (result.0.received ≡ length found)
      × (result.0.received + result.0.dropped ≡ messages events)
      × IsBounded result.0
run-captures maxsize events =
    let k = run-Kept (new_receiver maxsize) events in
    (k.0, omega (arith, k.1), omega (arith, k.2), k.3 (inr (omega arith)))
