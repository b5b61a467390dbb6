-- ===== src/Radio/Mqtt/Receiver.antt =====
-- radio/mqtt.py, class MqttReceiver: `_on_message`, `next_capture` and `receive_bits`. The captures
-- that the messages hold are arguments, and so is the order of the calls. The connection to the
-- broker is left out.
pub mod Counts
use insteonrf.Common.{
  ℕ, zero, suc, ◌+◌, ◌==◌, ltb, leb, Bool, true, false, not, ◌&&◌, ◌||◌, if◌then◌else◌, Option,
  none, some, List, [], ◌∷◌, ◌++◌, length, list_eq,
}
use insteonrf.Common.Dict.{Dict, get, put}
use insteonrf.Common.Int.{ℤ, pos, ltb_ℤ, ◌+ℤ◌}
use insteonrf.Manchester.{Bits}
use insteonrf.Radio.Mqtt.Payload.{Capture}

-- `maxsize` of the queue bounds it unless it is 0
pub record MqttReceiver : Type 0 where
  pub queue : List Capture
  pub maxsize : ℕ
  pub last_seq : Dict (List ℕ) ℤ
  pub received : ℕ
  pub dropped : ℕ
  pub gaps : ℕ

abbrev pub new_receiver : ℕ → MqttReceiver
new_receiver maxsize = record {
  queue = [];
  maxsize = maxsize;
  last_seq = [];
  received = 0;
  dropped = 0;
  gaps = 0;
}

-- `prev is not None and cap.seq > prev + 1`
unfoldable pub is_gap : Option ℤ → ℤ → Bool
is_gap none seq = false
is_gap (some prev) seq = ltb_ℤ (prev +ℤ pos 1) seq

-- the sequence number, where the capture has one
unfoldable pub note_seq : MqttReceiver → Capture → Option ℤ → MqttReceiver
note_seq r cap none = r
note_seq r cap (some seq) = record r {
  gaps = if is_gap (get cap.receiver r.last_seq) seq then r.gaps + 1 else r.gaps;
  last_seq = put cap.receiver seq r.last_seq;
}

abbrev pub is_full : MqttReceiver → Bool
is_full r = not (r.maxsize == 0) && leb r.maxsize (length r.queue)

-- `self._q.put_nowait(cap)`
unfoldable pub enqueue : MqttReceiver → Capture → MqttReceiver
enqueue r cap =
    if is_full r
    then record r { dropped = r.dropped + 1 }
    else record r { queue = r.queue ++ (cap ∷ []); received = r.received + 1 }

unfoldable pub on_message : MqttReceiver → Option Capture → MqttReceiver
on_message r none = record r { dropped = r.dropped + 1 }
on_message r (some cap) = enqueue (note_seq r cap cap.seq) cap

abbrev pub pop_head : MqttReceiver → List Capture → MqttReceiver × Option Capture
pop_head r [] = (r, none)
pop_head r (cap ∷ queue) = (record r { queue = queue }, some cap)

-- `next_capture`: none when the queue stays empty
unfoldable pub next_capture : MqttReceiver → MqttReceiver × Option Capture
next_capture r = pop_head r r.queue

abbrev pub time_and_bits : Option Capture → Option (ℕ × Bits)
time_and_bits none = none
time_and_bits (some cap) = some (cap.timestamp, cap.bits)

unfoldable pub receive_bits : MqttReceiver → MqttReceiver × Option (ℕ × Bits)
receive_bits r = let next = next_capture r in (next.0, time_and_bits next.1)
