-- ===== src/Radio/Tests.antt =====
-- The properties of the backends at sample captures and dongles.
use insteonrf.Common.{
  ℕ, ◌+◌, ◌-◌, ◌*◌, ◌<◌, ◌≤◌, ◌≡◌, refl, arith, inl, inr, ◌⊎◌, Bool, true, false, ◌&&◌,
  if◌then◌else◌, replicate, ltb, Option, none, some, List, [], ◌∷◌, ◌++◌, length, drop, ok, raise,
  All, list_eq, Result,
}
use insteonrf.Common.Dict.{Dict, get}
use insteonrf.Common.Int.{ℤ, pos}
use insteonrf.Manchester.{Bits, IsBit, zero as low, one as high, invert_bits}
use insteonrf.Packet.Frames.{to_bits}
use insteonrf.Packet.Samples.{on_packet, on_octets, on_length, on_crc}
use insteonrf.Fusion.{Sighting}
use insteonrf.Fusion.Capture.{Source, sightings_from_capture}
use insteonrf.Radio.File.{FileRadio}
use insteonrf.Radio.File as File
use insteonrf.Radio.File.Replay.{receive_times, once, again, receive_times_lem}
use insteonrf.Radio.Mqtt.{bits_from_bytes, with_sync_header}
use insteonrf.Radio.Mqtt.Synced.{synced_capture}
use insteonrf.Radio.Mqtt.Payload.{Value, text, whole, Json, object, Capture, from_payload}
use insteonrf.Radio.Mqtt.Aligned.{IsUsable, from_payload-IsUsable}
use insteonrf.Radio.Mqtt.Receiver.{new_receiver}
use insteonrf.Radio.Mqtt.Receiver.Counts.{
  Event, message, take_one, run, accepted, messages, IsBounded, run-captures,
}
use insteonrf.Radio.Rfcat.{
  configure_rx, Command, Dongle, RfcatRadio, done, lost, refused, said, left, all_done, block_of,
  send_calls, transmit_bits, default_freq, default_drate, foccfg_rx,
}
use insteonrf.Radio.Rfcat.Reception.{timed_out, new_radio}
use insteonrf.Radio.Rfcat.Registers.{Registers, Tuned}
use insteonrf.Radio.Rfcat.Registers.Runs.{
  Operation, to_rx, to_receive, to_heal, to_rearm, to_transmit, IsFresh, created, tried,
  as_receiving, operate, operate_all, operate_all-Tuned,
}
use insteonrf.Radio.Rfcat.Health.{time_outs, is_troubled, time_outs-heals}
use insteonrf.Radio.Rfcat.Sending.{turned, setup_calls, IsSaid, transmit_bits-sent}

-- what a radio delivers of the line of `on_packet`, with seven more bits
abbrev raw : List ℕ
raw =
    85 ∷ 42 ∷ 148 ∷ 203 ∷ 75 ∷ 72 ∷ 204 ∷ 204 ∷ 204 ∷ 146 ∷ 202 ∷ 202 ∷ 200 ∷ 172 ∷ 173 ∷ 82 ∷ 149
    ∷ 45 ∷ 51 ∷ 40 ∷ 210 ∷ 179 ∷ 74 ∷ 147 ∷ 44 ∷ 172 ∷ 168 ∷ 178 ∷ 213 ∷ 85 ∷ 20 ∷ 173 ∷ 50 ∷ 208
    ∷ 202 ∷ 170 ∷ 170 ∷ 146 ∷ 170 ∷ 170 ∷ 168 ∷ 170 ∷ 179 ∷ 51 ∷ 51 ∷ 51 ∷ 51 ∷ 51 ∷ 51 ∷ 51 ∷ 51
    ∷ 51 ∷ 51 ∷ 51 ∷ 51 ∷ 51 ∷ 42 ∷ []

abbrev noise : Bits
noise = low ∷ high ∷ low ∷ high ∷ low ∷ high ∷ low ∷ []

abbrev line_of : Result Bits → Bits
line_of (ok bits) = bits
line_of (raise e) = []

line : Bits
line = line_of (to_bits on_packet false)

line_lem : to_bits on_packet false ≡ ok line
unfolding line to_bits insteonrf.Manchester.manchester_encode insteonrf.Packet.Frames.encode_frames
    insteonrf.Packet.Frames.index_at insteonrf.Packet.Frames.low_bits
    insteonrf.Packet.Fields.extended insteonrf.Packet.Frames.count_on
    insteonrf.Packet.Frames.trailer
line_lem = refl

raw_lem : bits_from_bytes raw ≡ drop 31 (invert_bits line) ++ noise
unfolding line to_bits bits_from_bytes invert_bits insteonrf.Manchester.manchester_encode
    insteonrf.Radio.Mqtt.digits insteonrf.Packet.Frames.encode_frames
    insteonrf.Packet.Frames.index_at insteonrf.Packet.Frames.low_bits
    insteonrf.Packet.Fields.extended insteonrf.Packet.Frames.count_on
    insteonrf.Packet.Frames.trailer
raw_lem = refl

abbrev source : Source
source = record { receiver = b'k' ∷ []; rssi = some 940; timestamp = 1_000_000; min_bytes = 4 }

synced_capture_example :
    (s : Sighting) × (more : List Sighting) × (sightings_from_capture source
        (with_sync_header (bits_from_bytes raw) none)
      ≡ s ∷ more)
    × (s.packet.bytes ≡ on_packet.bytes)
    × (s.packet.complete ≡ true)
    × (s.packet.index_ok ≡ some true)
    × (s.receiver ≡ source.receiver)
    × (s.at ≡ source.timestamp)
synced_capture_example =
    synced_capture source on_packet raw noise on_octets on_length (omega arith) on_crc line_lem
      raw_lem

-- a document with the bytes as they are, under "b"
abbrev document : Dict (List ℕ) Value
document = (b'b' ∷ [], text raw) ∷ (b's' ∷ b'e' ∷ b'q' ∷ [], whole (pos 7)) ∷ []

abbrev loads_document : List ℕ → Option Json
loads_document payload = some (object document)

abbrev as_it_is : List ℕ → Option (List ℕ)
as_it_is s = some s

abbrev no_int : List ℕ → Option ℤ
no_int s = none

found : Option Capture
found = from_payload loads_document as_it_is no_int (b'k' ∷ []) [] 5_000_000

abbrev or_empty : Option Capture → Capture
or_empty (some c) = c
or_empty none = record {
  receiver = [];
  bits = [];
  timestamp = 0;
  rssi = none;
  seq = none;
  micros = none;
  sync_word = none;
  soft = none;
  snr = none;
}

found_lem :
    from_payload loads_document as_it_is no_int (b'k' ∷ []) [] 5_000_000 ≡ some (or_empty found)
unfolding found from_payload get insteonrf.Common.list_beq
found_lem = refl

from_payload-IsUsable_example : IsUsable 5_000_000 (or_empty found)
from_payload-IsUsable_example =
    from_payload-IsUsable loads_document as_it_is no_int (b'k' ∷ []) [] 5_000_000 (or_empty found)
      found_lem

abbrev events : List Event
events =
    message (some (or_empty none))
    ∷ message none
    ∷ message (some (or_empty none))
    ∷ take_one
    ∷ take_one
    ∷ []

run-captures_example :
    ((run (new_receiver 1) events).1 ++ (run (new_receiver 1) events).0.queue
      ≡ accepted (new_receiver 1) events)
    × ((run (new_receiver 1) events).0.received ≡ length (accepted (new_receiver 1) events))
    × ((run (new_receiver 1) events).0.received + (run (new_receiver 1) events).0.dropped
        ≡ messages events)
    × IsBounded (run (new_receiver 1) events).0
run-captures_example = run-captures 1 events

abbrev dongle : Dongle
dongle = record {
  calls = [];
  answers = [];
  reset_event = false;
  resetup_error = false;
  usb_errors = 0;
}

abbrev faulty : Dongle
faulty = record dongle { usb_errors = 2 }

abbrev blank : Registers
blank = record {
  freq = 0;
  drate = 0;
  word = 0;
  mode = insteonrf.Radio.Rfcat.all_16;
  size = 0;
  foccfg = 0x17;
  listening = false;
}

abbrev radio : RfcatRadio
radio = (new_radio default_freq default_drate true 3 foccfg_rx dongle).0

abbrev operations : List Operation
operations =
    to_rx true 255
    ∷ to_rearm (some 0)
    ∷ to_receive false true 1 timed_out none (some dongle)
    ∷ to_transmit noise 2 false
    ∷ to_heal (some faulty) none
    ∷ []

-- a dongle that is set up in eleven calls, and then raises in the third call of the next operation
abbrev weak : Dongle
weak = record dongle { answers = replicate 13 done ++ (lost ∷ []) }

abbrev weak_radio : RfcatRadio
weak_radio = (new_radio default_freq default_drate true 3 foccfg_rx weak).0

abbrev cut : RfcatRadio
cut = (operate weak_radio (to_rx true 100)).0

abbrev ready : RfcatRadio
ready = (configure_rx cut true 255).0

cut_short : (operate weak_radio (to_rx true 100)).1 ≡ false
unfolding operate_all operate insteonrf.Radio.Rfcat.Registers.Runs.is_mended
    insteonrf.Radio.Rfcat.said insteonrf.Radio.Rfcat.left insteonrf.Radio.Rfcat.all_done
    insteonrf.Radio.Rfcat.configure_rx insteonrf.Radio.Rfcat.configure_tx
    insteonrf.Radio.Rfcat.rearm transmit_bits block_of insteonrf.Radio.Rfcat.Reception.heal
    insteonrf.Radio.Rfcat.Reception.reopened insteonrf.Radio.Rfcat.Reception.receive
    insteonrf.Radio.Rfcat.Reception.is_wedged insteonrf.Radio.Rfcat.Registers.Kept.is_kept
    insteonrf.Radio.Mqtt.chunks insteonrf.Packet.Frames.alternate
cut_short = refl

ready_IsFresh : IsFresh ready
unfolding operate_all operate insteonrf.Radio.Rfcat.Registers.Runs.is_mended
    insteonrf.Radio.Rfcat.said insteonrf.Radio.Rfcat.left insteonrf.Radio.Rfcat.all_done
    insteonrf.Radio.Rfcat.configure_rx insteonrf.Radio.Rfcat.configure_tx
    insteonrf.Radio.Rfcat.rearm transmit_bits block_of insteonrf.Radio.Rfcat.Reception.heal
    insteonrf.Radio.Rfcat.Reception.reopened insteonrf.Radio.Rfcat.Reception.receive
    insteonrf.Radio.Rfcat.Reception.is_wedged insteonrf.Radio.Rfcat.Registers.Kept.is_kept
    insteonrf.Radio.Mqtt.chunks insteonrf.Packet.Frames.alternate
ready_IsFresh =
    as_receiving ready cut true 255
      (tried weak_radio (to_rx true 100)
        (created weak_radio default_freq default_drate true 3 foccfg_rx weak refl) refl)
      refl

through_all : (operate_all ready operations).1 ≡ true
unfolding operate_all operate insteonrf.Radio.Rfcat.Registers.Runs.is_mended
    insteonrf.Radio.Rfcat.said insteonrf.Radio.Rfcat.left insteonrf.Radio.Rfcat.all_done
    insteonrf.Radio.Rfcat.configure_rx insteonrf.Radio.Rfcat.configure_tx
    insteonrf.Radio.Rfcat.rearm transmit_bits block_of insteonrf.Radio.Rfcat.Reception.heal
    insteonrf.Radio.Rfcat.Reception.reopened insteonrf.Radio.Rfcat.Reception.receive
    insteonrf.Radio.Rfcat.Reception.is_wedged insteonrf.Radio.Rfcat.Registers.Kept.is_kept
    insteonrf.Radio.Mqtt.chunks insteonrf.Packet.Frames.alternate
through_all = refl

operate_all-Tuned_example : Tuned blank (operate_all ready operations).0
operate_all-Tuned_example = operate_all-Tuned blank ready operations ready_IsFresh through_all

time_outs-heals_example :
    ((time_outs radio (dongle ∷ dongle ∷ [])).heals ≡ 0)
    × ((time_outs radio ((dongle ∷ dongle ∷ []) ++ (faulty ∷ []))).heals
        ≡ (if true && is_troubled radio (0 + 2 + 1) faulty then 0 + 1 else 0))
time_outs-heals_example =
    time_outs-heals radio (dongle ∷ dongle ∷ []) faulty
      ((refl, refl, omega arith), ((refl, refl, omega arith), tt))

-- the third call on this dongle, when it is set up to transmit, raises
abbrev tired : Dongle
tired = record dongle { answers = done ∷ done ∷ refused ∷ [] }

abbrev on_tired : RfcatRadio
on_tired = record radio { dev = some tired }

transmit_bits-sent_example :
    let cmds = setup_calls false ++ send_calls 2 (block_of noise false) in
    ((pad : Bits) × (bits_from_bytes (block_of noise false) ≡ turned noise false ++ pad)
      × (length pad < 8))
    × (if ltb 255 (length (block_of noise false))
        then transmit_bits on_tired noise 2 false ≡ (on_tired, false)
        else ((transmit_bits on_tired noise 2 false).1 ≡ all_done cmds tired.answers)
          × ((transmit_bits on_tired noise 2 false).0.dev
              ≡ some (record tired {
                calls = tired.calls ++ said cmds tired.answers;
                answers = left cmds tired.answers;
              }))
          × IsSaid cmds tired)
transmit_bits-sent_example = transmit_bits-sent on_tired tired noise 2 false (omega arith) refl

receive_times_lem_example :
    let lines = (low ∷ high ∷ []) ∷ (high ∷ []) ∷ [] in
    ((q : FileRadio) × (receive_times 3 (File.new_radio lines false) ≡ some (q, once 3 lines))
      × (q.exhausted ≡ ltb (length lines) 3))
    × ((q : FileRadio) × (receive_times 3 (File.new_radio ((low ∷ []) ∷ lines) true)
          ≡ some (q, again 3 ((low ∷ []) ∷ lines) ((low ∷ []) ∷ lines)))
        × (q.exhausted ≡ false))
    × (receive_times 4 (File.new_radio [] true) ≡ none)
receive_times_lem_example = receive_times_lem 3 ((low ∷ high ∷ []) ∷ (high ∷ []) ∷ []) (low ∷ [])
