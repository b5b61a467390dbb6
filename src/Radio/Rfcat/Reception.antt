-- ===== src/Radio/Rfcat/Reception.antt =====
-- insteonrf/radio/rfcat.py, class RfcatRadio: what it receives, and how it notices that the dongle is
-- wedged and reopens it.
use insteonrf.Common.{
  ℕ, ◌+◌, ◌-◌, ◌*◌, ◌/◌, ltb, leb, Bool, true, false, ◌&&◌, ◌||◌, if◌then◌else◌, Option, none, some,
  List, ◌++◌, length,
}
use insteonrf.Manchester.{Bits, invert_bits}
use insteonrf.Packet.Frames.{start_header}
use insteonrf.Radio.Mqtt.{bits_from_bytes}
use insteonrf.Radio.Rfcat.{
  and_then, Dongle, RfcatRadio, tell_radio, common_calls, configure_rx, configure_tx,
}

-- `_wedged`
unfoldable pub is_wedged : RfcatRadio → Option Dongle → Bool
is_wedged r none = true
is_wedged r (some d) =
    d.reset_event
    || d.resetup_error
    || (leb r.max_usb_errors r.timeouts && ltb r.usb_errors_ok d.usb_errors)

-- `_open`: the first attempt, and after a reset of USB the second
abbrev pub open_dongle : Bool → Option Dongle → Option Dongle → Option Dongle
open_dongle auto_reset (some d) second = some d
open_dongle auto_reset none second = if auto_reset then second else none

-- the mode that the radio was in last
abbrev pub configure_last : RfcatRadio → Option (Bool × ℕ) → RfcatRadio × Bool
configure_last r (some (sync_header, blocksize)) = configure_rx r sync_header blocksize
configure_last r none = if r.tx then configure_tx r else (r, true)

-- `RfcatRadio(...)`, once the dongle is open: false where it raises
abbrev pub new_radio : ℕ → ℕ → Bool → ℕ → ℕ → Dongle → RfcatRadio × Bool
new_radio freq drate auto_reset max_usb_errors foccfg d =
    let r : RfcatRadio = record {
      freq = freq;
      drate = drate;
      auto_reset = auto_reset;
      max_usb_errors = max_usb_errors;
      foccfg = foccfg;
      sync_header = false;
      rx_kwargs = none;
      tx = false;
      timeouts = 0;
      heals = 0;
      usb_errors_ok = 0;
      dev = some d;
    } in
    tell_radio r (common_calls r)

-- the end of `heal`, with a dongle that opened
unfoldable pub reopened : RfcatRadio → Dongle → RfcatRadio × Bool
reopened r d =
    and_then (tell_radio (record r { dev = some d }) (common_calls r))
      (λ q. configure_last (record q { timeouts = 0; usb_errors_ok = d.usb_errors }) q.rx_kwargs)

-- `heal`, with the dongles of its two attempts: false where it raises, since none opens (DongleError)
-- or a call on the one that opened raises
unfoldable pub heal : RfcatRadio → Option Dongle → Option Dongle → RfcatRadio × Bool
heal r first second =
    let closed = record r { heals = r.heals + 1; dev = none } in
    elim (open_dongle r.auto_reset first second) [
      | none ↦ (closed, false)
      | some d ↦ reopened closed d
    ]

-- what RFrecv does: a block with its time, a timeout, or another exception
pub data Outcome : Type 0 where
  block : List ℕ → ℕ → Outcome
  timed_out failed : Outcome

pub data Received : Type 0 where
  got : ℕ → List ℕ → Received
  nothing raised : Received

abbrev pub after_heal : RfcatRadio × Bool → RfcatRadio × Received
after_heal (r, true) = (r, nothing)
after_heal (r, false) = (r, raised)

-- a call that brought nothing, with what comes where the radio is not healed
abbrev pub unanswered :
    RfcatRadio → Option Dongle → Option Dongle → Received → RfcatRadio × Received
unanswered r first second otherwise =
    let tired = record r { timeouts = r.timeouts + 1 } in
    if r.auto_reset && is_wedged tired r.dev
    then after_heal (heal tired first second)
    else (tired, otherwise)

-- `receive`, on an outcome, for a radio with the dongle as the call left it
unfoldable pub receive :
    RfcatRadio → Outcome → Option Dongle → Option Dongle → RfcatRadio × Received
receive r (block bytes ts) first second = elim r.dev [
  | none ↦ unanswered r first second raised
  | some d ↦ (
    record r { timeouts = 0; usb_errors_ok = d.usb_errors },
    got (ts - length bytes * 8 * 1_000_000 / r.drate) bytes,
  )
]
receive r timed_out first second = elim r.dev [
  | none ↦ unanswered r first second raised
  | some d ↦ unanswered r first second nothing
]
receive r failed first second = unanswered r first second raised

abbrev pub bits_of_block : RfcatRadio → Received → Option (ℕ × Bits)
bits_of_block r (got ts bytes) =
    let bits = bits_from_bytes bytes in
    some (ts, (if r.sync_header then invert_bits start_header ++ bits else bits))
bits_of_block r nothing = none
bits_of_block r raised = none

-- `receive_bits`, as far as it returns
unfoldable pub receive_bits :
    RfcatRadio → Outcome → Option Dongle → Option Dongle → RfcatRadio × Option (ℕ × Bits)
receive_bits r o first second =
    let answer = receive r o first second in (answer.0, bits_of_block answer.0 answer.1)
