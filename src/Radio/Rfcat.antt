-- ===== src/Radio/Rfcat.antt =====
-- insteonrf/radio/rfcat.py, class RfcatRadio. A dongle is the list of the calls that configured it
-- and sent with it, with what rflib's object for it says of its health, and how its next calls end:
-- each returns or raises, and one that raises reached the dongle or did not. What the registers
-- answer, the state in which a call of `receive` leaves the dongle, and the dongle that an attempt to
-- open one gives (none if it fails or does not answer) are arguments. The calls of `sleep`, the log,
-- the resets of USB and the diagnostics are left out, and the calls that set a dongle up leave what is
-- said of its health. A call on a closed radio raises: `dev` is None then. Times are whole
-- microseconds.
pub mod Answers
pub mod Reception
pub mod Registers
pub mod Health
pub mod Sending
use insteonrf.Common.{
  ℕ, zero, suc, ◌+◌, ◌-◌, ◌*◌, ◌/◌, ◌%◌, ◌==◌, ltb, leb, bit_and, Bool, true, false, not, ◌&&◌,
  ◌||◌, if◌then◌else◌, Option, none, some, List, [], ◌∷◌, ◌++◌, length, take,
}
use insteonrf.Common.Int.{ℤ, sub_ℕ}
use insteonrf.Manchester.{Bits, invert_bits}
use insteonrf.Packet.Frames.{start_header, alternate}
use insteonrf.Radio.Mqtt.{bits_from_bytes, digits_int, chunks}

abbrev pub default_freq : ℕ
default_freq = 914_950_000

abbrev pub default_drate : ℕ
default_drate = 9124

abbrev pub channel_bw : ℕ
channel_bw = 200_000

abbrev pub deviation : ℕ
deviation = 75_000

abbrev pub sync_preamble : ℕ
sync_preamble = 0x6666

abbrev pub sync_start_header : ℕ
sync_start_header = digits_int 0 (invert_bits start_header)

abbrev pub foccfg_rx : ℕ
foccfg_rx = 0x37

abbrev pub pktstatus_busy : ℕ
pktstatus_busy = 0x48

-- SYNCM_CARRIER_16_of_16, SYNCM_CARRIER and SYNCM_16_of_16
pub data SyncMode : Type 0 where
  carrier_16_of_16 carrier all_16 : SyncMode

-- the calls of rflib
pub data Command : Type 0 where
  mode_idle mode_rx max_power : Command
  set_freq set_drate set_bandwidth set_deviation : ℕ → Command
  set_modulation set_manchester_off set_fec_off set_crc_off set_whitening_off set_status_off :
      Command
  bs_limit : ℕ → Command
  packet_length : ℕ → Command
  set_pqt : ℕ → Command
  num_preamble : Command
  sync_word : ℕ → Command
  sync_mode : SyncMode → Command
  write_foccfg : ℕ → Command
  xmit : List ℕ → Command

-- how a call of rflib ends: it returns, it raises though the dongle did it, or it raises and the
-- dongle did not
pub data Answer : Type 0 where
  done lost refused : Answer

-- `reset_event.is_set()`, `resetup_error is not None`, `_usberrorcnt`; how the next calls end, after
-- which all return
pub record Dongle : Type 0 where
  pub calls : List Command
  pub answers : List Answer
  pub reset_event : Bool
  pub resetup_error : Bool
  pub usb_errors : ℕ

pub record RfcatRadio : Type 0 where
  pub freq : ℕ
  pub drate : ℕ
  pub auto_reset : Bool
  pub max_usb_errors : ℕ
  pub foccfg : ℕ
  pub sync_header : Bool
  pub rx_kwargs : Option (Bool × ℕ)
  pub tx : Bool
  pub timeouts : ℕ
  pub heals : ℕ
  pub usb_errors_ok : ℕ
  pub dev : Option Dongle

-- the calls that reach the dongle, up to the first that raises
unfoldable pub said : List Command → List Answer → List Command
said [] answers = []
said (c ∷ cmds) [] = c ∷ cmds
said (c ∷ cmds) (done ∷ answers) = c ∷ said cmds answers
said (c ∷ cmds) (lost ∷ answers) = c ∷ []
said (c ∷ cmds) (refused ∷ answers) = []

unfoldable pub left : List Command → List Answer → List Answer
left [] answers = answers
left (c ∷ cmds) [] = []
left (c ∷ cmds) (done ∷ answers) = left cmds answers
left (c ∷ cmds) (lost ∷ answers) = answers
left (c ∷ cmds) (refused ∷ answers) = answers

-- whether all of them return
unfoldable pub all_done : List Command → List Answer → Bool
all_done [] answers = true
all_done (c ∷ cmds) [] = true
all_done (c ∷ cmds) (done ∷ answers) = all_done cmds answers
all_done (c ∷ cmds) (lost ∷ answers) = false
all_done (c ∷ cmds) (refused ∷ answers) = false

abbrev pub told : List Command → Dongle → Dongle
told cmds d = record d { calls = d.calls ++ said cmds d.answers; answers = left cmds d.answers }

-- some calls on the dongle, one after the other, and whether all return: the first that raises ends
-- them
abbrev pub tell : List Command → Option Dongle → Option Dongle × Bool
tell cmds none = (none, false)
tell cmds (some d) = (some (told cmds d), all_done cmds d.answers)

abbrev pub tell_radio : RfcatRadio → List Command → RfcatRadio × Bool
tell_radio r cmds = let t = tell cmds r.dev in (record r { dev = t.0 }, t.1)

-- what comes after some calls, unless one of them raised
abbrev pub and_then : RfcatRadio × Bool → (RfcatRadio → RfcatRadio × Bool) → RfcatRadio × Bool
and_then (r, true) next = next r
and_then (r, false) next = (r, false)

-- `_common`
abbrev pub common_calls : RfcatRadio → List Command
common_calls r =
    mode_idle
    ∷ set_freq r.freq
    ∷ set_modulation
    ∷ set_drate r.drate
    ∷ set_bandwidth channel_bw
    ∷ set_deviation deviation
    ∷ set_manchester_off
    ∷ set_fec_off
    ∷ set_crc_off
    ∷ set_whitening_off
    ∷ set_status_off
    ∷ []

-- the calls of `configure_rx` before `_sync_header` is set, and after
abbrev pub rx_start : ℕ → List Command
rx_start blocksize =
    mode_idle ∷ bs_limit 6 ∷ packet_length blocksize ∷ set_pqt 0 ∷ num_preamble ∷ []

abbrev pub rx_rest : ℕ → Bool → List Command
rx_rest foccfg sync_header =
    sync_word (if sync_header then sync_start_header else sync_preamble)
    ∷ sync_mode (if sync_header then carrier_16_of_16 else carrier)
    ∷ write_foccfg foccfg
    ∷ mode_rx
    ∷ []

unfoldable pub configure_rx : RfcatRadio → Bool → ℕ → RfcatRadio × Bool
configure_rx r sync_header blocksize =
    and_then
      (tell_radio (record r { rx_kwargs = some (sync_header, blocksize); tx = false })
        (rx_start blocksize))
      (λ q. tell_radio (record q { sync_header = sync_header }) (rx_rest q.foccfg sync_header))

abbrev pub tx_calls : List Command
tx_calls =
    mode_idle
    ∷ bs_limit 12
    ∷ num_preamble
    ∷ sync_word sync_preamble
    ∷ sync_mode all_16
    ∷ max_power
    ∷ []

unfoldable pub configure_tx : RfcatRadio → RfcatRadio × Bool
configure_tx r = tell_radio (record r { tx = true; rx_kwargs = none }) tx_calls

-- whether `rearm` ends before it calls for a mode: the read of the register PKTSTATUS raises, or it
-- says that the radio is busy
abbrev pub is_left : Option ℕ → Bool
is_left none = true
is_left (some status) = not (bit_and status pktstatus_busy == 0)

-- `rearm`, with the answer of the register: the radio, and whether it returns true
unfoldable pub rearm : RfcatRadio → Option ℕ → RfcatRadio × Bool
rearm r status = if is_left status then (r, false) else tell_radio r (mode_idle ∷ mode_rx ∷ [])

-- `read_rssi`, from the register's value, in halves of a dB
unfoldable pub read_rssi : ℕ → ℤ
read_rssi raw = if ltb 127 raw then sub_ℕ raw 404 else sub_ℕ raw 148

-- the line, to a whole number of bytes
abbrev pub filled : Bits → Bits
filled bits =
    if length bits % 8 == 0 then bits else bits ++ take (8 - length bits % 8) (alternate 4)

abbrev pub xmits : ℕ → List ℕ → List Command
xmits zero bytes = []
xmits (suc n) bytes = xmit bytes ∷ xmits n bytes

abbrev pub send_calls : ℕ → List ℕ → List Command
send_calls repeat bytes = packet_length (length bytes) ∷ (xmits repeat bytes ++ (mode_idle ∷ []))

-- the bytes that are sent for a line
unfoldable pub block_of : Bits → Bool → List ℕ
block_of bits invert =
    let line = filled (if invert then invert_bits bits else bits) in chunks (length line / 8) line

-- `transmit_bits`: false where it raises
unfoldable pub transmit_bits : RfcatRadio → Bits → ℕ → Bool → RfcatRadio × Bool
transmit_bits r bits repeat invert =
    let bytes = block_of bits invert in
    if ltb 255 (length bytes)
    then (r, false)
    else and_then (if r.tx then (r, true) else configure_tx r)
        (λ q. tell_radio q (send_calls repeat bytes))
