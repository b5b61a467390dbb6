-- ===== src/Radio/Rfcat/Registers.antt =====
-- rfcat.py, class RfcatRadio: what the calls leave in the registers of the dongle, and what the radio
-- remembers.
pub mod Configured
pub mod Kept
pub mod Cut
pub mod Runs
use insteonrf.Common.{
  bit_and, ◌==◌, ◌&&◌, ltb, ℕ, zero, suc, ◌+◌, ◌≡◌, refl, ◌∙◌, Bool, true, false, if◌then◌else◌,
  Option, none, some, List, [], ◌∷◌, ◌++◌, length, Bool-cases, inl, inr,
}
use insteonrf.Manchester.{Bits}
use insteonrf.Radio.Rfcat.{
  rx_rest, rx_start, xmits, send_calls, block_of, SyncMode, carrier_16_of_16, carrier, all_16,
  Command, mode_idle, mode_rx, max_power, set_freq, set_drate, set_bandwidth, set_deviation,
  set_modulation, set_manchester_off, set_fec_off, set_crc_off, set_whitening_off, set_status_off,
  bs_limit, packet_length, set_pqt, num_preamble, sync_word, sync_mode, write_foccfg, xmit, Dongle,
  RfcatRadio, told, tell_radio, common_calls, configure_rx, tx_calls, configure_tx, rearm,
  sync_preamble, sync_start_header, transmit_bits,
}
use insteonrf.Radio.Rfcat.Reception.{
  raised, nothing, heal, reopened, open_dongle, unanswered, is_wedged, Received, after_heal,
  configure_last, Outcome, block, timed_out, failed, receive, new_radio,
}

-- the part of the dongle's registers that the calls of the radio set
pub record Registers : Type 0 where
  pub freq : ℕ
  pub drate : ℕ
  pub word : ℕ
  pub mode : SyncMode
  pub size : ℕ
  pub foccfg : ℕ
  pub listening : Bool

unfoldable pub write : Registers → Command → Registers
write g mode_idle = record g { listening = false }
write g mode_rx = record g { listening = true }
write g (set_freq n) = record g { freq = n }
write g (set_drate n) = record g { drate = n }
write g (packet_length n) = record g { size = n }
write g (sync_word w) = record g { word = w }
write g (sync_mode m) = record g { mode = m }
write g (write_foccfg n) = record g { foccfg = n }
write g max_power = g
write g (set_bandwidth n) = g
write g (set_deviation n) = g
write g set_modulation = g
write g set_manchester_off = g
write g set_fec_off = g
write g set_crc_off = g
write g set_whitening_off = g
write g set_status_off = g
write g (bs_limit n) = g
write g (set_pqt n) = g
write g num_preamble = g
write g (xmit bytes) = g

unfoldable pub write_all : Registers → List Command → Registers
write_all g [] = g
write_all g (c ∷ cs) = write_all (write g c) cs

pub write_all-append :
    (g : Registers) (a b : List Command) → write_all g (a ++ b) ≡ write_all (write_all g a) b
unfolding write_all
write_all-append g [] b = refl
write_all-append g (c ∷ a) b = write_all-append (write g c) a b

-- the registers are those of the mode that the radio remembers
abbrev pub InMode : RfcatRadio → Option (Bool × ℕ) → Registers → Type 0
InMode r (some (sync, size)) g =
    (r.tx ≡ false)
    × (r.sync_header ≡ sync)
    × (g.listening ≡ true)
    × (g.word ≡ (if sync then sync_start_header else sync_preamble))
    × (g.mode ≡ (if sync then carrier_16_of_16 else carrier))
    × (g.size ≡ size)
    × (g.foccfg ≡ r.foccfg)
InMode r none g = r.tx ≡ true → (g.word ≡ sync_preamble) × (g.mode ≡ all_16)

abbrev pub Agrees : RfcatRadio → Registers → Type 0
Agrees r g = (g.freq ≡ r.freq) × (g.drate ≡ r.drate) × InMode r r.rx_kwargs g

-- `start` is what stood in the registers before the first call
abbrev pub TunedWith : Registers → RfcatRadio → Option Dongle → Type 0
TunedWith start r none = Unit {0}
TunedWith start r (some d) = Agrees r (write_all start d.calls)

abbrev pub Tuned : Registers → RfcatRadio → Type 0
Tuned start r = TunedWith start r r.dev

pub rx_lem :
    (g : Registers) (f : ℕ) (sync : Bool) (size : ℕ)
    → let h = write_all (write_all g (rx_start size)) (rx_rest f sync) in
      (h.freq ≡ g.freq)
      × (h.drate ≡ g.drate)
      × (h.listening ≡ true)
      × (h.word ≡ (if sync then sync_start_header else sync_preamble))
      × (h.mode ≡ (if sync then carrier_16_of_16 else carrier))
      × (h.size ≡ size)
      × (h.foccfg ≡ f)
unfolding write_all write
rx_lem g f sync size = (refl, refl, refl, refl, refl, refl, refl)

pub tx_lem :
    (g : Registers)
    → let h = write_all g tx_calls in
      (h.freq ≡ g.freq) × (h.drate ≡ g.drate) × (h.word ≡ sync_preamble) × (h.mode ≡ all_16)
unfolding write_all write
tx_lem g = (refl, refl, refl, refl)

pub common_lem :
    (g : Registers) (r : RfcatRadio)
    → let h = write_all g (common_calls r) in (h.freq ≡ r.freq) × (h.drate ≡ r.drate)
unfolding write_all write
common_lem g r = (refl, refl)

-- a dongle that has the frequency and the rate is enough to configure it
abbrev pub IsCommon : Registers → RfcatRadio → Option Dongle → Type 0
IsCommon start r none = Unit {0}
IsCommon start r (some d) =
    ((write_all start d.calls).freq ≡ r.freq) × ((write_all start d.calls).drate ≡ r.drate)

pub Tuned-IsCommon :
    (start : Registers) (r : RfcatRadio) (o : Option Dongle)
    → TunedWith start r o
    → IsCommon start r o
Tuned-IsCommon start r none h = tt
Tuned-IsCommon start r (some d) h = (h.0, h.1)
