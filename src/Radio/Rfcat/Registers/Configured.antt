-- ===== src/Radio/Rfcat/Registers/Configured.antt =====
-- rfcat.py, class RfcatRadio: setting a dongle up for a mode, and healing.
use insteonrf.Common.{List, ℕ, ◌+◌, ◌≡◌, refl, ◌∙◌, Bool, true, false, Option, none, some}
use insteonrf.Radio.Rfcat.{
  all_done, rx_rest, Command, tell_radio, rx_start, and_then, Dongle, RfcatRadio, told,
  common_calls, configure_rx, tx_calls, configure_tx,
}
use insteonrf.Radio.Rfcat.Answers.{said_whole}
use insteonrf.Radio.Rfcat.Reception.{new_radio, heal, reopened, open_dongle, configure_last}
use insteonrf.Radio.Rfcat.Registers.{
  Registers, write_all, write_all-append, Tuned, rx_lem, tx_lem, common_lem, IsCommon,
}

pub then_Tuned :
    (start : Registers) (x : RfcatRadio × Bool) (next : RfcatRadio → RfcatRadio × Bool)
    → (x.1 ≡ true → (next x.0).1 ≡ true → Tuned start (next x.0).0)
    → (and_then x next).1 ≡ true
    → Tuned start (and_then x next).0
then_Tuned start (r, true) next f h = f refl h
then_Tuned start (r, false) next f h = absurd cc

-- what is in the registers after calls that all return
pub written :
    (start : Registers) (d : Dongle) (cmds : List Command)
    → all_done cmds d.answers ≡ true
    → write_all start (told cmds d).calls ≡ write_all (write_all start d.calls) cmds
written start d cmds h = rw (said_whole cmds d.answers h) (write_all-append start d.calls cmds)

rx_at :
    (start : Registers) (r : RfcatRadio) (sync : Bool) (size : ℕ) (o : Option Dongle)
    → IsCommon start r o
    → (configure_rx (record r { dev = o }) sync size).1 ≡ true
    → Tuned start (configure_rx (record r { dev = o }) sync size).0
unfolding configure_rx
rx_at start r sync size none h ok = absurd cc
rx_at start r sync size (some d) h ok =
    let first = told (rx_start size) d in
    then_Tuned start
      (tell_radio (record r { rx_kwargs = some (sync, size); tx = false; dev = some d })
        (rx_start size))
      (λ q. tell_radio (record q { sync_header = sync }) (rx_rest q.foccfg sync))
      (λ a b.
        let l = rx_lem (write_all start d.calls) r.foccfg sync size in
        rw (written start first (rx_rest r.foccfg sync) b) (
          rw (written start d (rx_start size) a)
            (l.0 ∙ h.0, l.1 ∙ h.1, (refl, refl, l.2, l.3, l.4, l.5, l.6))))
      ok

pub configure_rx-Tuned :
    (start : Registers) (r : RfcatRadio) (sync : Bool) (size : ℕ)
    → IsCommon start r r.dev
    → (configure_rx r sync size).1 ≡ true
    → Tuned start (configure_rx r sync size).0
configure_rx-Tuned start r sync size h ok = rx_at start r sync size r.dev h ok

tx_at :
    (start : Registers) (r : RfcatRadio) (o : Option Dongle)
    → IsCommon start r o
    → (configure_tx (record r { dev = o })).1 ≡ true
    → Tuned start (configure_tx (record r { dev = o })).0
unfolding configure_tx
tx_at start r none h ok = tt
tx_at start r (some d) h ok =
    let l = tx_lem (write_all start d.calls) in
    rw (written start d tx_calls ok) (l.0 ∙ h.0, l.1 ∙ h.1, λ t. (l.2, l.3))

pub configure_tx-Tuned :
    (start : Registers) (r : RfcatRadio)
    → IsCommon start r r.dev
    → (configure_tx r).1 ≡ true
    → Tuned start (configure_tx r).0
configure_tx-Tuned start r h ok = tx_at start r r.dev h ok

last_at :
    (start : Registers) (r : RfcatRadio) (k : Option (Bool × ℕ)) (t : Bool) (d : Dongle)
    → IsCommon start r (some d)
    → (configure_last (record r { rx_kwargs = k; tx = t; dev = some d }) k).1 ≡ true
    → Tuned start (configure_last (record r { rx_kwargs = k; tx = t; dev = some d }) k).0
last_at start r (some (sync, size)) t d h ok =
    configure_rx-Tuned start (record r { rx_kwargs = some (sync, size); tx = t; dev = some d }) sync
      size h ok
last_at start r none true d h ok =
    configure_tx-Tuned start (record r { rx_kwargs = none; tx = true; dev = some d }) h ok
last_at start r none false d h ok = (h.0, h.1, λ t. absurd cc)

pub reopened-Tuned :
    (start : Registers) (r : RfcatRadio) (d : Dongle)
    → (reopened r d).1 ≡ true
    → Tuned start (reopened r d).0
unfolding reopened
reopened-Tuned start r d ok =
    then_Tuned start (tell_radio (record r { dev = some d }) (common_calls r))
      (λ q. configure_last (record q { timeouts = 0; usb_errors_ok = d.usb_errors }) q.rx_kwargs)
      (λ a b.
        last_at start (record r { timeouts = 0; usb_errors_ok = d.usb_errors }) r.rx_kwargs r.tx
          (told (common_calls r) d)
          (rw (written start d (common_calls r) a) (common_lem (write_all start d.calls) r)) b)
      ok

healed :
    (start : Registers) (closed : RfcatRadio) (o : Option Dongle)
    → (elim o as (λ x. RfcatRadio × Bool) [ none ↦ (closed, false) | some d ↦ reopened closed d ]).1
      ≡ true
    → Tuned start
        (elim o as (λ x. RfcatRadio × Bool) [
          | none ↦ (closed, false)
          | some d ↦ reopened closed d
        ]).0
healed start closed none ok = absurd cc
healed start closed (some d) ok = reopened-Tuned start closed d ok

pub heal-Tuned :
    (start : Registers) (r : RfcatRadio) (first second : Option Dongle)
    → (heal r first second).1 ≡ true
    → Tuned start (heal r first second).0
unfolding heal
heal-Tuned start r first second ok =
    let closed = record r { heals = r.heals + 1; dev = none } in
    healed start closed (open_dongle r.auto_reset first second) ok

pub new_radio-Tuned :
    (start : Registers) (freq drate : ℕ) (auto_reset : Bool) (max_usb_errors foccfg : ℕ)
    (d : Dongle)
    → (new_radio freq drate auto_reset max_usb_errors foccfg d).1 ≡ true
    → Tuned start (new_radio freq drate auto_reset max_usb_errors foccfg d).0
new_radio-Tuned start freq drate auto_reset max_usb_errors foccfg d ok =
    let r = (new_radio freq drate auto_reset max_usb_errors foccfg d).0 in
    let l = common_lem (write_all start d.calls) r in
    rw (written start d (common_calls r) ok) (l.0, l.1, λ t. absurd cc)

same_at :
    (start : Registers) (r : RfcatRadio) (n m : ℕ) (o : Option Dongle) (k : Option (Bool × ℕ))
    → Tuned start (record r { dev = o; rx_kwargs = k })
    → Tuned start (record r { dev = o; rx_kwargs = k; timeouts = n; usb_errors_ok = m })
same_at start r n m none k h = tt
same_at start r n m (some d) none h = h
same_at start r n m (some d) (some k) h = h

pub same_lem :
    (start : Registers) (r : RfcatRadio) (n m : ℕ)
    → Tuned start r
    → Tuned start (record r { timeouts = n; usb_errors_ok = m })
same_lem start r n m h = same_at start r n m r.dev r.rx_kwargs h
