-- ===== src/Radio/Rfcat/Registers/Kept.antt =====
-- rfcat.py, class RfcatRadio: receiving, re-arming and sending leave the dongle set up.
use insteonrf.Common.{
  ◌==◌, ◌&&◌, ◌||◌, ltb, ℕ, zero, suc, ◌+◌, ◌≡◌, refl, arith, Bool, true, false, if◌then◌else◌,
  Option, none, some, List, [], ◌∷◌, ◌++◌, length, Bool-cases, inl, inr,
}
use insteonrf.Manchester.{Bits}
use insteonrf.Radio.Rfcat.{
  is_left, and_then, xmits, send_calls, block_of, mode_idle, mode_rx, Dongle, RfcatRadio,
  tell_radio, configure_tx, rearm, transmit_bits,
}
use insteonrf.Radio.Rfcat.Reception.{
  got, raised, nothing, heal, unanswered, is_wedged, Received, after_heal, Outcome, block,
  timed_out, failed, receive,
}
use insteonrf.Radio.Rfcat.Health.{heal-heals}
use insteonrf.Radio.Rfcat.Registers.{Registers, write, write_all, Tuned, Tuned-IsCommon}
use insteonrf.Radio.Rfcat.Registers.Configured.{
  then_Tuned, written, configure_tx-Tuned, heal-Tuned, same_lem,
}

-- whether the dongle was left set up: a call of `receive` that raises without healing leaves it so
unfoldable pub is_kept : RfcatRadio → RfcatRadio × Received → Bool
is_kept r (q, got ts bytes) = true
is_kept r (q, nothing) = true
is_kept r (q, raised) = q.heals == r.heals

pub more : (n m : ℕ) → n ≡ m + 1 → n == m ≡ false
more n m h = ground (arith, h)

after_lem :
    (start : Registers) (r : RfcatRadio) (x : RfcatRadio × Bool)
    → x.0.heals ≡ r.heals + 1
    → (x.1 ≡ true → Tuned start x.0)
    → is_kept r (after_heal x) ≡ true
    → Tuned start (after_heal x).0
unfolding is_kept
after_lem start r (q, true) e h kept = h refl
after_lem start r (q, false) e h kept = let not_kept = more q.heals r.heals e in absurd cc

unanswered-Tuned :
    (start : Registers) (r : RfcatRadio) (first second : Option Dongle) (otherwise : Received)
    → Tuned start r
    → is_kept r (unanswered r first second otherwise) ≡ true
    → Tuned start (unanswered r first second otherwise).0
unanswered-Tuned start r first second otherwise h =
    let tired = record r { timeouts = r.timeouts + 1 } in
    elim (Bool-cases (r.auto_reset && is_wedged tired r.dev)) [
      | inl sick ↦ rw sick (
          after_lem start r (heal tired first second) (heal-heals tired first second)
            (heal-Tuned start tired first second))
      | inr fine ↦ rw fine (λ kept. same_lem start r (r.timeouts + 1) r.usb_errors_ok h)
    ]

receive_at :
    (start : Registers) (r : RfcatRadio) (o : Outcome) (dev first second : Option Dongle)
    → Tuned start (record r { dev = dev })
    → is_kept r (receive (record r { dev = dev }) o first second) ≡ true
    → Tuned start (receive (record r { dev = dev }) o first second).0
unfolding receive is_kept
receive_at start r (block bytes ts) none first second h =
    unanswered-Tuned start (record r { dev = none }) first second raised h
receive_at start r (block bytes ts) (some d) first second h =
    λ kept. same_lem start (record r { dev = some d }) 0 d.usb_errors h
receive_at start r timed_out none first second h =
    unanswered-Tuned start (record r { dev = none }) first second raised h
receive_at start r timed_out (some d) first second h =
    unanswered-Tuned start (record r { dev = some d }) first second nothing h
receive_at start r failed dev first second h =
    unanswered-Tuned start (record r { dev = dev }) first second raised h

pub receive-Tuned :
    (start : Registers) (r : RfcatRadio) (o : Outcome) (first second : Option Dongle)
    → Tuned start r
    → is_kept r (receive r o first second) ≡ true
    → Tuned start (receive r o first second).0
receive-Tuned start r o first second h = receive_at start r o r.dev first second h

rearm_at :
    (start : Registers) (r : RfcatRadio) (k : Option (Bool × ℕ)) (o : Option Dongle)
    → Tuned start (record r { rx_kwargs = k; dev = o })
    → (tell_radio (record r { rx_kwargs = k; dev = o }) (mode_idle ∷ mode_rx ∷ [])).1 ≡ true
    → Tuned start (tell_radio (record r { rx_kwargs = k; dev = o }) (mode_idle ∷ mode_rx ∷ [])).0
unfolding write_all write
rearm_at start r k none h ok = tt
rearm_at start r none (some d) h ok =
    rw (written start d (mode_idle ∷ mode_rx ∷ []) ok) (h.0, h.1, h.2)
rearm_at start r (some (sync, size)) (some d) h ok =
    rw (written start d (mode_idle ∷ mode_rx ∷ []) ok)
      (h.0, h.1, (h.2.0, h.2.1, refl, h.2.3, h.2.4, h.2.5, h.2.6))

-- `rearm` leaves a radio alone that is busy or cannot be asked, and does not return true then
pub rearm-Tuned :
    (start : Registers) (r : RfcatRadio) (status : Option ℕ)
    → Tuned start r
    → is_left status || (rearm r status).1 ≡ true
    → Tuned start (rearm r status).0
unfolding rearm
rearm-Tuned start r status h = elim (Bool-cases (is_left status)) [
  | inr free ↦ rw free (rearm_at start r r.rx_kwargs r.dev h)
  | inl busy ↦ rw busy (λ kept. h)
]

xmits_lem :
    (g : Registers) (n : ℕ) (bytes : List ℕ)
    → write_all g (xmits n bytes ++ (mode_idle ∷ [])) ≡ record g { listening = false }
unfolding write_all write
xmits_lem g zero bytes = refl
xmits_lem g (suc n) bytes = xmits_lem g n bytes

send_at :
    (start : Registers) (r : RfcatRadio) (n : ℕ) (bytes : List ℕ) (k : Option (Bool × ℕ))
    (o : Option Dongle)
    → Tuned start (record r { tx = true; rx_kwargs = k; dev = o })
    → (tell_radio (record r { tx = true; rx_kwargs = k; dev = o }) (send_calls n bytes)).1 ≡ true
    → Tuned start
        (tell_radio (record r { tx = true; rx_kwargs = k; dev = o }) (send_calls n bytes)).0
unfolding write_all write
send_at start r n bytes k none h ok = tt
send_at start r n bytes (some (sync, size)) (some d) h ok =
    let no : true ≡ false = h.2.0 in absurd cc
send_at start r n bytes none (some d) h ok =
    let g = write_all start d.calls in
    rw (written start d (send_calls n bytes) ok)
      (rw (xmits_lem (record g { size = length bytes }) n bytes) (h.0, h.1, h.2))

transmit_lem :
    (start : Registers) (r : RfcatRadio) (t : Bool) (n : ℕ) (bytes : List ℕ)
    → Tuned start (record r { tx = t })
    → let ready = if t then (record r { tx = t }, true) else configure_tx (record r { tx = t }) in
      (and_then ready (λ q. tell_radio q (send_calls n bytes))).1 ≡ true
      → Tuned start (and_then ready (λ q. tell_radio q (send_calls n bytes))).0
unfolding configure_tx
transmit_lem start r true n bytes h = send_at start r n bytes r.rx_kwargs r.dev h
transmit_lem start r false n bytes h =
    let idle = record r { tx = false } in
    let ready = (configure_tx idle).0 in
    then_Tuned start (configure_tx idle) (λ q. tell_radio q (send_calls n bytes))
      (λ a.
        send_at start ready n bytes none ready.dev
          (configure_tx-Tuned start idle (Tuned-IsCommon start idle r.dev h) a))

pub transmit_bits-Tuned :
    (start : Registers) (r : RfcatRadio) (bits : Bits) (repeat : ℕ) (invert : Bool)
    → Tuned start r
    → (transmit_bits r bits repeat invert).1 ≡ true
    → Tuned start (transmit_bits r bits repeat invert).0
unfolding transmit_bits
transmit_bits-Tuned start r bits repeat invert h =
    let bytes = block_of bits invert in
    elim (Bool-cases (ltb 255 (length bytes))) [
      | inl long ↦ rw long (λ ok. h)
      | inr fits ↦ rw fits (transmit_lem start r r.tx repeat bytes h)
    ]
