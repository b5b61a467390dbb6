-- ===== src/Radio/Rfcat/Registers/Cut.antt =====
-- rfcat.py, class RfcatRadio: operations that a raising call may cut short leave the frequency and
-- the rate in the dongle.
use insteonrf.Common.{
  ◌&&◌, ltb, ℕ, zero, suc, ◌+◌, ◌≡◌, refl, ◌∙◌, Bool, true, false, if◌then◌else◌, Option, none,
  some, List, [], ◌∷◌, ◌++◌, length, Bool-cases, inl, inr, All,
}
use insteonrf.Manchester.{Bits}
use insteonrf.Radio.Rfcat.{
  Answer, done, lost, refused, said, tell, is_left, and_then, xmits, send_calls, block_of,
  mode_idle, mode_rx, Command, Dongle, RfcatRadio, tell_radio, rx_start, rx_rest, tx_calls,
  configure_rx, configure_tx, rearm, transmit_bits,
}
use insteonrf.Radio.Rfcat.Reception.{
  raised, nothing, heal, unanswered, is_wedged, Received, Outcome, block, timed_out, failed,
  receive, after_heal,
}
use insteonrf.Radio.Rfcat.Health.{heal-heals}
use insteonrf.Radio.Rfcat.Registers.{
  Registers, write, write_all, write_all-append, IsCommon, Tuned-IsCommon,
}
use insteonrf.Radio.Rfcat.Registers.Configured.{heal-Tuned}
use insteonrf.Radio.Rfcat.Registers.Kept.{is_kept, more}

abbrev pub Common : Registers → RfcatRadio → Type 0
Common start r = IsCommon start r r.dev

-- a call that leaves the frequency and the rate
abbrev Keeps : Command → Type 0
Keeps c = (g : Registers) → ((write g c).freq ≡ g.freq) × ((write g c).drate ≡ g.drate)

said-Keeps :
    (cmds : List Command) (answers : List Answer) (g : Registers)
    → All Keeps cmds
    → ((write_all g (said cmds answers)).freq ≡ g.freq)
      × ((write_all g (said cmds answers)).drate ≡ g.drate)
unfolding said write_all
said-Keeps [] answers g k = (refl, refl)
said-Keeps (c ∷ []) [] g k = k.0 g
said-Keeps (c ∷ e ∷ cmds) [] g k =
    let h = said-Keeps (e ∷ cmds) [] (write g c) k.1 in (h.0 ∙ (k.0 g).0, h.1 ∙ (k.0 g).1)
said-Keeps (c ∷ cmds) (done ∷ answers) g k =
    let h = said-Keeps cmds answers (write g c) k.1 in (h.0 ∙ (k.0 g).0, h.1 ∙ (k.0 g).1)
said-Keeps (c ∷ cmds) (lost ∷ answers) g k = k.0 g
said-Keeps (c ∷ cmds) (refused ∷ answers) g k = (refl, refl)

tell-Common :
    (start : Registers) (r : RfcatRadio) (cmds : List Command) (o : Option Dongle)
    → All Keeps cmds
    → IsCommon start r o
    → IsCommon start r (tell cmds o).0
tell-Common start r cmds none k h = tt
tell-Common start r cmds (some d) k h =
    let w = said-Keeps cmds d.answers (write_all start d.calls) k in
    rw (write_all-append start d.calls (said cmds d.answers)) (w.0 ∙ h.0, w.1 ∙ h.1)

and_then-Common :
    (start : Registers) (x : RfcatRadio × Bool) (next : RfcatRadio → RfcatRadio × Bool)
    → Common start x.0
    → (Common start x.0 → Common start (next x.0).0)
    → Common start (and_then x next).0
and_then-Common start (r, true) next h f = f h
and_then-Common start (r, false) next h f = h

-- what the calls of each operation keep
rx_start-Keeps : (size : ℕ) → All Keeps (rx_start size)
unfolding write
rx_start-Keeps size = (
  λ g. (refl, refl),
  (λ g. (refl, refl), (λ g. (refl, refl), (λ g. (refl, refl), (λ g. (refl, refl), tt)))),
)

rx_rest-Keeps : (f : ℕ) (sync : Bool) → All Keeps (rx_rest f sync)
unfolding write
rx_rest-Keeps f sync =
    (λ g. (refl, refl), (λ g. (refl, refl), (λ g. (refl, refl), (λ g. (refl, refl), tt))))

tx_calls-Keeps : All Keeps tx_calls
unfolding write
tx_calls-Keeps = (
  λ g. (refl, refl),
  (
    λ g. (refl, refl),
    (λ g. (refl, refl), (λ g. (refl, refl), (λ g. (refl, refl), (λ g. (refl, refl), tt)))),
  ),
)

xmits-Keeps : (n : ℕ) (bytes : List ℕ) → All Keeps (xmits n bytes ++ (mode_idle ∷ []))
unfolding write
xmits-Keeps zero bytes = (λ g. (refl, refl), tt)
xmits-Keeps (suc n) bytes = (λ g. (refl, refl), xmits-Keeps n bytes)

send_calls-Keeps : (n : ℕ) (bytes : List ℕ) → All Keeps (send_calls n bytes)
unfolding write
send_calls-Keeps n bytes = (λ g. (refl, refl), xmits-Keeps n bytes)

rearm-Keeps : All Keeps (mode_idle ∷ mode_rx ∷ [])
unfolding write
rearm-Keeps = (λ g. (refl, refl), (λ g. (refl, refl), tt))

pub configure_rx-Common :
    (start : Registers) (r : RfcatRadio) (sync : Bool) (size : ℕ)
    → Common start r
    → Common start (configure_rx r sync size).0
unfolding configure_rx
configure_rx-Common start r sync size h =
    let first =
      tell_radio (record r { rx_kwargs = some (sync, size); tx = false }) (rx_start size) in
    and_then-Common start first
      (λ q. tell_radio (record q { sync_header = sync }) (rx_rest q.foccfg sync))
      (tell-Common start r (rx_start size) r.dev (rx_start-Keeps size) h)
      (λ k. tell-Common start r (rx_rest r.foccfg sync) first.0.dev (rx_rest-Keeps r.foccfg sync) k)

pub configure_tx-Common :
    (start : Registers) (r : RfcatRadio) → Common start r → Common start (configure_tx r).0
unfolding configure_tx
configure_tx-Common start r h = tell-Common start r tx_calls r.dev tx_calls-Keeps h

pub rearm-Common :
    (start : Registers) (r : RfcatRadio) (status : Option ℕ)
    → Common start r
    → Common start (rearm r status).0
unfolding rearm
rearm-Common start r status h = elim (Bool-cases (is_left status)) [
  | inl busy ↦ rw busy h
  | inr free ↦ rw free (tell-Common start r (mode_idle ∷ mode_rx ∷ []) r.dev rearm-Keeps h)
]

set_up-Common :
    (start : Registers) (r : RfcatRadio) (t : Bool)
    → Common start r
    → Common start (if t then (r, true) else configure_tx r).0
set_up-Common start r true h = h
set_up-Common start r false h = configure_tx-Common start r h

pub transmit_bits-Common :
    (start : Registers) (r : RfcatRadio) (bits : Bits) (repeat : ℕ) (invert : Bool)
    → Common start r
    → Common start (transmit_bits r bits repeat invert).0
unfolding transmit_bits
transmit_bits-Common start r bits repeat invert h =
    let bytes = block_of bits invert in
    let ready = if r.tx then (r, true) else configure_tx r in
    elim (Bool-cases (ltb 255 (length bytes))) [
      | inl long ↦ rw long h
      | inr fits ↦ rw fits (
          and_then-Common start ready (λ q. tell_radio q (send_calls repeat bytes))
            (set_up-Common start r r.tx h)
            (λ k.
              tell-Common start ready.0 (send_calls repeat bytes) ready.0.dev
                (send_calls-Keeps repeat bytes) k))
    ]

after_heal-Common :
    (start : Registers) (r : RfcatRadio) (x : RfcatRadio × Bool)
    → x.0.heals ≡ r.heals + 1
    → (x.1 ≡ true → Common start x.0)
    → is_kept r (after_heal x) ≡ true
    → Common start (after_heal x).0
unfolding is_kept
after_heal-Common start r (q, true) e h kept = h refl
after_heal-Common start r (q, false) e h kept = let not_kept = more q.heals r.heals e in absurd cc

heal-Common :
    (start : Registers) (r : RfcatRadio) (first second : Option Dongle)
    → (heal r first second).1 ≡ true
    → Common start (heal r first second).0
heal-Common start r first second ok =
    let q = (heal r first second).0 in
    Tuned-IsCommon start q q.dev (heal-Tuned start r first second ok)

unanswered-Common :
    (start : Registers) (r : RfcatRadio) (first second : Option Dongle) (otherwise : Received)
    → Common start r
    → is_kept r (unanswered r first second otherwise) ≡ true
    → Common start (unanswered r first second otherwise).0
unanswered-Common start r first second otherwise h =
    let tired = record r { timeouts = r.timeouts + 1 } in
    elim (Bool-cases (r.auto_reset && is_wedged tired r.dev)) [
      | inl sick ↦ rw sick (
          after_heal-Common start r (heal tired first second) (heal-heals tired first second)
            (heal-Common start tired first second))
      | inr fine ↦ rw fine (λ kept. h)
    ]

receive_at :
    (start : Registers) (r : RfcatRadio) (o : Outcome) (dev first second : Option Dongle)
    → IsCommon start r dev
    → is_kept r (receive (record r { dev = dev }) o first second) ≡ true
    → Common start (receive (record r { dev = dev }) o first second).0
unfolding receive is_kept
receive_at start r (block bytes ts) none first second h =
    unanswered-Common start (record r { dev = none }) first second raised h
receive_at start r (block bytes ts) (some d) first second h = λ kept. h
receive_at start r timed_out none first second h =
    unanswered-Common start (record r { dev = none }) first second raised h
receive_at start r timed_out (some d) first second h =
    unanswered-Common start (record r { dev = some d }) first second nothing h
receive_at start r failed dev first second h =
    unanswered-Common start (record r { dev = dev }) first second raised h

pub receive-Common :
    (start : Registers) (r : RfcatRadio) (o : Outcome) (first second : Option Dongle)
    → Common start r
    → is_kept r (receive r o first second) ≡ true
    → Common start (receive r o first second).0
receive-Common start r o first second h = receive_at start r o r.dev first second h
