-- ===== src/Radio/Rfcat/Health.antt =====
-- rfcat.py, class RfcatRadio: when the dongle is reset.
use insteonrf.Common.{
  length, ◌++◌, ℕ, suc, ◌+◌, ◌≤◌, ◌≡◌, refl, ap, ◌∙◌, arith, Bool, true, false, ◌&&◌, ◌||◌,
  if◌then◌else◌, Option, none, some, List, [], ◌∷◌, ltb, leb, Bool-cases, inl, inr,
}
use insteonrf.Radio.Rfcat.{
  rx_rest, rx_start, tell_radio, and_then, configure_rx, configure_tx, common_calls, configure_tx,
  configure_rx, Dongle, RfcatRadio,
}
use insteonrf.Radio.Rfcat.Reception.{
  is_wedged, heal, reopened, open_dongle, configure_last, timed_out, after_heal, receive,
}

-- a dongle without a sign of trouble since the last block
abbrev pub IsQuiet : ℕ → Dongle → Type 0
IsQuiet errors_ok d =
    (d.reset_event ≡ false) × (d.resetup_error ≡ false) × (d.usb_errors ≤ errors_ok)

-- calls of `receive` that all time out, each on a dongle as that call left it
unfoldable pub time_outs : RfcatRadio → List Dongle → RfcatRadio
time_outs r [] = r
time_outs r (d ∷ ds) = time_outs (receive (record r { dev = some d }) timed_out none none).0 ds

abbrev AllQuiet : ℕ → List Dongle → Type 0
AllQuiet errors_ok [] = Unit {0}
AllQuiet errors_ok (d ∷ ds) = IsQuiet errors_ok d × AllQuiet errors_ok ds

and_then-heals :
    (x : RfcatRadio × Bool) (next : RfcatRadio → RfcatRadio × Bool)
    → ((q : RfcatRadio) → (next q).0.heals ≡ q.heals)
    → (and_then x next).0.heals ≡ x.0.heals
and_then-heals (r, true) next h = h r
and_then-heals (r, false) next h = refl

configure_last-heals :
    (r : RfcatRadio) (k : Option (Bool × ℕ)) (t : Bool)
    → (configure_last (record r { tx = t }) k).0.heals ≡ r.heals
unfolding configure_rx configure_tx
configure_last-heals r (some (sync, size)) t =
    and_then-heals
      (tell_radio (record r { rx_kwargs = some (sync, size); tx = false }) (rx_start size))
      (λ q. tell_radio (record q { sync_header = sync }) (rx_rest q.foccfg sync)) (λ q. refl)
configure_last-heals r none true = refl
configure_last-heals r none false = refl

healed-heals :
    (closed : RfcatRadio) (o : Option Dongle)
    → (elim o as (λ x. RfcatRadio × Bool) [
      | none ↦ (closed, false)
      | some d ↦ reopened closed d
    ]).0.heals
      ≡ closed.heals
unfolding reopened
healed-heals closed none = refl
healed-heals closed (some d) =
    and_then-heals (tell_radio (record closed { dev = some d }) (common_calls closed))
      (λ q. configure_last (record q { timeouts = 0; usb_errors_ok = d.usb_errors }) q.rx_kwargs)
      (λ q.
        configure_last-heals (record q { timeouts = 0; usb_errors_ok = d.usb_errors }) q.rx_kwargs
          q.tx)

after_heal-radio : (x : RfcatRadio × Bool) → (after_heal x).0 ≡ x.0
after_heal-radio (r, true) = refl
after_heal-radio (r, false) = refl

pub heal-heals :
    (r : RfcatRadio) (first second : Option Dongle) → (heal r first second).0.heals ≡ r.heals + 1
unfolding heal
heal-heals r first second =
    healed-heals (record r { heals = r.heals + 1; dev = none })
      (open_dongle r.auto_reset first second)

-- a dongle that looks troubled after so many timeouts in a row
unfoldable pub is_troubled : RfcatRadio → ℕ → Dongle → Bool
is_troubled r timeouts d =
    d.reset_event
    || d.resetup_error
    || (leb r.max_usb_errors timeouts && ltb r.usb_errors_ok d.usb_errors)

time_out_lem :
    (r : RfcatRadio) (d : Dongle)
    → (receive (record r { dev = some d }) timed_out none none).0.heals
      ≡ (if r.auto_reset && is_troubled r (r.timeouts + 1) d then r.heals + 1 else r.heals)
unfolding receive is_wedged is_troubled
time_out_lem r d =
    let tired = record r { dev = some d; timeouts = r.timeouts + 1 } in
    elim (Bool-cases (r.auto_reset && is_troubled r (r.timeouts + 1) d)) [
      | inl sick ↦
          rw sick (
            ap (λ x. x.heals) (after_heal-radio (heal tired none none))
            ∙ heal-heals tired none none)
      | inr fine ↦ rw fine refl
    ]

calm :
    (r : RfcatRadio) (n : ℕ) (d : Dongle)
    → IsQuiet r.usb_errors_ok d
    → r.auto_reset && is_troubled r n d ≡ false
unfolding is_troubled
calm r n d q = ground (arith, q)

quiet_lem :
    (r : RfcatRadio) (d : Dongle)
    → IsQuiet r.usb_errors_ok d
    → (receive (record r { dev = some d }) timed_out none none).0
      ≡ record r { dev = some d; timeouts = r.timeouts + 1 }
unfolding receive is_wedged is_troubled
quiet_lem r d q = rw (calm (record r { dev = some d }) (r.timeouts + 1) d q) refl

one_more : (t n : ℕ) → t + 1 + n + 1 ≡ t + suc n + 1
one_more t n = omega arith

no_more : (t : ℕ) → t + 1 ≡ t + 0 + 1
no_more t = omega arith

-- While calls of `receive` time out on dongles without a sign of trouble (no reset under way or
-- failed, no USB error that is new since the last block), the radio is not healed, however many they
-- are. A call that times out after them heals the radio exactly when `auto_reset` is set and the
-- dongle then has a reset under way or failed, or there was a new USB error and the timeouts in a
-- row are `max_usb_errors` or more.
pub time_outs-heals :
    (r : RfcatRadio) (quiet : List Dongle) (d : Dongle)
    → AllQuiet r.usb_errors_ok quiet
    → ((time_outs r quiet).heals ≡ r.heals)
      × ((time_outs r (quiet ++ (d ∷ []))).heals ≡ (
          if r.auto_reset && is_troubled r (r.timeouts + length quiet + 1) d
          then r.heals + 1
          else r.heals))
unfolding time_outs is_troubled
time_outs-heals r [] d q = (
  refl,
  time_out_lem r d
      ∙ ap (λ n. if r.auto_reset && is_troubled r n d then r.heals + 1 else r.heals)
          (no_more r.timeouts),
)
time_outs-heals r (e ∷ quiet) d q =
    let next = record r { dev = some e; timeouts = r.timeouts + 1 } in
    let same = quiet_lem r e q.0 in
    let rest = time_outs-heals next quiet d q.1 in
    (
      ap (λ x. (time_outs x quiet).heals) same ∙ rest.0,
      ap (λ x. (time_outs x (quiet ++ (d ∷ []))).heals) same
          ∙ rest.1
          ∙ ap (λ n. if r.auto_reset && is_troubled r n d then r.heals + 1 else r.heals)
              (one_more r.timeouts (length quiet)),
    )
