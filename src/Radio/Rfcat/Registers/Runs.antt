-- ===== src/Radio/Rfcat/Registers/Runs.antt =====
-- rfcat.py, class RfcatRadio: any sequence of operations.
use mathlib.Core.Path.{subst}
use insteonrf.Common.{◌||◌, ℕ, ◌≡◌, ap, Bool, true, Option, none, some, List, [], ◌∷◌}
use insteonrf.Manchester.{Bits}
use insteonrf.Radio.Rfcat.{
  is_left, and_then, Dongle, RfcatRadio, configure_rx, configure_tx, rearm, transmit_bits,
}
use insteonrf.Radio.Rfcat.Reception.{heal, Outcome, receive, new_radio}
use insteonrf.Radio.Rfcat.Registers.{Registers, Tuned, IsCommon, Tuned-IsCommon}
use insteonrf.Radio.Rfcat.Registers.Cut.{
  Common, configure_rx-Common, configure_tx-Common, rearm-Common, transmit_bits-Common,
  receive-Common,
}
use insteonrf.Radio.Rfcat.Registers.Kept.{is_kept, receive-Tuned, rearm-Tuned, transmit_bits-Tuned}
use insteonrf.Radio.Rfcat.Registers.Configured.{
  then_Tuned, new_radio-Tuned, configure_rx-Tuned, configure_tx-Tuned, heal-Tuned,
}

-- what rflib says of the health of a dongle, after a call
abbrev pub with_health : Bool → Bool → ℕ → Option Dongle → Option Dongle
with_health reset_event resetup_error usb_errors none = none
with_health reset_event resetup_error usb_errors (some d) =
    some (record d {
      reset_event = reset_event;
      resetup_error = resetup_error;
      usb_errors = usb_errors;
    })

-- the operations of a radio, with what the dongle and the attempts to open one answer
pub data Operation : Type 0 where
  to_rx : Bool → ℕ → Operation
  to_tx : Operation
  to_rearm : Option ℕ → Operation
  to_receive : Bool → Bool → ℕ → Outcome → Option Dongle → Option Dongle → Operation
  to_transmit : Bits → ℕ → Bool → Operation
  to_heal : Option Dongle → Option Dongle → Operation
  to_close : Operation

-- an operation, and whether it went through: a call of `receive` that raises without healing the
-- dongle counts as such, and so does one of `rearm` that finds the radio busy or cannot ask it
unfoldable pub operate : RfcatRadio → Operation → RfcatRadio × Bool
operate r (to_rx sync size) = configure_rx r sync size
operate r to_tx = configure_tx r
operate r (to_rearm status) = ((rearm r status).0, is_left status || (rearm r status).1)
operate r (to_receive event error errors o first second) =
    let answer = receive (record r { dev = with_health event error errors r.dev }) o first second in
    (answer.0, is_kept r answer)
operate r (to_transmit bits repeat invert) = transmit_bits r bits repeat invert
operate r (to_heal first second) = heal r first second
operate r to_close = (record r { dev = none }, true)

-- the operations up to the first that does not go through
unfoldable pub operate_all : RfcatRadio → List Operation → RfcatRadio × Bool
operate_all r [] = (r, true)
operate_all r (op ∷ ops) = and_then (operate r op) (λ q. operate_all q ops)

-- whether a healing in an operation, if there is one, returned; the operation may raise otherwise
unfoldable pub is_mended : RfcatRadio → Operation → Bool
is_mended r (to_receive event error errors o first second) =
    (operate r (to_receive event error errors o first second)).1
is_mended r (to_heal first second) = (operate r (to_heal first second)).1
is_mended r (to_rx sync size) = true
is_mended r to_tx = true
is_mended r (to_rearm status) = true
is_mended r (to_transmit bits repeat invert) = true
is_mended r to_close = true

-- a radio that was created or healed, after any operations, of which some may have been cut short
pub data IsUsed : RfcatRadio → Type 0 where
  created :
      (r : RfcatRadio) (freq drate : ℕ) (auto_reset : Bool) (max_usb_errors foccfg : ℕ) (d : Dongle)
      → new_radio freq drate auto_reset max_usb_errors foccfg d ≡ (r, true)
      → IsUsed r
  healed :
      (r q : RfcatRadio) (first second : Option Dongle) → heal q first second ≡ (r, true) → IsUsed r
  tried :
      (q : RfcatRadio) (op : Operation) → IsUsed q → is_mended q op ≡ true → IsUsed (operate q op).0

-- a radio as `RfcatRadio(...)` or `heal` returned it, whatever came before, or as setting it up to
-- receive or to transmit left it where that returned
pub data IsFresh : RfcatRadio → Type 0 where
  as_created :
      (r : RfcatRadio) (freq drate : ℕ) (auto_reset : Bool) (max_usb_errors foccfg : ℕ) (d : Dongle)
      → new_radio freq drate auto_reset max_usb_errors foccfg d ≡ (r, true)
      → IsFresh r
  as_healed :
      (r q : RfcatRadio) (first second : Option Dongle)
      → heal q first second ≡ (r, true)
      → IsFresh r
  as_receiving :
      (r q : RfcatRadio) (sync : Bool) (size : ℕ)
      → IsUsed q
      → configure_rx q sync size ≡ (r, true)
      → IsFresh r
  as_transmitting : (r q : RfcatRadio) → IsUsed q → configure_tx q ≡ (r, true) → IsFresh r

health_at :
    (start : Registers) (r : RfcatRadio) (event error : Bool) (errors : ℕ) (o : Option Dongle)
    (k : Option (Bool × ℕ))
    → Tuned start (record r { dev = o; rx_kwargs = k })
    → Tuned start (record r { dev = with_health event error errors o; rx_kwargs = k })
health_at start r event error errors none k h = tt
health_at start r event error errors (some d) none h = h
health_at start r event error errors (some d) (some k) h = h

with_health-IsCommon :
    (start : Registers) (r : RfcatRadio) (event error : Bool) (errors : ℕ) (o : Option Dongle)
    → IsCommon start r o
    → IsCommon start r (with_health event error errors o)
with_health-IsCommon start r event error errors none h = tt
with_health-IsCommon start r event error errors (some d) h = h

operate-Tuned :
    (start : Registers) (r : RfcatRadio) (op : Operation)
    → Tuned start r
    → (operate r op).1 ≡ true
    → Tuned start (operate r op).0
unfolding operate is_kept
operate-Tuned start r (to_rx sync size) h =
    configure_rx-Tuned start r sync size (Tuned-IsCommon start r r.dev h)
operate-Tuned start r to_tx h = configure_tx-Tuned start r (Tuned-IsCommon start r r.dev h)
operate-Tuned start r (to_rearm status) h = rearm-Tuned start r status h
operate-Tuned start r (to_receive event error errors o first second) h =
    receive-Tuned start (record r { dev = with_health event error errors r.dev }) o first second
      (health_at start r event error errors r.dev r.rx_kwargs h)
operate-Tuned start r (to_transmit bits repeat invert) h =
    transmit_bits-Tuned start r bits repeat invert h
operate-Tuned start r (to_heal first second) h = heal-Tuned start r first second
operate-Tuned start r to_close h = λ ok. tt

run-Tuned :
    (start : Registers) (r : RfcatRadio) (ops : List Operation)
    → Tuned start r
    → (operate_all r ops).1 ≡ true
    → Tuned start (operate_all r ops).0
unfolding operate_all
run-Tuned start r [] h = λ ok. h
run-Tuned start r (op ∷ ops) h =
    then_Tuned start (operate r op) (λ q. operate_all q ops)
      (λ a. run-Tuned start (operate r op).0 ops (operate-Tuned start r op h a))

fresh_at :
    (start : Registers) (r : RfcatRadio) (x : RfcatRadio × Bool)
    → x ≡ (r, true)
    → (x.1 ≡ true → Tuned start x.0)
    → Tuned start r
fresh_at start r x e h = subst (λ q. Tuned start q) (ap (λ y. y.0) e) (h (ap (λ y. y.1) e))

created_Tuned :
    (start : Registers) (r : RfcatRadio) (freq drate : ℕ) (auto_reset : Bool)
    (max_usb_errors foccfg : ℕ) (d : Dongle)
    → new_radio freq drate auto_reset max_usb_errors foccfg d ≡ (r, true)
    → Tuned start r
created_Tuned start r freq drate auto_reset max_usb_errors foccfg d e =
    fresh_at start r (new_radio freq drate auto_reset max_usb_errors foccfg d) e
      (new_radio-Tuned start freq drate auto_reset max_usb_errors foccfg d)

healed_Tuned :
    (start : Registers) (r q : RfcatRadio) (first second : Option Dongle)
    → heal q first second ≡ (r, true)
    → Tuned start r
healed_Tuned start r q first second e =
    fresh_at start r (heal q first second) e (heal-Tuned start q first second)

operate-Common :
    (start : Registers) (r : RfcatRadio) (op : Operation)
    → Common start r
    → is_mended r op ≡ true
    → Common start (operate r op).0
unfolding operate is_mended is_kept
operate-Common start r (to_rx sync size) h = λ ok. configure_rx-Common start r sync size h
operate-Common start r to_tx h = λ ok. configure_tx-Common start r h
operate-Common start r (to_rearm status) h = λ ok. rearm-Common start r status h
operate-Common start r (to_receive event error errors o first second) h =
    receive-Common start (record r { dev = with_health event error errors r.dev }) o first second
      (with_health-IsCommon start r event error errors r.dev h)
operate-Common start r (to_transmit bits repeat invert) h =
    λ ok. transmit_bits-Common start r bits repeat invert h
operate-Common start r (to_heal first second) h = λ ok.
    Tuned-IsCommon start (heal r first second).0 (heal r first second).0.dev
      (heal-Tuned start r first second ok)
operate-Common start r to_close h = λ ok. tt

IsUsed-Common : (start : Registers) (r : RfcatRadio) → IsUsed r → Common start r
IsUsed-Common start _ (created r freq drate auto_reset max_usb_errors foccfg d e) =
    Tuned-IsCommon start r r.dev
      (created_Tuned start r freq drate auto_reset max_usb_errors foccfg d e)
IsUsed-Common start _ (healed r q first second e) =
    Tuned-IsCommon start r r.dev (healed_Tuned start r q first second e)
IsUsed-Common start _ (tried q op used ok) =
    operate-Common start q op (IsUsed-Common start q used) ok

IsFresh-Tuned : (start : Registers) (r : RfcatRadio) → IsFresh r → Tuned start r
IsFresh-Tuned start _ (as_created r freq drate auto_reset max_usb_errors foccfg d e) =
    created_Tuned start r freq drate auto_reset max_usb_errors foccfg d e
IsFresh-Tuned start _ (as_healed r q first second e) = healed_Tuned start r q first second e
IsFresh-Tuned start _ (as_receiving r q sync size used e) =
    fresh_at start r (configure_rx q sync size) e
      (configure_rx-Tuned start q sync size (IsUsed-Common start q used))
IsFresh-Tuned start _ (as_transmitting r q used e) =
    fresh_at start r (configure_tx q) e (configure_tx-Tuned start q (IsUsed-Common start q used))

-- Take a radio as its creation or a healing returned it, whatever came before; or one that was used
-- after that, where a call that raises may have cut any operation short but a healing, and that was
-- then set up to receive or to transmit without a call that raises. Then take any operations that go
-- through: none is cut short by a call that raises while the dongle is set up or sends, no block is
-- too long and no healing fails, though receiving may time out or raise and the dongle may be
-- reopened. Whatever stood in its registers, an open dongle is then set to what the radio remembers:
-- its frequency and rate; if it was last set up to receive, it listens, with the sync word, mode,
-- block length and FOCCFG of that setup; if to transmit, it has that sync word and mode.
pub operate_all-Tuned :
    (start : Registers) (r : RfcatRadio) (ops : List Operation)
    → IsFresh r
    → (operate_all r ops).1 ≡ true
    → Tuned start (operate_all r ops).0
operate_all-Tuned start r ops fresh ok = run-Tuned start r ops (IsFresh-Tuned start r fresh) ok
