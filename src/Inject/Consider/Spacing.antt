-- ===== src/Inject/Consider/Spacing.antt =====
-- inject.py, `Injector.consider`: the spacing of the injections of a sender, and what a call hands to `publish`.
use mathlib.Core.Path.{subst}
use insteonrf.Common.{
  ok, ℕ, ◌+◌, ◌<◌, ◌≤◌, [], ◌≡◌, Option, some, Bool, true, false, List, arith, refl, sym, ap, ◌∙◌,
  ◌∷◌, if◌then◌else◌, inl, inr, Bool-cases,
}
use insteonrf.Common.Dict.{get, get-put, get-put_self}
use insteonrf.Inject.Consider.{consider, begin, fire, too_soon, no_, Outcome}
use insteonrf.Inject.Consider.Cleared.{Cleared-consider}
use insteonrf.Inject.Consider.Counts.{Course, refused, fired, consider-Course}
use insteonrf.Inject.Consider.Safety.{consider-inject}
use insteonrf.Inject.Classify.{Injector, Tier, sender_of}
use insteonrf.Packet.Address.{Address, address_eq}
use insteonrf.Plm.{to_plm_bytes}
use insteonrf.Fusion.{FusedEvent}

clash : {b : Bool} → b ≡ true → b ≡ false → ⊥
clash h k = cc

fired_sent :
    (inj : Injector) (ev : FusedEvent) (t : Tier) (a : Address) (frame : List ℕ) (now : ℕ)
    → inj.shadow ≡ false
    → (fire inj ev t a frame now).injector.sent
      ≡ (if inj.publish then frame ∷ inj.sent else inj.sent)
unfolding fire
fired_sent inj ev t a frame now h = rw h refl

fired_frame :
    (inj : Injector) (ev : FusedEvent) (t : Tier) (a : Address) (frame : List ℕ) (now : ℕ)
    → (fire inj ev t a frame now).decision.frame ≡ some frame
unfolding fire
fired_frame inj ev t a frame now = elim (Bool-cases inj.shadow) [
  | inl e ↦ rw e refl
  | inr e ↦ rw e refl
]

same_sender : (a b : Address) (o : Option Address) → o ≡ some a → o ≡ some b → a ≡ b
same_sender a b o h k = cc

-- calls of `consider`, with the answer of the kill switch, the event and the time of each
unfoldable pub considers : Injector → List (Bool × FusedEvent × ℕ) → Injector
considers inj [] = inj
considers inj ((on, ev, at) ∷ calls) = considers (consider inj on ev at).injector calls

-- an injection of the sender is remembered that is not before `now`
record Remembers (a : Address) (now interval : ℕ) (inj : Injector) : Type 0 where
  pub last : ℕ
  pub found : get a inj.last_per_device ≡ some last
  pub late : now ≤ last
  pub same : inj.per_device_interval ≡ interval

still_late :
    (a : Address) (now interval at : ℕ) (inj : Injector)
    → too_soon inj a at ≡ false
    → Remembers a now interval inj
    → now ≤ at
still_late a now interval at inj d m = ground (arith, d, m.found, m.late)

no_sooner :
    (a b : Address) (now interval at : ℕ) (inj : Injector)
    → b ≡ a
    → too_soon inj b at ≡ false
    → Remembers a now interval inj
    → now ≤ at
no_sooner a b now interval at inj e d m =
    still_late a now interval at inj (subst (λ x. too_soon inj x at ≡ false) e d) m

fire-Remembers :
    (a : Address) (now interval : ℕ) (inj : Injector) (ev : FusedEvent) (t : Tier) (b : Address)
    (frame : List ℕ) (at : ℕ)
    → too_soon inj b at ≡ false
    → Remembers a now interval inj
    → Remembers a now interval (fire inj ev t b frame at).injector
unfolding fire
fire-Remembers a now interval inj ev t b frame at d m = elim (Bool-cases inj.shadow) [
  | inl e ↦ rw e (record { last = m.last; found = m.found; late = m.late; same = m.same })
  | inr e ↦ rw e (elim (Bool-cases (address_eq.beq b a)) [
    | inl one ↦ record {
      last = at;
      found = get-put b a at inj.last_per_device ∙ rw one refl;
      late = no_sooner a b now interval at inj ((address_eq.beq_iff b a).0 one) d m;
      same = m.same;
    }
    | inr two ↦ record {
      last = m.last;
      found = get-put b a at inj.last_per_device ∙ rw two m.found;
      late = m.late;
      same = m.same;
    }
  ])
]

Course-Remembers :
    (a : Address) (now interval : ℕ) (inj : Injector) (at : ℕ) (o : Outcome)
    → Course inj at o
    → Remembers a now interval inj
    → Remembers a now interval o.injector
unfolding no_
Course-Remembers a now interval inj at o (refused ev why e) m =
    rw e (record { last = m.last; found = m.found; late = m.late; same = m.same })
Course-Remembers a now interval inj at o (fired ev t b frame d g e) m =
    rw e (fire-Remembers a now interval inj ev t b frame at d m)

consider-Remembers :
    (a : Address) (now interval : ℕ) (inj : Injector) (on : Bool) (ev : FusedEvent) (at : ℕ)
    → Remembers a now interval inj
    → Remembers a now interval (consider inj on ev at).injector
unfolding begin
consider-Remembers a now interval inj on ev at m =
    Course-Remembers a now interval (begin inj at) at (consider inj on ev at)
      (consider-Course inj on ev at)
      (record { last = m.last; found = m.found; late = m.late; same = m.same })

considers-Remembers :
    (a : Address) (now interval : ℕ) (calls : List (Bool × FusedEvent × ℕ)) (inj : Injector)
    → Remembers a now interval inj
    → Remembers a now interval (considers inj calls)
unfolding considers
considers-Remembers a now interval [] inj m = m
considers-Remembers a now interval ((on, ev, at) ∷ calls) inj m =
    considers-Remembers a now interval calls (consider inj on ev at).injector
      (consider-Remembers a now interval inj on ev at m)

injected-Remembers :
    (inj : Injector) (ev : FusedEvent) (t : Tier) (a : Address) (frame : List ℕ) (now : ℕ)
    → inj.shadow ≡ false
    → Remembers a now inj.per_device_interval (fire inj ev t a frame now).injector
unfolding fire
injected-Remembers inj ev t a frame now h = rw h (record {
  last = now;
  found = get-put_self a now inj.last_per_device;
  late = omega arith;
  same = refl;
})

Remembers-too_soon :
    (a : Address) (now interval later : ℕ) (inj : Injector)
    → Remembers a now interval inj
    → later < now + interval
    → too_soon inj a later ≡ true
Remembers-too_soon a now interval later inj m close = ground (arith, m.found, m.late, m.same, close)

-- After an injection at the time `now`, and any calls of `consider` after it, at whatever times, no
-- event of the same sender is injected at a time before `now` plus the interval for a device,
-- whatever the event and the kill switch then are.
pub consider-spaced :
    (inj : Injector) (on off : Bool) (ev next : FusedEvent) (now later : ℕ)
    (between : List (Bool × FusedEvent × ℕ))
    → (consider inj on ev now).decision.inject ≡ true
    → sender_of next.packet ≡ sender_of ev.packet
    → later < now + inj.per_device_interval
    → (consider
        (considers (consider inj on ev now).injector between)
        off
        next
        later).decision.inject
      ≡ false
unfolding begin
consider-spaced inj on off ev next now later between h same close =
    let last = considers (consider inj on ev now).injector between in
    elim (Bool-cases (consider last off next later).decision.inject) [
      | inr e ↦ e
      | inl e ↦
          let c = consider-inject inj on ev now h in
          let d = consider-inject last off next later e in
          let k = same_sender c.1 d.1 (sender_of ev.packet) c.3.from (sym same ∙ d.3.from) in
          let o = Cleared-consider inj on ev now c.0 c.1 c.2 c.3 in
          let first =
            injected-Remembers (begin inj now) (record ev { plm_saw_it = some false }) c.0 c.1 c.2
              now c.3.live in
          let m =
            considers-Remembers c.1 now inj.per_device_interval between
              (consider inj on ev now).injector
              (subst (λ q. Remembers c.1 now inj.per_device_interval q.injector) (sym o) first) in
          absurd (
            clash (Remembers-too_soon c.1 now inj.per_device_interval later last m close)
              (ap (λ a. too_soon last a later) k ∙ d.3.device))
    ]

-- An injection with a callback hands over exactly one frame, the packet's own rendering by
-- `to_plm_bytes`, which is also the decision's frame.
pub consider-sent :
    (inj : Injector) (enabled : Bool) (ev : FusedEvent) (now : ℕ)
    → (consider inj enabled ev now).decision.inject ≡ true
    → inj.publish ≡ true
    → (frame : List ℕ) × (to_plm_bytes ev.packet true ≡ ok frame)
      × ((consider inj enabled ev now).decision.frame ≡ some frame)
      × ((consider inj enabled ev now).injector.sent ≡ frame ∷ inj.sent)
unfolding begin
consider-sent inj enabled ev now h p =
    let c = consider-inject inj enabled ev now h in
    let o = Cleared-consider inj enabled ev now c.0 c.1 c.2 c.3 in
    (
      c.2,
      c.3.rendered,
      ap (λ q. q.decision.frame) o
          ∙ fired_frame (begin inj now) (record ev { plm_saw_it = some false }) c.0 c.1 c.2 now,
      ap (λ q. q.injector.sent) o
          ∙ fired_sent (begin inj now) (record ev { plm_saw_it = some false }) c.0 c.1 c.2 now
              c.3.live
          ∙ rw p refl,
    )
