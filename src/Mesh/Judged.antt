-- ===== src/Mesh/Judged.antt =====
-- mesh.py: settling an event keeps the miss table adding up.
use insteonrf.Common.{
  ℕ, ◌≡◌, ◌≢◌, refl, arith, leb, Bool, true, false, Option, none, some, List, Bool-cases,
  Option-cases, Result-cases, inl, inr, length, sym, ap, ◌∙◌, [], ◌∷◌, ◌+◌, ◌++◌,
}
use insteonrf.Fusion.Emit as Emit
use insteonrf.Fusion.{FusedEvent}
use insteonrf.Packet.Address.{Address}
use insteonrf.Inject.Classify.{Reason, Injector, Tier, sender_of, classify}
use insteonrf.Plm.{to_plm_bytes}
use insteonrf.Inject.Memory.{heard}
use insteonrf.Inject.Consider.{
  consider, begin, admit, settle, rate, fire, no_, too_soon, mem_tier, packet_fault, Outcome,
}
use insteonrf.Inject.Consider.Cleared.{Class-cases}
use insteonrf.Mesh.Tallies.{AddsUp, note-AddsUp}
use insteonrf.Mesh.Service.{settle_due, hold, drain, MeshService, finish, finish_event, link_lost}

fire_event :
    (inj : Injector) (ev : FusedEvent) (t : Tier) (a : Address) (frame : List ℕ) (now : ℕ)
    → (fire inj ev t a frame now).event ≡ ev
unfolding fire
fire_event inj ev t a frame now = elim (Bool-cases inj.shadow) [
  | inl e ↦ rw e refl
  | inr e ↦ rw e refl
]

no_event : (inj : Injector) (ev : FusedEvent) (why : Reason) → (no_ inj ev why).event ≡ ev
unfolding no_
no_event inj ev why = refl

rate_event :
    (inj : Injector) (ev : FusedEvent) (t : Tier) (now : ℕ) → (rate inj ev t now).event ≡ ev
unfolding rate
rate_event inj ev t now = elim (Option-cases (sender_of ev.packet)) [
  | inl e ↦ ground (arith, e, no_event inj ev Reason.assertion_failed)
  | inr e ↦ elim (Bool-cases (too_soon inj e.0 now)) [
    | inl s ↦ ground (arith, e.1, s, no_event inj ev Reason.device_rate)
    | inr s ↦ elim (Bool-cases (leb inj.global_per_minute (length inj.recent_injections))) [
      | inl g ↦ ground (arith, e.1, s, g, no_event inj ev Reason.global_rate)
      | inr g ↦ elim (Result-cases (to_plm_bytes ev.packet true)) [
        | inl r ↦ ground (arith, e.1, s, g, r.1, no_event inj ev (Reason.unrenderable r.0))
        | inr r ↦ ground (arith, e.1, s, g, r.1, fire_event inj ev t e.0 r.0 now)
      ]
    ]
  ]
]

-- what an event keeps through `consider`, and that it has a verdict
abbrev Judged : FusedEvent → Outcome → Type 0
Judged ev o = (o.event.plm_saw_it ≢ none) × (o.event.packet ≡ ev.packet)

true_none : some false ≢ none
true_none h = cc

settle-Judged :
    (inj : Injector) (ev : FusedEvent) (t : Tier) (now : ℕ) → Judged ev (settle inj ev t now)
unfolding settle no_
settle-Judged inj ev t now = elim (Bool-cases (heard inj.memory ev.key ev.last_seen)) [
  | inl e ↦ rw e (λ h. cc, refl)
  | inr e ↦
      let k = rate_event inj (record ev { plm_saw_it = some false }) t now in
      rw e (λ h. absurd (true_none (sym (ap (λ x. x.plm_saw_it) k) ∙ h)), ap (λ x. x.packet) k)
]

admit-Judged :
    (inj : Injector) (ev : FusedEvent) (t : Tier) (now : ℕ)
    → ev.plm_saw_it ≢ none
    → Judged ev (admit inj ev t now)
unfolding admit no_
admit-Judged inj ev t now h = elim (Bool-cases (mem_tier t inj.allow)) [
  | inr e ↦ rw e (h, refl)
  | inl e ↦ elim (Option-cases (packet_fault inj ev)) [
    | inl f ↦ rw e (rw f (settle-Judged inj ev t now))
    | inr f ↦ rw e (rw f.1 (h, refl))
  ]
]

consider-Judged :
    (inj : Injector) (enabled : Bool) (ev : FusedEvent) (now : ℕ)
    → ev.plm_saw_it ≢ none
    → Judged ev (consider inj enabled ev now)
unfolding consider no_
consider-Judged inj false ev now h = (h, refl)
consider-Judged inj true ev now h = elim (Class-cases (classify (begin inj now) ev.packet)) [
  | inl c ↦ rw c.1 (h, refl)
  | inr c ↦ rw c.1 (admit-Judged (begin inj now) ev c.0 now h)
]

event-AddsUp :
    (svc : MeshService) (ev : FusedEvent) (now : ℕ) (enabled : Bool) (link : Option Bool)
    (o : Option Injector)
    → ev.plm_saw_it ≢ none
    → AddsUp svc.misses
    → AddsUp (finish_event svc ev now enabled link o).0.misses
event-AddsUp svc ev now enabled link none h k = note-AddsUp svc.misses ev false h k
event-AddsUp svc ev now enabled link (some inj) h k =
    elim (Bool-cases (link_lost svc.require_plm_link link)) [
      | inl lost ↦ rw lost (note-AddsUp svc.misses ev false h k)
      | inr there ↦
          let o = consider (record inj { memory = svc.memory }) enabled ev now in
          let j = consider-Judged (record inj { memory = svc.memory }) enabled ev now h in
          rw there (note-AddsUp svc.misses o.event o.decision.inject j.0 k)
    ]

some-none : {b : Bool} → some b ≢ none
some-none h = cc

-- Settling an event, through the injector or without one, keeps a miss table that adds up.
pub finish-AddsUp :
    (svc : MeshService) (ev : FusedEvent) (now : ℕ) (enabled : Bool) (link : Option Bool)
    → AddsUp svc.misses
    → AddsUp (finish svc ev now enabled link).0.misses
unfolding finish
finish-AddsUp svc ev now enabled link k =
    event-AddsUp svc (record ev { plm_saw_it = some (heard svc.memory ev.key ev.last_seen) }) now
      enabled link svc.injector some-none k

due-AddsUp :
    (svc : MeshService) (now : ℕ) (enabled : Bool) (link : Option Bool)
    (held : List (ℕ × FusedEvent))
    → AddsUp svc.misses
    → AddsUp (settle_due svc now enabled link held).service.misses
unfolding settle_due
due-AddsUp svc now enabled link [] h = h
due-AddsUp svc now enabled link ((due, ev) ∷ held) h = elim (Bool-cases (leb due now)) [
  | inl ripe ↦ rw ripe (
      due-AddsUp (finish svc ev now enabled link).0 now enabled link held
        (finish-AddsUp svc ev now enabled link h))
  | inr early ↦ rw early h
]

-- A call of `drain`, whatever it settles and injects, keeps a miss table that adds up: the
-- messages of the devices are those of the table, and each has the modem's verdict.
pub drain-AddsUp :
    (svc : MeshService) (now : ℕ) (enabled : Bool) (link : Option Bool)
    → AddsUp svc.misses
    → AddsUp (drain svc now enabled link).0.misses
unfolding drain
drain-AddsUp svc now enabled link h =
    let popped = Emit.pop_ready svc.fusion now in
    due-AddsUp (record svc { fusion = popped.0; events = svc.events + length popped.1 }) now enabled
      link (svc.holding ++ hold (now + svc.grace) popped.1) h
