-- ===== src/Mesh/Held.antt =====
-- mesh.py, `MeshService.drain`: the grace period of the held events.
use insteonrf.Common.{
  ◌∙◌, ℕ, ◌+◌, ◌≤◌, ◌<◌, ◌≡◌, refl, arith, leb, Bool, Option, none, some, List, [], ◌∷◌, ◌++◌,
  length, Bool-cases, inl, inr,
}
use insteonrf.Fusion.{FusedEvent}
use insteonrf.Fusion.Emit as Emit
use insteonrf.Inject.Classify.{Injector}
use insteonrf.Mesh.Service.{
  finish_event, link_lost, MeshService, Settled, finish, settle_due, hold, drain,
}

-- the deadlines do not fall, from a bound on
unfoldable pub Rising : ℕ → List (ℕ × FusedEvent) → Type 0
Rising low [] = Unit
Rising low ((due, ev) ∷ held) = (low ≤ due) × Rising due held

-- every deadline is after a time, or at most one
unfoldable pub AllAfter : ℕ → List (ℕ × FusedEvent) → Type 0
AllAfter now [] = Unit
AllAfter now ((due, ev) ∷ held) = (now < due) × AllAfter now held

unfoldable pub AllUpTo : ℕ → List (ℕ × FusedEvent) → Type 0
AllUpTo high [] = Unit
AllUpTo high ((due, ev) ∷ held) = (due ≤ high) × AllUpTo high held

later_after :
    (low now : ℕ) (held : List (ℕ × FusedEvent)) → now < low → Rising low held → AllAfter now held
unfolding Rising AllAfter
later_after low now [] h r = tt
later_after low now ((due, ev) ∷ held) h r =
    let k : now < due = omega (arith, r.0) in (k, later_after due now held k r.1)

hold-Rising :
    (low due : ℕ) (held : List (ℕ × FusedEvent)) (evs : List FusedEvent)
    → low ≤ due
    → Rising low held
    → AllUpTo due held
    → Rising low (held ++ hold due evs)
unfolding Rising AllUpTo hold
hold-Rising low due [] [] l r u = tt
hold-Rising low due [] (ev ∷ evs) l r u = (l, hold-Rising due due [] evs (omega arith) tt tt)
hold-Rising low due ((d, ev) ∷ held) evs l r u = (r.0, hold-Rising d due held evs u.0 r.1 u.1)

upto_hold :
    (high : ℕ) (held : List (ℕ × FusedEvent)) (evs : List FusedEvent)
    → AllUpTo high held
    → AllUpTo high (held ++ hold high evs)
unfolding AllUpTo hold
upto_hold high [] [] u = tt
upto_hold high [] (ev ∷ evs) u = let k : high ≤ high = omega arith in (k, upto_hold high [] evs tt)
upto_hold high ((due, ev) ∷ held) evs u = (u.0, upto_hold high held evs u.1)

lower-Rising :
    (low due : ℕ) (held : List (ℕ × FusedEvent)) → low ≤ due → Rising due held → Rising low held
unfolding Rising
lower-Rising low due [] l r = tt
lower-Rising low due ((d, ev) ∷ held) l r = let k : low ≤ d = omega (arith, r.0) in (k, r.1)

length-hold :
    (due : ℕ) (held : List (ℕ × FusedEvent)) (evs : List FusedEvent)
    → length (held ++ hold due evs) ≡ length held + length evs
unfolding hold
length-hold due [] [] = refl
length-hold due [] (ev ∷ evs) = omega (arith, length-hold due [] evs)
length-hold due (h ∷ held) evs = omega (arith, length-hold due held evs)

event_events :
    (svc : MeshService) (ev : FusedEvent) (now : ℕ) (enabled : Bool) (link : Option Bool)
    (o : Option Injector)
    → (finish_event svc ev now enabled link o).0.events ≡ svc.events
event_events svc ev now enabled link none = refl
event_events svc ev now enabled link (some inj) =
    elim (Bool-cases (link_lost svc.require_plm_link link)) [
      | inl lost ↦ rw lost refl
      | inr there ↦ rw there refl
    ]

finish_events :
    (svc : MeshService) (ev : FusedEvent) (now : ℕ) (enabled : Bool) (link : Option Bool)
    → (finish svc ev now enabled link).0.events ≡ svc.events
unfolding finish
finish_events svc ev now enabled link = event_events svc _ now enabled link svc.injector

-- What a run of the loop leaves: held events in order, none of them due.
record Drained (now low : ℕ) (held : List (ℕ × FusedEvent)) (svc : MeshService) (s : Settled)
    : Type 0 where
  pub rising : Rising low s.held
  pub later : AllAfter now s.held
  pub upto : (high : ℕ) → AllUpTo high held → AllUpTo high s.held
  pub count : length s.out + length s.held ≡ length held
  pub events : s.service.events ≡ svc.events

due_lem :
    (svc : MeshService) (now : ℕ) (enabled : Bool) (link : Option Bool) (low : ℕ)
    (held : List (ℕ × FusedEvent))
    → Rising low held
    → Drained now low held svc (settle_due svc now enabled link held)
unfolding settle_due Rising AllUpTo AllAfter
due_lem svc now enabled link low [] =
    λ h. record { rising = tt; later = tt; upto = λ high u. tt; count = refl; events = refl }
due_lem svc now enabled link low ((due, ev) ∷ held) = elim (Bool-cases (leb due now)) [
  | inl ripe ↦ rw ripe (λ h.
      let next = (finish svc ev now enabled link).0 in
      let k = due_lem next now enabled link due held h.1 in
      record {
        rising = lower-Rising low due _ h.0 k.rising;
        later = k.later;
        upto = λ high u. k.upto high u.1;
        count = omega (arith, k.count);
        events = k.events ∙ finish_events svc ev now enabled link;
      })
  | inr early ↦ rw early (λ h.
      let after : now < due = ground (arith, early) in
      record {
        rising = h;
        later = (after, later_after due now held after h.1);
        upto = λ high u. u;
        count = omega arith;
        events = refl;
      })
]

-- Of a service whose held events stand in the order of their deadlines, none later than the grace
-- period from now, a call of `drain` leaves the same, with no event whose deadline has come; and
-- every event that was held or counted is given out or still held.
pub drain_due :
    (svc : MeshService) (now : ℕ) (enabled : Bool) (link : Option Bool)
    → Rising 0 svc.holding
    → AllUpTo (now + svc.grace) svc.holding
    → Rising 0 (drain svc now enabled link).0.holding
      × AllUpTo (now + svc.grace) (drain svc now enabled link).0.holding
      × AllAfter now (drain svc now enabled link).0.holding
      × (length (drain svc now enabled link).1
            + length (drain svc now enabled link).0.holding
            + svc.events
          ≡ length svc.holding + (drain svc now enabled link).0.events)
unfolding drain
drain_due svc now enabled link r u =
    let popped = Emit.pop_ready svc.fusion now in
    let due = now + svc.grace in
    let begun = record svc { fusion = popped.0; events = svc.events + length popped.1 } in
    let held = svc.holding ++ hold due popped.1 in
    let k =
      due_lem begun now enabled link 0 held
        (hold-Rising 0 due svc.holding popped.1 (omega arith) r u) in
    (
      k.rising,
      k.upto due (upto_hold due svc.holding popped.1 u),
      k.later,
      omega (arith, k.count, k.events, length-hold due svc.holding popped.1),
    )
