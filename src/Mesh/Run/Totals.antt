-- ===== src/Mesh/Run/Totals.antt =====
-- mesh.py, class MeshService: the counters across `drain` and the end of `run`.
use insteonrf.Common.{
  ℕ, suc, ◌+◌, leb, Bool, Option, none, some, List, [], ◌∷◌, ◌++◌, length, ◌≡◌, refl, ap, ◌∙◌,
  arith, Bool-cases, inl, inr, length-append,
}
use insteonrf.Fusion.{FusedEvent}
use insteonrf.Fusion.Emit as Emit
use insteonrf.Inject.Classify.{Injector}
use insteonrf.Mesh.Service.{
  MeshService, link_lost, finish_event, finish, settle_due, settle_all, hold, drain, flush, stop,
}

module _ (now : ℕ) (enabled : Bool) (link : Option Bool) where
  finish_event-kept :
      (svc : MeshService) (ev : FusedEvent) (inj : Option Injector)
      → let out = finish_event svc ev now enabled link inj in
        (out.0.captures ≡ svc.captures) × (out.0.events ≡ svc.events)
  finish_event-kept svc ev none = (refl, refl)
  finish_event-kept svc ev (some inj) = elim (Bool-cases (link_lost svc.require_plm_link link)) [
    | inl lost ↦ rw lost (refl, refl)
    | inr there ↦ rw there (refl, refl)
  ]

  finish-kept :
      (svc : MeshService) (ev : FusedEvent)
      → let out = finish svc ev now enabled link in
        (out.0.captures ≡ svc.captures) × (out.0.events ≡ svc.events)
  unfolding finish
  finish-kept svc ev = finish_event-kept svc _ svc.injector

  settle_due-kept :
      (svc : MeshService) (held : List (ℕ × FusedEvent))
      → let s = settle_due svc now enabled link held in
        (s.service.captures ≡ svc.captures)
        × (s.service.events ≡ svc.events)
        × (length s.held + length s.out ≡ length held)
  unfolding settle_due
  settle_due-kept svc [] = (refl, refl, refl)
  settle_due-kept svc ((due, ev) ∷ held) = elim (Bool-cases (leb due now)) [
    | inl is_due ↦
        let done = finish-kept svc ev in
        let rest = settle_due-kept (finish svc ev now enabled link).0 held in
        rw is_due (rest.0 ∙ done.0, rest.1 ∙ done.1, omega (arith, rest.2))
    | inr early ↦ rw early (refl, refl, omega arith)
  ]

  length-hold : (due : ℕ) (evs : List FusedEvent) → length (hold due evs) ≡ length evs
  unfolding hold
  length-hold due [] = refl
  length-hold due (ev ∷ evs) = ap suc (length-hold due evs)

  pub drain-kept :
      (svc : MeshService)
      → let out = drain svc now enabled link in
        (out.0.captures ≡ svc.captures)
        × (length out.1 + length out.0.holding + svc.events ≡ length svc.holding + out.0.events)
  unfolding drain
  drain-kept svc =
      let popped = Emit.pop_ready svc.fusion now in
      let late = hold (now + svc.grace) popped.1 in
      let start : MeshService = record svc {
        fusion = popped.0;
        events = svc.events + length popped.1;
      } in
      let k = settle_due-kept start (svc.holding ++ late) in
      (
        k.0,
        omega (
          arith,
          k.1,
          k.2,
          length-append svc.holding late,
          length-hold (now + svc.grace) popped.1,
        ),
      )

  settle_all-kept :
      (svc : MeshService) (held : List (ℕ × FusedEvent))
      → let s = settle_all svc now enabled link held in
        (s.0.captures ≡ svc.captures) × (s.0.events ≡ svc.events) × (length s.1 ≡ length held)
  unfolding settle_all
  settle_all-kept svc [] = (refl, refl, refl)
  settle_all-kept svc ((due, ev) ∷ held) =
      let done = finish-kept svc ev in
      let rest = settle_all-kept (finish svc ev now enabled link).0 held in
      (rest.0 ∙ done.0, rest.1 ∙ done.1, ap suc rest.2)

  pub stop-kept :
      (svc : MeshService)
      → let out = stop svc now enabled link in
        (out.0.captures ≡ svc.captures)
        × (out.0.holding ≡ [])
        × (length out.1 + svc.events ≡ length svc.holding + out.0.events)
  unfolding stop flush
  stop-kept svc =
      let popped = Emit.flush svc.fusion now in
      let late = hold now popped.1 in
      let start : MeshService = record svc {
        fusion = popped.0;
        events = svc.events + length popped.1;
        holding = svc.holding ++ late;
      } in
      let k = settle_all-kept start (svc.holding ++ late) in
      (k.0, refl, omega (arith, k.1, k.2, length-append svc.holding late, length-hold now popped.1))
