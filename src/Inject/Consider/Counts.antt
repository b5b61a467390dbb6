-- ===== src/Inject/Consider/Counts.antt =====
-- inject.py, `Injector.consider`: the counters, and the limit of injections in a minute.
use mathlib.Core.Path.{subst}
use mathlib.Core.List.{append-nil}
use insteonrf.Common.{
  sym, ◌++◌, if◌then◌else◌, Result-cases, ℕ, ◌+◌, ◌≤◌, ◌<◌, ◌≡◌, none, some, Bool, true, false,
  List, arith, refl, inl, inr, leb, Bool-cases, Option-cases, ◌∷◌, [], length, length-append,
  list_eq,
}
use insteonrf.Common.Dict.{Dict, get, put}
use insteonrf.Inject.Consider.{
  too_soon, packet_fault, mem_tier, heard, Address, consider, begin, no_, admit, settle, rate, fire,
  last_minute, Outcome, refuse, reason_key,
}
use insteonrf.Inject.Classify.{classify, Tier, Injector, Counters, sender_of, Reason}
use insteonrf.Fusion.{FusedEvent}
use insteonrf.Plm.{to_plm_bytes}
use insteonrf.Inject.Consider.Cleared.{
  settle_cleared, admit_cleared, consider_cleared, packet_fault-Sound, Class-cases,
}

-- the number of refusals, over all the reasons
unfoldable pub refusals : Dict (List ℕ) ℕ → ℕ
refusals [] = 0
refusals ((k, n) ∷ d) = n + refusals d

-- the decisions that the counters account for
abbrev pub decided : Counters → ℕ
decided c = c.injected + c.would_inject + refusals c.refused

refusals-bump :
    (k : List ℕ) (d : Dict (List ℕ) ℕ)
    → refusals (put k (elim (get k d) [ none ↦ 0 | some n ↦ n ] + 1) d) ≡ refusals d + 1
unfolding refusals get put
refusals-bump k [] = refl
refusals-bump k ((j, n) ∷ d) = ground (arith, refusals-bump k d)

decided-refuse : (c : Counters) (why : Reason) → decided (refuse c why) ≡ decided c + 1
unfolding refuse
decided-refuse c why = omega (arith, refusals-bump (reason_key why) c.refused)

-- what a decision keeps
record Settled (inj : Injector) (o : Outcome) : Type 0 where
  pub considered : o.injector.counters.considered ≡ inj.counters.considered
  pub decided : decided o.injector.counters ≡ decided inj.counters + 1
  pub limit :
      length inj.recent_injections ≤ inj.global_per_minute
      → length o.injector.recent_injections ≤ inj.global_per_minute
  pub per_minute : o.injector.global_per_minute ≡ inj.global_per_minute

no-Settled : (inj : Injector) (ev : FusedEvent) (why : Reason) → Settled inj (no_ inj ev why)
unfolding no_ refuse
no-Settled inj ev why = record {
  considered = refl;
  decided = decided-refuse inj.counters why;
  limit = λ h. h;
  per_minute = refl;
}

fire-Settled :
    (inj : Injector) (ev : FusedEvent) (t : Tier) (a : insteonrf.Packet.Address.Address)
    (frame : List ℕ) (now : ℕ)
    → length inj.recent_injections < inj.global_per_minute
    → Settled inj (fire inj ev t a frame now)
unfolding fire
fire-Settled inj ev t a frame now h = elim (Bool-cases inj.shadow) [
  | inl e ↦
      rw e (record { considered = refl; decided = omega arith; limit = λ h. h; per_minute = refl })
  | inr e ↦ rw e (record {
    considered = refl;
    decided = omega arith;
    limit = λ k. omega (arith, h, length-append inj.recent_injections (now ∷ []));
    per_minute = refl;
  })
]

-- the two ways a call ends, past `begin`
pub data Course (inj : Injector) (now : ℕ) (o : Outcome) : Type 0 where
  refused : (ev : FusedEvent) (why : Reason) → o ≡ no_ inj ev why → Course inj now o
  fired :
      (ev : FusedEvent) (t : Tier) (a : Address) (frame : List ℕ)
      → too_soon inj a now ≡ false
      → length inj.recent_injections < inj.global_per_minute
      → o ≡ fire inj ev t a frame now
      → Course inj now o

Course-Settled : (inj : Injector) (now : ℕ) (o : Outcome) → Course inj now o → Settled inj o
Course-Settled inj now o (refused ev why e) = rw e (no-Settled inj ev why)
Course-Settled inj now o (fired ev t a frame d h e) = rw e (fire-Settled inj ev t a frame now h)

rendered :
    (inj : Injector) (ev : FusedEvent) (t : Tier) (now : ℕ) (a : Address)
    → sender_of ev.packet ≡ some a
    → too_soon inj a now ≡ false
    → length inj.recent_injections < inj.global_per_minute
    → Course inj now (rate inj ev t now)
unfolding rate
rendered inj ev t now a e d g = elim (Result-cases (to_plm_bytes ev.packet true)) [
  | inl bad ↦ refused ev (Reason.unrenderable bad.0) (ground (arith, e, d, g, bad.1))
  | inr good ↦ fired ev t a good.0 d g (ground (arith, e, d, g, good.1))
]

rate-Course :
    (inj : Injector) (ev : FusedEvent) (t : Tier) (now : ℕ) → Course inj now (rate inj ev t now)
unfolding rate
rate-Course inj ev t now = elim (Option-cases (sender_of ev.packet)) [
  | inl e ↦ refused ev Reason.assertion_failed (ground (arith, e))
  | inr e ↦ elim (Bool-cases (too_soon inj e.0 now)) [
    | inl d ↦ refused ev Reason.device_rate (ground (arith, e.1, d))
    | inr d ↦ elim (Bool-cases (leb inj.global_per_minute (length inj.recent_injections))) [
      | inl g ↦ refused ev Reason.global_rate (ground (arith, e.1, d, g))
      | inr g ↦ rendered inj ev t now e.0 e.1 d (ground (arith, g))
    ]
  ]
]

settle-heard :
    (inj : Injector) (ev : FusedEvent) (t : Tier) (now : ℕ)
    → heard inj.memory ev.key ev.last_seen ≡ true
    → settle inj ev t now ≡ no_ inj (record ev { plm_saw_it = some true }) Reason.plm_heard
unfolding settle
settle-heard inj ev t now h = rw h refl

settle-Course :
    (inj : Injector) (ev : FusedEvent) (t : Tier) (now : ℕ) → Course inj now (settle inj ev t now)
settle-Course inj ev t now = elim (Bool-cases (heard inj.memory ev.key ev.last_seen)) [
  | inl e ↦
      refused (record ev { plm_saw_it = some true }) Reason.plm_heard (settle-heard inj ev t now e)
  | inr e ↦
      rw (settle_cleared inj ev t now e)
        (rate-Course inj (record ev { plm_saw_it = some false }) t now)
]

admit-Course :
    (inj : Injector) (ev : FusedEvent) (t : Tier) (now : ℕ) → Course inj now (admit inj ev t now)
unfolding admit
admit-Course inj ev t now = elim (Bool-cases (mem_tier t inj.allow)) [
  | inl e ↦ elim (Option-cases (packet_fault inj ev)) [
    | inl n ↦
        rw (admit_cleared inj ev t now e (packet_fault-Sound inj ev n)) (settle-Course inj ev t now)
    | inr w ↦ refused ev w.0 (ground (arith, e, w.1))
  ]
  | inr e ↦ refused ev (Reason.tier_disabled t) (ground (arith, e))
]

pub consider-Course :
    (inj : Injector) (enabled : Bool) (ev : FusedEvent) (now : ℕ)
    → Course (begin inj now) now (consider inj enabled ev now)
unfolding consider
consider-Course inj false ev now = refused ev Reason.kill_switch refl
consider-Course inj true ev now = elim (Class-cases (classify (begin inj now) ev.packet)) [
  | inl e ↦ refused ev e.0 (ground (arith, e.1))
  | inr e ↦
      subst (λ o. Course (begin inj now) now o) (sym (consider_cleared inj ev e.0 now e.1))
        (admit-Course (begin inj now) ev e.0 now)
]

consider-Settled :
    (inj : Injector) (enabled : Bool) (ev : FusedEvent) (now : ℕ)
    → Settled (begin inj now) (consider inj enabled ev now)
consider-Settled inj enabled ev now =
    Course-Settled (begin inj now) now (consider inj enabled ev now)
      (consider-Course inj enabled ev now)

-- Every call of `consider` counts one event as considered, and the total of the injections, the
-- events that only shadow mode stopped and the refusals grows by exactly one with it.
pub consider-counts :
    (inj : Injector) (enabled : Bool) (ev : FusedEvent) (now : ℕ)
    → ((consider inj enabled ev now).injector.counters.considered ≡ inj.counters.considered + 1)
      × (decided (consider inj enabled ev now).injector.counters ≡ decided inj.counters + 1)
unfolding begin
consider-counts inj enabled ev now =
    let s = consider-Settled inj enabled ev now in (s.considered, s.decided)

length-last_minute : (now : ℕ) (ts : List ℕ) → length (last_minute now ts) ≤ length ts
unfolding last_minute
length-last_minute now [] = omega arith
length-last_minute now (t ∷ ts) = ground (arith, length-last_minute now ts)

-- what a call adds to the injections that are remembered
abbrev pub added : Bool → ℕ → List ℕ
added inject now = if inject then now ∷ [] else []

Course-remembered :
    (inj : Injector) (now : ℕ) (o : Outcome)
    → Course inj now o
    → o.injector.recent_injections ≡ inj.recent_injections ++ added o.decision.inject now
unfolding no_ fire
Course-remembered inj now o (refused ev why e) = rw e (sym (append-nil inj.recent_injections))
Course-remembered inj now o (fired ev t a frame d h e) = rw e (elim (Bool-cases inj.shadow) [
  | inl shadow ↦ rw shadow (sym (append-nil inj.recent_injections))
  | inr live ↦ rw live refl
])

-- `consider` keeps the number of remembered injections at or below the limit for a minute, for
-- every event, answer of the kill switch and time. It remembers those of the last minute, and its own
-- time exactly where it injects.
pub consider-limit :
    (inj : Injector) (enabled : Bool) (ev : FusedEvent) (now : ℕ)
    → length inj.recent_injections ≤ inj.global_per_minute
    → (length (consider inj enabled ev now).injector.recent_injections
        ≤ (consider inj enabled ev now).injector.global_per_minute)
      × ((consider inj enabled ev now).injector.recent_injections
          ≡ last_minute now inj.recent_injections
            ++ added (consider inj enabled ev now).decision.inject now)
unfolding begin
consider-limit inj enabled ev now h =
    let s = consider-Settled inj enabled ev now in
    (
      rw s.per_minute (s.limit (omega (arith, h, length-last_minute now inj.recent_injections))),
      Course-remembered (begin inj now) now (consider inj enabled ev now)
          (consider-Course inj enabled ev now),
    )
