-- ===== src/AllOn/Raises.antt =====
-- allon.py, `AllOnWatcher.observe`: when it raises, and what a group-0 broadcast gives.
use insteonrf.Common.{
  sym, ◌∙◌, zero, suc, ◌&&◌, leb, suc, ◌≢◌, ◌<◌, Result-cases, Option-cases, Error, inl, inr,
  Bool-cases, ℕ, ◌≤◌, ◌≡◌, refl, ◌↔◌, Option, none, some, List, [], ◌∷◌, Bool, true, false, arith,
  if◌then◌else◌, ok, raise, type_error, length, get_elem?,
}
use insteonrf.Packet.Fields.{Packet, is_group_broadcast, group, cmd1}
use insteonrf.AllOn.{is_unknown_group, Watcher, Trigger, tally, is_group_0, mem_option, on_commands}
use insteonrf.AllOn.Watch.{
  note_cast, group_triggers, check, storm_trigger, keep_fresh, observe, observe_at, seen_at,
  remember,
}

elem_some : (bytes : List ℕ) (i : ℕ) → i < length bytes → get_elem? bytes i ≢ none
elem_some [] i h e = absurd (omega arith)
elem_some (b ∷ bytes) zero h e = cc
elem_some (b ∷ bytes) (suc i) h e = elem_some bytes i (omega arith) e

cmd1_none : (p : Packet) → (cmd1 p ≡ none) ↔ (length p.bytes ≤ 7)
unfolding cmd1
cmd1_none p = ground (arith, elem_some p.bytes 7)

is_group_0_iff : (g : Option ℕ) → (is_group_0 g ≡ true) ↔ (g ≡ some 0)
is_group_0_iff none = ground arith
is_group_0_iff (some g) = ground arith

no_raise : {A : Type 0} (c : Bool) (x y : A) (e : Error) → (if c then ok x else ok y) ≢ raise e
no_raise true x y e = λ h. cc
no_raise false x y e = λ h. cc

group_triggers_iff :
    (w : Watcher) (p : Packet) (now : ℕ)
    → (group_triggers w p now ≡ raise type_error) ↔ ((group p ≡ some 0) × (length p.bytes ≤ 7))
unfolding group_triggers
group_triggers_iff w p now = elim (Bool-cases (is_group_0 (group p))) [
  | inl zeroth ↦ elim (Option-cases (cmd1 p)) [
    | inl cut ↦
        rw zeroth
          (rw cut (λ h. ((is_group_0_iff (group p)).0 zeroth, (cmd1_none p).0 cut), λ h. refl))
    | inr whole ↦
        rw zeroth (rw whole.1 (λ h. absurd cc, λ h. ground (arith, cmd1_none p, h, whole)))
  ]
  | inr other ↦ rw other (
    λ h. absurd (no_raise (is_unknown_group w p && mem_option (cmd1 p) on_commands) _ _ _ h),
    λ h. ground (arith, is_group_0_iff (group p), h, other),
  )
]

storm_ok :
    (w : Watcher) (p : Packet) (now : ℕ) (out : List Trigger)
    → (ts : List Trigger) × ((keep_fresh (storm_trigger w p now out) now).1 ≡ ok ts)
unfolding storm_trigger
storm_ok w p now out = elim (Bool-cases (leb w.storm_count (length w.recent_groups))) [
  | inl e ↦ rw e (_, refl)
  | inr e ↦ rw e (_, refl)
]

-- `observe` raises a TypeError for exactly the group broadcasts to group 0 of at most seven bytes,
-- those that break off before their command, whatever the watcher remembers.
pub observe_raises :
    (w : Watcher) (p : Packet) (at : Option ℕ) (clock : ℕ)
    → ((observe w (some p) at clock).1 ≡ raise type_error)
      ↔ ((is_group_broadcast p ≡ true) × (group p ≡ some 0) × (length p.bytes ≤ 7))
unfolding observe observe_at check
observe_raises w p at clock =
    let now = seen_at (some p) at clock in
    let w2 = tally (remember w (some p) now) p in
    let k = group_triggers_iff w2 p now in
    elim (Bool-cases (is_group_broadcast p)) [
      | inr single ↦ rw single (λ h. cc, λ h. cc)
      | inl cast ↦ elim (Result-cases (group_triggers w2 p now)) [
        | inl e ↦
            rw cast (
              rw e.1
                (λ h. let q = k.0 (e.1 ∙ h) in (refl, q.0, q.1), λ h. sym e.1 ∙ k.1 (h.1, h.2)))
        | inr e ↦
            let o = storm_ok (note_cast w2 p now) p now e.0 in
            rw cast (rw e.1 (λ h. absurd cc, λ h. absurd (ground (arith, k.1 (h.1, h.2), e.1))))
      ]
    ]
