-- ===== src/AllOn/Cooldown.antt =====
-- allon.py: how often the watcher raises one trigger signature.
use insteonrf.Common.{
  Result-cases, ◌∙◌, inr, inl, ap, sym, list_beq_iff, Bool-cases, ℕ, ◌+◌, ◌≤◌, ◌≡◌, refl, Option,
  none, some, List, [], ◌∷◌, ◌++◌, true, false, arith, list_eq, list_beq, if◌then◌else◌, Result, ok,
  raise,
}
use insteonrf.Common.Dict.{get, get-put}
use insteonrf.Packet.Fields.{Packet}
use insteonrf.AllOn.{Dict, ltb, Watcher, Trigger, tally}
use insteonrf.AllOn.Watch.{
  set_fired, suppress, signature, cooling, is_fresh, fresh_triggers, check, storm_trigger,
  keep_fresh, observe, observe_at, seen_at, remember, group_triggers,
}

-- `now`, once for each trigger of a signature
unfoldable pub times_of : List ℕ → ℕ → List Trigger → List ℕ
times_of key now [] = []
times_of key now (t ∷ ts) =
    if list_beq (signature t) key then now ∷ times_of key now ts else times_of key now ts

abbrev pub found : Result (List Trigger) → List Trigger
found (raise e) = []
found (ok ts) = ts

-- the times at which a run of observations raises a signature: an exception is caught outside,
-- and the next observation meets the watcher that it left
unfoldable pub fire_times : List ℕ → Watcher → List (Option Packet × Option ℕ × ℕ) → List ℕ
fire_times key w [] = []
fire_times key w ((p, at, clock) ∷ steps) =
    let step = observe w p at clock in
    times_of key (seen_at p at clock) (found step.1) ++ fire_times key step.0 steps

-- a time comes no earlier than the cooldown after the one before it
abbrev pub After : ℕ → Option ℕ → ℕ → Type 0
After cooldown none now = Unit
After cooldown (some last) now = last + cooldown ≤ now

unfoldable pub Spaced : ℕ → Option ℕ → List ℕ → Type 0
Spaced cooldown last [] = Unit
Spaced cooldown last (now ∷ times) = After cooldown last now × Spaced cooldown (some now) times

not_cooling :
    (last : Option ℕ) (cooldown now : ℕ)
    → elim last [ none ↦ false | some l ↦ ltb now (l + cooldown) ] ≡ false
    → After cooldown last now
not_cooling none cooldown now h = tt
not_cooling (some last) cooldown now h = ground arith

same_After :
    (w : Watcher) (k key : List ℕ) (now : ℕ)
    → list_beq k key ≡ true
    → cooling w k now ≡ false
    → After w.cooldown (get key w.last_fired) now
same_After w k key now e h =
    let q : k ≡ key = (list_beq_iff k key).0 e in
    not_cooling (get key w.last_fired) w.cooldown now (ap (λ j. cooling w j now) (sym q) ∙ h)

last-Spaced :
    (cooldown : ℕ) (last from : Option ℕ) (times : List ℕ)
    → last ≡ from
    → Spaced cooldown last times
    → Spaced cooldown from times
last-Spaced cooldown last from times e h = rw (sym e) h

fresh-Spaced :
    (w : Watcher) (ts : List Trigger) (now : ℕ) (key times : List ℕ)
    → Spaced w.cooldown (get key (fresh_triggers w ts now).0.last_fired) times
    → Spaced w.cooldown
        (get key w.last_fired)
        (times_of key now (fresh_triggers w ts now).1 ++ times)
unfolding fresh_triggers times_of Spaced is_fresh
fresh-Spaced w [] now key times = λ h. h
fresh-Spaced w (t ∷ ts) now key times = elim (Bool-cases (cooling w (signature t) now)) [
  | inl c ↦ rw c (λ h. fresh-Spaced (suppress w (signature t)) ts now key times h)
  | inr c ↦
      let w2 = set_fired w (signature t) now in
      rw c (elim (Bool-cases (list_beq (signature t) key)) [
        | inl e ↦ rw e (λ h. (
          same_After w (signature t) key now e c,
          last-Spaced w.cooldown (get key w2.last_fired) (some now)
              (times_of key now (fresh_triggers w2 ts now).1 ++ times)
              (get-put (signature t) key now w.last_fired ∙ rw e refl)
              (fresh-Spaced w2 ts now key times h),
        ))
        | inr e ↦ rw e (λ h.
            last-Spaced w.cooldown (get key w2.last_fired) (get key w.last_fired)
              (times_of key now (fresh_triggers w2 ts now).1 ++ times)
              (get-put (signature t) key now w.last_fired ∙ rw e refl)
              (fresh-Spaced w2 ts now key times h))
      ])
]

cooldown_kept :
    (w : Watcher) (ts : List Trigger) (now : ℕ) → (fresh_triggers w ts now).0.cooldown ≡ w.cooldown
unfolding fresh_triggers is_fresh
cooldown_kept w [] now = refl
cooldown_kept w (t ∷ ts) now = elim (Bool-cases (cooling w (signature t) now)) [
  | inl c ↦ rw c (cooldown_kept (suppress w (signature t)) ts now)
  | inr c ↦ rw c (cooldown_kept (set_fired w (signature t) now) ts now)
]

same-Spaced :
    (c e : ℕ) (d f : Dict (List ℕ) ℕ) (key times : List ℕ)
    → c ≡ e
    → d ≡ f
    → Spaced c (get key d) times
    → Spaced e (get key f) times
same-Spaced c e d f key times h k s = rw⁻¹ h (rw⁻¹ k s)

check_kept :
    (w : Watcher) (p : Packet) (now : ℕ)
    → ((check w p now).0.cooldown ≡ w.cooldown) × ((check w p now).0.last_fired ≡ w.last_fired)
unfolding check storm_trigger
check_kept w p now = elim (Result-cases (group_triggers w p now)) [
  | inl e ↦ rw e.1 (ground arith, ground arith)
  | inr e ↦ rw e.1 (ground arith, ground arith)
]

keep-Spaced :
    (w : Watcher) (r : Result (List Trigger)) (now : ℕ) (key times : List ℕ)
    → Spaced (keep_fresh (w, r) now).0.cooldown (get key (keep_fresh (w, r) now).0.last_fired) times
    → Spaced w.cooldown
        (get key w.last_fired)
        (times_of key now (found (keep_fresh (w, r) now).1) ++ times)
unfolding times_of
keep-Spaced w (raise e) now key times h = h
keep-Spaced w (ok out) now key times h = fresh-Spaced w out now key times (
    same-Spaced (fresh_triggers w out now).0.cooldown w.cooldown
      (fresh_triggers w out now).0.last_fired (fresh_triggers w out now).0.last_fired key times
      (cooldown_kept w out now) refl h)

observe-Spaced :
    (w : Watcher) (p : Option Packet) (now : ℕ) (key times : List ℕ)
    → Spaced (observe_at w p now).0.cooldown (get key (observe_at w p now).0.last_fired) times
    → Spaced w.cooldown
        (get key w.last_fired)
        (times_of key now (found (observe_at w p now).1) ++ times)
unfolding observe_at times_of tally
observe-Spaced w none now key times h = h
observe-Spaced w (some p) now key times h =
    let w2 = tally (remember w (some p) now) p in
    let k = check_kept w2 p now in
    same-Spaced (check w2 p now).0.cooldown w.cooldown (check w2 p now).0.last_fired w.last_fired
      key (times_of key now (found (observe_at w (some p) now).1) ++ times) k.0 k.1
      (keep-Spaced (check w2 p now).0 (check w2 p now).1 now key times h)

-- In a run of observations, exceptions caught outside, a trigger of one kind, sender and group is
-- not raised earlier than the cooldown after the last time that it was raised.
pub fire_times-Spaced :
    (w : Watcher) (key : List ℕ) (steps : List (Option Packet × Option ℕ × ℕ))
    → Spaced w.cooldown (get key w.last_fired) (fire_times key w steps)
unfolding fire_times observe Spaced
fire_times-Spaced w key [] = tt
fire_times-Spaced w key ((p, at, clock) ∷ steps) =
    let w2 = (observe_at w p (seen_at p at clock)).0 in
    observe-Spaced w p (seen_at p at clock) key (fire_times key w2 steps)
      (fire_times-Spaced w2 key steps)
