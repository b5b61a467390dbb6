-- ===== src/AllOn/Watch.antt =====
-- allon.py: `_check`, `_fresh` and `observe` of AllOnWatcher.
use insteonrf.Common.{
  ℕ, ◌+◌, Option, none, some, List, [], ◌∷◌, ◌++◌, Bool, true, false, ◌&&◌, ◌==◌, ltb, leb,
  if◌then◌else◌, length, list_eq, Result, ok, raise, type_error,
}
use insteonrf.Common.Dict.{get, put}
use insteonrf.Packet.Fields.{Packet, is_group_broadcast, group, cmd1}
use insteonrf.AllOn.{
  on_commands, expire_history, sender_key, is_group_0, mem_option, is_unknown_group, tally, Trigger,
  Watcher, TriggerKind, all_link_group_0, unknown_group, storm,
}

-- the trigger signature: `(kind, who, group)`
abbrev pub kind_code : TriggerKind → ℕ
kind_code all_link_group_0 = 0
kind_code unknown_group = 1
kind_code storm = 2

-- a group, or -1: one more than the group, or 0
abbrev pub group_code : Option ℕ → ℕ
group_code none = 0
group_code (some g) = g + 1

abbrev pub signature : Trigger → List ℕ
signature t = kind_code t.kind ∷ group_code (group t.packet) ∷ sender_key t.packet

-- the group broadcasts of the last `storm_window_s`
unfoldable pub recent_casts : ℕ → ℕ → List (ℕ × Option ℕ) → List (ℕ × Option ℕ)
recent_casts now window [] = []
recent_casts now window ((t, g) ∷ casts) =
    if leb now (t + window)
    then (t, g) ∷ recent_casts now window casts
    else recent_casts now window casts

-- the first part of `_check`: the trigger of a group, whose text wants the command of group 0
unfoldable pub group_triggers : Watcher → Packet → ℕ → Result (List Trigger)
group_triggers w p now =
    if is_group_0 (group p)
    then elim (cmd1 p) [
      | none ↦ raise type_error
      | some c ↦ ok (record { kind = all_link_group_0; at = now; packet = p } ∷ [])
    ]
    else if is_unknown_group w p && mem_option (cmd1 p) on_commands
    then ok (record { kind = unknown_group; at = now; packet = p } ∷ [])
    else ok []

-- the last part of `_check`: a storm clears what it counted
unfoldable pub storm_trigger : Watcher → Packet → ℕ → List Trigger → Watcher × Result (List Trigger)
storm_trigger w p now out =
    if leb w.storm_count (length w.recent_groups)
    then (
      record w { recent_groups = [] },
      ok (out ++ record { kind = storm; at = now; packet = p } ∷ []),
    )
    else (w, ok out)

-- the broadcast is remembered before the text of a trigger is made
abbrev pub note_cast : Watcher → Packet → ℕ → Watcher
note_cast w p now = record w {
  recent_groups = recent_casts now w.storm_window (w.recent_groups ++ (now, group p) ∷ []);
}

-- `_check` of a group broadcast, at the triggers of its group
abbrev pub found_in : Watcher → Packet → ℕ → Result (List Trigger) → Watcher × Result (List Trigger)
found_in w p now (raise e) = (w, raise e)
found_in w p now (ok out) = storm_trigger w p now out

-- `_check`, with the watcher that an exception leaves behind
unfoldable pub check : Watcher → Packet → ℕ → Watcher × Result (List Trigger)
check w p now =
    if is_group_broadcast p
    then found_in (note_cast w p now) p now (group_triggers w p now)
    else (w, ok [])

-- `last is not None and now - last < self.cooldown_s`
abbrev pub cooling : Watcher → List ℕ → ℕ → Bool
cooling w key now = elim (get key w.last_fired) [
  | none ↦ false
  | some last ↦ ltb now (last + w.cooldown)
]

abbrev pub count_of : Option ℕ → ℕ
count_of none = 0
count_of (some n) = n

-- `self.suppressed[key] = self.suppressed.get(key, 0) + 1`
abbrev pub suppress : Watcher → List ℕ → Watcher
suppress w key = record w {
  suppressed = put key (count_of (get key w.suppressed) + 1) w.suppressed;
}

-- `self._last_fired[key] = now`
abbrev pub set_fired : Watcher → List ℕ → ℕ → Watcher
set_fired w key now = record w { last_fired = put key now w.last_fired }

-- `_fresh`
unfoldable pub is_fresh : Watcher → Trigger → ℕ → Watcher × Bool
is_fresh w t now =
    if cooling w (signature t) now
    then (suppress w (signature t), false)
    else (set_fired w (signature t) now, true)

-- `[t for t in found if self._fresh(t, now)]`
unfoldable pub fresh_triggers : Watcher → List Trigger → ℕ → Watcher × List Trigger
fresh_triggers w [] now = (w, [])
fresh_triggers w (t ∷ ts) now =
    let step = is_fresh w t now in
    let rest = fresh_triggers step.0 ts now in (rest.0, if step.1 then t ∷ rest.1 else rest.1)

-- `at`, or the packet's time unless it is missing or zero, or the clock
unfoldable pub seen_at : Option Packet → Option ℕ → ℕ → ℕ
seen_at p at clock = elim at [
  | some when ↦ when
  | none ↦ elim p [
    | none ↦ clock
    | some p ↦ elim p.timestamp [ none ↦ clock | some t ↦ if t == 0 then clock else t ]
  ]
]

-- the history part of `observe`
abbrev pub remember : Watcher → Option Packet → ℕ → Watcher
remember w p now = record w {
  history = expire_history now w.window (w.history ++ record { at = now; packet = p } ∷ []);
}

-- the end of `observe`, at what `_check` found
abbrev pub keep_fresh : Watcher × Result (List Trigger) → ℕ → Watcher × Result (List Trigger)
keep_fresh (w, raise e) now = (w, raise e)
keep_fresh (w, ok out) now =
    let found = fresh_triggers w out now in
    (record found.0 { triggers = found.0.triggers ++ found.1 }, ok found.1)

-- `observe`, without a directory for dumps: of no packet, and of one
unfoldable pub observe_at : Watcher → Option Packet → ℕ → Watcher × Result (List Trigger)
observe_at w none now = (remember w none now, ok [])
observe_at w (some p) now = keep_fresh (check (tally (remember w (some p) now) p) p now) now

unfoldable pub observe : Watcher → Option Packet → Option ℕ → ℕ → Watcher × Result (List Trigger)
observe w p at clock = observe_at w p (seen_at p at clock)
