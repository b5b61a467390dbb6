-- ===== src/Inject/Memory/Window.antt =====
-- inject.py, class PlmMemory: how long the memory of a frame lasts.
use insteonrf.Common.{
  list_beq, ℕ, ◌+◌, ◌≤◌, ◌≡◌, true, List, arith, max, inl, inr, leb, ok, Bool-cases, Option-cases,
  ◌&&◌, list_eq, ◌↔◌, if◌then◌else◌,
}
use insteonrf.Common.Dict.{
  get, put, get-put, IsDict, get-purge_kept, get-purge_dropped, get-purge-none,
}
use insteonrf.Plm.{from_plm_bytes, message_key}
use insteonrf.Packet.Fields.{Packet}
use insteonrf.Inject.Memory.{PlmMemory, note, heard, near, stale, forget_old}

pub near_iff : (w now t : ℕ) → (near w now t ≡ true) ↔ ((now ≤ t + w) × (t ≤ now + w))
near_iff w now t = (λ e. ground (arith, e), λ e. ground (arith, e.0, e.1))

abbrev pub noted : PlmMemory → Packet → ℕ → PlmMemory
noted m p now = record m { seen = put (message_key p) now m.seen; frames = m.frames + 1 }

-- A frame that parses is recorded, and `note` answers true. From then on `heard` says yes about
-- its message exactly at the times within the window on either side of its arrival, and about
-- every other message what it said before.
pub note-heard :
    (m : PlmMemory) (raw : List ℕ) (now at : ℕ) (key : List ℕ) (p : Packet)
    → from_plm_bytes raw ≡ ok p
    → (note m raw now ≡ ok (noted m p now, true))
      × (heard (noted m p now) key at ≡ (
          if list_beq (message_key p) key
          then leb at (now + m.window) && leb now (at + m.window)
          else heard m key at))
unfolding note heard
note-heard m raw now at key p h =
    (ground (arith, h), ground (arith, get-put (message_key p) key now m.seen))

-- Forgetting at the time `now` does not change what `heard` answers about a time `at`, for every
-- key, as long as `now` is at most max(window, 10 s) - window after `at`.
pub heard-forget_old :
    (m : PlmMemory) (now at : ℕ) (key : List ℕ)
    → IsDict m.seen
    → now + m.window ≤ at + max m.window 10_000_000
    → heard (forget_old m now) key at ≡ heard m key at
unfolding heard forget_old
heard-forget_old m now at key d h = elim (Option-cases (get key m.seen)) [
  | inl e ↦ ground (arith, e, get-purge-none (stale m.window now) key m.seen e)
  | inr e ↦ elim (Bool-cases (stale m.window now e.0)) [
    | inl gone ↦
        ground (arith, e.1, gone, get-purge_dropped (stale m.window now) key m.seen e.0 d e.1 gone)
    | inr kept ↦ ground (arith, e.1, get-purge_kept (stale m.window now) key m.seen e.0 e.1 kept)
  ]
]
