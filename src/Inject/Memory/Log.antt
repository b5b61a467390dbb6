-- ===== src/Inject/Memory/Log.antt =====
-- inject.py, class PlmMemory, against its specification: a log of all frames that is never cut.
use insteonrf.Common.{
  ◌&&◌, leb, Result-cases, Error, ℕ, ◌+◌, ◌≤◌, ◌≡◌, refl, ap, ◌∙◌, arith, max, Bool, true, false,
  if◌then◌else◌, Option, none, some, List, [], ◌∷◌, list_beq, list_eq, Result, value_error,
  manchester_error, plm_format_error, type_error, index_error, key_error, system_exit,
  argument_type_error, ok, raise, inl, inr,
}
use insteonrf.Common.Dict.{get, IsDict, put-IsDict, purge-IsDict}
use insteonrf.Plm.{from_plm_bytes, message_key}
use insteonrf.Packet.Fields.{Packet}
use insteonrf.Inject.Memory.{PlmMemory, note, caught, heard, near, stale, forget_old}
use insteonrf.Inject.Memory.Window.{noted, note-heard, heard-forget_old}

-- the calls that change a memory
pub data Step : Type 0 where
  frame : List ℕ → ℕ → Step
  forget : ℕ → Step

-- the memory after `note`, which a frame that does not parse leaves alone, exception or not
abbrev pub after_note : PlmMemory → Result (PlmMemory × Bool) → PlmMemory
after_note m (raise e) = m
after_note m (ok r) = r.0

unfoldable pub step : PlmMemory → Step → PlmMemory
step m (frame raw now) = after_note m (note m raw now)
step m (forget now) = forget_old m now

unfoldable pub run : PlmMemory → List Step → PlmMemory
run m [] = m
run m (s ∷ steps) = run (step m s) steps

-- the specification: the time of the last frame of a message, whatever was forgotten
abbrev pub logged : List ℕ → ℕ → Result Packet → Option ℕ → Option ℕ
logged key now (raise e) last = last
logged key now (ok p) last = if list_beq (message_key p) key then some now else last

unfoldable pub last_frame : List ℕ → List Step → Option ℕ → Option ℕ
last_frame key [] last = last
last_frame key (frame raw now ∷ steps) last =
    last_frame key steps (logged key now (from_plm_bytes raw) last)
last_frame key (forget now ∷ steps) last = last_frame key steps last

abbrev pub is_near : ℕ → ℕ → Option ℕ → Bool
is_near window at none = false
is_near window at (some when) = near window at when

-- every time of forgetting lies little enough after a time
unfoldable pub ForgetsBy : ℕ → ℕ → List Step → Type 0
ForgetsBy window at [] = Unit
ForgetsBy window at (frame raw now ∷ steps) = ForgetsBy window at steps
ForgetsBy window at (forget now ∷ steps) =
    (now + window ≤ at + max window 10_000_000) × ForgetsBy window at steps

elim-is_near :
    (window at : ℕ) (last : Option ℕ)
    → elim last [ none ↦ false | some when ↦ near window at when ] ≡ is_near window at last
elim-is_near window at none = refl
elim-is_near window at (some when) = refl

heard_lem :
    (m : PlmMemory) (key : List ℕ) (at : ℕ) → heard m key at ≡ is_near m.window at (get key m.seen)
unfolding heard
heard_lem m key at = elim-is_near m.window at (get key m.seen)

after_note-caught : (e : Error) (m : PlmMemory) → after_note m (caught e m) ≡ m
after_note-caught value_error m = refl
after_note-caught manchester_error m = refl
after_note-caught plm_format_error m = refl
after_note-caught type_error m = refl
after_note-caught index_error m = refl
after_note-caught key_error m = refl
after_note-caught system_exit m = refl
after_note-caught argument_type_error m = refl

note-raise :
    (m : PlmMemory) (raw : List ℕ) (now : ℕ) (e : Error)
    → from_plm_bytes raw ≡ raise e
    → note m raw now ≡ caught e m
unfolding note
note-raise m raw now e h = ground (arith, h)

step-frame-raise :
    (m : PlmMemory) (raw : List ℕ) (now : ℕ) (e : Error)
    → from_plm_bytes raw ≡ raise e
    → step m (frame raw now) ≡ m
unfolding step
step-frame-raise m raw now e h =
    ap (after_note m) (note-raise m raw now e h) ∙ after_note-caught e m

step-frame-ok :
    (m : PlmMemory) (raw : List ℕ) (now : ℕ) (p : Packet)
    → from_plm_bytes raw ≡ ok p
    → step m (frame raw now) ≡ noted m p now
unfolding step
step-frame-ok m raw now p h = ap (after_note m) (note-heard m raw now now (message_key p) p h).0

-- A memory stands for a log whose last time of the message is `last`.
Agrees : ℕ → ℕ → List ℕ → PlmMemory → Option ℕ → Type 0
Agrees window at key m last =
    IsDict m.seen × (m.window ≡ window) × (heard m key at ≡ is_near window at last)

if-is_near :
    (window at now : ℕ) (key : List ℕ) (same : Bool) (m : PlmMemory) (last : Option ℕ)
    → m.window ≡ window
    → heard m key at ≡ is_near window at last
    → (if same then leb at (now + m.window) && leb now (at + m.window) else heard m key at)
      ≡ is_near window at (if same then some now else last)
if-is_near window at now key true m last w h = rw w refl
if-is_near window at now key false m last w h = h

frame_lem :
    (m : PlmMemory) (window at now : ℕ) (key raw : List ℕ) (last : Option ℕ)
    → Agrees window at key m last
    → Agrees window at key (step m (frame raw now)) (logged key now (from_plm_bytes raw) last)
unfolding Agrees
frame_lem m window at now key raw last h = elim (Result-cases (from_plm_bytes raw)) [
  | inl e ↦ rw (step-frame-raise m raw now e.0 e.1) (rw e.1 h)
  | inr r ↦ rw (step-frame-ok m raw now r.0 r.1) (
      rw r.1 (
        put-IsDict (message_key r.0) now m.seen h.0,
        h.1,
        (note-heard m raw now at key r.0 r.1).1
            ∙ if-is_near window at now key (list_beq (message_key r.0) key) m last h.1 h.2,
      ))
]

forget_lem :
    (m : PlmMemory) (window at now : ℕ) (key : List ℕ) (last : Option ℕ)
    → now + window ≤ at + max window 10_000_000
    → Agrees window at key m last
    → Agrees window at key (step m (forget now)) last
unfolding step forget_old Agrees
forget_lem m window at now key last before h = (
  purge-IsDict (stale m.window now) m.seen h.0,
  h.1,
  heard-forget_old m now at key h.0 (rw h.1 before) ∙ h.2,
)

run_lem :
    (m : PlmMemory) (window at : ℕ) (key : List ℕ) (steps : List Step) (last : Option ℕ)
    → ForgetsBy window at steps
    → Agrees window at key m last
    → Agrees window at key (run m steps) (last_frame key steps last)
unfolding run last_frame ForgetsBy
run_lem m window at key [] last f h = h
run_lem m window at key (frame raw now ∷ steps) last f h =
    run_lem (step m (frame raw now)) window at key steps (logged key now (from_plm_bytes raw) last)
      f (frame_lem m window at now key raw last h)
run_lem m window at key (forget now ∷ steps) last f h =
    run_lem (step m (forget now)) window at key steps last f.1
      (forget_lem m window at now key last f.0 h)

-- A memory with each key once that notes frames and forgets old ones, in any order, answers `heard`
-- about a message and a time `at` as a log would that keeps the last time of each message and
-- forgets none, starting from the memory's entries, as long as each time of forgetting is at most
-- max(window, 10 s) - window after `at`.
pub run-heard :
    (m : PlmMemory) (steps : List Step) (key : List ℕ) (at : ℕ)
    → IsDict m.seen
    → ForgetsBy m.window at steps
    → heard (run m steps) key at ≡ is_near m.window at (last_frame key steps (get key m.seen))
unfolding Agrees
run-heard m steps key at d f =
    (run_lem m m.window at key steps (get key m.seen) f (d, refl, heard_lem m key at)).2
