-- ===== src/Inject/Memory.antt =====
-- inject.py, class PlmMemory: what the modem recently reported hearing. Times are numbers of
-- microseconds; a comparison of a difference is written as a comparison of sums.
pub mod Window
pub mod Log
use insteonrf.Common.{
  ℕ, zero, suc, ◌+◌, ◌-◌, ◌*◌, ◌/◌, ◌%◌, ◌^◌, ◌≤◌, ◌<◌, min, max, bit_and, bit_or, bit_xor, ◌≡◌,
  refl, sym, ap, ◌∙◌, ◌≢◌, ◌↔◌, ◌⊎◌, inl, inr, Bool, true, false, not, ◌&&◌, ◌||◌, Option, none,
  some, List, [], ◌∷◌, ◌++◌, map, arith, ltb, leb, ◌==◌, if◌then◌else◌, ltb→lt, lt→ltb, leb→le,
  ==_iff, ==_self, Bool-cases, Option-cases, Eq, length, get_elem?, get_or, take, drop, replicate,
  slice, length-append, length-take, length-drop, length-replicate, take-append, drop-append, All,
  All-append, All-take, All-drop, All-split, All-replicate, take-append_over, get_elem?-append_mid,
  take-append_le, slice-append, take_all, append_get_or, Error, Result, ok, raise, value_error,
  manchester_error, plm_format_error, ◌>>=◌, ◌>>◌, raise_if, >>=-eq-ok, list_eq, list_beq,
  list_beq_iff, bool_beq,
}
use insteonrf.Common.Dict.{Dict, get, put, purge}
use insteonrf.Plm.{from_plm_bytes, message_key}

abbrev pub suppress_window : ℕ
suppress_window = 2_000_000

pub record PlmMemory : Type 0 where
  pub window : ℕ
  pub frames : ℕ
  pub seen : Dict (List ℕ) ℕ

-- `except PlmFormatError: return False`; any other exception goes on to the caller.
abbrev pub caught : Error → PlmMemory → Result (PlmMemory × Bool)
caught plm_format_error m = ok (m, false)
caught value_error m = raise value_error
caught e m = raise e

unfoldable pub note : PlmMemory → List ℕ → ℕ → Result (PlmMemory × Bool)
note m raw now = elim (from_plm_bytes raw) [
  | ok p ↦ ok (record m { seen = put (message_key p) now m.seen; frames = m.frames + 1 }, true)
  | raise e ↦ caught e m
]

-- `abs(now - when) <= self.window_s`
abbrev pub near : ℕ → ℕ → ℕ → Bool
near window now when = leb now (when + window) && leb when (now + window)

unfoldable pub heard : PlmMemory → List ℕ → ℕ → Bool
heard m key now = elim (get key m.seen) [ none ↦ false | some when ↦ near m.window now when ]

-- `now - when > max(self.window_s, 10.0)`
abbrev pub stale : ℕ → ℕ → ℕ → Bool
stale window now when = ltb (when + max window 10_000_000) now

unfoldable pub forget_old : PlmMemory → ℕ → PlmMemory
forget_old m now = record m { seen = purge (stale m.window now) m.seen }
