-- ===== src/Cmds.antt =====
-- insteonrf/cmds.py: the tables of command names, and `find`, `is_known`, `ambiguous`, `lookup`.
-- A name is kept in its parts, before it is put together as text.
pub mod Tables
pub mod Names
use Prim.Native.String.{String}
use text.Mathlib.Text.{◌==◌}
use insteonrf.Cmds.Tables.{Entry, Table, std_cmds, ext_cmds, bcast_std_cmds, bcast_ext_cmds}
use insteonrf.Common.{
  ℕ, List, [], ◌∷◌, Option, none, some, Bool, true, false, if◌then◌else◌, nat_eq, Result, ok, raise,
  key_error, not, ◌&&◌,
}
use insteonrf.Common.Dict.{Dict, get}

-- the kinds of a fallback name
pub data Kind : Type 0 where
  std_kind ext_kind bcast_kind bcast_ext_kind : Kind

-- `_TABLES[(extended, bcast)]`
abbrev pub kind_of : Bool → Bool → Kind
kind_of false false = std_kind
kind_of true false = ext_kind
kind_of false true = bcast_kind
kind_of true true = bcast_ext_kind

abbrev pub tables_of : Bool → Bool → List Table
tables_of false false = std_cmds ∷ []
tables_of true false = ext_cmds ∷ []
tables_of false true = bcast_std_cmds ∷ std_cmds ∷ []
tables_of true true = bcast_ext_cmds ∷ ext_cmds ∷ std_cmds ∷ []

-- the loop of `find`
unfoldable pub find_in : List Table → ℕ → Option Entry
find_in [] cmd1 = none
find_in (table ∷ tables) cmd1 = elim (get cmd1 table) [
  | some entry ↦ some entry
  | none ↦ find_in tables cmd1
]

unfoldable pub find : ℕ → Bool → Bool → Option Entry
find cmd1 extended bcast = find_in (tables_of extended bcast) cmd1

unfoldable pub is_known : ℕ → Bool → Bool → Bool
is_known cmd1 extended bcast = elim (find cmd1 extended bcast) [ none ↦ false | some e ↦ true ]

unfoldable pub ambiguous : ℕ → Bool
ambiguous cmd1 = elim (get cmd1 std_cmds) [
  | none ↦ false
  | some s ↦ elim (get cmd1 ext_cmds) [ none ↦ false | some e ↦ not (s.label == e.label) ]
]

-- a name: `"{kind} Command 0x{cmd1:02X}"`, a label, a label with the name of the second byte, or a
-- label with the number of responders that did not answer
pub data Name : Type 0 where
  unnamed : Kind → ℕ → Name
  labelled : String → Name
  detailed : String → String → Name
  answers : String → ℕ → Name

-- the part of `lookup` that reads the second byte
unfoldable pub refine : Entry → ℕ → Name
refine e cmd2 = elim (get cmd2 e.sub) [
  | some name ↦ detailed e.label name
  | none ↦ if e.report then answers e.label cmd2 else labelled e.label
]

unfoldable pub lookup : ℕ → Option ℕ → Bool → Bool → Bool → Name
lookup cmd1 cmd2 extended bcast ack = elim (find cmd1 extended bcast) [
  | none ↦ unnamed (kind_of extended bcast) cmd1
  | some e ↦ elim cmd2 [
    | none ↦ labelled e.label
    | some c ↦ if ack then labelled e.label else refine e c
  ]
]

-- `both_labels`; a missing entry is a KeyError
unfoldable pub both_labels : ℕ → Result (String × String)
both_labels cmd1 = elim (get cmd1 std_cmds) [
  | none ↦ raise key_error
  | some s ↦ elim (get cmd1 ext_cmds) [ none ↦ raise key_error | some e ↦ ok (s.label, e.label) ]
]
