-- ===== src/Context.antt =====
-- insteonrf/context.py: CommandTracker, which remembers queries so that a reply is read in the
-- table of its query. An address in a key is its number: `str` writes each address of 24 bits in
-- its own way. Times are numbers of microseconds; `clock` is the answer of `time.time()`.
mod Tests
pub mod Replies
use insteonrf.Common.{
  length, ◌==◌, ℕ, ◌+◌, Option, none, some, List, [], ◌∷◌, Bool, ltb, if◌then◌else◌, list_eq,
}
use insteonrf.Common.Dict.{Dict, get, put, purge}
use insteonrf.Packet.Address.{Address}
use insteonrf.Packet.Fields.{Packet, ack, extended, cmd1, to_addr, from_addr}

abbrev pub default_window : ℕ
default_window = 5_000_000

pub record CommandTracker : Type 0 where
  pub window : ℕ
  pub queries : Dict (List ℕ) (ℕ × Bool)
  pub resolved : ℕ
  pub unresolved : ℕ

-- `CommandTracker(window_s)`
abbrev pub tracker : ℕ → CommandTracker
tracker window = record { window = window; queries = []; resolved = 0; unresolved = 0 }

-- `(str(sender), str(target), cmd1)`
abbrev pub query_key : Address → Address → ℕ → List ℕ
query_key sender target c = sender.value ∷ target.value ∷ c ∷ []

-- `now - when > self.window_s`
abbrev pub expired : ℕ → ℕ → ℕ × Bool → Bool
expired window now entry = ltb (entry.0 + window) now

-- `_expire`
unfoldable pub expire : CommandTracker → ℕ → CommandTracker
expire t now = record t { queries = purge (expired t.window now) t.queries }

-- `_annotate`, at the target and the command that `observe` has found
unfoldable pub annotate_reply : CommandTracker → Packet → Address → ℕ → CommandTracker × Packet
annotate_reply t p to c = elim (from_addr p) [
  | none ↦ (t, p)
  | some from ↦ elim (get (query_key to from c) t.queries) [
    | none ↦ (record t { unresolved = t.unresolved + 1 }, p)
    | some hit ↦ (record t { resolved = t.resolved + 1 }, record p { ack_of_extended = some hit.1 })
  ]
]

-- the query part of `observe`
unfoldable pub record_query : CommandTracker → Packet → Address → ℕ → ℕ → CommandTracker
record_query t p to c now = elim (from_addr p) [
  | none ↦ t
  | some from ↦ record t { queries = put (query_key from to c) (now, extended p) t.queries }
]

-- `pkt.timestamp if pkt.timestamp is not None else time.time()`
abbrev pub arrival : Packet → ℕ → ℕ
arrival p clock = elim p.timestamp [ none ↦ clock | some when ↦ when ]

unfoldable pub observe : CommandTracker → Packet → ℕ → CommandTracker × Packet
observe t0 p clock =
    let now = arrival p clock in
    let t = expire t0 now in
    elim (cmd1 p) [
      | none ↦ (t, p)
      | some c ↦ elim (to_addr p) [
        | none ↦ (t, p)
        | some to ↦ if ack p then annotate_reply t p to c else (record_query t p to c now, p)
      ]
    ]

-- `for pkt in packets: tracker.observe(pkt)`, each packet with the clock at its turn
unfoldable pub observe_all : List (Packet × ℕ) → CommandTracker → CommandTracker × List Packet
observe_all [] t = (t, [])
observe_all ((p, clock) ∷ packets) t =
    let step = observe t p clock in
    let rest = observe_all packets step.0 in (rest.0, step.1 ∷ rest.1)

-- `__len__`
abbrev pub count : CommandTracker → ℕ
count t = length t.queries

-- `annotate`: the tracker that was given, after it, and the packets. `tracker or CommandTracker()`
-- takes a new tracker also in place of one that remembers no query.
unfoldable pub annotate :
    List (Packet × ℕ) → Option CommandTracker → Option CommandTracker × List Packet
annotate packets none = (none, (observe_all packets (tracker default_window)).1)
annotate packets (some t) =
    if count t == 0
    then (some t, (observe_all packets (tracker default_window)).1)
    else (let noted = observe_all packets t in (some noted.0, noted.1))
