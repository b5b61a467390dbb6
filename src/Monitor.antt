-- ===== src/Monitor.antt =====
-- insteonrf/monitor.py: class Deduper, which folds the repeats of a packet into one record, and
-- `records`. A record is the packet that `to_dict` is called on, with the fields that are counted.
-- Times are numbers of microseconds; `clock` is the answer of `time.time()`.
mod Tests
pub mod Counts
use insteonrf.Common.{
  ℕ, ◌+◌, Option, none, some, List, [], ◌∷◌, ◌++◌, map, Bool, true, false, not, ◌||◌, ◌==◌, ltb,
  if◌then◌else◌, length, take, list_eq,
}
use insteonrf.Common.Dict.{Dict, get, put, purge}
use insteonrf.Packet.Fields.{Packet, crc_index, hops_left}
use insteonrf.Plm.{mask_first}
use insteonrf.Context.{arrival}

abbrev pub dedupe_window : ℕ
dedupe_window = 250_000

-- `_dedupe_key`
unfoldable pub dedupe_key : Packet → List ℕ
dedupe_key p =
    mask_first (if ltb (crc_index p) (length p.bytes) then take (crc_index p) p.bytes else p.bytes)

pub record Record : Type 0 where
  pub packet : Packet
  pub repeats : ℕ
  pub hops_seen : List ℕ

pub record Deduper : Type 0 where
  pub window : ℕ
  pub pending : Dict (List ℕ) (ℕ × Record)

-- `Deduper(window_s)`
abbrev pub deduper : ℕ → Deduper
deduper window = record { window = window; pending = [] }

-- `n in ns`
unfoldable pub mem_nat : ℕ → List ℕ → Bool
mem_nat n [] = false
mem_nat n (m ∷ ns) = n == m || mem_nat n ns

-- the record of a packet that was seen before, and of one that was not
unfoldable pub repeated : Record → Packet → Record
repeated r p = record r {
  repeats = r.repeats + 1;
  hops_seen =
      if mem_nat (hops_left p) r.hops_seen then r.hops_seen else r.hops_seen ++ hops_left p ∷ [];
}

abbrev pub fresh : Packet → Record
fresh p = record { packet = p; repeats = 1; hops_seen = hops_left p ∷ [] }

-- the record after a packet: of its key's entry, or a new one
abbrev pub folded : Packet → Option (ℕ × Record) → Record
folded p none = fresh p
folded p (some hit) = repeated hit.1 p

unfoldable pub add : Deduper → Packet → ℕ → Deduper
add d p clock =
    let key = dedupe_key p in
    record d { pending = put key (arrival p clock, folded p (get key d.pending)) d.pending }

-- `now - last > self.window_s`
abbrev pub ripe : ℕ → ℕ → ℕ × Record → Bool
ripe window now entry = ltb (entry.0 + window) now

-- the records of the entries that a test picks, in order
unfoldable pub picked : (ℕ × Record → Bool) → Dict (List ℕ) (ℕ × Record) → List Record
picked test [] = []
picked test ((key, entry) ∷ d) = if test entry then entry.1 ∷ picked test d else picked test d

unfoldable pub pop_ready : Deduper → ℕ → Deduper × List Record
pop_ready d now = (
  record d { pending = purge (ripe d.window now) d.pending },
  picked (ripe d.window now) d.pending,
)

unfoldable pub flush : Deduper → Deduper × List Record
flush d = (record d { pending = [] }, picked (λ entry. true) d.pending)

-- the loop of `records`, each packet with the clock at its turn
unfoldable pub records_loop : Deduper → List (Packet × ℕ) → List Record
records_loop d [] = (flush d).1
records_loop d ((p, clock) ∷ packets) =
    let popped = pop_ready (add d p clock) (arrival p clock) in
    popped.1 ++ records_loop popped.0 packets

-- `records` with `dedupe`
unfoldable pub records : ℕ → List (Packet × ℕ) → List Record
records window packets = records_loop (deduper window) packets
