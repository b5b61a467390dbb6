-- ===== src/Monitor/Counts.antt =====
-- monitor.py: the number of repeats that the records hold.
use insteonrf.Common.{ℕ, ◌+◌, ◌≡◌, refl, List, [], ◌∷◌, ◌++◌, Bool, true, arith, length, list_eq}
use insteonrf.Common.Dict.{Dict, get, put, purge}
use insteonrf.Packet.Fields.{Packet}
use insteonrf.Context.{arrival}
use insteonrf.Monitor.{
  folded, Record, Deduper, deduper, dedupe_key, repeated, add, ripe, picked, pop_ready, flush,
  records_loop, records,
}

-- the repeats of some records, and of the pending ones
unfoldable pub repeats_of : List Record → ℕ
repeats_of [] = 0
repeats_of (r ∷ rs) = r.repeats + repeats_of rs

unfoldable pub pending_repeats : Dict (List ℕ) (ℕ × Record) → ℕ
pending_repeats [] = 0
pending_repeats ((key, entry) ∷ d) = entry.1.repeats + pending_repeats d

pending-put :
    (key : List ℕ) (now : ℕ) (p : Packet) (d : Dict (List ℕ) (ℕ × Record))
    → pending_repeats (put key (now, folded p (get key d)) d) ≡ pending_repeats d + 1
unfolding pending_repeats put get repeated
pending-put key now p [] = refl
pending-put key now p ((j, entry) ∷ d) = ground (arith, pending-put key now p d)

add_one :
    (d : Deduper) (p : Packet) (clock : ℕ)
    → pending_repeats (add d p clock).pending ≡ pending_repeats d.pending + 1
unfolding add
add_one d p clock = pending-put (dedupe_key p) (arrival p clock) p d.pending

split_lem :
    (test : ℕ × Record → Bool) (d : Dict (List ℕ) (ℕ × Record))
    → repeats_of (picked test d) + pending_repeats (purge test d) ≡ pending_repeats d
unfolding picked purge repeats_of pending_repeats
split_lem test [] = refl
split_lem test ((key, entry) ∷ d) = ground (arith, split_lem test d)

all_lem :
    (d : Dict (List ℕ) (ℕ × Record)) → repeats_of (picked (λ entry. true) d) ≡ pending_repeats d
unfolding picked repeats_of pending_repeats
all_lem [] = refl
all_lem ((key, entry) ∷ d) = ground (arith, all_lem d)

repeats-append : (xs ys : List Record) → repeats_of (xs ++ ys) ≡ repeats_of xs + repeats_of ys
unfolding repeats_of
repeats-append [] ys = omega arith
repeats-append (x ∷ xs) ys = omega (arith, repeats-append xs ys)

loop_lem :
    (d : Deduper) (packets : List (Packet × ℕ))
    → repeats_of (records_loop d packets) ≡ pending_repeats d.pending + length packets
unfolding records_loop flush pop_ready
loop_lem d [] = omega (arith, all_lem d.pending)
loop_lem d ((p, clock) ∷ packets) =
    let e = add d p clock in
    let now = arrival p clock in
    omega (
      arith,
      repeats-append (picked (ripe e.window now) e.pending)
          (records_loop (pop_ready e now).0 packets),
      loop_lem (pop_ready e now).0 packets,
      split_lem (ripe e.window now) e.pending,
      add_one d p clock,
    )

-- No packet is lost and none is counted twice: the repeats of the records that a run gives add up
-- to the number of its packets.
pub records_total :
    (window : ℕ) (packets : List (Packet × ℕ))
    → repeats_of (records window packets) ≡ length packets
unfolding records pending_repeats
records_total window packets = omega (arith, loop_lem (deduper window) packets)
