-- ===== src/Fusion/Emit/Conserved.antt =====
-- fusion.py: `pop_ready`, `flush` and `fuse_all` lose no copy.
use insteonrf.Common.{ap, ℕ, ◌+◌, ◌≡◌, refl, arith, List, [], ◌∷◌, ◌++◌, length, list_eq}
use insteonrf.Common.Dict.{Dict, purge, IsDict, purge-IsDict}
use insteonrf.Common.Totals.{list_total, list_total-append, total}
use insteonrf.Fusion.{Sighting}
use insteonrf.Fusion.Bucket.{Config, Bucket, is_closed}
use insteonrf.Fusion.Collect.{Fusion, new_fusion, add, forget_old}
use insteonrf.Fusion.Counts.{size, late_total, copies_in, event_copies, add-Adds}
use insteonrf.Fusion.Emit.{
  closed_of, open_of, pop_ready, values, flush, insert_sighting, sort_sightings, fuse_loop,
  fuse_all,
}
use insteonrf.Fusion.Emit.Totals.{emit_lem}
use insteonrf.Fusion.Emit.Drained.{IsDrained, loop_IsDrained}

split_opens :
    (c : Config) (now : ℕ) (opens : Dict (List ℕ) Bucket)
    → list_total size (closed_of c now opens) + total size (open_of c now opens) ≡ total size opens
unfolding closed_of purge list_total total
split_opens c now [] = refl
split_opens c now ((key, b) ∷ opens) = ground (arith, split_opens c now opens)

size-values : (opens : Dict (List ℕ) Bucket) → list_total size (values opens) ≡ total size opens
unfolding values list_total total
size-values [] = refl
size-values ((key, b) ∷ opens) = omega (arith, size-values opens)

insert_length : (s : Sighting) (ss : List Sighting) → length (insert_sighting s ss) ≡ length ss + 1
unfolding insert_sighting
insert_length s [] = refl
insert_length s (t ∷ ts) = ground (arith, insert_length s ts)

sort_length : (ss : List Sighting) → length (sort_sightings ss) ≡ length ss
unfolding sort_sightings
sort_length [] = refl
sort_length (s ∷ ss) = omega (arith, insert_length s (sort_sightings ss), sort_length ss)

-- Popping the closed buckets keeps the copies: those of the events, those still held and those
-- counted as late were held or counted before. The keys of the open buckets stay distinct.
pub pop_ready-copies :
    (f : Fusion) (now : ℕ)
    → IsDict f.opens
    → (list_total event_copies (pop_ready f now).1 + copies_in (pop_ready f now).0 ≡ copies_in f)
      × IsDict (pop_ready f now).0.opens
unfolding pop_ready forget_old list_total
pop_ready-copies f now h =
    let c = f.config in
    let g = forget_old f now in
    let k =
      emit_lem (record g { ready = []; opens = open_of c now f.opens })
        (f.ready ++ closed_of c now f.opens) now
        (purge-IsDict (λ b. is_closed c b now) f.opens h) in
    (
      omega (
        arith,
        k.0,
        split_opens c now f.opens,
        list_total-append size f.ready (closed_of c now f.opens),
      ),
      k.1,
    )

flush_copies :
    (f : Fusion) (now : ℕ)
    → list_total event_copies (flush f now).1 + copies_in (flush f now).0 ≡ copies_in f
unfolding flush list_total total IsDict
flush_copies f now =
    let k = emit_lem (record f { ready = []; opens = [] }) (f.ready ++ values f.opens) now tt in
    omega (arith, k.0, size-values f.opens, list_total-append size f.ready (values f.opens))

loop_copies :
    (f : Fusion) (last : ℕ) (ss : List Sighting)
    → IsDict f.opens
    → list_total event_copies (fuse_loop f last ss).1 + copies_in (fuse_loop f last ss).0
      ≡ copies_in f + length ss
unfolding fuse_loop
loop_copies f last [] h = omega (arith, flush_copies f (last + f.config.max_window + 1_000_000))
loop_copies f last (s ∷ ss) h =
    let popped = pop_ready f s.at in
    let p = pop_ready-copies f s.at h in
    let a = add-Adds popped.0 s p.1 in
    omega (
      arith,
      list_total-append event_copies popped.1 (fuse_loop (add popped.0 s) s.at ss).1,
      p.0,
      a.0,
      loop_copies (add popped.0 s) s.at ss a.1,
    )

drained_copies : (f : Fusion) → IsDrained f → copies_in f ≡ late_total f.late
unfolding total list_total
drained_copies f h = omega (arith, ap (λ d. total size d) h.0, ap (λ bs. list_total size bs) h.1)

-- Fusing a finite sequence of sightings: at the end no bucket is open or waiting to be reported,
-- and the copies of the events, with those counted as late, are as many as the sightings.
pub fuse_all-copies :
    (c : Config) (ss : List Sighting)
    → IsDrained (fuse_all c ss).0
      × (list_total event_copies (fuse_all c ss).1 + late_total (fuse_all c ss).0.late ≡ length ss)
unfolding fuse_all total list_total IsDict
fuse_all-copies c ss =
    let sorted = sort_sightings ss in
    let l = loop_copies (new_fusion c) 0 sorted tt in
    let drained = loop_IsDrained (new_fusion c) 0 sorted in
    (drained, omega (arith, l, sort_length ss, drained_copies (fuse_all c ss).0 drained))
