-- ===== src/Fusion/Emit.antt =====
-- fusion.py, class Fusion: `_emit`, `pop_ready`, `flush` and `fuse_all`.
pub mod Totals
pub mod Drained
pub mod Conserved
use insteonrf.Common.{
  Bool, ℕ, ◌+◌, leb, ◌&&◌, if◌then◌else◌, Option, none, some, List, [], ◌∷◌, ◌++◌, list_eq,
  list_beq, true, false,
}
use insteonrf.Common.Dict.{Dict, get, put, purge}
use insteonrf.Plm.{message_key}
use insteonrf.Fusion.{Sighting, FusedEvent}
use insteonrf.Fusion.Bucket.{Config, Bucket, bucket_add_all, accepts, is_closed, build}
use insteonrf.Fusion.Collect.{
  Fusion, new_fusion, add, add_late, within, forget_old, finish, sort_buckets, sort_events,
  good_buckets, bad_buckets,
}

-- a repaired bucket merged into the first pending one of its message
unfoldable pub fold_pending : Config → List ℕ → Bucket → List Bucket → Option (List Bucket)
fold_pending c key b [] = none
fold_pending c key b (g ∷ gs) =
    let rest = fold_pending c key b gs in
    if list_beq g.key key && accepts c g b.opened
    then some (bucket_add_all g b.sightings ∷ gs)
    else elim rest [ none ↦ none | some hs ↦ some (g ∷ hs) ]

-- or into the open one
abbrev pub fold_live : Fusion → List ℕ → Bucket → Option Bucket → Option Fusion
fold_live f key b none = none
fold_live f key b (some live) =
    if accepts f.config live b.opened
    then some (record f { opens = put key (bucket_add_all live b.sightings) f.opens })
    else none

-- `for s in b.sightings: self.late[...] += 1`
unfoldable pub add_all_late : List Sighting → Dict (List ℕ) ℕ → Dict (List ℕ) ℕ
add_all_late [] late = late
add_all_late (s ∷ ss) late = add_all_late ss (add_late s.receiver late)

pub record Emission : Type 0 where
  pub fusion : Fusion
  pub pending : List Bucket
  pub out : List FusedEvent

-- `out.append(self._finish(b, now, event))`
abbrev pub append_finished : Emission → ℕ → FusedEvent → Emission
append_finished em now ev =
    let done = finish em.fusion now ev in record em { fusion = done.0; out = em.out ++ done.1 ∷ [] }

-- a repaired bucket whose event has gone is counted as late, any other one is finished
abbrev pub fold_late : Emission → ℕ → Bucket → FusedEvent → Emission
fold_late em now b ev =
    let f = em.fusion in
    if within f.config (get (message_key ev.packet) f.closed) b.opened
    then record em {
      fusion = record f { late = add_all_late b.sightings f.late; folds = f.folds + 1 };
    }
    else append_finished em now ev

-- the rest, at the open bucket that took it
abbrev pub fold_open : Emission → ℕ → Bucket → FusedEvent → Option Fusion → Emission
fold_open em now b ev none = fold_late em now b ev
fold_open em now b ev (some f) = record em { fusion = record f { folds = f.folds + 1 } }

-- the rest, at the pending buckets that took it
abbrev pub fold_home : Emission → ℕ → Bucket → FusedEvent → Option (List Bucket) → Emission
fold_home em now b ev none =
    let key = message_key ev.packet in
    fold_open em now b ev (fold_live em.fusion key b (get key em.fusion.opens))
fold_home em now b ev (some pending) =
    let f = em.fusion in record em { fusion = record f { folds = f.folds + 1 }; pending = pending }

-- the event of a bucket without a verified copy, by `event.combined`
abbrev pub emit_event : Bool → Emission → ℕ → Bucket → FusedEvent → Emission
emit_event false em now b ev = append_finished em now ev
emit_event true em now b ev =
    fold_home em now b ev (fold_pending em.fusion.config (message_key ev.packet) b em.pending)

-- one bucket without a verified copy
unfoldable pub emit_bad : Emission → ℕ → Bucket → Emission
emit_bad em now b =
    let ev = build b em.fusion.config.allow_combine in emit_event ev.combined em now b ev

unfoldable pub emit_bads : Emission → ℕ → List Bucket → Emission
emit_bads em now [] = em
emit_bads em now (b ∷ bs) = emit_bads (emit_bad em now b) now bs

-- `[self._finish(b, now) for b in pending]`
unfoldable pub finish_all : Fusion → ℕ → List Bucket → Fusion × List FusedEvent
finish_all f now [] = (f, [])
finish_all f now (b ∷ bs) =
    let done = finish f now (build b f.config.allow_combine) in
    let rest = finish_all done.0 now bs in (rest.0, done.1 ∷ rest.1)

-- `_emit`
unfoldable pub emit : Fusion → List Bucket → ℕ → Fusion × List FusedEvent
emit f done now =
    let sorted = sort_buckets done in
    let em =
      emit_bads (record { fusion = f; pending = good_buckets sorted; out = [] }) now
        (bad_buckets sorted) in
    let rest = finish_all em.fusion now em.pending in (rest.0, sort_events (em.out ++ rest.1))

-- the open buckets that have closed, and those that stay
unfoldable pub closed_of : Config → ℕ → Dict (List ℕ) Bucket → List Bucket
closed_of c now [] = []
closed_of c now ((key, b) ∷ opens) =
    if is_closed c b now then b ∷ closed_of c now opens else closed_of c now opens

abbrev pub open_of : Config → ℕ → Dict (List ℕ) Bucket → Dict (List ℕ) Bucket
open_of c now opens = purge (λ b. is_closed c b now) opens

unfoldable pub pop_ready : Fusion → ℕ → Fusion × List FusedEvent
pop_ready f0 now =
    let f = forget_old f0 now in
    emit (record f { ready = []; opens = open_of f.config now f.opens })
      (f.ready ++ closed_of f.config now f.opens) now

-- `self._open.values()`
unfoldable pub values : Dict (List ℕ) Bucket → List Bucket
values [] = []
values ((key, b) ∷ opens) = b ∷ values opens

unfoldable pub flush : Fusion → ℕ → Fusion × List FusedEvent
flush f now = emit (record f { ready = []; opens = [] }) (f.ready ++ values f.opens) now

-- `sorted(sightings, key=lambda s: s.when)`
unfoldable pub insert_sighting : Sighting → List Sighting → List Sighting
insert_sighting s [] = s ∷ []
insert_sighting s (t ∷ ts) = if leb s.at t.at then s ∷ t ∷ ts else t ∷ insert_sighting s ts

unfoldable pub sort_sightings : List Sighting → List Sighting
sort_sightings [] = []
sort_sightings (s ∷ ss) = insert_sighting s (sort_sightings ss)

-- the loop of `fuse_all`, from the time `last` of the sighting before
unfoldable pub fuse_loop : Fusion → ℕ → List Sighting → Fusion × List FusedEvent
fuse_loop f last [] = flush f (last + f.config.max_window + 1_000_000)
fuse_loop f last (s ∷ ss) =
    let popped = pop_ready f s.at in
    let rest = fuse_loop (add popped.0 s) s.at ss in (rest.0, popped.1 ++ rest.1)

-- `fuse_all`, with the state that it ends in
unfoldable pub fuse_all : Config → List Sighting → Fusion × List FusedEvent
fuse_all c ss = fuse_loop (new_fusion c) 0 (sort_sightings ss)
