-- ===== src/Fusion/Emit/Drained.antt =====
-- fusion.py, class Fusion: after a flush nothing is held.
use insteonrf.Common.{
  ap, ◌+◌, ℕ, ◌≡◌, refl, Bool, true, false, Option, none, some, List, [], ◌∷◌, ◌++◌, list_eq,
  Bool-cases, inl, inr,
}
use insteonrf.Common.Dict.{get}
use insteonrf.Plm.{message_key}
use insteonrf.Fusion.{FusedEvent, Sighting}
use insteonrf.Fusion.Bucket.{Bucket, build}
use insteonrf.Fusion.Collect.{Fusion, finish, within, good_buckets, bad_buckets, sort_buckets, add}
use insteonrf.Fusion.Emit.{
  fold_pending, Emission, fold_late, fold_open, fold_live, fold_home, emit_event, emit_bad,
  emit_bads, finish_all, emit, flush, values, pop_ready, fuse_loop,
}

abbrev pub IsDrained : Fusion → Type 0
IsDrained f = (f.opens ≡ []) × (f.ready ≡ [])

late-IsDrained :
    (em : Emission) (now : ℕ) (b : Bucket) (ev : FusedEvent)
    → IsDrained em.fusion
    → IsDrained (fold_late em now b ev).fusion
unfolding finish
late-IsDrained em now b ev h =
    let seen = get (message_key ev.packet) em.fusion.closed in
    elim (Bool-cases (within em.fusion.config seen b.opened)) [
      | inl late ↦ rw late h
      | inr not_late ↦ rw not_late h
    ]

open_IsDrained :
    (em : Emission) (now : ℕ) (b : Bucket) (ev : FusedEvent) (o : Option Fusion)
    → o ≡ none
    → IsDrained em.fusion
    → IsDrained (fold_open em now b ev o).fusion
open_IsDrained em now b ev none e h = late-IsDrained em now b ev h
open_IsDrained em now b ev (some g) e h = absurd cc

home_IsDrained :
    (em : Emission) (now : ℕ) (b : Bucket) (ev : FusedEvent) (o : Option (List Bucket))
    → IsDrained em.fusion
    → IsDrained (fold_home em now b ev o).fusion
unfolding get
home_IsDrained em now b ev (some hs) h = h
home_IsDrained em now b ev none h =
    let key = message_key ev.packet in
    open_IsDrained em now b ev (fold_live em.fusion key b (get key em.fusion.opens))
      (ap (λ d. fold_live em.fusion key b (get key d)) h.0) h

event_IsDrained :
    (combined : Bool) (em : Emission) (now : ℕ) (b : Bucket) (ev : FusedEvent)
    → IsDrained em.fusion
    → IsDrained (emit_event combined em now b ev).fusion
unfolding finish
event_IsDrained false em now b ev h = h
event_IsDrained true em now b ev h =
    home_IsDrained em now b ev (fold_pending em.fusion.config (message_key ev.packet) b em.pending)
      h

bads_IsDrained :
    (em : Emission) (now : ℕ) (bs : List Bucket)
    → IsDrained em.fusion
    → IsDrained (emit_bads em now bs).fusion
unfolding emit_bads emit_bad
bads_IsDrained em now [] h = h
bads_IsDrained em now (b ∷ bs) h =
    let ev = build b em.fusion.config.allow_combine in
    bads_IsDrained (emit_bad em now b) now bs (event_IsDrained ev.combined em now b ev h)

all_IsDrained :
    (f : Fusion) (now : ℕ) (bs : List Bucket) → IsDrained f → IsDrained (finish_all f now bs).0
unfolding finish_all finish
all_IsDrained f now [] h = h
all_IsDrained f now (b ∷ bs) h =
    all_IsDrained (finish f now (build b f.config.allow_combine)).0 now bs h

flush-IsDrained : (f : Fusion) (now : ℕ) → IsDrained (flush f now).0
unfolding flush emit
flush-IsDrained f now =
    let g = record f { ready = []; opens = [] } in
    let sorted = sort_buckets (f.ready ++ values f.opens) in
    let em0 : Emission = record { fusion = g; pending = good_buckets sorted; out = [] } in
    let em = emit_bads em0 now (bad_buckets sorted) in
    all_IsDrained em.fusion now em.pending
      (bads_IsDrained em0 now (bad_buckets sorted) (refl, refl))

pub loop_IsDrained :
    (f : Fusion) (last : ℕ) (ss : List Sighting) → IsDrained (fuse_loop f last ss).0
unfolding fuse_loop
loop_IsDrained f last [] = flush-IsDrained f (last + f.config.max_window + 1_000_000)
loop_IsDrained f last (s ∷ ss) = loop_IsDrained (add (pop_ready f s.at).0 s) s.at ss
