-- ===== src/Fusion/Emit/Totals.antt =====
-- fusion.py, class Fusion: where every copy goes when buckets are emitted.
use insteonrf.Common.{
  ℕ, ◌+◌, ◌≡◌, refl, arith, Bool, true, false, ◌&&◌, Option, none, some, List, [], ◌∷◌, ◌++◌,
  length, list_eq, list_beq, Bool-cases, Option-cases, inl, inr, sym, ap,
}
use insteonrf.Common.Dict.{Dict, get, put, IsDict, put-IsDict}
use insteonrf.Common.Totals.{list_total, list_total-append, weigh_or, total-put}
use insteonrf.Plm.{message_key}
use insteonrf.Fusion.{Sighting, FusedEvent}
use insteonrf.Fusion.Bucket.{Config, Bucket, bucket_add_all, accepts, build}
use insteonrf.Fusion.Collect.{
  Fusion, add_late, within, finish, sort_buckets, sort_events, good_buckets, bad_buckets,
  insert_bucket, insert_event,
}
use insteonrf.Fusion.Counts.{
  size, late_total, copies_in, event_copies, size-bucket_add_all, late_total-add_late, copies-build,
  Adds,
}
use insteonrf.Fusion.Emit.{
  emit_event, fold_pending, fold_live, add_all_late, Emission, append_finished, fold_late,
  fold_open, fold_home, emit_bad, emit_bads, finish_all, emit,
}

late_all :
    (ss : List Sighting) (late : Dict (List ℕ) ℕ)
    → late_total (add_all_late ss late) ≡ late_total late + length ss
unfolding add_all_late
late_all [] late = omega arith
late_all (s ∷ ss) late =
    omega (arith, late_all ss (add_late s.receiver late), late_total-add_late s.receiver late)

-- Sorting keeps the totals.
insert_size :
    (b : Bucket) (bs : List Bucket)
    → list_total size (insert_bucket b bs) ≡ size b + list_total size bs
unfolding insert_bucket list_total
insert_size b [] = refl
insert_size b (c ∷ cs) = ground (arith, insert_size b cs)

sort_size : (bs : List Bucket) → list_total size (sort_buckets bs) ≡ list_total size bs
unfolding sort_buckets list_total
sort_size [] = refl
sort_size (b ∷ bs) = omega (arith, insert_size b (sort_buckets bs), sort_size bs)

insert_copies :
    (e : FusedEvent) (es : List FusedEvent)
    → list_total event_copies (insert_event e es) ≡ event_copies e + list_total event_copies es
unfolding insert_event list_total
insert_copies e [] = refl
insert_copies e (g ∷ gs) = ground (arith, insert_copies e gs)

sort_copies :
    (es : List FusedEvent) → list_total event_copies (sort_events es) ≡ list_total event_copies es
unfolding sort_events list_total
sort_copies [] = refl
sort_copies (e ∷ es) = omega (arith, insert_copies e (sort_events es), sort_copies es)

parts_size :
    (bs : List Bucket)
    → list_total size (good_buckets bs) + list_total size (bad_buckets bs) ≡ list_total size bs
unfolding good_buckets bad_buckets list_total
parts_size [] = refl
parts_size (b ∷ bs) = ground (arith, parts_size bs)

size-some :
    {n : ℕ} (xs ys : List Bucket)
    → some xs ≡ some ys
    → list_total size xs ≡ n
    → list_total size ys ≡ n
size-some xs ys e h = let q : xs ≡ ys = cc in rw (sym q) h

pending_size :
    (c : Config) (key : List ℕ) (b : Bucket) (gs hs : List Bucket)
    → fold_pending c key b gs ≡ some hs
    → list_total size hs ≡ list_total size gs + size b
unfolding fold_pending list_total
pending_size c key b [] hs = λ e. absurd cc
pending_size c key b (g ∷ gs) hs = elim (Bool-cases (list_beq g.key key && accepts c g b.opened)) [
  | inl home ↦ rw home (λ e.
      size-some (bucket_add_all g b.sightings ∷ gs) hs e
        (omega (arith, size-bucket_add_all g b.sightings)))
  | inr not_home ↦ elim (Option-cases (fold_pending c key b gs)) [
    | inl r ↦ rw not_home (rw r (λ e. absurd cc))
    | inr r ↦
        rw not_home
          (rw r.1 (λ e. size-some (g ∷ r.0) hs e (omega (arith, pending_size c key b gs r.0 r.1))))
  ]
]

Adds-some : (n : ℕ) (f x g : Fusion) → some x ≡ some g → Adds n f x → Adds n f g
Adds-some n f x g e h = let q : x ≡ g = cc in rw⁻¹ q h

live_Adds :
    (f g : Fusion) (key : List ℕ) (b : Bucket) (o : Option Bucket)
    → IsDict f.opens
    → get key f.opens ≡ o
    → fold_live f key b o ≡ some g
    → Adds (size b) f g
live_Adds f g key b none h e = λ k. absurd cc
live_Adds f g key b (some live) h e = elim (Bool-cases (accepts f.config live b.opened)) [
  | inl home ↦
      let live2 = bucket_add_all live b.sightings in
      rw home (λ k.
        Adds-some (size b) f (record f { opens = put key live2 f.opens }) g k
          (
            omega (
              arith,
              total-put size key live2 f.opens,
              size-bucket_add_all live b.sightings,
              ap (weigh_or size) e,
            ),
            put-IsDict key live2 f.opens h,
          ))
  | inr not_home ↦ rw not_home (λ k. absurd cc)
]

-- An emission has its copies in the state, in the pending buckets and in the events so far.
abbrev emission_copies : Emission → ℕ
emission_copies em =
    copies_in em.fusion + list_total size em.pending + list_total event_copies em.out

abbrev Emits : ℕ → Emission → Emission → Type 0
Emits n em em2 = (emission_copies em2 ≡ emission_copies em + n) × IsDict em2.fusion.opens

one_event : (ev : FusedEvent) → list_total event_copies (ev ∷ []) ≡ event_copies ev
unfolding list_total
one_event ev = omega arith

finish_Emits :
    (em : Emission) (now : ℕ) (ev : FusedEvent)
    → IsDict em.fusion.opens
    → Emits (event_copies ev) em (append_finished em now ev)
unfolding finish
finish_Emits em now ev h = (
  omega (
    arith,
    list_total-append event_copies em.out ((finish em.fusion now ev).1 ∷ []),
    one_event (finish em.fusion now ev).1,
  ),
  h,
)

late_Emits :
    (em : Emission) (now : ℕ) (b : Bucket) (ev : FusedEvent)
    → IsDict em.fusion.opens
    → event_copies ev ≡ size b
    → Emits (size b) em (fold_late em now b ev)
late_Emits em now b ev h n =
    let seen = get (message_key ev.packet) em.fusion.closed in
    elim (Bool-cases (within em.fusion.config seen b.opened)) [
      | inl late ↦ rw late (omega (arith, late_all b.sightings em.fusion.late), h)
      | inr not_late ↦ let k = finish_Emits em now ev h in rw not_late (omega (arith, k.0, n), k.1)
    ]

open_Emits :
    (em : Emission) (now : ℕ) (b : Bucket) (ev : FusedEvent) (o : Option Fusion)
    → IsDict em.fusion.opens
    → event_copies ev ≡ size b
    → ((g : Fusion) → o ≡ some g → Adds (size b) em.fusion g)
    → Emits (size b) em (fold_open em now b ev o)
open_Emits em now b ev none h n live = late_Emits em now b ev h n
open_Emits em now b ev (some g) h n live = let k = live g refl in (omega (arith, k.0), k.1)

home_Emits :
    (em : Emission) (now : ℕ) (b : Bucket) (ev : FusedEvent) (o : Option (List Bucket))
    → IsDict em.fusion.opens
    → event_copies ev ≡ size b
    → ((hs : List Bucket) → o ≡ some hs → list_total size hs ≡ list_total size em.pending + size b)
    → Emits (size b) em (fold_home em now b ev o)
home_Emits em now b ev none h n pend =
    let key = message_key ev.packet in
    let live = get key em.fusion.opens in
    open_Emits em now b ev (fold_live em.fusion key b live) h n
      (λ g e. live_Adds em.fusion g key b live h refl e)
home_Emits em now b ev (some hs) h n pend = (omega (arith, pend hs refl), h)

event_Emits :
    (combined : Bool) (em : Emission) (now : ℕ) (b : Bucket) (ev : FusedEvent)
    → IsDict em.fusion.opens
    → event_copies ev ≡ size b
    → Emits (size b) em (emit_event combined em now b ev)
event_Emits false em now b ev h n = let k = finish_Emits em now ev h in (omega (arith, k.0, n), k.1)
event_Emits true em now b ev h n =
    let c = em.fusion.config in
    let key = message_key ev.packet in
    home_Emits em now b ev (fold_pending c key b em.pending) h n
      (λ hs e. pending_size c key b em.pending hs e)

bad_Emits :
    (em : Emission) (now : ℕ) (b : Bucket)
    → IsDict em.fusion.opens
    → Emits (size b) em (emit_bad em now b)
unfolding emit_bad
bad_Emits em now b h =
    let ev = build b em.fusion.config.allow_combine in
    event_Emits ev.combined em now b ev h (copies-build b em.fusion.config.allow_combine)

bads_Emits :
    (em : Emission) (now : ℕ) (bs : List Bucket)
    → IsDict em.fusion.opens
    → Emits (list_total size bs) em (emit_bads em now bs)
unfolding emit_bads list_total
bads_Emits em now [] h = (omega arith, h)
bads_Emits em now (b ∷ bs) h =
    let k = bad_Emits em now b h in
    let l = bads_Emits (emit_bad em now b) now bs k.1 in (omega (arith, k.0, l.0), l.1)

finish_all_lem :
    (f : Fusion) (now : ℕ) (bs : List Bucket)
    → IsDict f.opens
    → (copies_in (finish_all f now bs).0 ≡ copies_in f)
      × IsDict (finish_all f now bs).0.opens
      × (list_total event_copies (finish_all f now bs).1 ≡ list_total size bs)
unfolding finish_all list_total finish
finish_all_lem f now [] h = (refl, h, refl)
finish_all_lem f now (b ∷ bs) h =
    let ev = build b f.config.allow_combine in
    let l = finish_all_lem (finish f now ev).0 now bs h in
    (l.0, l.1, omega (arith, l.2, copies-build b f.config.allow_combine))

-- The copies of the emitted buckets are in the events, were counted as late or went to a bucket
-- that stays open.
pub emit_lem :
    (f : Fusion) (done : List Bucket) (now : ℕ)
    → IsDict f.opens
    → (list_total event_copies (emit f done now).1 + copies_in (emit f done now).0
        ≡ copies_in f + list_total size done)
      × IsDict (emit f done now).0.opens
unfolding emit list_total
emit_lem f done now h =
    let sorted = sort_buckets done in
    let em0 : Emission = record { fusion = f; pending = good_buckets sorted; out = [] } in
    let em = emit_bads em0 now (bad_buckets sorted) in
    let k = bads_Emits em0 now (bad_buckets sorted) h in
    let l = finish_all_lem em.fusion now em.pending k.1 in
    let es = (finish_all em.fusion now em.pending).1 in
    (
      omega (
        arith,
        sort_copies (em.out ++ es),
        list_total-append event_copies em.out es,
        l.0,
        l.2,
        k.0,
        parts_size sorted,
        sort_size done,
      ),
      l.1,
    )
