-- ===== src/Fusion/Counts.antt =====
-- fusion.py, class Fusion: the copies that a state holds, and what adding a sighting changes.
use insteonrf.Common.{
  list_beq_refl, list_beq_iff, ◌⊎◌, ℕ, ◌+◌, ◌≡◌, refl, arith, Bool, true, false, if◌then◌else◌,
  Option, none, some, List, [], ◌∷◌, ◌++◌, length, length-append, list_eq, Bool-cases, inl, inr, ap,
}
use insteonrf.Common.Dict.{Dict, get, put, erase, IsDict, put-IsDict}
use insteonrf.Common.Totals.{
  list_total, list_total-append, total, weigh_or, total-put, total-erase, erase-IsDict,
  get-erase_self,
}
use insteonrf.Plm.{message_key}
use insteonrf.Fusion.{Sighting, FusedEvent, ReceiverView, max_disagreements}
use insteonrf.Fusion.Bucket.{
  Config, Bucket, bucket_add, bucket_add_all, new_bucket, accepts, views_from, view_add, view_of,
  build,
}
use insteonrf.Fusion.Collect.{
  join_at, Fusion, add, add_at, join, add_late, count_or, nearest, nearest_loop, distance,
  is_closer, is_straggler,
}

-- the copies in a bucket, in a state, and in an event
abbrev pub size : Bucket → ℕ
size b = length b.sightings

abbrev pub late_total : Dict (List ℕ) ℕ → ℕ
late_total late = total (λ n. n) late

-- the copies that are held or were counted as late
abbrev pub copies_in : Fusion → ℕ
copies_in f = total size f.opens + list_total size f.ready + late_total f.late

abbrev pub event_copies : FusedEvent → ℕ
event_copies ev = total (λ v. v.copies) ev.receivers

pub size-bucket_add : (b : Bucket) (s : Sighting) → size (bucket_add b s) ≡ size b + 1
unfolding bucket_add
size-bucket_add b s = length-append b.sightings (s ∷ [])

pub size-bucket_add_all :
    (b : Bucket) (ss : List Sighting) → size (bucket_add_all b ss) ≡ size b + length ss
unfolding bucket_add_all
size-bucket_add_all b [] = omega arith
size-bucket_add_all b (s ∷ ss) =
    omega (arith, size-bucket_add_all (bucket_add b s) ss, size-bucket_add b s)

pub size-new_bucket : (key : List ℕ) (s : Sighting) → size (new_bucket key s) ≡ 1
unfolding new_bucket bucket_add
size-new_bucket key s = refl

count_or_lem : (o : Option ℕ) → count_or o ≡ weigh_or (λ n. n) o
count_or_lem none = refl
count_or_lem (some n) = refl

pub late_total-add_late :
    (r : List ℕ) (late : Dict (List ℕ) ℕ) → late_total (add_late r late) ≡ late_total late + 1
unfolding add_late
late_total-add_late r late =
    omega (arith, total-put (λ n. n) r (count_or (get r late) + 1) late, count_or_lem (get r late))

view_copies :
    (o : Option ReceiverView) (s : Sighting)
    → (view_add (view_of o) s).copies ≡ weigh_or (λ v. v.copies) o + 1
unfolding view_add
view_copies none s = refl
view_copies (some v) s = refl

views_total :
    (views : Dict (List ℕ) ReceiverView) (ss : List Sighting)
    → total (λ v. v.copies) (views_from views ss) ≡ total (λ v. v.copies) views + length ss
unfolding views_from
views_total views [] = omega arith
views_total views (s ∷ ss) =
    let r = get s.receiver views in
    omega (
      arith,
      views_total (put s.receiver (view_add (view_of r) s) views) ss,
      total-put (λ v. v.copies) s.receiver (view_add (view_of r) s) views,
      view_copies r s,
    )

pub copies-build : (b : Bucket) (allow : Bool) → event_copies (build b allow) ≡ size b
unfolding build total
copies-build b allow = omega (arith, views_total [] b.sightings)

tail_IsDict :
    (j : List ℕ) (g : Bucket) (opens : Dict (List ℕ) Bucket)
    → IsDict ((j, g) ∷ opens)
    → IsDict opens
unfolding IsDict
tail_IsDict j g opens h = h.1

get_head :
    (j k : List ℕ) (g b : Bucket) (opens : Dict (List ℕ) Bucket)
    → ◌≡◌ {A = Option (List ℕ × Bucket)} (some (j, g)) (some (k, b))
    → get k ((j, g) ∷ opens) ≡ some b
unfolding get
get_head j k g b opens e = ground (arith, list_beq_refl j, e)

get_tail :
    (j k : List ℕ) (g b : Bucket) (opens : Dict (List ℕ) Bucket)
    → IsDict ((j, g) ∷ opens)
    → get k opens ≡ some b
    → get k ((j, g) ∷ opens) ≡ some b
unfolding get IsDict
get_tail j k g b opens h e = ground (arith, list_beq_iff j k, h.0, e)

only_if :
    {A : Type 0} (c : Bool) (o : Option A) (a : A) → (if c then o else none) ≡ some a → o ≡ some a
only_if true o a e = e
only_if false o a e = absurd cc

-- What the search for the nearest bucket finds is open under its key.
nearest_loop-get :
    (c : Config) (s : Sighting) (opens : Dict (List ℕ) Bucket) (best : Option (List ℕ × Bucket))
    (best_d : ℕ) (k : List ℕ) (b : Bucket)
    → IsDict opens
    → nearest_loop c s opens best best_d ≡ some (k, b)
    → (best ≡ some (k, b)) ⊎ (get k opens ≡ some b)
unfolding nearest_loop
nearest_loop-get c s [] best best_d k b h = inl
nearest_loop-get c s ((j, g) ∷ opens) best best_d k b h =
    elim (Bool-cases (is_closer (distance c s g) best_d)) [
      | inl near ↦ rw near (λ e.
          elim (nearest_loop-get c s opens (some (j, g)) (count_or (distance c s g)) k b
            (tail_IsDict j g opens h) e) [
              | inl new ↦ inr (get_head j k g b opens new)
              | inr old ↦ inr (get_tail j k g b opens h old)
            ])
      | inr far ↦ rw far (λ e.
          elim (nearest_loop-get c s opens best best_d k b (tail_IsDict j g opens h) e) [
            | inl new ↦ inl new
            | inr old ↦ inr (get_tail j k g b opens h old)
          ])
    ]

pub nearest-get :
    (f : Fusion) (s : Sighting) (k : List ℕ) (b : Bucket)
    → IsDict f.opens
    → nearest f s ≡ some (k, b)
    → get k f.opens ≡ some b
unfolding nearest
nearest-get f s k b h e =
    elim (nearest_loop-get f.config s f.opens none (max_disagreements + 1) k b h e) [
      | inl new ↦ absurd cc
      | inr old ↦ old
    ]

pub ready_one : (b : Bucket) → list_total size (b ∷ []) ≡ size b
unfolding list_total
ready_one b = omega arith

-- A step of the state keeps its open keys distinct and its copies, but for those that it adds.
abbrev pub Adds : ℕ → Fusion → Fusion → Type 0
Adds n f g = (copies_in g ≡ copies_in f + n) × IsDict g.opens

join-Adds :
    (f : Fusion) (key : List ℕ) (o : Option (List ℕ × Bucket)) (s : Sighting)
    → IsDict f.opens
    → get key f.opens ≡ none
    → ((k : List ℕ) (b : Bucket) → o ≡ some (k, b) → get k f.opens ≡ some b)
    → Adds 1 f (join_at f key o s)
join-Adds f key none s h absent found = (
  omega (
    arith,
    total-put size key (new_bucket key s) f.opens,
    size-new_bucket key s,
    ap (weigh_or size) absent,
  ),
  put-IsDict key (new_bucket key s) f.opens h,
)
join-Adds f key (some (k, b)) s h absent found = (
  omega (
    arith,
    total-put size k (bucket_add b s) f.opens,
    size-bucket_add b s,
    ap (weigh_or size) (found k b refl),
  ),
  put-IsDict k (bucket_add b s) f.opens h,
)

join_near :
    (f : Fusion) (key : List ℕ) (s : Sighting)
    → IsDict f.opens
    → get key f.opens ≡ none
    → Adds 1 f (join f key s)
join_near f key s h absent =
    join-Adds f key (if f.config.allow_combine then nearest f s else none) s h absent
      (λ k b e. nearest-get f s k b h (only_if f.config.allow_combine (nearest f s) (k, b) e))

add_at-Adds :
    (f : Fusion) (key : List ℕ) (o : Option Bucket) (s : Sighting)
    → IsDict f.opens
    → get key f.opens ≡ o
    → Adds 1 f (add_at f key o s)
add_at-Adds f key none s h e = elim (Bool-cases (is_straggler f key s)) [
  | inl late ↦ rw late (omega (arith, late_total-add_late s.receiver f.late), h)
  | inr live ↦ rw live (join_near f key s h e)
]
add_at-Adds f key (some b) s h e = elim (Bool-cases (accepts f.config b s.at)) [
  | inl taken ↦ rw taken (
    omega (
      arith,
      total-put size key (bucket_add b s) f.opens,
      size-bucket_add b s,
      ap (weigh_or size) e,
    ),
    put-IsDict key (bucket_add b s) f.opens h,
  )
  | inr past ↦
      let g = record f { opens = erase key f.opens; ready = f.ready ++ b ∷ [] } in
      let k = join_near g key s (erase-IsDict key f.opens h) (get-erase_self key f.opens h) in
      rw past (
        omega (
          arith,
          k.0,
          total-erase size key f.opens,
          list_total-append size f.ready (b ∷ []),
          ready_one b,
          ap (weigh_or size) e,
        ),
        k.1,
      )
]

-- A sighting is held or counted as late, once, and nothing else is lost or gained.
pub add-Adds : (f : Fusion) (s : Sighting) → IsDict f.opens → Adds 1 f (add f s)
unfolding add
add-Adds f s h = add_at-Adds f (message_key s.packet) (get (message_key s.packet) f.opens) s h refl
