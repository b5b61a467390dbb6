-- ===== src/Fusion/Collect.antt =====
-- fusion.py: class Fusion, without the correction of clocks (`skew` is None) and the statistics of
-- delays. Buckets are values: a bucket is changed where the state holds it.
use insteonrf.Common.{
  ℕ, ◌+◌, ltb, leb, Bool, false, not, ◌&&◌, ◌||◌, if◌then◌else◌, Option, none, some, List, [], ◌∷◌,
  ◌++◌, list_eq,
}
use insteonrf.Common.Dict.{Dict, get, put, erase, purge}
use insteonrf.Packet.Fields.{crc_ok, is_true}
use insteonrf.Plm.{message_key}
use insteonrf.Fusion.{Sighting, FusedEvent, hamming, max_disagreements}
use insteonrf.Fusion.Bucket.{Config, Bucket, bucket_add, new_bucket, accepts}

-- what is remembered of a closed key: when, the repeat index, and the span on the air
pub record Closed : Type 0 where
  pub at : ℕ
  pub index : ℕ
  pub first : ℕ
  pub last : ℕ

pub record Fusion : Type 0 where
  pub config : Config
  pub opens : Dict (List ℕ) Bucket
  pub ready : List Bucket
  pub closed : Dict (List ℕ) Closed
  pub late : Dict (List ℕ) ℕ
  pub folds : ℕ

-- `Fusion(...)`
abbrev pub new_fusion : Config → Fusion
new_fusion c = record { config = c; opens = []; ready = []; closed = []; late = []; folds = 0 }

abbrev pub count_or : Option ℕ → ℕ
count_or none = 0
count_or (some n) = n

-- `self.late[r] = self.late.get(r, 0) + 1`
unfoldable pub add_late : List ℕ → Dict (List ℕ) ℕ → Dict (List ℕ) ℕ
add_late r late = put r (count_or (get r late) + 1) late

-- a time within the span of a closed message, a window to either side
abbrev pub within : Config → Option Closed → ℕ → Bool
within c none when = false
within c (some seen) when = leb seen.first (when + c.window) && leb when (seen.last + c.window)

-- `_is_straggler`
unfoldable pub is_straggler : Fusion → List ℕ → Sighting → Bool
is_straggler f key s = is_true (crc_ok s.packet) && within f.config (get key f.closed) s.at

-- the distance to a bucket that may be the same transmission
unfoldable pub distance : Config → Sighting → Bucket → Option ℕ
distance c s b =
    if (is_true (crc_ok s.packet) && b.has_good) || not (accepts c b s.at)
    then none
    else hamming s.bits b.ref_bits (some max_disagreements)

-- `d is not None and d <= MAX_DISAGREEMENTS and d < best_d`
abbrev pub is_closer : Option ℕ → ℕ → Bool
is_closer none best_d = false
is_closer (some d) best_d = leb d max_disagreements && ltb d best_d

-- the loop of `_nearest`, over the open buckets under their keys
unfoldable pub nearest_loop :
    Config
    → Sighting
    → Dict (List ℕ) Bucket
    → Option (List ℕ × Bucket)
    → ℕ
    → Option (List ℕ × Bucket)
nearest_loop c s [] best best_d = best
nearest_loop c s ((key, b) ∷ opens) best best_d =
    let d = distance c s b in
    if is_closer d best_d
    then nearest_loop c s opens (some (key, b)) (count_or d)
    else nearest_loop c s opens best best_d

-- `_nearest`
unfoldable pub nearest : Fusion → Sighting → Option (List ℕ × Bucket)
nearest f s = nearest_loop f.config s f.opens none (max_disagreements + 1)

-- the end of `add`: into the nearest bucket, or one of its own
abbrev pub join_at : Fusion → List ℕ → Option (List ℕ × Bucket) → Sighting → Fusion
join_at f key (some near) s = record f { opens = put near.0 (bucket_add near.1 s) f.opens }
join_at f key none s = record f { opens = put key (new_bucket key s) f.opens }

abbrev pub join : Fusion → List ℕ → Sighting → Fusion
join f key s = join_at f key (if f.config.allow_combine then nearest f s else none) s

-- `add`, at what is open under the key of the sighting
abbrev pub add_at : Fusion → List ℕ → Option Bucket → Sighting → Fusion
add_at f key none s =
    if is_straggler f key s then record f { late = add_late s.receiver f.late } else join f key s
add_at f key (some b) s =
    if accepts f.config b s.at
    then record f { opens = put key (bucket_add b s) f.opens }
    else join (record f { opens = erase key f.opens; ready = f.ready ++ b ∷ [] }) key s

unfoldable pub add : Fusion → Sighting → Fusion
add f s = let key = message_key s.packet in add_at f key (get key f.opens) s

-- `now - when > self.repeat_memory_s`
abbrev pub is_old : Config → ℕ → Closed → Bool
is_old c now seen = ltb (seen.at + c.repeat_memory) now

-- `_forget_old`
unfoldable pub forget_old : Fusion → ℕ → Fusion
forget_old f now = record f { closed = purge (is_old f.config now) f.closed }

abbrev pub next_index : Option Closed → ℕ
next_index none = 0
next_index (some seen) = seen.index + 1

-- `_finish`, of the event that the bucket gives
unfoldable pub finish : Fusion → ℕ → FusedEvent → Fusion × FusedEvent
finish f now ev =
    let key = if ev.combined then message_key ev.packet else ev.key in
    let index = next_index (get key f.closed) in
    (
      record f {
        closed =
            put key (record { at = now; index = index; first = ev.first_seen; last = ev.last_seen })
              f.closed;
      },
      record ev { key = key; repeat_index = index },
    )

-- `sorted(done, key=lambda b: b.opened)`
unfoldable pub insert_bucket : Bucket → List Bucket → List Bucket
insert_bucket b [] = b ∷ []
insert_bucket b (c ∷ cs) = if leb b.opened c.opened then b ∷ c ∷ cs else c ∷ insert_bucket b cs

unfoldable pub sort_buckets : List Bucket → List Bucket
sort_buckets [] = []
sort_buckets (b ∷ bs) = insert_bucket b (sort_buckets bs)

-- `out.sort(key=lambda e: e.first_seen)`
unfoldable pub insert_event : FusedEvent → List FusedEvent → List FusedEvent
insert_event e [] = e ∷ []
insert_event e (g ∷ gs) =
    if leb e.first_seen g.first_seen then e ∷ g ∷ gs else g ∷ insert_event e gs

unfoldable pub sort_events : List FusedEvent → List FusedEvent
sort_events [] = []
sort_events (e ∷ es) = insert_event e (sort_events es)

-- the buckets with a verified copy, and those without one
unfoldable pub good_buckets : List Bucket → List Bucket
good_buckets [] = []
good_buckets (b ∷ bs) = if b.has_good then b ∷ good_buckets bs else good_buckets bs

unfoldable pub bad_buckets : List Bucket → List Bucket
bad_buckets [] = []
bad_buckets (b ∷ bs) = if b.has_good then bad_buckets bs else b ∷ bad_buckets bs
