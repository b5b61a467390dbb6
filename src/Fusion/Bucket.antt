-- ===== src/Fusion/Bucket.antt =====
-- fusion.py: class _Bucket, the sightings of one message, and the event built from them.
use insteonrf.Common.{
  ℕ, ◌+◌, ◌-◌, ◌*◌, ◌==◌, ltb, leb, min, max, Bool, true, false, ◌&&◌, ◌||◌, if◌then◌else◌, Option,
  none, some, List, [], ◌∷◌, ◌++◌, length, list_eq,
}
use insteonrf.Common.Dict.{Dict, get, put}
use insteonrf.Manchester.{Bits}
use insteonrf.Packet.Fields.{Packet, crc_ok, hops_ok, hops_left, is_true, of_data}
use insteonrf.Plm.{message_key}
use insteonrf.Fusion.{Sighting, ReceiverView, new_view, FusedEvent}
use insteonrf.Fusion.Combine.{combine}

-- the settings that a bucket reads from its `Fusion`
pub record Config : Type 0 where
  pub window : ℕ
  pub extend : ℕ
  pub max_window : ℕ
  pub repeat_memory : ℕ
  pub allow_combine : Bool
  pub lateness : ℕ

pub record Bucket : Type 0 where
  pub key : List ℕ
  pub sightings : List Sighting
  pub opened : ℕ
  pub last : ℕ
  pub ref_bits : Bits
  pub has_good : Bool

-- `add`
unfoldable pub bucket_add : Bucket → Sighting → Bucket
bucket_add b s = record {
  sightings = b.sightings ++ s ∷ [];
  opened = min b.opened s.at;
  last = max b.last s.at;
  ref_bits = if ltb (length b.ref_bits) (length s.bits) then s.bits else b.ref_bits;
  has_good = is_true (crc_ok s.packet) || b.has_good;
  key = if is_true (crc_ok s.packet) then message_key s.packet else b.key;
}

-- `for s in sightings: home.add(s)`
unfoldable pub bucket_add_all : Bucket → List Sighting → Bucket
bucket_add_all b [] = b
bucket_add_all b (s ∷ ss) = bucket_add_all (bucket_add b s) ss

-- `_Bucket(key, first, cfg)`
unfoldable pub new_bucket : List ℕ → Sighting → Bucket
unfolding bucket_add
new_bucket key s =
    bucket_add
      (record {
        key = key;
        sightings = [];
        opened = s.at;
        last = s.at;
        ref_bits = s.bits;
        has_good = false;
      })
      s

unfoldable pub deadline : Config → Bucket → ℕ
deadline c b =
    min (b.last + c.window + c.extend * (length b.sightings - 1)) (b.opened + c.max_window)

unfoldable pub accepts : Config → Bucket → ℕ → Bool
unfolding deadline
accepts c b when = leb b.opened (when + c.window) && leb when (deadline c b)

-- `is_closed(now - lateness_s)`
unfoldable pub is_closed : Config → Bucket → ℕ → Bool
unfolding deadline
is_closed c b now = ltb (deadline c b + c.lateness) now

-- a signal strength, or -999
abbrev pub rssi_or : Option ℕ → ℕ
rssi_or none = 0
rssi_or (some r) = r

-- the louder of two, the first of which may be missing, as may the second
abbrev pub louder : Option ℕ → Option ℕ → Option ℕ
louder old none = old
louder none (some r) = some r
louder (some q) (some r) = some (max q r)

-- `s.packet.crc_ok is True and s.packet.hops_ok`
unfoldable pub is_good : Sighting → Bool
is_good s = is_true (crc_ok s.packet) && hops_ok s.packet

abbrev pub view_of : Option ReceiverView → ReceiverView
view_of none = new_view
view_of (some v) = v

unfoldable pub view_add : ReceiverView → Sighting → ReceiverView
view_add v s = record {
  copies = v.copies + 1;
  rssi = louder v.rssi s.rssi;
  crc_ok = is_good s || v.crc_ok;
  best_hops_left = max v.best_hops_left (hops_left s.packet);
}

-- the loop over the sightings at the start of `build`
unfoldable pub views_from : Dict (List ℕ) ReceiverView → List Sighting → Dict (List ℕ) ReceiverView
views_from views [] = views
views_from views (s ∷ ss) =
    views_from (put s.receiver (view_add (view_of (get s.receiver views)) s) views) ss

unfoldable pub good_of : List Sighting → List Sighting
good_of [] = []
good_of (s ∷ ss) = if is_good s then s ∷ good_of ss else good_of ss

-- `<` on the keys of `best`: not repaired, then hops-left, then signal strength
unfoldable pub worse : Sighting → Sighting → Bool
worse s t =
    let p = s.packet in
    let q = t.packet in
    if ltb 0 p.corrected && q.corrected == 0
    then true
    else if p.corrected == 0 && ltb 0 q.corrected
    then false
    else ltb (hops_left p) (hops_left q)
      || (hops_left p == hops_left q && ltb (rssi_or s.rssi) (rssi_or t.rssi))

-- `max(good, key=...)`: the first of the greatest
unfoldable pub best_of : Sighting → List Sighting → Sighting
best_of best [] = best
best_of best (s ∷ ss) = best_of (if worse best s then s else best) ss

-- `<` on the keys of `closest`
unfoldable pub farther : ReceiverView → ReceiverView → Bool
farther v w =
    ltb v.best_hops_left w.best_hops_left
    || (v.best_hops_left == w.best_hops_left && ltb (rssi_or v.rssi) (rssi_or w.rssi))

unfoldable pub closest_of : List ℕ × ReceiverView → Dict (List ℕ) ReceiverView → List ℕ
closest_of best [] = best.0
closest_of best (v ∷ views) = closest_of (if farther best.1 v.1 then v else best) views

abbrev pub closest : Dict (List ℕ) ReceiverView → Option (List ℕ)
closest [] = none
closest (v ∷ views) = some (closest_of v views)

-- `min` and `max` of the hops-left
unfoldable pub hops_min : ℕ → List Sighting → ℕ
hops_min least [] = least
hops_min least (s ∷ ss) = hops_min (min least (hops_left s.packet)) ss

unfoldable pub hops_max : List Sighting → ℕ
hops_max [] = 0
hops_max (s ∷ ss) = max (hops_left s.packet) (hops_max ss)

-- a bucket is never empty: `sightings[0]`
abbrev pub first_packet : List Sighting → Packet
first_packet [] = of_data []
first_packet (s ∷ ss) = s.packet

-- the packet of the event, with `combined` and `combined_from`
abbrev pub combined_packet : List Sighting → Option (Packet × ℕ) → Packet × Bool × ℕ
combined_packet ss none = (first_packet ss, false, 0)
combined_packet ss (some got) = (got.0, true, got.1)

abbrev pub chosen_from : Bool → List Sighting → List Sighting → Packet × Bool × ℕ
chosen_from allow ss (g ∷ good) = ((best_of g good).packet, false, 0)
chosen_from allow ss [] = combined_packet ss (if allow then combine ss else none)

unfoldable pub chosen : Bool → List Sighting → Packet × Bool × ℕ
chosen allow ss = chosen_from allow ss (good_of ss)

unfoldable pub build : Bucket → Bool → FusedEvent
build b allow =
    let views = views_from [] b.sightings in
    let pick = chosen allow b.sightings in
    record {
      key = b.key;
      packet = pick.0;
      first_seen = b.opened;
      last_seen = b.last;
      hops_left_min = hops_min (hops_max b.sightings) b.sightings;
      hops_left_max = hops_max b.sightings;
      receivers = views;
      closest = closest views;
      combined = pick.1;
      combined_from = pick.2;
      repeat_index = 0;
      plm_saw_it = none;
    }
