-- ===== src/Fusion/Tests.antt =====
-- The distance of two strings of 200 bits.
use insteonrf.Common.Int.{ℤ, pos, negsuc, ltb_ℤ, ◌+ℤ◌, ◌-ℤ◌}
use insteonrf.Common.Dict.{Dict, get, IsDict}
use insteonrf.Fusion.Skew.{Number, new_skew, offset}
use insteonrf.Fusion.Skew.Bounded.{IsWithin, HasSamples}
use insteonrf.Fusion.Skew.Learned.{learn_all, learn_all-limits}
use insteonrf.Common.{
  length, zero, suc, ◌/◌, ◌+◌, ◌≤◌, ◌⊎◌, not, false, true, List, ℕ, Bool, All, drop, arith, ◌≡◌,
  none, some, min, replicate, [], ◌∷◌, inl, refl, list_eq, Result, ok, raise,
}
use insteonrf.Fusion.Capture.{Source, sightings_from_capture}
use insteonrf.Fusion.Capture.Credible.{IsSighted, sightings-IsSighted}
use insteonrf.Fusion.Capture.Clean.{sightings-to_bits}
use insteonrf.Packet.Samples.{on_octets, on_length, on_line, on_crc, on_packet}
use insteonrf.Packet.Frames.{find_headers, to_bits}
use insteonrf.Manchester.{invert_bits, Bits, zero, one}
use insteonrf.Common.Totals.{list_total}
use insteonrf.Packet.Fields.{of_data, crc_ok, hops_ok}
use insteonrf.Fusion.Combine.{is_sound}
use insteonrf.Fusion.Bucket.{good_of, Config, Bucket, bucket_add, new_bucket, is_good, worse, build}
use insteonrf.Plm.{message_key}
use insteonrf.Fusion.{
  Sighting, sighting, default_window, default_extend, default_max_window, default_repeat_memory,
  hamming,
}
use insteonrf.Fusion.Collect.{Fusion, new_fusion, add, nearest}
use insteonrf.Fusion.Counts.{event_copies, late_total}
use insteonrf.Fusion.Emit.{fuse_all}
use insteonrf.Fusion.Emit.Drained.{IsDrained}
use insteonrf.Fusion.Emit.Conserved.{fuse_all-copies}
use insteonrf.Fusion.Verified.{In, build-verified, build-combined}
use insteonrf.Fusion.Nearest.{IsNear, nearest-IsNear}

abbrev zeros : Bits
zeros = replicate 200 zero

abbrev ones : Bits
ones = replicate 200 one

abbrev config : Config
config = record {
  window = default_window;
  extend = default_extend;
  max_window = default_max_window;
  repeat_memory = default_repeat_memory;
  allow_combine = true;
  lateness = 0;
}

abbrev kitchen : List ℕ
kitchen = 107 ∷ []

abbrev garage : List ℕ
garage = 103 ∷ []

abbrev near_copy : Sighting
near_copy = sighting on_packet kitchen (some 940) 1_000_000 zeros

abbrev far_copy : Sighting
far_copy = sighting on_packet garage (some 910) 1_050_000 zeros

abbrev bad_copy : Sighting
bad_copy = sighting (of_data (15 ∷ 102 ∷ 85 ∷ [])) garage none 1_100_000 zeros

abbrev both : Bucket
both = bucket_add (new_bucket (message_key on_packet) near_copy) far_copy

fuse_all-copies_example :
    IsDrained (fuse_all config (near_copy ∷ far_copy ∷ bad_copy ∷ [])).0
    × (list_total event_copies (fuse_all config (near_copy ∷ far_copy ∷ bad_copy ∷ [])).1
          + late_total (fuse_all config (near_copy ∷ far_copy ∷ bad_copy ∷ [])).0.late
        ≡ 3)
fuse_all-copies_example = fuse_all-copies config (near_copy ∷ far_copy ∷ bad_copy ∷ [])

near_good : is_good near_copy ≡ true
unfolding is_good crc_ok hops_ok insteonrf.Packet.Fields.crc insteonrf.Packet.Fields.calc_crc
    insteonrf.Packet.Crc.pkt_crc insteonrf.Packet.Crc.crc_loop insteonrf.Packet.Crc.crc_mix
near_good = refl

near_In : In near_copy both.sightings
unfolding new_bucket bucket_add
near_In = inl refl

build-verified_example :
    (s : Sighting) × In s both.sightings
    × (is_good s ≡ true)
    × ((build both true).packet ≡ s.packet)
    × ((build both true).combined ≡ false)
    × ((u : Sighting) → In u both.sightings → is_good u ≡ true → worse s u ≡ false)
build-verified_example = build-verified both true near_copy near_In near_good

abbrev opened : Fusion
opened = add (new_fusion config) near_copy

opened_found :
    nearest opened bad_copy
    ≡ some (message_key on_packet, new_bucket (message_key on_packet) near_copy)
unfolding nearest insteonrf.Fusion.Collect.nearest_loop add get
    insteonrf.Fusion.Collect.is_straggler crc_ok insteonrf.Packet.Fields.crc
    insteonrf.Packet.Fields.calc_crc insteonrf.Packet.Crc.pkt_crc insteonrf.Packet.Crc.crc_loop
    insteonrf.Packet.Crc.crc_mix insteonrf.Common.Dict.put insteonrf.Fusion.Collect.distance
    insteonrf.Fusion.Bucket.accepts new_bucket hamming insteonrf.Fusion.hamming_loop
opened_found = refl

opened-IsDict : IsDict opened.opens
unfolding IsDict add get insteonrf.Fusion.Collect.is_straggler crc_ok insteonrf.Packet.Fields.crc
    insteonrf.Packet.Fields.calc_crc insteonrf.Packet.Crc.pkt_crc insteonrf.Packet.Crc.crc_loop
    insteonrf.Packet.Crc.crc_mix nearest insteonrf.Fusion.Collect.nearest_loop
    insteonrf.Common.Dict.put
opened-IsDict = (refl, tt)

nearest-IsNear_example :
    (get (message_key on_packet) opened.opens ≡ some (new_bucket (message_key on_packet) near_copy))
    × IsNear config bad_copy (new_bucket (message_key on_packet) near_copy)
unfolding add get insteonrf.Fusion.Collect.is_straggler crc_ok insteonrf.Packet.Fields.crc
    insteonrf.Packet.Fields.calc_crc insteonrf.Packet.Crc.pkt_crc insteonrf.Packet.Crc.crc_loop
    insteonrf.Packet.Crc.crc_mix nearest insteonrf.Fusion.Collect.nearest_loop
nearest-IsNear_example =
    nearest-IsNear opened bad_copy (message_key on_packet)
      (new_bucket (message_key on_packet) near_copy) opened-IsDict opened_found

abbrev capture : Bits
capture = elim (to_bits on_packet false) [ ok bits ↦ bits | raise e ↦ [] ]

abbrev torn : Bucket
torn =
    bucket_add
      (new_bucket [] (sighting (of_data (15 ∷ 102 ∷ 85 ∷ [])) kitchen none 1_000_000 capture))
      (sighting (of_data (15 ∷ 102 ∷ 85 ∷ [])) garage none 1_050_000 capture)

torn_combined : (build torn true).combined ≡ true
unfolding insteonrf.Common.list_beq insteonrf.Packet.Fields.crc insteonrf.Packet.Fields.calc_crc
    insteonrf.Packet.Crc.pkt_crc insteonrf.Packet.Crc.crc_loop insteonrf.Packet.Crc.crc_mix
    insteonrf.Packet.Fields.extended insteonrf.Packet.Fields.ext_crc_ok crc_ok hops_ok is_good
    good_of bucket_add new_bucket build insteonrf.Fusion.Bucket.chosen to_bits
    insteonrf.Manchester.manchester_encode insteonrf.Manchester.manchester_decode
    insteonrf.Manchester.encode_bit insteonrf.Manchester.decode_pair insteonrf.Manchester.cell_beq
    insteonrf.Manchester.invert_bits insteonrf.Manchester.invert_bit
    insteonrf.Packet.Frames.alternate insteonrf.Packet.Frames.trailer
    insteonrf.Packet.Frames.low_bits insteonrf.Packet.Frames.bits_int
    insteonrf.Packet.Frames.count_on insteonrf.Packet.Frames.index_at
    insteonrf.Packet.Frames.encode_frames insteonrf.Packet.Frames.decode_loop
    insteonrf.Packet.Frames.decode_frames insteonrf.Packet.Frames.expected_indexes
    insteonrf.Packet.Frames.count_down insteonrf.Packet.Frames.indexes_ok
    insteonrf.Packet.Frames.starts_with insteonrf.Packet.Frames.find_first
    insteonrf.Packet.Frames.find_from insteonrf.Packet.Frames.header_loop
    insteonrf.Packet.Frames.find_headers insteonrf.Packet.Frames.packet_at
    insteonrf.Packet.Frames.parse_at insteonrf.Packet.Frames.parse_bits
    insteonrf.Fusion.Combine.runs_of insteonrf.Fusion.Combine.width_of
    insteonrf.Fusion.Combine.column insteonrf.Fusion.Combine.tails insteonrf.Fusion.Combine.ones
    insteonrf.Fusion.Combine.decide insteonrf.Fusion.Combine.split
    insteonrf.Fusion.Combine.vote_from insteonrf.Fusion.Combine.vote is_sound
    insteonrf.Fusion.Combine.first_sound insteonrf.Fusion.Combine.accept
    insteonrf.Fusion.Combine.settle_vote insteonrf.Fusion.Combine.combine
torn_combined = refl

build-combined_example :
    (is_sound (build torn true).packet ≡ true)
    × ((build torn true).combined_from ≡ 2)
    × (good_of torn.sightings ≡ [])
unfolding bucket_add new_bucket
build-combined_example = build-combined torn true torn_combined

abbrev source : Source
source = record { receiver = kitchen; rssi = some 940; timestamp = 1_000_000; min_bytes = 4 }

sightings-IsSighted_example :
    All
      (IsSighted source (find_headers on_line.0).0 (find_headers on_line.0).1)
      (sightings_from_capture source on_line.0)
sightings-IsSighted_example = sightings-IsSighted source on_line.0

sightings-to_bits_example :
    (s : Sighting) × (more : List Sighting) × (sightings_from_capture source on_line.0 ≡ s ∷ more)
    × (sightings_from_capture source (invert_bits on_line.0) ≡ s ∷ more)
    × (s.packet.bytes ≡ on_packet.bytes)
    × (s.packet.complete ≡ true)
    × (s.packet.index_ok ≡ some true)
    × (s.packet.corrected ≡ 0)
    × (s.receiver ≡ source.receiver)
    × (s.at ≡ source.timestamp + 1644)
    × (s.bits ≡ drop 15 on_line.0)
sightings-to_bits_example =
    sightings-to_bits source on_packet on_octets on_length (omega arith) on_crc on_line.1

-- whole microseconds as the numbers of the clocks
abbrev leb_ℤ : ℤ → ℤ → Bool
leb_ℤ a b = not (ltb_ℤ b a)

abbrev negative : ℤ → ℤ
negative (pos zero) = pos 0
negative (pos (suc n)) = negsuc n
negative (negsuc n) = pos (n + 1)

abbrev half : ℤ → ℤ
half (pos n) = pos (n / 2)
half (negsuc n) = negsuc (n / 2)

total_ℤ : (a b : ℤ) → leb_ℤ a b ≡ false → leb_ℤ b a ≡ true
total_ℤ a b h = ground arith

abbrev micros : Number
micros = record {
  Value = ℤ;
  nought = pos 0;
  minus = ◌-ℤ◌;
  negated = negative;
  mean = λ a b. half (a +ℤ b);
  leq = leb_ℤ;
  total = total_ℤ;
}

-- a message that two receivers placed half a second apart, three times
abbrev shared : List (Dict (List ℕ) ℤ)
shared =
    let raw = (107 ∷ [], pos 1_000_000) ∷ (108 ∷ [], pos 1_500_000) ∷ [] in raw ∷ raw ∷ raw ∷ []

learn_all-limits_example :
    let s = learn_all micros (new_skew micros 2 2 (pos 200_000)) shared in
    ((q : List ℤ) → get (108 ∷ []) s.samples ≡ some q → length q ≤ 2)
    × ((offset micros s (108 ∷ []) ≡ pos 0)
        ⊎ (IsWithin micros (pos 200_000) (offset micros s (108 ∷ []))
            × HasSamples micros 2 s.samples (108 ∷ [])))
learn_all-limits_example = learn_all-limits micros 2 2 (pos 200_000) shared (108 ∷ []) refl
