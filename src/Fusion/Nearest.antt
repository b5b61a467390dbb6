-- ===== src/Fusion/Nearest.antt =====
-- fusion.py, `Fusion._nearest`: which open bucket a copy may join by the likeness of its bits.
use insteonrf.Common.{
  ℕ, ◌≤◌, ◌+◌, ◌≡◌, refl, arith, true, false, ◌&&◌, Option, none, some, List, [], ◌∷◌, list_eq,
  Bool-cases, inl, inr, ◌∙◌, ap, sym,
}
use insteonrf.Common.Dict.{Dict, get, IsDict}
use insteonrf.Packet.Fields.{crc_ok, is_true}
use insteonrf.Fusion.{Sighting, hamming, max_disagreements}
use insteonrf.Fusion.Bucket.{Config, Bucket, accepts}
use insteonrf.Fusion.Collect.{Fusion, nearest, nearest_loop, distance, is_closer, count_or}
use insteonrf.Fusion.Counts.{nearest-get}

-- at most `n`
abbrev pub Within : ℕ → Option ℕ → Type 0
Within n none = ⊥
Within n (some d) = d ≤ n

-- what `_nearest` asks of a bucket
abbrev pub IsNear : Config → Sighting → Bucket → Type 0
IsNear c s b =
    (accepts c b s.at ≡ true)
    × ((is_true (crc_ok s.packet) && b.has_good) ≡ false)
    × Within max_disagreements (hamming s.bits b.ref_bits (some max_disagreements))

closer_Within : (d : Option ℕ) (best_d : ℕ) → is_closer d best_d ≡ true → Within max_disagreements d
closer_Within none best_d h = absurd cc
closer_Within (some d) best_d h = ground arith

closer_IsNear :
    (c : Config) (s : Sighting) (b : Bucket) (best_d : ℕ)
    → is_closer (distance c s b) best_d ≡ true
    → IsNear c s b
unfolding distance
closer_IsNear c s b best_d = elim (Bool-cases (is_true (crc_ok s.packet) && b.has_good)) [
  | inl both ↦ rw both (λ h. absurd cc)
  | inr apart ↦ elim (Bool-cases (accepts c b s.at)) [
    | inr late ↦ rw apart (rw late (λ h. absurd cc))
    | inl fits ↦ rw apart (rw fits (λ h. (refl, refl, closer_Within _ best_d h)))
  ]
]

same_IsNear : (c : Config) (s : Sighting) (g b : Bucket) → g ≡ b → IsNear c s g → IsNear c s b
same_IsNear c s g b e h = (
  ap (λ x. accepts c x s.at) (sym e) ∙ h.0,
  ap (λ x. is_true (crc_ok s.packet) && x.has_good) (sym e) ∙ h.1,
  rw (ap (λ x. hamming s.bits x.ref_bits (some max_disagreements)) (sym e)) h.2,
)

loop_IsNear :
    (c : Config) (s : Sighting) (opens : Dict (List ℕ) Bucket) (best : Option (List ℕ × Bucket))
    (best_d : ℕ) (k : List ℕ) (b : Bucket)
    → ((j : List ℕ) (g : Bucket) → best ≡ some (j, g) → IsNear c s g)
    → nearest_loop c s opens best best_d ≡ some (k, b)
    → IsNear c s b
unfolding nearest_loop
loop_IsNear c s [] best best_d k b h = h k b
loop_IsNear c s ((j, g) ∷ opens) best best_d k b h =
    elim (Bool-cases (is_closer (distance c s g) best_d)) [
      | inr far ↦ rw far (loop_IsNear c s opens best best_d k b h)
      | inl near ↦ rw near (
          loop_IsNear c s opens (some (j, g)) (count_or (distance c s g)) k b (λ i e q.
            let r : g ≡ e = ap (λ o. elim o [ none ↦ g | some x ↦ x.1 ]) q in
            same_IsNear c s g e r (closer_IsNear c s g best_d near)))
    ]

-- A copy joins an open bucket by likeness only when the bucket takes copies of its time, at most
-- one of the two is verified, and the bits differ in at most the allowed number of places; the
-- bucket is one that stands open under its key.
pub nearest-IsNear :
    (f : Fusion) (s : Sighting) (k : List ℕ) (b : Bucket)
    → IsDict f.opens
    → nearest f s ≡ some (k, b)
    → (get k f.opens ≡ some b) × IsNear f.config s b
unfolding nearest
nearest-IsNear f s k b h e = (
  nearest-get f s k b h e,
  loop_IsNear f.config s f.opens none (max_disagreements + 1) k b (λ j g q. absurd cc) e,
)
