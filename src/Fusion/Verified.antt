-- ===== src/Fusion/Verified.antt =====
-- fusion.py: whose packet a bucket's event carries, and which bucket a copy joins by likeness.
use insteonrf.Common.{
  ◌≡◌, ◌⊎◌, refl, arith, Bool, true, false, if◌then◌else◌, List, [], ◌∷◌, length, list_eq,
  Bool-cases, Option-cases, inl, inr, ◌∙◌, ap, sym,
}
use insteonrf.Fusion.{Sighting}
use insteonrf.Fusion.Combine.{combine, is_sound}
use insteonrf.Fusion.Bucket.{Bucket, is_good, good_of, worse, best_of, chosen, chosen_from, build}
use insteonrf.Fusion.Sound.{combine_sound}

-- The fold of `max` keeps its best so far or takes one from the list, and none of them is better.
worse_chain : (r a b : Sighting) → worse a b ≡ true → worse r b ≡ false → worse r a ≡ false
unfolding worse
worse_chain r a b h k = ground arith

worse_up : (a s t : Sighting) → worse a s ≡ true → worse a t ≡ false → worse s t ≡ false
unfolding worse
worse_up a s t h k = ground arith

worse_self : (s : Sighting) → worse s s ≡ false
unfolding worse
worse_self s = ground arith

best_worse :
    (best : Sighting) (ss : List Sighting) (t : Sighting)
    → worse best t ≡ false
    → worse (best_of best ss) t ≡ false
unfolding best_of
best_worse best [] t h = h
best_worse best (s ∷ ss) t h = elim (Bool-cases (worse best s)) [
  | inl up ↦ rw up (best_worse s ss t (worse_up best s t up h))
  | inr stay ↦ rw stay (best_worse best ss t h)
]

abbrev pub In : Sighting → List Sighting → Type 0
In t [] = ⊥
In t (s ∷ ss) = (s ≡ t) ⊎ In t ss

took :
    (c : Bool) (best s r : Sighting) (ss : List Sighting)
    → (r ≡ (if c then s else best)) ⊎ In r ss
    → (r ≡ best) ⊎ In r (s ∷ ss)
took true best s r ss (inl e) = inr (inl (sym e))
took false best s r ss (inl e) = inl e
took c best s r ss (inr m) = inr (inr m)

-- The choice is the best so far or stands in the list, and nothing in the list is better.
best_In :
    (best : Sighting) (ss : List Sighting) → (best_of best ss ≡ best) ⊎ In (best_of best ss) ss
unfolding best_of
best_In best [] = inl refl
best_In best (s ∷ ss) =
    let next = if worse best s then s else best in
    took (worse best s) best s (best_of next ss) ss (best_In next ss)

best_top :
    (best : Sighting) (ss : List Sighting) (t : Sighting)
    → In t ss
    → worse (best_of best ss) t ≡ false
unfolding best_of
best_top best [] t m = absurd m
best_top best (s ∷ ss) t (inr m) = best_top (if worse best s then s else best) ss t m
best_top best (s ∷ ss) t (inl e) = elim (Bool-cases (worse best s)) [
  | inl up ↦ rw up (best_worse s ss t (rw e (worse_self t)))
  | inr stay ↦ rw stay (best_worse best ss t (rw⁻¹ e stay))
]

good_In : (ss : List Sighting) (t : Sighting) → In t (good_of ss) → In t ss × (is_good t ≡ true)
unfolding good_of
good_In [] t = λ m. absurd m
good_In (s ∷ ss) t = elim (Bool-cases (is_good s)) [
  | inl good ↦ rw good (λ m. elim m [
    | inl e ↦ (inl e, rw⁻¹ e good)
    | inr n ↦ let k = good_In ss t n in (inr k.0, k.1)
  ])
  | inr bad ↦ rw bad (λ m. let k = good_In ss t m in (inr k.0, k.1))
]

In-good_of : (ss : List Sighting) (t : Sighting) → In t ss → is_good t ≡ true → In t (good_of ss)
unfolding good_of
In-good_of [] t m g = absurd m
In-good_of (s ∷ ss) t (inl e) g = rw (ap is_good e ∙ g) (inl e)
In-good_of (s ∷ ss) t (inr m) g = elim (Bool-cases (is_good s)) [
  | inl good ↦ rw good (inr (In-good_of ss t m g))
  | inr bad ↦ rw bad (In-good_of ss t m g)
]

chosen_good :
    (allow : Bool) (ss good : List Sighting) (t : Sighting)
    → In t good
    → (s : Sighting) × In s good
      × (chosen_from allow ss good ≡ (s.packet, false, 0))
      × ((u : Sighting) → In u good → worse s u ≡ false)
chosen_good allow ss [] t m = absurd m
chosen_good allow ss (g ∷ good) t m = (
  best_of g good,
  elim (best_In g good) [ inl e ↦ inl (sym e) | inr n ↦ inr n ],
  refl,
  λ u n. elim n [
    | inl e ↦ rw⁻¹ e (best_worse g good g (worse_self g))
    | inr k ↦ best_top g good u k
  ],
)

-- A bucket with a verified copy of possible hop counts gives an event that nobody had to combine:
-- its packet is that of such a copy, and no other such copy is preferred to it.
pub build-verified :
    (b : Bucket) (allow : Bool) (t : Sighting)
    → In t b.sightings
    → is_good t ≡ true
    → (s : Sighting) × In s b.sightings
      × (is_good s ≡ true)
      × ((build b allow).packet ≡ s.packet)
      × ((build b allow).combined ≡ false)
      × ((u : Sighting) → In u b.sightings → is_good u ≡ true → worse s u ≡ false)
unfolding build chosen
build-verified b allow t m g =
    let ss = b.sightings in
    let k = chosen_good allow ss (good_of ss) t (In-good_of ss t m g) in
    let n = good_In ss k.0 k.1 in
    (k.0, n.0, n.1, ap (λ c. c.0) k.2, ap (λ c. c.1) k.2, λ u i h. k.3 u (In-good_of ss u i h))

chosen_combined :
    (allow : Bool) (ss good : List Sighting)
    → (chosen_from allow ss good).1 ≡ true
    → (is_sound (chosen_from allow ss good).0 ≡ true)
      × ((chosen_from allow ss good).2 ≡ length ss)
      × (good ≡ [])
chosen_combined allow ss (g ∷ good) = λ h. absurd cc
chosen_combined false ss [] = λ h. absurd cc
chosen_combined true ss [] = elim (Option-cases (combine ss)) [
  | inl e ↦ rw e (λ h. absurd cc)
  | inr e ↦ let k = combine_sound ss e.0.0 e.0.1 e.1 in rw e.1 (λ h. (k.0, k.1, refl))
]

-- An event that is marked as combined carries a packet that passes every check of a packet, counts
-- all the copies of its bucket, and comes from a bucket without a verified copy of possible hops.
pub build-combined :
    (b : Bucket) (allow : Bool)
    → (build b allow).combined ≡ true
    → (is_sound (build b allow).packet ≡ true)
      × ((build b allow).combined_from ≡ length b.sightings)
      × (good_of b.sightings ≡ [])
unfolding build chosen
build-combined b allow h = chosen_combined allow b.sightings (good_of b.sightings) h
