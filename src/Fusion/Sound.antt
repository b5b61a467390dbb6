-- ===== src/Fusion/Sound.antt =====
-- fusion.py, `combine`: what it returns.
use insteonrf.Common.{
  zero, suc, ◌+◌, suc, ltb, ℕ, ◌≡◌, Bool, true, false, if◌then◌else◌, Option, none, some, List, [],
  ◌∷◌, length, list_eq, Bool-cases, Option-cases, inl, inr, ◌∙◌, ap, sym,
}
use insteonrf.Packet.Fields.{Packet}
use insteonrf.Fusion.{Bits, Sighting, max_disagreements, max_combine_flips}
use insteonrf.Fusion.Combine.{
  combine, vote, settle_vote, accept, is_sound, first_sound, try_flips, try_counts, flip_all,
  combinations, Vote, first_at, or_else, with_count, of_vote,
}

-- What `_accept` returns passes its tests.
sound_first : (ps : List Packet) (p : Packet) → first_sound ps ≡ some p → is_sound p ≡ true
unfolding first_sound
sound_first [] p = λ e. absurd cc
sound_first (q ∷ ps) p = elim (Bool-cases (is_sound q)) [
  | inl good ↦ rw good (λ e. let k : q ≡ p = cc in rw (sym k) good)
  | inr bad ↦ rw bad (sound_first ps p)
]

sound_accept : (bits : Bits) (at : ℕ) (p : Packet) → accept bits at ≡ some p → is_sound p ≡ true
unfolding accept
sound_accept bits at p e = sound_first _ p e

abbrev Sound : Option Packet → Type 0
Sound o = (p : Packet) → o ≡ some p → is_sound p ≡ true

or_else-Sound : (o q : Option Packet) → Sound o → Sound q → Sound (or_else o q)
or_else-Sound none q h k = k
or_else-Sound (some p) q h k = h

try_flips-Sound : (tries : List (List ℕ)) (bits : Bits) (at : ℕ) → Sound (try_flips tries bits at)
unfolding try_flips
try_flips-Sound [] bits at = λ p e. absurd cc
try_flips-Sound (t ∷ ts) bits at =
    or_else-Sound (accept (flip_all t bits) at) (try_flips ts bits at)
      (sound_accept (flip_all t bits) at) (try_flips-Sound ts bits at)

try_counts-Sound :
    (left count : ℕ) (suspects : List ℕ) (bits : Bits) (at : ℕ)
    → Sound (try_counts left count suspects bits at)
unfolding try_counts
try_counts-Sound zero count suspects bits at = λ p e. absurd cc
try_counts-Sound (suc left) count suspects bits at =
    or_else-Sound (try_flips (combinations count suspects) bits at)
      (try_counts left (count + 1) suspects bits at)
      (try_flips-Sound (combinations count suspects) bits at)
      (try_counts-Sound left (count + 1) suspects bits at)

if-Sound : (c : Bool) (o : Option Packet) → Sound o → Sound (if c then none else o)
if-Sound true o h = λ p e. absurd cc
if-Sound false o h = h

settle_vote-Sound : (v : Vote) (at : ℕ) → Sound (settle_vote v at)
unfolding settle_vote
settle_vote-Sound v at = or_else-Sound (accept v.bits at) _ (sound_accept v.bits at) (
    if-Sound (ltb max_disagreements (length v.disagree))
      (try_counts max_combine_flips 1 v.disagree v.bits at)
      (try_counts-Sound max_combine_flips 1 v.disagree v.bits at))

with_count-Sound :
    (n m : ℕ) (o : Option Packet) (p : Packet)
    → Sound o
    → with_count n o ≡ some (p, m)
    → (is_sound p ≡ true) × (m ≡ n)
with_count-Sound n m none p h e = absurd cc
with_count-Sound n m (some q) p h e =
    let k : q ≡ p = ap (λ o. elim o [ none ↦ q | some r ↦ r.0 ]) e in
    let l : n ≡ m = ap (λ o. elim o [ none ↦ n | some r ↦ r.1 ]) e in (h p (ap some k), sym l)

no_vote : {A : Type 0} {R : Type 0} {a : A} → none ≡ some a → R
no_vote e = absurd cc

-- What `combine` returns passes every check of a packet, and counts the copies that it was given.
pub combine_sound :
    (ss : List Sighting) (p : Packet) (n : ℕ)
    → combine ss ≡ some (p, n)
    → (is_sound p ≡ true) × (n ≡ length ss)
unfolding combine
combine_sound ss p n e = elim (Option-cases (vote ss)) [
  | inl k ↦ no_vote (sym (ap (of_vote ss) k) ∙ e)
  | inr k ↦
      with_count-Sound (length ss) n (settle_vote k.0 (first_at ss)) p
        (settle_vote-Sound k.0 (first_at ss)) (sym (ap (of_vote ss) k.1) ∙ e)
]
