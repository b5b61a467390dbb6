-- ===== src/Recover/Flips.antt =====
-- recover.py: how many bits a trial of the search changes, and what its result has passed.
use insteonrf.Common.{
  sym, ◌∙◌, ◌==◌, ◌&&◌, Option, none, some, Bool-cases, inl, inr, ℕ, zero, suc, ◌+◌, ◌≤◌, ◌≡◌, refl,
  ap, arith, Bool, true, false, if◌then◌else◌, List, [], ◌∷◌, length, map, All, All-append,
  bool_beq,
}
use insteonrf.Fusion.Combine.{combinations}
use insteonrf.Recover.{
  crc_checks, index_errors, repair_sets, or_next, repair_loop, repair, Logical, toggle, toggle_all,
  bytes_from,
}

-- in how many places two lists of bits differ in value
unfoldable pub differ : List Logical → List Logical → ℕ
differ [] ms = length ms
differ (l ∷ ls) [] = suc (length ls)
differ (l ∷ ls) (m ∷ ms) =
    let rest = differ ls ms in if bool_beq l.value m.value then rest else rest + 1

-- bytes that are those of the bits of `ls` but for at most so many
abbrev pub IsFlipped : ℕ → List Logical → List ℕ → ℕ → Type 0
IsFlipped nframes ls bytes n =
    (trial : List Logical) × (bytes ≡ bytes_from nframes trial) × (differ ls trial ≤ n)

same_bool : (b : Bool) → bool_beq b b ≡ true
same_bool true = refl
same_bool false = refl

pub differ_self : (ls : List Logical) → differ ls ls ≡ 0
unfolding differ
differ_self [] = refl
differ_self (l ∷ ls) = rw (same_bool l.value) (differ_self ls)

differ-toggle : (p : ℕ) (ls ms : List Logical) → differ ls (toggle p ms) ≤ differ ls ms + 1
unfolding differ
differ-toggle p ls [] = omega arith
differ-toggle zero [] (m ∷ ms) = omega arith
differ-toggle (suc p) [] (m ∷ ms) = ground (arith, differ-toggle p [] ms)
differ-toggle zero (l ∷ ls) (m ∷ ms) = ground arith
differ-toggle (suc p) (l ∷ ls) (m ∷ ms) = ground (arith, differ-toggle p ls ms)

pub differ-toggle_all :
    (ps : List ℕ) (ls ms : List Logical) → differ ls (toggle_all ps ms) ≤ differ ls ms + length ps
unfolding toggle_all
differ-toggle_all [] ls ms = omega arith
differ-toggle_all (p ∷ ps) ls ms =
    omega (arith, differ-toggle_all ps ls (toggle p ms), differ-toggle p ls ms)

abbrev pub HasLength : ℕ → List ℕ → Type 0
HasLength k c = length c ≡ k

longer :
    (i k : ℕ) (cs : List (List ℕ)) → All (HasLength k) cs → All (HasLength (suc k)) (map (◌∷◌ i) cs)
longer i k [] h = tt
longer i k (c ∷ cs) h = (ap suc h.0, longer i k cs h.1)

pub combinations-HasLength :
    (k : ℕ) (suspects : List ℕ) → All (HasLength k) (combinations k suspects)
unfolding combinations
combinations-HasLength zero suspects = (refl, tt)
combinations-HasLength (suc k) [] = tt
combinations-HasLength (suc k) (i ∷ suspects) =
    All-append (HasLength (suc k)) (map (◌∷◌ i) (combinations k suspects))
      (combinations (suc k) suspects)
      (longer i k (combinations k suspects) (combinations-HasLength k suspects))
      (combinations-HasLength (suc k) suspects)

-- the bytes of a repair pass the checksums, and are those of the frames but for the flipped bits,
-- which are as many as is said and not too many
abbrev pub Repairs : List Logical → ℕ → Bool → ℕ → Option (List ℕ × ℕ) → Type 0
Repairs ls nframes extended most o =
    (bytes : List ℕ) (n : ℕ)
    → o ≡ some (bytes, n)
    → (crc_checks bytes extended ≡ true) × (n ≤ most) × IsFlipped nframes ls bytes n

found-Repairs :
    (ls : List Logical) (nframes : ℕ) (extended : Bool) (most k : ℕ) (made : List ℕ)
    → crc_checks made extended ≡ true
    → k ≤ most
    → IsFlipped nframes ls made k
    → Repairs ls nframes extended most (some (made, k))
found-Repairs ls nframes extended most k made good few flipped bytes n e =
    let b : made ≡ bytes = ap (λ o. elim o [ none ↦ made | some f ↦ f.0 ]) e in
    let c : k ≡ n = ap (λ o. elim o [ none ↦ k | some f ↦ f.1 ]) e in
    (
      ap (λ x. crc_checks x extended) (sym b) ∙ good,
      omega (arith, c, few),
      (flipped.0, sym b ∙ flipped.1, omega (arith, c, flipped.2)),
    )

both_left : (a b : Bool) → (a && b) ≡ true → a ≡ true
both_left true b h = refl
both_left false b h = absurd cc

toggled :
    (combo : List ℕ) (k : ℕ) (ls : List Logical) (nframes : ℕ)
    → HasLength k combo
    → IsFlipped nframes ls (bytes_from nframes (toggle_all combo ls)) k
toggled combo k ls nframes size =
    (toggle_all combo ls, refl, omega (arith, differ-toggle_all combo ls ls, differ_self ls, size))

sets-Repairs :
    (combos : List (List ℕ)) (k most : ℕ) (ls : List Logical) (nframes : ℕ) (extended : Bool)
    → k ≤ most
    → All (HasLength k) combos
    → Repairs ls nframes extended most (repair_sets combos k ls nframes extended)
unfolding repair_sets
sets-Repairs [] k most ls nframes extended few sizes = λ bytes n e. absurd cc
sets-Repairs (combo ∷ more) k most ls nframes extended few sizes =
    let trial = toggle_all combo ls in
    let made = bytes_from nframes trial in
    let whole = index_errors trial nframes extended == 0 in
    elim (Bool-cases (crc_checks made extended && whole)) [
      | inl good ↦ rw good (
          found-Repairs ls nframes extended most k made
            (both_left (crc_checks made extended) whole good) few
            (toggled combo k ls nframes sizes.0))
      | inr bad ↦ rw bad (sets-Repairs more k most ls nframes extended few sizes.1)
    ]

next-Repairs :
    (ls : List Logical) (nframes : ℕ) (extended : Bool) (most : ℕ) (o next : Option (List ℕ × ℕ))
    → Repairs ls nframes extended most o
    → Repairs ls nframes extended most next
    → Repairs ls nframes extended most (or_next o next)
next-Repairs ls nframes extended most none next h k = k
next-Repairs ls nframes extended most (some found) next h k = h

loop-Repairs :
    (left k most : ℕ) (suspects : List ℕ) (ls : List Logical) (nframes : ℕ) (extended : Bool)
    → k + left ≤ most + 1
    → Repairs ls nframes extended most (repair_loop left k suspects ls nframes extended)
unfolding repair_loop
loop-Repairs zero k most suspects ls nframes extended few = λ bytes n e. absurd cc
loop-Repairs (suc left) k most suspects ls nframes extended few =
    next-Repairs ls nframes extended most
      (repair_sets (combinations k suspects) k ls nframes extended)
      (repair_loop left (k + 1) suspects ls nframes extended)
      (sets-Repairs (combinations k suspects) k most ls nframes extended (omega arith)
        (combinations-HasLength k suspects))
      (loop-Repairs left (k + 1) most suspects ls nframes extended (omega arith))

pub repair-Repairs :
    (ls : List Logical) (nframes : ℕ) (extended : Bool) (max_flips candidates : ℕ)
    → Repairs ls nframes extended max_flips (repair ls nframes extended max_flips candidates)
unfolding repair
repair-Repairs ls nframes extended max_flips candidates =
    loop-Repairs max_flips 1 max_flips _ ls nframes extended (omega arith)
