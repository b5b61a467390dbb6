-- ===== src/Fusion/Hamming.antt =====
-- fusion.py, `hamming`: what the early stop returns.
use insteonrf.Common.{ℕ, ◌+◌, ◌≤◌, ◌≡◌, none, some, [], ◌∷◌, min, arith}
use insteonrf.Manchester.{Bits}
use insteonrf.Fusion.{hamming, hamming_loop}

loop_grows : (d : ℕ) (a b : Bits) → d ≤ hamming_loop none d a b
unfolding hamming_loop
loop_grows d [] b = omega arith
loop_grows d (x ∷ a) [] = omega arith
loop_grows d (x ∷ a) (y ∷ b) = ground (arith, loop_grows d a b, loop_grows (d + 1) a b)

loop_limit :
    (limit d : ℕ) (a b : Bits)
    → d ≤ limit
    → hamming_loop (some limit) d a b ≡ min (hamming_loop none d a b) (limit + 1)
unfolding hamming_loop
loop_limit limit d [] b h = omega arith
loop_limit limit d (x ∷ a) [] h = omega arith
loop_limit limit d (x ∷ a) (y ∷ b) h =
    ground (arith, loop_limit limit d a b, loop_limit limit (d + 1) a b, loop_grows (d + 1) a b)

-- With a limit, `hamming` returns the full distance where that is within the limit, one more than
-- the limit where it is not, and nothing where it returns nothing without the limit.
pub hamming_limit :
    (a b : Bits) (limit : ℕ)
    → hamming a b (some limit)
      ≡ elim (hamming a b none) [ none ↦ none | some d ↦ some (min d (limit + 1)) ]
unfolding hamming
hamming_limit a b limit = ground (arith, loop_limit limit 0 a b)
