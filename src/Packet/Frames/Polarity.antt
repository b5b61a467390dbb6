-- ===== src/Packet/Frames/Polarity.antt =====
-- packet.py, `find_headers`: patterns in either polarity.
use insteonrf.Common.{ℕ, zero, suc, ◌≡◌, refl, ap, ◌∙◌, arith, true, ◌&&◌, some, [], ◌∷◌, drop}
use insteonrf.Manchester.{
  Bits, Cell, zero as low, one as high, other, cell_beq, invert_bit, invert_bits,
}
use insteonrf.Packet.Frames.{starts_with, find_first}

-- where `find_first` finds a pattern, the pattern stands
pub find_first-starts :
    (pattern bits : Bits) (n : ℕ)
    → find_first pattern bits ≡ some n
    → starts_with pattern (drop n bits) ≡ true
unfolding find_first
find_first-starts pattern [] zero h = ground (arith, h)
find_first-starts pattern [] (suc n) h = absurd (ground (arith, h))
find_first-starts pattern (b ∷ bits) zero h = ground (arith, h)
find_first-starts pattern (b ∷ bits) (suc n) h = ground (arith, h, find_first-starts pattern bits n)

cell_beq-invert : (a b : Cell) → cell_beq (invert_bit a) (invert_bit b) ≡ cell_beq a b
unfolding cell_beq invert_bit
cell_beq-invert low low = refl
cell_beq-invert low high = refl
cell_beq-invert low (other n) = refl
cell_beq-invert high low = refl
cell_beq-invert high high = refl
cell_beq-invert high (other n) = refl
cell_beq-invert (other m) low = refl
cell_beq-invert (other m) high = refl
cell_beq-invert (other m) (other n) = refl

pub starts_with-invert :
    (pattern bits : Bits)
    → starts_with (invert_bits pattern) (invert_bits bits) ≡ starts_with pattern bits
unfolding starts_with invert_bits
starts_with-invert [] bits = refl
starts_with-invert (c ∷ pattern) [] = refl
starts_with-invert (c ∷ pattern) (b ∷ bits) =
    ap (λ t. t && starts_with (invert_bits pattern) (invert_bits bits)) (cell_beq-invert c b)
    ∙ ap (λ t. cell_beq c b && t) (starts_with-invert pattern bits)

pub find_first-invert :
    (pattern bits : Bits)
    → find_first (invert_bits pattern) (invert_bits bits) ≡ find_first pattern bits
unfolding find_first invert_bits
find_first-invert pattern [] = rw (starts_with-invert pattern []) refl
find_first-invert pattern (b ∷ bits) =
    ground (arith, starts_with-invert pattern (b ∷ bits), find_first-invert pattern bits)
