-- ===== src/Manchester.antt =====
-- insteonrf/manchester.py: bi-phase level coding of bit strings.
-- A character of a bit string is '0', '1' or some other code point, so that the error paths
-- are in the model; strings are lists of characters.
mod Tests
pub mod RoundTrip
use insteonrf.Common.{
  ℕ, ◌==◌, if◌then◌else◌, Bool, true, false, ◌&&◌, List, [], ◌∷◌, ◌++◌, Result, ok, raise,
  value_error, manchester_error, ◌>>=◌,
}

pub data Cell : Type 0 where
  zero one : Cell
  other : ℕ → Cell

abbrev pub Bits : Type 0
Bits = List Cell

-- `==` on characters
unfoldable pub cell_beq : Cell → Cell → Bool
cell_beq zero zero = true
cell_beq one one = true
cell_beq (other a) (other b) = a == b
cell_beq _ _ = false

-- `_ENCODE[b]`, and the KeyError turned into a ValueError
unfoldable pub encode_bit : Cell → Result Bits
encode_bit zero = ok (one ∷ zero ∷ [])
encode_bit one = ok (zero ∷ one ∷ [])
encode_bit (other c) = raise value_error

unfoldable pub manchester_encode : Bits → Result Bits
unfolding encode_bit
manchester_encode [] = ok []
manchester_encode (b ∷ bits) = do p ← encode_bit b; rest ← manchester_encode bits; ok (p ++ rest)

-- `_DECODE[pair]`
unfoldable pub decode_pair : Cell → Cell → Result Cell
decode_pair one zero = ok zero
decode_pair zero one = ok one
decode_pair _ _ = raise manchester_error

-- A trailing odd bit is ignored.
unfoldable pub manchester_decode : Bits → Result Bits
unfolding decode_pair
manchester_decode [] = ok []
manchester_decode (a ∷ []) = ok []
manchester_decode (a ∷ b ∷ bits) = do
  c ← decode_pair a b
  rest ← manchester_decode bits
  ok (c ∷ rest)

-- `_INVERT_TABLE`
unfoldable pub invert_bit : Cell → Cell
invert_bit zero = one
invert_bit one = zero
invert_bit (other c) = other c

unfoldable pub invert_bits : Bits → Bits
unfolding invert_bit
invert_bits [] = []
invert_bits (b ∷ bits) = invert_bit b ∷ invert_bits bits

-- a character that is a bit
abbrev pub IsBit : Cell → Type 0
IsBit zero = Unit {0}
IsBit one = Unit {0}
IsBit (other c) = ⊥
