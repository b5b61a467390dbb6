-- ===== src/Manchester/RoundTrip.antt =====
-- manchester.py: encoding, decoding and inversion, one after another.
use insteonrf.Common.{
  ℕ, suc, ◌*◌, ◌/◌, ◌≡◌, ◌∙◌, refl, ap, [], ◌∷◌, Result, ok, raise, ◌>>=◌, arith, length, take, All,
}
use insteonrf.Manchester.{
  Cell, zero, one, other, Bits, IsBit, manchester_encode, decode_pair, manchester_decode,
  invert_bits,
}

-- The code of a string of bits, as a total function.
unfoldable pub pairs : Bits → Bits
pairs [] = []
pairs (zero ∷ bits) = one ∷ zero ∷ pairs bits
pairs (one ∷ bits) = zero ∷ one ∷ pairs bits
pairs (other c ∷ bits) = pairs bits

pub manchester_encode-pairs :
    (bits : Bits) → All IsBit bits → manchester_encode bits ≡ ok (pairs bits)
unfolding manchester_encode pairs
manchester_encode-pairs [] h = refl
manchester_encode-pairs (zero ∷ bits) h = rw (manchester_encode-pairs bits h.1)
manchester_encode-pairs (one ∷ bits) h = rw (manchester_encode-pairs bits h.1)
manchester_encode-pairs (other c ∷ bits) h = absurd h.0

pub manchester_decode-pairs :
    (bits : Bits) → All IsBit bits → manchester_decode (pairs bits) ≡ ok bits
unfolding manchester_decode pairs
manchester_decode-pairs [] h = refl
manchester_decode-pairs (zero ∷ bits) h = rw (manchester_decode-pairs bits h.1)
manchester_decode-pairs (one ∷ bits) h = rw (manchester_decode-pairs bits h.1)
manchester_decode-pairs (other c ∷ bits) h = absurd h.0

pub length-pairs : (b : Bits) → All IsBit b → length (pairs b) ≡ 2 * length b
unfolding pairs
length-pairs [] k = refl
length-pairs (zero ∷ b) k = omega (arith, length-pairs b k.1)
length-pairs (one ∷ b) k = omega (arith, length-pairs b k.1)
length-pairs (other c ∷ b) k = absurd k.0

-- A string of bits is encoded without an error, in twice its length, and decoding the result
-- gives it back.
pub manchester_decode-encode :
    (bits : Bits)
    → All IsBit bits
    → (code : Bits) × (manchester_encode bits ≡ ok code)
      × (length code ≡ 2 * length bits)
      × (manchester_decode code ≡ ok bits)
unfolding pairs
manchester_decode-encode bits h = (
  pairs bits,
  manchester_encode-pairs bits h,
  length-pairs bits h,
  manchester_decode-pairs bits h,
)

-- One more pair of a code that decodes.
decoded_pair :
    (a b c : Cell) (code bits : Bits)
    → decode_pair a b ≡ ok c
    → (pairs bits ≡ take (2 * length bits) code) × All IsBit bits
    → (pairs (c ∷ bits) ≡ take (2 * length (c ∷ bits)) (a ∷ b ∷ code)) × All IsBit (c ∷ bits)
unfolding decode_pair pairs
decoded_pair a b c code bits h k = rw (twice (length bits)) (cases a b c h)
  where
    twice : (n : ℕ) → 2 * suc n ≡ suc (suc (2 * n))
    twice n = omega arith

    cases :
        (a b c : Cell)
        → decode_pair a b ≡ ok c
        → (pairs (c ∷ bits) ≡ a ∷ b ∷ take (2 * length bits) code) × All IsBit (c ∷ bits)
    cases one zero zero e = (rw k.0, (tt, k.1))
    cases zero one one e = (rw k.0, (tt, k.1))
    cases one zero one e = cc
    cases one zero (other d) e = cc
    cases zero one zero e = cc
    cases zero one (other d) e = cc
    cases zero zero c e = cc
    cases zero (other d) c e = cc
    cases one one c e = cc
    cases one (other d) c e = cc
    cases (other d) b c e = cc

-- Inversion of the two steps of the loop.
decode_both :
    (p : Result Cell) (r : Result Bits) (c : Cell) (bits : Bits)
    → (p >>= λ d. r >>= λ rest. ok (d ∷ rest)) ≡ ok (c ∷ bits)
    → (p ≡ ok c) × (r ≡ ok bits)
decode_both (ok d) (ok rest) c bits h = (cc, cc)
decode_both (ok d) (raise e) c bits h = cc
decode_both (raise e) r c bits h = cc

decode_none :
    (p : Result Cell) (r : Result Bits) → (p >>= λ d. r >>= λ rest. ok (d ∷ rest)) ≡ ok [] → ⊥
decode_none (ok d) (ok rest) h = cc
decode_none (ok d) (raise e) h = cc
decode_none (raise e) r h = cc

decoded :
    (code bits : Bits)
    → manchester_decode code ≡ ok bits
    → (pairs bits ≡ take (2 * length bits) code) × All IsBit bits
unfolding manchester_decode pairs
decoded [] [] h = (refl, tt)
decoded [] (b ∷ bits) h = cc
decoded (a ∷ []) [] h = (refl, tt)
decoded (a ∷ []) (b ∷ bits) h = cc
decoded (a ∷ b ∷ code) [] h = absurd (decode_none (decode_pair a b) (manchester_decode code) h)
decoded (a ∷ b ∷ code) (c ∷ bits) h =
    let parts = decode_both (decode_pair a b) (manchester_decode code) c bits h in
    decoded_pair a b c code bits parts.0 (decoded code bits parts.1)

length-decoded :
    (code bits : Bits) → manchester_decode code ≡ ok bits → length bits ≡ length code / 2
unfolding manchester_decode
length-decoded [] [] h = omega arith
length-decoded [] (b ∷ bits) h = cc
length-decoded (a ∷ []) [] h = omega arith
length-decoded (a ∷ []) (b ∷ bits) h = cc
length-decoded (a ∷ b ∷ code) [] h =
    absurd (decode_none (decode_pair a b) (manchester_decode code) h)
length-decoded (a ∷ b ∷ code) (c ∷ bits) h =
    let parts = decode_both (decode_pair a b) (manchester_decode code) c bits h in
    omega (arith, length-decoded code bits parts.1)

-- What decodes is a string of bits whose code is the input, but for an ignored odd character.
pub manchester_encode-decode :
    (code : Bits) {bits : Bits}
    → manchester_decode code ≡ ok bits
    → All IsBit bits
      × (manchester_encode bits ≡ ok (take (2 * length bits) code))
      × (length bits ≡ length code / 2)
manchester_encode-decode code {bits} h =
    let (same, valid) = decoded code bits h in
    (valid, manchester_encode-pairs bits valid ∙ ap ok same, length-decoded code bits h)

-- Turning every bit over before decoding turns every decoded bit over.
invert_pairs : (bits : Bits) → All IsBit bits → invert_bits (pairs bits) ≡ pairs (invert_bits bits)
unfolding invert_bits pairs
invert_pairs [] h = refl
invert_pairs (zero ∷ bits) h = rw (invert_pairs bits h.1)
invert_pairs (one ∷ bits) h = rw (invert_pairs bits h.1)
invert_pairs (other c ∷ bits) h = absurd h.0

pub invert_bits-invert_bits : (bits : Bits) → invert_bits (invert_bits bits) ≡ bits
unfolding invert_bits
invert_bits-invert_bits [] = refl
invert_bits-invert_bits (zero ∷ bits) = rw (invert_bits-invert_bits bits)
invert_bits-invert_bits (one ∷ bits) = rw (invert_bits-invert_bits bits)
invert_bits-invert_bits (other c ∷ bits) = rw (invert_bits-invert_bits bits)

pub invert_bits-IsBit : (bits : Bits) → All IsBit bits → All IsBit (invert_bits bits)
unfolding invert_bits
invert_bits-IsBit [] h = tt
invert_bits-IsBit (zero ∷ bits) h = (tt, invert_bits-IsBit bits h.1)
invert_bits-IsBit (one ∷ bits) h = (tt, invert_bits-IsBit bits h.1)
invert_bits-IsBit (other c ∷ bits) h = absurd h.0

-- A code received in the other polarity decodes to the bits turned over.
pub manchester_decode-invert :
    (bits : Bits) {code : Bits}
    → All IsBit bits
    → manchester_encode bits ≡ ok code
    → manchester_decode (invert_bits code) ≡ ok (invert_bits bits)
manchester_decode-invert bits {code} h e = rw (← same) (
    rw (invert_pairs bits h)
      (manchester_decode-pairs (invert_bits bits) (invert_bits-IsBit bits h)))
  where
    same : pairs bits ≡ code
    same = cc (manchester_encode-pairs bits h)
