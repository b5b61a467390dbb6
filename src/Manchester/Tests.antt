-- ===== src/Manchester/Tests.antt =====
-- The properties of the line code at small codes.
use insteonrf.Common.{[], ◌∷◌, ◌≡◌, refl, All, length, ok}
use insteonrf.Manchester.{Bits, zero, one, IsBit, manchester_encode, manchester_decode}
use insteonrf.Manchester.RoundTrip.{manchester_decode-encode}

abbrev bits_011 : Bits
bits_011 = zero ∷ one ∷ one ∷ []

abbrev code_011 : Bits
code_011 = one ∷ zero ∷ zero ∷ one ∷ zero ∷ one ∷ []

bits_011-IsBit : All IsBit bits_011
bits_011-IsBit = (tt, (tt, (tt, tt)))

code_011-IsCode : manchester_encode bits_011 ≡ ok code_011
unfolding manchester_encode
code_011-IsCode = refl

odd_code : manchester_decode (one ∷ zero ∷ zero ∷ one ∷ one ∷ []) ≡ ok (zero ∷ one ∷ [])
unfolding manchester_decode
odd_code = refl

manchester_decode-encode_example :
    (code : Bits) × (manchester_encode bits_011 ≡ ok code)
    × (length code ≡ 6)
    × (manchester_decode code ≡ ok bits_011)
manchester_decode-encode_example = manchester_decode-encode bits_011 bits_011-IsBit
