-- ===== src/Radio/Mqtt/Octets.antt =====
-- radio/mqtt.py: bytes as bits and back.
use insteonrf.Common.{
  length-take, length-drop, All-take, All-drop, Bool, true, false, ◌&&◌, Bool-cases, inl, inr, ℕ,
  zero, suc, ◌-◌, ◌*◌, ◌/◌, ◌%◌, ◌≡◌, ◌==◌, refl, ap, ◌∙◌, arith, List, [], ◌∷◌, ◌++◌, length, take,
  drop, replicate, All, length-append, take-append, drop-append, ==_iff,
}
use insteonrf.Common.Bits.{all_below, all_below_sound}
use mathlib.Core.List.{append-nil}
use insteonrf.Manchester.{Bits, Cell, IsBit, cell_beq, zero as low, one as high, other}
use insteonrf.Packet.Crc.Laws.{IsByte}
use insteonrf.Radio.Mqtt.{digits, digits_int, bits_from_bytes, bytes_from_bits, chunks, padded}

octet_int : (b : ℕ) → IsByte b → digits_int 0 (digits 8 b) ≡ b
unfolding all_below digits digits_int cell_beq
octet_int b h = (==_iff _ _).0 (all_below_sound 256 (λ n. digits_int 0 (digits 8 n) == n) b refl h)

pub length-digits : (width n : ℕ) → length (digits width n) ≡ width
unfolding digits
length-digits zero n = refl
length-digits (suc width) n = ap suc (length-digits width n)

pub length-bits_from_bytes : (bytes : List ℕ) → length (bits_from_bytes bytes) ≡ 8 * length bytes
unfolding bits_from_bytes
length-bits_from_bytes [] = refl
length-bits_from_bytes (b ∷ bytes) = omega (
  arith,
  length-append (digits 8 b) (bits_from_bytes bytes),
  length-digits 8 b,
  length-bits_from_bytes bytes,
)

chunks-bits_from_bytes :
    (bytes : List ℕ) → All IsByte bytes → chunks (length bytes) (bits_from_bytes bytes) ≡ bytes
unfolding chunks bits_from_bytes
chunks-bits_from_bytes [] h = refl
chunks-bits_from_bytes (b ∷ bytes) h =
    let code = digits 8 b in
    let rest = bits_from_bytes bytes in
    ap (λ c. digits_int 0 c ∷ chunks (length bytes) (drop 8 (code ++ rest)))
      (take-append code rest 8 (length-digits 8 b))
    ∙ ap (λ c. digits_int 0 code ∷ chunks (length bytes) c)
        (drop-append code rest 8 (length-digits 8 b))
    ∙ ap (λ n. n ∷ chunks (length bytes) rest) (octet_int b h.0)
    ∙ ap (λ ns. b ∷ ns) (chunks-bits_from_bytes bytes h.1)

-- Bytes survive the way through bits, which are eight for each byte.
pub bytes_from_bits-bits_from_bytes :
    (bytes : List ℕ)
    → All IsByte bytes
    → (bytes_from_bits (bits_from_bytes bytes) ≡ bytes)
      × (length (bits_from_bytes bytes) ≡ 8 * length bytes)
unfolding bytes_from_bits
bytes_from_bits-bits_from_bytes bytes h =
    let line = bits_from_bytes bytes in
    let n = length-bits_from_bytes bytes in
    let none_left : (8 - length line % 8) % 8 ≡ 0 = omega (arith, n) in
    let whole : padded line ≡ line =
      ap (λ k. line ++ replicate k low) none_left ∙ append-nil line in
    let eighth : length line / 8 ≡ length bytes = omega (arith, n) in
    (
      ap (λ x. chunks (length x / 8) x) whole
          ∙ ap (λ k. chunks k line) eighth
          ∙ chunks-bits_from_bytes bytes h,
      n,
    )

-- bits from Booleans, to check all of eight
abbrev cell_of : Bool → Cell
cell_of true = high
cell_of false = low

abbrev octet : Bool → Bool → Bool → Bool → Bool → Bool → Bool → Bool → Bits
octet a b c d e f g h =
    cell_of a
    ∷ cell_of b
    ∷ cell_of c
    ∷ cell_of d
    ∷ cell_of e
    ∷ cell_of f
    ∷ cell_of g
    ∷ cell_of h
    ∷ []

both : (Bool → Bool) → Bool
both p = p true && p false

both_sound : (p : Bool → Bool) → both p ≡ true → (b : Bool) → p b ≡ true
unfolding both
both_sound p h true = ground (arith, h)
both_sound p h false = ground (arith, h)

bits_beq : Bits → Bits → Bool
bits_beq [] [] = true
bits_beq (a ∷ xs) (b ∷ ys) = cell_beq a b && bits_beq xs ys
bits_beq xs ys = false

same_cell : (a b : Cell) → cell_beq a b ≡ true → a ≡ b
unfolding cell_beq
same_cell low low h = refl
same_cell high high h = refl
same_cell (other m) (other n) h = ap other ((==_iff m n).0 h)
same_cell low high h = cc
same_cell low (other n) h = cc
same_cell high low h = cc
same_cell high (other n) h = cc
same_cell (other m) low h = cc
same_cell (other m) high h = cc

bits_beq-eq : (a b : Bits) → bits_beq a b ≡ true → a ≡ b
unfolding bits_beq
bits_beq-eq [] [] h = refl
bits_beq-eq [] (b ∷ ys) h = cc
bits_beq-eq (a ∷ xs) [] h = cc
bits_beq-eq (a ∷ xs) (b ∷ ys) h = elim (Bool-cases (cell_beq a b)) [
  | inr apart ↦ absurd (ground (arith, h, apart))
  | inl same ↦
      ap (λ x. x ∷ xs) (same_cell a b same)
      ∙ ap (λ x. b ∷ x) (bits_beq-eq xs ys (ground (arith, h, same)))
]

octet_test : Bits → Bool
octet_test bits = bits_beq (digits 8 (digits_int 0 bits)) bits

octet_table :
    both (λ a. both (λ b. both (λ c.
      both
        (λ d. both (λ e. both (λ f. both (λ g. both (λ h. octet_test (octet a b c d e f g h)))))))))
    ≡ true
unfolding both octet_test bits_beq digits digits_int cell_beq
octet_table = refl

octet_lem :
    (a b c d e f g h : Bool)
    → digits 8 (digits_int 0 (octet a b c d e f g h)) ≡ octet a b c d e f g h
unfolding octet_test
octet_lem a b c d e f g h = bits_beq-eq _ _ (
    both_sound _
      (both_sound _
        (both_sound _
          (both_sound _
            (both_sound _ (both_sound _ (both_sound _ (both_sound _ octet_table a) b) c) d) e)
          f)
        g)
      h)

bool_of : (c : Cell) → IsBit c → (b : Bool) × (c ≡ cell_of b)
bool_of low h = (false, refl)
bool_of high h = (true, refl)
bool_of (other n) h = absurd h

eight_cells : (bits : Bits) → length bits ≡ 8 → All IsBit bits → digits 8 (digits_int 0 bits) ≡ bits
eight_cells (a ∷ b ∷ c ∷ d ∷ e ∷ f ∷ g ∷ h ∷ []) n k =
    let x = bool_of a k.0 in
    let y = bool_of b k.1.0 in
    let z = bool_of c k.1.1.0 in
    let u = bool_of d k.1.1.1.0 in
    let v = bool_of e k.1.1.1.1.0 in
    let w = bool_of f k.1.1.1.1.1.0 in
    let q = bool_of g k.1.1.1.1.1.1.0 in
    let r = bool_of h k.1.1.1.1.1.1.1.0 in
    rw (x.1, y.1, z.1, u.1, v.1, w.1, q.1, r.1) (octet_lem x.0 y.0 z.0 u.0 v.0 w.0 q.0 r.0)
eight_cells bits n k = absurd (omega (arith, n))

take-drop : (n : ℕ) (bits : Bits) → take n bits ++ drop n bits ≡ bits
take-drop zero bits = refl
take-drop (suc n) [] = refl
take-drop (suc n) (c ∷ bits) = ap (λ x. c ∷ x) (take-drop n bits)

-- A line of a whole number of bytes is what its bytes expand to.
pub bits_from_bytes-chunks :
    (count : ℕ) (line : Bits)
    → length line ≡ 8 * count
    → All IsBit line
    → bits_from_bytes (chunks count line) ≡ line
unfolding chunks bits_from_bytes
bits_from_bytes-chunks zero [] h k = refl
bits_from_bytes-chunks zero (c ∷ line) h k = absurd (omega (arith, h))
bits_from_bytes-chunks (suc count) line h k =
    ap (λ x. x ++ bits_from_bytes (chunks count (drop 8 line)))
      (eight_cells (take 8 line) (omega (arith, length-take 8 line, h)) (All-take IsBit 8 line k))
    ∙ ap (λ x. take 8 line ++ x)
        (bits_from_bytes-chunks count (drop 8 line) (omega (arith, length-drop 8 line, h))
          (All-drop IsBit 8 line k))
    ∙ take-drop 8 line
