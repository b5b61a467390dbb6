-- ===== src/Packet/Crc/Laws.antt =====
-- packet.py, "CRCs": `pkt_crc` as a recurrence, its step, and the sum behind `ext_crc`.
use insteonrf.Common.{
  ◌≤◌, ℕ, ◌+◌, ◌*◌, ◌%◌, ◌<◌, bit_and, bit_xor, ◌≡◌, ◌∙◌, refl, sym, ap, true, ◌==◌, ==_iff, List,
  [], ◌∷◌, ◌++◌, All, arith, take, slice, length, ltb, ltb→lt, All-take, All-split,
  take-append_over, append_get_or, take-append_le, slice-append, ◌-◌,
}
use insteonrf.Common.Bits.{xor_injective, xor_comm, xor-lt, all_below, all_below_sound}
use insteonrf.Packet.Crc.{crc_mix, crc_loop, crc_index_of, pkt_crc, ext_crc, sum, first}

abbrev pub IsByte : ℕ → Type 0
IsByte b = b < 256

-- The step of the doc string: `r ^= ((r ^ (r << 1)) & 0x0F) << 4`.
unfoldable pub shift_mix : ℕ → ℕ
shift_mix r = bit_xor r (bit_and (bit_xor r (r * 2)) 0x0F * 16)

unfoldable pub shift_loop : ℕ → List ℕ → ℕ
shift_loop r [] = r
shift_loop r (b ∷ bytes) = shift_loop (shift_mix (bit_xor r b)) bytes

mix_table : all_below 256 (λ r. crc_mix r == shift_mix r) ≡ true
unfolding all_below crc_mix shift_mix
mix_table = refl

mix_lt_table : all_below 256 (λ r. ltb (crc_mix r) 256) ≡ true
unfolding all_below crc_mix
mix_lt_table = refl

-- The mixing step is its own inverse, which the table of its 256 values shows.
mix_twice_table : all_below 256 (λ r. crc_mix (crc_mix r) == r) ≡ true
unfolding all_below crc_mix
mix_twice_table = refl

crc_mix-lt : (r : ℕ) → r < 256 → crc_mix r < 256
crc_mix-lt r h = ltb→lt _ _ (all_below_sound 256 _ r mix_lt_table h)

crc_mix_twice : (r : ℕ) → r < 256 → crc_mix (crc_mix r) ≡ r
crc_mix_twice r h = (==_iff _ r).0 (all_below_sound 256 _ r mix_twice_table h)

crc_mix-shift_mix : (r : ℕ) → r < 256 → crc_mix r ≡ shift_mix r
crc_mix-shift_mix r h = (==_iff _ _).0 (all_below_sound 256 _ r mix_table h)

xor-IsByte : (a b : ℕ) → IsByte a → IsByte b → IsByte (bit_xor a b)
xor-IsByte a b h k = xor-lt 8 a b h k

pub crc_loop-IsByte :
    (r : ℕ) (bytes : List ℕ) → IsByte r → All IsByte bytes → IsByte (crc_loop r bytes)
unfolding crc_loop
crc_loop-IsByte r [] h k = h
crc_loop-IsByte r (b ∷ bytes) h k =
    crc_loop-IsByte (crc_mix (bit_xor r b)) bytes (crc_mix-lt _ (xor-IsByte r b h k.0)) k.1

pub pkt_crc-IsByte : (bytes : List ℕ) → All IsByte bytes → IsByte (pkt_crc bytes)
unfolding pkt_crc
pkt_crc-IsByte bytes h = crc_loop-IsByte 0 _ (omega arith) (All-take IsByte _ bytes h)

pub ext_crc-IsByte : (bytes : List ℕ) → IsByte (ext_crc bytes)
unfolding ext_crc
ext_crc-IsByte bytes = omega arith

crc_loop-shift_loop :
    (r : ℕ) (bytes : List ℕ) → IsByte r → All IsByte bytes → crc_loop r bytes ≡ shift_loop r bytes
unfolding crc_loop shift_loop
crc_loop-shift_loop r [] h k = refl
crc_loop-shift_loop r (b ∷ bytes) h k =
    let small = xor-IsByte r b h k.0 in
    rw (← crc_mix-shift_mix (bit_xor r b) small)
      (crc_loop-shift_loop (crc_mix (bit_xor r b)) bytes (crc_mix-lt _ small) k.1)

-- On bytes, the table-driven packet CRC is the shift-and-mask recurrence of its doc string over
-- the first 9 bytes, or the first 23 when the extended flag is set.
pub pkt_crc-shift_loop :
    (bytes : List ℕ)
    → All IsByte bytes
    → pkt_crc bytes ≡ shift_loop 0 (take (crc_index_of (first bytes)) bytes)
unfolding pkt_crc
pkt_crc-shift_loop bytes h = crc_loop-shift_loop 0 _ (omega arith) (All-take IsByte _ bytes h)

crc_mix_injective : (r s : ℕ) → IsByte r → IsByte s → crc_mix r ≡ crc_mix s → r ≡ s
crc_mix_injective r s h k e = cc (crc_mix_twice r h, crc_mix_twice s k)

-- Different remainders stay different over the same bytes.
crc_loop_injective :
    (r s : ℕ) (bytes : List ℕ)
    → IsByte r
    → IsByte s
    → All IsByte bytes
    → crc_loop r bytes ≡ crc_loop s bytes
    → r ≡ s
unfolding crc_loop
crc_loop_injective r s [] h k a e = e
crc_loop_injective r s (b ∷ bytes) h k a e =
    let small_r = xor-IsByte r b h a.0 in
    let small_s = xor-IsByte s b k a.0 in
    xor_injective r s b (
      crc_mix_injective _ _ small_r small_s (
        crc_loop_injective (crc_mix (bit_xor r b)) (crc_mix (bit_xor s b)) bytes
          (crc_mix-lt _ small_r) (crc_mix-lt _ small_s) a.1 e))

crc_loop_one_byte :
    (r : ℕ) (xs : List ℕ) (b c : ℕ) (ys : List ℕ)
    → IsByte r
    → All IsByte xs
    → IsByte b
    → IsByte c
    → All IsByte ys
    → crc_loop r (xs ++ b ∷ ys) ≡ crc_loop r (xs ++ c ∷ ys)
    → b ≡ c
unfolding crc_loop
crc_loop_one_byte r [] b c ys h a hb hc d e =
    let small_b = xor-IsByte r b h hb in
    let small_c = xor-IsByte r c h hc in
    xor_injective b c r (
      sym (xor_comm r b)
      ∙ crc_mix_injective _ _ small_b small_c
          (crc_loop_injective _ _ ys (crc_mix-lt _ small_b) (crc_mix-lt _ small_c) d e)
      ∙ xor_comm r c)
crc_loop_one_byte r (x ∷ xs) b c ys h a hb hc d e =
    crc_loop_one_byte (crc_mix (bit_xor r x)) xs b c ys (crc_mix-lt _ (xor-IsByte r x h a.0)) a.1 hb
      hc d e

-- The packet CRC tells apart any two packets that differ in one byte of the part that it covers:
-- if the two cover the same number of bytes and have the same CRC, the two bytes are equal. All
-- values are bytes.
pub pkt_crc_one_byte :
    (xs : List ℕ) (b c : ℕ) (ys : List ℕ)
    → All IsByte (xs ++ b ∷ ys)
    → IsByte c
    → crc_index_of (first (xs ++ b ∷ ys)) ≡ crc_index_of (first (xs ++ c ∷ ys))
    → length xs < crc_index_of (first (xs ++ b ∷ ys))
    → pkt_crc (xs ++ b ∷ ys) ≡ pkt_crc (xs ++ c ∷ ys)
    → b ≡ c
unfolding pkt_crc
pkt_crc_one_byte xs b c ys h hc kind inside e =
    let n = crc_index_of (first (xs ++ b ∷ ys)) in
    let parts = All-split IsByte xs (b ∷ ys) h in
    crc_loop_one_byte 0 xs b c (take (n - length xs - 1) ys) (omega arith) parts.0 parts.1.0 hc
      (All-take IsByte _ ys parts.1.1)
      (ap (crc_loop 0) (sym (take-append_over xs b ys n inside))
        ∙ e
        ∙ ap (λ (m : ℕ). crc_loop 0 (take m (xs ++ c ∷ ys))) (sym kind)
        ∙ ap (crc_loop 0) (take-append_over xs c ys n inside))

-- The data checksum makes the extended data sum to zero: bytes 7 to 21 and the checksum together
-- are a multiple of 256.
pub ext_crc-sum : (bytes : List ℕ) → (sum (slice 7 22 bytes) + ext_crc bytes) % 256 ≡ 0
unfolding ext_crc
ext_crc-sum bytes = omega arith

-- The CRC reads a prefix, whatever follows it.
pub pkt_crc-append :
    (xs ys : List ℕ)
    → 0 < length xs
    → crc_index_of (first xs) ≤ length xs
    → pkt_crc (xs ++ ys) ≡ pkt_crc xs
unfolding pkt_crc
pkt_crc-append xs ys h k =
    ap (λ (t : ℕ). crc_loop 0 (take (crc_index_of t) (xs ++ ys))) (append_get_or xs ys 0 h)
    ∙ ap (crc_loop 0) (take-append_le xs ys (crc_index_of (first xs)) k)

pub ext_crc-append : (xs ys : List ℕ) → 22 ≤ length xs → ext_crc (xs ++ ys) ≡ ext_crc xs
unfolding ext_crc
ext_crc-append xs ys h =
    ap (λ (t : List ℕ). (256 - sum t % 256) % 256) (slice-append 7 22 xs ys (omega arith) h)
