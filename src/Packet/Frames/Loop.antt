-- ===== src/Packet/Frames/Loop.antt =====
-- packet.py, `decode_frames` on what `to_bits` makes, frame by frame.
use insteonrf.Common.{
  ℕ, zero, suc, ◌+◌, ◌/◌, ◌%◌, ◌<◌, ◌≡◌, refl, ap, ◌∙◌, Option, some, List, [], ◌∷◌, ◌++◌, Bool,
  false, if◌then◌else◌, ◌==◌, length, take, drop, slice, ok, arith, All, All-append, take_all,
  take-append, drop-append, length-append, ==_iff, inl, inr, Bool-cases,
}
use insteonrf.Common.Bits.{all_below, all_below_sound}
use mathlib.Core.List.{append_assoc}
use insteonrf.Manchester.{Bits, IsBit, manchester_encode}
use insteonrf.Manchester.RoundTrip.{
  pairs, manchester_encode-pairs, manchester_decode-pairs, length-pairs,
}
use insteonrf.Packet.Crc.Laws.{IsByte}
use insteonrf.Packet.Frames.{
  marker, low_bits, bits_int, decode_loop, encode_frames, count_on, count_down, index_at,
}

low_bits-IsBit : (width n : ℕ) → All IsBit (low_bits width n)
unfolding low_bits
low_bits-IsBit zero n = tt
low_bits-IsBit (suc width) n = elim (Bool-cases (n % 2 == 0)) [
  | inl e ↦ rw e (tt, low_bits-IsBit width (n / 2))
  | inr e ↦ rw e (tt, low_bits-IsBit width (n / 2))
]

length-low_bits : (width n : ℕ) → length (low_bits width n) ≡ width
unfolding low_bits
length-low_bits zero n = refl
length-low_bits (suc width) n = ap suc (length-low_bits width (n / 2))

five_bits : (n : ℕ) → n < 32 → bits_int (low_bits 5 n) ≡ n
unfolding all_below bits_int low_bits
five_bits n h = (==_iff _ _).0 (all_below_sound 32 (λ n. bits_int (low_bits 5 n) == n) n refl h)

eight_bits : (n : ℕ) → n < 256 → bits_int (low_bits 8 n) ≡ n
unfolding all_below bits_int low_bits
eight_bits n h = (==_iff _ _).0 (all_below_sound 256 (λ n. bits_int (low_bits 8 n) == n) n refl h)

-- the logical bits of a frame, and the frame
abbrev pub logical : ℕ → ℕ → Bits
logical n byte = low_bits 5 n ++ low_bits 8 byte

abbrev pub frame : ℕ → ℕ → Bits
frame n byte = marker ++ pairs (logical n byte)

logical-IsBit : (n byte : ℕ) → All IsBit (logical n byte)
logical-IsBit n byte =
    All-append IsBit (low_bits 5 n) (low_bits 8 byte) (low_bits-IsBit 5 n) (low_bits-IsBit 8 byte)

pub length-code : (n byte : ℕ) → length (pairs (logical n byte)) ≡ 26
length-code n byte = omega (
  arith,
  length-pairs (logical n byte) (logical-IsBit n byte),
  length-append (low_bits 5 n) (low_bits 8 byte),
  length-low_bits 5 n,
  length-low_bits 8 byte,
)

pub decode_step :
    (fuel n byte : ℕ) (bits : Bits)
    → n < 32
    → byte < 256
    → decode_loop (suc fuel) (frame n byte ++ bits) ≡ (
        if n == 0
        then (byte ∷ [], n ∷ [])
        else (byte ∷ (decode_loop fuel bits).0, n ∷ (decode_loop fuel bits).1))
unfolding decode_loop
decode_step fuel n byte bits h k = simp (
  code_lem,
  manchester_decode-pairs (logical n byte) (logical-IsBit n byte),
  take-append (low_bits 5 n) (low_bits 8 byte) 5 (length-low_bits 5 n),
  byte_lem,
  length_lem,
  five_bits n h,
  eight_bits byte k,
  rest_lem,
)
  where
    code_lem : slice 2 28 (frame n byte ++ bits) ≡ pairs (logical n byte)
    code_lem = take-append (pairs (logical n byte)) bits 26 (length-code n byte)

    rest_lem : drop 28 (frame n byte ++ bits) ≡ bits
    rest_lem = drop-append (pairs (logical n byte)) bits 26 (length-code n byte)

    byte_lem : slice 5 13 (logical n byte) ≡ low_bits 8 byte
    byte_lem =
        ap (take 8) (drop-append (low_bits 5 n) (low_bits 8 byte) 5 (length-low_bits 5 n))
        ∙ take_all 8 (low_bits 8 byte) (omega (arith, length-low_bits 8 byte))

    length_lem : length (logical n byte) ≡ 13
    length_lem = omega (
      arith,
      length-append (low_bits 5 n) (low_bits 8 byte),
      length-low_bits 5 n,
      length-low_bits 8 byte,
    )

-- the frames of some counters and bytes
unfoldable pub frames : List ℕ → List ℕ → Bits
frames [] bytes = []
frames (n ∷ idx) [] = []
frames (n ∷ idx) (byte ∷ bytes) = frame n byte ++ frames idx bytes

encode_frame : (n byte : ℕ) → manchester_encode (logical n byte) ≡ ok (pairs (logical n byte))
encode_frame n byte = manchester_encode-pairs (logical n byte) (logical-IsBit n byte)

pub encode_step :
    (ext : Bool) (i n byte : ℕ) (idx : Option ℕ) (bytes : List ℕ) (rest : Bits)
    → index_at ext i idx ≡ some n
    → encode_frames ext (i + 1) (count_on n) bytes ≡ ok rest
    → encode_frames ext i idx (byte ∷ bytes) ≡ ok (frame n byte ++ rest)
unfolding encode_frames
encode_step ext i n byte idx bytes rest h e = ground (arith, h, encode_frame n byte, e)

later : (ext : Bool) (i n : ℕ) → 1 < i → index_at ext i (some n) ≡ some n
unfolding index_at
later ext i n h = ground (arith, h)

-- a packet's frames, from the third on
pub encode_down :
    (ext : Bool) (i n : ℕ) (bytes : List ℕ)
    → 1 < i
    → length bytes ≡ n + 1
    → encode_frames ext i (some n) bytes ≡ ok (frames (count_down n) bytes)
unfolding encode_frames frames count_down count_on
encode_down ext i n [] h e = absurd (omega arith)
encode_down ext i zero (byte ∷ []) h e =
    encode_step ext i 0 byte (some 0) [] [] (later ext i 0 h) refl
encode_down ext i zero (byte ∷ b ∷ bytes) h e = absurd (omega arith)
encode_down ext i (suc n) (byte ∷ bytes) h e =
    encode_step ext i (suc n) byte (some (suc n)) bytes (frames (count_down n) bytes)
      (later ext i (suc n) h) (encode_down ext (i + 1) n bytes (omega arith) (omega arith))

not_zero : (n : ℕ) → (suc n == 0) ≡ false
not_zero n = ground arith

pub decode_down :
    (n fuel : ℕ) (bytes : List ℕ) (bits : Bits)
    → n < fuel
    → n < 32
    → All IsByte bytes
    → length bytes ≡ n + 1
    → decode_loop fuel (frames (count_down n) bytes ++ bits) ≡ (bytes, count_down n)
unfolding frames count_down
decode_down n zero bytes bits f h o e = absurd (omega arith)
decode_down n (suc fuel) [] bits f h o e = absurd (omega arith)
decode_down zero (suc fuel) (byte ∷ []) bits f h o e =
    ap (decode_loop (suc fuel)) (append_assoc (frame 0 byte) [] bits)
    ∙ decode_step fuel 0 byte bits h o.0
decode_down zero (suc fuel) (byte ∷ b ∷ bytes) bits f h o e = absurd (omega arith)
decode_down (suc n) (suc fuel) (byte ∷ bytes) bits f h o e =
    let rest = decode_down n fuel bytes bits (omega arith) (omega arith) o.1 (omega arith) in
    ap (decode_loop (suc fuel))
      (append_assoc (frame (suc n) byte) (frames (count_down n) bytes) bits)
    ∙ decode_step fuel (suc n) byte (frames (count_down n) bytes ++ bits) h o.0
    ∙ simp (rest, not_zero n)
