-- ===== src/Packet/Frames/Parsed.antt =====
-- packet.py, `parse_bits` on any line: the fuel of its loops, and what its packets are like.
use insteonrf.Common.{
  not, ◌^◌, ℕ, zero, suc, ◌+◌, ◌≤◌, ◌<◌, ◌≡◌, refl, ap, ◌∙◌, sym, Option, some, List, [], ◌∷◌, Bool,
  true, false, ◌&&◌, if◌then◌else◌, ◌==◌, ltb, length, take, drop, slice, arith, All, length-drop,
  length-take, inl, inr, Bool-cases, Option-cases, Result-cases, list_beq_iff, ◌||◌, ◌⊎◌,
}
use mathlib.Core.Path.{subst}
use native.Mathlib.Nat.{pow-suc}
use insteonrf.Common.Bits.{all_below, all_below_sound}
use insteonrf.Manchester.{Bits, zero as low, one as high, other, manchester_decode}
use insteonrf.Packet.Crc.{first, has_flag, flag_ext}
use insteonrf.Packet.Crc.Laws.{IsByte}
use insteonrf.Packet.Fields.{is_true, is_true, Packet, extended}
use insteonrf.Packet.Frames.{
  frame_bits, start_header, marked, bits_int, decode_loop, decode_frames, expected_indexes,
  count_down, indexes_ok, last_is_zero, starts_with, find_first, find_from, header_loop,
  find_headers, packet_at, parse_at, parse_bits,
}

decode_loop_fuel :
    (n m : ℕ) (bits : Bits)
    → length bits ≤ n
    → length bits ≤ m
    → decode_loop n bits ≡ decode_loop m bits
unfolding decode_loop
decode_loop_fuel zero zero bits h k = refl
decode_loop_fuel zero (suc m) [] h k = refl
decode_loop_fuel zero (suc m) (b ∷ bits) h k = absurd (omega arith)
decode_loop_fuel (suc n) zero [] h k = refl
decode_loop_fuel (suc n) zero (b ∷ bits) h k = absurd (omega arith)
decode_loop_fuel (suc n) (suc m) [] h k = refl
decode_loop_fuel (suc n) (suc m) (b ∷ bits) h k = ground (
  arith,
  decode_loop_fuel n m (drop frame_bits (b ∷ bits))
      (omega (arith, length-drop frame_bits (b ∷ bits)))
      (omega (arith, length-drop frame_bits (b ∷ bits))),
)

starts_with-length :
    (pattern bits : Bits) → starts_with pattern bits ≡ true → length pattern ≤ length bits
unfolding starts_with
starts_with-length [] bits h = omega arith
starts_with-length (c ∷ pattern) [] h = cc
starts_with-length (c ∷ pattern) (b ∷ bits) h = ground (arith, h, starts_with-length pattern bits)

find_first-bound :
    (pattern bits : Bits) {n : ℕ}
    → find_first pattern bits ≡ some n
    → n + length pattern ≤ length bits
unfolding find_first
find_first-bound pattern [] {n} h = ground (arith, h, starts_with-length pattern [])
find_first-bound pattern (b ∷ bits) {n} h = elim (Option-cases (find_first pattern bits)) [
  | inl e ↦ ground (arith, h, e, starts_with-length pattern (b ∷ bits))
  | inr e ↦
      ground
        (arith, h, e.1, find_first-bound pattern bits e.1, starts_with-length pattern (b ∷ bits))
]

find_from-bound :
    (start : ℕ) (bits : Bits) {n : ℕ}
    → find_from start_header start bits ≡ some n
    → (start ≤ n) × (n + 16 ≤ length bits)
unfolding find_from
find_from-bound start bits {n} h = elim (Option-cases (find_first start_header (drop start bits))) [
  | inl e ↦ absurd (ground (arith, h, e))
  | inr e ↦ (
    ground (arith, h, e.1),
    ground (
      arith,
      h,
      e.1,
      find_first-bound start_header (drop start bits) e.1,
      length-drop start bits,
    ),
  )
]

header_loop_fuel :
    (f g at : ℕ) (bits : Bits)
    → at + 16 ≤ length bits
    → length bits < at + f
    → length bits < at + g
    → header_loop f bits (some at) ≡ header_loop g bits (some at)
unfolding header_loop
header_loop_fuel zero g at bits b h k = absurd (omega arith)
header_loop_fuel (suc f) zero at bits b h k = absurd (omega arith)
header_loop_fuel (suc f) (suc g) at bits b h k =
    elim (Option-cases (find_from start_header (at + 16) bits)) [
      | inl e ↦ rw e refl
      | inr e ↦
          let bound = find_from-bound (at + 16) bits e.1 in
          rw e.1 (
            ap (◌∷◌ at) (
              header_loop_fuel f g e.0 bits bound.1 (omega (arith, bound.0))
                (omega (arith, bound.0))))
    ]

bits_int-lt : (n : ℕ) (bits : Bits) → length bits ≤ n → bits_int bits < 2 ^ n
unfolding bits_int
bits_int-lt zero [] h = omega arith
bits_int-lt (suc n) [] h = omega (arith, bits_int-lt n [] (omega arith), pow-suc 2 n)
bits_int-lt zero (b ∷ bits) h = absurd (omega arith)
bits_int-lt (suc n) (low ∷ bits) h = omega (arith, bits_int-lt n bits (omega arith), pow-suc 2 n)
bits_int-lt (suc n) (high ∷ bits) h = omega (arith, bits_int-lt n bits (omega arith), pow-suc 2 n)
bits_int-lt (suc n) (other c ∷ bits) h =
    omega (arith, bits_int-lt n bits (omega arith), pow-suc 2 n)

-- the two ways a round of the loop ends
data Round (fuel : ℕ) (bits : Bits) (result : List ℕ × List ℕ) : Type 0 where
  stop : result ≡ ([], []) → Round fuel bits result
  last : (byte n : ℕ) → byte < 256 → result ≡ (byte ∷ [], n ∷ []) → Round fuel bits result
  more :
      (byte n : ℕ) (rest : List ℕ × List ℕ)
      → byte < 256
      → rest ≡ decode_loop fuel (drop frame_bits bits)
      → result ≡ (byte ∷ rest.0, n ∷ rest.1)
      → Round fuel bits result

byte-lt : (dm : Bits) → bits_int (slice 5 13 dm) < 256
byte-lt dm = bits_int-lt 8 (slice 5 13 dm) (omega (arith, length-take 8 (drop 5 dm)))

decode_loop-Round : (fuel : ℕ) (bits : Bits) → Round fuel bits (decode_loop (suc fuel) bits)
unfolding decode_loop
decode_loop-Round fuel bits = elim (Bool-cases (marked bits)) [
  | inr u ↦ stop (ground (arith, u))
  | inl m ↦ elim (Result-cases (manchester_decode (slice 2 frame_bits bits))) [
    | inl bad ↦ stop (ground (arith, m, bad.1))
    | inr good ↦
        let dm = good.0 in
        elim (Bool-cases (ltb (length dm) 13)) [
          | inl short ↦ stop (ground (arith, m, good.1, short))
          | inr full ↦ elim (Bool-cases (bits_int (take 5 dm) == 0)) [
            | inl end ↦
                last (bits_int (slice 5 13 dm)) (bits_int (take 5 dm)) (byte-lt dm)
                  (ground (arith, m, good.1, full, end))
            | inr on ↦
                more (bits_int (slice 5 13 dm)) (bits_int (take 5 dm))
                  (decode_loop fuel (drop frame_bits bits)) (byte-lt dm) refl
                  (ground (arith, m, good.1, full, on))
          ]
        ]
  ]
]

-- as many counters as bytes, and bytes only
abbrev pub Sound : List ℕ × List ℕ → Type 0
Sound result = (length result.0 ≡ length result.1) × All IsByte result.0

Round-Sound :
    (fuel : ℕ) (bits : Bits) (result : List ℕ × List ℕ)
    → Sound (decode_loop fuel (drop frame_bits bits))
    → Round fuel bits result
    → Sound result
Round-Sound fuel bits result h (stop e) = rw e (refl, tt)
Round-Sound fuel bits result h (last byte n k e) = rw e (refl, (k, tt))
Round-Sound fuel bits result h (more byte n rest k same e) =
    let s = subst (λ r. Sound r) (sym same) h in rw e (ap suc s.0, (k, s.1))

decode_loop-Sound : (fuel : ℕ) (bits : Bits) → Sound (decode_loop fuel bits)
unfolding decode_loop
decode_loop-Sound zero bits = (refl, tt)
decode_loop-Sound (suc fuel) bits =
    Round-Sound fuel bits (decode_loop (suc fuel) bits)
      (decode_loop-Sound fuel (drop frame_bits bits)) (decode_loop-Round fuel bits)

-- a list of counters that is right so far and ends in zero is the whole list
whole_test : Bool → ℕ → Bool
whole_test ext k =
    not (last_is_zero (take k (expected_indexes ext))) || k == length (expected_indexes ext)

whole_lem :
    (ext : Bool) (k : ℕ)
    → k ≤ length (expected_indexes ext)
    → last_is_zero (take k (expected_indexes ext)) ≡ true
    → k ≡ length (expected_indexes ext)
unfolding whole_test expected_indexes count_down all_below
whole_lem true k b z = ground (arith, z, all_below_sound 33 (whole_test true) k refl (omega arith))
whole_lem false k b z =
    ground (arith, z, all_below_sound 14 (whole_test false) k refl (omega arith))

length-expected_indexes : (ext : Bool) → length (expected_indexes ext) ≡ (if ext then 32 else 13)
unfolding expected_indexes count_down
length-expected_indexes true = refl
length-expected_indexes false = refl

complete_length :
    (bytes idx : List ℕ)
    → indexes_ok bytes idx ≡ true
    → last_is_zero idx ≡ true
    → length idx ≡ (if has_flag (first bytes) flag_ext then 32 else 13)
unfolding indexes_ok
complete_length [] idx h z = cc
complete_length (b ∷ bytes) [] h z = cc
complete_length (b ∷ bytes) (n ∷ idx) h z =
    let all = expected_indexes (has_flag b flag_ext) in
    let same : n ∷ idx ≡ take (length (n ∷ idx)) all = (list_beq_iff _ _).0 h in
    let short : length (n ∷ idx) ≤ length all =
      omega (arith, ap length same, length-take (length (n ∷ idx)) all) in
    whole_lem (has_flag b flag_ext) (length (n ∷ idx)) short (ap last_is_zero (sym same) ∙ z)
    ∙ length-expected_indexes (has_flag b flag_ext)

packet_at-whole :
    (bits : Bits) (at : ℕ) (timestamp : Option ℕ)
    → All IsByte (packet_at bits at timestamp).bytes
      × (((packet_at bits at timestamp).complete && is_true (packet_at bits at timestamp).index_ok
            ≡ false)
          ⊎ (length (packet_at bits at timestamp).bytes
              ≡ (if extended (packet_at bits at timestamp) then 32 else 13)))
unfolding packet_at decode_frames extended
packet_at-whole bits at timestamp =
    let run = decode_frames bits (at + 5) in
    let rest = drop (at + 5) bits in
    let sound = decode_loop-Sound (length rest) rest in
    (
      sound.1,
      elim (Bool-cases (last_is_zero run.1)) [
        | inr cut ↦ inl (ground (arith, cut))
        | inl z ↦ elim (Bool-cases (indexes_ok run.0 run.1)) [
          | inr bad ↦ inl (ground (arith, bad))
          | inl good ↦ inr (sound.0 ∙ complete_length run.0 run.1 good z)
        ]
      ],
    )

-- what is said of each parsed packet
abbrev pub IsParsed : ℕ → Packet → Type 0
IsParsed min_bytes p =
    (min_bytes ≤ length p.bytes)
    × All IsByte p.bytes
    × ((p.complete && is_true p.index_ok ≡ false)
        ⊎ (length p.bytes ≡ (if extended p then 32 else 13)))

parse_at-IsParsed :
    (bits : Bits) (offsets : List ℕ) (timestamp : Option ℕ) (min_bytes : ℕ)
    → All (IsParsed min_bytes) (parse_at bits offsets timestamp min_bytes)
unfolding parse_at
parse_at-IsParsed bits [] timestamp min_bytes = tt
parse_at-IsParsed bits (at ∷ offsets) timestamp min_bytes =
    let p = packet_at bits at timestamp in
    let rest = parse_at-IsParsed bits offsets timestamp min_bytes in
    let whole = packet_at-whole bits at timestamp in
    elim (Bool-cases (ltb (length p.bytes) min_bytes)) [
      | inl short ↦ rw short rest
      | inr long ↦ rw long ((ground (arith, long), whole.0, whole.1), rest)
    ]

-- Every packet that `parse_bits` finds in a line consists of bytes, at least as many as were asked
-- for; and it is incomplete, or its counters are wrong, or it has exactly the length of its kind.
pub parse_bits-IsParsed :
    (line : Bits) (timestamp : Option ℕ) (min_bytes : ℕ)
    → All (IsParsed min_bytes) (parse_bits line timestamp min_bytes)
unfolding parse_bits
parse_bits-IsParsed line timestamp min_bytes =
    parse_at-IsParsed (find_headers line).0 (find_headers line).1 timestamp min_bytes

-- The loops of `decode_frames` and `find_headers` do not run out of fuel: with any more fuel than
-- they are given, they return the same.
pub parse_fuel :
    (bits : Bits) (start extra : ℕ)
    → (decode_loop (length (drop start bits) + extra) (drop start bits) ≡ decode_frames bits start)
      × (header_loop (length bits + 1 + extra) bits (find_first start_header bits)
          ≡ header_loop (length bits + 1) bits (find_first start_header bits))
unfolding decode_frames header_loop
parse_fuel bits start extra = (
  decode_loop_fuel (length (drop start bits) + extra) (length (drop start bits)) (drop start bits)
      (omega arith) (omega arith),
  elim (Option-cases (find_first start_header bits)) [
    | inl e ↦ rw (e, header_loop) refl
    | inr e ↦ rw e.1 (
        header_loop_fuel (length bits + 1 + extra) (length bits + 1) e.0 bits
          (find_first-bound start_header bits e.1) (omega arith) (omega arith))
  ],
)
