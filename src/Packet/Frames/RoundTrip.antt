-- ===== src/Packet/Frames/RoundTrip.antt =====
-- packet.py: what `to_bits` makes, read by `decode_frames` and as a packet.
use insteonrf.Common.{
  take_all, ℕ, zero, suc, ◌%◌, ◌-◌, ◌≤◌, ◌<◌, ◌≡◌, refl, ap, ◌∙◌, sym, Option, some, List, [], ◌∷◌,
  ◌++◌, Bool, true, false, if◌then◌else◌, ◌==◌, length, take, drop, ok, arith, All, drop-append,
  length-append, length-take, inl, inr, Bool-cases, list_beq_iff,
}
use mathlib.Core.List.{append-nil, append_assoc}
use insteonrf.Manchester.{Bits, manchester_encode, invert_bits}
use insteonrf.Manchester.RoundTrip.{pairs}
use insteonrf.Packet.Crc.{first, has_flag, flag_ext}
use insteonrf.Packet.Crc.Laws.{IsByte}
use insteonrf.Packet.Fields.{Packet, extended}
use insteonrf.Packet.Frames.{
  alternate, preamble, trailer, byte_pad, to_bits, decode_loop, decode_frames, encode_frames,
  count_down, count_on, index_at, expected_indexes, indexes_ok, packet_at, last_is_zero,
}
use insteonrf.Packet.Frames.Loop.{frame, frames, decode_step, decode_down, encode_down, encode_step}

encode_all :
    (ext : Bool) (bytes : List ℕ)
    → length bytes ≡ (if ext then 32 else 13)
    → encode_frames ext 0 (some 31) bytes ≡ ok (frames (expected_indexes ext) bytes)
unfolding expected_indexes frames index_at count_on
encode_all ext [] h = absurd (ground (arith, h))
encode_all ext (flags ∷ []) h = absurd (ground (arith, h))
encode_all true (flags ∷ byte ∷ bytes) h =
    encode_step true 0 31 flags (some 31) (byte ∷ bytes) (frames (count_down 30) (byte ∷ bytes))
      refl
      (encode_step true 1 30 byte (some 30) bytes (frames (count_down 29) bytes) refl
        (encode_down true 2 29 bytes (omega arith) (omega arith)))
encode_all false (flags ∷ byte ∷ bytes) h =
    encode_step false 0 31 flags (some 31) (byte ∷ bytes) (frames (count_down 11) (byte ∷ bytes))
      refl
      (encode_step false 1 11 byte (some 30) bytes (frames (count_down 10) bytes) refl
        (encode_down false 2 10 bytes (omega arith) (omega arith)))

pub decode_all :
    (ext : Bool) (fuel : ℕ) (bytes : List ℕ) (bits : Bits)
    → 31 < fuel
    → All IsByte bytes
    → length bytes ≡ (if ext then 32 else 13)
    → decode_loop fuel (frames (expected_indexes ext) bytes ++ bits) ≡ (bytes, expected_indexes ext)
unfolding expected_indexes frames
decode_all ext zero bytes bits f o h = absurd (omega arith)
decode_all ext (suc fuel) [] bits f o h = absurd (ground (arith, h))
decode_all true (suc fuel) (flags ∷ bytes) bits f o h =
    ap (decode_loop (suc fuel)) (append_assoc (frame 31 flags) (frames (count_down 30) bytes) bits)
    ∙ decode_step fuel 31 flags (frames (count_down 30) bytes ++ bits) (omega arith) o.0
    ∙ simp (decode_down 30 fuel bytes bits (omega arith) (omega arith) o.1 (omega arith))
decode_all false (suc fuel) (flags ∷ bytes) bits f o h =
    ap (decode_loop (suc fuel)) (append_assoc (frame 31 flags) (frames (count_down 11) bytes) bits)
    ∙ decode_step fuel 31 flags (frames (count_down 11) bytes ++ bits) (omega arith) o.0
    ∙ simp (decode_down 11 fuel bytes bits (omega arith) (omega arith) o.1 (omega arith))

unfoldable pub head_code : Bits
head_code = pairs preamble

unfoldable pub tail_code : Bits
tail_code = pairs trailer

head_lem : manchester_encode preamble ≡ ok head_code
unfolding head_code manchester_encode pairs
head_lem = refl

tail_lem : manchester_encode trailer ≡ ok tail_code
unfolding tail_code manchester_encode pairs alternate trailer
tail_lem = refl

length-head : length head_code ≡ 20
unfolding head_code pairs
length-head = refl

length-tail : length tail_code ≡ 96
unfolding tail_code pairs alternate trailer
length-tail = refl

-- the bits before they are padded
unfoldable pub whole : Packet → Bits
whole p = head_code ++ (frames (expected_indexes (extended p)) p.bytes ++ tail_code)

pub to_bits_lem :
    (p : Packet) (invert : Bool)
    → length p.bytes ≡ (if extended p then 32 else 13)
    → to_bits p invert
      ≡ ok (
          if invert
          then invert_bits (byte_pad (whole p) tail_code)
          else byte_pad (whole p) tail_code)
unfolding to_bits whole
to_bits_lem p invert h = ground (arith, head_lem, tail_lem, encode_all (extended p) p.bytes h)

pub byte_pad_cut : (bits tail : Bits) → (extra : Bits) × (byte_pad bits tail ≡ bits ++ extra)
byte_pad_cut bits tail = elim (Bool-cases (length bits % 8 == 0)) [
  | inl e ↦ ([], rw e (sym (append-nil bits)))
  | inr e ↦ (take (8 - length bits % 8) tail, rw e refl)
]

length-byte_pad : (bits tail : Bits) → 8 ≤ length tail → length (byte_pad bits tail) % 8 ≡ 0
length-byte_pad bits tail h = ground (
  arith,
  length-append bits (take (8 - length bits % 8) tail),
  length-take (8 - length bits % 8) tail,
)

decode_padded :
    (p : Packet) (extra : Bits)
    → All IsByte p.bytes
    → length p.bytes ≡ (if extended p then 32 else 13)
    → decode_frames (whole p ++ extra) 20 ≡ (p.bytes, expected_indexes (extended p))
unfolding decode_frames whole
decode_padded p extra o h =
    let body = frames (expected_indexes (extended p)) p.bytes in
    let rest = tail_code ++ extra in
    ap (λ bits. decode_loop (length bits) bits)
      (ap (drop 20) (append_assoc head_code (body ++ tail_code) extra)
        ∙ drop-append head_code ((body ++ tail_code) ++ extra) 20 length-head
        ∙ append_assoc body tail_code extra)
    ∙ decode_all (extended p) (length (body ++ rest)) p.bytes rest
        (omega (arith, length-append body rest, length-append tail_code extra, length-tail)) o h

-- A packet of bytes that has the full length of its kind is turned into bits without an error, in
-- both polarities, and in a whole number of bytes. Its frames start at the 20th bit, and decoding
-- there gives back its bytes, with exactly the counters that its kind must carry.
pub decode_frames-to_bits :
    (p : Packet)
    → All IsByte p.bytes
    → length p.bytes ≡ (if extended p then 32 else 13)
    → (bits : Bits) × (to_bits p false ≡ ok bits)
      × (to_bits p true ≡ ok (invert_bits bits))
      × (length bits % 8 ≡ 0)
      × (decode_frames bits 20 ≡ (p.bytes, expected_indexes (extended p)))
decode_frames-to_bits p o h =
    let (extra, cut) = byte_pad_cut (whole p) tail_code in
    (
      byte_pad (whole p) tail_code,
      to_bits_lem p false h,
      to_bits_lem p true h,
      length-byte_pad (whole p) tail_code (omega (arith, length-tail)),
      ap (λ bits. decode_frames bits 20) cut ∙ decode_padded p extra o h,
    )

last_is_zero-count_down : (m n : ℕ) → last_is_zero (m ∷ count_down n) ≡ true
unfolding count_down
last_is_zero-count_down m zero = refl
last_is_zero-count_down m (suc n) = last_is_zero-count_down (suc n) n

pub complete_lem : (ext : Bool) → last_is_zero (expected_indexes ext) ≡ true
unfolding expected_indexes
complete_lem ext = last_is_zero-count_down 31 (if ext then 30 else 11)

pub ok_inj : {a b : Bits} → ok a ≡ ok b → a ≡ b
ok_inj h = cc

pub indexes_ok-expected :
    (bytes : List ℕ)
    → 0 < length bytes
    → indexes_ok bytes (expected_indexes (has_flag (first bytes) flag_ext)) ≡ true
unfolding indexes_ok expected_indexes
indexes_ok-expected [] h = absurd (omega arith)
indexes_ok-expected (b ∷ bytes) h =
    (list_beq_iff idx (take (length idx) idx)).1 (sym (take_all (length idx) idx (omega arith)))
  where
    idx : List ℕ
    idx = expected_indexes (has_flag b flag_ext)

-- Read at the header that stands 5 bits before the frames, the bits of `to_bits` give a complete
-- packet with the same bytes, whose counters are right.
pub packet_at-to_bits :
    (p : Packet) {bits : Bits} (timestamp : Option ℕ)
    → All IsByte p.bytes
    → length p.bytes ≡ (if extended p then 32 else 13)
    → to_bits p false ≡ ok bits
    → ((packet_at bits 15 timestamp).bytes ≡ p.bytes)
      × ((packet_at bits 15 timestamp).complete ≡ true)
      × ((packet_at bits 15 timestamp).index_ok ≡ some true)
unfolding packet_at extended
packet_at-to_bits p {bits} timestamp o h e =
    let (made, plain, turned, aligned, read) = decode_frames-to_bits p o h in
    let same : decode_frames bits 20 ≡ (p.bytes, expected_indexes (extended p)) =
      ap (λ line. decode_frames line 20) (ok_inj (sym e ∙ plain)) ∙ read in
    (
      ap (λ r. r.0) same,
      ap (λ r. last_is_zero r.1) same ∙ complete_lem (extended p),
      ap (λ r. some (indexes_ok r.0 r.1)) same
          ∙ ap some (indexes_ok-expected p.bytes (ground (arith, h))),
    )
