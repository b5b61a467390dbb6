-- ===== src/Packet/Frames/Headless.antt =====
-- packet.py: the line of a packet from its start header on, as it is put together when the radio has
-- consumed the header.
use insteonrf.Common.{
  ℕ, zero, suc, ◌<◌, ◌≡◌, refl, sym, ap, ◌∙◌, arith, Bool, true, false, if◌then◌else◌, Option, some,
  List, [], ◌∷◌, ◌++◌, length, drop, ok, All, length-append,
}
use mathlib.Core.List.{append_assoc}
use insteonrf.Manchester.{Bits, zero as low, one as high, cell_beq, invert_bits}
use insteonrf.Manchester.RoundTrip.{pairs}
use insteonrf.Packet.Crc.Laws.{IsByte}
use insteonrf.Packet.Fields.{Packet, extended}
use insteonrf.Packet.Frames.{
  start_header, to_bits, starts_with, find_first, find_headers, low_bits, count_down,
  expected_indexes, decode_frames, indexes_ok, last_is_zero, packet_at,
}
use insteonrf.Packet.Frames.Loop.{frames, frame, length-code}
use insteonrf.Packet.Frames.RoundTrip.{
  head_code, tail_code, whole, to_bits_lem, byte_pad_cut, ok_inj, decode_all, complete_lem,
  indexes_ok-expected,
}
use insteonrf.Packet.Frames.Whole.{find_headers-found, next_lem, others}

-- the last bits of the preamble and the frames
unfoldable pub headed : Bool → List ℕ → Bits → Bits
headed ext bytes after =
    high ∷ high ∷ low ∷ low ∷ high ∷ (frames (expected_indexes ext) bytes ++ after)

cut_lem :
    (body tail extra noise : Bits)
    → drop 15 ((head_code ++ (body ++ tail)) ++ extra) ++ noise
      ≡ high ∷ high ∷ low ∷ low ∷ high ∷ (body ++ (tail ++ (extra ++ noise)))
unfolding head_code pairs
cut_lem body tail extra noise = simp append_assoc

-- the line of a packet from its header on, with anything behind it
pub to_bits-headed :
    (p : Packet) {bits : Bits} (noise : Bits)
    → length p.bytes ≡ (if extended p then 32 else 13)
    → to_bits p false ≡ ok bits
    → (after : Bits) × (drop 15 bits ++ noise ≡ headed (extended p) p.bytes after)
unfolding whole headed
to_bits-headed p {bits} noise h e =
    let (extra, cut) = byte_pad_cut (whole p) tail_code in
    (
      tail_code ++ (extra ++ noise),
      ap (λ b. drop 15 b ++ noise) (ok_inj (sym e ∙ to_bits_lem p false h) ∙ cut)
          ∙ cut_lem (frames (expected_indexes (extended p)) p.bytes) tail_code extra noise,
    )

header_now :
    (ext : Bool) (bytes : List ℕ) (after : Bits)
    → 0 < length bytes
    → find_first start_header (headed ext bytes after) ≡ some 0
unfolding headed find_first starts_with cell_beq frames expected_indexes pairs low_bits
header_now ext [] after h = absurd (omega arith)
header_now ext (b ∷ bytes) after h = refl

inverted_after :
    (ext : Bool) (bytes : List ℕ) (after : Bits) (n : ℕ)
    → find_first (invert_bits start_header) (headed ext bytes after) ≡ some n
    → 0 < n
unfolding headed find_first starts_with cell_beq invert_bits
inverted_after ext bytes after zero h = absurd (ground (arith, h))
inverted_after ext bytes after (suc n) h = omega arith

-- the header stands at the start of the line, in both polarities
pub find_headers-headed :
    (ext : Bool) (bytes : List ℕ) (after : Bits)
    → 0 < length bytes
    → find_headers (invert_bits (headed ext bytes after))
      ≡ (headed ext bytes after, 0 ∷ others 0 (headed ext bytes after))
find_headers-headed ext bytes after h =
    let line = headed ext bytes after in
    (find_headers-found 0 line (header_now ext bytes after h) (inverted_after ext bytes after)).1
    ∙ next_lem 0 line

two_frames : (m n a b : ℕ) (rest : Bits) → 31 < length (frame m a ++ (frame n b ++ rest))
two_frames m n a b rest = omega (
  arith,
  length-append (frame m a) (frame n b ++ rest),
  length-append (frame n b) rest,
  length-code m a,
  length-code n b,
)

-- the first two frames are long enough for the fuel
length-frames :
    (ext : Bool) (bytes : List ℕ)
    → length bytes ≡ (if ext then 32 else 13)
    → 31 < length (frames (expected_indexes ext) bytes)
unfolding expected_indexes frames count_down
length-frames ext [] h = absurd (ground (arith, h))
length-frames ext (a ∷ []) h = absurd (ground (arith, h))
length-frames true (a ∷ b ∷ bytes) h = two_frames 31 30 a b (frames (count_down 29) bytes)
length-frames false (a ∷ b ∷ bytes) h = two_frames 31 11 a b (frames (count_down 10) bytes)

-- the packet that is read at the header
pub packet_at-headed :
    (p : Packet) (after : Bits) (timestamp : Option ℕ)
    → All IsByte p.bytes
    → length p.bytes ≡ (if extended p then 32 else 13)
    → let q = packet_at (headed (extended p) p.bytes after) 0 timestamp in
      (q.bytes ≡ p.bytes) × (q.complete ≡ true) × (q.index_ok ≡ some true)
unfolding packet_at extended headed decode_frames
packet_at-headed p after timestamp o h =
    let ext = extended p in
    let body = frames (expected_indexes ext) p.bytes in
    let read : decode_frames (headed ext p.bytes after) 5 ≡ (p.bytes, expected_indexes ext) =
      decode_all ext (length (body ++ after)) p.bytes after
        (omega (arith, length-append body after, length-frames ext p.bytes h)) o h in
    (
      ap (λ r. r.0) read,
      ap (λ r. last_is_zero r.1) read ∙ complete_lem ext,
      ap (λ r. some (indexes_ok r.0 r.1)) read
          ∙ ap some (indexes_ok-expected p.bytes (ground (arith, h))),
    )
