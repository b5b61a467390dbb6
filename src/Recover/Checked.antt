-- ===== src/Recover/Checked.antt =====
-- recover.py: what a recovered packet has passed.
use mathlib.Core.Path.{subst}
use insteonrf.Common.{
  drop, slice, length, ℕ, ◌+◌, ◌≤◌, ◌≡◌, ◌==◌, refl, ap, arith, Bool, true, false, ◌||◌,
  if◌then◌else◌, ltb, Option, none, some, List, Bool-cases, inl, inr,
}
use insteonrf.Manchester.{Bits}
use insteonrf.Packet.Fields.{hops_ok}
use insteonrf.Packet.Frames.{marker_offset}
use insteonrf.Packet.Crc.{has_flag, flag_ext}
use insteonrf.Recover.At.{
  Limits, recovered, repaired_from, recover_frames, recover_at, packed, read_frames,
}
use insteonrf.Recover.Flips.{Repairs, repair-Repairs, IsFlipped, differ_self}
use insteonrf.Recover.{
  Logical, Recovered, crc_checks, bytes_from, index_errors, repair, logical, frame_logical_bits,
  frame_index_bits, number_of,
}

-- what a recovered packet has passed
pub record IsChecked (lim : Limits) (r : Recovered) : Type 0 where
  pub hops : hops_ok r.packet ≡ true
  pub crc : (extended : Bool) × (crc_checks r.packet.bytes extended ≡ true)
  pub flips : r.corrected ≤ lim.max_flips
  pub counters : r.index_errors ≤ lim.max_index_errors
  pub marked : (r.packet.corrected ≡ r.corrected) × (r.packet.index_ok ≡ some true)

-- what is said of an answer that may be missing
abbrev Passed : Limits → List Logical → ℕ → Recovered → Type 0
Passed lim ls nframes r = IsChecked lim r × IsFlipped nframes ls r.packet.bytes r.corrected

abbrev Checked : Limits → List Logical → ℕ → Option Recovered → Type 0
Checked lim ls nframes o = (r : Recovered) → o ≡ some r → Passed lim ls nframes r

same-Passed :
    (lim : Limits) (ls : List Logical) (nframes : ℕ) (q r : Recovered)
    → q ≡ r
    → Passed lim ls nframes q
    → Passed lim ls nframes r
same-Passed lim ls nframes q r e h = subst (λ x. Passed lim ls nframes x) e h

recovered-Checked :
    (lim : Limits) (bits : Bits) (pos : ℕ) (timestamp : Option ℕ) (extended : Bool)
    (ls : List Logical) (nframes idx_bad : ℕ) (bytes : List ℕ) (n : ℕ)
    → crc_checks bytes extended ≡ true
    → n ≤ lim.max_flips
    → idx_bad ≤ lim.max_index_errors
    → IsFlipped nframes ls bytes n
    → Checked lim ls nframes (recovered bits pos timestamp ls nframes idx_bad (bytes, n))
recovered-Checked lim bits pos timestamp extended ls nframes idx_bad bytes n good few counted
      flipped r =
    elim (Bool-cases (hops_ok (packed bits pos timestamp nframes (bytes, n)))) [
      | inr bad ↦ rw bad (λ e. absurd cc)
      | inl fine ↦ rw fine (λ e.
          same-Passed lim ls nframes _ r (ap (λ o. elim o [ none ↦ r | some x ↦ x ]) e) (
            record {
              hops = fine;
              crc = (extended, good);
              flips = few;
              counters = counted;
              marked = (refl, refl);
            },
            flipped,
          ))
    ]

repaired-Checked :
    (lim : Limits) (bits : Bits) (pos : ℕ) (timestamp : Option ℕ) (extended : Bool)
    (ls : List Logical) (nframes : ℕ) (o : Option (List ℕ × ℕ))
    → Repairs ls nframes extended lim.max_flips o
    → Checked lim ls nframes (repaired_from bits pos timestamp ls nframes o)
repaired-Checked lim bits pos timestamp extended ls nframes none h = λ r e. absurd cc
repaired-Checked lim bits pos timestamp extended ls nframes (some (bytes, n)) h =
    let k = h bytes n refl in
    recovered-Checked lim bits pos timestamp extended ls nframes 0 bytes n k.0 k.1 (omega arith) k.2

if-Checked :
    (lim : Limits) (ls : List Logical) (nframes : ℕ) (c : Bool) (o : Option Recovered)
    → Checked lim ls nframes o
    → Checked lim ls nframes (if c then o else none)
if-Checked lim ls nframes true o h = h
if-Checked lim ls nframes false o h = λ r e. absurd cc

frames-Checked :
    (lim : Limits) (bits : Bits) (pos : ℕ) (timestamp : Option ℕ) (extended : Bool)
    (ls : List Logical) (nframes : ℕ)
    → Checked lim ls nframes (recover_frames lim bits pos timestamp extended ls nframes)
unfolding recover_frames
frames-Checked lim bits pos timestamp extended ls nframes =
    let idx_bad = index_errors ls nframes extended in
    elim (Bool-cases (nframes == 0 || ltb lim.max_index_errors idx_bad)) [
      | inl broken ↦ rw broken (λ r e. absurd cc)
      | inr counted ↦ elim (Bool-cases (crc_checks (bytes_from nframes ls) extended)) [
        | inl good ↦ rw counted (
            rw good (
              recovered-Checked lim bits pos timestamp extended ls nframes idx_bad
                (bytes_from nframes ls) 0 good (omega arith) (ground (arith, counted))
                (ls, refl, omega (arith, differ_self ls))))
        | inr bad ↦ rw counted (
            rw bad (
              if-Checked lim ls nframes lim.allow_repair
                (repaired_from bits pos timestamp ls nframes
                  (repair ls nframes extended lim.max_flips lim.candidates))
                (repaired-Checked lim bits pos timestamp extended ls nframes
                  (repair ls nframes extended lim.max_flips lim.candidates)
                  (repair-Repairs ls nframes extended lim.max_flips lim.candidates))))
      ]
    ]

-- the bits of the frames from `pos` on, as they were received, and how many frames are there
abbrev pub frames_at : Bits → ℕ → List Logical × ℕ
frames_at bits pos =
    let first = drop (pos + marker_offset) bits in
    let ls = logical frame_logical_bits (drop 2 first) in
    let extended = has_flag (number_of (slice frame_index_bits frame_logical_bits ls)) flag_ext in
    read_frames (if extended then 32 else 13) first

pub recover_at-IsChecked :
    (lim : Limits) (bits : Bits) (pos : ℕ) (timestamp : Option ℕ) (r : Recovered)
    → recover_at lim bits pos timestamp ≡ some r
    → IsChecked lim r
      × IsFlipped (frames_at bits pos).1 (frames_at bits pos).0 r.packet.bytes r.corrected
unfolding recover_at
recover_at-IsChecked lim bits pos timestamp r =
    let first = drop (pos + marker_offset) bits in
    let ls = logical frame_logical_bits (drop 2 first) in
    let extended = has_flag (number_of (slice frame_index_bits frame_logical_bits ls)) flag_ext in
    let frames = read_frames (if extended then 32 else 13) first in
    elim (Bool-cases (ltb (length ls) frame_logical_bits)) [
      | inl short ↦ rw short (λ e. absurd cc)
      | inr whole ↦ rw whole (frames-Checked lim bits pos timestamp extended frames.0 frames.1 r)
    ]
