-- ===== src/Plm/Key.antt =====
-- plm.py, `message_key`: which packets share a key.
use insteonrf.Common.{
  ℕ, zero, suc, ◌+◌, ◌-◌, ◌*◌, ◌/◌, ◌%◌, ◌≤◌, ◌<◌, ◌≡◌, refl, sym, ap, ◌∙◌, ◌↔◌, List, [], ◌∷◌,
  arith, length, take, drop, slice, take_all, list_eq,
}
use mathlib.Core.Path.{ap₂}
use insteonrf.Common.Bits.{and_hops}
use insteonrf.Packet.Crc.{first}
use insteonrf.Packet.Fields.{Packet, crc_index}
use insteonrf.Plm.{message_key, mask_first, mask_hops, need}
use insteonrf.Plm.Covered.{covered, first-take, key_covered, crc_index_lem}

-- Masking keeps the message type and the extended flag (the high nibble) and the maximum of hops.
mask_hops_lem : (b : ℕ) → mask_hops b ≡ b / 16 * 16 + b % 4
mask_hops_lem b = omega (arith, and_hops b)

mask_hops_iff : (a b : ℕ) → (mask_hops a ≡ mask_hops b) ↔ ((a / 16 ≡ b / 16) × (a % 4 ≡ b % 4))
mask_hops_iff a b = (
  λ e. omega (arith, mask_hops_lem a, mask_hops_lem b),
  λ e. omega (arith, mask_hops_lem a, mask_hops_lem b),
)

mask_first_iff :
    (xs ys : List ℕ)
    → 0 < length xs
    → 0 < length ys
    → (mask_first xs ≡ mask_first ys)
      ↔ ((first xs / 16 ≡ first ys / 16) × (first xs % 4 ≡ first ys % 4) × (drop 1 xs ≡ drop 1 ys))
mask_first_iff [] ys h k = absurd (omega arith)
mask_first_iff (x ∷ xs) [] h k = absurd (omega arith)
mask_first_iff (x ∷ xs) (y ∷ ys) h k = (
  λ e. let m = (mask_hops_iff x y).0 (ap first e) in (m.0, m.1, ap (drop 1) e),
  λ e. ap₂ ◌∷◌ ((mask_hops_iff x y).1 (e.0, e.1)) e.2,
)

index_pos : (p : Packet) → 0 < crc_index p
index_pos p = ground (arith, crc_index_lem p)

head : (p : Packet) → need p ≤ length p.bytes → first (take (crc_index p) p.bytes) ≡ first p.bytes
head p h = first-take (crc_index p) p.bytes (index_pos p)

drop-take : (n : ℕ) (xs : List ℕ) → drop 1 (take n xs) ≡ take (n - 1) (drop 1 xs)
drop-take zero xs = refl
drop-take (suc n) [] = sym (take_all (suc n - 1) [] (omega arith))
drop-take (suc n) (x ∷ xs) = let e : n ≡ suc n - 1 = omega arith in ap (λ m. take m xs) e

after :
    (p : Packet)
    → need p ≤ length p.bytes
    → drop 1 (take (crc_index p) p.bytes) ≡ slice 1 (crc_index p) p.bytes
after p h = drop-take (crc_index p) p.bytes

-- For two packets that are long enough, the keys agree exactly when the packets agree on every
-- byte under the CRC except for the two bits of hops-left.
pub message_key_iff :
    (p q : Packet)
    → need p ≤ length p.bytes
    → need q ≤ length q.bytes
    → (message_key p ≡ message_key q) ↔ (
        (first p.bytes / 16 ≡ first q.bytes / 16)
        × (first p.bytes % 4 ≡ first q.bytes % 4)
        × (slice 1 (crc_index p) p.bytes ≡ slice 1 (crc_index q) q.bytes))
message_key_iff p q h k = (
  λ e.
      let t = parts.0 (sym (key_covered p h) ∙ e ∙ key_covered q k) in
      (
        omega (arith, t.0, head p h, head q k),
        omega (arith, t.1, head p h, head q k),
        sym (after p h) ∙ t.2 ∙ after q k,
      ),
  λ t.
      key_covered p h
      ∙ parts.1 (
        omega (arith, t.0, head p h, head q k),
        omega (arith, t.1, head p h, head q k),
        after p h ∙ t.2 ∙ sym (after q k),
      )
      ∙ sym (key_covered q k),
)
  where
    parts : (mask_first (take (crc_index p) p.bytes) ≡ mask_first (take (crc_index q) q.bytes)) ↔ (
        (first (take (crc_index p) p.bytes) / 16 ≡ first (take (crc_index q) q.bytes) / 16)
        × (first (take (crc_index p) p.bytes) % 4 ≡ first (take (crc_index q) q.bytes) % 4)
        × (drop 1 (take (crc_index p) p.bytes) ≡ drop 1 (take (crc_index q) q.bytes)))
    parts = mask_first_iff _ _ (covered p h).0 (covered q k).0
