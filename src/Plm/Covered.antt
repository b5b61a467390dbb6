-- ===== src/Plm/Covered.antt =====
-- plm.py, `message_key`: the bytes under the CRC of a packet that is long enough.
use insteonrf.Common.{
  ℕ, zero, suc, ◌≤◌, ◌<◌, ◌≡◌, refl, sym, ap, ◌∙◌, List, [], ◌∷◌, arith, if◌then◌else◌, length,
  take, length-take, list_eq,
}
use insteonrf.Packet.Crc.{first, crc_index_of}
use insteonrf.Packet.Fields.{Packet, extended, crc_index}
use insteonrf.Plm.{need, message_key, mask_first}

pub crc_index_lem : (p : Packet) → crc_index p ≡ (if extended p then 23 else 9)
unfolding crc_index extended
crc_index_lem p = refl

pub kind_of : (p : Packet) → crc_index_of (first p.bytes) ≡ (if extended p then 23 else 9)
unfolding extended
kind_of p = refl

pub first-take : (n : ℕ) (xs : List ℕ) → 0 < n → first (take n xs) ≡ first xs
first-take zero xs h = absurd (omega arith)
first-take (suc n) [] h = refl
first-take (suc n) (x ∷ xs) h = refl

-- The bytes under the CRC of a packet that is long enough.
pub covered :
    (p : Packet)
    → need p ≤ length p.bytes
    → (0 < length (take (crc_index p) p.bytes))
      × (length (take (crc_index p) p.bytes) ≡ crc_index_of (first (take (crc_index p) p.bytes)))
covered p h = (
  ground (arith, length-take (crc_index p) p.bytes, index, positive),
  ap (λ n. length (take n p.bytes)) index ∙ full ∙ sym kind,
)
  where
    n : ℕ
    n = if extended p then 23 else 9

    index : crc_index p ≡ n
    index = crc_index_lem p

    positive : 0 < n
    positive = ground arith

    full : length (take n p.bytes) ≡ n
    full = ground (arith, length-take n p.bytes)

    kind : crc_index_of (first (take (crc_index p) p.bytes)) ≡ n
    kind =
        ap (λ m. crc_index_of (first (take m p.bytes))) index
        ∙ ap crc_index_of (first-take n p.bytes positive)
        ∙ kind_of p

pub key_covered :
    (p : Packet) → need p ≤ length p.bytes → message_key p ≡ mask_first (take (crc_index p) p.bytes)
unfolding message_key
key_covered p h = ground (arith, crc_index_lem p)
