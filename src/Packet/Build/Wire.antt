-- ===== src/Packet/Build/Wire.antt =====
-- packet.py, `Packet.from_wire`: the bytes on the wire, with a CRC and pad bytes on demand.
use insteonrf.Common.{
  ℕ, ◌<◌, ◌≡◌, ◌↔◌, ◌≢◌, ◌⊎◌, ◌∙◌, ap, refl, Bool, true, false, some, List, [], ◌∷◌, ◌++◌, map,
  arith, length, take, take-append, All, ok, raise, value_error, ==_self, bit_and, inl, inr,
}
use mathlib.Core.Path.{ap₂}
use mathlib.Core.List.{append_assoc}
use insteonrf.Common.Bits.{and_byte}
use insteonrf.Packet.Crc.{first, crc_index_of, pkt_crc, has_flag, flag_ext}
use insteonrf.Packet.Crc.Laws.{IsByte}
use insteonrf.Packet.Fields.{Packet, of_data, crc_ok, crc_index}
use insteonrf.Packet.Fields.Laws.{crc_ok-cut, crc_index-cut}
use insteonrf.Packet.Build.{add_pad, from_wire}

masked : (raw : List ℕ) → All IsByte raw → map (λ b. bit_and b 0xFF) raw ≡ raw
masked [] h = refl
masked (b ∷ raw) h = ap₂ ◌∷◌ (omega (arith, and_byte b, h.0)) (masked raw h.1)

-- the bytes with their CRC, and their pad if it is wanted
pub sealed_wire : List ℕ → Bool → List ℕ
sealed_wire raw pad = add_pad pad (has_flag (first raw) flag_ext) (raw ++ pkt_crc raw ∷ [])

pub from_wire_lem :
    (raw : List ℕ) (pad : Bool)
    → 0 < length raw
    → length raw ≡ crc_index_of (first raw)
    → All IsByte raw
    → from_wire raw pad true ≡ ok (of_data (sealed_wire raw pad))
unfolding from_wire sealed_wire
from_wire_lem raw pad some_bytes whole h = ground (arith, masked raw h, some_bytes, whole)

pub sealed_wire_cut :
    (raw : List ℕ) (pad : Bool)
    → (rest : List ℕ) × (sealed_wire raw pad ≡ raw ++ pkt_crc raw ∷ rest)
unfolding sealed_wire add_pad
sealed_wire_cut raw true = (_, append_assoc raw (pkt_crc raw ∷ []) _)
sealed_wire_cut raw false = ([], refl)

-- Bytes of the length that their CRC covers are taken off the wire without an error, with a CRC
-- added and with or without pad bytes; the packet's CRC passes, and what it covers are the bytes.
pub from_wire-crc_ok :
    (raw : List ℕ) (pad : Bool)
    → All IsByte raw
    → length raw ≡ crc_index_of (first raw)
    → (p : Packet) × (from_wire raw pad true ≡ ok p)
      × (crc_ok p ≡ some true)
      × (take (crc_index p) p.bytes ≡ raw)
from_wire-crc_ok raw pad octets whole =
    let some_bytes : 0 < length raw = ground (arith, whole) in
    let (rest, cut) = sealed_wire_cut raw pad in
    let p = of_data (sealed_wire raw pad) in
    (
      p,
      from_wire_lem raw pad some_bytes whole octets,
      crc_ok-cut p raw (pkt_crc raw) rest cut some_bytes whole ∙ ap some (==_self (pkt_crc raw)),
      ap (λ n. take n p.bytes) (crc_index-cut p raw (pkt_crc raw) rest cut some_bytes whole)
          ∙ ap (take (length raw)) cut
          ∙ take-append raw _ (length raw) refl,
    )

-- `from_wire` raises for no other reason than its checks: no bytes at all, or a CRC to be added
-- to bytes that are not exactly those that it covers.
pub from_wire_raises :
    (raw : List ℕ) (pad crc : Bool)
    → All IsByte raw
    → (from_wire raw pad crc ≡ raise value_error)
      ↔ ((length raw ≡ 0) ⊎ ((crc ≡ true) × (length raw ≢ crc_index_of (first raw))))
unfolding from_wire
from_wire_raises [] pad crc octets = (λ e. inl refl, λ e. refl)
from_wire_raises (b ∷ raw) pad crc octets = (
  λ e. inr (
    ground (arith, e, masked (b ∷ raw) octets),
    λ whole. ground (arith, e, masked (b ∷ raw) octets, whole),
  ),
  λ e. elim e [
    | inl empty ↦ ground (arith, empty)
    | inr bad ↦ ground (arith, masked (b ∷ raw) octets, bad.0, bad.1)
  ],
)
