-- ===== src/Packet/Fields/Laws.antt =====
-- packet.py, class Packet: the checksums and flags of a packet whose bytes are known in parts.
use insteonrf.Common.{
  ℕ, suc, ◌+◌, ◌<◌, ◌≡◌, refl, sym, ap, ◌∙◌, true, false, none, some, List, ◌∷◌, ◌++◌, arith, ◌==◌,
  lt→ltb, length, get_elem?, length-append, get_elem?-append_mid, append_get_or, list_eq,
}
use insteonrf.Packet.Crc.{crc_index_of, ext_crc, first, pkt_crc}
use insteonrf.Packet.Crc.Laws.{pkt_crc-append, ext_crc-append}
use insteonrf.Packet.Fields.{Packet, crc_ok, ext_crc_ok, extended, crc, calc_crc, crc_index}

-- A packet cut at its CRC byte.
module _ (p : Packet) (xs : List ℕ) (c : ℕ) (ys : List ℕ) (cut : p.bytes ≡ xs ++ c ∷ ys) where
  length-cut : length p.bytes ≡ length xs + suc (length ys)
  length-cut = ap length cut ∙ length-append xs (c ∷ ys)

  pub first-cut : 0 < length xs → first p.bytes ≡ first xs
  first-cut some_bytes = ap first cut ∙ append_get_or xs (c ∷ ys) 0 some_bytes

  get_elem?-cut : (n : ℕ) → length xs ≡ n → get_elem? p.bytes n ≡ some c
  get_elem?-cut n e = ap (λ t. get_elem? t n) cut ∙ get_elem?-append_mid xs c ys n e

  pkt_crc-cut : 0 < length xs → length xs ≡ crc_index_of (first xs) → pkt_crc p.bytes ≡ pkt_crc xs
  pkt_crc-cut some_bytes e = ap pkt_crc cut ∙ pkt_crc-append xs (c ∷ ys) some_bytes (omega arith)

  pub crc_index-cut : 0 < length xs → length xs ≡ crc_index_of (first xs) → crc_index p ≡ length xs
  unfolding crc_index
  crc_index-cut some_bytes e = ap crc_index_of (first-cut some_bytes) ∙ sym e

  pub crc-cut : crc_index p ≡ length xs → crc p ≡ some c
  unfolding crc crc_index
  crc-cut e =
      rw (length-cut, e, get_elem?-cut (length xs) refl)
        (rw (lt→ltb (length xs) (length xs + suc (length ys)) (omega arith)))

  pub calc_crc-cut :
      0 < length xs → length xs ≡ crc_index_of (first xs) → calc_crc p ≡ some (pkt_crc xs)
  unfolding calc_crc
  calc_crc-cut some_bytes e =
      ground (arith, length-cut, first-cut some_bytes, pkt_crc-cut some_bytes e)

  -- The CRC passes when the byte is the CRC of what stands before it.
  pub crc_ok-cut :
      0 < length xs → length xs ≡ crc_index_of (first xs) → crc_ok p ≡ some (c == pkt_crc xs)
  unfolding crc_ok
  crc_ok-cut some_bytes e =
      rw (crc-cut (crc_index-cut some_bytes e), calc_crc-cut some_bytes e, crc_ok)

  pub ext_crc_ok-cut : length xs ≡ 22 → extended p ≡ true → ext_crc_ok p ≡ some (c == ext_crc xs)
  unfolding ext_crc_ok
  ext_crc_ok-cut e ext = ground (
    arith,
    ext,
    length-cut,
    get_elem?-cut 22 e,
    ap ext_crc cut,
    ext_crc-append xs (c ∷ ys) (omega arith),
  )

pub ext_crc_ok-standard : (p : Packet) → extended p ≡ false → ext_crc_ok p ≡ none
unfolding ext_crc_ok
ext_crc_ok-standard p std = rw (std, ext_crc_ok)
