-- ===== src/Cli/Build/Sealed.antt =====
-- cli.py, `build_from_args` of raw bytes: the packet, with its CRC after the overrides.
use insteonrf.Common.{
  ℕ, zero, suc, ◌/◌, ◌%◌, ◌==◌, ltb, Bool, true, false, ◌||◌, Option, none, some, List, [], ◌∷◌,
  ◌++◌, length, take, drop, ok, All, ◌<◌, ◌≡◌, refl, ap, sym, ◌∙◌, arith, ==_iff, ==_self,
  Bool-cases, inl, inr, take-append,
}
use mathlib.Core.Path.{subst}
use insteonrf.Common.Bits.{and_three, and_bit4, and_bit5, and_bit6, and_bit7}
use insteonrf.Packet.Crc.{
  first, crc_index_of, pkt_crc, has_flag, flag_ack, flag_ext, flag_group, flag_bcast,
}
use insteonrf.Packet.Crc.Laws.{IsByte}
use insteonrf.Packet.Fields.{
  Packet, of_data, flags_byte, ack, hops_left, max_hops, extended, group_msg, bcast, crc_ok,
  crc_index, calc_crc,
}
use insteonrf.Packet.Fields.Laws.{calc_crc-cut, crc_index-cut, crc_ok-cut}
use insteonrf.Packet.Flags.Laws.{bit_value, has_flag_ack}
use insteonrf.Packet.Build.Wire.{sealed_wire, from_wire_lem, sealed_wire_cut}
use insteonrf.Cli.Build.{
  Args, with_flags, reseal, set_byte, override, read_words, without_colons, build_raw,
  build_from_args,
}
use insteonrf.Cli.Build.Raw.{or_else, override_lem}

set_byte-append :
    (xs ys : List ℕ) (c d n : ℕ) → length xs ≡ n → set_byte n c (xs ++ d ∷ ys) ≡ xs ++ c ∷ ys
unfolding set_byte
set_byte-append [] ys c d zero e = refl
set_byte-append [] ys c d (suc n) e = absurd (omega (arith, e))
set_byte-append (x ∷ xs) ys c d zero e = absurd (omega (arith, e))
set_byte-append (x ∷ xs) ys c d (suc n) e =
    ap (λ bytes. x ∷ bytes) (set_byte-append xs ys c d n (omega (arith, e)))

-- a packet of some bytes and their CRC
IsSealed : List ℕ → Packet → Type 0
IsSealed xs p = (rest : List ℕ) × (p.bytes ≡ xs ++ pkt_crc xs ∷ rest)

crc_index_of-override : (a : Args) (f : ℕ) → f < 256 → crc_index_of (override a f) ≡ crc_index_of f
crc_index_of-override a f h =
    let e = (override_lem a f h).ext_kept in ground (arith, and_bit4 f, and_bit4 (override a f), e)

-- a packet whose flags are new, with its CRC
resealed :
    (p : Packet) (f c : ℕ) (raw rest : List ℕ)
    → length (f ∷ raw) ≡ crc_index_of f
    → p.bytes ≡ (f ∷ raw) ++ c ∷ rest
    → IsSealed (f ∷ raw) (reseal true p (calc_crc p))
unfolding IsSealed
resealed p f c raw rest whole cut =
    let xs = f ∷ raw in
    (
      rest,
      rw (calc_crc-cut p xs c rest cut (omega arith) whole) (
          rw (crc_index-cut p xs c rest cut (omega arith) whole) (
            ap (set_byte (length xs) (pkt_crc xs)) cut
            ∙ set_byte-append xs rest (pkt_crc xs) c (length xs) refl)),
    )

with_flags-IsSealed :
    (a : Args) (f : ℕ) (raw : List ℕ) (p : Packet)
    → f < 256
    → length (f ∷ raw) ≡ crc_index_of f
    → IsSealed (f ∷ raw) p
    → IsSealed (override a f ∷ raw) (with_flags a true p)
unfolding with_flags IsSealed set_byte
with_flags-IsSealed a f raw p byte whole (rest, cut) =
    let flags : flags_byte p ≡ f = ap first cut in
    let new = override a f in
    let q : Packet = record p { bytes = set_byte 0 new p.bytes } in
    let cut_q : q.bytes ≡ (new ∷ raw) ++ pkt_crc (f ∷ raw) ∷ rest = ap (set_byte 0 new) cut in
    rw flags (elim (Bool-cases (new == f)) [
      | inl same ↦ rw same (
        rest,
        subst (λ n. p.bytes ≡ (n ∷ raw) ++ pkt_crc (n ∷ raw) ∷ rest) (sym ((==_iff new f).0 same))
            cut,
      )
      | inr other ↦ rw other (
          resealed q new (pkt_crc (f ∷ raw)) raw rest (whole ∙ sym (crc_index_of-override a f byte))
            cut_q)
    ])

-- what a packet says of its flags
pub record IsFlagged (a : Args) (f : ℕ) (p : Packet) : Type 0 where
  pub ack_is : ack p ≡ or_else a.ack (has_flag f flag_ack)
  pub left_is : hops_left p ≡ or_else a.hops_left (f / 4) % 4
  pub max_is : max_hops p ≡ or_else a.max_hops f % 4
  pub extended_is : extended p ≡ has_flag f flag_ext
  pub group_is : group_msg p ≡ has_flag f flag_group
  pub bcast_is : bcast p ≡ has_flag f flag_bcast

ack_of :
    (o : Option Bool) (f r : ℕ)
    → r / 32 % 2 ≡ elim o [ none ↦ f / 32 % 2 | some b ↦ bit_value b 1 ]
    → has_flag r flag_ack ≡ or_else o (has_flag f flag_ack)
ack_of none f r e = ground (arith, and_bit5 f, and_bit5 r, e)
ack_of (some b) f r e = has_flag_ack r b e

flagged : (a : Args) (f : ℕ) (p : Packet) → f < 256 → flags_byte p ≡ override a f → IsFlagged a f p
unfolding ack hops_left max_hops extended group_msg bcast
flagged a f p byte e =
    let o = override_lem a f byte in
    let r = override a f in
    record {
      ack_is = rw e (ack_of a.ack f r o.ack_set);
      left_is = rw e (and_three (r / 4) ∙ o.left_set);
      max_is = rw e (and_three r ∙ o.max_set);
      extended_is = rw e (ground (arith, and_bit4 f, and_bit4 r, o.ext_kept));
      group_is = rw e (ground (arith, and_bit6 f, and_bit6 r, o.upper_kept));
      bcast_is = rw e (ground (arith, and_bit7 f, and_bit7 r, o.upper_kept));
    }

-- the length of bytes that their CRC covers
whole-length : (f n : ℕ) → n ≡ crc_index_of f → (ltb n 9 ≡ false) × ((n == 9 || n == 23) ≡ true)
whole-length f n e = ground (arith, e)

build_raw_lem :
    (hex_int : List ℕ → Option ℕ) (a : Args) (f : ℕ) (raw : List ℕ)
    → read_words hex_int (without_colons a.words) ≡ ok (f ∷ raw)
    → All IsByte (f ∷ raw)
    → length (f ∷ raw) ≡ crc_index_of f
    → build_raw hex_int a ≡ ok (with_flags a true (of_data (sealed_wire (f ∷ raw) (a.pad || true))))
unfolding build_raw
build_raw_lem hex_int a f raw read octets whole =
    let n = whole-length f (length (f ∷ raw)) whole in
    rw (read, n.0, n.1, from_wire_lem (f ∷ raw) (a.pad || true) (omega arith) whole octets) refl

-- Raw bytes as many as the CRC covers, each below 256, make a packet whatever the arguments say: its
-- CRC passes, under the CRC stand the bytes but for their flags, its acknowledgement and its hop
-- counts are those of the arguments that override them, modulo 4, or else those of the bytes, and
-- the other flags are those of the bytes.
pub build_from_args-raw :
    (hex_int : List ℕ → Option ℕ) (a : Args) (f : ℕ) (raw : List ℕ)
    → a.raw ≡ true
    → read_words hex_int (without_colons a.words) ≡ ok (f ∷ raw)
    → All IsByte (f ∷ raw)
    → length (f ∷ raw) ≡ crc_index_of f
    → (p : Packet) × (build_from_args hex_int a ≡ ok p)
      × (crc_ok p ≡ some true)
      × (drop 1 (take (crc_index p) p.bytes) ≡ raw)
      × IsFlagged a f p
unfolding build_from_args IsSealed build_raw with_flags
build_from_args-raw hex_int a f raw is_raw read octets whole =
    let p0 = of_data (sealed_wire (f ∷ raw) (a.pad || true)) in
    let p = with_flags a true p0 in
    let new = override a f in
    let xs = new ∷ raw in
    let start = sealed_wire_cut (f ∷ raw) (a.pad || true) in
    let (rest, cut) = with_flags-IsSealed a f raw p0 octets.0 whole start in
    let whole_new : length xs ≡ crc_index_of new =
      whole ∙ sym (crc_index_of-override a f octets.0) in
    (
      p,
      rw is_raw (build_raw_lem hex_int a f raw read octets whole),
      crc_ok-cut p xs (pkt_crc xs) rest cut (omega arith) whole_new
          ∙ ap some (==_self (pkt_crc xs)),
      ap (λ n. drop 1 (take n p.bytes))
            (crc_index-cut p xs (pkt_crc xs) rest cut (omega arith) whole_new)
          ∙ ap (λ bytes. drop 1 (take (length xs) bytes)) cut
          ∙ ap (drop 1) (take-append xs _ (length xs) refl),
      flagged a f p octets.0 (ap first cut),
    )
