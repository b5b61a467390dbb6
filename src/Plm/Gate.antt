-- ===== src/Plm/Gate.antt =====
-- plm.py, `to_plm_bytes`: its checks, and its frame byte by byte.
use insteonrf.Common.{
  ℕ, ◌≤◌, ◌≡◌, refl, ap, ◌∙◌, Bool, true, false, some, List, [], ◌∷◌, ◌++◌, arith, if◌then◌else◌,
  ==_self, length, get_or, take, slice, length-take, All, ok, >>=-eq-ok, list_eq,
}
use mathlib.Core.Path.{subst}
use insteonrf.Packet.Crc.{first}
use insteonrf.Packet.Crc.Laws.{IsByte}
use insteonrf.Packet.Address.{from_wire}
use insteonrf.Packet.Address.Laws.{of_bytes, from_wire_bytes, bytes-of_bytes}
use insteonrf.Packet.Fields.{Packet, extended, hops_ok, crc_ok, is_group_broadcast, is_false}
use insteonrf.Plm.{plm_gate, plm_frame, to_plm_bytes, need, swap_slots}

-- With validation on, a frame is only made from a packet whose CRC passes, whose hop counts are
-- possible, whose frame counters were not rejected, and which has all its bytes.
pub to_plm_safe :
    (p : Packet) {frame : List ℕ}
    → to_plm_bytes p true ≡ ok frame
    → (crc_ok p ≡ some true)
      × (hops_ok p ≡ true)
      × (is_false p.index_ok ≡ false)
      × (need p ≤ length p.bytes)
unfolding to_plm_bytes
to_plm_safe p {frame} h =
    let (u, passed, rest) = >>=-eq-ok (plm_gate p true) _ h in gate_passed p passed
  where
    gate_passed :
        (p : Packet) {u : Unit {0}}
        → plm_gate p true ≡ ok u
        → (crc_ok p ≡ some true)
          × (hops_ok p ≡ true)
          × (is_false p.index_ok ≡ false)
          × (need p ≤ length p.bytes)
    gate_passed p passed = unfold plm_gate in ground arith

-- The first nine bytes of a packet by name, and the rest.
pub record Cut (xs : List ℕ) : Type 0 where
  pub fl : ℕ
  pub a0 : ℕ
  pub a1 : ℕ
  pub a2 : ℕ
  pub b0 : ℕ
  pub b1 : ℕ
  pub b2 : ℕ
  pub c1 : ℕ
  pub c2 : ℕ
  pub rest : List ℕ
  pub whole : xs ≡ fl ∷ a0 ∷ a1 ∷ a2 ∷ b0 ∷ b1 ∷ b2 ∷ c1 ∷ c2 ∷ rest

pub cut : (xs : List ℕ) → 9 ≤ length xs → Cut xs
cut (fl ∷ a0 ∷ a1 ∷ a2 ∷ b0 ∷ b1 ∷ b2 ∷ c1 ∷ c2 ∷ rest) h = record {
  fl = fl;
  a0 = a0;
  a1 = a1;
  a2 = a2;
  b0 = b0;
  b1 = b1;
  b2 = b2;
  c1 = c1;
  c2 = c2;
  rest = rest;
  whole = refl;
}
cut [] h = absurd (omega arith)
cut _ h = absurd (omega arith)

-- The modem's frame for a packet, byte by byte.
unfoldable pub frame_of : (p : Packet) → Cut p.bytes → List ℕ
frame_of p c =
    0x02
    ∷ (if extended p then 0x51 else 0x50)
    ∷ (swap_slots (is_group_broadcast p) (c.a2 ∷ c.a1 ∷ c.a0 ∷ []) (c.b2 ∷ c.b1 ∷ c.b0 ∷ [])
        ++ (c.fl ∷ c.c1 ∷ c.c2 ∷ (if extended p then take 14 c.rest else [])))

module _ (p : Packet) (c : Cut p.bytes) (octets : All IsByte p.bytes) where
  named : All IsByte (c.fl ∷ c.a0 ∷ c.a1 ∷ c.a2 ∷ c.b0 ∷ c.b1 ∷ c.b2 ∷ c.c1 ∷ c.c2 ∷ c.rest)
  named = subst (All IsByte) c.whole octets

  slot1_lem : from_wire (slice 1 4 p.bytes) ≡ ok (of_bytes c.a2 c.a1 c.a0)
  slot1_lem =
      ap from_wire (ap (slice 1 4) c.whole)
      ∙ from_wire_bytes c.a2 c.a1 c.a0 [] named.1.1.1.0 named.1.1.0 named.1.0

  slot2_lem : from_wire (slice 4 7 p.bytes) ≡ ok (of_bytes c.b2 c.b1 c.b0)
  slot2_lem =
      ap from_wire (ap (slice 4 7) c.whole)
      ∙ from_wire_bytes c.b2 c.b1 c.b0 [] named.1.1.1.1.1.1.0 named.1.1.1.1.1.0 named.1.1.1.1.0

  plm_frame_lem : plm_frame p (of_bytes c.a2 c.a1 c.a0) (of_bytes c.b2 c.b1 c.b0) ≡ frame_of p c
  unfolding plm_frame frame_of
  plm_frame_lem = simp (
    bytes-of_bytes c.a2 c.a1 c.a0 named.1.1.1.0 named.1.1.0 named.1.0,
    bytes-of_bytes c.b2 c.b1 c.b0 named.1.1.1.1.1.1.0 named.1.1.1.1.1.0 named.1.1.1.1.0,
    ap (slice 9 23) c.whole,
    ap first c.whole,
    ap (λ xs. get_or xs 7 0) c.whole,
    ap (λ xs. get_or xs 8 0) c.whole,
  )

  length-frame_of :
      need p ≤ length p.bytes → length (frame_of p c) ≡ (if extended p then 25 else 11)
  unfolding frame_of
  length-frame_of h = ground (arith, ap length c.whole, length-take 14 c.rest)

  -- A packet that passes the checks has a frame, and this is it.
  pub to_plm_frame :
      (validate : Bool)
      → plm_gate p validate ≡ ok tt
      → need p ≤ length p.bytes
      → to_plm_bytes p validate ≡ ok (frame_of p c)
  unfolding to_plm_bytes
  to_plm_frame validate passed h =
      simp (passed, slot1_lem, slot2_lem, plm_frame_lem, length-frame_of h, ==_self)
