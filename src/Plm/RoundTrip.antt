-- ===== src/Plm/RoundTrip.antt =====
-- plm.py, `to_plm_bytes` followed by `from_plm_bytes`.
use insteonrf.Common.{
  ℕ, ◌≤◌, bit_and, ◌≡◌, refl, sym, ap, ◌∙◌, Bool, true, false, ◌&&◌, some, List, [], ◌∷◌, ◌++◌,
  arith, ◌==◌, if◌then◌else◌, length, take, length-take, All, take_all, ok, ◌>>=◌, >>=-eq-ok,
  list_eq,
}
use mathlib.Core.Path.{subst}
use insteonrf.Common.Bits.{and_bits67, and_bit6, and_bit7}
use insteonrf.Packet.Crc.{first, flag_ext, has_flag, flag_bcast, flag_group}
use insteonrf.Packet.Crc.Laws.{IsByte}
use insteonrf.Packet.Address.Laws.{of_bytes, wire-of_bytes}
use insteonrf.Packet.Fields.{Packet, extended, crc_ok, is_group_broadcast, crc_index}
use insteonrf.Plm.{plm_gate, to_plm_bytes, from_plm_bytes, need, swap_slots, air_slots, message_key}
use insteonrf.Plm.Gate.{Cut, cut, frame_of, to_plm_frame, to_plm_safe}
use insteonrf.Plm.Sealed.{
  sealed, code_of, tail_of, from_plm_frame, sealed-crc_ok, sealed-take, sealed-key,
}
use insteonrf.Plm.Covered.{covered, key_covered}

-- The two ways in which the source asks for a group broadcast agree.
group_broadcast_test :
    (fl : ℕ) → (bit_and fl 0xC0 == 0xC0) ≡ (has_flag fl flag_bcast && has_flag fl flag_group)
group_broadcast_test fl = ground (arith, and_bits67 fl, and_bit6 fl, and_bit7 fl)

-- A packet's bytes under the CRC, by name.
body_of : (p : Packet) → Cut p.bytes → List ℕ
body_of p c =
    c.fl ∷ c.a0 ∷ c.a1 ∷ c.a2 ∷ c.b0 ∷ c.b1 ∷ c.b2 ∷ c.c1 ∷ c.c2 ∷ tail_of (extended p) c.rest

module _ (fl a0 a1 a2 b0 b1 b2 c1 c2 : ℕ) (rest : List ℕ) where
  take_named :
      (e : Bool)
      → take (if e then 23 else 9) (fl ∷ a0 ∷ a1 ∷ a2 ∷ b0 ∷ b1 ∷ b2 ∷ c1 ∷ c2 ∷ rest)
        ≡ fl ∷ a0 ∷ a1 ∷ a2 ∷ b0 ∷ b1 ∷ b2 ∷ c1 ∷ c2 ∷ tail_of e rest
  unfolding tail_of
  take_named true = refl
  take_named false = refl

  -- The addresses on the air, from those in a frame.
  air_slots_lem :
      (gb : Bool)
      → (bit_and fl 0xC0 == 0xC0) ≡ gb
      → All IsByte (a0 ∷ a1 ∷ a2 ∷ b0 ∷ b1 ∷ b2 ∷ [])
      → (if gb
          then air_slots fl (of_bytes a2 a1 a0) (of_bytes b2 b1 b0)
          else air_slots fl (of_bytes b2 b1 b0) (of_bytes a2 a1 a0))
        ≡ a0 ∷ a1 ∷ a2 ∷ b0 ∷ b1 ∷ b2 ∷ []
  air_slots_lem true cast h = simp (
    cast,
    wire-of_bytes a2 a1 a0 h.1.1.0 h.1.0 h.0,
    wire-of_bytes b2 b1 b0 h.1.1.1.1.1.0 h.1.1.1.1.0 h.1.1.1.0,
  )
  air_slots_lem false cast h = simp (
    cast,
    wire-of_bytes a2 a1 a0 h.1.1.0 h.1.0 h.0,
    wire-of_bytes b2 b1 b0 h.1.1.1.1.1.0 h.1.1.1.1.0 h.1.1.1.0,
  )

  six :
      All IsByte (fl ∷ a0 ∷ a1 ∷ a2 ∷ b0 ∷ b1 ∷ b2 ∷ c1 ∷ c2 ∷ rest)
      → All IsByte (a0 ∷ a1 ∷ a2 ∷ b0 ∷ b1 ∷ b2 ∷ [])
  six h = (h.1.0, (h.1.1.0, (h.1.1.1.0, (h.1.1.1.1.0, (h.1.1.1.1.1.0, (h.1.1.1.1.1.1.0, tt))))))

  -- the frame that leads with the sender, and the one that leads with the destination
  frame_either :
      All IsByte (fl ∷ a0 ∷ a1 ∷ a2 ∷ b0 ∷ b1 ∷ b2 ∷ c1 ∷ c2 ∷ rest)
      → (tail : List ℕ) (ext gb : Bool) → has_flag fl flag_ext ≡ ext
      → (bit_and fl 0xC0 == 0xC0) ≡ gb
      → length (tail_of ext tail) ≡ (if ext then 14 else 0)
      → from_plm_bytes (
          0x02
          ∷ code_of ext
          ∷ (swap_slots gb (a2 ∷ a1 ∷ a0 ∷ []) (b2 ∷ b1 ∷ b0 ∷ []) ++ (fl ∷ c1 ∷ c2 ∷ tail)))
        ≡ ok (sealed ext (fl ∷ a0 ∷ a1 ∷ a2 ∷ b0 ∷ b1 ∷ b2 ∷ c1 ∷ c2 ∷ tail_of ext tail))
  frame_either h tail ext true flag cast len =
      from_plm_frame a2 a1 a0 b2 b1 b0 fl c1 c2 tail h.1.1.1.0 h.1.1.0 h.1.0 h.1.1.1.1.1.1.0
        h.1.1.1.1.1.0 h.1.1.1.1.0 ext flag len
      ∙ ap (λ t. ok (sealed ext (fl ∷ (t ++ (c1 ∷ c2 ∷ tail_of ext tail)))))
          (air_slots_lem true cast (six h))
  frame_either h tail ext false flag cast len =
      from_plm_frame b2 b1 b0 a2 a1 a0 fl c1 c2 tail h.1.1.1.1.1.1.0 h.1.1.1.1.1.0 h.1.1.1.1.0
        h.1.1.1.0 h.1.1.0 h.1.0 ext flag len
      ∙ ap (λ t. ok (sealed ext (fl ∷ (t ++ (c1 ∷ c2 ∷ tail_of ext tail)))))
          (air_slots_lem false cast (six h))

  frame_back_gen :
      All IsByte (fl ∷ a0 ∷ a1 ∷ a2 ∷ b0 ∷ b1 ∷ b2 ∷ c1 ∷ c2 ∷ rest)
      → (ext gb : Bool) → has_flag fl flag_ext ≡ ext
      → (bit_and fl 0xC0 == 0xC0) ≡ gb
      → length (tail_of ext rest) ≡ (if ext then 14 else 0)
      → from_plm_bytes (
          0x02
          ∷ (if ext then 0x51 else 0x50)
          ∷ (swap_slots gb (a2 ∷ a1 ∷ a0 ∷ []) (b2 ∷ b1 ∷ b0 ∷ [])
              ++ (fl ∷ c1 ∷ c2 ∷ (if ext then take 14 rest else []))))
        ≡ ok (sealed ext (fl ∷ a0 ∷ a1 ∷ a2 ∷ b0 ∷ b1 ∷ b2 ∷ c1 ∷ c2 ∷ tail_of ext rest))
  unfolding code_of tail_of
  frame_back_gen h true gb flag cast len =
      let full = take_all 14 (take 14 rest) (omega (arith, len)) in
      frame_either h (take 14 rest) true gb flag cast (ap length full ∙ len)
      ∙ ap (λ t. ok (sealed true (fl ∷ a0 ∷ a1 ∷ a2 ∷ b0 ∷ b1 ∷ b2 ∷ c1 ∷ c2 ∷ t))) full
  frame_back_gen h false gb flag cast len = frame_either h [] false gb flag cast refl

module _ (p : Packet) (c : Cut p.bytes) (octets : All IsByte p.bytes)
    (long : need p ≤ length p.bytes) where
  named : All IsByte (c.fl ∷ c.a0 ∷ c.a1 ∷ c.a2 ∷ c.b0 ∷ c.b1 ∷ c.b2 ∷ c.c1 ∷ c.c2 ∷ c.rest)
  named = subst (All IsByte) c.whole octets

  flag_lem : has_flag c.fl flag_ext ≡ extended p
  unfolding extended
  flag_lem = sym (ap (λ xs. has_flag (first xs) flag_ext) c.whole)

  rest_lem : length (tail_of (extended p) c.rest) ≡ (if extended p then 14 else 0)
  unfolding tail_of
  rest_lem = ground (arith, ap length c.whole, length-take 14 c.rest)

  cast_lem : (bit_and c.fl 0xC0 == 0xC0) ≡ is_group_broadcast p
  unfolding is_group_broadcast
  cast_lem =
      group_broadcast_test c.fl
      ∙ sym (ap (λ xs. has_flag (first xs) flag_bcast && has_flag (first xs) flag_group) c.whole)

  body_of_lem : body_of p c ≡ take (crc_index p) p.bytes
  unfolding body_of crc_index extended
  body_of_lem =
      let e = extended p in
      sym (
        ap (take (if e then 23 else 9)) c.whole
        ∙ take_named c.fl c.a0 c.a1 c.a2 c.b0 c.b1 c.b2 c.c1 c.c2 c.rest e)

  frame_back : from_plm_bytes (frame_of p c) ≡ ok (sealed (extended p) (body_of p c))
  unfolding frame_of body_of
  frame_back =
      frame_back_gen c.fl c.a0 c.a1 c.a2 c.b0 c.b1 c.b2 c.c1 c.c2 c.rest named (extended p)
        (is_group_broadcast p) flag_lem cast_lem rest_lem

nine_bytes : (p : Packet) → need p ≤ length p.bytes → 9 ≤ length p.bytes
nine_bytes p h = ground arith

gate_open : (p : Packet) {frame : List ℕ} → to_plm_bytes p true ≡ ok frame → plm_gate p true ≡ ok tt
unfolding to_plm_bytes
gate_open p h = (>>=-eq-ok (plm_gate p true) _ h).1

-- A packet of bytes for which `to_plm_bytes`, with validation, returns a frame comes back from
-- that frame by `from_plm_bytes` without an error: with the same bytes under its CRC, the same
-- key, and a CRC that passes.
pub from_plm-to_plm :
    (p : Packet) {frame : List ℕ}
    → All IsByte p.bytes
    → to_plm_bytes p true ≡ ok frame
    → (q : Packet) × (from_plm_bytes frame ≡ ok q)
      × (take (crc_index q) q.bytes ≡ take (crc_index p) p.bytes)
      × (message_key q ≡ message_key p)
      × (crc_ok q ≡ some true)
from_plm-to_plm p {frame} octets h =
    let safe = to_plm_safe p h in
    let long = safe.3 in
    let c = cut p.bytes (nine_bytes p long) in
    let body = take (crc_index p) p.bytes in
    let ext = extended p in
    let same : ok frame ≡ ok (frame_of p c) =
      sym h ∙ to_plm_frame p c octets true (gate_open p h) long in
    let whole = covered p long in
    (
      sealed ext body,
      cc (
        ap (λ r. r >>= from_plm_bytes) same,
        frame_back p c octets long,
        body_of_lem p c octets long,
      ),
      sealed-take ext body whole.0 whole.1,
      sealed-key ext body whole.0 whole.1 ∙ sym (key_covered p long),
      sealed-crc_ok ext body whole.0 whole.1,
    )
