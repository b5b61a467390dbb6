-- ===== src/Packet/Build/Readback.antt =====
-- packet.py, `Packet.build` and the properties that read its result.
use insteonrf.Common.{
  ℕ, ◌+◌, ◌-◌, ◌*◌, ◌/◌, ◌%◌, ◌≤◌, ◌<◌, bit_and, ◌≡◌, sym, ap, ◌∙◌, inl, inr, true, false, none,
  some, List, [], ◌∷◌, ◌++◌, arith, if◌then◌else◌, Bool-cases, length, get_elem?, replicate, slice,
  ok, list_eq,
}
use mathlib.Core.List.{append_assoc, append-nil}
use insteonrf.Common.Bits.{and_byte, and_three}
use insteonrf.Packet.Address.{Address, wire}
use insteonrf.Packet.Address.Laws.{from_wire-wire}
use insteonrf.Packet.Crc.{pkt_crc, ext_crc, first}
use insteonrf.Packet.Flags.Laws.{
  bit_value, has_flag_ext, has_flag_ack, has_flag_group, has_flag_bcast,
}
use insteonrf.Packet.Fields.{
  Packet, extended, ack, bcast, group_msg, group, is_group_broadcast, max_hops, hops_left, cmd1,
  cmd2, to_addr, from_addr,
}
use insteonrf.Packet.Build.{
  Fields, build, build_data, build_flags, build_head, add_ext, slots, is_some, is_extended,
}
use insteonrf.Packet.Build.Sums.{build_flags_sum, flag_bits}
use insteonrf.Packet.Build.Laws.{tail, build_inv, build_data-tail, first-build_data}

-- what the extended data add to the head
ext_rest : Fields → List ℕ
ext_rest f =
    if is_extended f
    then (let fill = f.ext_data ++ replicate (13 - length f.ext_data) 0 in
        fill ++ ext_crc (build_head f ++ fill) ∷ [])
    else []

add_ext-prefix : (f : Fields) → add_ext f (build_head f) ≡ build_head f ++ ext_rest f
unfolding add_ext ext_rest
add_ext-prefix f = elim (Bool-cases (is_extended f)) [
  | inl ext ↦ simp ext (append_assoc (build_head f) _ _)
  | inr std ↦ simp std (sym (append-nil (build_head f)))
]

build_head-append :
    (f : Fields) (rest : List ℕ)
    → build_head f ++ rest
      ≡ build_flags f ∷ (slots f ++ bit_and f.cmd1 0xFF ∷ bit_and f.cmd2 0xFF ∷ rest)
unfolding build_head
build_head-append f rest = ap (◌∷◌ (build_flags f)) (append_assoc (slots f) _ rest)

-- the packet, cut after the command bytes
build_data-head :
    (f : Fields)
    → length (slots f) ≡ 6
    → length f.ext_data ≤ 13
    → f.crc ≡ none
    → (rest : List ℕ) × (build_data f
        ≡ build_flags f ∷ (slots f ++ bit_and f.cmd1 0xFF ∷ bit_and f.cmd2 0xFF ∷ rest))
build_data-head f slotted fits plain =
    let more = ext_rest f in
    let body = add_ext f (build_head f) in
    let after = pkt_crc body ∷ tail f slotted fits in
    (
      more ++ after,
      build_data-tail f slotted fits plain
          ∙ ap (λ xs. xs ++ after) (add_ext-prefix f)
          ∙ append_assoc (build_head f) more after
          ∙ build_head-append f (more ++ after),
    )

module _ (f : Fields) {p : Packet} (h : build f ≡ ok p) (plain : f.crc ≡ none) where
  flags_sum :
      first p.bytes
      ≡ f.hops_left % 4 * 4
        + f.max_hops % 4
        + bit_value (is_extended f) 16
        + bit_value f.ack 32
        + bit_value (is_some f.group) 64
        + bit_value f.bcast 128
  flags_sum =
      let (e, slotted, fits) = build_inv f h in
      ap (λ (q : Packet). first q.bytes) e
      ∙ first-build_data f slotted fits plain
      ∙ build_flags_sum f

  -- The fields of the flags byte of a packet built with its own CRC are those that it was built from: its kind, its
  -- message bits and both hop counts, which keep their low two bits.
  pub build_flags_read :
      (extended p ≡ is_extended f)
      × (ack p ≡ f.ack)
      × (bcast p ≡ f.bcast)
      × (group_msg p ≡ is_some f.group)
      × (max_hops p ≡ f.max_hops % 4)
      × (hops_left p ≡ f.hops_left % 4)
  unfolding extended ack bcast group_msg max_hops hops_left
  build_flags_read =
      let bits = flag_bits f.hops_left f.max_hops (is_extended f) f.ack (is_some f.group) f.bcast in
      (
        has_flag_ext (first p.bytes) (is_extended f) (omega (arith, flags_sum, bits.0)),
        has_flag_ack (first p.bytes) f.ack (omega (arith, flags_sum, bits.1)),
        has_flag_bcast (first p.bytes) f.bcast (omega (arith, flags_sum, bits.3)),
        has_flag_group (first p.bytes) (is_some f.group) (omega (arith, flags_sum, bits.2)),
        omega (arith, and_three (first p.bytes), flags_sum, bits.4),
        omega (arith, and_three (first p.bytes / 4), flags_sum, bits.5),
      )

-- A packet whose two slots hold the addresses `a` and `b`.
module _ (p : Packet) (fl : ℕ) (a b : Address) (c1 c2 : ℕ) (rest : List ℕ)
    (e : p.bytes ≡ fl ∷ ((wire a ++ wire b) ++ c1 ∷ c2 ∷ rest)) where
  slots_length : length p.bytes ≡ 9 + length rest
  unfolding wire
  slots_length = ap length e ∙ omega arith

  read_slot1 : a.value < 16777216 → to_addr p ≡ some a
  unfolding to_addr wire
  read_slot1 small = ground (arith, slots_length, ap (slice 1 4) e, from_wire-wire a small)

  read_slot2 : b.value < 16777216 → is_group_broadcast p ≡ false → from_addr p ≡ some b
  unfolding from_addr wire
  read_slot2 small single =
      ground (arith, slots_length, ap (slice 4 7) e, from_wire-wire b small, single)

  read_cmd1 : cmd1 p ≡ some c1
  unfolding cmd1 wire
  read_cmd1 = ground (arith, slots_length, ap (λ t. get_elem? t 7) e)

  read_cmd2 : cmd2 p ≡ some c2
  unfolding cmd2 wire
  read_cmd2 = ground (arith, slots_length, ap (λ t. get_elem? t 8) e)

-- the same, with the group in the second slot
group_slot1 :
    (p : Packet) (fl : ℕ) (a : Address) (g c1 c2 : ℕ) (rest : List ℕ)
    → p.bytes ≡ fl ∷ ((wire a ++ g ∷ 0 ∷ 0 ∷ []) ++ c1 ∷ c2 ∷ rest)
    → a.value < 16777216
    → is_group_broadcast p ≡ true
    → (to_addr p ≡ some a) × (group p ≡ some g) × (from_addr p ≡ none)
unfolding wire to_addr group from_addr
group_slot1 p fl a g c1 c2 rest e small cast = (
  ground (arith, len, ap (slice 1 4) e, from_wire-wire a small),
  ground (arith, len, ap (λ t. get_elem? t 4) e, cast),
  ground (arith, cast),
)
  where
    len : length p.bytes ≡ 9 + length rest
    len = ap length e ∙ omega arith

one_target :
    (f : Fields) (d : Address) {p : Packet} → build f ≡ ok p → f.dst ≡ some d → f.group ≡ none
unfolding build
one_target f d h to = ground arith

direct_slots :
    (f : Fields) (d : Address) → f.dst ≡ some d → f.group ≡ none → slots f ≡ wire d ++ wire f.src
unfolding slots
direct_slots f d to alone = ground (arith, to, alone)

group_slots :
    (f : Fields) (g : ℕ) → f.group ≡ some g → slots f ≡ wire f.src ++ bit_and g 0xFF ∷ 0 ∷ 0 ∷ []
unfolding slots
group_slots f g to = ground (arith, to)

-- A direct message built with its own CRC, between addresses of 24 bits, reads back with its
-- destination, its sender and the low bytes of its commands.
pub build_direct :
    (f : Fields) (d : Address) {p : Packet}
    → build f ≡ ok p
    → f.crc ≡ none
    → f.dst ≡ some d
    → d.value < 16777216
    → f.src.value < 16777216
    → (to_addr p ≡ some d)
      × (from_addr p ≡ some f.src)
      × (cmd1 p ≡ some (f.cmd1 % 256))
      × (cmd2 p ≡ some (f.cmd2 % 256))
unfolding is_group_broadcast
build_direct f d {p} h plain to small_d small_s =
    let (e, slotted, fits) = build_inv f h in
    let (rest, cut) = build_data-head f slotted fits plain in
    let c1 = bit_and f.cmd1 0xFF in
    let c2 = bit_and f.cmd2 0xFF in
    let fl = build_flags f in
    let whole : p.bytes ≡ fl ∷ ((wire d ++ wire f.src) ++ c1 ∷ c2 ∷ rest) =
      ap (λ (q : Packet). q.bytes) e
      ∙ cut
      ∙ ap (λ t. fl ∷ (t ++ c1 ∷ c2 ∷ rest)) (direct_slots f d to (one_target f d h to)) in
    let read = build_flags_read f h plain in
    (
      read_slot1 p fl d f.src c1 c2 rest whole small_d,
      read_slot2 p fl d f.src c1 c2 rest whole small_s
          (ground (arith, read.3, one_target f d h to)),
      read_cmd1 p fl d f.src c1 c2 rest whole ∙ ap some (and_byte f.cmd1),
      read_cmd2 p fl d f.src c1 c2 rest whole ∙ ap some (and_byte f.cmd2),
    )

-- A group broadcast built with its own CRC, from an address of 24 bits, reads back with its sender
-- in the first slot and the low byte of its group number, and has no "from" address.
pub build_group :
    (f : Fields) (g : ℕ) {p : Packet}
    → build f ≡ ok p
    → f.crc ≡ none
    → f.group ≡ some g
    → f.bcast ≡ true
    → f.src.value < 16777216
    → (to_addr p ≡ some f.src) × (group p ≡ some (g % 256)) × (from_addr p ≡ none)
unfolding is_group_broadcast
build_group f g {p} h plain to cast small =
    let (e, slotted, fits) = build_inv f h in
    let (rest, cut) = build_data-head f slotted fits plain in
    let c1 = bit_and f.cmd1 0xFF in
    let c2 = bit_and f.cmd2 0xFF in
    let fl = build_flags f in
    let whole : p.bytes ≡ fl ∷ ((wire f.src ++ bit_and g 0xFF ∷ 0 ∷ 0 ∷ []) ++ c1 ∷ c2 ∷ rest) =
      ap (λ (q : Packet). q.bytes) e
      ∙ cut
      ∙ ap (λ t. fl ∷ (t ++ c1 ∷ c2 ∷ rest)) (group_slots f g to) in
    let read = build_flags_read f h plain in
    let parts =
      group_slot1 p fl f.src (bit_and g 0xFF) c1 c2 rest whole small
        (ground (arith, read.2, read.3, to, cast)) in
    (parts.0, parts.1 ∙ ap some (and_byte g), parts.2)
