-- ===== src/Plm.antt =====
-- insteonrf/plm.py: RF packets to and from the frames of a PowerLinc modem, and the key that
-- tells copies of a message apart from other messages.
mod Tests
pub mod Gate
pub mod Sealed
pub mod Covered
pub mod RoundTrip
pub mod Key
use insteonrf.Common.{
  ℕ, zero, suc, ◌+◌, ◌-◌, ◌*◌, ◌/◌, ◌%◌, ◌^◌, ◌≤◌, ◌<◌, min, max, bit_and, bit_or, bit_xor, ◌≡◌,
  refl, sym, ap, ◌∙◌, ◌≢◌, ◌↔◌, ◌⊎◌, inl, inr, Bool, true, false, not, ◌&&◌, ◌||◌, Option, none,
  some, List, [], ◌∷◌, ◌++◌, map, arith, ltb, leb, ◌==◌, if◌then◌else◌, ltb→lt, lt→ltb, leb→le,
  ==_iff, ==_self, Bool-cases, Option-cases, Eq, length, get_elem?, get_or, take, drop, replicate,
  slice, length-append, length-take, length-drop, length-replicate, take-append, drop-append, All,
  All-append, All-take, All-drop, All-split, All-replicate, take-append_over, get_elem?-append_mid,
  take-append_le, slice-append, take_all, append_get_or, Error, Result, ok, raise, value_error,
  manchester_error, plm_format_error, ◌>>=◌, ◌>>◌, raise_if, >>=-eq-ok, list_eq, list_beq,
  list_beq_iff, bool_beq,
}
use insteonrf.Packet.Crc.{
  first, flag_ext, flag_bcast, flag_group, std_crc_index, ext_crc_index, ext_data_crc_index,
  pkt_crc, has_flag,
}
use insteonrf.Packet.Address.{Address, from_wire, of_seq, bytes, wire}
use insteonrf.Packet.Fields.{
  Packet, of_data, extended, hops_ok, crc_ok, is_group_broadcast, crc_index, is_true, is_false,
}
use insteonrf.Packet.Build.{pad_bytes}

abbrev pub plm_stx : ℕ
plm_stx = 0x02

abbrev pub inp_standard : ℕ
inp_standard = 0x50

abbrev pub inp_extended : ℕ
inp_extended = 0x51

abbrev pub ext_plm_data_len : ℕ
ext_plm_data_len = 14

-- `FRAME_LENS.get(code)`
unfoldable pub frame_len : ℕ → Option ℕ
frame_len code =
    if code == inp_standard then some 11 else if code == inp_extended then some 25 else none

-- `len(pkt.data) < need`
abbrev pub need : Packet → ℕ
need p = (if extended p then ext_crc_index else std_crc_index) + 1

abbrev pub is_none {ℓ} : {A : Type ℓ} → Option A → Bool
is_none none = true
is_none (some a) = false

-- the refusals of `to_plm_bytes`, in order; `validate` is its keyword argument
unfoldable pub plm_gate : Packet → Bool → Result (Unit {0})
plm_gate p validate = do
  raise_if (ltb (length p.bytes) (need p)) plm_format_error
  raise_if (validate && is_false p.index_ok) plm_format_error
  raise_if (validate && not (hops_ok p)) plm_format_error
  raise_if (validate && is_false (crc_ok p)) plm_format_error
  raise_if (validate && is_none (crc_ok p)) plm_format_error

-- `from3` and `to3`: a group broadcast leads with the sender
abbrev pub swap_slots : Bool → List ℕ → List ℕ → List ℕ
swap_slots true slot1 slot2 = slot1 ++ slot2
swap_slots false slot1 slot2 = slot2 ++ slot1

unfoldable pub plm_frame : Packet → Address → Address → List ℕ
plm_frame p slot1 slot2 =
    plm_stx
    ∷ (if extended p then inp_extended else inp_standard)
    ∷ (swap_slots (is_group_broadcast p) (bytes slot1) (bytes slot2)
        ++ (first p.bytes
            ∷ get_or p.bytes 7 0
            ∷ get_or p.bytes 8 0
            ∷ (if extended p then slice 9 (ext_data_crc_index + 1) p.bytes else [])))

-- `to_plm_bytes`
unfoldable pub to_plm_bytes : Packet → Bool → Result (List ℕ)
to_plm_bytes p validate = do
  plm_gate p validate
  slot1 ← from_wire (slice 1 4 p.bytes)
  slot2 ← from_wire (slice 4 7 p.bytes)
  let frame = plm_frame p slot1 slot2
  raise_if (not (length frame == (if extended p then 25 else 11))) plm_format_error
  ok frame

-- the checks of `from_plm_bytes`, and the message code
unfoldable pub plm_code : List ℕ → Result ℕ
unfolding frame_len
plm_code buf = do
  raise_if (ltb (length buf) 2) plm_format_error
  raise_if (not (get_or buf 0 0 == plm_stx)) plm_format_error
  let code = get_or buf 1 0
  elim (frame_len code) [
    | none ↦ raise plm_format_error
    | some n ↦ if ltb (length buf) n then raise plm_format_error else ok code
  ]

-- the order of the two addresses on the air
abbrev pub air_slots : ℕ → Address → Address → List ℕ
air_slots flags from to =
    if bit_and flags (bit_or flag_bcast flag_group) == bit_or flag_bcast flag_group
    then wire from ++ wire to
    else wire to ++ wire from

-- `data` before the CRC
unfoldable pub air_body : List ℕ → Address → Address → Bool → List ℕ
air_body buf from to ext =
    get_or buf 8 0
    ∷ (air_slots (get_or buf 8 0) from to
        ++ (get_or buf 9 0
            ∷ get_or buf 10 0
            ∷ (if ext then slice 11 (11 + ext_plm_data_len) buf else [])))

-- `from_plm_bytes`
unfoldable pub from_plm_bytes : List ℕ → Result Packet
from_plm_bytes buf = do
  code ← plm_code buf
  from ← of_seq (slice 2 5 buf)
  to ← of_seq (slice 5 8 buf)
  let ext = code == inp_extended
  raise_if (not (bool_beq (has_flag (get_or buf 8 0) flag_ext) ext)) plm_format_error
  let body = air_body buf from to ext
  let sealed = body ++ pkt_crc body ∷ []
  ok (of_data (sealed ++ pad_bytes (length sealed) ext))

-- `data[0] &= ~0x0C`
abbrev pub mask_hops : ℕ → ℕ
mask_hops b = b - bit_and b 0x0C

abbrev pub mask_first : List ℕ → List ℕ
mask_first [] = []
mask_first (b ∷ bytes) = mask_hops b ∷ bytes

-- `message_key`
unfoldable pub message_key : Packet → List ℕ
message_key p =
    mask_first (if ltb (crc_index p) (length p.bytes) then take (crc_index p) p.bytes else p.bytes)

-- `plm_message_key`
unfoldable pub plm_message_key : List ℕ → Result (List ℕ)
plm_message_key raw = do p ← from_plm_bytes raw; ok (message_key p)
