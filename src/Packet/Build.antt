-- ===== src/Packet/Build.antt =====
-- packet.py, `Packet.build`, `Packet.from_wire` and `Packet._pad`: packets from their fields.
pub mod Sums
pub mod Laws
pub mod Readback
pub mod Wire
use insteonrf.Common.{
  ℕ, ◌+◌, ◌-◌, ◌*◌, ◌^◌, bit_and, bit_or, Bool, true, false, not, ltb, leb, ◌==◌, if◌then◌else◌,
  Option, none, some, List, [], ◌∷◌, ◌++◌, length, replicate, max, map, Result, ok, raise,
  value_error, raise_if, ◌>>=◌, ◌>>◌,
}
use insteonrf.Packet.Crc.{
  flag_bcast, flag_group, flag_ack, flag_ext, has_flag, first, crc_index_of, pkt_crc, ext_crc,
  ext_data_len, std_len, ext_len,
}
use insteonrf.Packet.Address.{Address, wire}
use insteonrf.Packet.Fields.{Packet, of_data}

-- the arguments of `build`; the addresses are `Address` values already
pub record Fields : Type 0 where
  pub src : Address
  pub dst : Option Address
  pub group : Option ℕ
  pub cmd1 : ℕ
  pub cmd2 : ℕ
  pub ext_data : List ℕ
  pub extended : Option Bool
  pub bcast : Bool
  pub ack : Bool
  pub max_hops : ℕ
  pub hops_left : ℕ
  pub crc : Option ℕ
  pub pad : Bool

-- the default arguments
abbrev pub defaults : Address → Fields
defaults src = record {
  src = src;
  dst = none;
  group = none;
  cmd1 = 0;
  cmd2 = 0;
  ext_data = [];
  extended = none;
  bcast = false;
  ack = false;
  max_hops = 3;
  hops_left = 3;
  crc = none;
  pad = true;
}

abbrev pub is_some {ℓ} : {A : Type ℓ} → Option A → Bool
is_some none = false
is_some (some a) = true

-- `_pad`
unfoldable pub pad_bytes : ℕ → Bool → List ℕ
pad_bytes len true = replicate (ext_len - len) 0xAA
pad_bytes len false = if ltb len std_len then replicate (std_len - len - 1) 0 ++ 0xAA ∷ [] else []

-- `extended`, which defaults to whether there is extended data
unfoldable pub is_extended : Fields → Bool
is_extended f = elim f.extended [ none ↦ ltb 0 (length f.ext_data) | some b ↦ b ]

-- `if b: flags |= flag`
abbrev pub set_flag : Bool → ℕ → ℕ → ℕ
set_flag b flag flags = if b then bit_or flags flag else flags

unfoldable pub build_flags : Fields → ℕ
unfolding is_extended
build_flags f = set_flag f.bcast flag_bcast (
    set_flag (is_some f.group) flag_group (
      set_flag f.ack flag_ack (
        set_flag (is_extended f) flag_ext
          (bit_or (bit_and f.max_hops 3) (bit_and f.hops_left 3 * 2 ^ 2)))))

-- the two address slots
unfoldable pub slots : Fields → List ℕ
slots f = elim f.group [
  | some g ↦ wire f.src ++ bit_and g 0xFF ∷ 0 ∷ 0 ∷ []
  | none ↦ elim f.dst [ some d ↦ wire d ++ wire f.src | none ↦ [] ]
]

-- `data` up to the command bytes
unfoldable pub build_head : Fields → List ℕ
unfolding build_flags slots
build_head f = build_flags f ∷ (slots f ++ bit_and f.cmd1 0xFF ∷ bit_and f.cmd2 0xFF ∷ [])

-- `if extended: data += ...; data.append(ext_crc(data))`
unfoldable pub add_ext : Fields → List ℕ → List ℕ
unfolding is_extended
add_ext f bytes =
    if is_extended f
    then (let padded = bytes ++ (f.ext_data ++ replicate (ext_data_len - length f.ext_data) 0) in
        padded ++ ext_crc padded ∷ [])
    else bytes

-- `data.append(pkt_crc(data) if crc is None else crc & 0xFF)`
unfoldable pub add_crc : Fields → List ℕ → List ℕ
add_crc f bytes = bytes ++ elim f.crc [ none ↦ pkt_crc bytes | some c ↦ bit_and c 0xFF ] ∷ []

-- `if pad: data += cls._pad(len(data), extended)`
unfoldable pub add_pad : Bool → Bool → List ℕ → List ℕ
unfolding pad_bytes
add_pad pad ext bytes = if pad then bytes ++ pad_bytes (length bytes) ext else bytes

-- the bytes of `build`, past its two checks
unfoldable pub build_data : Fields → List ℕ
build_data f = add_pad f.pad (is_extended f) (add_crc f (add_ext f (build_head f)))

unfoldable pub build : Fields → Result Packet
build f = do
  raise_if (elim f.dst [ none ↦ not (is_some f.group) | some d ↦ is_some f.group ]) value_error
  raise_if (ltb ext_data_len (length f.ext_data)) value_error
  ok (of_data (build_data f))

-- `Packet.from_wire`
unfoldable pub from_wire : List ℕ → Bool → Bool → Result Packet
unfolding add_pad
from_wire raw pad crc =
    let bytes = map (λ b. bit_and b 0xFF) raw in
    let flags = first bytes in
    let ext = has_flag flags flag_ext in
    if ltb (length bytes) 1
    then raise value_error
    else if crc
    then if length bytes == crc_index_of flags
      then ok (of_data (add_pad pad ext (bytes ++ pkt_crc bytes ∷ [])))
      else raise value_error
    else ok (of_data (add_pad pad ext bytes))
