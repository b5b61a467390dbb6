-- ===== src/Cli/Build.antt =====
-- insteonrf/cli.py, `build_from_args`: the packet that `insteon-rf pkt` makes of its arguments. A
-- word is the list of its character codes, and `int(word, 16)` an argument, as for addresses; the
-- arguments are those that argparse hands over, a group not negative. The bytes of `from_wire` are
-- below 256, so that `flags & ~0x20` is `flags & 0xDF`.
pub mod Raw
pub mod Sealed
use insteonrf.Common.{
  ℕ, zero, suc, ◌+◌, ◌-◌, ◌*◌, ◌/◌, ◌%◌, ◌^◌, ◌==◌, ltb, leb, bit_and, bit_or, Bool, true, false,
  not, ◌&&◌, ◌||◌, if◌then◌else◌, Option, none, some, List, [], ◌∷◌, ◌++◌, length, take, drop, map,
  list_beq, Result, ok, raise, value_error, system_exit, argument_type_error, raise_if, ◌>>=◌, ◌>>◌,
}
use insteonrf.Packet.Address.{Address}
use insteonrf.Packet.Address.Text.{of_text}
use insteonrf.Packet.Fields.{Packet, flags_byte, crc_index, calc_crc, is_true}
use insteonrf.Packet.Build.{Fields, build, from_wire, is_some}

pub record Args : Type 0 where
  pub raw : Bool
  pub words : List (List ℕ)
  pub src : Option (List ℕ)
  pub dst : Option (List ℕ)
  pub group : Option ℕ
  pub extended : Bool
  pub broadcast : Bool
  pub ack : Option Bool
  pub max_hops : Option ℕ
  pub hops_left : Option ℕ
  pub pad : Bool

-- `int(w, 16)`
abbrev pub read_word : Option ℕ → Result ℕ
read_word none = raise value_error
read_word (some n) = ok n

-- `[int(w, 16) for w in words]`
unfoldable pub read_words : (List ℕ → Option ℕ) → List (List ℕ) → Result (List ℕ)
read_words hex_int [] = ok []
read_words hex_int (w ∷ words) = do
  n ← read_word (hex_int w)
  rest ← read_words hex_int words
  ok (n ∷ rest)

-- `[w for w in a.words if w != ":"]`
unfoldable pub without_colons : List (List ℕ) → List (List ℕ)
without_colons [] = []
without_colons (w ∷ words) =
    if list_beq w (0x3A ∷ []) then without_colons words else w ∷ without_colons words

-- the three overrides of the flags
unfoldable pub override_ack : Option Bool → ℕ → ℕ
override_ack none flags = flags
override_ack (some true) flags = bit_or flags 0x20
override_ack (some false) flags = bit_and flags 0xDF

unfoldable pub override_left : Option ℕ → ℕ → ℕ
override_left none flags = flags
override_left (some n) flags = bit_or (bit_and flags 0xF3) (bit_and n 3 * 2 ^ 2)

unfoldable pub override_max : Option ℕ → ℕ → ℕ
override_max none flags = flags
override_max (some n) flags = bit_or (bit_and flags 0xFC) (bit_and n 3)

abbrev pub override : Args → ℕ → ℕ
override a flags = override_max a.max_hops (override_left a.hops_left (override_ack a.ack flags))

-- `data[i] = b`, for an index in range
unfoldable pub set_byte : ℕ → ℕ → List ℕ → List ℕ
set_byte i b [] = []
set_byte zero b (x ∷ bytes) = b ∷ bytes
set_byte (suc i) b (x ∷ bytes) = x ∷ set_byte i b bytes

-- `if add_crc and pkt.calc_crc is not None: ...`
abbrev pub reseal : Bool → Packet → Option ℕ → Packet
reseal true p (some c) = record p { bytes = set_byte (crc_index p) c p.bytes }
reseal true p none = p
reseal false p c = p

-- the flags of a raw packet, with its CRC
unfoldable pub with_flags : Args → Bool → Packet → Packet
with_flags a add_crc p =
    let flags = override a (flags_byte p) in
    if flags == flags_byte p
    then p
    else (let q = record p { bytes = set_byte 0 flags p.bytes } in reseal add_crc q (calc_crc q))

unfoldable pub build_raw : (List ℕ → Option ℕ) → Args → Result Packet
build_raw hex_int a = do
  bytes ← read_words hex_int (without_colons a.words)
  raise_if (ltb (length bytes) 9) system_exit
  let add_crc = length bytes == 9 || length bytes == 23
  p ← from_wire bytes (a.pad || add_crc) add_crc
  ok (with_flags a add_crc p)

-- `_hexbyte`
unfoldable pub hexbyte : (List ℕ → Option ℕ) → List ℕ → Result ℕ
hexbyte hex_int s = do v ← read_word (hex_int s); raise_if (ltb 0xFF v) argument_type_error; ok v

-- `[_hexbyte(w) for w in words]`
unfoldable pub hexbytes : (List ℕ → Option ℕ) → List (List ℕ) → Result (List ℕ)
hexbytes hex_int [] = ok []
hexbytes hex_int (w ∷ words) = do
  b ← hexbyte hex_int w
  rest ← hexbytes hex_int words
  ok (b ∷ rest)

-- `cmd1`, `cmd2` and `ext_data`
unfoldable pub commands : (List ℕ → Option ℕ) → List (List ℕ) → Result (ℕ × ℕ × List ℕ)
commands hex_int [] = raise system_exit
commands hex_int (w ∷ []) = do cmd1 ← hexbyte hex_int w; ok (cmd1, 0, [])
commands hex_int (w ∷ v ∷ words) = do
  cmd1 ← hexbyte hex_int w
  cmd2 ← hexbyte hex_int v
  ext_data ← hexbytes hex_int words
  ok (cmd1, cmd2, ext_data)

-- the destination, which `build` reads where it is given
abbrev pub read_dst : (List ℕ → Option ℕ) → Option (List ℕ) → Result (Option Address)
read_dst hex_int none = ok none
read_dst hex_int (some text) = do d ← of_text hex_int text; ok (some d)

abbrev pub read_src : Option (List ℕ) → Result (List ℕ)
read_src none = raise system_exit
read_src (some text) = ok text

-- `3 if n is None else n`
abbrev pub or_three : Option ℕ → ℕ
or_three none = 3
or_three (some n) = n

-- `(dst is None) == (group is None)`
abbrev pub both_or_neither : Args → Bool
both_or_neither a = elim a.dst [ none ↦ not (is_some a.group) | some d ↦ is_some a.group ]

-- the fields that are handed to `Packet.build`
abbrev pub fields_of : Args → Address → Option Address → ℕ × ℕ × List ℕ → Fields
fields_of a src dst c = record {
  src = src;
  dst = dst;
  group = a.group;
  cmd1 = c.0;
  cmd2 = c.1;
  ext_data = c.2;
  extended = some (a.extended || ltb 0 (length c.2));
  bcast = a.broadcast;
  ack = is_true a.ack;
  max_hops = or_three a.max_hops;
  hops_left = or_three a.hops_left;
  crc = none;
  pad = true;
}

-- The source reads the addresses inside of `build`; each error there is a ValueError.
unfoldable pub build_message : (List ℕ → Option ℕ) → Args → Result Packet
build_message hex_int a = do
  src_text ← read_src a.src
  raise_if (both_or_neither a) system_exit
  c ← commands hex_int a.words
  dst ← read_dst hex_int a.dst
  src ← of_text hex_int src_text
  build (fields_of a src dst c)

unfoldable pub build_from_args : (List ℕ → Option ℕ) → Args → Result Packet
build_from_args hex_int a = if a.raw then build_raw hex_int a else build_message hex_int a
