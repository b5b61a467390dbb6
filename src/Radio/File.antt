-- ===== src/Radio/File.antt =====
-- insteonrf/radio/file.py, class FileRadio over lines of bits that are already read. The clock's
-- answers, the delay between lines and `close` are left out.
pub mod Replay
use insteonrf.Common.{
  ℕ, zero, suc, ◌+◌, ◌-◌, ◌*◌, ◌/◌, ◌%◌, ◌^◌, ◌==◌, ltb, leb, bit_and, bit_or, Bool, true, false,
  not, ◌&&◌, ◌||◌, if◌then◌else◌, Option, none, some, List, [], ◌∷◌, ◌++◌, length, take, drop, map,
  list_beq, Result, ok, raise, value_error, replicate,
}
use insteonrf.Manchester.{Bits, invert_bits}

pub record FileRadio : Type 0 where
  pub lines : List Bits
  pub loop : Bool
  pub transmitted : List Bits
  pub iterator : Option (List Bits)
  pub exhausted : Bool

abbrev pub new_radio : List Bits → Bool → FileRadio
new_radio lines loop = record {
  lines = lines;
  loop = loop;
  transmitted = [];
  iterator = none;
  exhausted = false;
}

-- what a call brings: a line, or nothing after the last one; or it does not return
pub data Next : Type 0 where
  line : Bits → List Bits → Next
  over : Next
  endless : Next

-- the lines from the start again
abbrev pub restart : List Bits → Next
restart [] = endless
restart (b ∷ rest) = line b rest

-- `next(self._it, None)`, with the lines that are left in this round
unfoldable pub next_line : List Bits → Bool → List Bits → Next
next_line lines loop (b ∷ rest) = line b rest
next_line lines loop [] = if loop then restart lines else over

-- `self._it`, made at the first call
abbrev pub left_of : FileRadio → List Bits
left_of r = elim r.iterator [ none ↦ r.lines | some rest ↦ rest ]

abbrev pub after_next : FileRadio → Next → Option (FileRadio × Option Bits)
after_next r (line b rest) = some (record r { iterator = some rest }, some b)
after_next r over = some (record r { iterator = some []; exhausted = true }, none)
after_next r endless = none

-- `receive_bits`, none where it does not return
unfoldable pub receive_bits : FileRadio → Option (FileRadio × Option Bits)
receive_bits r = after_next r (next_line r.lines r.loop (left_of r))

-- `transmit_bits`
unfoldable pub transmit_bits : FileRadio → Bits → ℕ → Bool → FileRadio
transmit_bits r bits repeat invert = record r {
  transmitted = r.transmitted ++ replicate repeat (if invert then invert_bits bits else bits);
}
