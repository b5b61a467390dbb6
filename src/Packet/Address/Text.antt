-- ===== src/Packet/Address/Text.antt =====
-- packet.py, class Address: an address from its text, and as a text. A text is the list of its
-- character codes. `int(text, 16)` is an argument, on the texts that it does not read as a negative
-- number; a text that it raises on is none.
pub mod RoundTrip
use insteonrf.Common.{
  ℕ, zero, suc, ◌+◌, ◌-◌, ◌*◌, ◌/◌, ◌%◌, ◌^◌, ◌==◌, ltb, leb, bit_and, bit_or, Bool, true, false,
  not, ◌&&◌, ◌||◌, if◌then◌else◌, Option, none, some, List, [], ◌∷◌, ◌++◌, length, take, drop, map,
  list_beq, Result, ok, raise, value_error,
}
use insteonrf.Packet.Address.{Address}

-- `text.replace(c, "")`
unfoldable pub without : ℕ → List ℕ → List ℕ
without c [] = []
without c (x ∷ text) = if x == c then without c text else x ∷ without c text

-- `addr.replace(".", "").replace(":", "").replace(" ", "")`
unfoldable pub bare : List ℕ → List ℕ
bare text = without 0x20 (without 0x3A (without 0x2E text))

-- the value, if the digits are read
abbrev pub from_digits : Option ℕ → Result Address
from_digits none = raise value_error
from_digits (some v) = ok (record { value = v })

-- `Address(addr)` at a text
unfoldable pub of_text : (List ℕ → Option ℕ) → List ℕ → Result Address
of_text hex_int text =
    let hexs = bare text in
    if not (length hexs == 6) then raise value_error else from_digits (hex_int hexs)

-- a digit of `X`
unfoldable pub hex_digit : ℕ → ℕ
hex_digit d = if ltb d 10 then 0x30 + d else 0x37 + d

-- `{:02X}` of a byte
abbrev pub hex_byte : ℕ → List ℕ
hex_byte b = hex_digit (b / 16) ∷ hex_digit (b % 16) ∷ []

-- `__str__`
unfoldable pub show : Address → List ℕ
show a =
    let v = a.value in
    hex_byte (bit_and (v / 2 ^ 16) 0xFF)
    ++ 0x2E ∷ (hex_byte (bit_and (v / 2 ^ 8) 0xFF) ++ 0x2E ∷ hex_byte (bit_and v 0xFF))

-- `__eq__` with a text: `Address(other)._value` where that does not raise
unfoldable pub text_beq : (List ℕ → Option ℕ) → Address → List ℕ → Bool
text_beq hex_int a text = elim (of_text hex_int text) [
  | ok b ↦ a.value == b.value
  | raise e ↦ false
]
