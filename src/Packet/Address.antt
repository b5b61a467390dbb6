-- ===== src/Packet/Address.antt =====
-- packet.py, "addresses": class Address, built from an int, from three bytes high byte first, or
-- from the wire.
pub mod Laws
pub mod Text
use insteonrf.Common.{
  ℕ, ◌*◌, ◌/◌, ◌+◌, ◌^◌, bit_and, bit_or, ◌≡◌, ◌↔◌, Bool, true, ◌||◌, not, ◌==◌, ltb, if◌then◌else◌,
  List, [], ◌∷◌, length, get_or, Eq, ==_iff, Result, ok, raise, value_error, arith, ap, refl,
}
use mathlib.Core.List.{reverse}

pub record Address : Type 0 where
  pub value : ℕ

-- `Address(addr)` at an int
unfoldable pub of_int : ℕ → Result Address
of_int n = if ltb 0xFFFFFF n then raise value_error else ok (record { value = n })

-- `any(not 0 <= int(x) <= 0xFF for x in b)`
unfoldable pub any_wide : List ℕ → Bool
any_wide [] = Bool.false
any_wide (b ∷ bytes) = ltb 0xFF b || any_wide bytes

-- `Address(addr)` at a sequence
unfoldable pub of_seq : List ℕ → Result Address
unfolding any_wide
of_seq b =
    if not (length b == 3) || any_wide b
    then raise value_error
    else ok (record {
      value = bit_or (bit_or (get_or b 0 0 * 2 ^ 16) (get_or b 1 0 * 2 ^ 8)) (get_or b 2 0);
    })

-- `Address.from_wire`
unfoldable pub from_wire : List ℕ → Result Address
unfolding of_seq
from_wire b =
    if ltb (length b) 3
    then raise value_error
    else of_seq (
        bit_and (get_or b 2 0) 0xFF
        ∷ bit_and (get_or b 1 0) 0xFF
        ∷ bit_and (get_or b 0 0) 0xFF
        ∷ [])

-- the property `bytes`: high byte first
unfoldable pub bytes : Address → List ℕ
bytes a =
    let v = a.value in bit_and (v / 2 ^ 16) 0xFF ∷ bit_and (v / 2 ^ 8) 0xFF ∷ bit_and v 0xFF ∷ []

-- the property `wire`: low byte first
unfoldable pub wire : Address → List ℕ
unfolding bytes
wire a = reverse (bytes a)

-- `__eq__` between addresses
abbrev pub address_beq : Address → Address → Bool
address_beq a b = a.value == b.value

address_ext : (a b : Address) → a.value ≡ b.value → a ≡ b
address_ext a b e = λ i. record { value = e i }

pub address_beq_iff : (a b : Address) → (address_beq a b ≡ true) ↔ (a ≡ b)
address_beq_iff a b = (
  λ h. address_ext a b ((==_iff a.value b.value).0 h),
  λ e. (==_iff a.value b.value).1 (ap (λ (x : Address). x.value) e),
)

instance abbrev pub address_eq : Eq Address
address_eq = record { beq = address_beq; beq_iff = address_beq_iff }
