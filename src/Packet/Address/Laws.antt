-- ===== src/Packet/Address/Laws.antt =====
-- packet.py, class Address: to the wire and from it.
use insteonrf.Common.{
  ℕ, ◌*◌, ◌/◌, ◌%◌, ◌+◌, ◌<◌, bit_and, bit_or, ◌≡◌, List, [], ◌∷◌, ok, arith, ap,
}
use mathlib.Core.List.{reverse}
use mathlib.Core.Path.{subst}
use insteonrf.Common.Bits.{and_byte, or_shift}
use insteonrf.Packet.Crc.Laws.{IsByte}
use insteonrf.Packet.Address.{Address, of_seq, from_wire, bytes, wire}

or_bytes :
    (a b c : ℕ)
    → IsByte b
    → IsByte c
    → bit_or (bit_or (a * 65536) (b * 256)) c ≡ a * 65536 + b * 256 + c
or_bytes a b c hb hc = omega (
  arith,
  ap (λ (t : ℕ). bit_or t c) high,
  or_shift 8 (a * 256 + b) c hc,
  ap (λ (t : ℕ). bit_or t c) regroup,
)
  where
    high : bit_or (a * 65536) (b * 256) ≡ a * 65536 + b * 256
    high = or_shift 16 a (b * 256) (omega arith)

    regroup : a * 65536 + b * 256 ≡ (a * 256 + b) * 256
    regroup = omega arith

low_byte : (b : ℕ) → IsByte b → bit_and b 255 ≡ b
low_byte b h = omega (arith, and_byte b)

-- An address of three bytes, high byte first.
pub of_bytes : ℕ → ℕ → ℕ → Address
of_bytes a b c = record { value = a * 65536 + b * 256 + c }

pub of_seq_bytes :
    (a b c : ℕ) → IsByte a → IsByte b → IsByte c → of_seq (a ∷ b ∷ c ∷ []) ≡ ok (of_bytes a b c)
unfolding of_seq of_bytes
of_seq_bytes a b c ha hb hc = ground (arith, or_bytes a b c hb hc)

pub bytes-of_bytes :
    (a b c : ℕ) → IsByte a → IsByte b → IsByte c → bytes (of_bytes a b c) ≡ a ∷ b ∷ c ∷ []
unfolding bytes of_bytes
bytes-of_bytes a b c ha hb hc = ground (
  arith,
  and_byte ((a * 65536 + b * 256 + c) / 65536),
  and_byte ((a * 65536 + b * 256 + c) / 256),
  and_byte (a * 65536 + b * 256 + c),
)

pub wire-of_bytes :
    (a b c : ℕ) → IsByte a → IsByte b → IsByte c → wire (of_bytes a b c) ≡ c ∷ b ∷ a ∷ []
unfolding wire
wire-of_bytes a b c ha hb hc = ap reverse (bytes-of_bytes a b c ha hb hc)

pub from_wire_bytes :
    (a b c : ℕ) (rest : List ℕ)
    → IsByte a
    → IsByte b
    → IsByte c
    → from_wire (c ∷ b ∷ a ∷ rest) ≡ ok (of_bytes a b c)
unfolding from_wire
from_wire_bytes a b c rest ha hb hc =
    ground (arith, low_byte a ha, low_byte b hb, low_byte c hc, of_seq_bytes a b c ha hb hc)

-- Three bytes off the wire make an address, and that address goes back on the wire as the same
-- three bytes; what follows them does not matter.
pub wire-from_wire :
    (c b a : ℕ) (rest : List ℕ)
    → IsByte c
    → IsByte b
    → IsByte a
    → (addr : Address) × (from_wire (c ∷ b ∷ a ∷ rest) ≡ ok addr)
      × (wire addr ≡ c ∷ b ∷ a ∷ [])
      × (bytes addr ≡ a ∷ b ∷ c ∷ [])
wire-from_wire c b a rest hc hb ha = (
  of_bytes a b c,
  from_wire_bytes a b c rest ha hb hc,
  wire-of_bytes a b c ha hb hc,
  bytes-of_bytes a b c ha hb hc,
)

of_bytes_again :
    (a b c : ℕ)
    → IsByte a
    → IsByte b
    → IsByte c
    → from_wire (wire (of_bytes a b c)) ≡ ok (of_bytes a b c)
of_bytes_again a b c ha hb hc =
    rw (wire-of_bytes a b c ha hb hc) (from_wire_bytes a b c [] ha hb hc)

-- An address of 24 bits is read back from its own wire bytes.
pub from_wire-wire : (addr : Address) → addr.value < 16777216 → from_wire (wire addr) ≡ ok addr
unfolding of_bytes
from_wire-wire addr h =
    subst (λ x. from_wire (wire x) ≡ ok x) (λ i. record { value = whole i })
      (of_bytes_again (addr.value / 65536) (addr.value / 256 % 256) (addr.value % 256) (omega arith)
        (omega arith) (omega arith))
  where
    whole :
        addr.value / 65536 * 65536 + addr.value / 256 % 256 * 256 + addr.value % 256 ≡ addr.value
    whole = omega arith

-- Three elements make an address, whatever they are: their low bytes are taken.
pub from_wire_masked :
    (a b c : ℕ) (rest : List ℕ)
    → from_wire (c ∷ b ∷ a ∷ rest) ≡ ok (of_bytes (a % 256) (b % 256) (c % 256))
unfolding from_wire
from_wire_masked a b c rest = ground (
  arith,
  and_byte a,
  and_byte b,
  and_byte c,
  of_seq_bytes (a % 256) (b % 256) (c % 256) (omega arith) (omega arith) (omega arith),
)
