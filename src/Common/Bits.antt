-- ===== src/Common/Bits.antt =====
-- Laws of `&`, `|` and `^` on numbers at every width, from the recursion on binary digits.
use Prim.Native.Nat.{
  ℕ, zero, suc, ◌+◌, ◌*◌, ◌/◌, ◌%◌, ◌^◌, ◌≤◌, ◌<◌, min, max, digits, bitwise, differ, bit_and,
  bit_or, bit_xor, bit_and-bitwise, bit_or-bitwise, bit_xor-bitwise,
}
use mathlib.Core.Bool.{Bool, true, ◌&&◌}
use mathlib.Core.Path.{◌≡◌, refl, ap}
use native.Mathlib.Nat.{le_refl, pow-suc}
use native.Mathlib.Omega.{arith}

-- One binary digit at a time: `alone` is what an operation leaves of a second operand when the
-- first has no digits left, `bit` is what it does to two digits.
module _ (alone : ℕ → ℕ) (bit : ℕ → ℕ → ℕ) where
  -- Fuel beyond the first number changes nothing.
  digits_enough :
      (x more less y : ℕ)
      → x ≤ less
      → x ≤ more
      → digits alone bit more x y ≡ digits alone bit less x y
  digits_enough zero zero zero y h k = refl
  digits_enough zero zero (suc less) y h k = refl
  digits_enough zero (suc more) zero y h k = refl
  digits_enough zero (suc more) (suc less) y h k = refl
  digits_enough (suc x) zero less y h k = absurd (omega arith)
  digits_enough (suc x) (suc more) zero y h k = absurd (omega arith)
  digits_enough (suc x) (suc more) (suc less) y h k =
      rw (digits_enough (suc x / 2) more less (y / 2) (omega arith) (omega arith))

  last_digit :
      (x y : ℕ)
      → bitwise alone bit (suc x) y
        ≡ 2 * bitwise alone bit (suc x / 2) (y / 2) + bit (suc x % 2) (y % 2)
  last_digit x y =
      omega
        (arith, digits_enough (suc x / 2) x (suc x / 2) (y / 2) (le_refl (suc x / 2)) (omega arith))

pub bit_and_step : (x y : ℕ) → bit_and x y ≡ 2 * bit_and (x / 2) (y / 2) + min (x % 2) (y % 2)
bit_and_step zero y = simp bit_and-bitwise (omega arith)
bit_and_step (suc x) y = simp bit_and-bitwise (last_digit (λ d. 0) min x y)

pub bit_or_step : (x y : ℕ) → bit_or x y ≡ 2 * bit_or (x / 2) (y / 2) + max (x % 2) (y % 2)
bit_or_step zero y = simp bit_or-bitwise (omega arith)
bit_or_step (suc x) y = simp bit_or-bitwise (last_digit (λ d. d) max x y)

differ_digits : (x y : ℕ) → x < 2 → y < 2 → differ x y ≡ (x + y) % 2
differ_digits zero y h k = omega arith
differ_digits (suc zero) zero h k = refl
differ_digits (suc zero) (suc zero) h k = refl
differ_digits (suc zero) (suc (suc y)) h k = absurd (omega arith)
differ_digits (suc (suc x)) y h k = absurd (omega arith)

pub bit_xor_step : (a b : ℕ) → bit_xor a b ≡ 2 * bit_xor (a / 2) (b / 2) + (a % 2 + b % 2) % 2
bit_xor_step zero b = simp bit_xor-bitwise (omega arith)
bit_xor_step (suc a) b = simp bit_xor-bitwise (
    omega (
      arith,
      last_digit (λ d. d) differ a b,
      differ_digits (suc a % 2) (b % 2) (omega arith) (omega arith),
    ))

-- `(a ^ b) ^ b` is `a`.
xor_cancel_fuel : (n a b : ℕ) → a ≤ n → b ≤ n → bit_xor (bit_xor a b) b ≡ a
xor_cancel_fuel zero zero zero h k = refl
xor_cancel_fuel zero (suc a) b h k = absurd (omega arith)
xor_cancel_fuel zero zero (suc b) h k = absurd (omega arith)
xor_cancel_fuel (suc n) a b h k = omega (
  arith,
  bit_xor_step (bit_xor a b) b,
  bit_xor_step a b,
  ap (λ (t : ℕ). bit_xor t (b / 2)) halved,
  xor_cancel_fuel n (a / 2) (b / 2) (omega arith) (omega arith),
)
  where
    halved : bit_xor a b / 2 ≡ bit_xor (a / 2) (b / 2)
    halved = omega (arith, bit_xor_step a b)

pub xor_cancel : (a b : ℕ) → bit_xor (bit_xor a b) b ≡ a
xor_cancel a b = xor_cancel_fuel (a + b) a b (omega arith) (omega arith)

xor_comm_fuel : (n a b : ℕ) → a ≤ n → b ≤ n → bit_xor a b ≡ bit_xor b a
xor_comm_fuel zero zero zero h k = refl
xor_comm_fuel zero (suc a) b h k = absurd (omega arith)
xor_comm_fuel zero zero (suc b) h k = absurd (omega arith)
xor_comm_fuel (suc n) a b h k = omega (
  arith,
  bit_xor_step a b,
  bit_xor_step b a,
  xor_comm_fuel n (a / 2) (b / 2) (omega arith) (omega arith),
)

pub xor_comm : (a b : ℕ) → bit_xor a b ≡ bit_xor b a
xor_comm a b = xor_comm_fuel (a + b) a b (omega arith) (omega arith)

-- `^` makes no number wider than its operands.
pub xor-lt : (k a b : ℕ) → a < 2 ^ k → b < 2 ^ k → bit_xor a b < 2 ^ k
xor-lt zero zero zero h l = omega arith
xor-lt zero (suc a) b h l = absurd (omega arith)
xor-lt zero zero (suc b) h l = absurd (omega arith)
xor-lt (suc k) a b h l = omega (
  arith,
  pow-suc 2 k,
  bit_xor_step a b,
  xor-lt k (a / 2) (b / 2) (omega (arith, pow-suc 2 k)) (omega (arith, pow-suc 2 k)),
)

pub xor_injective : (a b c : ℕ) → bit_xor a c ≡ bit_xor b c → a ≡ b
xor_injective a b c e = omega (arith, xor_cancel a c, xor_cancel b c, ap (λ (t : ℕ). bit_xor t c) e)

and-zero_fuel : (n a : ℕ) → a ≤ n → bit_and a 0 ≡ 0
and-zero_fuel n zero h = refl
and-zero_fuel zero (suc a) h = absurd (omega arith)
and-zero_fuel (suc n) (suc a) h =
    omega (arith, bit_and_step (suc a) 0, and-zero_fuel n (suc a / 2) (omega arith))

pub and-zero : (a : ℕ) → bit_and a 0 ≡ 0
and-zero a = and-zero_fuel a a (omega arith)

-- `a & 2^k` and `a & (2^k - 1)`, by halving.
pub and_one : (a : ℕ) → bit_and a 1 ≡ a % 2
and_one a = omega (arith, bit_and_step a 1, and-zero (a / 2))

pub and_even : (a k : ℕ) → bit_and a (2 * k) ≡ bit_and (a / 2) k * 2
and_even a k = omega (arith, bit_and_step a (2 * k), ap (λ (t : ℕ). bit_and (a / 2) t) halved)
  where
    halved : 2 * k / 2 ≡ k
    halved = omega arith

pub and_odd : (a k : ℕ) → bit_and a (2 * k + 1) ≡ bit_and (a / 2) k * 2 + a % 2
and_odd a k = omega (arith, bit_and_step a (2 * k + 1), ap (λ (t : ℕ). bit_and (a / 2) t) halved)
  where
    halved : (2 * k + 1) / 2 ≡ k
    halved = omega arith

pub and_three : (a : ℕ) → bit_and a 3 ≡ a % 4
and_three a = omega (arith, and_odd a 1, and_one (a / 2))

pub and_seven : (a : ℕ) → bit_and a 7 ≡ a % 8
and_seven a = omega (arith, and_odd a 3, and_three (a / 2))

pub and_fifteen : (a : ℕ) → bit_and a 15 ≡ a % 16
and_fifteen a = omega (arith, and_odd a 7, and_seven (a / 2))

pub and_byte : (a : ℕ) → bit_and a 255 ≡ a % 256
and_byte a = omega (
  arith,
  and_odd a 127,
  and_odd (a / 2) 63,
  and_odd (a / 2 / 2) 31,
  and_odd (a / 2 / 2 / 2) 15,
  and_fifteen (a / 2 / 2 / 2 / 2),
)

pub and_bit2 : (a : ℕ) → bit_and a 4 ≡ a / 4 % 2 * 4
and_bit2 a = omega (arith, and_even a 2, and_even (a / 2) 1, and_one (a / 2 / 2))

pub and_bit4 : (a : ℕ) → bit_and a 16 ≡ a / 16 % 2 * 16
and_bit4 a = omega (arith, and_even a 8, and_even (a / 2) 4, and_bit2 (a / 2 / 2))

pub and_bit5 : (a : ℕ) → bit_and a 32 ≡ a / 32 % 2 * 32
and_bit5 a = omega (arith, and_even a 16, and_bit4 (a / 2))

pub and_bit6 : (a : ℕ) → bit_and a 64 ≡ a / 64 % 2 * 64
and_bit6 a = omega (arith, and_even a 32, and_bit5 (a / 2))

pub and_bit7 : (a : ℕ) → bit_and a 128 ≡ a / 128 % 2 * 128
and_bit7 a = omega (arith, and_even a 64, and_bit6 (a / 2))

pub and_hops : (a : ℕ) → bit_and a 12 ≡ a / 4 % 4 * 4
and_hops a = omega (arith, and_even a 6, and_even (a / 2) 3, and_three (a / 2 / 2))

pub and_bits67 : (a : ℕ) → bit_and a 192 ≡ a / 64 % 4 * 64
and_bits67 a = omega (
  arith,
  and_even a 96,
  and_even (a / 2) 48,
  and_even (a / 2 / 2) 24,
  and_even (a / 2 / 2 / 2) 12,
  and_hops (a / 2 / 2 / 2 / 2),
)

or-zero_fuel : (n a : ℕ) → a ≤ n → bit_or a 0 ≡ a
or-zero_fuel n zero h = refl
or-zero_fuel zero (suc a) h = absurd (omega arith)
or-zero_fuel (suc n) (suc a) h =
    omega (arith, bit_or_step (suc a) 0, or-zero_fuel n (suc a / 2) (omega arith))

pub or-zero : (a : ℕ) → bit_or a 0 ≡ a
or-zero a = or-zero_fuel a a (omega arith)

or_comm_fuel : (n a b : ℕ) → a ≤ n → b ≤ n → bit_or a b ≡ bit_or b a
or_comm_fuel zero zero zero h k = refl
or_comm_fuel zero (suc a) b h k = absurd (omega arith)
or_comm_fuel zero zero (suc b) h k = absurd (omega arith)
or_comm_fuel (suc n) a b h k = omega (
  arith,
  bit_or_step a b,
  bit_or_step b a,
  or_comm_fuel n (a / 2) (b / 2) (omega arith) (omega arith),
)

pub or_comm : (a b : ℕ) → bit_or a b ≡ bit_or b a
or_comm a b = or_comm_fuel (a + b) a b (omega arith) (omega arith)

mul-pow-suc : (q k : ℕ) → q * 2 ^ suc k ≡ 2 * (q * 2 ^ k)
mul-pow-suc q k = omega (arith, ap (λ (t : ℕ). q * t) (pow-suc 2 k))

-- `(q << k) | r` is a sum when `r` fits in `k` bits.
pub or_shift : (k q r : ℕ) → r < 2 ^ k → bit_or (q * 2 ^ k) r ≡ q * 2 ^ k + r
or_shift zero q zero h = ground (arith, or-zero (q * 1))
or_shift zero q (suc r) h = absurd (omega arith)
or_shift (suc k) q r h = omega (
  arith,
  pow-suc 2 k,
  mul-pow-suc q k,
  bit_or_step (q * 2 ^ suc k) r,
  ap (λ (t : ℕ). bit_or t (r / 2)) halved,
  or_shift k q (r / 2) (omega (arith, pow-suc 2 k)),
)
  where
    halved : q * 2 ^ suc k / 2 ≡ q * 2 ^ k
    halved = omega (arith, mul-pow-suc q k)

-- Setting a bit above all others adds it.
pub or_high : (k a : ℕ) → a < 2 ^ k → bit_or a (2 ^ k) ≡ a + 2 ^ k
or_high k a h = omega (arith, or_comm a (2 ^ k), ap (λ (t : ℕ). bit_or t a) once, or_shift k 1 a h)
  where
    once : 1 * 2 ^ k ≡ 2 ^ k
    once = omega arith

-- A table over a small range, and what it says of each value.
unfoldable pub all_below : ℕ → (ℕ → Bool) → Bool
all_below zero p = true
all_below (suc n) p = p n && all_below n p

pub all_below_sound :
    (bound : ℕ) (test : ℕ → Bool) (i : ℕ) → all_below bound test ≡ true → i < bound → test i ≡ true
unfolding all_below
all_below_sound zero test i passed small = absurd (omega arith)
all_below_sound (suc bound) test i passed small = ground (arith, all_below_sound bound test i)
