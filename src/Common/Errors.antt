-- ===== src/Common/Errors.antt =====
-- Exceptions as values: what the modelled code raises, by its class.
use mathlib.Core.Bool.{Bool, true, false}
use mathlib.Core.Logic.{◌⊎◌, inl, inr}
use mathlib.Core.Path.{◌≡◌, refl}

pub data Error : Type 0 where
  value_error manchester_error plm_format_error type_error index_error key_error : Error
  system_exit argument_type_error : Error

pub data Result {ℓ} (A : Type ℓ) : Type ℓ where
  ok : A → Result A
  raise : Error → Result A

infixl 5 ◌>>◌ ◌>>=◌
-- a statement, and those after it that read its value
abbrev pub ◌>>=◌ {ℓ κ} : {X : Type ℓ} {Y : Type κ} → Result X → (X → Result Y) → Result Y
raise error >>= after = raise error
ok value >>= after = after value

-- a check, and the statements after it
abbrev pub ◌>>◌ {ℓ} : {Y : Type ℓ} → Result (Unit {0}) → Result Y → Result Y
check >> after = check >>= λ done. after

-- `if c: raise e`
abbrev pub raise_if : Bool → Error → Result (Unit {0})
raise_if true e = raise e
raise_if false e = ok tt

-- a chain that returns has returned at each statement
pub >>=-eq-ok {ℓ κ} :
    {X : Type ℓ} {Y : Type κ} (first : Result X) (after : X → Result Y) {y : Y}
    → (first >>= after) ≡ ok y
    → (x : X) × (first ≡ ok x) × (after x ≡ ok y)
>>=-eq-ok (raise error) after h = cc
>>=-eq-ok (ok x) after h = (x, refl, h)

pub Result-cases {ℓ} :
    {A : Type ℓ} (r : Result A) → ((e : Error) × (r ≡ raise e)) ⊎ ((a : A) × (r ≡ ok a))
Result-cases (raise e) = inl (e, refl)
Result-cases (ok a) = inr (a, refl)
