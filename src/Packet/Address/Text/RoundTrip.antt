-- ===== src/Packet/Address/Text/RoundTrip.antt =====
-- packet.py, class Address: the text of an address, read back.
use insteonrf.Common.{
  ℕ, ◌+◌, ◌*◌, ◌/◌, ◌%◌, ◌^◌, Option, some, List, [], ◌∷◌, length, map, ok, All, ◌<◌, ◌≡◌, refl, ap,
  ◌∙◌, arith,
}
use insteonrf.Common.Bits.{and_byte}
use insteonrf.Packet.Address.{Address, address_beq}
use insteonrf.Packet.Address.Text.{bare, hex_digit, without, show, of_text, text_beq}

-- the value of digits from the highest on
unfoldable pub hex_value : ℕ → List ℕ → ℕ
hex_value v [] = v
hex_value v (d ∷ ds) = hex_value (v * 16 + d) ds

-- what `int(text, 16)` does on a text of digits
unfoldable pub ReadsHex : (List ℕ → Option ℕ) → Type 0
ReadsHex hex_int =
    (ds : List ℕ)
    → All (λ d. d < 16) ds
    → 0 < length ds
    → hex_int (map hex_digit ds) ≡ some (hex_value 0 ds)

skip_dot :
    (d : ℕ) (text : List ℕ) → without 0x2E (hex_digit d ∷ text) ≡ hex_digit d ∷ without 0x2E text
unfolding without hex_digit
skip_dot d text = ground arith

skip_colon :
    (d : ℕ) (text : List ℕ) → without 0x3A (hex_digit d ∷ text) ≡ hex_digit d ∷ without 0x3A text
unfolding without hex_digit
skip_colon d text = ground arith

skip_space :
    (d : ℕ) (text : List ℕ) → without 0x20 (hex_digit d ∷ text) ≡ hex_digit d ∷ without 0x20 text
unfolding without hex_digit
skip_space d text = ground arith

drop_dot : (text : List ℕ) → without 0x2E (0x2E ∷ text) ≡ without 0x2E text
unfolding without
drop_dot text = refl

drop_end : (c : ℕ) → without c [] ≡ []
unfolding without
drop_end c = refl

bare-dotted :
    (a b c d e f : ℕ)
    → bare (
        hex_digit a
        ∷ hex_digit b
        ∷ 0x2E
        ∷ hex_digit c
        ∷ hex_digit d
        ∷ 0x2E
        ∷ hex_digit e
        ∷ hex_digit f
        ∷ [])
      ≡ map hex_digit (a ∷ b ∷ c ∷ d ∷ e ∷ f ∷ [])
unfolding bare
bare-dotted a b c d e f = simp (skip_dot, skip_colon, skip_space, drop_dot, drop_end) refl

value_lem :
    (v : ℕ)
    → v < 2 ^ 24
    → hex_value 0 (
        v / 65536 % 256 / 16
        ∷ v / 65536 % 256 % 16
        ∷ v / 256 % 256 / 16
        ∷ v / 256 % 256 % 16
        ∷ v % 256 / 16
        ∷ v % 256 % 16
        ∷ [])
      ≡ v
unfolding hex_value
value_lem v h = omega arith

six : ℕ → List ℕ
six v =
    v / 65536 % 256 / 16
    ∷ v / 65536 % 256 % 16
    ∷ v / 256 % 256 / 16
    ∷ v / 256 % 256 % 16
    ∷ v % 256 / 16
    ∷ v % 256 % 16
    ∷ []

bare-show : (a : Address) → bare (show a) ≡ map hex_digit (six a.value)
unfolding show six
bare-show a =
    rw (and_byte (a.value / 65536), and_byte (a.value / 256), and_byte a.value)
      (bare-dotted _ _ _ _ _ _)

-- The text of an address of three bytes reads back as the address, and is equal to just that one.
pub of_text-show :
    (hex_int : List ℕ → Option ℕ) (a b : Address)
    → ReadsHex hex_int
    → a.value < 2 ^ 24
    → (of_text hex_int (show a) ≡ ok a) × (text_beq hex_int b (show a) ≡ address_beq b a)
unfolding of_text ReadsHex six text_beq
of_text-show hex_int a b reads h =
    let digits = six a.value in
    let e : hex_int (bare (show a)) ≡ some a.value =
      ap hex_int (bare-show a)
      ∙ reads digits
          (
            omega arith,
            (omega arith, (omega arith, (omega arith, (omega arith, (omega arith, tt))))),
          )
          (omega arith)
      ∙ ap some (value_lem a.value h) in
    let n : length (bare (show a)) ≡ 6 = ap length (bare-show a) in
    let t : of_text hex_int (show a) ≡ ok a = rw (n, e) refl in (t, rw (t, text_beq) refl)
