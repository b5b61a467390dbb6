-- ===== src/Cli/Build/Raw.antt =====
-- cli.py, `build_from_args` of raw bytes: the overrides of the flags, and the CRC after them.
use insteonrf.Common.{
  ℕ, ◌+◌, ◌*◌, ◌/◌, ◌%◌, ◌==◌, ltb, bit_and, bit_or, Bool, true, false, ◌&&◌, Option, none, some,
  ◌<◌, ◌≡◌, refl, ◌∙◌, arith,
}
use insteonrf.Common.Bits.{all_below, all_below_sound, and_three}
use insteonrf.Packet.Flags.Laws.{bit_value}
use insteonrf.Cli.Build.{Args, override, override_ack, override_left, override_max}

-- an override, or else what was there
abbrev pub or_else {ℓ} : {A : Type ℓ} → Option A → A → A
or_else none a = a
or_else (some b) a = b

-- the parts of a flags byte that no override touches: its four upper bits but one
unfoldable upper : ℕ → ℕ
upper f = f / 64 * 2 + f / 16 % 2

unfoldable ack_test : ℕ → Bool
ack_test f =
    let on = bit_or f 0x20 in
    let off = bit_and f 0xDF in
    ltb on 256
    && (ltb off 256
        && ((upper on == upper f)
            && ((upper off == upper f)
                && ((on % 16 == f % 16)
                    && ((off % 16 == f % 16) && ((on / 32 % 2 == 1) && (off / 32 % 2 == 0)))))))

unfoldable left_test : ℕ → ℕ → Bool
left_test k f =
    let r = bit_or (bit_and f 0xF3) (k * 4) in
    ltb r 256 && ((r / 16 == f / 16) && ((r % 4 == f % 4) && (r / 4 % 4 == k)))

unfoldable max_test : ℕ → ℕ → Bool
max_test k f = let r = bit_or (bit_and f 0xFC) k in ltb r 256 && ((r / 4 == f / 4) && (r % 4 == k))

ack_table : all_below 256 ack_test ≡ true
unfolding all_below ack_test upper
ack_table = refl

left_table : all_below 4 (λ k. all_below 256 (left_test k)) ≡ true
unfolding all_below left_test
left_table = refl

max_table : all_below 4 (λ k. all_below 256 (max_test k)) ≡ true
unfolding all_below max_test
max_table = refl

-- the table of `override_left` at a number of hops, and of `override_max`
left_at : (k f : ℕ) → k < 4 → f < 256 → left_test k f ≡ true
left_at k f small byte =
    all_below_sound 256 (left_test k) f
      (all_below_sound 4 (λ k. all_below 256 (left_test k)) k left_table small) byte

max_at : (k f : ℕ) → k < 4 → f < 256 → max_test k f ≡ true
max_at k f small byte =
    all_below_sound 256 (max_test k) f
      (all_below_sound 4 (λ k. all_below 256 (max_test k)) k max_table small) byte

ack_lem :
    (o : Option Bool) (f : ℕ)
    → f < 256
    → let r = override_ack o f in
      (r < 256)
      × (r / 64 ≡ f / 64)
      × (r / 16 % 2 ≡ f / 16 % 2)
      × (r % 16 ≡ f % 16)
      × (r / 32 % 2 ≡ elim o [ none ↦ f / 32 % 2 | some b ↦ bit_value b 1 ])
unfolding override_ack ack_test upper
ack_lem none f h = (h, refl, refl, refl, refl)
ack_lem (some true) f h = ground (arith, all_below_sound 256 ack_test f ack_table h)
ack_lem (some false) f h = ground (arith, all_below_sound 256 ack_test f ack_table h)

left_lem :
    (o : Option ℕ) (f : ℕ)
    → f < 256
    → let r = override_left o f in
      (r < 256) × (r / 16 ≡ f / 16) × (r % 4 ≡ f % 4) × (r / 4 % 4 ≡ or_else o (f / 4) % 4)
unfolding override_left left_test
left_lem none f h = (h, refl, refl, refl)
left_lem (some n) f h =
    ground (arith, left_at (bit_and n 3) f (omega (arith, and_three n)) h, and_three n)

max_lem :
    (o : Option ℕ) (f : ℕ)
    → f < 256
    → let r = override_max o f in (r < 256) × (r / 4 ≡ f / 4) × (r % 4 ≡ or_else o f % 4)
unfolding override_max max_test
max_lem none f h = (h, refl, refl)
max_lem (some n) f h =
    ground (arith, max_at (bit_and n 3) f (omega (arith, and_three n)) h, and_three n)

-- the parts of a flags byte after the overrides
pub record IsOverridden (a : Args) (f r : ℕ) : Type 0 where
  pub byte : r < 256
  pub upper_kept : r / 64 ≡ f / 64
  pub ext_kept : r / 16 % 2 ≡ f / 16 % 2
  pub ack_set : r / 32 % 2 ≡ elim a.ack [ none ↦ f / 32 % 2 | some b ↦ bit_value b 1 ]
  pub left_set : r / 4 % 4 ≡ or_else a.hops_left (f / 4) % 4
  pub max_set : r % 4 ≡ or_else a.max_hops f % 4

or_else_mod : (o : Option ℕ) (m n : ℕ) → m % 4 ≡ n % 4 → or_else o m % 4 ≡ or_else o n % 4
or_else_mod none m n e = e
or_else_mod (some k) m n e = refl

pub override_lem : (a : Args) (f : ℕ) → f < 256 → IsOverridden a f (override a f)
override_lem a f h =
    let f1 = override_ack a.ack f in
    let f2 = override_left a.hops_left f1 in
    let x = ack_lem a.ack f h in
    let y = left_lem a.hops_left f1 x.0 in
    let z = max_lem a.max_hops f2 y.0 in
    record {
      byte = z.0;
      upper_kept = omega (arith, x.1, y.1, z.1);
      ext_kept = omega (arith, x.2, y.1, z.1);
      ack_set = omega (arith, y.1, z.1) ∙ x.4;
      left_set =
          omega (arith, z.1, y.3) ∙ or_else_mod a.hops_left (f1 / 4) (f / 4) (omega (arith, x.3));
      max_set = z.2 ∙ or_else_mod a.max_hops f2 f (omega (arith, x.3, y.2));
    }
