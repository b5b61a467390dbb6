-- ===== src/Radio/Mqtt/Aligned.antt =====
-- radio/mqtt.py, `Capture.from_payload`: what can be relied on in a capture.
use insteonrf.Common.{
  ==_iff, ℕ, suc, ◌+◌, ◌-◌, ◌≤◌, ◌<◌, ◌≡◌, refl, ap, arith, ◌⊎◌, inl, inr, true, false, ◌||◌, ◌==◌,
  ltb, Option, none, some, List, [], ◌∷◌, ◌++◌, length, take, length-append, length-take,
  Bool-cases, list_eq,
}
use mathlib.Core.Path.{subst}
use insteonrf.Common.Dict.{Dict, get}
use insteonrf.Common.Int.{ℤ, pos, negsuc}
use insteonrf.Manchester.{Bits, invert_bits}
use insteonrf.Packet.Frames.{start_header, starts_with}
use insteonrf.Radio.Mqtt.{
  bits_from_bytes, with_sync_header, sync_header, hard_soft, soft_from_bytes, max_capture_bytes,
}
use insteonrf.Radio.Mqtt.Octets.{length-digits}
use insteonrf.Radio.Mqtt.Payload.{
  Value, text, whole, real, flag, other, Json, object, scalar, Capture, capture_time, soft_of,
  aligned_soft, capture_of, usable, from_blob, from_json, from_payload, as_float, sync_word_of,
}

-- the bits of a capture are those of the radio's FIFO, behind a header: the one that they start with
-- already, or one of 16 bits that was put back
pub record IsFramed (raw : List ℕ) (word : Option ℤ) (bits : Bits) : Type 0 where
  pub header : Bits
  pub joined : bits ≡ header ++ bits_from_bytes raw
  pub kept :
      ((header ≡ [])
        × ((starts_with start_header bits || starts_with (invert_bits start_header) bits) ≡ true))
      ⊎ ((header ≡ sync_header word) × (length header ≡ 16))

length-header : (word : Option ℤ) → length (sync_header word) ≡ 16
unfolding invert_bits
length-header none = refl
length-header (some w) = length-digits 16 _

header-IsFramed :
    (raw : List ℕ) (word : Option ℤ)
    → IsFramed raw word (with_sync_header (bits_from_bytes raw) word)
unfolding with_sync_header
header-IsFramed raw word =
    let fifo = bits_from_bytes raw in
    elim (Bool-cases
      (starts_with start_header fifo || starts_with (invert_bits start_header) fifo)) [
        | inl there ↦ rw there (record { header = []; joined = refl; kept = inl (refl, there) })
        | inr gone ↦ rw gone (record {
          header = sync_header word;
          joined = refl;
          kept = inr (refl, length-header word);
        })
      ]

length-hard_soft : (bits : Bits) → length (hard_soft bits) ≡ length bits
length-hard_soft [] = refl
length-hard_soft (c ∷ bits) = ap suc (length-hard_soft bits)

length-soft : (raw : List ℕ) → length (soft_from_bytes raw) ≡ length raw
length-soft [] = refl
length-soft (b ∷ raw) = ap suc (length-soft raw)

-- there is one soft value for each bit, or none at all
abbrev pub IsAligned : Bits → Option (List ℤ) → Type 0
IsAligned bits none = Unit {0}
IsAligned bits (some v) = length v ≡ length bits

framed_length :
    (raw : List ℕ) (word : Option ℤ) (bits : Bits)
    → IsFramed raw word bits
    → length (bits_from_bytes raw) ≤ length bits
framed_length raw word bits f =
    omega (arith, ap length f.joined, length-append f.header (bits_from_bytes raw))

time_lem :
    (t : Option ℤ) (clock : ℕ)
    → (capture_time t clock < clock + 3_600_000_000)
      × (clock < capture_time t clock + 3_600_000_000)
unfolding capture_time
time_lem none clock = omega arith
time_lem (some (pos at)) clock = ground arith
time_lem (some (negsuc n)) clock = omega arith

-- what is said of a capture that arrives at the time `clock`
pub record IsUsable (clock : ℕ) (c : Capture) : Type 0 where
  pub raw : List ℕ
  pub sized : (0 < length raw) × (length raw ≤ 4096)
  pub framed : IsFramed raw c.sync_word c.bits
  pub aligned : IsAligned c.bits c.soft
  pub timed : (c.timestamp < clock + 3_600_000_000) × (clock < c.timestamp + 3_600_000_000)

capture_inj : {a b : Capture} → some a ≡ some b → a ≡ b
capture_inj h = cc

same-IsUsable : (clock : ℕ) (a b : Capture) → a ≡ b → IsUsable clock a → IsUsable clock b
same-IsUsable clock a b e h = subst (λ c. IsUsable clock c) e h

module _ (loads : List ℕ → Option Json) (b64decode : List ℕ → Option (List ℕ))
    (hex_int : List ℕ → Option ℤ) where
  aligned_lem :
      (fifo bits : Bits) (o : Option (List ℕ))
      → length fifo ≤ length bits
      → IsAligned bits (aligned_soft loads b64decode hex_int fifo bits o)
  aligned_lem fifo bits none h = tt
  aligned_lem fifo bits (some raw) h = elim (Bool-cases (length raw == length fifo)) [
    | inr bad ↦ rw bad tt
    | inl good ↦
        let head = take (length bits - length fifo) bits in
        rw good (
          omega (
            arith,
            (==_iff (length raw) (length fifo)).0 good,
            length-append (hard_soft head) (soft_from_bytes raw),
            length-hard_soft head,
            length-soft raw,
            length-take (length bits - length fifo) bits,
          ))
  ]

  soft_lem :
      (fifo bits : Bits) (v : Option Value)
      → length fifo ≤ length bits
      → IsAligned bits (soft_of loads b64decode hex_int fifo bits v)
  soft_lem fifo bits (some (text s)) h = aligned_lem fifo bits (b64decode s) h
  soft_lem fifo bits none h = tt
  soft_lem fifo bits (some (flag b)) h = tt
  soft_lem fifo bits (some (whole n)) h = tt
  soft_lem fifo bits (some (real x)) h = tt
  soft_lem fifo bits (some other) h = tt

  capture_of-IsUsable :
      (topic : List ℕ) (rec : Dict (List ℕ) Value) (clock : ℕ) (raw : List ℕ)
      → (length raw == 0 || ltb max_capture_bytes (length raw)) ≡ false
      → IsUsable clock (capture_of loads b64decode hex_int topic rec clock raw)
  unfolding capture_of
  capture_of-IsUsable topic rec clock raw h =
      let fifo = bits_from_bytes raw in
      let word = sync_word_of loads b64decode hex_int (get (b's' ∷ b'w' ∷ []) rec) in
      let framed = header-IsFramed raw word in
      record {
        raw = raw;
        sized = ground (arith, h);
        framed = framed;
        aligned =
            soft_lem fifo (with_sync_header fifo word) (get (b's' ∷ []) rec)
              (framed_length raw word (with_sync_header fifo word) framed);
        timed = time_lem (as_float (get (b't' ∷ []) rec)) clock;
      }

  usable_lem :
      (topic : List ℕ) (rec : Dict (List ℕ) Value) (clock : ℕ) (o : Option (List ℕ)) (c : Capture)
      → usable loads b64decode hex_int topic rec clock o ≡ some c
      → IsUsable clock c
  usable_lem topic rec clock none c = λ e. absurd cc
  usable_lem topic rec clock (some raw) c =
      let bad = length raw == 0 || ltb max_capture_bytes (length raw) in
      let made = capture_of loads b64decode hex_int topic rec clock raw in
      elim (Bool-cases bad) [
        | inl b ↦ rw b (λ e. absurd cc)
        | inr g ↦ rw g (λ e.
            same-IsUsable clock made c (capture_inj e) (capture_of-IsUsable topic rec clock raw g))
      ]

  blob_lem :
      (topic : List ℕ) (rec : Dict (List ℕ) Value) (clock : ℕ) (v : Option Value) (c : Capture)
      → from_blob loads b64decode hex_int topic rec clock v ≡ some c
      → IsUsable clock c
  blob_lem topic rec clock (some (text blob)) c e = usable_lem topic rec clock (b64decode blob) c e
  blob_lem topic rec clock none c e = absurd cc
  blob_lem topic rec clock (some (flag b)) c e = absurd cc
  blob_lem topic rec clock (some (whole n)) c e = absurd cc
  blob_lem topic rec clock (some (real x)) c e = absurd cc
  blob_lem topic rec clock (some other) c e = absurd cc

  json_lem :
      (topic : List ℕ) (clock : ℕ) (j : Option Json) (c : Capture)
      → from_json loads b64decode hex_int topic clock j ≡ some c
      → IsUsable clock c
  json_lem topic clock none c e = absurd cc
  json_lem topic clock (some scalar) c e = absurd cc
  json_lem topic clock (some (object rec)) c e = blob_lem topic rec clock (get (b'b' ∷ []) rec) c e

  -- Whatever `json.loads`, `b64decode` and `int(text, 16)` answer, a capture that is made of a message
  -- holds the bits of 1 to 4096 bytes, behind a header: the one that they start with already, or one
  -- of 16 bits put back, that of its sync word where it has one. It has a soft value for each of its
  -- bits or none at all, and its time lies within an hour of the time of arrival.
  pub from_payload-IsUsable :
      (topic payload : List ℕ) (clock : ℕ) (c : Capture)
      → from_payload loads b64decode hex_int topic payload clock ≡ some c
      → IsUsable clock c
  unfolding from_payload
  from_payload-IsUsable topic payload clock c e = json_lem topic clock (loads payload) c e
