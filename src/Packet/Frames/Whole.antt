-- ===== src/Packet/Frames/Whole.antt =====
-- packet.py, `parse_bits` on the whole line that `to_bits` makes, in both polarities: where the
-- first header stands, and the packet that is read there.
use insteonrf.Common.{
  ℕ, zero, suc, ◌+◌, ◌≤◌, ◌<◌, ◌≡◌, refl, sym, ap, ◌∙◌, arith, Bool, true, false, if◌then◌else◌,
  Option, none, some, List, [], ◌∷◌, ◌++◌, length, drop, ltb, ok, All, Bool-cases, inl, inr,
}
use insteonrf.Manchester.{Bits, zero as low, one as high, cell_beq, invert_bit, invert_bits}
use insteonrf.Packet.Crc.Laws.{IsByte}
use insteonrf.Packet.Fields.{Packet, extended}
use insteonrf.Packet.Frames.RoundTrip.{
  head_code, tail_code, whole, to_bits_lem, byte_pad_cut, ok_inj, packet_at-to_bits,
}
use insteonrf.Packet.Frames.Loop.{frames}
use insteonrf.Manchester.RoundTrip.{pairs, invert_bits-invert_bits}
use insteonrf.Packet.Frames.{
  find_from, count_down, low_bits, expected_indexes, start_header, to_bits, starts_with, find_first,
  find_headers, flipped, header_loop, packet_at, parse_at, parse_bits,
}
use insteonrf.Packet.Frames.Polarity.{find_first-starts, find_first-invert}

-- the preamble, the first marker and the first counter: what the line of each packet starts with
abbrev pub lead : Bits
lead =
    high ∷ low ∷ low ∷ high ∷ high ∷ low ∷ low ∷ high ∷ high ∷ low ∷ low ∷ high ∷ high ∷ low ∷ low
    ∷ high ∷ high ∷ low ∷ low ∷ high ∷ high ∷ high ∷ low ∷ high ∷ low ∷ high ∷ low ∷ high ∷ low
    ∷ high ∷ low ∷ high ∷ []

whole-lead :
    (ext : Bool) (bytes : List ℕ) (extra : Bits)
    → 0 < length bytes
    → (rest : Bits) × ((head_code ++ (frames (expected_indexes ext) bytes ++ tail_code)) ++ extra
        ≡ lead ++ rest)
unfolding head_code pairs frames expected_indexes low_bits
whole-lead ext [] extra h = absurd (omega arith)
whole-lead ext (b ∷ bytes) extra h = (
  ((pairs (low_bits 8 b) ++ frames (count_down (if ext then 30 else 11)) bytes) ++ tail_code)
      ++ extra,
  refl,
)

pub to_bits-lead :
    (p : Packet) {bits : Bits}
    → length p.bytes ≡ (if extended p then 32 else 13)
    → to_bits p false ≡ ok bits
    → (rest : Bits) × (bits ≡ lead ++ rest)
unfolding whole
to_bits-lead p {bits} h e =
    let (extra, cut) = byte_pad_cut (whole p) tail_code in
    let (rest, led) = whole-lead (extended p) p.bytes extra (ground (arith, h)) in
    (rest, ok_inj (sym e ∙ to_bits_lem p false h) ∙ cut ∙ led)

header_first : (rest : Bits) → find_first start_header (lead ++ rest) ≡ some 15
unfolding find_first starts_with cell_beq
header_first rest = refl

-- the inverted header does not stand as far in front
no_inverted :
    (n : ℕ) (rest : Bits)
    → n ≤ 15
    → starts_with (invert_bits start_header) (drop n (lead ++ rest)) ≡ false
unfolding starts_with cell_beq invert_bits invert_bit
no_inverted zero rest h = refl
no_inverted (suc zero) rest h = refl
no_inverted (suc (suc zero)) rest h = refl
no_inverted (suc (suc (suc zero))) rest h = refl
no_inverted (suc (suc (suc (suc zero)))) rest h = refl
no_inverted (suc (suc (suc (suc (suc zero))))) rest h = refl
no_inverted (suc (suc (suc (suc (suc (suc zero)))))) rest h = refl
no_inverted (suc (suc (suc (suc (suc (suc (suc zero))))))) rest h = refl
no_inverted (suc (suc (suc (suc (suc (suc (suc (suc zero)))))))) rest h = refl
no_inverted (suc (suc (suc (suc (suc (suc (suc (suc (suc zero))))))))) rest h = refl
no_inverted (suc (suc (suc (suc (suc (suc (suc (suc (suc (suc zero)))))))))) rest h = refl
no_inverted (suc (suc (suc (suc (suc (suc (suc (suc (suc (suc (suc zero))))))))))) rest h = refl
no_inverted (suc (suc (suc (suc (suc (suc (suc (suc (suc (suc (suc (suc zero)))))))))))) rest h =
    refl
no_inverted (suc (suc (suc (suc (suc (suc (suc (suc (suc (suc (suc (suc (suc zero))))))))))))) rest
      h =
    refl
no_inverted (suc (suc (suc (suc (suc (suc (suc (suc (suc (suc (suc (suc (suc (suc zero))))))))))))))
      rest h =
    refl
no_inverted
      (suc (suc (suc (suc (suc (suc (suc (suc (suc (suc (suc (suc (suc (suc (suc zero)))))))))))))))
      rest h =
    refl
no_inverted
      (suc
        (suc (suc (suc (suc (suc (suc (suc (suc (suc (suc (suc (suc (suc (suc (suc n))))))))))))))))
      rest h =
    absurd (omega arith)

flipped-not :
    (at : ℕ) (o : Option ℕ) → ((n : ℕ) → o ≡ some n → at < n) → flipped (some at) o ≡ false
flipped-not at none h = refl
flipped-not at (some n) h = ground (arith, h n refl)

flipped-so : (at : ℕ) (o : Option ℕ) → ((n : ℕ) → o ≡ some n → at < n) → flipped o (some at) ≡ true
flipped-so at none h = refl
flipped-so at (some n) h = ground (arith, h n refl)

inverted_later :
    (rest : Bits) (n : ℕ) → find_first (invert_bits start_header) (lead ++ rest) ≡ some n → 15 < n
inverted_later rest n h = elim (Bool-cases (ltb 15 n)) [
  | inl later ↦ ground (arith, later)
  | inr early ↦
      let stands = find_first-starts (invert_bits start_header) (lead ++ rest) n h in
      let absent = no_inverted n rest (ground (arith, early)) in absurd cc
]

-- what `find_headers` answers for a line, in both polarities, whose first header stands at `at`
abbrev pub found : ℕ → Bits → Bits × List ℕ
found at bits = (bits, header_loop (length bits + 1) bits (some at))

abbrev answer : Bool → Bits → Bits × List ℕ
answer turn bits =
    let line = if turn then invert_bits bits else bits in
    (line, header_loop (length line + 1) line (find_first start_header line))

find_headers_lem :
    (bits : Bits)
    → find_headers bits
      ≡ answer
          (flipped (find_first start_header bits) (find_first (invert_bits start_header) bits))
          bits
unfolding find_headers
find_headers_lem bits = refl

found_lem :
    (at : ℕ) (bits : Bits)
    → find_first start_header bits ≡ some at
    → answer false bits ≡ found at bits
found_lem at bits h = ap (λ o. (bits, header_loop (length bits + 1) bits o)) h

pub find_headers-found :
    (at : ℕ) (bits : Bits)
    → find_first start_header bits ≡ some at
    → ((n : ℕ) → find_first (invert_bits start_header) bits ≡ some n → at < n)
    → (find_headers bits ≡ found at bits) × (find_headers (invert_bits bits) ≡ found at bits)
find_headers-found at bits h later =
    let down = find_first (invert_bits start_header) bits in
    let up' : find_first start_header (invert_bits bits) ≡ down =
      ap (λ p. find_first p (invert_bits bits)) (sym (invert_bits-invert_bits start_header))
      ∙ find_first-invert (invert_bits start_header) bits in
    let down' : find_first (invert_bits start_header) (invert_bits bits) ≡ some at =
      find_first-invert start_header bits ∙ h in
    (
      find_headers_lem bits
          ∙ ap (λ o. answer (flipped o down) bits) h
          ∙ ap (λ f. answer f bits) (flipped-not at down later)
          ∙ found_lem at bits h,
      find_headers_lem (invert_bits bits)
          ∙ ap
              (λ o.
                answer (flipped o (find_first (invert_bits start_header) (invert_bits bits)))
                  (invert_bits bits))
              up'
          ∙ ap (λ o. answer (flipped down o) (invert_bits bits)) down'
          ∙ ap (λ f. answer f (invert_bits bits)) (flipped-so at down later)
          ∙ ap (answer false) (invert_bits-invert_bits bits)
          ∙ found_lem at bits h,
    )

-- the headers that `find_headers` goes on to find behind the first
abbrev pub others : ℕ → Bits → List ℕ
others at bits =
    header_loop (length bits) bits (find_from start_header (at + length start_header) bits)

pub next_lem : (at : ℕ) (bits : Bits) → found at bits ≡ (bits, at ∷ others at bits)
unfolding header_loop
next_lem at bits =
    let one : length bits + 1 ≡ suc (length bits) = omega arith in
    ap (λ k. (bits, header_loop k bits (some at))) one

-- In the line of a packet that has the full length of its kind, and in the inverted line, the first
-- header is found at offset 15, and the line is turned to normal polarity.
pub find_headers-to_bits :
    (p : Packet) {bits : Bits}
    → length p.bytes ≡ (if extended p then 32 else 13)
    → to_bits p false ≡ ok bits
    → (find_headers bits ≡ (bits, 15 ∷ others 15 bits))
      × (find_headers (invert_bits bits) ≡ (bits, 15 ∷ others 15 bits))
unfolding header_loop
find_headers-to_bits p {bits} h e =
    let (rest, led) = to_bits-lead p h e in
    let next = next_lem 15 bits in
    let both =
      find_headers-found 15 bits (ap (find_first start_header) led ∙ header_first rest)
        (λ n q. inverted_later rest n (ap (find_first (invert_bits start_header)) (sym led) ∙ q)) in
    (both.0 ∙ next, both.1 ∙ next)

cons_long :
    (q : Packet) (rest : List Packet) (min_bytes : ℕ) (bytes : List ℕ)
    → length q.bytes ≡ length bytes
    → min_bytes ≤ length bytes
    → (if ltb (length q.bytes) min_bytes then rest else q ∷ rest) ≡ q ∷ rest
cons_long q rest min_bytes h m = ground (arith, h, m)

-- Parsing the line of a packet of bytes that has the full length of its kind, in either polarity,
-- gives first a complete packet with the same bytes whose counters are right, and in both the same.
pub parse_bits-to_bits :
    (p : Packet) (timestamp : Option ℕ) (min_bytes : ℕ) {bits : Bits}
    → All IsByte p.bytes
    → length p.bytes ≡ (if extended p then 32 else 13)
    → min_bytes ≤ length p.bytes
    → to_bits p false ≡ ok bits
    → (q : Packet) × (more : List Packet) × (parse_bits bits timestamp min_bytes ≡ q ∷ more)
      × (parse_bits (invert_bits bits) timestamp min_bytes ≡ q ∷ more)
      × (q.bytes ≡ p.bytes)
      × (q.complete ≡ true)
      × (q.index_ok ≡ some true)
      × (q.timestamp ≡ timestamp)
unfolding parse_bits parse_at packet_at
parse_bits-to_bits p timestamp min_bytes {bits} o h m e =
    let (plain, turned) = find_headers-to_bits p h e in
    let q = packet_at bits 15 timestamp in
    let (same, whole, counted) = packet_at-to_bits p timestamp o h e in
    let read : parse_at bits (15 ∷ others 15 bits) timestamp min_bytes
        ≡ q ∷ parse_at bits (others 15 bits) timestamp min_bytes =
      cons_long q (parse_at bits (others 15 bits) timestamp min_bytes) min_bytes p.bytes
        (ap length same) m in
    (
      q,
      parse_at bits (others 15 bits) timestamp min_bytes,
      ap (λ f. parse_at f.0 f.1 timestamp min_bytes) plain ∙ read,
      ap (λ f. parse_at f.0 f.1 timestamp min_bytes) turned ∙ read,
      same,
      whole,
      counted,
      refl,
    )
