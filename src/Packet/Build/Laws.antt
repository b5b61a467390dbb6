-- ===== src/Packet/Build/Laws.antt =====
-- packet.py, `Packet.build`: its errors, and the length and checksums of its result.
use insteonrf.Common.{
  ℕ, ◌+◌, ◌-◌, ◌≤◌, ◌<◌, bit_and, ◌≡◌, refl, sym, ap, ◌∙◌, ◌↔◌, ◌⊎◌, inl, inr, Bool, true, false,
  none, some, List, [], ◌∷◌, ◌++◌, arith, if◌then◌else◌, ==_self, Bool-cases, length, replicate,
  length-append, length-replicate, ok, raise, value_error, list_eq,
}
use mathlib.Core.List.{append_assoc}
use insteonrf.Packet.Address.{wire}
use insteonrf.Packet.Crc.{crc_index_of, ext_crc, pkt_crc}
use insteonrf.Packet.Fields.{crc_ok, ext_crc_ok, valid, extended}
use insteonrf.Packet.Fields.Laws.{crc_ok-cut, first-cut, ext_crc_ok-cut, ext_crc_ok-standard}
use insteonrf.Packet.Build.{
  add_crc, add_pad, ext_crc, crc_index_of, build_data, of_data, Packet, first, build_head, add_ext,
  slots, flag_ext, pad_bytes, has_flag, build, Fields, build_flags, is_some, is_extended,
}
use insteonrf.Packet.Build.Sums.{build_flags_ext}

-- What `build` checked, when it returned a packet.
pub build_inv :
    (f : Fields) {p : Packet}
    → build f ≡ ok p
    → (p ≡ of_data (build_data f)) × (length (slots f) ≡ 6) × (length f.ext_data ≤ 13)
unfolding build slots wire
build_inv f h = ground arith

length-pad_bytes :
    (n : ℕ) (e : Bool)
    → n ≤ (if e then 32 else 13)
    → n + length (pad_bytes n e) ≡ (if e then 32 else 13)
unfolding pad_bytes
length-pad_bytes n true h = omega (arith, length-replicate {A = ℕ} (32 - n) 0xAA)
length-pad_bytes n false h = ground (
  arith,
  length-append {A = ℕ} (replicate (13 - n - 1) 0) (0xAA ∷ []),
  length-replicate {A = ℕ} (13 - n - 1) 0,
)

-- `is_extended` and what it puts in, for fields that `build` accepts.
module _ (f : Fields) (slotted : length (slots f) ≡ 6) (fits : length f.ext_data ≤ 13) where
  length-build_head : length (build_head f) ≡ 9
  unfolding build_head
  length-build_head =
      omega
        (arith, slotted, length-append (slots f) (bit_and f.cmd1 0xFF ∷ bit_and f.cmd2 0xFF ∷ []))

  -- the head with the extended data, before its checksum
  padded : List ℕ
  padded = build_head f ++ (f.ext_data ++ replicate (13 - length f.ext_data) 0)

  length-padded : length padded ≡ 22
  unfolding padded
  length-padded = omega (
    arith,
    length-build_head,
    fits,
    length-append (build_head f) (f.ext_data ++ replicate (13 - length f.ext_data) 0),
    length-append f.ext_data (replicate (13 - length f.ext_data) 0),
    length-replicate {A = ℕ} (13 - length f.ext_data) 0,
  )

  add_ext-padded :
      add_ext f (build_head f)
      ≡ (if is_extended f then padded ++ ext_crc padded ∷ [] else build_head f)
  unfolding add_ext padded
  add_ext-padded = refl

  length-add_ext : length (add_ext f (build_head f)) ≡ (if is_extended f then 23 else 9)
  length-add_ext = ground (
    arith,
    add_ext-padded,
    length-padded,
    length-build_head,
    length-append padded (ext_crc padded ∷ []),
  )

  first-add_ext : first (add_ext f (build_head f)) ≡ build_flags f
  unfolding add_ext build_head
  first-add_ext = ground arith

  crc_index-add_ext : crc_index_of (build_flags f) ≡ length (add_ext f (build_head f))
  crc_index-add_ext = ground (arith, build_flags_ext f, length-add_ext)

  -- the bytes of the packet, cut at its CRC
  pub tail : List ℕ
  tail = if f.pad then pad_bytes (length (add_ext f (build_head f)) + 1) (is_extended f) else []

  pub build_data-tail :
      f.crc ≡ none
      → build_data f ≡ add_ext f (build_head f) ++ pkt_crc (add_ext f (build_head f)) ∷ tail
  unfolding build_data add_crc add_pad tail
  build_data-tail plain = elim (Bool-cases f.pad) [
    | inl padding ↦ simp (plain, padding) (joined (add_ext f (build_head f)) _ _)
    | inr bare ↦ simp (plain, bare)
  ]
    where
      joined :
          (xs : List ℕ) (y : ℕ) (e : Bool)
          → (xs ++ y ∷ []) ++ pad_bytes (length (xs ++ y ∷ [])) e
            ≡ xs ++ y ∷ pad_bytes (length xs + 1) e
      joined xs y e =
          append_assoc xs (y ∷ []) _ ∙ ap (λ n. xs ++ y ∷ pad_bytes n e) (length-append xs (y ∷ []))

  -- `build` without its checks: the packet CRC and the data checksum are right.
  body_bytes : 0 < length (add_ext f (build_head f))
  body_bytes = ground (arith, length-add_ext)

  body_index : length (add_ext f (build_head f)) ≡ crc_index_of (first (add_ext f (build_head f)))
  body_index = sym (ap crc_index_of first-add_ext ∙ crc_index-add_ext)

  pub build_crc_ok : f.crc ≡ none → crc_ok (of_data (build_data f)) ≡ some true
  build_crc_ok plain =
      crc_ok-cut (of_data (build_data f)) (add_ext f (build_head f)) _ tail (build_data-tail plain)
        body_bytes body_index
      ∙ ap some (==_self _)

  pub first-build_data : f.crc ≡ none → first (build_data f) ≡ build_flags f
  first-build_data plain =
      first-cut (of_data (build_data f)) (add_ext f (build_head f)) _ tail (build_data-tail plain)
        body_bytes
      ∙ first-add_ext

  pub extended-build_data : f.crc ≡ none → extended (of_data (build_data f)) ≡ is_extended f
  unfolding extended
  extended-build_data plain =
      ap (λ (t : ℕ). has_flag t flag_ext) (first-build_data plain) ∙ build_flags_ext f

  build_ext_crc_ok :
      f.crc ≡ none
      → ext_crc_ok (of_data (build_data f)) ≡ (if is_extended f then some true else none)
  build_ext_crc_ok plain = elim (Bool-cases (is_extended f)) [
    | inl ext ↦ rw ext (
        ext_crc_ok-cut (of_data (build_data f)) padded (ext_crc padded) _ (cut ext) length-padded
          (extended-build_data plain ∙ ext)
        ∙ ap some (==_self _))
    | inr std ↦
        rw std (ext_crc_ok-standard (of_data (build_data f)) (extended-build_data plain ∙ std))
  ]
    where
      cut :
          is_extended f ≡ true
          → build_data f ≡ padded ++ ext_crc padded ∷ (pkt_crc (add_ext f (build_head f)) ∷ tail)
      cut ext =
          build_data-tail plain
          ∙ ap (λ xs. xs ++ pkt_crc (add_ext f (build_head f)) ∷ tail)
              (add_ext-padded ∙ rw ext refl)
          ∙ append_assoc padded (ext_crc padded ∷ []) _

-- A packet that `build` returns with its own CRC is valid: the packet CRC passes, and so does the
-- data checksum when the packet is extended.
pub build-valid :
    (f : Fields) {p : Packet}
    → build f ≡ ok p
    → f.crc ≡ none
    → (crc_ok p ≡ some true)
      × (ext_crc_ok p ≡ (if is_extended f then some true else none))
      × (valid p ≡ true)
unfolding valid
build-valid f {p} h plain =
    let (e, slotted, fits) = build_inv f h in
    rw e (
      let a = build_crc_ok f slotted fits plain in
      let b = build_ext_crc_ok f slotted fits plain in (a, b, ground arith))

-- `build` raises for no other reason than its two checks: it wants a destination or a group, not
-- both, and at most 13 bytes of extended data.
pub build_raises :
    (f : Fields)
    → (build f ≡ raise value_error) ↔ ((is_some f.dst ≡ is_some f.group) ⊎ (13 < length f.ext_data))
unfolding build
build_raises f = (λ h. ground arith, λ h. ground arith)

-- The length of a packet built with its own CRC: 13 or 32 bytes with its pad, 10 or 24 without.
pub length-build :
    (f : Fields) {p : Packet}
    → build f ≡ ok p
    → f.crc ≡ none
    → length p.bytes
      ≡ (if f.pad then (if is_extended f then 32 else 13) else (if is_extended f then 24 else 10))
unfolding tail
length-build f {p} h plain =
    let (e, slotted, fits) = build_inv f h in
    let body = add_ext f (build_head f) in
    ap (λ (q : Packet). length q.bytes) e
    ∙ ap length (build_data-tail f slotted fits plain)
    ∙ ground (
      arith,
      length-append body (pkt_crc body ∷ tail f slotted fits),
      length-add_ext f slotted fits,
      length-pad_bytes 24 true,
      length-pad_bytes 10 false,
    )
