-- ===== src/Cli/Decode/Found.antt =====
-- cli.py, `_decode`: which packets it returns.
use insteonrf.Common.{
  ◌↔◌, list_beq_refl, arith, ℕ, Bool, true, false, not, ◌&&◌, ◌||◌, Option, List, [], ◌∷◌, ◌++◌,
  map, list_beq, ◌≡◌, refl, ap, sym, ◌∙◌, Bool-cases, inl, inr, ◌⊎◌,
}
use insteonrf.Manchester.{Bits}
use insteonrf.Packet.Fields.{Packet, calc_crc, is_false}
use insteonrf.Packet.Build.{is_some}
use insteonrf.Packet.Frames.{parse_bits}
use insteonrf.Recover.At.{mem_bytes, recover_packets}
use insteonrf.Cli.Decode.{keep, key, packets_of, is_luck, add_parsed, decode_limits, decode}

abbrev pub Among : Packet → List Packet → Type 0
Among p [] = ⊥
Among p (q ∷ packets) = (p ≡ q) ⊎ Among p packets

-- each packet has a key that no packet before it has, nor is among the keys given
abbrev pub AllNew : List (List ℕ) → List Packet → Type 0
AllNew seen [] = Unit {0}
AllNew seen (p ∷ packets) = (mem_bytes (key p) seen ≡ false) × AllNew (key p ∷ seen) packets

-- a packet that is shown: all are, or one with all bytes under its CRC and no wrong counters
unfoldable pub is_shown : Bool → Packet → Bool
is_shown show_all p = show_all || (is_some (calc_crc p) && not (is_false p.index_ok))

new_parsed :
    (show_all : Bool) (found : List Packet) (seen : List (List ℕ))
    → AllNew seen (add_parsed show_all found seen)
unfolding add_parsed
new_parsed show_all [] seen = tt
new_parsed show_all (p ∷ found) seen = elim (Bool-cases (is_luck show_all p)) [
  | inl luck ↦ rw luck (new_parsed show_all found seen)
  | inr sound ↦ elim (Bool-cases (mem_bytes (key p) seen)) [
    | inl old ↦ rw (sound, old) (new_parsed show_all found seen)
    | inr new ↦ rw (sound, new) (new, new_parsed show_all found (key p ∷ seen))
  ]
]

parsed_from :
    (show_all : Bool) (p : Packet) (found : List Packet) (seen : List (List ℕ))
    → Among p (add_parsed show_all found seen)
    → Among p found × (is_luck show_all p ≡ false)
unfolding add_parsed
parsed_from show_all p [] seen = λ h. absurd h
parsed_from show_all p (q ∷ found) seen =
    let skip : Among p (add_parsed show_all found seen)
        → Among p (q ∷ found) × (is_luck show_all p ≡ false) =
      λ h. let r = parsed_from show_all p found seen h in (inr r.0, r.1) in
    elim (Bool-cases (is_luck show_all q)) [
      | inl luck ↦ rw luck skip
      | inr sound ↦ elim (Bool-cases (mem_bytes (key q) seen)) [
        | inl old ↦ rw (sound, old) skip
        | inr new ↦
            rw (sound, new)
              (λ h. elim h [
                | inl same ↦ (inl same, ap (is_luck show_all) same ∙ sound)
                | inr later ↦
                    let r = parsed_from show_all p found (key q ∷ seen) later in (inr r.0, r.1)
              ])
      ]
    ]

-- the key of a packet is among those given, or among those of some packets
Covered : Packet → List (List ℕ) → List Packet → Type 0
Covered p seen packets =
    (mem_bytes (key p) seen ≡ true) ⊎ (mem_bytes (key p) (map key packets) ≡ true)

Covered-cons :
    (p q : Packet) (seen : List (List ℕ)) (packets : List Packet)
    → Covered p (key q ∷ seen) packets
    → Covered p seen (q ∷ packets)
unfolding Covered
Covered-cons p q seen packets c = elim (Bool-cases (list_beq (key q) (key p))) [
  | inl same ↦ inr (rw same refl)
  | inr other ↦ elim c [
    | inl old ↦ inl (sym (rw other refl) ∙ old)
    | inr later ↦ inr (rw other later)
  ]
]

parsed-Covered :
    (show_all : Bool) (p : Packet) (found : List Packet) (seen : List (List ℕ))
    → Among p found
    → is_luck show_all p ≡ false
    → Covered p seen (add_parsed show_all found seen)
unfolding add_parsed Covered
parsed-Covered show_all p [] seen h sound_p = absurd h
parsed-Covered show_all p (q ∷ found) seen h sound_p = elim (Bool-cases (is_luck show_all q)) [
  | inl luck ↦ rw luck (elim h [
    | inl same ↦ absurd (differ (sym sound_p ∙ ap (is_luck show_all) same ∙ luck))
    | inr later ↦ parsed-Covered show_all p found seen later sound_p
  ])
  | inr sound ↦ elim (Bool-cases (mem_bytes (key q) seen)) [
    | inl old ↦
        rw (sound, old)
          (elim h [
            | inl same ↦ inl (ap (λ t. mem_bytes (key t) seen) same ∙ old)
            | inr later ↦ parsed-Covered show_all p found seen later sound_p
          ])
    | inr new ↦
        rw (sound, new)
          (elim h [
            | inl same ↦ inr (
                ap
                  (λ t.
                    mem_bytes (key t) (key q ∷ map key (add_parsed show_all found (key q ∷ seen))))
                  same
                ∙ rw (list_beq_refl (key q)) refl)
            | inr later ↦
                Covered-cons p q seen (add_parsed show_all found (key q ∷ seen))
                  (parsed-Covered show_all p found (key q ∷ seen) later sound_p)
          ])
  ]
]
  where
    differ : false ≡ true → ⊥
    differ e = absurd cc

kept_from :
    (show_all : Bool) (p : Packet) (packets : List Packet)
    → Among p (keep packets show_all)
    → Among p packets × ((show_all || is_some (calc_crc p)) ≡ true)
unfolding keep
kept_from true p packets = λ h. (h, refl)
kept_from false p [] = λ h. absurd h
kept_from false p (q ∷ packets) = elim (Bool-cases (is_some (calc_crc q))) [
  | inl whole ↦ rw whole (λ h. elim h [
    | inl same ↦ (inl same, ap (λ t. is_some (calc_crc t)) same ∙ whole)
    | inr later ↦ let r = kept_from false p packets later in (inr r.0, r.1)
  ])
  | inr short ↦ rw short (λ h. let r = kept_from false p packets h in (inr r.0, r.1))
]

keep-Among :
    (show_all : Bool) (p : Packet) (packets : List Packet)
    → Among p packets
    → (show_all || is_some (calc_crc p)) ≡ true
    → Among p (keep packets show_all)
unfolding keep
keep-Among true p packets h whole = h
keep-Among false p [] h whole = absurd h
keep-Among false p (q ∷ packets) (inl same) whole =
    rw (sym (ap (λ t. is_some (calc_crc t)) same) ∙ whole) (inl same)
keep-Among false p (q ∷ packets) (inr later) whole =
    let rest = keep-Among false p packets later whole in
    elim (Bool-cases (is_some (calc_crc q))) [
      | inl has ↦ rw has (inr rest)
      | inr short ↦ rw short rest
    ]

shown_lem :
    (show_all : Bool) (p : Packet)
    → (is_shown show_all p ≡ true)
      ↔ (((show_all || is_some (calc_crc p)) ≡ true) × (is_luck show_all p ≡ false))
unfolding is_shown
shown_lem true p = (λ h. (refl, ground arith), λ h. refl)
shown_lem false p = (λ h. ground arith, λ h. ground arith)

mem_bytes-append :
    (k : List ℕ) (xs ys : List (List ℕ))
    → mem_bytes k (xs ++ ys) ≡ (mem_bytes k xs || mem_bytes k ys)
mem_bytes-append k [] ys = refl
mem_bytes-append k (x ∷ xs) ys = elim (Bool-cases (list_beq x k)) [
  | inl same ↦ rw same refl
  | inr other ↦ rw other (mem_bytes-append k xs ys)
]

map_key-append : (xs ys : List Packet) → map key (xs ++ ys) ≡ map key xs ++ map key ys
map_key-append [] ys = refl
map_key-append (x ∷ xs) ys = ap (λ t. key x ∷ t) (map_key-append xs ys)

Covered-append :
    (p : Packet) (recs rest : List Packet)
    → Covered p (map key recs) rest
    → mem_bytes (key p) (map key (recs ++ rest)) ≡ true
unfolding Covered
Covered-append p recs rest c =
    ap (mem_bytes (key p)) (map_key-append recs rest)
    ∙ mem_bytes-append (key p) (map key recs) (map key rest)
    ∙ elim c [
      | inl old ↦ ap (λ b. b || mem_bytes (key p) (map key rest)) old
      | inr new ↦ ground arith
    ]

-- With repair, `_decode` returns the recovered packets and after them some that the parser found:
-- just such as are shown, no two of them with one key, nor with the key of a recovered packet. Each
-- packet that the parser found and that is shown has its key among those of the packets returned.
pub decode-found :
    (bits : Bits) (ts : Option ℕ) (show_all : Bool) (header : Option ℕ)
    → let recs = packets_of (recover_packets decode_limits bits ts header) in
      let found = parse_bits bits ts 4 in
      let out = decode bits ts true show_all header in
      ((rest : List Packet) × (out ≡ recs ++ rest)
        × AllNew (map key recs) rest
        × ((p : Packet) → Among p rest → Among p found × (is_shown show_all p ≡ true)))
      × ((p : Packet)
          → Among p found
          → is_shown show_all p ≡ true
          → mem_bytes (key p) (map key out) ≡ true)
unfolding decode
decode-found bits ts show_all header =
    let recs = packets_of (recover_packets decode_limits bits ts header) in
    let found = parse_bits bits ts 4 in
    let kept = keep found show_all in
    (
      (
        add_parsed show_all kept (map key recs),
        refl,
        new_parsed show_all kept (map key recs),
        λ p h.
            let r = parsed_from show_all p kept (map key recs) h in
            let k = kept_from show_all p found r.0 in (k.0, (shown_lem show_all p).1 (k.1, r.1)),
      ),
      λ p h shown.
          let s = (shown_lem show_all p).0 shown in
          Covered-append p recs (add_parsed show_all kept (map key recs))
            (parsed-Covered show_all p kept (map key recs) (keep-Among show_all p found h s.0) s.1),
    )
