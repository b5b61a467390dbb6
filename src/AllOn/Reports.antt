-- ===== src/AllOn/Reports.antt =====
-- allon.py: `copies_of`, `ranked_suspects` and `scan`.
use insteonrf.Common.{
  ℕ, zero, suc, ◌+◌, ◌==◌, leb, if◌then◌else◌, none, some, List, [], ◌∷◌, take, list_beq, Result,
  ok, raise, index_error, ◌>>=◌,
}
use insteonrf.Common.Dict.{Dict}
use insteonrf.Packet.Fields.{Packet, crc_index}
use insteonrf.Plm.{mask_hops}
use insteonrf.AllOn.{Watcher, Seen, Suspect, score}
use insteonrf.AllOn.Watch.{observe}

-- `data[i] = 0`, if there is one
abbrev pub set_zero : ℕ → List ℕ → List ℕ
set_zero i [] = []
set_zero zero (b ∷ bytes) = 0 ∷ bytes
set_zero (suc i) (b ∷ bytes) = b ∷ set_zero i bytes

-- the `key` of `copies_of`: the bytes up to the CRC, without hops-left and the CRC itself
abbrev pub masked_key : ℕ → List ℕ → Result (List ℕ)
masked_key i [] = raise index_error
masked_key i (b ∷ bytes) = ok (set_zero i (mask_hops b ∷ bytes))

unfoldable pub copy_key : Packet → Result (List ℕ)
copy_key p = masked_key (crc_index p) (take (crc_index p + 1) p.bytes)

unfoldable pub copies_in : List ℕ → List Seen → Result (List Seen)
copies_in want [] = ok []
copies_in want (h ∷ hs) =
    let rest = copies_in want hs in
    elim h.packet [
      | none ↦ rest
      | some q ↦ copy_key q >>= λ key.
          rest >>= λ found. ok (if list_beq key want then h ∷ found else found)
    ]

unfoldable pub copies_of : Watcher → Packet → Result (List Seen)
copies_of w p = copy_key p >>= λ want. copies_in want w.history

-- insertion of a suspect by falling score, before its equals, which come later
unfoldable pub insert_suspect :
    (List ℕ × Suspect) → List (List ℕ × Suspect) → List (List ℕ × Suspect)
insert_suspect s [] = s ∷ []
insert_suspect s (r ∷ rs) =
    if leb (score r.1) (score s.1) then s ∷ r ∷ rs else r ∷ insert_suspect s rs

-- `ranked_suspects`
unfoldable pub ranked_suspects : Dict (List ℕ) Suspect → List (List ℕ × Suspect)
ranked_suspects [] = []
ranked_suspects (s ∷ d) =
    let rest = ranked_suspects d in if score s.1 == 0 then rest else insert_suspect s rest

-- `scan`, each packet with the clock at its turn, up to the first exception
unfoldable pub scan : Watcher → List (Packet × ℕ) → Result Watcher
scan w [] = ok w
scan w ((p, clock) ∷ packets) =
    let step = observe w (some p) none clock in
    let rest = scan step.0 packets in step.1 >>= λ found. rest
