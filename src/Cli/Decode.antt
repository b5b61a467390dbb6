-- ===== src/Cli/Decode.antt =====
-- insteonrf/cli.py, `_decode` and what it uses, for hard bits (`soft` is None), and
-- `_silence_action`. A sequence of packets is what the parser or the recovery found, in order.
pub mod Found
use insteonrf.Common.{
  ℕ, zero, suc, ◌+◌, ◌-◌, ◌*◌, ◌/◌, ◌%◌, ◌^◌, ◌==◌, ltb, leb, bit_and, bit_or, Bool, true, false,
  not, ◌&&◌, ◌||◌, if◌then◌else◌, Option, none, some, List, [], ◌∷◌, ◌++◌, length, take, drop, map,
  list_beq, Result, ok, raise, value_error,
}
use insteonrf.Manchester.{Bits}
use insteonrf.Packet.Fields.{Packet, crc_index, calc_crc, is_false}
use insteonrf.Packet.Build.{is_some}
use insteonrf.Packet.Frames.{parse_bits}
use insteonrf.Recover.{Recovered}
use insteonrf.Recover.At.{Limits, mem_bytes, recover_packets}
use insteonrf.Context.{CommandTracker, observe_all}

-- `_keep`
unfoldable pub keep : List Packet → Bool → List Packet
keep packets true = packets
keep [] false = []
keep (q ∷ packets) false =
    let rest = keep packets false in if is_some (calc_crc q) then q ∷ rest else rest

-- `key`
unfoldable pub key : Packet → List ℕ
key p = take (crc_index p + 1) p.bytes

-- the recovered packets, and the bytes of each
unfoldable pub packets_of : List Recovered → List Packet
packets_of [] = []
packets_of (r ∷ recs) = r.packet ∷ packets_of recs

-- `pkt.index_ok is False and not show_all`
abbrev pub is_luck : Bool → Packet → Bool
is_luck show_all p = is_false p.index_ok && not show_all

-- the loop over what the parser found
unfoldable pub add_parsed : Bool → List Packet → List (List ℕ) → List Packet
add_parsed show_all [] seen = []
add_parsed show_all (p ∷ found) seen =
    let skipped = add_parsed show_all found seen in
    let added = add_parsed show_all found (key p ∷ seen) in
    if is_luck show_all p then skipped else if mem_bytes (key p) seen then skipped else p ∷ added

-- the limits with which `recover_packets` is called, its defaults
abbrev pub decode_limits : Limits
decode_limits = record { max_flips = 2; candidates = 10; max_index_errors = 1; allow_repair = true }

-- what `_decode` returns
unfoldable pub decode : Bits → Option ℕ → Bool → Bool → Option ℕ → List Packet
decode bits ts repair show_all header =
    let found = keep (parse_bits bits ts 4) show_all in
    if repair
    then (let recs = packets_of (recover_packets decode_limits bits ts header) in
        recs ++ add_parsed show_all found (map key recs))
    else found

-- each packet with the clock at its turn
unfoldable pub at_turns : (ℕ → ℕ) → ℕ → List Packet → List (Packet × ℕ)
at_turns clock n [] = []
at_turns clock n (p ∷ packets) = (p, clock n) ∷ at_turns clock (n + 1) packets

-- the loop over the tracker, if there is one
abbrev pub tracked :
    Option CommandTracker → (ℕ → ℕ) → List Packet → Option CommandTracker × List Packet
tracked none clock packets = (none, packets)
tracked (some t) clock packets =
    let noted = observe_all (at_turns clock 0 packets) t in (some noted.0, noted.1)

-- `_decode`, with its tracker, which is not reached without repair
unfoldable pub decode_tracked :
    Bits
    → Option ℕ
    → Bool
    → Bool
    → Option ℕ
    → Option CommandTracker
    → (ℕ → ℕ)
    → Option CommandTracker × List Packet
decode_tracked bits ts repair show_all header tracker clock =
    let packets = decode bits ts repair show_all header in
    if repair then tracked tracker clock packets else (tracker, packets)

-- what `_silence_action` answers
pub data Action : Type 0 where
  nothing rearm : Action

-- `_silence_action`, times in microseconds; a threshold of 0 stands for none, as a negative one does
unfoldable pub silence_action : ℕ → ℕ → Action
silence_action quiet max_silence =
    if max_silence == 0 then nothing else if ltb max_silence quiet then rearm else nothing
