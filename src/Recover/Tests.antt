-- ===== src/Recover/Tests.antt =====
-- A packet's bits with one wrong symbol, which the search finds.
use insteonrf.Common.{false, true, none, some, [], ok, raise}
use insteonrf.Manchester.{Bits}
use insteonrf.Packet.Samples.{on_packet}
use insteonrf.Packet.Frames.{to_bits}
use insteonrf.Packet.Fields.{of_data}
use insteonrf.Fusion.Combine.{flip_at}
use insteonrf.Recover.At.{Limits, recover_at}
use insteonrf.Recover.{Recovered}

abbrev limits : Limits
limits = record { max_flips = 2; candidates = 10; max_index_errors = 1; allow_repair = true }

-- one symbol of a pair in the fifth frame is wrong
abbrev damaged : Bits
damaged = flip_at 148 (elim (to_bits on_packet false) [ ok bits ↦ bits | raise e ↦ [] ])

abbrev answer : Recovered
answer = elim (recover_at limits damaged 15 none) [
  | some r ↦ r
  | none ↦ record { packet = of_data []; corrected = 0; index_errors = 0; manchester_errors = 0 }
]
