-- ===== src/Monitor/Tests.antt =====
-- The records of a packet that is heard twice and of another one.
use insteonrf.Common.{◌≡◌, [], ◌∷◌}
use insteonrf.Packet.Samples.{on_packet, status_packet}
use insteonrf.Monitor.{records, dedupe_window}
use insteonrf.Monitor.Counts.{repeats_of, records_total}

records_total_example :
    repeats_of
      (records dedupe_window ((on_packet, 0) ∷ (on_packet, 50_000) ∷ (status_packet, 400_000) ∷ []))
    ≡ 3
records_total_example =
    records_total dedupe_window
      ((on_packet, 0) ∷ (on_packet, 50_000) ∷ (status_packet, 400_000) ∷ [])
