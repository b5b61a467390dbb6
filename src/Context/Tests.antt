-- ===== src/Context/Tests.antt =====
-- The properties of the tracker at a query, another query and a reply.
use insteonrf.Common.{
  ℕ, ◌+◌, ◌≤◌, ◌≡◌, ◌≢◌, some, [], ◌∷◌, false, list_eq, arith, refl, All, ok, none,
}
use insteonrf.Common.Dict.{put, get-put_self, IsDict, get}
use insteonrf.Packet.Samples.{on_packet, status_packet, ack_packet, hub, lamp}
use insteonrf.Packet.Fields.{Packet, extended, ack, cmd1, from_addr, to_addr, bcast}
use insteonrf.Cmds.{lookup, find, find_in}
use insteonrf.Cmds.Names.{cmd_name, reply_tables, named, cmd_name-reply}
use insteonrf.Context.{
  CommandTracker, tracker, default_window, query_key, arrival, observe, observe_all,
}
use insteonrf.Context.Replies.{IsQuery, IsReply, asked, reply-resolved}

on_packet-IsQuery : IsQuery on_packet hub lamp 17
unfolding ack cmd1 from_addr to_addr insteonrf.Packet.Address.from_wire
on_packet-IsQuery = record { kind = refl; command = refl; from = refl; to = refl }

ack_packet-IsReply : IsReply ack_packet hub lamp 17
unfolding ack cmd1 from_addr to_addr insteonrf.Packet.Address.from_wire
ack_packet-IsReply = record { kind = refl; command = refl; from = refl; to = refl }

status_asked : asked status_packet ≡ some (query_key hub lamp 25)
unfolding ack cmd1 from_addr to_addr insteonrf.Packet.Address.from_wire
status_asked = refl

between_others :
    All
      (λ (x : Packet × ℕ).
        (arrival x.0 x.1 ≤ arrival on_packet 1_000 + 5_000_000)
        × (asked x.0 ≢ some (query_key hub lamp 17)))
      ((status_packet, 2_000) ∷ [])
between_others = ((omega arith, λ same. ground (arith, status_asked, same)), tt)

reply-resolved_example :
    (observe
      (observe_all
        ((status_packet, 2_000) ∷ [])
        (observe (tracker default_window) on_packet 1_000).0).0
      ack_packet
      3_000).1.ack_of_extended
    ≡ some (extended on_packet)
reply-resolved_example =
    reply-resolved (tracker default_window) on_packet ack_packet 1_000 3_000
      ((status_packet, 2_000) ∷ []) hub lamp 17 on_packet-IsQuery ack_packet-IsReply between_others
      (omega arith)

abbrev waiting : CommandTracker
waiting = record (tracker default_window) { queries = (query_key hub lamp 17, (1_000, false)) ∷ [] }

waiting-IsDict : IsDict waiting.queries
unfolding IsDict get
waiting-IsDict = (refl, tt)

waiting_entry : get (query_key hub lamp 17) waiting.queries ≡ some (1_000, false)
unfolding put
waiting_entry = get-put_self (query_key hub lamp 17) (1_000, false) []

cmd_name-reply_example :
    (cmd_name
        (observe
          (observe_all
            ((status_packet, 2_000) ∷ [])
            (observe (tracker default_window) on_packet 1_000).0).0
          ack_packet
          3_000).1
      ≡ ok (some (named (lookup 17 none (extended on_packet) (bcast ack_packet) false))))
    × (find 17 (extended on_packet) (bcast ack_packet)
        ≡ find_in (reply_tables (extended on_packet) (bcast ack_packet)) 17)
cmd_name-reply_example =
    cmd_name-reply (tracker default_window) on_packet ack_packet 1_000 3_000
      ((status_packet, 2_000) ∷ []) hub lamp 17 on_packet-IsQuery ack_packet-IsReply between_others
      (omega arith)
