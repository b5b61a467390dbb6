-- ===== src/Cmds/Names.antt =====
-- packet.py, `Packet.cmd_name`: the name of a packet's command, from the tables of cmds.py and the
-- mark that context.py leaves on a reply.
use Prim.Native.String.{String}
use insteonrf.Common.{
  length, get_elem?, bool_beq, ◌&&◌, ℕ, ◌+◌, ◌<◌, ◌≤◌, ◌≡◌, ◌≢◌, ◌↔◌, List, Option, none, some,
  Bool, true, false, if◌then◌else◌, Result, ok, raise, ◌>>=◌, ◌∷◌, [], arith, refl, inl, inr,
  Bool-cases, Option-cases, All, ◌==◌, ◌||◌, ltb, nat_eq, list_eq, ◌∙◌, ap,
}
use insteonrf.Common.Dict.{get}
use insteonrf.Common.Bits.{all_below, all_below_sound}
use insteonrf.Packet.Crc.{has_flag, first, flag_ack, flag_bcast}
use insteonrf.Packet.Address.{Address}
use insteonrf.Packet.Fields.{Packet, extended, ack, bcast, cmd1, cmd2}
use insteonrf.Cmds.Tables.{std_cmds, ext_cmds, bcast_std_cmds, bcast_ext_cmds}
use insteonrf.Cmds.{Name, Table, find, find_in, lookup, ambiguous, both_labels}
use insteonrf.Context.{annotate_reply, CommandTracker, query_key, arrival, observe, observe_all}
use insteonrf.Context.Replies.{IsQuery, IsReply, asked, reply-resolved}

-- a name, or both labels of an ambiguous command
pub data CmdName : Type 0 where
  named : Name → CmdName
  both : String × String → CmdName

abbrev pub joined : Result (String × String) → Result CmdName
joined (raise e) = raise e
joined (ok labels) = ok (both labels)

-- past the test that there is a command
unfoldable pub name_of : Packet → ℕ → Result CmdName
name_of p c = elim p.ack_of_extended [
  | some b ↦ ok (named (lookup c (cmd2 p) (if ack p then b else extended p) (bcast p) (ack p)))
  | none ↦
      if ack p && ambiguous c
      then joined (both_labels c)
      else ok (named (lookup c (cmd2 p) (extended p) (bcast p) (ack p)))
]

unfoldable pub cmd_name : Packet → Result (Option CmdName)
cmd_name p = elim (cmd1 p) [ none ↦ ok none | some c ↦ name_of p c >>= λ n. ok (some n) ]

-- In an ACK the second byte never takes part in the name: it is the device's answer.
pub lookup_ack :
    (c : ℕ) (second : Option ℕ) (ext cast : Bool)
    → lookup c second ext cast true ≡ lookup c none ext cast false
unfolding lookup
lookup_ack c second ext cast = ground arith

both_labels_total :
    (c : ℕ) → ambiguous c ≡ true → (labels : String × String) × (both_labels c ≡ ok labels)
unfolding ambiguous both_labels
both_labels_total c h = elim (Option-cases (get c std_cmds)) [
  | inl e ↦ absurd (ground (arith, h, e))
  | inr s ↦ elim (Option-cases (get c ext_cmds)) [
    | inl e ↦ absurd (ground (arith, h, s.1, e))
    | inr e ↦ ((s.0.label, e.0.label), ground (arith, s.1, e.1))
  ]
]

name_of-both :
    (p : Packet) (c : ℕ) (labels : String × String)
    → p.ack_of_extended ≡ none
    → (ack p && ambiguous c) ≡ true
    → both_labels c ≡ ok labels
    → name_of p c ≡ ok (both labels)
unfolding name_of
name_of-both p c labels e a h = ground (arith, e, a, h)

name_of_total : (p : Packet) (c : ℕ) → (n : CmdName) × (name_of p c ≡ ok n)
unfolding name_of
name_of_total p c = elim (Option-cases p.ack_of_extended) [
  | inr e ↦ (
    named (lookup c (cmd2 p) (if ack p then e.0 else extended p) (bcast p) (ack p)),
    ground (arith, e.1),
  )
  | inl e ↦ elim (Bool-cases (ack p && ambiguous c)) [
    | inr a ↦ (named (lookup c (cmd2 p) (extended p) (bcast p) (ack p)), ground (arith, e, a))
    | inl a ↦
        let t = both_labels_total c (ground (arith, a)) in (both t.0, name_of-both p c t.0 e a t.1)
  ]
]

-- Naming a packet's command never raises, not even where it asks for both labels of a command.
pub cmd_name_total : (p : Packet) → (name : Option CmdName) × (cmd_name p ≡ ok name)
unfolding cmd_name
cmd_name_total p = elim (Option-cases (cmd1 p)) [
  | inl e ↦ (none, ground (arith, e))
  | inr e ↦ let t = name_of_total p e.0 in (some t.0, ground (arith, e.1, t.1))
]

-- The commands whose two labels differ are exactly these six, of all that fit in a byte.
pub ambiguous_iff :
    (c : ℕ)
    → c < 256
    → (ambiguous c ≡ true)
      ↔ ((c == 0x03 || c == 0x2E || c == 0x2F || c == 0x30 || c == 0x4B || c == 0x4C) ≡ true)
unfolding ambiguous get all_below
ambiguous_iff c h =
    let same =
      all_below_sound 256
        (λ n.
          bool_beq (ambiguous n)
            (n == 0x03 || n == 0x2E || n == 0x2F || n == 0x30 || n == 0x4B || n == 0x4C))
        c refl h in
    (λ e. ground (arith, same, e), λ e. ground (arith, same, e))

name_of_marked :
    (p : Packet) (c : ℕ) (b : Bool)
    → ack p ≡ true
    → p.ack_of_extended ≡ some b
    → name_of p c ≡ ok (named (lookup c none b (bcast p) false))
unfolding name_of
name_of_marked p c b h e = ground (arith, h, e, lookup_ack c (cmd2 p) b (bcast p))

observe-bytes :
    (t : CommandTracker) (r : Packet) (clock : ℕ) → (observe t r clock).1.bytes ≡ r.bytes
unfolding observe annotate_reply
observe-bytes t r clock = ground arith

same_reading :
    (p q : Packet) → p.bytes ≡ q.bytes → (ack p ≡ ack q) × (cmd1 p ≡ cmd1 q) × (bcast p ≡ bcast q)
unfolding ack cmd1 bcast
same_reading p q e = (
  ap (λ b. has_flag (first b) flag_ack) e,
  ap (λ b. if ltb 7 (length b) then get_elem? b 7 else none) e,
  ap (λ b. has_flag (first b) flag_bcast) e,
)

cmd_name_marked :
    (p q : Packet) (c : ℕ) (b : Bool)
    → p.bytes ≡ q.bytes
    → ack q ≡ true
    → cmd1 q ≡ some c
    → p.ack_of_extended ≡ some b
    → cmd_name p ≡ ok (some (named (lookup c none b (bcast q) false)))
unfolding cmd_name
cmd_name_marked p q c b same kind command mark =
    let r = same_reading p q same in
    ground (arith, r.0, r.1, r.2, kind, command, name_of_marked p c b (r.0 ∙ kind) mark)

-- the tables that name a reply to a standard or an extended query: for an ACK the table of that
-- kind, for a NAK, which has the broadcast bit, the broadcast table of that kind before it
abbrev pub reply_tables : Bool → Bool → List Table
reply_tables ext nak =
    let kind = if ext then ext_cmds else std_cmds in
    if nak
    then if ext then bcast_ext_cmds ∷ kind ∷ std_cmds ∷ [] else bcast_std_cmds ∷ kind ∷ []
    else kind ∷ []

find-reply_tables : (c : ℕ) (ext nak : Bool) → find c ext nak ≡ find_in (reply_tables ext nak) c
unfolding find
find-reply_tables c true true = refl
find-reply_tables c true false = refl
find-reply_tables c false true = refl
find-reply_tables c false false = refl

-- A reply that the tracker has seen within the window after its query, whatever packets came between
-- that were within the window and did not repeat the query's key, is named by `lookup` with the
-- query's kind, extended or standard, and without a second byte. An ACK is looked for in
-- the table of that kind alone; a NAK, whose broadcast bit is set, in the broadcast table of that
-- kind first, then in that table, and for an extended query at last in the standard one.
pub cmd_name-reply :
    (t : CommandTracker) (q r : Packet) (asked_at answered_at : ℕ) (between : List (Packet × ℕ))
    (a b : Address) (c : ℕ)
    → IsQuery q a b c
    → IsReply r a b c
    → All
        (λ x.
          (arrival x.0 x.1 ≤ arrival q asked_at + t.window) × (asked x.0 ≢ some (query_key a b c)))
        between
    → arrival r answered_at ≤ arrival q asked_at + t.window
    → (cmd_name (observe (observe_all between (observe t q asked_at).0).0 r answered_at).1
        ≡ ok (some (named (lookup c none (extended q) (bcast r) false))))
      × (find c (extended q) (bcast r) ≡ find_in (reply_tables (extended q) (bcast r)) c)
cmd_name-reply t q r asked_at answered_at between a b c query reply others in_time =
    let seen = (observe_all between (observe t q asked_at).0).0 in
    (
      cmd_name_marked (observe seen r answered_at).1 r c (extended q)
          (observe-bytes seen r answered_at) reply.kind reply.command
          (reply-resolved t q r asked_at answered_at between a b c query reply others in_time),
      find-reply_tables c (extended q) (bcast r),
    )
