-- ===== src/Mesh/Tallies.antt =====
-- mesh.py, `MissTable.note`: the table adds up.
use insteonrf.Common.{
  ◌≢◌, ℕ, ◌+◌, ◌≡◌, refl, arith, Bool, true, false, ◌&&◌, Option, none, some, [], ◌∷◌, list_eq,
  Bool-cases, inl, inr,
}
use insteonrf.Common.Dict.{get}
use insteonrf.Common.Totals.{total, total-put, weigh_or}
use insteonrf.Packet.Address.{Address}
use insteonrf.Packet.Fields.{crc_ok, hops_ok, is_true}
use insteonrf.Fusion.{FusedEvent}
use insteonrf.Inject.Classify.{sender_of, is_own, is_unknown}
use insteonrf.Mesh.{
  MissTable, DeviceMisses, note, note_sender, count_message, tally_device, device_of, saw, one_if,
}

-- the events that the table has seen, by what became of them
abbrev pub noted : MissTable → ℕ
noted t = t.undecodable + t.plm_own_transmissions + t.unknown_senders + t.messages

-- the messages of all devices, and those with the modem's verdict
abbrev pub device_messages : MissTable → ℕ
device_messages t = total (λ d. d.heard_by_rf) t.devices

abbrev pub verdicts : MissTable → ℕ
verdicts t = total (λ d. d.plm_also_heard + d.plm_missed) t.devices

-- an event of a packet that decoded but names no sender
unfoldable pub is_anonymous : FusedEvent → Bool
is_anonymous ev = is_true (crc_ok ev.packet) && hops_ok ev.packet && no_sender (sender_of ev.packet)
  where
    no_sender : Option Address → Bool
    no_sender none = true
    no_sender (some who) = false

verdict_one : (o : Option Bool) → o ≢ none → one_if (saw true o) + one_if (saw false o) ≡ 1
verdict_one none h = absurd (h refl)
verdict_one (some true) h = refl
verdict_one (some false) h = refl

device_heard :
    (o : Option DeviceMisses) (ev : FusedEvent) (injected : Bool)
    → (tally_device (device_of o) ev injected).heard_by_rf ≡ weigh_or (λ d. d.heard_by_rf) o + 1
unfolding tally_device
device_heard none ev injected = refl
device_heard (some d) ev injected = refl

device_verdict :
    (o : Option DeviceMisses) (ev : FusedEvent) (injected : Bool)
    → ev.plm_saw_it ≢ none
    → (tally_device (device_of o) ev injected).plm_also_heard
        + (tally_device (device_of o) ev injected).plm_missed
      ≡ weigh_or (λ d. d.plm_also_heard + d.plm_missed) o + 1
unfolding tally_device
device_verdict none ev injected h = omega (arith, verdict_one ev.plm_saw_it h)
device_verdict (some d) ev injected h = omega (arith, verdict_one ev.plm_saw_it h)

-- A table adds up: its devices' messages are its messages, and each has a verdict.
abbrev pub AddsUp : MissTable → Type 0
AddsUp t = (device_messages t ≡ t.messages) × (verdicts t ≡ t.messages)

message-AddsUp :
    (t : MissTable) (ev : FusedEvent) (who : Address) (injected : Bool)
    → ev.plm_saw_it ≢ none
    → AddsUp t
    → AddsUp (count_message t ev who injected)
unfolding count_message
message-AddsUp t ev who injected h k =
    let key = who.value ∷ [] in
    let old = get key t.devices in
    let d = tally_device (device_of old) ev injected in
    (
      omega (
        arith,
        k.0,
        total-put (λ d. d.heard_by_rf) key d t.devices,
        device_heard old ev injected,
      ),
      omega (
        arith,
        k.1,
        total-put (λ d. d.plm_also_heard + d.plm_missed) key d t.devices,
        device_verdict old ev injected h,
      ),
    )

sender-AddsUp :
    (t : MissTable) (ev : FusedEvent) (injected : Bool) (o : Option Address)
    → ev.plm_saw_it ≢ none
    → AddsUp t
    → AddsUp (note_sender t ev injected o)
sender-AddsUp t ev injected none h k = k
sender-AddsUp t ev injected (some who) h k = elim (Bool-cases (is_own t.plm_addr who)) [
  | inl own ↦ rw own k
  | inr other ↦ elim (Bool-cases (is_unknown t.known_addrs who)) [
    | inl new ↦ rw other (rw new k)
    | inr old ↦ rw other (rw old (message-AddsUp t ev who injected h k))
  ]
]

-- Noting an event with the modem's verdict keeps a table that adds up: the messages of the devices
-- are the messages of the table, and each was also heard or missed by the modem.
pub note-AddsUp :
    (t : MissTable) (ev : FusedEvent) (injected : Bool)
    → ev.plm_saw_it ≢ none
    → AddsUp t
    → AddsUp (note t ev injected)
unfolding note
note-AddsUp t ev injected h k =
    elim (Bool-cases (is_true (crc_ok ev.packet) && hops_ok ev.packet)) [
      | inl decoded ↦ rw decoded (sender-AddsUp t ev injected (sender_of ev.packet) h k)
      | inr broken ↦ rw broken k
    ]
