-- ===== src/Radio/Rfcat/Sending.antt =====
-- rfcat.py, `RfcatRadio.transmit_bits`: what is sent for a line of bits.
use insteonrf.Common.{
  ℕ, ◌-◌, ◌*◌, ◌/◌, ◌%◌, ◌<◌, ◌≡◌, refl, sym, ap, ◌∙◌, ◌⊎◌, arith, inl, inr, Bool, true, false,
  ◌==◌, if◌then◌else◌, ltb, some, List, [], ◌++◌, length, take, All, All-append, All-take,
  length-append, length-take, Bool-cases, ==_iff,
}
use mathlib.Core.Path.{subst}
use mathlib.Core.List.{append-nil, append_assoc}
use insteonrf.Manchester.{Bits, IsBit, invert_bits}
use insteonrf.Manchester.RoundTrip.{invert_bits-IsBit}
use insteonrf.Packet.Frames.{alternate}
use insteonrf.Radio.Mqtt.{bits_from_bytes, chunks}
use insteonrf.Radio.Mqtt.Octets.{bits_from_bytes-chunks}
use insteonrf.Radio.Rfcat.Answers.{said_part, said_whole, through, stopped}
use insteonrf.Radio.Rfcat.{
  Command, Answer, Dongle, RfcatRadio, told, said, left, all_done, and_then, tell_radio, tx_calls,
  configure_tx, filled, send_calls, block_of, transmit_bits,
}

alternating : All IsBit (alternate 4)
unfolding alternate
alternating = (tt, (tt, (tt, (tt, (tt, (tt, (tt, (tt, tt))))))))

length-alternate : length (alternate 4) ≡ 8
unfolding alternate
length-alternate = refl

short_pad :
    (bits : Bits)
    → length bits % 8 == 0 ≡ false
    → length (take (8 - length bits % 8) (alternate 4)) < 8
short_pad bits odd =
    ground (arith, odd, length-take (8 - length bits % 8) (alternate 4), length-alternate)

whole_pad :
    (bits : Bits)
    → length bits % 8 == 0 ≡ false
    → length (bits ++ take (8 - length bits % 8) (alternate 4)) % 8 ≡ 0
whole_pad bits odd = omega (
  arith,
  length-append bits (take (8 - length bits % 8) (alternate 4)),
  length-take (8 - length bits % 8) (alternate 4),
  length-alternate,
)

filled_lem :
    (bits : Bits)
    → All IsBit bits
    → (pad : Bits) × (filled bits ≡ bits ++ pad)
      × (length pad < 8)
      × (length (filled bits) % 8 ≡ 0)
      × All IsBit (filled bits)
filled_lem bits k = elim (Bool-cases (length bits % 8 == 0)) [
  | inl even ↦ rw even ([], sym (append-nil bits), omega arith, (==_iff _ _).0 even, k)
  | inr odd ↦
      let pad = take (8 - length bits % 8) (alternate 4) in
      rw odd (
        pad,
        refl,
        short_pad bits odd,
        whole_pad bits odd,
        All-append IsBit bits pad k
            (All-take IsBit (8 - length bits % 8) (alternate 4) alternating),
      )
]

-- the line that is sent
abbrev pub turned : Bits → Bool → Bits
turned bits invert = if invert then invert_bits bits else bits

turned-IsBit : (bits : Bits) (invert : Bool) → All IsBit bits → All IsBit (turned bits invert)
turned-IsBit bits true k = invert_bits-IsBit bits k
turned-IsBit bits false k = k

-- the calls before a block is sent: the radio is set up to transmit, unless it is
abbrev pub setup_calls : Bool → List Command
setup_calls tx = if tx then [] else tx_calls

same_dongle :
    (d : Dongle) (a b : List Command) (x y : List Answer)
    → a ≡ b
    → x ≡ y
    → some (record d { calls = a; answers = x }) ≡ some (record d { calls = b; answers = y })
same_dongle d a b x y p q = rw p (rw q refl)

-- setting up, where the radio is not set up, and sending are one series of calls
sent_lem :
    (r : RfcatRadio) (d : Dongle) (t : Bool) (n : ℕ) (bytes : List ℕ)
    → let cmds = setup_calls t ++ send_calls n bytes in
      let q = record r { tx = t; dev = some d } in
      let end =
        and_then
          (if t then (q, true) else configure_tx q)
          (λ x. tell_radio x (send_calls n bytes)) in
      (end.1 ≡ all_done cmds d.answers) × (end.0.dev ≡ some (told cmds d))
unfolding configure_tx
sent_lem r d true n bytes = (refl, refl)
sent_lem r d false n bytes = elim (Bool-cases (all_done tx_calls d.answers)) [
  | inl ok ↦
      let (e, f, g) = through tx_calls (send_calls n bytes) d.answers ok in
      rw ok (
        sym g,
        same_dongle d _ _ _ _
            (append_assoc d.calls (said tx_calls d.answers)
                (said (send_calls n bytes) (left tx_calls d.answers))
              ∙ ap (λ cs. d.calls ++ cs) (sym e))
            (sym f),
      )
  | inr cut ↦
      let (e, f, g) = stopped tx_calls (send_calls n bytes) d.answers cut in
      rw cut (sym g, same_dongle d _ _ _ _ (ap (λ cs. d.calls ++ cs) (sym e)) (sym f))
]

eighths : (n : ℕ) → n % 8 ≡ 0 → n ≡ 8 * (n / 8)
eighths n h = omega arith

block_lem :
    (line : Bits)
    → All IsBit line
    → let bytes = chunks (length (filled line) / 8) (filled line) in
      (pad : Bits) × (bits_from_bytes bytes ≡ line ++ pad) × (length pad < 8)
block_lem line k =
    let (pad, same, short, whole, good) = filled_lem line k in
    (
      pad,
      bits_from_bytes-chunks (length (filled line) / 8) (filled line)
            (eighths (length (filled line)) whole) good
          ∙ same,
      short,
    )

-- the calls of a radio that has a dongle
sent_on :
    (r : RfcatRadio) (d : Dongle) (n : ℕ) (bytes : List ℕ)
    → r.dev ≡ some d
    → let cmds = setup_calls r.tx ++ send_calls n bytes in
      let end =
        and_then
          (if r.tx then (r, true) else configure_tx r)
          (λ x. tell_radio x (send_calls n bytes)) in
      (end.1 ≡ all_done cmds d.answers) × (end.0.dev ≡ some (told cmds d))
sent_on r d n bytes e =
    subst
      (λ o.
        let cmds = setup_calls r.tx ++ send_calls n bytes in
        let q = record r { dev = o } in
        let end =
          and_then (if r.tx then (q, true) else configure_tx q)
            (λ x. tell_radio x (send_calls n bytes)) in
        (end.1 ≡ all_done cmds d.answers) × (end.0.dev ≡ some (told cmds d)))
      (sym e) (sent_lem r d r.tx n bytes)

-- some calls that are made on a dongle one after the other: those that reach it come first among
-- them, and they are all of them where none raises
abbrev pub IsSaid : List Command → Dongle → Type 0
IsSaid cmds d =
    ((all_done cmds d.answers ≡ false) ⊎ (said cmds d.answers ≡ cmds))
    × ((rest : List Command) × (cmds ≡ said cmds d.answers ++ rest))

IsSaid_lem : (cmds : List Command) (d : Dongle) → IsSaid cmds d
IsSaid_lem cmds d = (
  elim (Bool-cases (all_done cmds d.answers)) [
    | inl ok ↦ inr (said_whole cmds d.answers ok)
    | inr cut ↦ inl cut
  ],
  said_part cmds d.answers,
)

-- A line of '0' and '1' is sent as one block: its bits, turned over if that is asked for, and fewer
-- than 8 more, in whole bytes. A block of more than 255 bytes raises and leaves the radio as it was.
-- For any other, on an open dongle, the calls are: those that set it up to transmit, where the radio
-- is not set up so already, and those that send the block as often as asked for; nothing else. They
-- reach the dongle in this order up to the first that raises, all of them if none does, and it raises
-- exactly when one of them does.
pub transmit_bits-sent :
    (r : RfcatRadio) (d : Dongle) (bits : Bits) (repeat : ℕ) (invert : Bool)
    → All IsBit bits
    → r.dev ≡ some d
    → let cmds = setup_calls r.tx ++ send_calls repeat (block_of bits invert) in
      ((pad : Bits) × (bits_from_bytes (block_of bits invert) ≡ turned bits invert ++ pad)
        × (length pad < 8))
      × (if ltb 255 (length (block_of bits invert))
          then transmit_bits r bits repeat invert ≡ (r, false)
          else ((transmit_bits r bits repeat invert).1 ≡ all_done cmds d.answers)
            × ((transmit_bits r bits repeat invert).0.dev
                ≡ some (record d {
                  calls = d.calls ++ said cmds d.answers;
                  answers = left cmds d.answers;
                }))
            × IsSaid cmds d)
unfolding transmit_bits block_of
transmit_bits-sent r d bits repeat invert k e =
    let bytes = block_of bits invert in
    (
      block_lem (turned bits invert) (turned-IsBit bits invert k),
      elim (Bool-cases (ltb 255 (length bytes))) [
        | inl long ↦ rw long refl
        | inr fits ↦
            let (ended, calls) = sent_on r d repeat bytes e in
            rw fits (ended, calls, IsSaid_lem (setup_calls r.tx ++ send_calls repeat bytes) d)
      ],
    )
