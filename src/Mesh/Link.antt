-- ===== src/Mesh/Link.antt =====
-- mesh.py, class PlmLink, once it is connected: what the modem's mirror reports, and what is
-- published for the modem. What `json.loads` and `bytes.fromhex` answer are parameters, none where
-- they raise. What is published is kept as a list of its fields.
use insteonrf.Common.{
  list_eq, ℕ, ◌+◌, ◌==◌, ltb, Bool, true, false, ◌&&◌, if◌then◌else◌, Option, none, some, List, [],
  ◌∷◌, ◌++◌, list_beq,
}
use insteonrf.Common.Dict.{Dict, get}
use insteonrf.Packet.Address.Text.{hex_byte}
use insteonrf.Packet.Build.{is_some}
use insteonrf.Radio.Mqtt.Payload.{Json, object, Value, text}
use insteonrf.Fusion.{FusedEvent, ReceiverView}

-- a message on the topic for injections; a signal strength has the scale of fusion.py's
pub record Publication : Type 0 where
  pub raw : List ℕ
  pub src : List ℕ
  pub receivers : List (List ℕ)
  pub rssi : Option ℕ

pub record PlmLink : Type 0 where
  pub frames : ℕ
  pub injected : ℕ
  pub last_frame_at : Option ℕ
  pub published : List Publication

abbrev pub new_link : PlmLink
new_link = record { frames = 0; injected = 0; last_frame_at = none; published = [] }

module _ (loads : List ℕ → Option Json) (fromhex : List ℕ → Option (List ℕ)) where
  -- `bytes.fromhex(rec["raw"])`
  abbrev pub hex_of : Option Value → Option (List ℕ)
  hex_of (some (text s)) = fromhex s
  hex_of _ = none

  abbrev pub raw_of : Option Json → Option (List ℕ)
  raw_of (some (object rec)) = hex_of (get (b'r' ∷ b'a' ∷ b'w' ∷ []) rec)
  raw_of _ = none

  abbrev pub count_frame : PlmLink → ℕ → Option (List ℕ) → PlmLink
  count_frame link now none = link
  count_frame link now (some raw) = record link {
    frames = link.frames + 1;
    last_frame_at = some now;
  }

  -- `_on_message`: the link, and the frame for `on_frame`
  unfoldable pub on_message : PlmLink → List ℕ → ℕ → PlmLink × Option (List ℕ)
  on_message link payload now = let raw = raw_of (loads payload) in (count_frame link now raw, raw)

-- `frame.hex().upper()`
unfoldable pub hex_text : List ℕ → List ℕ
hex_text [] = []
hex_text (b ∷ bytes) = hex_byte b ++ hex_text bytes

-- `event.closest or "insteon-rf"`
abbrev pub source_name : Option (List ℕ) → List ℕ
source_name (some (c ∷ name)) = c ∷ name
source_name _ = b'i' ∷ b'n' ∷ b's' ∷ b't' ∷ b'e' ∷ b'o' ∷ b'n' ∷ b'-' ∷ b'r' ∷ b'f' ∷ []

-- `a <= b` between texts
unfoldable pub text_leb : List ℕ → List ℕ → Bool
text_leb [] t = true
text_leb (a ∷ s) [] = false
text_leb (a ∷ s) (b ∷ t) = let rest = text_leb s t in if a == b then rest else ltb a b

-- `sorted` of texts
unfoldable pub insert : List ℕ → List (List ℕ) → List (List ℕ)
insert s [] = s ∷ []
insert s (t ∷ sorted) =
    let rest = insert s sorted in if text_leb s t then s ∷ t ∷ sorted else t ∷ rest

unfoldable pub sorted_names : Dict (List ℕ) ReceiverView → List (List ℕ)
sorted_names [] = []
sorted_names ((name, view) ∷ views) = insert name (sorted_names views)

-- `name == event.closest`
abbrev pub is_name : Option (List ℕ) → List ℕ → Bool
is_name none name = false
is_name (some closest) name = list_beq closest name

-- `payload["rssi"]`, after the views
unfoldable pub closest_rssi : Option (List ℕ) → Option ℕ → Dict (List ℕ) ReceiverView → Option ℕ
closest_rssi closest rssi [] = rssi
closest_rssi closest rssi ((name, view) ∷ views) =
    closest_rssi closest (if is_name closest name && is_some view.rssi then view.rssi else rssi)
      views

-- `publish_inject`
unfoldable pub publish_inject : PlmLink → List ℕ → FusedEvent → PlmLink
publish_inject link frame ev = record link {
  injected = link.injected + 1;
  published =
      link.published
      ++ record {
        raw = hex_text frame;
        src = source_name ev.closest;
        receivers = sorted_names ev.receivers;
        rssi = closest_rssi ev.closest none ev.receivers;
      }
        ∷ [];
}

-- `healthy`
unfoldable pub healthy : PlmLink → ℕ → ℕ → Bool
healthy link now max_silence = elim link.last_frame_at [
  | none ↦ false
  | some at ↦ ltb now (at + max_silence)
]
