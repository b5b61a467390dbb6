-- ===== src/Radio/Mqtt/Payload.antt =====
-- radio/mqtt.py, `Capture.from_payload`. What `json.loads`, `base64.b64decode` and `int(text, 16)`
-- answer are parameters. A number in the JSON is given in thousandths, as an integer with a mark
-- that tells an `int` from a `float` (whose digits beyond the third are cut); a text is the list of
-- its characters; lists, nested objects and null, which are never looked into, are `other`. `clock`
-- is the answer of `time.time()`, in microseconds, the unit that "t" has in thousandths of a
-- millisecond.
use insteonrf.Common.{
  ℕ, ◌+◌, ◌-◌, ◌*◌, ◌==◌, ltb, Bool, true, false, ◌&&◌, ◌||◌, if◌then◌else◌, Option, none, some,
  List, [], ◌∷◌, ◌++◌, length, take, list_eq,
}
use insteonrf.Common.Dict.{Dict, get}
use insteonrf.Common.Int.{ℤ, pos, negsuc}
use insteonrf.Manchester.{Bits}
use insteonrf.Radio.Mqtt.{
  bits_from_bytes, with_sync_header, hard_soft, soft_from_bytes, max_capture_bytes,
}

pub data Value : Type 0 where
  text : List ℕ → Value
  flag : Bool → Value
  whole : ℤ → Value
  real : ℤ → Value
  other : Value

-- a JSON document: an object, or something else
pub data Json : Type 0 where
  object : Dict (List ℕ) Value → Json
  scalar : Json

-- an integer times 1000
abbrev pub thousand : ℤ → ℤ
thousand (pos n) = pos (1000 * n)
thousand (negsuc n) = negsuc (1000 * n + 999)

-- `float(v) if isinstance(v, (int, float)) else None`, in thousandths; a bool is an int
abbrev pub as_float : Option Value → Option ℤ
as_float (some (whole n)) = some (thousand n)
as_float (some (real x)) = some x
as_float (some (flag true)) = some (pos 1000)
as_float (some (flag false)) = some (pos 0)
as_float _ = none

-- `int(v) if isinstance(v, int) else None`
abbrev pub as_int : Option Value → Option ℤ
as_int (some (whole n)) = some n
as_int (some (flag true)) = some (pos 1)
as_int (some (flag false)) = some (pos 0)
as_int _ = none

pub record Capture : Type 0 where
  pub receiver : List ℕ
  pub bits : Bits
  pub timestamp : ℕ
  pub rssi : Option ℤ
  pub seq : Option ℤ
  pub micros : Option ℤ
  pub sync_word : Option ℤ
  pub soft : Option (List ℤ)
  pub snr : Option ℤ

-- `topic.rsplit("/", 1)[-1]`, after the characters since the last '/'
abbrev pub slash : ℕ
slash = b'/'

unfoldable pub last_segment : List ℕ → List ℕ → List ℕ
last_segment since [] = since
last_segment since (c ∷ topic) = last_segment (if c == slash then [] else since ++ (c ∷ [])) topic

unfoldable pub receiver_name : Option Value → List ℕ → List ℕ
receiver_name (some (text (c ∷ name))) topic = c ∷ name
receiver_name _ topic = last_segment [] topic

-- `abs(candidate - when) < 3600`
abbrev pub within_hour : ℕ → ℕ → Bool
within_hour at clock = ltb at (clock + 3_600_000_000) && ltb clock (at + 3_600_000_000)

-- the time of the board where it is plausible, else the time of arrival
unfoldable pub capture_time : Option ℤ → ℕ → ℕ
capture_time (some (pos at)) clock =
    if ltb 1_000_000_000_000_000 at && within_hour at clock then at else clock
capture_time _ clock = clock

module _ (loads : List ℕ → Option Json) (b64decode : List ℕ → Option (List ℕ))
    (hex_int : List ℕ → Option ℤ) where
  abbrev pub sync_word_of : Option Value → Option ℤ
  sync_word_of (some (text s)) = hex_int s
  sync_word_of v = as_int v

  -- the soft decisions, if there is one for each bit of the FIFO
  abbrev pub aligned_soft : Bits → Bits → Option (List ℕ) → Option (List ℤ)
  aligned_soft fifo bits none = none
  aligned_soft fifo bits (some raw) =
      if length raw == length fifo
      then some (hard_soft (take (length bits - length fifo) bits) ++ soft_from_bytes raw)
      else none

  abbrev pub soft_of : Bits → Bits → Option Value → Option (List ℤ)
  soft_of fifo bits (some (text s)) = aligned_soft fifo bits (b64decode s)
  soft_of fifo bits v = none

  -- the capture, once the bytes of the FIFO are known
  unfoldable pub capture_of : List ℕ → Dict (List ℕ) Value → ℕ → List ℕ → Capture
  capture_of topic rec clock raw =
      let fifo = bits_from_bytes raw in
      let word = sync_word_of (get (b's' ∷ b'w' ∷ []) rec) in
      let bits = with_sync_header fifo word in
      record {
        receiver = receiver_name (get (b'n' ∷ []) rec) topic;
        bits = bits;
        timestamp = capture_time (as_float (get (b't' ∷ []) rec)) clock;
        rssi = as_float (get (b'r' ∷ b's' ∷ b's' ∷ b'i' ∷ []) rec);
        seq = as_int (get (b's' ∷ b'e' ∷ b'q' ∷ []) rec);
        micros = as_int (get (b'u' ∷ b's' ∷ []) rec);
        sync_word = word;
        soft = soft_of fifo bits (get (b's' ∷ []) rec);
        snr = as_float (get (b's' ∷ b'n' ∷ b'r' ∷ []) rec);
      }

  abbrev pub usable : List ℕ → Dict (List ℕ) Value → ℕ → Option (List ℕ) → Option Capture
  usable topic rec clock none = none
  usable topic rec clock (some raw) =
      if length raw == 0 || ltb max_capture_bytes (length raw)
      then none
      else some (capture_of topic rec clock raw)

  abbrev pub from_blob : List ℕ → Dict (List ℕ) Value → ℕ → Option Value → Option Capture
  from_blob topic rec clock (some (text blob)) = usable topic rec clock (b64decode blob)
  from_blob topic rec clock v = none

  abbrev pub from_json : List ℕ → ℕ → Option Json → Option Capture
  from_json topic clock (some (object rec)) = from_blob topic rec clock (get (b'b' ∷ []) rec)
  from_json topic clock j = none

  unfoldable pub from_payload : List ℕ → List ℕ → ℕ → Option Capture
  from_payload topic payload clock = from_json topic clock (loads payload)
