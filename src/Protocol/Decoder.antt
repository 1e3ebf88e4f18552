-- ===== src/Protocol/Decoder.antt =====
-- `Decoder` of protocol.py: bounded incremental framing on line breaks. `json.loads`, with its two
-- hooks, is the parameter `loads` of what decodes a frame; `none` stands for any of the exceptions
-- that `feed` turns into `invalid_frame`.
pub mod Framing
pub mod Bounds
pub mod Delivery
use ha_aiper_ble.Prelude.{
  ℕ, ◌+◌, Bool, true, false, ◌&&◌, ◌||◌, Option, none, some, List, [], ◌∷◌, ◌++◌, length, ltb, leb,
  ◌==◌, if◌then◌else◌,
}
use ha_aiper_ble.Prelude.Int.{ℤ, pos}
use ha_aiper_ble.Prelude.Text.{Bytes}
use ha_aiper_ble.Outcome.{Result, ok, err, protocol}
use ha_aiper_ble.Prelude.Optional
use ha_aiper_ble.Value.{Value, Fields, obj, get, as_dict, as_str}
use ha_aiper_ble.Protocol.Codec.{xor, b64decode}

abbrev pub max_frame_bytes : ℕ
max_frame_bytes = 4096

abbrev pub max_total_bytes : ℕ
max_total_bytes = 8192

abbrev pub max_notifications : ℕ
max_notifications = 64

pub record Decoder : Type 0 where
  pub buffer : Bytes
  pub total_bytes : ℕ
  pub notifications : ℕ

abbrev pub new_decoder : Decoder
new_decoder = record { buffer = []; total_bytes = 0; notifications = 0 }

-- The value of a notification: bytes, a bytearray or a list (an item that is no int is `none`), or
-- anything else.
pub data Received : Type 0 where
  sequence : List (Option ℤ) → Received
  unsupported : Received

-- an item with type(item) is int and 0 <= item <= 255
unfoldable pub item_byte : Option ℤ → Option ℕ
item_byte (some (pos n)) = if leb n 255 then some n else none
item_byte _ = none

unfoldable pub item_bytes : List (Option ℤ) → Option Bytes
unfolding item_byte
item_bytes [] = some []
item_bytes (item ∷ rest) =
    Optional.◌>>=◌ (item_byte item) λ b. Optional.◌>>=◌ (item_bytes rest) λ bs. some (b ∷ bs)

-- a dict whose "type" is a str and whose "data" is a dict
unfoldable pub has_envelope : Value → Bool
unfolding get
has_envelope (obj fields) = elim (as_str (get fields "type")) [
  | none ↦ false
  | some _ ↦ elim (as_dict (get fields "data")) [ none ↦ false | some _ ↦ true ]
]
has_envelope _ = false

-- What follows decoded objects: they are kept unless it fails.
abbrev pub then_values {ℓ} :
    {S : Type ℓ} → List Value → Result (List Value) × S → Result (List Value) × S
then_values values (ok more, s) = (ok (values ++ more), s)
then_values values (err e, s) = (err e, s)

module _ (loads : Bytes → Option Value) where
  unfoldable pub check_envelope : Option Value → Result Value
  unfolding has_envelope
  check_envelope none = err (protocol "invalid_frame")
  check_envelope (some value) =
      if has_envelope value then ok value else err (protocol "unsupported_response_envelope")

  -- one frame, without its line break
  unfoldable pub decode_frame : Bytes → Result Value
  unfolding check_envelope
  decode_frame frame =
      if leb 1 (length frame) && leb (length frame) max_frame_bytes
      then check_envelope (Optional.◌>>=◌ (b64decode frame) λ raw. loads (xor raw))
      else err (protocol "frame_limit")

  -- After the frame that ended: its error leaves what followed it in the buffer.
  unfoldable pub then_frames :
      Result Value → Bytes → Result (List Value) × Bytes → Result (List Value) × Bytes
  then_frames (err e) rest more = (err e, rest)
  then_frames (ok value) rest (ok values, buffer) = (ok (value ∷ values), buffer)
  then_frames (ok value) rest (err e, buffer) = (err e, buffer)

  -- `while b"\n" in self.buffer`, reading on from the bytes of a frame that has begun. The result is
  -- the list of objects, or the exception, and the buffer that is left.
  unfoldable pub drain : Bytes → Bytes → Result (List Value) × Bytes
  unfolding decode_frame then_frames
  drain frame [] = (ok [], frame)
  drain frame (b ∷ rest) =
      let longer = drain (frame ++ b ∷ []) rest in
      let next = drain [] rest in
      if b == 10 then then_frames (decode_frame frame) rest next else longer

  -- the check of the unfinished frame after the loop
  unfoldable pub limit_buffer :
      Decoder → Result (List Value) × Bytes → Result (List Value) × Decoder
  limit_buffer d (err e, buffer) = (err e, record d { buffer = buffer })
  limit_buffer d (ok values, buffer) =
      if ltb max_frame_bytes (length buffer)
      then (err (protocol "frame_limit"), record d { buffer = buffer })
      else (ok values, record d { buffer = buffer })

  unfoldable pub feed_bytes : Decoder → Option Bytes → Result (List Value) × Decoder
  unfolding drain limit_buffer
  feed_bytes d none = (err (protocol "invalid_notification"), d)
  feed_bytes d (some bytes) = limit_buffer d (drain [] (d.buffer ++ bytes))

  -- What is raised leaves the counters as they were set before.
  unfoldable pub feed : Received → Decoder → Result (List Value) × Decoder
  unfolding feed_bytes item_bytes
  feed unsupported d = (err (protocol "invalid_notification"), d)
  feed (sequence items) d =
      let counted = record d {
        notifications = d.notifications + 1;
        total_bytes = d.total_bytes + length items;
      } in
      if ltb max_notifications counted.notifications || ltb max_total_bytes counted.total_bytes
      then (err (protocol "capture_limit"), counted)
      else feed_bytes counted (item_bytes items)

  -- The notifications of one exchange, in order, up to the first exception.
  unfoldable pub feed_all : List Received → Decoder → Result (List Value) × Decoder
  unfolding feed
  feed_all [] d = (ok [], d)
  feed_all (r ∷ rs) d =
      let (first, d') = feed r d in
      let others = feed_all rs d' in
      elim first [ err e ↦ (err e, d') | ok values ↦ then_values values others ]
