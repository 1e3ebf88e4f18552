-- ===== src/Transport/Inbox.antt =====
-- The notifications between a transport's handler and its loop: the bounded queue, and what the loop
-- makes of each value (bluetooth_transport.py and telemetry.py).
pub mod Bounds
use ha_aiper_ble.Prelude.{
  ℕ, Bool, true, false, Option, none, some, List, [], ◌∷◌, ◌++◌, length, ltb, leb, if◌then◌else◌,
}
use ha_aiper_ble.Prelude.Text.{Bytes}
use ha_aiper_ble.Outcome.{Exception, Result, ok, err, protocol, other}
use ha_aiper_ble.Value.{Value, obj}
use ha_aiper_ble.Protocol.Query.{Request}
use ha_aiper_ble.Protocol.Decoder.{Decoder, Received, sequence, unsupported, feed, max_total_bytes}
use ha_aiper_ble.Protocol.Reply.{Floats}
use ha_aiper_ble.Protocol.Telemetry.{query_telemetry}
use ha_aiper_ble.Protocol.Evidence.{response_evidence}

-- A queued notification, or the ProtocolError that stands for one that is too long.
pub data Item : Type 0 where
  notification : Received → Item
  too_long : Item

-- what the handlers queue
unfoldable pub item_of : Received → Item
item_of (sequence items) =
    if ltb max_total_bytes (length items) then too_long else notification (sequence items)
item_of unsupported = notification unsupported

-- asyncio.Queue(maxsize=32) with the flag `overflow`; the oldest value is first
pub record Inbox : Type 0 where
  pub queue : List Item
  pub overflow : Bool

abbrev pub empty_inbox : Inbox
empty_inbox = record { queue = []; overflow = false }

abbrev pub queue_limit : ℕ
queue_limit = 32

-- if queue.full(): overflow = True, else queue.put_nowait(value)
unfoldable pub put : Received → Inbox → Inbox
unfolding item_of
put value i =
    if leb queue_limit (length i.queue)
    then record i { overflow = true }
    else record i { queue = i.queue ++ item_of value ∷ [] }

-- the handler's calls during one wait of the loop, in order
unfoldable pub put_all : List Received → Inbox → Inbox
unfolding put
put_all [] i = i
put_all (v ∷ vs) i = put_all vs (put v i)

-- What the loop over the decoded objects comes to.
pub data Offered : Type 0 where
  refused : Exception → Offered
  unmatched : Offered
  matched : Value → Offered

-- decode(value): the queued error, or what the decoder makes of the notification
unfoldable pub decode : (Bytes → Option Value) → Item → Decoder → Result (List Value) × Decoder
unfolding feed
decode loads too_long d = (err (protocol "capture_limit"), d)
decode loads (notification r) d = feed loads r d

module _ (floats : Floats) (request : Request) where
  -- for response in frames: ...
  unfoldable pub offer : List Value → Offered
  unfolding response_evidence query_telemetry
  offer [] = unmatched
  offer (obj fields ∷ rest) =
      let others = offer rest in
      elim (response_evidence fields request) [
        | err e ↦ refused e
        | ok evidence ↦ elim (query_telemetry floats fields request) [
          | err e ↦ refused e
          | ok none ↦ others
          | ok (some candidates) ↦ matched (obj fields)
        ]
      ]
  offer (_ ∷ rest) = refused other

  abbrev pub offer_result : Result (List Value) → Offered
  offer_result (err e) = refused e
  offer_result (ok values) = offer values

  -- one value of the queue
  unfoldable pub take_item : (Bytes → Option Value) → Item → Decoder → Offered × Decoder
  unfolding decode offer
  take_item loads item d = let (result, d') = decode loads item d in (offer_result result, d')
