-- ===== src/Protocol/Tests.antt =====
-- Runs of the protocol's functions, and the theorems at concrete inputs.
use ha_aiper_ble.Prelude.{
  ◌+◌, ◌≤◌, ◌≡◌, refl, ◌≢◌, false, Option, none, some, List, [], ◌∷◌, ◌++◌, map, arith, length,
  take, drop, All, if◌then◌else◌,
}
use ha_aiper_ble.Prelude.Int.{pos}
use ha_aiper_ble.Prelude.Text.{Bytes, codes, text_eq}
use ha_aiper_ble.Outcome.{Result, ok, err, protocol}
use ha_aiper_ble.Value.{Value, Fields, obj, str, bool, field, end, get}
use ha_aiper_ble.Value.Json.{dumps, utf8}
use ha_aiper_ble.Protocol.Crc.{crc16}
use ha_aiper_ble.Protocol.Crc.Detect.{crc16_detects_byte}
use ha_aiper_ble.Protocol.Codec.{b64decode, chunks, chunk_size}
use ha_aiper_ble.Protocol.Codec.Pieces.{chunks_lem, FitsWrite}
use ha_aiper_ble.Protocol.Preview.{Preview, preview}
use ha_aiper_ble.Protocol.Preview.Shows.{preview_lem}
use ha_aiper_ble.Protocol.Query.{command_bytes}
use ha_aiper_ble.Protocol.Evidence.{exploratory_evidence}
use ha_aiper_ble.Protocol.Evidence.Kept.{IsKept, exploratory_evidence-IsKept}
use ha_aiper_ble.Protocol.Query.{Query, query, make_query, wire_frame, query_frame}
use ha_aiper_ble.Protocol.Decoder.{Decoder, new_decoder, feed, feed_all, has_envelope, drain, drain}
use ha_aiper_ble.Protocol.Decoder.Bounds.{IsBounded, feed-IsBounded, new_decoder-IsBounded}
use ha_aiper_ble.Protocol.Decoder.Delivery.{received, later, feed_all_lem, delivery}
use mathlib.Core.List.{flatten}

abbrev frame_of : Result Query → Option Bytes
frame_of (err e) = none
frame_of (ok q) = query_frame (query q)

-- the frame of the OpInfo query
opinfo_frame :
    frame_of (make_query "omit_empty_crc" "request" (bool false) "OpInfo" false)
    ≡ some (codes "aRYiAWJRdEIweyYxfFI5Wj4WMhlmVXRCaUkr\n")
unfolding make_query query_frame dumps utf8 wire_frame
opinfo_frame = refl

refused_query :
    make_query "omit_empty_crc" "request" (bool false) "MODE" false
    ≡ err (protocol "invalid_query_type")
unfolding make_query
refused_query = refl

abbrev reply_json : Bytes
reply_json = codes "{\"type\":\"Machine\",\"data\":{}}"

abbrev reply : Value
reply = obj (field (codes "type") (str (codes "Machine")) (field (codes "data") (obj end) end))

-- a parser that reads this one text
abbrev loads_reply : Bytes → Option Value
loads_reply bytes = if text_eq bytes reply_json then some reply else none

abbrev pieces : List Bytes
pieces = take 20 (wire_frame reply_json) ∷ drop 20 (wire_frame reply_json) ∷ []

crc16_detects_byte_example :
    crc16 (codes "ab" ++ 1 ∷ codes "c") ≢ crc16 (codes "ab" ++ 2 ∷ codes "c")
crc16_detects_byte_example =
    crc16_detects_byte (codes "ab") (codes "c") 1 2 (omega arith) (omega arith) (omega arith)
      (omega arith) (omega arith)

chunks_lem_example :
    (flatten (chunks (wire_frame reply_json) (some (pos 100))) ≡ wire_frame reply_json)
    × All (FitsWrite 97) (chunks (wire_frame reply_json) (some (pos 100)))
    × (97 ≤ 200)
    × (97 + 3 ≤ 100)
unfolding chunk_size
chunks_lem_example = chunks_lem (wire_frame reply_json) (some (pos 100))

delivery_example : feed_all loads_reply (map received pieces) new_decoder ≡ (
  ok (reply ∷ []),
  record { buffer = []; total_bytes = length (wire_frame reply_json); notifications = 2 },
)
unfolding wire_frame text_eq has_envelope flatten
delivery_example =
    delivery loads_reply reply_json (omega arith) (omega arith) refl refl (omega arith) pieces
      (omega arith) refl (omega arith)

feed_all_lem_example :
    feed_all loads_reply (map received pieces) new_decoder
    ≡ (ok (reply ∷ []), later new_decoder [] (length (flatten pieces)) (length pieces))
unfolding wire_frame text_eq has_envelope flatten drain b64decode
feed_all_lem_example =
    feed_all_lem loads_reply pieces new_decoder (reply ∷ []) [] new_decoder-IsBounded (omega arith)
      refl (omega arith) (omega arith) (omega arith)

abbrev half : Decoder
half = record { buffer = codes "ab"; total_bytes = 2; notifications = 1 }

feed-IsBounded_example : IsBounded half
unfolding feed
feed-IsBounded_example =
    feed-IsBounded loads_reply (some (pos b'a') ∷ some (pos b'b') ∷ []) new_decoder [] half
      new_decoder-IsBounded refl

-- a reply with a character that is not kept
abbrev odd_reply : Fields
odd_reply =
    field (codes "type") (str (codes "Machine"))
      (field (codes "data") (obj (field (codes "ack") (str (codes "+X:\u{7}1\n")) end)) end)

abbrev odd_evidence : Fields
odd_evidence = elim (exploratory_evidence odd_reply "X") [ err e ↦ end | ok fields ↦ fields ]

exploratory_evidence-IsKept_example : IsKept (get odd_evidence "reply_text")
unfolding exploratory_evidence dumps utf8 crc16 get
exploratory_evidence-IsKept_example = exploratory_evidence-IsKept odd_reply "X" odd_evidence refl

abbrev warn_query : Query
warn_query = record {
  checksum_mode = "omit_empty_crc";
  write_mode = "request";
  allow_missing_advertisement = false;
  query_type = "WARN";
  exploratory = false;
}

abbrev warn_text : Bytes
warn_text = elim (command_bytes (query warn_query)) [ none ↦ [] | some encoded ↦ encoded ]

preview_lem_example :
    (p : Preview) × (preview loads_reply (query warn_query) ≡ some p)
    × (p.request_json ≡ loads_reply warn_text)
    × (p.request_bytes ≡ length (wire_frame warn_text))
unfolding command_bytes dumps utf8 crc16
preview_lem_example = preview_lem loads_reply (query warn_query) warn_text refl (omega arith)
