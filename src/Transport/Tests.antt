-- ===== src/Transport/Tests.antt =====
-- Runs at concrete inputs.
use ha_aiper_ble.Prelude.{
  ◌≤◌, ◌≡◌, refl, true, false, none, some, List, [], ◌∷◌, ◌++◌, map, arith, length, All,
}
use ha_aiper_ble.Prelude.Text.{Text, Bytes, codes}
use ha_aiper_ble.Protocol.Codec.{chunks}
use mathlib.Core.List.{flatten}
use ha_aiper_ble.Value.Json.{dumps, utf8}
use ha_aiper_ble.Outcome.{err, update_failed}
use ha_aiper_ble.Target.{model_of}
use ha_aiper_ble.Protocol.Crc.{crc16}
use ha_aiper_ble.Protocol.Codec.{b64decode}
use ha_aiper_ble.Protocol.Codec.Pieces.{FitsWrite}
use ha_aiper_ble.Protocol.Query.{wire_frame, query_frame}
use ha_aiper_ble.Coordinator.Judge.{Exchange, judge}
use ha_aiper_ble.Transport.Session.{Teardown}
use ha_aiper_ble.Coordinator.Samples.{py, info_request, waiting}
use ha_aiper_ble.Transport.Samples.{reply, robot, loads, confirmed, lost, session, info_report}
use ha_aiper_ble.Transport.Watch.{find_source}
use ha_aiper_ble.Transport.Watch.Anonymous.{add_sources, add_sources-keeps}
use ha_aiper_ble.Transport.Inbox.{queue_limit, item_of, put_all, empty_inbox}
use ha_aiper_ble.Transport.Inbox.Bounds.{put_all-fits}
use ha_aiper_ble.Protocol.Decoder.{Received}
use ha_aiper_ble.Transport.Bluetooth.{query_once}
use ha_aiper_ble.Transport.Bluetooth.Ends.{
  IsExchanged, query_once-IsExchanged, query_once-writes, query_once-suspends,
}

-- the frame of the INFO query
abbrev sent_frame : Bytes
sent_frame = elim (query_frame info_request) [ none ↦ [] | some frame ↦ frame ]

-- the exchange that the coordinator sees
abbrev ended : Teardown → Exchange
ended t = record {
  report = (query_once py.floats loads robot info_request (session t) info_report).report;
  raised = none;
  cancel_requested = false;
  deadline_expired = false;
  closing = false;
  finished = 2000;
}

query_once-IsExchanged_example :
    IsExchanged py.floats robot info_request
      (session confirmed)
      (query_once py.floats loads robot info_request (session confirmed) info_report)
unfolding query_once model_of dumps utf8 crc16 chunks wire_frame b64decode
query_once-IsExchanged_example =
    query_once-IsExchanged py.floats loads robot info_request (session confirmed) info_report
      (λ h. cc) refl refl

query_once-writes_example :
    (rest : List Bytes) × (flatten (
        (query_once py.floats loads robot info_request (session confirmed) info_report).written
        ++ rest)
      ≡ sent_frame)
    × All (FitsWrite 20) (
        (query_once py.floats loads robot info_request (session confirmed) info_report).written
        ++ rest)
unfolding query_once model_of dumps utf8 crc16 chunks wire_frame b64decode
query_once-writes_example =
    (query_once-writes py.floats loads robot info_request (session confirmed) info_report sent_frame
      refl).1

query_once-suspends_example :
    ((judge py info_request (ended lost) waiting).0 ≡ err (update_failed "cleanup_requires_review"))
    × ((judge py info_request (ended lost) waiting).1.suspended ≡ true)
unfolding query_once model_of dumps utf8 crc16 chunks wire_frame b64decode
query_once-suspends_example =
    query_once-suspends py.floats loads robot info_request py (session lost) info_report lost
      (ended lost) waiting refl (λ h. refl) refl refl refl refl

abbrev arrived : List Received
arrived = reply ∷ reply ∷ []

put_all-fits_example :
    (length (put_all arrived empty_inbox).queue ≤ queue_limit)
    × ((put_all arrived empty_inbox).overflow ≡ false
        → (put_all arrived empty_inbox).queue ≡ map item_of arrived)
put_all-fits_example = put_all-fits arrived empty_inbox (omega arith)

abbrev scanners : List Text
scanners = codes "11:22:33:44:55:66" ∷ codes "AA:BB:CC:DD:EE:00" ∷ []

add_sources-keeps_example :
    ((s id : Text) → find_source s [] ≡ some id → find_source s (add_sources scanners []) ≡ some id)
    × ((s t id : Text)
        → find_source s (add_sources scanners []) ≡ some id
        → find_source t (add_sources scanners []) ≡ some id
        → s ≡ t)
add_sources-keeps_example = add_sources-keeps scanners [] tt
