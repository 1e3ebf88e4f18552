-- ===== src/Bluez/Tests.antt =====
-- Runs at concrete inputs.
use ha_aiper_ble.Prelude.{ℕ, String, ◌≡◌, refl, true, none, some, List, [], ◌∷◌}
use ha_aiper_ble.Prelude.Text.{Text}
use ha_aiper_ble.Bluez.Guards.{passed}
use ha_aiper_ble.Bluez.Faults.{Sample, items, sample_hex}
use ha_aiper_ble.Bluez.Faults.Read.{bytes_of, unhex, IsShort, sample_hex-IsShort}
use ha_aiper_ble.Coordinator.Samples.{py, info_request}
use ha_aiper_ble.Transport.Samples.{info_report, loads}
use ha_aiper_ble.Coordinator.Report.{Report}
use ha_aiper_ble.Bluez.Guards.{request}
use ha_aiper_ble.Bluez.Permits.{nothing, chunk, device_interface}
use ha_aiper_ble.Target.{model_of}
use ha_aiper_ble.Bluez.Permits.Messages.{writes, calls_of}
use ha_aiper_ble.Bluez.Permits.Plan.{
  Operation, planned, direct, perform_all, IsOrderly, perform_all-IsOrderly,
}
use ha_aiper_ble.Bluez.Probe.{Run, probe}
use ha_aiper_ble.Bluez.Probe.Ends.{IsGone}
use ha_aiper_ble.Bluez.Probe.Attempts.{IsConnectable, probe-IsGone}
use ha_aiper_ble.Value.{Fields, obj}
use ha_aiper_ble.Value.Json.{dumps, utf8}
use ha_aiper_ble.Protocol.Crc.{crc16}
use ha_aiper_ble.Protocol.Codec.{chunks, b64decode}
use ha_aiper_ble.Protocol.Query.{wire_frame}
use ha_aiper_ble.Outcome.{ok}
use ha_aiper_ble.Protocol.Telemetry.{query_telemetry}
use ha_aiper_ble.Coordinator.Judge.{is_complete}
use ha_aiper_ble.Bluez.Chain.{local_query_once, local_query_once-IsComplete}
use ha_aiper_ble.Bluez.Samples.{robot, robot_path, char_path, bus, wire, querying, plan, permits}

-- a start, a write of the plan, one that is not, a connection, and two stops
abbrev operations : List Operation
operations =
    planned char_path "StartNotify" "" nothing
    ∷ planned char_path "WriteValue" "aya{sv}" (chunk (1 ∷ 2 ∷ []) "request")
    ∷ planned char_path "WriteValue" "aya{sv}" (chunk (7 ∷ []) "request")
    ∷ direct (record {
      path = robot_path;
      interface = device_interface;
      member = "Connect";
      signature = "";
      body = nothing;
    })
    ∷ planned char_path "StopNotify" "" nothing
    ∷ planned char_path "StopNotify" "" nothing
    ∷ []

perform_all-IsOrderly_example :
    IsOrderly (some robot) char_path plan (perform_all (some robot) operations permits)
unfolding writes calls_of
perform_all-IsOrderly_example =
    perform_all-IsOrderly (some robot) char_path plan operations permits (record {
      idle = refl;
      unread = refl;
      query_path = refl;
      written = refl;
      starts = refl;
      stops = refl;
      started = λ h. h;
      lawful = tt;
    })

abbrev named : String → String
named class = "unconfirmed: Exception"

probe-IsGone_example :
    IsConnectable bus robot querying.query
    × IsGone bus (probe named bus robot querying info_report).1
    × ((before : Report) × ((bus.exchange before).0 ≡ none)
        × ((probe named bus robot querying info_report).1.report
            ≡ record (bus.exchange before).2 { cleanup = some "disconnected_confirmed" }))
unfolding probe model_of
probe-IsGone_example =
    probe-IsGone bus robot querying named info_report (request info_request) refl refl refl refl

-- the whole run
abbrev probed : Run
probed = probe named bus robot querying info_report

-- It has asked for one disconnect.
probed_once : probed.1.disconnects ≡ 1
unfolding probe model_of
probed_once = refl

-- the report of a whole query
abbrev local_report : Report
local_report = (local_query_once py.floats loads robot info_request named bus wire info_report).1

local_query_once-IsComplete_example :
    (is_complete local_report ≡ true)
    × ((fields : Fields) × (candidates : Fields) × (local_report.protocol_response
          ≡ some (obj fields))
        × (query_telemetry py.floats fields info_request ≡ ok (some candidates)))
unfolding local_query_once model_of dumps utf8 crc16 chunks wire_frame b64decode
local_query_once-IsComplete_example =
    local_query_once-IsComplete py.floats loads robot info_request named bus wire info_report refl
      refl

abbrev read_bytes : List ℕ
read_bytes = 0 ∷ 171 ∷ 255 ∷ []

abbrev read_sample : Sample
read_sample = items (bytes_of read_bytes)

sample_hex-IsShort_example :
    ((text : Text)
      → sample_hex read_sample ≡ passed text
      → (ns : List ℕ) × IsShort ns read_sample × (unhex text ≡ ns))
    × ((ns : List ℕ)
        → IsShort ns read_sample
        → (text : Text) × (sample_hex read_sample ≡ passed text) × (unhex text ≡ ns))
sample_hex-IsShort_example = sample_hex-IsShort read_sample
