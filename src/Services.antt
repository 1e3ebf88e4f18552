-- ===== src/Services.antt =====
-- The services that `async_setup` of __init__.py registers: the call, the state of the entry that it
-- names, and what it comes to. Calls of Home Assistant's dispatcher are counted.
pub mod Probing
pub mod Answers
pub mod Serve
pub mod Needs
pub mod Guards
pub mod Ends
mod Tests
use ha_aiper_ble.Prelude.{
  ℕ, String, Bool, true, false, ◌||◌, Option, none, some, if◌then◌else◌, str_eq,
}
use ha_aiper_ble.Prelude.Text.{Text}
use ha_aiper_ble.Value.{Value}
use ha_aiper_ble.Outcome.{Exception}
use ha_aiper_ble.Target.{Target}
use ha_aiper_ble.Coordinator.Report.{Report}
use ha_aiper_ble.Coordinator.State.{State}
use ha_aiper_ble.Coordinator.Isolated.{IsolatedResult}
use ha_aiper_ble.Controls.Call.{ControlResult}
use ha_aiper_ble.Protocol.Preview.{Preview}

-- The fields of a call that are booleans; all but `legacy_probe` confirm something.
pub data Confirmation : Type 0 where
  app_closed safe_to_move query_write notifications proxy_logging read_only legacy_probe :
      Confirmation

-- The services that are registered, by their names.
pub data Service : Type 0 where
  start_cleaning stop_cleaning query_s1_info query_opinfo query_info query_warn
        query_opinfo_local_bleak query_opinfo_proxy_trace query_exploratory poll_now
        protocol_preview query_once listen_once preflight read_once discover :
      Service

unfoldable pub name_of : Service → String
name_of start_cleaning = "start_cleaning"
name_of stop_cleaning = "stop_cleaning"
name_of query_s1_info = "query_s1_info"
name_of query_opinfo = "query_opinfo"
name_of query_info = "query_info"
name_of query_warn = "query_warn"
name_of query_opinfo_local_bleak = "query_opinfo_local_bleak"
name_of query_opinfo_proxy_trace = "query_opinfo_proxy_trace"
name_of query_exploratory = "query_exploratory"
name_of poll_now = "poll_now"
name_of protocol_preview = "protocol_preview"
name_of query_once = "query_once"
name_of listen_once = "listen_once"
name_of preflight = "preflight"
name_of read_once = "read_once"
name_of discover = "discover"

-- call.service == name
unfoldable pub is_named : Service → String → Bool
unfolding name_of
is_named service name = str_eq (name_of service) name

-- `confirmed` is whether call.data.get(key) is True. The schemas leave no other values but False and,
-- where a service has no such field, none.
pub record Call : Type 0 where
  pub service : Service
  pub return_response : Bool
  pub confirmed : Confirmation → Bool
  pub query_keyword : String
  pub proxy_entry_id : Option Text
  pub checksum_mode : String
  pub write_mode : String
  pub query_type : String

-- runtime.last_result, of the entries that are read again
pub record LastResult : Type 0 where
  pub mode : Option Text
  pub status : Option String
  pub error_code : Option String
  pub failure_stage : Option String
  pub cleanup : Option String
  pub cleanup_error_code : Option String
  pub notification_cleanup : Option String

-- Runtime, with the coordinator that it may have. `task` and `closing` of the runtime are
-- `task_running` and `closing` of the state.
pub record Runtime : Type 0 where
  pub target : Target
  pub last_result : LastResult
  pub has_coordinator : Bool
  pub state : State

abbrev pub never_run : LastResult
never_run = record {
  mode = none;
  status = some "never_run";
  error_code = none;
  failure_stage = none;
  cleanup = none;
  cleanup_error_code = none;
  notification_cleanup = none;
}

pub data Response : Type 0 where
  controlled : ControlResult → Response
  queried : IsolatedResult → Response
  polled : String → Option Value → Response
  poll_failed : String → Option String → ℕ → Response
  previewed : Preview → Response
  probed : Report → Response

-- What the caller gets: a validation error by its key, one with a status, one with the seconds of the
-- cooldown, a failure by its key and status, another exception, None, or a response.
pub data Answer : Type 0 where
  invalid : String → Answer
  invalid_status : String → Option String → Answer
  cooling : ℕ → Answer
  failure : String → Option String → Answer
  raised : Exception → Answer
  nothing : Answer
  responded : Response → Answer

pub record Served : Type 0 where
  pub answer : Answer
  pub runtime : Runtime
  pub dispatched : ℕ

-- CONTROL_SERVICES
unfoldable pub is_control_service : Service → Bool
unfolding is_named
is_control_service service = is_named service "start_cleaning" || is_named service "stop_cleaning"

-- ISOLATED_QUERIES.get(service)
unfoldable pub isolated_query_of : Service → Option String
unfolding is_named
isolated_query_of service =
    if is_named service "query_s1_info"
    then some "S1_INFO"
    else if is_named service "query_opinfo"
    then some "OpInfo"
    else if is_named service "query_info"
    then some "INFO"
    else if is_named service "query_warn"
    then some "WARN"
    else none

abbrev is_found : Option String → Bool
unfolding is_named
is_found none = false
is_found (some t) = true

-- the services of one query outside the schedule
unfoldable pub is_query_service : Service → Bool
unfolding isolated_query_of is_named
is_query_service service =
    is_found (isolated_query_of service)
    || is_named service "query_opinfo_local_bleak"
    || is_named service "query_opinfo_proxy_trace"
    || is_named service "query_exploratory"
