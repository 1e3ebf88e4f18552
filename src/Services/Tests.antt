-- ===== src/Services/Tests.antt =====
-- Runs at concrete inputs.
use ha_aiper_ble.Prelude.{refl, Bool, true, false, some}
use ha_aiper_ble.Prelude.Text.{codes}
use ha_aiper_ble.Bluez.Guards.{passed}
use ha_aiper_ble.Bluez.Samples.{robot, bus}
use ha_aiper_ble.Outcome.{Exception}
use ha_aiper_ble.Value.{Fields}
use ha_aiper_ble.Coordinator.State.{State}
use ha_aiper_ble.Coordinator.Samples.{py, config, waiting}
use ha_aiper_ble.Transport.Samples.{loads}
use ha_aiper_ble.Services.{
  Service, query_opinfo_proxy_trace, discover, Call, Confirmation, proxy_logging, Runtime,
  never_run,
}
use ha_aiper_ble.Services.Probing.{Local, no_query, run_diagnostic}
use ha_aiper_ble.Services.Serve.{serve}
use ha_aiper_ble.Services.Needs.{Refuses, needs}
use ha_aiper_ble.Services.Guards.{serve-Refuses}
use ha_aiper_ble.Services.Ends.{IsEnded, run_diagnostic-IsEnded}

abbrev but_proxy_logging : Confirmation → Bool
but_proxy_logging proxy_logging = false
but_proxy_logging _ = true

abbrev call_of : Service → Call
call_of service = record {
  service = service;
  return_response = true;
  confirmed = but_proxy_logging;
  query_keyword = "MODE";
  proxy_entry_id = some (codes "entry");
  checksum_mode = "omit_empty_crc";
  write_mode = "request";
  query_type = "OpInfo";
}

abbrev loaded : Runtime
loaded = record { target = robot; last_result = never_run; has_coordinator = true; state = waiting }

abbrev failing : Exception → State → State
failing e s = record s { last_update_success = false }

abbrev taking : Fields → State → State
taking values s = record s { values = some values; last_update_success = true }

abbrev local : Local
local = record { opened = passed tt; bus = bus; named = λ s. s; closing = false }

serve-Refuses_example :
    Refuses
      (λ w. serve failing taking loads py config w (call_of query_opinfo_proxy_trace) loaded)
      loaded
unfolding needs
serve-Refuses_example =
    serve-Refuses failing taking loads py config (call_of query_opinfo_proxy_trace) loaded
      proxy_logging refl refl

run_diagnostic-IsEnded_example :
    IsEnded loaded (run_diagnostic failing local (call_of discover) no_query loaded)
run_diagnostic-IsEnded_example =
    run_diagnostic-IsEnded failing (λ e s. refl) local (call_of discover) no_query loaded
