-- ===== src/Coordinator/Samples.antt =====
-- Sample entries, transports and states for the runs at concrete inputs.
use ha_aiper_ble.Prelude.{true, false, ◌&&◌, none, some, [], ◌∷◌, leb}
use ha_aiper_ble.Prelude.Int.{pos}
use ha_aiper_ble.Prelude.Text.{codes}
use ha_aiper_ble.Value.{Fields, obj, int, str, field, end}
use ha_aiper_ble.Protocol.Query.{Request, query}
use ha_aiper_ble.Coordinator.State.{Config, State, init_state}
use ha_aiper_ble.Coordinator.Verified.{Python}
use ha_aiper_ble.Coordinator.Judge.{Transport}
use ha_aiper_ble.Coordinator.Settle.{Meeting}

abbrev pub py : Python
py = record {
  floats = record { to_float = λ s. s; div10 = λ s. s };
  is_printable = λ c. leb 32 c && leb c 126;
}

-- an entry of a Surfer S1 on the local adapter, polling INFO only
abbrev pub config : Config
config = record {
  enabled = true;
  interval = 300;
  allow_missing = false;
  use_local_adapter = true;
  poll_queries = "INFO" ∷ [];
}

abbrev pub info_data : Fields
info_data = field (codes "report") (str (codes "+INFO:1,2,80\r\n")) end

abbrev pub info_response : Fields
info_response = field (codes "type") (str (codes "Machine")) (
    field (codes "data") (obj info_data)
      (field (codes "res") (int (pos 0)) (field (codes "chksum") (int (pos 37695)) end)))

-- what is read off that reply
abbrev pub info_result : Fields
info_result =
    field (codes "info_status_raw") (int (pos 1))
      (field (codes "info_mode_raw") (int (pos 2)) (field (codes "battery") (int (pos 80)) end))

abbrev pub answering : Transport
answering report request = record {
  report = record report {
    status = some "query_complete";
    cleanup = some "disconnected_confirmed";
    notification_cleanup = some "stop_confirmed";
    protocol_response = some (obj info_response);
  };
  raised = none;
  cancel_requested = false;
  deadline_expired = false;
  closing = false;
  finished = 2000;
}

-- a robot whose cleanup could not be confirmed
abbrev pub unclean : Transport
unclean report request = record {
  report = record report {
    status = some "cleanup_requires_review";
    error_code = some "cleanup_requires_review";
  };
  raised = none;
  cancel_requested = false;
  deadline_expired = false;
  closing = false;
  finished = 2000;
}

abbrev pub meeting : Transport → Meeting
meeting transport = record {
  now = 1000;
  execute = transport;
  since = λ i. none;
  utcnow = 1700000000;
  finished = 3000;
  monitor = none;
}

abbrev pub waiting : State
waiting = init_state config

abbrev pub info_request : Request
info_request = query (record {
  checksum_mode = "omit_empty_crc";
  write_mode = "request";
  allow_missing_advertisement = false;
  query_type = "INFO";
  exploratory = false;
})
