-- ===== src/Transport/Samples.antt =====
-- A sample robot, its routes and endpoint, and sessions with it, for the runs at concrete inputs.
use ha_aiper_ble.Prelude.{true, false, Option, none, some, List, [], ◌∷◌, map}
use ha_aiper_ble.Prelude.Int.{pos}
use ha_aiper_ble.Prelude.Text.{Bytes, codes}
use ha_aiper_ble.Value.{Value, obj}
use ha_aiper_ble.Target.{Target}
use ha_aiper_ble.Protocol.Query.{wire_frame}
use ha_aiper_ble.Protocol.Hint.{items, sequence}
use ha_aiper_ble.Protocol.Decoder
use ha_aiper_ble.Coordinator.Samples.{info_response}
use ha_aiper_ble.Transport.Routes.{
  Advertised, Routes, Characteristic, Service, expected_service, expected_characteristic,
}
use ha_aiper_ble.Transport.Session.{os, arrive, Teardown, Link}
use ha_aiper_ble.Coordinator.Report.{Report, new_report}

abbrev pub robot : Target
robot = record {
  address = codes "AA:BB:CC:DD:EE:FF";
  name = codes "Aiper-Surfer S1-1234";
  adapter_path = none;
  adapter_address = none;
}

-- seen with the manufacturer data of the legacy protocol
abbrev pub seen : Advertised
seen = record {
  address = codes "AA:BB:CC:DD:EE:FF";
  name = some (codes "Aiper-Surfer S1-1234");
  manufacturer = items ((some (pos 0), sequence (some (pos 0) ∷ [])) ∷ []);
  secured = false;
  connected = false;
}

abbrev pub known : Routes
known = record { device = some (codes "AA:BB:CC:DD:EE:FF"); routes = seen ∷ [] }

abbrev pub legacy : Characteristic
legacy = record {
  uuid = codes expected_characteristic;
  handle = 14;
  properties = "notify" ∷ "write" ∷ [];
}

abbrev pub services : List Service
services = record { uuid = codes expected_service; characteristics = legacy ∷ [] } ∷ []

-- one notification, and how its text is read
abbrev pub reply : Decoder.Received
reply = Decoder.sequence (map (λ b. some (pos b)) (wire_frame (codes "{}")))

abbrev pub loads : Bytes → Option Value
loads text = some (obj info_response)

abbrev pub confirmed : Teardown
confirmed = record { stop = none; disconnect = none; still_connected = false }

-- a client whose disconnect times out
abbrev pub lost : Teardown
lost = record { stop = none; disconnect = some os; still_connected = true }

abbrev pub session : Teardown → Link
session t = record {
  routes_before = known;
  guard_before = none;
  established = none;
  routes_connected = known;
  guard_connected = none;
  services_connected = services;
  started = none;
  routes_notifying = known;
  guard_notifying = none;
  services_notifying = services;
  is_connected = true;
  writes = λ i. record { raised = none; arrived = [] };
  waits = arrive (reply ∷ []) ∷ [];
  owners = t ∷ [];
  diagnostics = record { backend = none; selected_route = none; before_connect = [] };
}

abbrev pub info_report : Report
info_report = new_report "INFO"
