-- ===== src/Bluez/Samples.antt =====
-- A sample robot on a pinned adapter and what BlueZ says of it, for the runs at concrete inputs.
use ha_aiper_ble.Prelude.{String, Bool, true, false, Option, none, some, List, [], ◌∷◌}
use ha_aiper_ble.Prelude.Int.{pos}
use ha_aiper_ble.Prelude.Text.{Text, codes}
use ha_aiper_ble.Target.{Target}
use ha_aiper_ble.Value.{obj}
use ha_aiper_ble.Protocol.Hint.{items, sequence}
use ha_aiper_ble.Coordinator.Samples.{info_request, info_response}
use ha_aiper_ble.Coordinator.Report.{Report}
use ha_aiper_ble.Transport.Routes.{expected_service, expected_characteristic}
use ha_aiper_ble.Bluez.Objects.{Device, Objects}
use ha_aiper_ble.Bluez.Guards.{Fault, bluez_error, passed, failed, request}
use ha_aiper_ble.Bluez.Faults.{no_array}
use ha_aiper_ble.Bluez.Permits.{Body, chunk, Permits, char_interface, properties_interface}
use ha_aiper_ble.Transport.Samples.{reply}
use ha_aiper_ble.Bluez.Query.{Signal, Wire, arrive}
use ha_aiper_ble.Bluez.Probe.{Bus, Options}

abbrev pub robot : Target
robot = record {
  address = codes "AA:BB:CC:DD:EE:FF";
  name = codes "Aiper-Surfer S1-1234";
  adapter_path = some (codes "/org/bluez/hci0");
  adapter_address = some (codes "11:22:33:44:55:66");
}

abbrev pub robot_path : Text
robot_path = codes "/org/bluez/hci0/dev_AA_BB_CC_DD_EE_FF"

abbrev pub service_path : Text
service_path = codes "/org/bluez/hci0/dev_AA_BB_CC_DD_EE_FF/service0001"

abbrev pub char_path : Text
char_path = codes "/org/bluez/hci0/dev_AA_BB_CC_DD_EE_FF/service0001/char0002"

abbrev pub device : Bool → Device
device connected = record {
  address = some (codes "AA:BB:CC:DD:EE:FF");
  name = some (codes "Aiper_Surfer S1_1234");
  adapter = some (codes "/org/bluez/hci0");
  connected = some connected;
  services_resolved = some connected;
  paired = some false;
  bonded = some false;
  trusted = some false;
  blocked = some false;
  rssi = none;
  manufacturer = items ((some (pos 0), sequence (some (pos 0) ∷ [])) ∷ []);
}

abbrev pub known : Bool → Bool → Objects
known connected notifying =
    (
      codes "/org/bluez/hci0",
      record {
        adapter = some (record { address = some (codes "11:22:33:44:55:66"); powered = some true });
        device = none;
        service = none;
        char = none;
      },
    )
    ∷ (
      robot_path,
      record { adapter = none; device = some (device connected); service = none; char = none },
    )
    ∷ (
      service_path,
      record {
        adapter = none;
        device = none;
        service = some (record { device = some robot_path; uuid = some (codes expected_service) });
        char = none;
      },
    )
    ∷ (
      char_path,
      record {
        adapter = none;
        device = none;
        service = none;
        char = some (record {
          service = some service_path;
          uuid = some (codes expected_characteristic);
          flags = "notify" ∷ "write" ∷ [];
          notifying = some notifying;
          mtu = none;
        });
      },
    )
    ∷ []

-- an exchange that is answered
abbrev pub answered : Report → Option Fault × Option String × Report
answered r = (
  none,
  some "query_response",
  record r {
    status = some "query_complete";
    notification_cleanup = some "stop_confirmed";
    protocol_response = some (obj info_response);
  },
)

abbrev pub bus : Bus
bus = record {
  first = passed (known false false);
  second = passed (known false false);
  connect = passed tt;
  states = passed (device true) ∷ [];
  third = passed (known true false);
  sample = passed no_array;
  exchange = answered;
  disconnect = failed (bluez_error (codes "org.bluez.Error.NotConnected"));
  after = passed (device false);
}

abbrev pub querying : Options
querying = record { connect = true; read = false; query = some (request info_request) }

-- the permits of a query of two writes
abbrev pub plan : List Body
plan = chunk (1 ∷ 2 ∷ []) "request" ∷ chunk (3 ∷ []) "request" ∷ []

abbrev pub permits : Permits
permits = record {
  read_path = none;
  permit = none;
  query_path = some char_path;
  start_used = false;
  stop_used = false;
  write_plan = plan;
  sent = [];
}

-- the notification that answers the query
abbrev signal : Signal
signal = record {
  is_signal = true;
  sender = some (codes ":1.1");
  path = some char_path;
  interface = properties_interface;
  member = "PropertiesChanged";
  changed = char_interface;
  value = some reply;
}

abbrev pub wire : Wire
wire = record {
  objects = passed (known true false);
  owner = passed (codes ":1.1");
  add_match = passed tt;
  started = passed tt;
  startup = [];
  fresh = passed (known true true);
  writes = λ i. passed tt;
  arrived = λ i. [];
  waits = arrive (signal ∷ []) ∷ [];
  stopped = passed tt;
  remove_match = passed tt;
}
