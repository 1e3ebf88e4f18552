-- ===== src/Pinned/Tests.antt =====
-- Runs at concrete inputs.
use ha_aiper_ble.Prelude.{◌≡◌, refl, true, false, Option, none, some, [], ◌∷◌}
use ha_aiper_ble.Prelude.Int.{pos}
use ha_aiper_ble.Prelude.Text.{Text, codes}
use ha_aiper_ble.Value.Json.{dumps, utf8}
use ha_aiper_ble.Target.{Target, model_of}
use ha_aiper_ble.Protocol.Hint.{items}
use ha_aiper_ble.Protocol.Crc.{crc16}
use ha_aiper_ble.Protocol.Codec.{chunks, b64decode}
use ha_aiper_ble.Protocol.Query.{wire_frame}
use ha_aiper_ble.Coordinator.Samples.{py, info_request}
use ha_aiper_ble.Coordinator.Report.{is_text}
use ha_aiper_ble.Transport.Samples.{robot, loads, confirmed, session, info_report}
use ha_aiper_ble.Bluez.Objects.{Device}
use ha_aiper_ble.Pinned.Routes.{Slots, Peer, KnownRoute, Manager, Backend}
use ha_aiper_ble.Outcome.{ok}
use ha_aiper_ble.Pinned.Local
use ha_aiper_ble.Pinned.Local.{seen, LocalWorld, local_query, select_local}
use ha_aiper_ble.Pinned.Local.Slots.{IsFair, select_local-IsFair}
use ha_aiper_ble.Pinned.Local.Ends.{IsPinned, local_query-IsPinned}
use ha_aiper_ble.Pinned.Proxy
use ha_aiper_ble.Pinned.Proxy.{Info, Entry, Moment}
use ha_aiper_ble.Pinned.Trace.{ProxyWorld, proxy_query}
use ha_aiper_ble.Pinned.Trace.Safe.{IsSafe, proxy_query-IsSafe}
use ha_aiper_ble.Pinned.Trace.Ends.{IsClosed, proxy_query-IsClosed}

abbrev hci : Text
hci = codes "/org/bluez/hci0"

abbrev adapter : Text
adapter = codes "11:22:33:44:55:66"

-- the sample's robot, on an adapter
abbrev pinned : Target
pinned = record robot { adapter_path = some hci; adapter_address = some adapter }

abbrev peer : Option Text → Peer
peer source = record {
  identity = 7;
  address = robot.address;
  name = some robot.name;
  details = some (record {
    path = some (codes "/org/bluez/hci0/dev_AA_BB_CC_DD_EE_FF");
    source = source;
    adapter = some hci;
    is_used = false;
  });
}

abbrev bluez_client : Local.Client
bluez_client = record { is_bluez = true; scanner_source = some adapter; device = some (peer none) }

-- what BlueZ says of a robot that is gone
abbrev dropped : Device
dropped = record {
  address = some robot.address;
  name = some robot.name;
  adapter = some hci;
  connected = some false;
  services_resolved = some false;
  paired = some false;
  bonded = some false;
  trusted = some false;
  blocked = some false;
  rssi = none;
  manufacturer = items [];
}

abbrev local_world : LocalWorld
local_world = record {
  link = session confirmed;
  versions = none;
  supported = true;
  connected = bluez_client;
  notifying = bluez_client;
  connects = true;
  looked = seen dropped;
}

local_query-IsPinned_example :
    IsPinned py.floats loads pinned info_request local_world info_report
      (local_query py.floats loads pinned info_request local_world info_report)
unfolding local_query model_of dumps utf8 crc16 chunks wire_frame b64decode
local_query-IsPinned_example =
    local_query-IsPinned py.floats loads pinned info_request local_world info_report refl (λ h. cc)
      refl refl

-- one idle route over the adapter, and the backend that is made for it
abbrev local_manager : Manager
local_manager = record {
  routes =
      record {
        scanner = record {
          identity = 3;
          source = some adapter;
          has_connector = false;
          connectable = true;
          timestamp = some 95000;
          slots = some (record { free = pos 1; total = pos 3; allocated = 2 });
          in_progress = false;
        };
        device = peer none;
        local_name = none;
      }
      ∷ [];
  registered = λ source. some 3;
  now = 100000;
}

abbrev make_backend : KnownRoute → Option Backend
make_backend r = some (record { source = none; scanner = 3; device = 7; is_bluez = true })

local_selected :
    (select_local make_backend pinned hci adapter local_manager).backend
    ≡ ok (record { source = none; scanner = 3; device = 7; is_bluez = true })
unfolding select_local
local_selected = refl

select_local-IsFair_example :
    IsFair make_backend pinned hci adapter local_manager
      (select_local make_backend pinned hci adapter local_manager)
select_local-IsFair_example = select_local-IsFair make_backend pinned hci adapter local_manager

abbrev proxy_source : Text
proxy_source = codes "66:55:44:33:22:11"

abbrev info : Info
info = record { mac_address = proxy_source; bluetooth_mac = none; version = "2026.9.0" }

abbrev entry : Entry
entry = record {
  identity = 1;
  runtime = 2;
  is_esphome = true;
  available = true;
  bluetooth_device = some proxy_source;
  info = some info;
  is_connected = true;
}

abbrev idle : Slots
idle = record { free = pos 3; total = pos 3; allocated = 0 }

abbrev manager : Manager
manager = record {
  routes =
      record {
        scanner = record {
          identity = 4;
          source = some proxy_source;
          has_connector = true;
          connectable = true;
          timestamp = some 95000;
          slots = some idle;
          in_progress = false;
        };
        device = peer (some proxy_source);
        local_name = none;
      }
      ∷ [];
  registered = λ source. some 4;
  now = 100000;
}

abbrev moment : Moment
moment = record { log_connected = true; entry = some entry; limit_reached = false }

abbrev proxy_client : Proxy.Client
proxy_client = record {
  esphome_source = some proxy_source;
  scanner_source = some proxy_source;
  device = some (peer (some proxy_source));
}

abbrev proxy_world : ProxyWorld
proxy_world = record {
  versions = none;
  supported = true;
  entry = some entry;
  manager = manager;
  has_address = true;
  log_opened = none;
  observed = info;
  subscribed = none;
  ordered = none;
  before_query = moment;
  before_connect = moment;
  connected = (moment, proxy_client);
  notifying = (moment, proxy_client);
  link = session confirmed;
  connects = true;
  slept = none;
  log_connected = true;
  disabled = none;
  log_closed = none;
  still_connected = false;
  aftermath = record {
    slots = some idle;
    in_progress = some 0;
    available = true;
    is_connected = true;
  };
}

-- The query is sent.
proxy_run :
    is_text
      (proxy_query py.floats loads robot info_request proxy_world info_report).report.status
      "query_complete"
    ≡ true
unfolding proxy_query model_of dumps utf8 crc16 chunks wire_frame b64decode
proxy_run = refl

proxy_query-IsSafe_example :
    IsSafe robot info_request proxy_world
      (proxy_query py.floats loads robot info_request proxy_world info_report).written
proxy_query-IsSafe_example =
    proxy_query-IsSafe py.floats loads robot info_request proxy_world info_report

proxy_query-IsClosed_example :
    IsClosed proxy_world
      (proxy_query py.floats loads robot info_request proxy_world info_report).report
unfolding proxy_query model_of dumps utf8 crc16 chunks wire_frame b64decode
proxy_query-IsClosed_example =
    proxy_query-IsClosed py.floats loads robot info_request proxy_world info_report true refl
      (λ h. cc) refl
