-- ===== src/Proxy/Tests.antt =====
-- Runs at concrete inputs.
use ha_aiper_ble.Prelude.{
  ℕ, ◌-◌, ◌≡◌, refl, ◌&&◌, Option, none, some, List, [], ◌∷◌, ◌++◌, leb, if◌then◌else◌,
}
use ha_aiper_ble.Prelude.Int.{pos}
use ha_aiper_ble.Prelude.Text.{Bytes, codes}
use ha_aiper_ble.Proxy.Events.{stage, value, recognise}
use ha_aiper_ble.Proxy.Header.{header, modern_header}
use ha_aiper_ble.Proxy.Lines.{strip_ansi}
use ha_aiper_ble.Proxy.Capture.{Capture, new_capture}
use ha_aiper_ble.Proxy.Capture.Bounds.{receive_all}

abbrev digit_of : ℕ → Option ℕ
digit_of c = if leb b'0' c && leb c b'9' then some (c - b'0') else none

abbrev lines : List Bytes
lines =
    codes "[12:34:56][D][bluetooth_proxy:123]: [0] [AA:BB:CC:DD:EE:FF] Connecting v3 without cache"
    ∷ codes "[D][bluetooth_connection:88][ble]: [0] Connection open failed, status=133"
    ∷ codes "[W][bluetooth_connection:88]: [0] Connection open"
    ∷ (27 ∷ codes "[0;36m[VV][esp32_ble_client:188]: [1] [aa:bb:cc:dd:ee:ff] ESP_GATTC_OPEN_EVT"
        ++ 27 ∷ codes "[0m\n")
    ∷ []

abbrev target : Capture
target = new_capture (codes "AA:BB:CC:DD:EE:FF")

-- The bound slot gives the second line to the target, and not the third, since the second frees it.
captured_lines :
    (receive_all digit_of (λ b. b) lines target).events
    ≡ record { event = "proxy_connect_request"; attribution = some "target_address"; readings = [] }
      ∷ record {
        event = "open_error";
        attribution = some "bound_slot";
        readings = ("status", value (pos 133)) ∷ [];
      }
      ∷ record {
        event = "gatt_event";
        attribution = none;
        readings = ("stage", stage (codes "OPEN")) ∷ [];
      }
      ∷ []
unfolding receive_all recognise header modern_header strip_ansi new_capture
captured_lines = refl
