-- ===== src/Proxy/Events.antt =====
-- EVENTS and MODERN_EVENTS of proxy_trace.py: the messages that are known, and what each is kept as.
pub mod Vocabulary
use ha_aiper_ble.Prelude.{
  ℕ, zero, suc, ◌+◌, ◌-◌, ◌*◌, String, not, Option, none, some, List, [], ◌∷◌, leb, ◌==◌,
  if◌then◌else◌, str_eq,
}
use ha_aiper_ble.Prelude.Int.{ℤ, pos, negsuc}
use ha_aiper_ble.Prelude.Text.{Text}
use ha_aiper_ble.Proxy.Pattern.{
  Piece, lit, digits, number, signed, hex_code, kind, word, Pattern, full_match,
}

-- A message, its event, and the names of its groups.
pub record Known : Type 0 where
  pub pattern : Pattern
  pub event : String
  pub fields : List String

abbrev known : Pattern → String → List String → Known
known pattern event fields = record { pattern = pattern; event = event; fields = fields }

abbrev plain : String → String → Known
plain message event = known (lit message ∷ []) event []

abbrev coded : String → String → Known
coded message event = known (lit message ∷ number ∷ []) event ("status" ∷ [])

abbrev failed : String → String → Known
failed message event = known (lit message ∷ signed ∷ []) event ("status" ∷ [])

abbrev sized : String → String → Known
sized message event = known (lit message ∷ number ∷ lit ")" ∷ []) event ("mtu" ∷ [])

-- EVENTS
abbrev pub legacy_events : List Known
legacy_events =
    known (lit "0x" ∷ kind ∷ lit " Connecting" ∷ []) "connecting" ("address_type" ∷ [])
    ∷ plain "Connection open" "connection_open"
    ∷ coded "Connection open error, status=" "open_error"
    ∷ plain "Searching for services" "services_start"
    ∷ known
        (lit "ESP_GATTC_"
          ∷ word ("OPEN" ∷ "CONNECT" ∷ "SEARCH_CMPL" ∷ "CLOSE" ∷ [])
          ∷ lit "_EVT"
          ∷ [])
        "gatt_event" ("stage" ∷ [])
    ∷ known (lit "cfg_mtu status " ∷ number ∷ lit ", mtu " ∷ number ∷ []) "mtu"
        ("status" ∷ "mtu" ∷ [])
    ∷ known (lit "cfg_mtu failed, mtu " ∷ number ∷ lit ", status " ∷ number ∷ []) "mtu_failed"
        ("mtu" ∷ "status" ∷ [])
    ∷ known (lit "ESP_GATTC_DISCONNECT_EVT, reason 0x" ∷ hex_code ∷ []) "disconnect" ("reason" ∷ [])
    ∷ plain "Service discovery complete" "services_complete"
    ∷ known (lit "Disconnecting (conn_id: " ∷ digits ∷ lit ")." ∷ []) "disconnecting" []
    ∷ plain "Remote closed during discovery" "remote_closed_during_discovery"
    ∷ plain "Disconnect before connected, disconnect scheduled" "disconnect_scheduled"
    ∷ known (lit "Disconnect requested, but already " ∷ word ("IDLE" ∷ "DISCONNECTING" ∷ []) ∷ [])
        "disconnect_state" ("stage" ∷ [])
    ∷ plain "DISCONNECT_EVT after CLOSE_EVT, already IDLE" "already_idle"
    ∷ plain "Timeout waiting for CLOSE_EVT after disconnect, forcing IDLE" "close_timeout"
    ∷ coded "esp_ble_gattc_open error, status=" "open_error"
    ∷ []

-- MODERN_EVENTS
abbrev pub modern_events : List Known
modern_events =
    known (lit "0x" ∷ kind ∷ lit " Connecting" ∷ []) "connecting" ("address_type" ∷ [])
    ∷ plain "Connection open" "connection_open"
    ∷ coded "Connection open failed, status=" "open_error"
    ∷ coded "MTU exchange failed, status=" "mtu_failed"
    ∷ coded "esp_ble_gattc_send_mtu_req failed, status=" "mtu_request_failed"
    ∷ plain "Service discovery complete" "services_complete"
    ∷ known (lit "DISCONNECT_EVT reason=0x" ∷ hex_code ∷ []) "disconnect" ("reason" ∷ [])
    ∷ plain "Remote closed during discovery" "remote_closed_during_discovery"
    ∷ plain "Disconnect scheduled" "disconnect_scheduled"
    ∷ known (lit "Disconnecting (conn_id: " ∷ digits ∷ lit ")" ∷ []) "disconnecting" []
    ∷ plain "Timeout waiting for teardown, forcing IDLE" "close_timeout"
    ∷ plain "Connect rejected, slot busy" "slot_busy"
    ∷ plain "Connect rejected, GATT app not registered" "gatt_unregistered"
    ∷ known (lit "OPEN_EVT in IDLE state (status=" ∷ number ∷ lit ")" ∷ []) "late_open"
        ("status" ∷ [])
    ∷ plain "OPEN_EVT in unexpected state" "unexpected_open"
    ∷ sized "Discovery finished, sending connected (mtu=" "connected_report"
    ∷ sized "Connected with cached services, sending connected (mtu=" "cached_connected_report"
    ∷ known (lit "Disconnected, reason=0x" ∷ hex_code ∷ lit ", freeing slot" ∷ []) "slot_freed"
        ("reason" ∷ [])
    ∷ failed "Service discovery failed, err=" "discovery_failed"
    ∷ failed "discover_services failed, err=" "discovery_request_failed"
    ∷ failed "connect failed, err=" "connect_rejected"
    ∷ failed "disconnect while backend idle, err=" "backend_idle"
    ∷ plain "Connected reply deferred, TCP buffer full" "connected_reply_deferred"
    ∷ []

-- What is kept of a group: a word of a fixed list, or a number.
pub data Reading : Type 0 where
  stage : Text → Reading
  value : ℤ → Reading

unfoldable pub hex_value : ℕ → ℕ
hex_value c = if leb c b'9' then c - b'0' else if leb b'a' c then c - b'a' + 10 else c - b'A' + 10

-- int(text, base), of the values of the digits
unfoldable pub int_of : (ℕ → ℕ) → ℕ → ℕ → Text → ℕ
int_of value_of base n [] = n
int_of value_of base n (c ∷ s) = int_of value_of base (n * base + value_of c) s

abbrev negative : ℕ → ℤ
negative zero = pos 0
negative (suc n) = negsuc n

module _ (digit_of : ℕ → Option ℕ) where
  abbrev digit_or_zero : ℕ → ℕ
  digit_or_zero c = elim (digit_of c) [ none ↦ 0 | some d ↦ d ]

  unfoldable pub decimal_of : Text → ℤ
  unfolding int_of
  decimal_of [] = pos 0
  decimal_of (c ∷ s) =
      if c == b'-'
      then negative (int_of digit_or_zero 10 0 s)
      else pos (int_of digit_or_zero 10 0 (c ∷ s))

  unfoldable pub reading_of : String → Text → Reading
  unfolding int_of hex_value decimal_of
  reading_of field text =
      if str_eq field "stage"
      then stage text
      else if str_eq field "reason"
      then value (pos (int_of hex_value 16 0 text))
      else value (decimal_of text)

  -- zip(fields, groups)
  unfoldable pub readings : List String → List Text → List (String × Reading)
  unfolding reading_of
  readings (f ∷ fs) (t ∷ ts) = (f, reading_of f t) ∷ readings fs ts
  readings _ _ = []

  -- the first message of the table that matches, with its event and what is kept
  unfoldable pub recognise : List Known → Text → Option (String × List (String × Reading))
  unfolding full_match readings
  recognise [] body = none
  recognise (k ∷ ks) body =
      let later = recognise ks body in
      elim (full_match digit_of k.pattern body) [
        | none ↦ later
        | some groups ↦ some (k.event, readings k.fields groups)
      ]
