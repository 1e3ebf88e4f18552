-- ===== src/Coordinator/Report.antt =====
-- The report that an exchange over a transport fills in, as far as coordinator.py reads or writes it,
-- and the signal of the route that a report names (`last_route`, `signal_strength`).
use ha_aiper_ble.Prelude.{
  ℕ, String, Bool, true, false, ◌||◌, Option, none, some, List, [], ◌∷◌, if◌then◌else◌, str_eq,
}
use ha_aiper_ble.Prelude.Int.{ℤ}
use ha_aiper_ble.Value.{Value}

-- SUSPEND_CODES
unfoldable pub suspends : Option String → Bool
suspends none = false
suspends (some code) =
    str_eq code "cleanup_requires_review"
    || str_eq code "ecdh_unsupported"
    || str_eq code "ecdh_gatt_unsupported"
    || str_eq code "protocol_malformed"
    || str_eq code "unsupported_model"
    || str_eq code "security_gated_endpoint"

-- report.get(key) == text
abbrev pub is_text : Option String → String → Bool
is_text none text = false
is_text (some s) text = str_eq s text

-- report.setdefault(key, value)
abbrev pub or_default {ℓ} : {A : Type ℓ} → Option A → A → Option A
or_default none v = some v
or_default (some w) v = some w

-- one candidate of a route snapshot
pub record Route : Type 0 where
  pub route_id : Option String
  pub scanner_type : Option String
  pub rssi_dbm : Option ℤ

pub record Diagnostics : Type 0 where
  pub backend : Option String
  pub selected_route : Option String
  pub before_connect : List Route

-- The entries of a report that the coordinator reads or writes; an absent key is `none`.
pub record Report : Type 0 where
  pub query_type : String
  pub cycle_query_index : Option ℕ
  pub since_previous : Option ℕ
  pub status : Option String
  pub phase : Option String
  pub failure_stage : Option String
  pub error_code : Option String
  pub error_category : Option String
  pub cleanup : Option String
  pub notification_cleanup : Option String
  pub signal_cleanup : Option String
  pub log_cleanup : Option String
  pub write_attempts : Option ℕ
  pub preconnect_rssi_dbm : Option ℤ
  pub diagnostics : Option Diagnostics
  pub protocol_response : Option Value

abbrev pub new_report : String → Report
new_report query_type = record {
  query_type = query_type;
  cycle_query_index = none;
  since_previous = none;
  status = none;
  phase = none;
  failure_stage = none;
  error_code = none;
  error_category = none;
  cleanup = none;
  notification_cleanup = none;
  signal_cleanup = none;
  log_cleanup = none;
  write_attempts = none;
  preconnect_rssi_dbm = none;
  diagnostics = none;
  protocol_response = none;
}

-- the last report of a list, `last_poll_queries[-1]`
unfoldable pub last_report : List Report → Option Report
last_report [] = none
last_report (r ∷ []) = some r
last_report (r ∷ r' ∷ rs) = last_report (r' ∷ rs)

-- whether `candidate.get("route_id") == diagnostics.get("selected_route")`
unfoldable pub same_route : Option String → Option String → Bool
same_route none none = true
same_route none (some b) = false
same_route (some a) none = false
same_route (some a) (some b) = str_eq a b

-- route["rssi_dbm"] after the loop over the candidates, the last match having been written last
unfoldable pub route_rssi : Option String → List Route → Option ℤ → Option ℤ
unfolding same_route
route_rssi selected [] found = found
route_rssi selected (r ∷ rs) found =
    route_rssi selected rs (if same_route r.route_id selected then r.rssi_dbm else found)

abbrev or_else {ℓ} : {A : Type ℓ} → Option A → Option A → Option A
or_else none b = b
or_else (some a) b = some a

unfoldable pub report_rssi : Report → Option ℤ
unfolding route_rssi
report_rssi r =
    or_else
      (elim r.diagnostics [
        | none ↦ none
        | some d ↦ route_rssi d.selected_route d.before_connect none
      ])
      r.preconnect_rssi_dbm

-- signal_strength, from last_route
unfoldable pub signal_strength : List Report → Option ℤ
unfolding last_report report_rssi
signal_strength reports = elim (last_report reports) [ none ↦ none | some r ↦ report_rssi r ]
