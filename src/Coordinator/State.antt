-- ===== src/Coordinator/State.antt =====
-- The state of `AiperCoordinator` and of the `Runtime` of __init__.py that it shares, its constructor
-- and `effective_interval`. `loop.time()` and `update_interval` are counted in milliseconds; the
-- configured intervals stay in seconds.
use ha_aiper_ble.Prelude.{
  ℕ, ◌*◌, String, Bool, true, false, ◌&&◌, Option, none, some, List, [], ◌∷◌, leb, if◌then◌else◌,
  str_eq,
}
use ha_aiper_ble.Prelude.Int.{ℤ, pos, negsuc, leb_ℤ}
use ha_aiper_ble.Value.{Value, Fields}
use ha_aiper_ble.Coordinator.Report.{Report, signal_strength}

abbrev pub default_interval : ℕ
default_interval = 300

abbrev pub min_interval : ℕ
min_interval = 60

abbrev pub max_interval : ℕ
max_interval = 3600

abbrev pub slow_interval : ℕ
slow_interval = 300

abbrev pub post_control_seconds : ℕ
post_control_seconds = 20

abbrev pub seconds : ℕ → ℕ
seconds n = n * 1000

-- FAST_POLL_MIN_RSSI, -90
abbrev pub fast_poll_min_rssi : ℤ
fast_poll_min_rssi = negsuc 89

-- what is fixed when the coordinator is made
pub record Config : Type 0 where
  pub enabled : Bool
  pub interval : ℕ
  pub allow_missing : Bool
  pub use_local_adapter : Bool
  pub poll_queries : List String

pub record State : Type 0 where
  pub status : String
  pub error_code : Option String
  pub suspended : Bool
  pub issue : Option (Option String)  -- the repair issue, with its error_code placeholder
  pub failures : ℕ
  pub next_attempt : ℕ
  pub last_attempt_finished : Option ℕ
  pub update_interval : Option ℕ
  pub task_running : Bool  -- runtime.task and not runtime.task.done()
  pub closing : Bool  -- runtime.closing
  pub last_update_success : Bool
  pub values : Option Fields  -- self.data
  pub last_poll_queries : List Report
  pub water_temperature : Option Value
  pub water_temperature_at : Option ℕ
  pub post_control_timer : Option ℕ  -- when it fires

-- the setter of `suspended`
unfoldable pub set_suspended : Bool → State → State
set_suspended true s = record s { suspended = true; issue = some s.error_code }
set_suspended false s = record s { suspended = false; issue = none }

-- AiperCoordinator.__init__, of the fields that its options give
unfoldable pub init_interval : Option ℤ → ℕ
init_interval (some (pos n)) =
    if leb min_interval n && leb n max_interval then n else default_interval
init_interval _ = default_interval

-- MODEL_POLL_QUERIES, with the S1's for any other model
unfoldable pub poll_queries : String → Bool → List String
poll_queries model use_local_adapter =
    if str_eq model "EcoSurfer M2"
    then if use_local_adapter then "INFO" ∷ [] else "OpInfo" ∷ "INFO" ∷ "WARN" ∷ []
    else if use_local_adapter
    then "S1_INFO" ∷ "INFO" ∷ []
    else "S1_INFO" ∷ "OpInfo" ∷ "INFO" ∷ "WARN" ∷ []

-- The entry's options: whether each flag `is True`, and poll_interval if its type is int; and the
-- model that the target's name gives, if any.
pub record Options : Type 0 where
  pub polling_enabled : Bool
  pub confirm_exclusive_access : Bool
  pub poll_interval : Option ℤ
  pub allow_missing_advertisement : Bool
  pub use_local_adapter : Bool

abbrev model_or_default : Option String → String
model_or_default none = "Surfer S1"
model_or_default (some model) = model

unfoldable pub init_config : Options → Option String → Config
unfolding init_interval poll_queries
init_config options model = record {
  enabled = options.polling_enabled && options.confirm_exclusive_access;
  interval = init_interval options.poll_interval;
  allow_missing = options.allow_missing_advertisement;
  use_local_adapter = options.use_local_adapter;
  poll_queries = poll_queries (model_or_default model) options.use_local_adapter;
}

unfoldable pub init_state : Config → State
init_state c = record {
  status = if c.enabled then "waiting" else "disabled";
  error_code = none;
  suspended = false;
  issue = none;
  failures = 0;
  next_attempt = 0;
  last_attempt_finished = none;
  update_interval = if c.enabled then some (seconds c.interval) else none;
  task_running = false;
  closing = false;
  last_update_success = false;
  values = none;
  last_poll_queries = [];
  water_temperature = none;
  water_temperature_at = none;
  post_control_timer = none;
}

-- effective_interval; `monitor` is the passive monitor's reading, if it is active
unfoldable pub effective_interval : Config → Option (Option ℤ) → List Report → ℕ
unfolding signal_strength
effective_interval c monitor reports =
    if leb slow_interval c.interval
    then c.interval
    else (let signal : Option ℤ = elim monitor [
      | none ↦ signal_strength reports
      | some rssi ↦ rssi
    ] in
        elim signal [
          | none ↦ slow_interval
          | some rssi ↦ if leb_ℤ fast_poll_min_rssi rssi then c.interval else slow_interval
        ])
