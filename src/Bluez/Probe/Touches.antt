-- ===== src/Bluez/Probe/Touches.antt =====
-- When a run of `probe` (probe.py) calls api.disconnect.
use ha_aiper_ble.Prelude.{◌≡◌, ◌≢◌, none, some}
use ha_aiper_ble.Target.{Target}
use ha_aiper_ble.Coordinator.Report.{Report}
use ha_aiper_ble.Bluez.Probe.{Bus, Options, Run}
use ha_aiper_ble.Bluez.Probe.Ends.{IsGone}
use ha_aiper_ble.Bluez.Probe.Attempts.{IsConnectable}

-- No disconnect has been asked for yet.
abbrev Quiet : Run → Type 0
Quiet x = x.1.disconnects ≡ 0

module _ (bus : Bus) (t : Target) (options : Options) where
  -- what the one disconnect of a run comes to
  pub record IsTouched (x : Run) : Type 0 where
    pub once : x.1.disconnects ≡ 1
    pub connectable : IsConnectable bus t options.query
    pub gone : x.0 ≡ none → x.1.report.status ≢ some "cleanup_requires_review" → IsGone bus x.1
