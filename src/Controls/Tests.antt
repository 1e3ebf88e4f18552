-- ===== src/Controls/Tests.antt =====
-- The theorems on controls, manual polls and isolated queries at concrete inputs.
use ha_aiper_ble.Prelude.{◌+◌, ◌<◌, ◌≡◌, refl, inr, true, false, none, some, []}
use ha_aiper_ble.Prelude.Int.{pos}
use ha_aiper_ble.Outcome.{Exception, ok}
use ha_aiper_ble.Value.{Fields, int, get}
use ha_aiper_ble.Value.Json.{dumps, utf8}
use ha_aiper_ble.Protocol.Crc.{crc16}
use ha_aiper_ble.Protocol.Telemetry.{query_telemetry}
use ha_aiper_ble.Protocol.Query.{query, make_query, is_control_action}
use ha_aiper_ble.Coordinator.Report.{new_report}
use ha_aiper_ble.Coordinator.State.{Config, State, init_state, seconds, post_control_seconds}
use ha_aiper_ble.Coordinator.Verified.{verified_values}
use ha_aiper_ble.Coordinator.Settle.{Meeting}
use ha_aiper_ble.Coordinator.Update.{update_data}
use ha_aiper_ble.Coordinator.Update.Calls.{IsOpen, IsFresh}
use ha_aiper_ble.Coordinator.Samples.{py, config, answering, meeting, waiting}
use ha_aiper_ble.Coordinator.Isolated.{Asked, IsolatedResult, refusal, query_isolated}
use ha_aiper_ble.Coordinator.Isolated.Ends.{IsConcluded, built, query_isolated-IsConcluded}
use ha_aiper_ble.Coordinator.Manual.{poll_now, schedule_post_control_poll, post_control_poll}
use ha_aiper_ble.Coordinator.Manual.Polls.{
  success, poll_now-IsFresh, schedule_post_control_poll-post_control_poll,
}
use ha_aiper_ble.Controls.{Run, control_steps}
use ha_aiper_ble.Controls.Sends.{Sends, plan, control_steps-Sends}
use ha_aiper_ble.Controls.Call.{release_control}
use ha_aiper_ble.Controls.Call.Ends.{IsReleased, release_control-IsReleased}

-- what Home Assistant's coordinator does to the modelled fields
abbrev failing : Exception → State → State
failing e s = record s { last_update_success = false }

abbrev publishing : Fields → State → State
publishing values s = record s { values = some values; last_update_success = true }

abbrev begun : Run
begun = record {
  state = waiting;
  sent = [];
  reports = [];
  motion_may_have_changed = true;
  acknowledged = false;
  observed = none;
  state_verified = false;
}

control_steps-Sends_example :
    Sends begun (plan "start_cleaning") (control_steps py config answering "start_cleaning" begun)
unfolding is_control_action
control_steps-Sends_example = control_steps-Sends py config answering "start_cleaning" begun refl

release_control-IsReleased_example :
    IsReleased config 5000 begun (release_control failing config 5000 begun)
release_control-IsReleased_example =
    release_control-IsReleased failing (λ e s. refl) config 5000 begun

abbrev disabled : Config
disabled = record config { enabled = false }

abbrev asked : Asked
asked = record { query_type = "INFO"; local_bleak = false; proxied = false; exploratory = false }

query_isolated-IsConcluded_example :
    let x = answering (new_report "INFO") (query (built disabled asked)) in
    (result : IsolatedResult) × (s' : State) × (query_isolated failing py disabled answering 1000
        asked waiting
      ≡ some (inr (result, s')))
    × IsConcluded disabled x.finished x.report result s'
unfolding refusal init_state
query_isolated-IsConcluded_example =
    query_isolated-IsConcluded failing (λ e s. refl) py disabled answering 1000 asked waiting refl

poll_now-IsFresh_example :
    let x = update_data py config (meeting answering) (record waiting { next_attempt = 0 }) in
    (values : Fields) × IsFresh py config (meeting answering) x
    × (x.0 ≡ ok values)
    × (poll_now failing publishing py config (meeting answering) waiting
        ≡ success failing publishing values x)
unfolding poll_now get dumps utf8 crc16 query_telemetry verified_values init_state make_query
poll_now-IsFresh_example =
    poll_now-IsFresh failing publishing py config (meeting answering) waiting "ok"
      (some (int (pos 1700000000))) refl

schedule_post_control_poll-post_control_poll_example :
    let after = schedule_post_control_poll 5000 waiting in
    ((m : Meeting)
      → m.now + seconds 1 < 5000 + seconds post_control_seconds
      → ¬ (IsOpen config m after))
    × ((post_control_poll config after).1 ≡ true)
    × ((m : Meeting) → IsOpen config m (post_control_poll config after).0)
unfolding init_state
schedule_post_control_poll-post_control_poll_example =
    schedule_post_control_poll-post_control_poll config 5000 waiting refl refl refl refl
