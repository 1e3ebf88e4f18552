-- ===== src/Controls/Call/Ends.antt =====
-- How a control ends.
use ha_aiper_ble.Prelude.{ℕ, ◌+◌, ◌≡◌, true, false, some, arith}
use ha_aiper_ble.Outcome.{Exception, update_failed}
use ha_aiper_ble.Coordinator.State.{Config, State, seconds, post_control_seconds}
use ha_aiper_ble.Coordinator.Judge.{text_or}
use ha_aiper_ble.Coordinator.Manual.{schedule_post_control_poll, mark_stale}
use ha_aiper_ble.Controls.{Run}
use ha_aiper_ble.Controls.Call.{release_control}

-- What a control leaves: the task is free; if the transport is not suspended and a write may have
-- moved the robot, what was published no longer counts and a poll is due in 20 seconds; without a
-- write it counts as before; and a suspended transport publishes an error.
pub record IsReleased (c : Config) (now : ℕ) (r : Run) (s : State) : Type 0 where
  pub free : s.task_running ≡ false
  pub values : s.values ≡ r.state.values
  pub suspended : s.suspended ≡ r.state.suspended
  pub ended : s.last_attempt_finished ≡ some now
  pub stale : r.motion_may_have_changed ≡ true → s.last_update_success ≡ false
  pub confirmed :
      r.state.suspended ≡ false
      → r.motion_may_have_changed ≡ true
      → (s.post_control_timer ≡ some (now + seconds post_control_seconds))
        × (s.next_attempt ≡ now + seconds post_control_seconds)
  pub untouched :
      r.state.suspended ≡ false
      → r.motion_may_have_changed ≡ false
      → (s.last_update_success ≡ r.state.last_update_success)
        × (s.status ≡ r.state.status)
        × (s.next_attempt ≡ now + seconds c.interval)
  pub failed : r.state.suspended ≡ true → s.last_update_success ≡ false

-- Whatever the steps of a control did, its end frees the task and keeps the published values and the
-- suspension. If a write may have moved the robot, the last update no longer counts, and unless the
-- transport is suspended a poll is due in 20 seconds; if not, the last update counts as before, and
-- the normal cooldown begins. `set_error` is to do what Home Assistant documents: it marks the last
-- update as failed.
pub release_control-IsReleased :
    (set_error : Exception → State → State)
    (fails : (e : Exception) (s : State) → set_error e s ≡ record s { last_update_success = false })
    (c : Config) (now : ℕ) (r : Run)
    → IsReleased c now r (release_control set_error c now r)
unfolding release_control schedule_post_control_poll mark_stale
release_control-IsReleased set_error fails c now r =
    rw
      (fails (update_failed (text_or r.state.error_code "None")) (record r.state {
        last_attempt_finished = some now;
        next_attempt = now + seconds c.interval;
        task_running = false;
      }))
      (ground arith)
