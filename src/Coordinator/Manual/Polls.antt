-- ===== src/Coordinator/Manual/Polls.antt =====
-- What a poll at an operator's request does.
use ha_aiper_ble.Prelude.{
  ℕ, ◌+◌, ◌<◌, String, ◌≡◌, refl, sym, ap, ◌∙◌, true, false, Option, none, some, List, arith, ltb,
}
use ha_aiper_ble.Outcome.{Exception, ok, err, protocol, update_failed, timeout, cancelled, other}
use ha_aiper_ble.Value.{Value, Fields, get}
use ha_aiper_ble.Coordinator.Report.{Report}
use ha_aiper_ble.Coordinator.State.{Config, State, seconds, post_control_seconds}
use ha_aiper_ble.Coordinator.Verified.{Python}
use ha_aiper_ble.Coordinator.Settle.{Meeting, CallEnd}
use ha_aiper_ble.Coordinator.Update.{update_data}
use ha_aiper_ble.Coordinator.Update.Calls.{IsOpen, IsFresh, update_data-IsFresh}
use ha_aiper_ble.Coordinator.Manual.{
  Polled, polled, poll_refusal, publish_poll, unless_refused, poll_now, schedule_post_control_poll,
  post_control_poll,
}

-- the state in which the poll starts: whatever cooldown there was is over
abbrev hurried : State → State
hurried s = record s { next_attempt = 0 }

poll_refusal-IsOpen :
    (c : Config) (m : Meeting) (s : State) → poll_refusal c s ≡ none → IsOpen c m (hurried s)
unfolding poll_refusal
poll_refusal-IsOpen c m s h = ground arith

module _ (set_error : Exception → State → State) (set_data : Fields → State → State) where
  admitted :
      (o : Option String) (s : State) (x : Polled × State × List Report) (status : String)
      (time : Option Value)
      → (unless_refused set_error set_data o s x).0 ≡ polled status time
      → (o ≡ none) × (unless_refused set_error set_data o s x ≡ x)
  admitted none s x status time h = (refl, refl)
  admitted (some key) s x status time h = cc

  -- what is made of a cycle that returned values
  abbrev pub success : Fields → CallEnd → Polled × State × List Report
  success values x =
      (polled (set_data values x.1).status (get values "last_success"), set_data values x.1, x.2)

  publish_poll_inversion :
      (x : CallEnd) (status : String) (time : Option Value)
      → (publish_poll set_error set_data x).0 ≡ polled status time
      → (values : Fields) × (x.0 ≡ ok values)
        × (publish_poll set_error set_data x ≡ success values x)
  unfolding publish_poll
  publish_poll_inversion (ok values, s, reports) status time h = (values, refl, refl)
  publish_poll_inversion (err cancelled, s, reports) status time h = cc
  publish_poll_inversion (err (update_failed k), s, reports) status time h = cc
  publish_poll_inversion (err (protocol k), s, reports) status time h = cc
  publish_poll_inversion (err timeout, s, reports) status time h = cc
  publish_poll_inversion (err other, s, reports) status time h = cc

  -- A poll that reports a status and a time was a whole cycle, whatever cooldown there was before: the
  -- robot answered each of the polled queries with verified values, and these, with the time, are
  -- what is published.
  pub poll_now-IsFresh :
      (py : Python) (c : Config) (m : Meeting) (s : State) (status : String) (time : Option Value)
      → (poll_now set_error set_data py c m s).0 ≡ polled status time
      → let x = update_data py c m (record s { next_attempt = 0 }) in
        (values : Fields) × IsFresh py c m x
        × (x.0 ≡ ok values)
        × (poll_now set_error set_data py c m s ≡ success values x)
  unfolding poll_now
  poll_now-IsFresh py c m s status time h =
      let x = update_data py c m (record s { next_attempt = 0 }) in
      let (open_entry, same) =
        admitted (poll_refusal c s) s (publish_poll set_error set_data x) status time h in
      let (values, good, whole) =
        publish_poll_inversion x status time (sym (ap (λ r. r.0) same) ∙ h) in
      (
        values,
        update_data-IsFresh py c m (record s { next_attempt = 0 }) values
            (poll_refusal-IsOpen c m s open_entry) good,
        good,
        same ∙ whole,
      )

-- After a control at the time `now`, on an entry that polls, is not closing or suspended, and runs no
-- task: until 20 seconds have passed, less the second that a tick may be early, no tick starts a
-- cycle; and when the timer fires, it requests a refresh that nothing stands in the way of.
pub schedule_post_control_poll-post_control_poll :
    (c : Config) (now : ℕ) (s : State)
    → c.enabled ≡ true
    → s.closing ≡ false
    → s.suspended ≡ false
    → s.task_running ≡ false
    → let waiting = schedule_post_control_poll now s in
      ((m : Meeting)
        → m.now + seconds 1 < now + seconds post_control_seconds
        → ¬ (IsOpen c m waiting))
      × ((post_control_poll c waiting).1 ≡ true)
      × ((m : Meeting) → IsOpen c m (post_control_poll c waiting).0)
unfolding schedule_post_control_poll post_control_poll
schedule_post_control_poll-post_control_poll c now s enabled open_entry trusted free = (
  λ m early h. early_tick (m.now + seconds 1) (now + seconds post_control_seconds) early h.due,
  ground arith,
  λ m. ground arith,
)
  where
    early_tick : (a b : ℕ) → a < b → ¬ (ltb a b ≡ false)
    early_tick a b early late = ground arith
