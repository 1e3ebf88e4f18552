-- ===== src/Coordinator/Update/Calls.antt =====
-- What one call of `_async_update_data` returns, sends and leaves behind.
use ha_aiper_ble.Prelude.{
  ◌+◌, String, ◌≡◌, refl, sym, ap, ◌∙◌, ◌≢◌, true, false, none, some, List, [], arith, ltb,
  if◌then◌else◌,
}
use ha_aiper_ble.Prelude.Int.{pos}
use ha_aiper_ble.Prelude.Text.{codes}
use ha_aiper_ble.Outcome.{
  Exception, Result, ok, err, protocol, update_failed, timeout, cancelled, other,
}
use ha_aiper_ble.Value.{field, Fields, int, end}
use ha_aiper_ble.Coordinator.State.{Config, State, seconds}
use ha_aiper_ble.Coordinator.Report.{Report}
use ha_aiper_ble.Coordinator.Verified.{Python}
use ha_aiper_ble.Coordinator.Update.{run_queries, run_cycle, update_data}
use ha_aiper_ble.Coordinator.Settle.{
  Meeting, CallEnd, settle, finish, backoff, error_text, map_last, fail_report,
}
use ha_aiper_ble.Coordinator.Update.Cycle.{Answers, run_queries-Answers}
use ha_aiper_ble.Coordinator.Update.Gates.{SameCore, run_queries-SameCore, failed_status}

-- Nothing stands in the way of a cycle.
pub record IsOpen (c : Config) (m : Meeting) (s : State) : Type 0 where
  pub enabled : c.enabled ≡ true
  pub loaded : s.closing ≡ false
  pub trusted : s.suspended ≡ false
  pub due : ltb (m.now + seconds 1) s.next_attempt ≡ false
  pub free : s.task_running ≡ false

-- the state in which a cycle starts
abbrev reserved : State → State
reserved s = record s { task_running = true; status = "polling"; error_code = none }

update_data-run :
    (py : Python) (c : Config) (m : Meeting) (s : State)
    → IsOpen c m s
    → update_data py c m s ≡ run_cycle py c m (reserved s)
unfolding update_data
update_data-run py c m s h = rw (h.enabled, h.loaded, h.trusted, h.due, h.free) refl

-- What a call that starts no cycle leaves alone.
pub record IsUntouched (s s' : State) : Type 0 where
  pub failures : s'.failures ≡ s.failures
  pub values : s'.values ≡ s.values
  pub next_attempt : s'.next_attempt ≡ s.next_attempt
  pub suspended : s'.suspended ≡ s.suspended
  pub task_running : s'.task_running ≡ s.task_running
  pub last_poll_queries : s'.last_poll_queries ≡ s.last_poll_queries

-- A call made while polling is disabled, the entry closes, the transport is suspended, the cooldown
-- lasts or a task runs sends no query, and leaves the failures, the published values, the cooldown,
-- the suspension, the running task and the kept reports as they were.
pub update_data-gated :
    (py : Python) (c : Config) (m : Meeting) (s : State)
    → ¬ (IsOpen c m s)
    → ((update_data py c m s).2 ≡ []) × IsUntouched s (update_data py c m s).1
unfolding update_data
update_data-gated py c m s h = ground arith

-- What a successful cycle leaves: the robot answered each query, and nothing counts against it.
pub record IsFresh (py : Python) (c : Config) (m : Meeting) (x : CallEnd) : Type 0 where
  pub merged : Fields
  pub answers : Answers py c.poll_queries x.2 end merged
  pub returned : x.0 ≡ ok (field (codes "last_success") (int (pos m.utcnow)) merged)
  pub status : x.1.status ≡ "ok"
  pub error_code : x.1.error_code ≡ none
  pub failures : x.1.failures ≡ 0
  pub task_running : x.1.task_running ≡ false
  pub kept : x.1.last_poll_queries ≡ x.2

-- A cycle that succeeds has an answer to each of the polled queries, in order.
finish-IsFresh :
    (py : Python) (c : Config) (m : Meeting) (s s' : State) (outcome : Result Fields)
    (reports : List Report) {values : Fields}
    → ((out : Fields) → outcome ≡ ok out → Answers py c.poll_queries reports end out)
    → (finish c m (settle c m outcome s' reports)).0 ≡ ok values
    → IsFresh py c m (finish c m (settle c m outcome s' reports))
unfolding settle finish
finish-IsFresh py c m s s' (ok out) reports answers h = record {
  merged = out;
  answers = answers out refl;
  returned = refl;
  status = ground arith;
  error_code = ground arith;
  failures = ground arith;
  task_running = refl;
  kept = refl;
}
finish-IsFresh py c m s s' (err cancelled) reports answers h = cc
finish-IsFresh py c m s s' (err (protocol code)) reports answers h = cc
finish-IsFresh py c m s s' (err (update_failed code)) reports answers h = cc
finish-IsFresh py c m s s' (err timeout) reports answers h = cc
finish-IsFresh py c m s s' (err other) reports answers h = cc

-- A failed cycle counts one more failure and publishes nothing new; if the transport was suspended,
-- no further poll is scheduled.
pub record IsFailed (c : Config) (s : State) (x : CallEnd) : Type 0 where
  pub failures : x.1.failures ≡ s.failures + 1
  pub values : x.1.values ≡ s.values
  pub water_temperature : x.1.water_temperature ≡ s.water_temperature
  pub task_running : x.1.task_running ≡ false
  pub interval :
      x.1.update_interval
      ≡ (if x.1.suspended then none else some (seconds (backoff c.interval (s.failures + 1))))
  pub status : x.1.status ≡ (if x.1.suspended then "suspended" else "failed")
  pub error_code : (code : String) → x.0 ≡ err (update_failed code) → x.1.error_code ≡ some code

-- The handler of the exceptions that are no cancellation.
abbrev failed_end : Config → Exception → State → List Report → CallEnd
failed_end c e s reports =
    let status : String = if s.suspended then "suspended" else "failed" in
    (
      err (update_failed (error_text e)),
      record s {
        failures = s.failures + 1;
        status = status;
        error_code = some (error_text e);
        update_interval =
            if s.suspended then none else some (seconds (backoff c.interval (s.failures + 1)));
      },
      map_last (fail_report e status) reports,
    )

settle-failed :
    (c : Config) (m : Meeting) (e : Exception) (s : State) (reports : List Report)
    → e ≢ cancelled
    → settle c m (err e) s reports ≡ failed_end c e s reports
unfolding settle
settle-failed c m cancelled s reports h = absurd (h refl)
settle-failed c m (protocol code) s reports h = refl
settle-failed c m (update_failed code) s reports h = refl
settle-failed c m timeout s reports h = refl
settle-failed c m other s reports h = refl

failed_end-IsFailed :
    (c : Config) (m : Meeting) (s s' : State) (e : Exception) (reports : List Report)
    → SameCore s s'
    → IsFailed c s (finish c m (failed_end c e s' reports))
unfolding finish
failed_end-IsFailed c m s s' e reports core = rw (failed_status s'.suspended) record {
  failures = ap (λ n. n + 1) core.failures;
  values = core.values;
  water_temperature = core.water_temperature;
  task_running = refl;
  interval = rw core.failures refl;
  status = refl;
  error_code = λ code h. cc;
}

finish-IsFailed :
    (c : Config) (m : Meeting) (s s' : State) (e : Exception) (reports : List Report)
    → SameCore s s'
    → e ≢ cancelled
    → IsFailed c s (finish c m (settle c m (err e) s' reports))
finish-IsFailed c m s s' e reports core h =
    rw (settle-failed c m e s' reports h) (failed_end-IsFailed c m s s' e reports core)

-- A call that nothing stands in the way of and that returns values: the robot has answered each of
-- the polled queries, in order, with a completed, disconnected and unsubscribed exchange whose
-- response gives verified values; the result is these values merged in order, with the time; the
-- status is ok, no failure is left, and the task is released.
pub update_data-IsFresh :
    (py : Python) (c : Config) (m : Meeting) (s : State) (values : Fields)
    → IsOpen c m s
    → (update_data py c m s).0 ≡ ok values
    → IsFresh py c m (update_data py c m s)
unfolding run_cycle
update_data-IsFresh py c m s values h good =
    let run = update_data-run py c m s h in
    let cycle = run_queries py c m.execute m.since c.poll_queries 1 end (reserved s) in
    rw run (
      finish-IsFresh py c m s cycle.state cycle.outcome cycle.reports
        (λ out. run_queries-Answers py c m.execute m.since c.poll_queries 1 end (reserved s))
        (sym (ap (λ x. x.0) run) ∙ good))

end-IsFailed :
    (c : Config) (m : Meeting) (s s' : State) (outcome : Result Fields) (reports : List Report)
    (code : String)
    → SameCore s s'
    → (finish c m (settle c m outcome s' reports)).0 ≡ err (update_failed code)
    → IsFailed c s (finish c m (settle c m outcome s' reports))
unfolding settle finish
end-IsFailed c m s s' (ok out) reports code core h = cc
end-IsFailed c m s s' (err cancelled) reports code core h = cc
end-IsFailed c m s s' (err (protocol k)) reports code core h =
    finish-IsFailed c m s s' (protocol k) reports core cc
end-IsFailed c m s s' (err (update_failed k)) reports code core h =
    finish-IsFailed c m s s' (update_failed k) reports core cc
end-IsFailed c m s s' (err timeout) reports code core h =
    finish-IsFailed c m s s' timeout reports core cc
end-IsFailed c m s s' (err other) reports code core h =
    finish-IsFailed c m s s' other reports core cc

IsFailed-reserved :
    (c : Config) (s : State) (x : CallEnd) → IsFailed c (reserved s) x → IsFailed c s x
IsFailed-reserved c s x h = record {
  failures = h.failures;
  values = h.values;
  water_temperature = h.water_temperature;
  task_running = h.task_running;
  interval = h.interval;
  status = h.status;
  error_code = h.error_code;
}

-- A call that nothing stands in the way of and that raises UpdateFailed: one more failure is
-- counted, the published values and the water temperature stay, the task is released, the error code
-- is the one raised, and the next interval is the retreat for that many failures, or none at all
-- when the cycle suspended the transport.
pub update_data-IsFailed :
    (py : Python) (c : Config) (m : Meeting) (s : State) (code : String)
    → IsOpen c m s
    → (update_data py c m s).0 ≡ err (update_failed code)
    → IsFailed c s (update_data py c m s)
unfolding run_cycle
update_data-IsFailed py c m s code h bad =
    let run = update_data-run py c m s h in
    let cycle = run_queries py c m.execute m.since c.poll_queries 1 end (reserved s) in
    rw run (
      IsFailed-reserved c s _ (
        end-IsFailed c m (reserved s) cycle.state cycle.outcome cycle.reports code
          (run_queries-SameCore py c m.execute m.since c.poll_queries 1 end (reserved s))
          (sym (ap (λ x. x.0) run) ∙ bad)))
