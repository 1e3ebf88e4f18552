-- ===== src/Coordinator/Update/Gates.antt =====
-- When `_async_update_data` runs a cycle, and the state that a cycle leaves.
use ha_aiper_ble.Prelude.{
  ℕ, zero, suc, ◌+◌, ◌*◌, ◌≤◌, min, String, ◌≡◌, refl, ◌∙◌, ◌≢◌, Bool, true, false, Option, none,
  some, List, [], ◌∷◌, arith, if◌then◌else◌, str_eq,
}
use ha_aiper_ble.Prelude.Int.{ℤ}
use ha_aiper_ble.Outcome.{Result, ok, err, protocol, update_failed, timeout, cancelled, other}
use ha_aiper_ble.Value.{Fields, end}
use ha_aiper_ble.Protocol.Query.{Query, Request, query}
use ha_aiper_ble.Coordinator.State.{
  Config, State, seconds, min_interval, max_interval, slow_interval, effective_interval,
}
use ha_aiper_ble.Coordinator.Report.{Report}
use ha_aiper_ble.Coordinator.Verified.{Python}
use ha_aiper_ble.Coordinator.Update.{run_queries, run_cycle}
use ha_aiper_ble.Coordinator.Judge.{Exchange, Transport, update, judge}
use ha_aiper_ble.Coordinator.Settle.{Meeting, CallEnd, settle, finish, backoff}
use ha_aiper_ble.Coordinator.Update.Cycle.{run_queries_elim, exchange, judged}

-- What a cycle leaves alone while it runs: all that is not about suspension or unloading.
pub record SameCore (s s' : State) : Type 0 where
  pub failures : s'.failures ≡ s.failures
  pub values : s'.values ≡ s.values
  pub update_interval : s'.update_interval ≡ s.update_interval
  pub water_temperature : s'.water_temperature ≡ s.water_temperature
  pub status : s'.status ≡ s.status
  pub kept : s.suspended ≡ true → s'.suspended ≡ true

judge-SameCore :
    (py : Python) (request : Request) (x : Exchange) (s : State) (closing : Bool)
    → SameCore s (judge py request x (record s { closing = closing })).1
unfolding judge
judge-SameCore py request x s closing = ground arith

SameCore-trans : {s t u : State} → SameCore s t → SameCore t u → SameCore s u
SameCore-trans h k = record {
  failures = k.failures ∙ h.failures;
  values = k.values ∙ h.values;
  update_interval = k.update_interval ∙ h.update_interval;
  water_temperature = k.water_temperature ∙ h.water_temperature;
  status = k.status ∙ h.status;
  kept = λ e. k.kept (h.kept e);
}

SameCore-refl : (s : State) → SameCore s s
SameCore-refl s = ground arith

module _ (py : Python) (c : Config) (execute : Transport) (since : ℕ → Option ℕ) where
  judged-SameCore :
      (t : String) (i : ℕ) (q : Query) (s : State)
      → SameCore s (judged py c execute since t i q s).1
  judged-SameCore t i q s =
      let x = exchange py c execute since t i q in judge-SameCore py (query q) x s x.closing

  pub run_queries-SameCore :
      (queries : List String) (i : ℕ) (values : Fields) (s : State)
      → SameCore s (run_queries py c execute since queries i values s).state
  unfolding run_queries
  run_queries-SameCore [] i values s = SameCore-refl s
  run_queries-SameCore (t ∷ ts) i values s =
      run_queries_elim py c execute since (λ e. SameCore s e.state) t ts i values s
        (λ e. SameCore-refl s) (λ q e made failed. judged-SameCore t i q s)
        (λ q more made good. SameCore-trans (judged-SameCore t i q s) (
          run_queries-SameCore ts (i + 1) (update values more)
            (judged py c execute since t i q s).1))

effective_interval_bounds :
    (c : Config) (monitor : Option (Option ℤ)) (reports : List Report)
    → min_interval ≤ c.interval
    → c.interval ≤ max_interval
    → (min_interval ≤ effective_interval c monitor reports)
      × (effective_interval c monitor reports ≤ max_interval)
unfolding effective_interval
effective_interval_bounds c monitor reports low high = ground arith

four_at_most : (f : ℕ) → min (suc (suc (suc (suc f)))) 4 ≡ 4
four_at_most f = omega arith

-- The retreat after a failure, for an interval within the longest one: from twice the slow interval
-- on, never above the longest interval nor below the configured one, and never shorter after one
-- more failure.
pub backoff_bounds :
    (interval failures : ℕ)
    → interval ≤ max_interval
    → (2 * slow_interval ≤ backoff interval (suc failures))
      × (backoff interval (suc failures) ≤ max_interval)
      × (interval ≤ backoff interval (suc failures))
      × (backoff interval failures ≤ backoff interval (suc failures))
unfolding backoff
backoff_bounds interval zero h = omega arith
backoff_bounds interval (suc zero) h = omega arith
backoff_bounds interval (suc (suc zero)) h = omega arith
backoff_bounds interval (suc (suc (suc zero))) h = omega arith
backoff_bounds interval (suc (suc (suc (suc f)))) h =
    rw (four_at_most f, four_at_most (suc f)) (omega arith)

add_one : (n : ℕ) → n + 1 ≡ suc n
add_one n = omega arith

pub failed_status :
    (suspended : Bool) → str_eq (if suspended then "suspended" else "failed") "ok" ≡ false
failed_status true = refl
failed_status false = refl

module _ (c : Config) (m : Meeting) where
  abbrev closed : Result Fields → State → List Report → CallEnd
  closed o s reports = finish c m (settle c m o s reports)

  -- the delay that an interval stands for
  abbrev delay_of : Option ℕ → ℕ
  delay_of interval = elim interval [ none ↦ seconds c.interval | some delay ↦ delay ]

  finish_failed :
      (o : Result Fields) (s : State) (reports : List Report)
      → str_eq s.status "ok" ≡ false
      → seconds min_interval ≤ delay_of s.update_interval
      → ((finish c m (o, s, reports)).1.task_running ≡ false)
        × (m.finished + seconds min_interval ≤ (finish c m (o, s, reports)).1.next_attempt)
  unfolding finish
  finish_failed o s reports status delay = rw status (refl, omega arith)

  module _ (low : min_interval ≤ c.interval) (high : c.interval ≤ max_interval) where
    failed_delay :
        (suspended : Bool) (failures : ℕ)
        → seconds min_interval
          ≤ delay_of
              (if suspended then none else some (seconds (backoff c.interval (failures + 1))))
    failed_delay true failures = omega arith
    failed_delay false failures =
        rw (add_one failures)
          (let bounds = backoff_bounds c.interval failures high in omega (arith, bounds.0))

    finish_cooldown :
        (o : Result Fields) (s : State) (reports : List Report)
        → (closed o s reports).0 ≢ err cancelled
        → ((closed o s reports).1.task_running ≡ false)
          × (m.finished + seconds min_interval ≤ (closed o s reports).1.next_attempt)
    unfolding settle finish
    finish_cooldown (ok values) s reports h =
        ground (arith, effective_interval_bounds c m.monitor reports low high)
    finish_cooldown (err cancelled) s reports h = absurd (h refl)
    finish_cooldown (err (protocol code)) s reports h =
        let settled = settle c m (err (protocol code)) s reports in
        finish_failed settled.0 settled.1 settled.2 (failed_status s.suspended)
          (failed_delay s.suspended s.failures)
    finish_cooldown (err (update_failed code)) s reports h =
        let settled = settle c m (err (update_failed code)) s reports in
        finish_failed settled.0 settled.1 settled.2 (failed_status s.suspended)
          (failed_delay s.suspended s.failures)
    finish_cooldown (err timeout) s reports h =
        let settled = settle c m (err timeout) s reports in
        finish_failed settled.0 settled.1 settled.2 (failed_status s.suspended)
          (failed_delay s.suspended s.failures)
    finish_cooldown (err other) s reports h =
        let settled = settle c m (err other) s reports in
        finish_failed settled.0 settled.1 settled.2 (failed_status s.suspended)
          (failed_delay s.suspended s.failures)

-- A cycle that ends without being cancelled, entered with a valid interval, releases the task, and
-- the cooldown after it is at least the shortest interval.
pub run_cycle_cooldown :
    (py : Python) (c : Config) (m : Meeting) (s : State)
    → min_interval ≤ c.interval
    → c.interval ≤ max_interval
    → (run_cycle py c m s).0 ≢ err cancelled
    → ((run_cycle py c m s).1.task_running ≡ false)
      × (m.finished + seconds min_interval ≤ (run_cycle py c m s).1.next_attempt)
unfolding run_cycle
run_cycle_cooldown py c m s low high h =
    let e = run_queries py c m.execute m.since c.poll_queries 1 end s in
    finish_cooldown c m low high e.outcome e.state e.reports h
