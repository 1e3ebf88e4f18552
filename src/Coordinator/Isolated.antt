-- ===== src/Coordinator/Isolated.antt =====
-- `async_query_isolated` of coordinator.py: one query outside the schedule, with its own report. What
-- Home Assistant's `async_set_update_error` does to the state is the parameter `set_error`.
pub mod Ends
use ha_aiper_ble.Prelude.{
  ℕ, ◌+◌, ◌-◌, ◌/◌, String, ◌⊎◌, inl, inr, Bool, true, false, not, ◌&&◌, ◌||◌, Option, none, some,
  ltb, if◌then◌else◌, str_eq,
}
use ha_aiper_ble.Prelude.Text.{codes}
use ha_aiper_ble.Outcome.{
  Exception, Result, ok, err, protocol, update_failed, timeout, cancelled, other,
}
use ha_aiper_ble.Value.{Value, Fields, null, bool, end, field}
use ha_aiper_ble.Protocol.Query.{Query, Request, query, make_query, exploratory_match}
use ha_aiper_ble.Coordinator.Report.{Report, new_report, is_text, or_default, suspends}
use ha_aiper_ble.Coordinator.State.{Config, State, set_suspended, seconds}
use ha_aiper_ble.Coordinator.Verified.{Python, verified_values}
use ha_aiper_ble.Coordinator.Judge.{
  Exchange, Transport, leave_timeout, is_complete, text_or, suspend_if,
}
use ha_aiper_ble.Coordinator.Settle.{error_text, mark_stage}

-- The arguments; `proxied` is whether a proxy entry was given.
pub record Asked : Type 0 where
  pub query_type : String
  pub local_bleak : Bool
  pub proxied : Bool
  pub exploratory : Bool

-- A validation error, by its key; the cooldown's carries the seconds that are left.
pub data Refusal : Type 0 where
  refused : String → Refusal
  cooldown : ℕ → Refusal

-- ISOLATED_QUERIES.values()
unfoldable pub is_isolated_query : String → Bool
is_isolated_query t = str_eq t "S1_INFO" || str_eq t "OpInfo" || str_eq t "INFO" || str_eq t "WARN"

-- math.ceil of a time in seconds, and `none` if nothing remains of the cooldown
unfoldable pub remaining : Config → ℕ → Option ℕ → Option ℕ
remaining c now none = none
remaining c now (some finished) =
    let left = seconds c.interval + finished - now in
    if ltb 0 left then some ((left + 999) / 1000) else none

-- the checks of the arguments
unfoldable pub argument_refusal : Asked → Option Refusal
unfolding exploratory_match is_isolated_query
argument_refusal a =
    if a.exploratory && (a.local_bleak || a.proxied)
    then some (refused "select_fixed_query")
    else if a.exploratory && not (exploratory_match (codes a.query_type))
    then some (refused "invalid_exploratory_query")
    else if not a.exploratory && not (is_isolated_query a.query_type)
    then some (refused "select_fixed_query")
    else if a.local_bleak && not (str_eq a.query_type "OpInfo")
    then some (refused "same_radio_opinfo_only")
    else if a.proxied && (a.local_bleak || not (str_eq a.query_type "OpInfo"))
    then some (refused "proxy_trace_opinfo_only")
    else none

-- the checks of the coordinator, at the time `now`
unfoldable pub state_refusal : Config → ℕ → State → Option Refusal
unfolding remaining
state_refusal c now s =
    if c.enabled
    then some (refused "disable_polling_for_bisection")
    else if s.closing || s.suspended
    then some (refused "closing_or_suspended")
    else if s.task_running
    then some (refused "already_running")
    else elim (remaining c now s.last_attempt_finished) [
      | none ↦ none
      | some left ↦ some (cooldown left)
    ]

unfoldable pub refusal : Config → ℕ → Asked → State → Option Refusal
unfolding argument_refusal state_refusal
refusal c now a s = elim (argument_refusal a) [ some r ↦ some r | none ↦ state_refusal c now s ]

-- {key: value for key, value in values.items() if value is not None}
unfoldable pub without_null : Fields → Fields
without_null end = end
without_null (field k null rest) = without_null rest
without_null (field k v rest) = field k v (without_null rest)

-- What follows `await execute(...)`, up to the end of the try block.
unfoldable pub judge_isolated : Python → Request → Exchange → State → Result Fields × State × Report
unfolding leave_timeout is_complete suspend_if without_null
judge_isolated py request x s =
    let review = is_text x.report.status "cleanup_requires_review" in
    let s' = suspend_if review s in
    let report =
      if review
      then record x.report { error_code = some "cleanup_requires_review" }
      else x.report in
    elim x.raised [
      | some e ↦ (err e, s, x.report)
      | none ↦
          if x.cancel_requested
          then (err (leave_timeout x.deadline_expired cancelled), s', report)
          else if not (is_complete report)
          then (err (update_failed (text_or report.error_code "query_incomplete")), s', report)
          else (
            elim (verified_values py report.protocol_response request) [
              | ok values ↦ ok (without_null values)
              | err e ↦ err e
            ],
            s',
            record report { phase = some "verify_response" },
          )
    ]

unfoldable pub category : Exception → String
category (protocol code) = "protocol"
category timeout = "timeout"
category _ = "transport"

-- the handlers
unfoldable pub handle_isolated : Exception → Report → Report
unfolding mark_stage category error_text
handle_isolated cancelled r = mark_stage "cancelled" (record r { status = some "interrupted" })
handle_isolated e r =
    let marked = mark_stage (category e) (record r { status = some "failed" }) in
    record marked { error_code = or_default marked.error_code (error_text e) }

-- self.suspended = True and report["error_code"] = "cleanup_requires_review"
unfoldable pub require_review : Bool → State × Report → State × Report
unfolding set_suspended
require_review needed (s, r) =
    if needed
    then (set_suspended true s, record r { error_code = some "cleanup_requires_review" })
    else (s, r)

-- a cleanup that the report leaves in doubt
unfoldable pub is_doubtful : Report → Bool
is_doubtful r =
    elim r.cleanup [ none ↦ false | some c ↦ not (str_eq c "disconnected_confirmed") ]
    || (is_text r.notification_cleanup "stop_unconfirmed"
        || is_text r.notification_cleanup "ownership_uncertain")
    || is_text r.signal_cleanup "remove_match_unconfirmed"

-- the `finally` block up to the suspension
unfoldable pub review : State × Report → State × Report
unfolding require_review is_doubtful suspend_if
review (s, r) =
    let (s', r') =
      require_review (is_doubtful r)
        (require_review (is_text r.log_cleanup "unconfirmed") (s, r)) in
    (suspend_if (suspends r'.error_code) s', r')

-- what the call returns, or keeps in `last_result` when it is cancelled
pub record IsolatedResult : Type 0 where
  pub report : Report
  pub values : Fields
  pub interrupted : Bool

-- the checks come first
abbrev pub unless_refused :
    Option Refusal → Option (IsolatedResult × State) → Option (Refusal ⊎ (IsolatedResult × State))
unless_refused (some r) result = some (inl r)
unless_refused none none = none
unless_refused none (some result) = some (inr result)

module _ (set_error : Exception → State → State) where
  -- the rest of the `finally` block
  unfoldable pub conclude : Config → ℕ → Bool → Fields → State × Report → IsolatedResult × State
  conclude c finished interrupted values (s, r) =
      let stopped =
        set_error (update_failed (text_or r.error_code "None"))
          (record s { status = "suspended"; error_code = r.error_code; update_interval = none }) in
      let s' = if s.suspended then stopped else s in
      (
        record {
          report = if s.suspended then record r { status = some "suspended" } else r;
          values = if s.suspended then end else values;
          interrupted = interrupted;
        },
        record s' {
          last_attempt_finished = some finished;
          next_attempt = finished + seconds c.interval;
          task_running = false;
        },
      )

  -- the `finally` block, after the try block and its handlers
  unfoldable pub end_isolated : Config → ℕ → Result Fields × State × Report → IsolatedResult × State
  unfolding conclude review handle_isolated
  end_isolated c finished (ok values, s, r) = conclude c finished false values (review (s, r))
  end_isolated c finished (err cancelled, s, r) =
      conclude c finished true end (review (s, handle_isolated cancelled r))
  end_isolated c finished (err e, s, r) =
      conclude c finished false end (review (s, handle_isolated e r))

  -- what is sent, if a request can be made
  unfoldable pub run_isolated :
      Python → Config → Transport → Asked → State → Result Query → Option (IsolatedResult × State)
  unfolding judge_isolated end_isolated
  run_isolated py c execute a s (err e) = none
  run_isolated py c execute a s (ok q) =
      let x = execute (new_report a.query_type) (query q) in
      some (
        end_isolated c x.finished
          (judge_isolated py (query q) x (record s { task_running = true; closing = x.closing })))

  -- The whole call. `none` would be the exception of a request that cannot be made, which leaves the
  -- task reserved.
  unfoldable pub query_isolated :
      Python → Config → Transport → ℕ → Asked → State → Option (Refusal ⊎ (IsolatedResult × State))
  unfolding refusal run_isolated
  query_isolated py c execute now a s = unless_refused (refusal c now a s) (
      run_isolated py c execute a s
        (make_query "omit_empty_crc" "request" (bool c.allow_missing) a.query_type a.exploratory))
