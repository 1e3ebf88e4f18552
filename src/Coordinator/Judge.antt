-- ===== src/Coordinator/Judge.antt =====
-- One query of a polling cycle (coordinator.py, `_async_update_data`): what the transport leaves, and
-- what the checks make of it.
use ha_aiper_ble.Prelude.{
  ℕ, String, Bool, true, not, ◌&&◌, Option, none, some, List, [], ◌∷◌, if◌then◌else◌,
}
use ha_aiper_ble.Outcome.{Exception, update_failed, timeout, cancelled, Result, ok, err}
use ha_aiper_ble.Value.{Fields, end, field}
use ha_aiper_ble.Protocol.Query.{Query, Request}
use ha_aiper_ble.Coordinator.State.{State, set_suspended}
use ha_aiper_ble.Coordinator.Report.{Report, suspends, is_text}
use ha_aiper_ble.Coordinator.Verified.{Python, verified_values}

pub record Exchange : Type 0 where
  pub report : Report  -- as the transport leaves it
  pub raised : Option Exception
  pub cancel_requested : Bool  -- cancel_requested() afterwards
  pub deadline_expired : Bool  -- the cancellation is that of asyncio.timeout
  pub closing : Bool  -- runtime.closing afterwards
  pub finished : ℕ  -- loop.time() afterwards

abbrev pub Transport : Type 0
Transport = Report → Request → Exchange

-- what a CancelledError turns into as it leaves `asyncio.timeout`
unfoldable pub leave_timeout : Bool → Exception → Exception
leave_timeout true cancelled = timeout
leave_timeout _ e = e

-- How the loop over the queries ends: the values or the exception, and the reports of the queries
-- that were sent, in order.
pub record CycleEnd : Type 0 where
  pub outcome : Result Fields
  pub state : State
  pub reports : List Report

-- status, cleanup and notification cleanup of a query that counts
unfoldable pub is_complete : Report → Bool
is_complete r =
    is_text r.status "query_complete"
    && is_text r.cleanup "disconnected_confirmed"
    && is_text r.notification_cleanup "stop_confirmed"

abbrev pub text_or : Option String → String → String
text_or none s = s
text_or (some t) s = t

-- values.update(more): what is asked for first is found first
unfoldable pub update : Fields → Fields → Fields
update values end = values
update values (field k v rest) = field k v (update values rest)

-- self.suspended = True, if the report says so
unfoldable pub suspend_if : Bool → State → State
unfolding set_suspended
suspend_if b s = if b then set_suspended true s else s

unfoldable pub stop : Result Fields → State → List Report → CycleEnd
stop outcome s reports = record { outcome = outcome; state = s; reports = reports }

-- A request that cannot be built ends the loop before its report is made.
unfoldable pub after_query : Result Query → State → (Query → CycleEnd) → CycleEnd
unfolding stop
after_query (err e) s send = stop (err e) s []
after_query (ok q) s send = send q

-- An exception ends the loop; values go on to the next query.
unfoldable pub after_judge : Result Fields × State × Report → (Fields → State → CycleEnd) → CycleEnd
unfolding stop
after_judge (err e, s, r) next = stop (err e) s (r ∷ [])
after_judge (ok more, s, r) next =
    let later = next more s in stop later.outcome later.state (r ∷ later.reports)

module _ (py : Python) where
  -- What follows `await execute(...)` for one query: the exception, or the verified values, and the
  -- state and report as the checks leave them.
  unfoldable pub judge : Request → Exchange → State → Result Fields × State × Report
  unfolding leave_timeout is_complete suspend_if
  judge request x s =
      let reviewed = suspend_if (is_text x.report.status "cleanup_requires_review") s in
      let coded = suspend_if (suspends x.report.error_code) reviewed in
      elim x.raised [
        | some e ↦ (err e, s, x.report)
        | none ↦
            if x.cancel_requested
            then (err (leave_timeout x.deadline_expired cancelled), reviewed, x.report)
            else if reviewed.suspended
            then (err (update_failed "cleanup_requires_review"), reviewed, x.report)
            else if not (is_complete x.report)
            then (
              err (update_failed (text_or x.report.error_code "query_incomplete")),
              coded,
              x.report,
            )
            else (
              verified_values py x.report.protocol_response request,
              coded,
              record x.report { phase = some "verify_response" },
            )
      ]
