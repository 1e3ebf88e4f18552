-- ===== src/Bluez/Release.antt =====
-- The `finally` block of `QueryBluez.query_once` (telemetry.py): the notifications, the match and the
-- permits are given up.
use ha_aiper_ble.Prelude.{Bool, true, false, Option, none, some, [], if◌then◌else◌}
use ha_aiper_ble.Prelude.Text.{Text}
use ha_aiper_ble.Target.{Target}
use ha_aiper_ble.Bluez.Guards.{Fault, interrupted, Checked, passed, failed}
use ha_aiper_ble.Bluez.Permits.{nothing}
use ha_aiper_ble.Bluez.Query.{Wire, Session, Run, exactly}

-- What the cleanup has come to: whether a call failed, and the session.
abbrev pub Cleaning : Type 0
Cleaning = Bool × Session

-- await self._exact(path, "StopNotify"); a cancellation passes through
abbrev pub stop_result : Checked {0} Unit × Session → Bool → (Cleaning → Run) → Run
stop_result (failed interrupted, s) bad next = (some interrupted, s)
stop_result (passed u, s) bad next =
    next
      (bad, record s { report = record s.report { notification_cleanup = some "stop_confirmed" } })
stop_result (failed e, s) bad next =
    next (
      true,
      record s { report = record s.report { notification_cleanup = some "stop_unconfirmed" } },
    )

abbrev pub query_path_of : Option Text → Text
query_path_of none = []
query_path_of (some path) = path

unfoldable pub stop_notify : Target → Wire → Session → (Cleaning → Run) → Run
unfolding exactly
stop_notify t wire s next =
    if s.notify_attempted
    then stop_result
        (exactly (some t) (query_path_of s.permits.query_path) "StopNotify" "" nothing wire.stopped
          s)
        false next
    else next (false, s)

abbrev pub match_result : Checked {0} Unit → Cleaning → (Cleaning → Run) → Run
match_result (failed interrupted) (bad, s) next = (some interrupted, s)
match_result (passed u) (bad, s) next = next (bad, s)
match_result (failed e) (bad, s) next = next (
  true,
  record s { report = record s.report { signal_cleanup = some "remove_match_unconfirmed" } },
)

unfoldable pub remove_match : Wire → Cleaning → (Cleaning → Run) → Run
remove_match wire c next =
    if c.1.match_attempted then match_result wire.remove_match c next else next c

-- the last lines of the `finally` block, and then what the try block has raised
unfoldable pub close : Option Fault → Cleaning → Run
close failure (bad, s) =
    let closed = record s {
      permits = record s.permits { permit = none; query_path = none; write_plan = [] };
    } in
    (
      failure,
      if bad
          then record closed {
            report = record closed.report { status = some "cleanup_requires_review" };
          }
          else closed,
    )

-- the `finally` block
unfoldable pub clean_up : Target → Wire → Option Fault → Session → Run
unfolding stop_notify remove_match close
clean_up t wire failure s = stop_notify t wire s λ c. remove_match wire c λ c'. close failure c'
