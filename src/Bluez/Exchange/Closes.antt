-- ===== src/Bluez/Exchange/Closes.antt =====
-- The `finally` block of `QueryBluez.query_once` (telemetry.py), and how the whole call ends.
use ha_aiper_ble.Prelude.{◌≡◌, refl, ap, ◌∙◌, ◌≢◌, Bool, true, false, Option, none, some, if_elim}
use ha_aiper_ble.Prelude.Text.{Bytes}
use ha_aiper_ble.Value.{Value}
use ha_aiper_ble.Target.{Target}
use ha_aiper_ble.Protocol.Query.{Request}
use ha_aiper_ble.Protocol.Reply.{Floats}
use ha_aiper_ble.Coordinator.Report.{Report}
use ha_aiper_ble.Bluez.Guards.{
  Fault, bluez_error, probe_error, protocol_error, timed_out, interrupted, internal, Checked,
  passed, failed,
}
use ha_aiper_ble.Bluez.Permits.{nothing, Permits}
use ha_aiper_ble.Transport.Inbox.{empty_inbox}
use ha_aiper_ble.Protocol.Decoder.{new_decoder}
use ha_aiper_ble.Bluez.Exchange.{attempt, query_once}
use ha_aiper_ble.Bluez.Exchange.Answers.{attempt-IsTried}
use ha_aiper_ble.Bluez.Exchange.Ends.{IsAnswered}
use ha_aiper_ble.Bluez.Query.{Wire, Session, Run, exactly}
use ha_aiper_ble.Bluez.Release.{
  Cleaning, stop_result, query_path_of, stop_notify, match_result, remove_match, close, clean_up,
}

module _ (floats : Floats) (loads : Bytes → Option Value) (t : Target) (request : Request) where
  -- the end of the cleanup, after the notifications
  abbrev ending : Wire → Option Fault → Cleaning → Run
  ending wire failure c = remove_match wire c (λ c'. close failure c')

  -- What nothing raised and no review asked for means at the end: nothing failed, and the report stands.
  abbrev IsSettled : Option Fault → Cleaning → Run → Type 0
  IsSettled failure c x =
      x.0 ≡ none
      → x.1.report.status ≢ some "cleanup_requires_review"
      → (failure ≡ none) × (c.0 ≡ false) × (x.1.report ≡ c.1.report)

  close-IsSettled : (failure : Option Fault) (c : Cleaning) → IsSettled failure c (close failure c)
  unfolding close
  close-IsSettled failure (true, s) h k = absurd (k refl)
  close-IsSettled failure (false, s) h k = (h, refl, refl)

  -- a match that could not be removed asks for a review
  match_result-IsSettled :
      (m : Checked Unit) (failure : Option Fault) (c : Cleaning)
      → IsSettled failure c (match_result m c (λ c'. close failure c'))
  unfolding close
  match_result-IsSettled (passed u) failure (bad, s) h k = close-IsSettled failure (bad, s) h k
  match_result-IsSettled (failed interrupted) failure (bad, s) h k = cc
  match_result-IsSettled (failed (probe_error m)) failure (bad, s) h k = absurd (k refl)
  match_result-IsSettled (failed (bluez_error m)) failure (bad, s) h k = absurd (k refl)
  match_result-IsSettled (failed (protocol_error m)) failure (bad, s) h k = absurd (k refl)
  match_result-IsSettled (failed timed_out) failure (bad, s) h k = absurd (k refl)
  match_result-IsSettled (failed (internal m)) failure (bad, s) h k = absurd (k refl)

  ending-IsSettled :
      (wire : Wire) (failure : Option Fault) (c : Cleaning)
      → IsSettled failure c (ending wire failure c)
  unfolding remove_match
  ending-IsSettled wire failure c =
      if_elim (IsSettled failure c) c.1.match_attempted
        (λ on. match_result-IsSettled wire.remove_match failure c)
        (λ off. close-IsSettled failure c)

  -- the report of an exchange whose notifications were stopped
  abbrev stopped : Report → Report
  stopped r = record r { notification_cleanup = some "stop_confirmed" }

  abbrev IsStopped : Option Fault → Session → Run → Type 0
  IsStopped failure s x =
      x.0 ≡ none
      → x.1.report.status ≢ some "cleanup_requires_review"
      → (failure ≡ none) × (x.1.report ≡ stopped s.report)

  stop_result-IsStopped :
      (wire : Wire) (failure : Option Fault) (x : Checked Unit × Session)
      → IsStopped failure x.1 (stop_result x false (ending wire failure))
  stop_result-IsStopped wire failure (passed u, s) h k =
      let (fine, good, same) =
        ending-IsSettled wire failure (false, record s { report = stopped s.report }) h k in
      (fine, same)
  stop_result-IsStopped wire failure (failed interrupted, s) h k = cc
  stop_result-IsStopped wire failure (failed (probe_error m), s) h k =
      let (fine, bad, same) = ending-IsSettled wire failure (true, _) h k in cc
  stop_result-IsStopped wire failure (failed (bluez_error m), s) h k =
      let (fine, bad, same) = ending-IsSettled wire failure (true, _) h k in cc
  stop_result-IsStopped wire failure (failed (protocol_error m), s) h k =
      let (fine, bad, same) = ending-IsSettled wire failure (true, _) h k in cc
  stop_result-IsStopped wire failure (failed timed_out, s) h k =
      let (fine, bad, same) = ending-IsSettled wire failure (true, _) h k in cc
  stop_result-IsStopped wire failure (failed (internal m), s) h k =
      let (fine, bad, same) = ending-IsSettled wire failure (true, _) h k in cc

  clean_up-IsStopped :
      (wire : Wire) (failure : Option Fault) (s : Session)
      → s.notify_attempted ≡ true
      → IsStopped failure s (clean_up t wire failure s)
  unfolding clean_up stop_notify exactly
  clean_up-IsStopped wire failure s on =
      if_elim (IsStopped failure s) s.notify_attempted
        (λ yes. stop_result-IsStopped wire failure (
          exactly (some t) (query_path_of s.permits.query_path) "StopNotify" "" nothing wire.stopped
            s))
        (λ no. cc)

  clean_up_passes :
      (wire : Wire) (failure : Option Fault) (s : Session)
      → (clean_up t wire failure s).0 ≡ none
      → (clean_up t wire failure s).1.report.status ≢ some "cleanup_requires_review"
      → failure ≡ none
  unfolding clean_up stop_notify exactly
  clean_up_passes wire failure s =
      if_elim
        (λ (x : Run).
          x.0 ≡ none → x.1.report.status ≢ some "cleanup_requires_review" → failure ≡ none)
        s.notify_attempted
        (λ yes h k.
          (stop_result-IsStopped wire failure
            (exactly (some t) (query_path_of s.permits.query_path) "StopNotify" "" nothing
              wire.stopped s)
            h k).0)
        (λ no h k. (ending-IsSettled wire failure (false, s) h k).0)

  -- An exchange over BlueZ that raises nothing and asks for no review was answered, and its
  -- notifications were stopped.
  pub query_once-IsAnswered :
      (wire : Wire) (used : Bool) (permits : Permits) (r : Report)
      → (query_once floats loads t request wire used permits r).0 ≡ none
      → (query_once floats loads t request wire used permits r).1.report.status
        ≢ some "cleanup_requires_review"
      → IsAnswered floats request (query_once floats loads t request wire used permits r).1
        × ((query_once floats loads t request wire used permits r).1.report.notification_cleanup
            ≡ some "stop_confirmed")
  unfolding query_once
  query_once-IsAnswered wire true permits r h k = cc
  query_once-IsAnswered wire false permits r h k =
      let s : Session = record {
        report = record r { write_attempts = some 0 };
        stage = none;
        permits = permits;
        inbox = empty_inbox;
        decoder = new_decoder;
        match_attempted = false;
        notify_attempted = false;
      } in
      let run = attempt floats loads t request wire s in
      let tried = attempt-IsTried floats loads t request wire s in
      let fine = clean_up_passes wire run.0 run.1 h k in
      let (on, answer) = tried fine in
      let (fine', same) = clean_up-IsStopped wire run.0 run.1 on h k in
      (
        record {
          fields = answer.fields;
          candidates = answer.candidates;
          kept = ap (λ x. x.protocol_response) same ∙ answer.kept;
          matching = answer.matching;
          status = ap (λ x. x.status) same ∙ answer.status;
        },
        ap (λ x. x.notification_cleanup) same,
      )
