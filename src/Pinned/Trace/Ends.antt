-- ===== src/Pinned/Trace/Ends.antt =====
-- How `query_once` of proxy_trace.py ends.
use ha_aiper_ble.Prelude.{
  ◌≡◌, refl, sym, ap, ◌∙◌, ◌≢◌, Bool, true, false, not, ◌&&◌, Option, none, some, arith, if_elim,
}
use ha_aiper_ble.Prelude.Text.{Bytes}
use ha_aiper_ble.Prelude.Optional.{option_elim}
use ha_aiper_ble.Value.{Value}
use ha_aiper_ble.Target.{Target}
use ha_aiper_ble.Protocol.Query.{Request}
use ha_aiper_ble.Protocol.Reply.{Floats}
use ha_aiper_ble.Coordinator.Report.{Report, is_text}
use ha_aiper_ble.Transport.Session.{
  Failure, cancelled, protocol, timeout, bleak, connection, os, unexpected,
}
use ha_aiper_ble.Pinned.Trace.{
  ProxyWorld, Traced, trace_body, close_log, is_quiet, check_slots, ProxyEnd, end_trace, begun,
  proxy_query,
}
use ha_aiper_ble.Pinned.Trace.Runs.{proxy_query_elim}

-- The log was closed, and if a connection was tried, the proxy's slots are all free again.
pub record IsClosed (w : ProxyWorld) (r : Report) : Type 0 where
  pub log_cleanup : r.log_cleanup ≡ some "dedicated_connection_closed"
  pub log_closed : w.log_closed ≡ none
  pub gone : w.still_connected ≡ false
  pub quiet : w.connects ≡ true → is_quiet w.aftermath ≡ true

check_slots-quiet :
    (connects : Bool) (w : ProxyWorld) (r : Report)
    → is_text (check_slots connects w.aftermath r).status "cleanup_requires_review" ≡ false
    → (check_slots connects w.aftermath r ≡ r) × (connects ≡ true → is_quiet w.aftermath ≡ true)
unfolding check_slots
check_slots-quiet connects w r h =
    if_elim
      (λ x.
        is_text x.status "cleanup_requires_review" ≡ false
        → (x ≡ r) × (connects ≡ true → is_quiet w.aftermath ≡ true))
      (connects && not (is_quiet w.aftermath)) (λ bad quiet. cc)
      (λ good quiet. (refl, λ on. ground arith)) h

close_log-closed :
    (closed : Option Failure) (still : Bool) (r after : Report)
    → close_log closed still r ≡ some after
    → is_text after.status "cleanup_requires_review" ≡ false
    → (closed ≡ none) × (still ≡ false) × (after.log_cleanup ≡ some "dedicated_connection_closed")
unfolding close_log
close_log-closed none true r after h quiet = cc
close_log-closed none false r after h quiet = (refl, refl, cc)
close_log-closed (some cancelled) still r after h quiet = cc
close_log-closed (some (protocol code)) still r after h quiet = cc
close_log-closed (some timeout) still r after h quiet = cc
close_log-closed (some bleak) still r after h quiet = cc
close_log-closed (some connection) still r after h quiet = cc
close_log-closed (some os) still r after h quiet = cc
close_log-closed (some unexpected) still r after h quiet = cc

-- The end of a query that was begun, unless it is cancelled there, closes the log and finds the
-- proxy's slots free, or asks for a review.
pub end_trace-IsClosed :
    (w : ProxyWorld) (x : Traced)
    → (end_trace w x).raised ≢ some cancelled
    → is_text (end_trace w x).report.status "cleanup_requires_review" ≡ false
    → IsClosed w (end_trace w x).report
unfolding end_trace
end_trace-IsClosed w x =
    option_elim
      (λ (y : ProxyEnd).
        y.raised ≢ some cancelled
        → is_text y.report.status "cleanup_requires_review" ≡ false
        → IsClosed w y.report)
      (close_log w.log_closed w.still_connected x.report) _ _
      (λ after closed alive quiet.
        let (same, free) = check_slots-quiet w.connects w after quiet in
        let (shut, gone, cleanup) =
          close_log-closed w.log_closed w.still_connected x.report after closed
            (ap (λ r. is_text r.status "cleanup_requires_review") (sym same) ∙ quiet) in
        record {
          log_cleanup = ap (λ r. r.log_cleanup) same ∙ cleanup;
          log_closed = shut;
          gone = gone;
          quiet = free;
        })
      (λ cut alive quiet. absurd (alive refl))

module _ (floats : Floats) (loads : Bytes → Option Value) (t : Target) (request : Request)
    (w : ProxyWorld) where
  -- Once a call has got as far as the connection of the log, and is not cancelled, the log's
  -- connection is closed in the end and, where the robot's client has called connect, the proxy is
  -- there with all of its slots free; or the report asks for a review. This holds whatever was raised.
  pub proxy_query-IsClosed :
      (r : Report) (disabled : Bool)
      → (proxy_query floats loads t request w r).log_disable_sent ≡ some disabled
      → (proxy_query floats loads t request w r).raised ≢ some cancelled
      → is_text (proxy_query floats loads t request w r).report.status "cleanup_requires_review"
        ≡ false
      → IsClosed w (proxy_query floats loads t request w r).report
  proxy_query-IsClosed r disabled =
      proxy_query_elim floats loads t request w
        (λ y.
          y.log_disable_sent ≡ some disabled
          → y.raised ≢ some cancelled
          → is_text y.report.status "cleanup_requires_review" ≡ false
          → IsClosed w y.report)
        r (λ e tried. cc)
        (λ p route versions supported resolved selected tried.
          end_trace-IsClosed w (trace_body floats loads t request p w (begun r)))
