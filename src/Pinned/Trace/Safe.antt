-- ===== src/Pinned/Trace/Safe.antt =====
-- What `query_once` of proxy_trace.py has checked before anything is sent.
use ha_aiper_ble.Prelude.{◌≡◌, refl, ◌⊎◌, inl, inr, true, Option, none, some, List, [], if_elim}
use ha_aiper_ble.Prelude.Text.{Bytes}
use ha_aiper_ble.Prelude.Optional.{option_elim}
use ha_aiper_ble.Value.{Value}
use ha_aiper_ble.Outcome.{ok}
use ha_aiper_ble.Target.{Target}
use ha_aiper_ble.Protocol.Query.{Request}
use ha_aiper_ble.Protocol.Reply.{Floats}
use ha_aiper_ble.Coordinator.Report.{Report}
use ha_aiper_ble.Transport.Exchange.Sends.{IsCleared, attempt-IsTried}
use ha_aiper_ble.Transport.Bluetooth.{query_once, start}
use ha_aiper_ble.Pinned.Routes.{KnownRoute}
use ha_aiper_ble.Pinned.Proxy.{Resolved, resolve_proxy, select_route, guard}
use ha_aiper_ble.Pinned.Trace.{
  ProxyWorld, Traced, proxy_link, is_same_proxy, managed, with_log, trace_body, close_log, ProxyEnd,
  end_trace, begun, proxy_query,
}
use ha_aiper_ble.Pinned.Trace.Runs.{raised_elim, proxy_query_elim}

-- All that is checked of the proxy and of its log before the first write.
pub record IsWatched (t : Target) (request : Request) (w : ProxyWorld) : Type 0 where
  pub versions : w.versions ≡ none
  pub supported : w.supported ≡ true
  pub proxy : Resolved
  pub resolved : resolve_proxy w.entry ≡ ok proxy
  pub route : KnownRoute
  pub selected : select_route t proxy.source w.manager ≡ ok route
  pub log_opened : w.log_opened ≡ none
  pub same_proxy : is_same_proxy proxy w.observed ≡ true
  pub subscribed : w.subscribed ≡ none
  pub ordered : w.ordered ≡ none
  pub guarded : guard proxy w.before_query ≡ none
  pub cleared : IsCleared t request (proxy_link t proxy w)

end_trace-written : (w : ProxyWorld) (x : Traced) → (end_trace w x).written ≡ x.written
unfolding end_trace
end_trace-written w x =
    option_elim (λ (y : ProxyEnd). y.written ≡ x.written)
      (close_log w.log_closed w.still_connected x.report) _ _ (λ after closed. refl) (λ cut. refl)

-- Nothing was sent, or all was checked.
abbrev pub IsSafe : Target → Request → ProxyWorld → List Bytes → Type 0
IsSafe t request w written = (written ≡ []) ⊎ IsWatched t request w

module _ (floats : Floats) (loads : Bytes → Option Value) (t : Target) (request : Request)
    (w : ProxyWorld) where
  managed-IsSafe :
      (p : Resolved) (x : Traced)
      → x.written ≡ []
      → (IsCleared t request (proxy_link t p w) → IsWatched t request w)
      → IsSafe t request w (managed floats loads t request p w x).written
  unfolding managed query_once start
  managed-IsSafe p x unsent watched =
      let link = proxy_link t p w in
      let cleared =
        (attempt-IsTried floats loads request t link (start link.diagnostics x.report)
          (record { written = refl; write_attempts = refl })).cleared in
      let safe : IsSafe t request w (query_once floats loads t request link x.report).written =
        elim cleared [ inl none_sent ↦ inl none_sent | inr good ↦ inr (watched good) ] in
      raised_elim (λ y. IsSafe t request w y.written) _
        (record x {
          report = (query_once floats loads t request link x.report).report;
          written = (query_once floats loads t request link x.report).written;
        })
        (λ x1. record x1 { raised = w.slept }) (λ e. safe) (λ alive. safe)

  abbrev pending : Traced → Traced
  pending x = record x {
    attempted = true;
    report = record x.report { log_cleanup = some "pending" };
  }

  with_log-IsSafe :
      (p : Resolved) (x : Traced)
      → x.written ≡ []
      → (w.subscribed ≡ none
          → w.ordered ≡ none
          → guard p w.before_query ≡ none
          → IsCleared t request (proxy_link t p w)
          → IsWatched t request w)
      → IsSafe t request w (with_log floats loads t request p w x).written
  unfolding with_log
  with_log-IsSafe p x unsent watched =
      raised_elim (λ y. IsSafe t request w y.written) w.subscribed _ _ (λ e. inl unsent)
        λ subscribed.
          raised_elim (λ y. IsSafe t request w y.written) w.ordered _ _ (λ e. inl unsent)
            λ ordered.
              raised_elim (λ y. IsSafe t request w y.written) (guard p w.before_query) _ _
                (λ e. inl unsent)
                λ guarded. managed-IsSafe p (pending x) unsent (watched subscribed ordered guarded)

  trace_body-IsSafe :
      (p : Resolved) (x : Traced)
      → x.written ≡ []
      → (w.log_opened ≡ none
          → is_same_proxy p w.observed ≡ true
          → w.subscribed ≡ none
          → w.ordered ≡ none
          → guard p w.before_query ≡ none
          → IsCleared t request (proxy_link t p w)
          → IsWatched t request w)
      → IsSafe t request w (trace_body floats loads t request p w x).written
  unfolding trace_body
  trace_body-IsSafe p x unsent watched =
      raised_elim (λ y. IsSafe t request w y.written) w.log_opened _ _ (λ e. inl unsent)
        λ opened.
          if_elim (λ (y : Traced). IsSafe t request w y.written) (is_same_proxy p w.observed)
            (λ same. with_log-IsSafe p x unsent (watched opened same)) (λ other. inl unsent)

  -- Nothing is sent to the robot before the versions, the proxy, the one idle route over it, the
  -- log's own connection to the same proxy with its subscription, and the guards have all been
  -- checked, each check of the exchange itself and of the connected backend included.
  pub proxy_query-IsSafe :
      (r : Report) → IsSafe t request w (proxy_query floats loads t request w r).written
  proxy_query-IsSafe r =
      proxy_query_elim floats loads t request w (λ y. IsSafe t request w y.written) r
        (λ e. inl refl)
        λ p route versions supported resolved selected.
          rw (end_trace-written w (trace_body floats loads t request p w (begun r))) (
            trace_body-IsSafe p (begun r) refl λ opened same subscribed ordered guarded cleared.
              record {
                versions = versions;
                supported = supported;
                proxy = p;
                resolved = resolved;
                route = route;
                selected = selected;
                log_opened = opened;
                same_proxy = same;
                subscribed = subscribed;
                ordered = ordered;
                guarded = guarded;
                cleared = cleared;
              })
