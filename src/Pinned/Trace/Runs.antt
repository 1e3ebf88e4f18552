-- ===== src/Pinned/Trace/Runs.antt =====
-- The branches of `query_once` of proxy_trace.py.
use ha_aiper_ble.Prelude.{◌≡◌, refl, true, not, Option, none, some, arith, if_elim}
use ha_aiper_ble.Prelude.Text.{Bytes}
use ha_aiper_ble.Prelude.Optional.{option_elim}
use ha_aiper_ble.Value.{Value}
use ha_aiper_ble.Outcome.{Result, ok, err}
use ha_aiper_ble.Target.{Target}
use ha_aiper_ble.Protocol.Query.{Request}
use ha_aiper_ble.Protocol.Reply.{Floats}
use ha_aiper_ble.Coordinator.Report.{Report}
use ha_aiper_ble.Transport.Session.{Failure, protocol, failure_of}
use ha_aiper_ble.Pinned.Routes.{KnownRoute}
use ha_aiper_ble.Pinned.Proxy.{Resolved, resolve_proxy, select_route}
use ha_aiper_ble.Pinned.Trace.{
  ProxyWorld, Traced, unless_raised, trace_body, ProxyEnd, end_trace, untouched, begun, unless_err,
  proxy_query,
}

-- `unless_raised` reaches what follows only where nothing was raised.
pub raised_elim {ℓ} :
    (P : Traced → Type ℓ) (o : Option Failure) (x : Traced) (next : Traced → Traced)
    → ((e : Failure) → P (record x { raised = some e }))
    → (o ≡ none → P (next x))
    → P (unless_raised o x next)
raised_elim P none x next stop go = go refl
raised_elim P (some e) x next stop go = stop e

result_elim {ℓ κ} :
    {A : Type ℓ} (P : ProxyEnd → Type κ) (m : Result A) (r : Report) (next : A → ProxyEnd)
    → ((e : Failure) → P (untouched e r))
    → ((a : A) → m ≡ ok a → P (next a))
    → P (unless_err m r next)
result_elim P (ok a) r next stop go = go a refl
result_elim P (err e) r next stop go = stop (failure_of e)

module _ (floats : Floats) (loads : Bytes → Option Value) (t : Target) (request : Request)
    (w : ProxyWorld) where
  -- A call ends before anything is tried, or it goes on with a proxy, a route and its log.
  pub proxy_query_elim {ℓ} :
      (P : ProxyEnd → Type ℓ) (r : Report)
      → ((e : Failure) → P (untouched e r))
      → ((p : Resolved) (route : KnownRoute)
          → w.versions ≡ none
          → w.supported ≡ true
          → resolve_proxy w.entry ≡ ok p
          → select_route t p.source w.manager ≡ ok route
          → P (end_trace w (trace_body floats loads t request p w (begun r))))
      → P (proxy_query floats loads t request w r)
  unfolding proxy_query
  proxy_query_elim P r stop go =
      option_elim P w.versions _ _ (λ e raised. stop e)
        λ versions.
          if_elim P (not w.supported) (λ bad. stop (protocol "proxy_trace_versions_unsupported"))
            λ supported. result_elim P (resolve_proxy w.entry) r _ stop λ p resolved.
              result_elim P (select_route t p.source w.manager) r _ stop λ route selected.
                if_elim P (not w.has_address)
                  (λ bad. stop (protocol "proxy_trace_address_unavailable"))
                  (λ good. go p route versions (ground arith) resolved selected)
