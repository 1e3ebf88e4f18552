-- ===== src/Coordinator/Update/Sent.antt =====
-- What a polling cycle of coordinator.py sends: one exchange for each query, and none after a failure.
use ha_aiper_ble.Prelude.{
  ℕ, ◌+◌, String, ◌≡◌, refl, ◌≢◌, ◌⊎◌, false, Option, none, some, List, [], ◌∷◌, arith, ◌==◌,
  if◌then◌else◌,
}
use ha_aiper_ble.Outcome.{ok}
use ha_aiper_ble.Value.{Fields, bool}
use ha_aiper_ble.Protocol.Query.{Query, query, make_query}
use ha_aiper_ble.Protocol.Query.{Request}
use ha_aiper_ble.Coordinator.State.{Config, State}
use ha_aiper_ble.Coordinator.Report.{Report, new_report}
use ha_aiper_ble.Coordinator.Verified.{Python}
use ha_aiper_ble.Coordinator.Update.{run_queries}
use ha_aiper_ble.Coordinator.Update.Cycle.{
  IsComplete, Judged, judge_ok, is_complete-IsComplete, judged, run_queries_elim,
}
use ha_aiper_ble.Coordinator.Judge.{Exchange, Transport, update, judge}

-- The report that a query of the cycle starts with: its type and its place, and nothing of the queries
-- before it but the time since the last.
abbrev pub fresh : String → ℕ → Option ℕ → Report
fresh query_type index since = record (new_report query_type) {
  cycle_query_index = some index;
  since_previous = if index == 1 then none else since;
}

-- One report of a cycle, with those that follow it: it is what one exchange of the query made of a
-- fresh report, at most with the phase that the checks write, and the cycle went on only if that
-- exchange was complete and raised nothing.
pub record IsSent (c : Config) (execute : Transport) (since : ℕ → Option ℕ) (t : String) (i : ℕ)
    (r : Report) (later : List Report) : Type 0 where
  pub q : Query
  pub made : make_query "omit_empty_crc" "request" (bool c.allow_missing) t false ≡ ok q
  pub once :
      let x = execute (fresh t i (since i)) (query q) in
      (r ≡ x.report) ⊎ (r ≡ record x.report { phase = some "verify_response" })
  pub went_on :
      later ≢ []
      → let x = execute (fresh t i (since i)) (query q) in
        (x.raised ≡ none) × (x.cancel_requested ≡ false) × IsComplete x.report

-- The reports are those of the first queries, in order, one for each.
abbrev pub Sent : Config → Transport → (ℕ → Option ℕ) → List String → ℕ → List Report → Type 0
Sent c execute since queries i [] = Unit
Sent c execute since [] i (r ∷ rs) = ⊥
Sent c execute since (t ∷ ts) i (r ∷ rs) =
    IsSent c execute since t i r rs × Sent c execute since ts (i + 1) rs

judge-report :
    (py : Python) (request : Request) (x : Exchange) (s : State)
    → ((judge py request x s).2 ≡ x.report)
      ⊎ ((judge py request x s).2 ≡ record x.report { phase = some "verify_response" })
unfolding judge
judge-report py request x s = ground arith

module _ (py : Python) (c : Config) (execute : Transport) (since : ℕ → Option ℕ) where
  abbrev sent : String → ℕ → Query → Exchange
  sent t i q = execute (fresh t i (since i)) (query q)

  abbrev after_sent : String → ℕ → Query → State → State
  after_sent t i q s = record s { closing = (sent t i q).closing }

  -- Whatever happens in a cycle, its reports are those of the first queries of the list, in order, one
  -- for each: no query is retried. Each is what one exchange of the query made of a fresh report, at
  -- most with the phase that the checks write, and a query is sent only if the exchanges before it
  -- were complete and raised nothing.
  pub run_queries-Sent :
      (queries : List String) (i : ℕ) (values : Fields) (s : State)
      → Sent c execute since queries i (run_queries py c execute since queries i values s).reports
  unfolding run_queries
  run_queries-Sent [] i values s = tt
  run_queries-Sent (t ∷ ts) i values s =
      run_queries_elim py c execute since (λ e. Sent c execute since (t ∷ ts) i e.reports) t ts i
        values s (λ e. tt)
        (λ q e made failed. (
          record {
            q = q;
            made = made;
            once = judge-report py (query q) (sent t i q) (after_sent t i q s);
            went_on = λ more. absurd (more refl);
          },
          tt,
        ))
        (λ q more made good.
          let j : Judged py (query q) (sent t i q) (after_sent t i q s) more =
            judge_ok py (query q) (sent t i q) (after_sent t i q s) more good in
          (
            record {
              q = q;
              made = made;
              once = judge-report py (query q) (sent t i q) (after_sent t i q s);
              went_on = λ later. (
                j.not_raised,
                j.not_cancelled,
                is_complete-IsComplete (sent t i q).report j.complete,
              );
            },
            run_queries-Sent ts (i + 1) (update values more) (judged py c execute since t i q s).1,
          ))
