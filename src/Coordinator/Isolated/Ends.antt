-- ===== src/Coordinator/Isolated/Ends.antt =====
-- How an isolated query ends.
use ha_aiper_ble.Prelude.{
  ℕ, ◌+◌, ◌≡◌, refl, ap, ◌∙◌, inr, Bool, true, false, not, ◌||◌, none, some, arith, str_eq,
}
use ha_aiper_ble.Outcome.{
  Exception, Result, ok, err, protocol, update_failed, timeout, cancelled, other,
}
use ha_aiper_ble.Value.{Fields, bool, end}
use ha_aiper_ble.Protocol.Query.{Query, Request, query, make_query, is_fixed_query}
use ha_aiper_ble.Coordinator.Report.{Report, new_report, is_text}
use ha_aiper_ble.Coordinator.State.{Config, State, seconds}
use ha_aiper_ble.Coordinator.Verified.{Python}
use ha_aiper_ble.Coordinator.Judge.{Exchange, Transport, text_or}
use ha_aiper_ble.Coordinator.Isolated.{
  unless_refused, Asked, argument_refusal, is_isolated_query, refusal, IsolatedResult,
  query_isolated, run_isolated, conclude, review, handle_isolated, end_isolated, judge_isolated,
}

admitted-query :
    (c : Config) (a : Asked)
    → argument_refusal a ≡ none
    → make_query "omit_empty_crc" "request" (bool c.allow_missing) a.query_type a.exploratory
      ≡ ok (record {
        checksum_mode = "omit_empty_crc";
        write_mode = "request";
        allow_missing_advertisement = c.allow_missing;
        query_type = a.query_type;
        exploratory = a.exploratory;
      })
unfolding argument_refusal make_query is_isolated_query is_fixed_query
admitted-query c a h = ground arith

-- The cleanups that a report may leave in doubt: the connection's, the notifications', the signal
-- match's and the log's.
unfoldable pub in_doubt : Report → Bool
in_doubt r =
    elim r.cleanup [ none ↦ false | some c ↦ not (str_eq c "disconnected_confirmed") ]
    || is_text r.notification_cleanup "stop_unconfirmed"
    || is_text r.notification_cleanup "ownership_uncertain"
    || is_text r.signal_cleanup "remove_match_unconfirmed"
    || is_text r.log_cleanup "unconfirmed"

-- What every isolated query leaves, given the report as the transport and the checks left it: the
-- task is free, the cooldown has begun at its end, a cleanup in doubt has suspended the transport,
-- and a suspended transport publishes nothing and is not polled.
pub record IsConcluded (c : Config) (finished : ℕ) (r : Report) (result : IsolatedResult)
    (s : State) : Type 0 where
  pub free : s.task_running ≡ false
  pub ended : s.last_attempt_finished ≡ some finished
  pub waits : s.next_attempt ≡ finished + seconds c.interval
  pub doubted : in_doubt r ≡ true → s.suspended ≡ true
  pub silent : s.suspended ≡ true → result.values ≡ end
  pub marked : s.suspended ≡ true → s.status ≡ "suspended"
  pub stopped : s.suspended ≡ true → s.update_interval ≡ none

module _ (set_error : Exception → State → State)
    (fails : (e : Exception) (s : State)
      → set_error e s ≡ record s { last_update_success = false }) where
  conclude-IsConcluded :
      (c : Config) (finished : ℕ) (interrupted : Bool) (values : Fields) (s : State) (r r' : Report)
      → (in_doubt r ≡ true → s.suspended ≡ true)
      → let x = conclude set_error c finished interrupted values (s, r') in
        IsConcluded c finished r x.0 x.1
  unfolding conclude
  conclude-IsConcluded c finished interrupted values s r r' doubted =
      rw
        (fails (update_failed (text_or r'.error_code "None"))
          (record s { status = "suspended"; error_code = r'.error_code; update_interval = none }))
        (ground arith)

  review-doubted : (s : State) (r : Report) → in_doubt r ≡ true → (review (s, r)).0.suspended ≡ true
  unfolding review in_doubt
  review-doubted s r h = ground arith

  handle_isolated-in_doubt :
      (e : Exception) (r : Report) → in_doubt (handle_isolated e r) ≡ in_doubt r
  unfolding handle_isolated in_doubt
  handle_isolated-in_doubt cancelled r = refl
  handle_isolated-in_doubt (protocol k) r = refl
  handle_isolated-in_doubt (update_failed k) r = refl
  handle_isolated-in_doubt timeout r = refl
  handle_isolated-in_doubt other r = refl

  failed-IsConcluded :
      (c : Config) (finished : ℕ) (interrupted : Bool) (e : Exception) (s : State) (r : Report)
      → let x = conclude set_error c finished interrupted end (review (s, handle_isolated e r)) in
        IsConcluded c finished r x.0 x.1
  failed-IsConcluded c finished interrupted e s r =
      let x = review (s, handle_isolated e r) in
      conclude-IsConcluded c finished interrupted end x.0 r x.1
        λ h. review-doubted s (handle_isolated e r) (handle_isolated-in_doubt e r ∙ h)

  end_isolated-IsConcluded :
      (c : Config) (finished : ℕ) (outcome : Result Fields) (s : State) (r : Report)
      → let x = end_isolated set_error c finished (outcome, s, r) in
        IsConcluded c finished r x.0 x.1
  unfolding end_isolated
  end_isolated-IsConcluded c finished (ok values) s r =
      let x = review (s, r) in
      conclude-IsConcluded c finished false values x.0 r x.1 (review-doubted s r)
  end_isolated-IsConcluded c finished (err cancelled) s r =
      failed-IsConcluded c finished true cancelled s r
  end_isolated-IsConcluded c finished (err (protocol k)) s r =
      failed-IsConcluded c finished false (protocol k) s r
  end_isolated-IsConcluded c finished (err (update_failed k)) s r =
      failed-IsConcluded c finished false (update_failed k) s r
  end_isolated-IsConcluded c finished (err timeout) s r =
      failed-IsConcluded c finished false timeout s r
  end_isolated-IsConcluded c finished (err other) s r =
      failed-IsConcluded c finished false other s r

judge_isolated-in_doubt :
    (py : Python) (request : Request) (x : Exchange) (s : State)
    → in_doubt (judge_isolated py request x s).2 ≡ in_doubt x.report
unfolding judge_isolated in_doubt
judge_isolated-in_doubt py request x s = ground arith

argument_admitted :
    (c : Config) (now : ℕ) (a : Asked) (s : State)
    → refusal c now a s ≡ none
    → argument_refusal a ≡ none
unfolding refusal
argument_admitted c now a s h = ground arith

IsConcluded-report :
    (c : Config) (finished : ℕ) (r r' : Report) (result : IsolatedResult) (s : State)
    → in_doubt r' ≡ in_doubt r
    → IsConcluded c finished r' result s
    → IsConcluded c finished r result s
IsConcluded-report c finished r r' result s same h = record {
  free = h.free;
  ended = h.ended;
  waits = h.waits;
  doubted = λ d. h.doubted (same ∙ d);
  silent = h.silent;
  marked = h.marked;
  stopped = h.stopped;
}

-- the request of an isolated query that is let through
abbrev pub built : Config → Asked → Query
built c a = record {
  checksum_mode = "omit_empty_crc";
  write_mode = "request";
  allow_missing_advertisement = c.allow_missing;
  query_type = a.query_type;
  exploratory = a.exploratory;
}

abbrev made : Config → Asked → Result Query
made c a = make_query "omit_empty_crc" "request" (bool c.allow_missing) a.query_type a.exploratory

-- An isolated query that is not refused always ends: it makes exactly one exchange, frees the task
-- and starts the cooldown at the end of the exchange. If the report leaves a cleanup in doubt,
-- the log's included, the transport is suspended, and a suspended transport returns no values and is not polled. `set_error`
-- is to do what Home Assistant documents: it marks the last update as failed.
pub query_isolated-IsConcluded :
    (set_error : Exception → State → State)
    (fails : (e : Exception) (s : State) → set_error e s ≡ record s { last_update_success = false })
    (py : Python) (c : Config) (execute : Transport) (now : ℕ) (a : Asked) (s : State)
    → refusal c now a s ≡ none
    → let x = execute (new_report a.query_type) (query (built c a)) in
      (result : IsolatedResult) × (s' : State) × (query_isolated set_error py c execute now a s
        ≡ some (inr (result, s')))
      × IsConcluded c x.finished x.report result s'
unfolding query_isolated run_isolated
query_isolated-IsConcluded set_error fails py c execute now a s h =
    let x = execute (new_report a.query_type) (query (built c a)) in
    let j =
      judge_isolated py (query (built c a)) x
        (record s { task_running = true; closing = x.closing }) in
    let ended = end_isolated set_error c x.finished j in
    (
      ended.0,
      ended.1,
      ap (λ o. unless_refused o (run_isolated set_error py c execute a s (made c a))) h
          ∙ ap (λ m. unless_refused none (run_isolated set_error py c execute a s m))
              (admitted-query c a (argument_admitted c now a s h)),
      IsConcluded-report c x.finished x.report j.2 ended.0 ended.1
          (judge_isolated-in_doubt py (query (built c a)) x
            (record s { task_running = true; closing = x.closing }))
          (end_isolated-IsConcluded set_error fails c x.finished j.0 j.1 j.2),
    )
