-- ===== src/Services/Ends.antt =====
-- How a local diagnostic of `handle` in __init__.py ends.
use ha_aiper_ble.Prelude.{
  ◌≡◌, refl, Bool, true, false, not, ◌&&◌, Option, none, some, arith, if_elim,
}
use ha_aiper_ble.Outcome.{Exception}
use ha_aiper_ble.Coordinator.Report.{Report, is_text}
use ha_aiper_ble.Coordinator.State.{State, set_suspended}
use ha_aiper_ble.Services.{Call, is_named, Runtime, Answer, nothing, responded, Served}
use ha_aiper_ble.Services.Probing.{
  Local, Wanted, run_diagnostic, run_probe, suspend_after, is_final, result_of, answer_of, ProbeEnd,
  is_connecting, asked_of,
}

-- The caller is told that all went well.
abbrev pub IsAnswered : Answer → Type 0
IsAnswered nothing = Unit
IsAnswered (responded r) = Unit
IsAnswered _ = ⊥

pub record IsEnded (rt : Runtime) (served : Served) : Type 0 where
  pub released : served.runtime.state.task_running ≡ false
  pub honest : IsAnswered served.answer → is_final served.runtime.last_result.status ≡ true
  pub suspended :
      is_text served.runtime.last_result.status "cleanup_requires_review" ≡ true
      → rt.has_coordinator ≡ true
      → (served.runtime.state.suspended ≡ true)
        × (served.runtime.state.error_code ≡ some "manual_probe_cleanup_requires_review")

abbrev ran : Local → Call → Wanted → Runtime → ProbeEnd
ran local call query rt = run_probe local rt.target (record {
  connect = is_connecting call.service;
  read = is_named call.service "read_once";
  query = asked_of query;
})

-- `fails`: Home Assistant's `async_set_update_error` marks the last update as failed.
module _ (set_error : Exception → State → State)
    (fails : (e : Exception) (s : State)
      → set_error e s ≡ record s { last_update_success = false }) where
  suspend_after-released :
      (b : Bool) (s : State) → (suspend_after set_error b s).task_running ≡ false
  unfolding suspend_after
  suspend_after-released true s = refl
  suspend_after-released false s = refl

  suspend_after-suspended :
      (a b : Bool) (s : State)
      → a ≡ true
      → b ≡ true
      → ((suspend_after set_error (a && b) s).suspended ≡ true)
        × ((suspend_after set_error (a && b) s).error_code
            ≡ some "manual_probe_cleanup_requires_review")
  unfolding suspend_after set_suspended
  suspend_after-suspended true true s h h' = rw (fails _ _) (refl, refl)
  suspend_after-suspended true false s h h' = cc
  suspend_after-suspended false b s h h' = cc

  answer_of-honest :
      (e : Option Exception) (r : Report) (return_response : Bool)
      → IsAnswered (answer_of set_error e r return_response)
      → is_final r.status ≡ true
  answer_of-honest none r b h =
      if_elim (λ a. IsAnswered a → is_final r.status ≡ true) (not (is_final r.status))
        (λ bad g. elim g [ ]) (λ good g. ground arith) h
  answer_of-honest (some e) r b h = elim h [ ]

  -- A diagnostic that is let through, whatever it meets, leaves the task free. It answers well only
  -- if its status is one of the five final ones. Where its cleanup requires review, the coordinator
  -- is suspended with the code that says so.
  pub run_diagnostic-IsEnded :
      (local : Local) (call : Call) (query : Wanted) (rt : Runtime)
      → IsEnded rt (run_diagnostic set_error local call query rt)
  unfolding run_diagnostic result_of
  run_diagnostic-IsEnded local call query rt = record {
    released = suspend_after-released _ _;
    honest =
        answer_of-honest (ran local call query rt).0 (ran local call query rt).1
          call.return_response;
    suspended = suspend_after-suspended _ _ _;
  }
