-- ===== src/Coordinator/Update/Cycle.antt =====
-- What one polling cycle sends, and when its values count.
use ha_aiper_ble.Prelude.{
  ℕ, ◌+◌, String, ◌≡◌, refl, ap, Bool, true, false, ◌&&◌, Option, none, some, List, [], ◌∷◌, arith,
  eq_iff, if_elim,
}
use ha_aiper_ble.Outcome.{Exception, Result, ok, err, cancelled}
use ha_aiper_ble.Value.{Fields, bool}
use ha_aiper_ble.Protocol.Query.{Query, Request, query, make_query, query_type_of}
use ha_aiper_ble.Coordinator.State.{Config, State}
use ha_aiper_ble.Coordinator.Report.{Report, is_text}
use ha_aiper_ble.Coordinator.Verified.{Python, verified_values}
use ha_aiper_ble.Coordinator.Update.{run_queries, first_report}
use ha_aiper_ble.Coordinator.Judge.{
  Exchange, Transport, CycleEnd, is_complete, update, judge, stop, after_query, after_judge,
}

-- A report of a query whose answer may count.
pub record IsComplete (r : Report) : Type 0 where
  pub done : r.status ≡ some "query_complete"
  pub cleaned : r.cleanup ≡ some "disconnected_confirmed"
  pub stopped : r.notification_cleanup ≡ some "stop_confirmed"

is_text_sound : (o : Option String) (text : String) → is_text o text ≡ true → o ≡ some text
is_text_sound none text h = cc
is_text_sound (some s) text h = ap some ((eq_iff s text).0 h)

and_both : (a b : Bool) → (a && b) ≡ true → (a ≡ true) × (b ≡ true)
and_both a b h = ground arith

pub is_complete-IsComplete : (r : Report) → is_complete r ≡ true → IsComplete r
unfolding is_complete
is_complete-IsComplete r h =
    let status = is_text r.status "query_complete" in
    let cleanup = is_text r.cleanup "disconnected_confirmed" in
    let notification = is_text r.notification_cleanup "stop_confirmed" in
    let (first, third) = and_both (status && cleanup) notification h in
    let (one, two) = and_both status cleanup first in
    record {
      done = is_text_sound r.status "query_complete" one;
      cleaned = is_text_sound r.cleanup "disconnected_confirmed" two;
      stopped = is_text_sound r.notification_cleanup "stop_confirmed" third;
    }

-- The phase that is written after the checks changes none of them.
reviewed : {r : Report} → IsComplete r → IsComplete (record r { phase = some "verify_response" })
reviewed h = record { done = h.done; cleaned = h.cleaned; stopped = h.stopped }

-- What `judge` has found when it gives values.
pub record Judged (py : Python) (request : Request) (x : Exchange) (s : State) (values : Fields)
    : Type 0 where
  pub not_raised : x.raised ≡ none
  pub not_cancelled : x.cancel_requested ≡ false
  pub complete : is_complete x.report ≡ true
  pub reported : (judge py request x s).2 ≡ record x.report { phase = some "verify_response" }
  pub verified : verified_values py x.report.protocol_response request ≡ ok values

pub judge_ok :
    (py : Python) (request : Request) (x : Exchange) (s : State) (values : Fields)
    → (judge py request x s).0 ≡ ok values
    → Judged py request x s values
unfolding judge
judge_ok py request x s values h = ground arith

-- One query of a cycle, answered: complete and cleaned up, with a reply whose values were verified.
pub record IsAnswer (py : Python) (query_type : String) (r : Report) (values : Fields)
    : Type 0 where
  pub request : Request
  pub asks : query_type_of request ≡ query_type
  pub complete : IsComplete r
  pub verified : verified_values py r.protocol_response request ≡ ok values

-- The reports answer the queries, one by one and in order, and their values, each taken into the
-- values so far, give `out`.
abbrev pub Answers : Python → List String → List Report → Fields → Fields → Type 0
Answers py [] [] values out = values ≡ out
Answers py [] (r ∷ rs) values out = ⊥
Answers py (q ∷ qs) [] values out = ⊥
Answers py (q ∷ qs) (r ∷ rs) values out =
    (more : Fields) × IsAnswer py q r more × Answers py qs rs (update values more) out

make_query-query_type :
    (allow : Bool) (query_type : String) (q : Query)
    → make_query "omit_empty_crc" "request" (bool allow) query_type false ≡ ok q
    → q.query_type ≡ query_type
unfolding make_query
make_query-query_type allow query_type q h = ground arith

module _ (P : CycleEnd → Type 0) where
  after_query_elim :
      (m : Result Query) (s : State) (send : Query → CycleEnd)
      → ((e : Exception) → P (stop (err e) s []))
      → ((q : Query) → m ≡ ok q → P (send q))
      → P (after_query m s send)
  unfolding after_query
  after_query_elim (err e) s send refused sent = refused e
  after_query_elim (ok q) s send refused sent = sent q refl

  after_judge_elim :
      (m : Result Fields × State × Report) (next : Fields → State → CycleEnd)
      → ((e : Exception) → m.0 ≡ err e → P (stop (err e) m.1 (m.2 ∷ [])))
      → ((more : Fields)
          → m.0 ≡ ok more
          → P (stop (next more m.1).outcome (next more m.1).state (m.2 ∷ (next more m.1).reports)))
      → P (after_judge m next)
  unfolding after_judge
  after_judge_elim (err e, s, r) next failed went_on = failed e refl
  after_judge_elim (ok more, s, r) next failed went_on = went_on more refl

module _ (py : Python) (c : Config) (execute : Transport) (since : ℕ → Option ℕ) where
  abbrev pub cycle : List String → ℕ → Fields → State → CycleEnd
  cycle = run_queries py c execute since

  -- The exchange of a query, and what is made of it.
  abbrev pub exchange : String → ℕ → Query → Exchange
  exchange t i q = execute (first_report py t i (since i)) (query q)

  abbrev pub judged : String → ℕ → Query → State → Result Fields × State × Report
  judged t i q s = let x = exchange t i q in judge py (query q) x (record s { closing = x.closing })

  -- One round of the loop, for any property of how it ends.
  pub run_queries_elim :
      (P : CycleEnd → Type 0) (t : String) (ts : List String) (i : ℕ) (values : Fields) (s : State)
      → ((e : Exception) → P (stop (err e) s []))
      → ((q : Query) (e : Exception)
          → make_query "omit_empty_crc" "request" (bool c.allow_missing) t false ≡ ok q
          → (judged t i q s).0 ≡ err e
          → P (stop (err e) (judged t i q s).1 ((judged t i q s).2 ∷ [])))
      → ((q : Query) (more : Fields)
          → make_query "omit_empty_crc" "request" (bool c.allow_missing) t false ≡ ok q
          → (judged t i q s).0 ≡ ok more
          → let later = cycle ts (i + 1) (update values more) (judged t i q s).1 in
            P (stop later.outcome later.state ((judged t i q s).2 ∷ later.reports)))
      → P (cycle (t ∷ ts) i values s)
  unfolding run_queries
  run_queries_elim P t ts i values s ended failed went_on =
      if_elim P s.closing (λ closed. ended cancelled)
        λ open_entry. after_query_elim P _ s _ ended λ q made.
          after_judge_elim P (judged t i q s) _ (λ e. failed q e made) λ more. went_on q more made

  answer :
      (t : String) (i : ℕ) (q : Query) (s : State) (more : Fields)
      → make_query "omit_empty_crc" "request" (bool c.allow_missing) t false ≡ ok q
      → (judged t i q s).0 ≡ ok more
      → IsAnswer py t (judged t i q s).2 more
  answer t i q s more made good =
      let x = exchange t i q in
      let j : Judged py (query q) x (record s { closing = x.closing }) more =
        judge_ok py (query q) x (record s { closing = x.closing }) more good in
      record {
        request = query q;
        asks = make_query-query_type c.allow_missing t q made;
        complete = rw j.reported (reviewed (is_complete-IsComplete x.report j.complete));
        verified = rw j.reported j.verified;
      }

  pub run_queries-Answers :
      (queries : List String) (i : ℕ) (values : Fields) (s : State) {out : Fields}
      → (cycle queries i values s).outcome ≡ ok out
      → Answers py queries (cycle queries i values s).reports values out
  unfolding run_queries
  run_queries-Answers [] i values s h = cc
  run_queries-Answers (t ∷ ts) i values s {out} h =
      run_queries_elim (λ e. e.outcome ≡ ok out → Answers py (t ∷ ts) e.reports values out) t ts i
        values s (λ e bad. cc) (λ q e made failed bad. cc)
        (λ q more made good rest. (
          more,
          answer t i q s more made good,
          run_queries-Answers ts (i + 1) (update values more) (judged t i q s).1 rest,
        ))
        h
