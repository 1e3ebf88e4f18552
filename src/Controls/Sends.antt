-- ===== src/Controls/Sends.antt =====
-- What a control sends.
use ha_aiper_ble.Prelude.{
  String, ◌≡◌, refl, ap, ◌∙◌, Bool, true, false, List, [], ◌∷◌, ◌++◌, map, arith, if◌then◌else◌,
  str_eq,
}
use mathlib.Core.List.{append_assoc, append-nil}
use ha_aiper_ble.Outcome.{Result, ok, err}
use ha_aiper_ble.Value.{Fields, bool}
use ha_aiper_ble.Protocol.Query.{
  Query, Control, Request, query, control, make_query, make_control, is_control_action,
  query_type_of,
}
use ha_aiper_ble.Coordinator.State.{Config}
use ha_aiper_ble.Coordinator.Verified.{Python}
use ha_aiper_ble.Coordinator.Judge.{Transport}
use ha_aiper_ble.Controls.{
  Run, Step, exchange, ask, set_mode, apply, preflight, control_steps, then_step, check_step,
  read_back, check_before, check_warning,
}

-- the query types of the requests sent so far
abbrev pub sent_types : Run → List String
sent_types r = map query_type_of r.sent

-- A step sends, after what was sent before, the requests of a plan in order: all of them if it
-- succeeds, and the first few if it does not.
pub record Sends (r : Run) (plan : List String) (step : Step) : Type 0 where
  pub unsent : List String
  pub begun : sent_types step.1 ++ unsent ≡ sent_types r ++ plan
  pub finished : (values : Fields) → step.0 ≡ ok values → sent_types step.1 ≡ sent_types r ++ plan

types-append :
    (xs : List Request) (x : Request)
    → map query_type_of (xs ++ x ∷ []) ≡ map query_type_of xs ++ query_type_of x ∷ []
types-append [] x = refl
types-append (y ∷ ys) x = ap (λ r. query_type_of y ∷ r) (types-append ys x)

Sends-then :
    (r : Run) (p q : List String) (m : Step) (next : Fields → Run → Step)
    → Sends r p m
    → ((values : Fields) (r' : Run) → Sends r' q (next values r'))
    → Sends r (p ++ q) (then_step m next)
Sends-then r p q (err e, r') next h k = record {
  unsent = h.unsent ++ q;
  begun = cc (
    append_assoc (sent_types r') h.unsent q,
    append_assoc (sent_types r) p q,
    ap (λ l. l ++ q) h.begun,
  );
  finished = λ values bad. cc;
}
Sends-then r p q (ok values, r') next h k =
    let whole = h.finished values refl in
    let later = k values r' in
    record {
      unsent = later.unsent;
      begun = later.begun ∙ ap (λ l. l ++ q) whole ∙ cc (append_assoc (sent_types r) p q);
      finished = λ out good.
          later.finished out good ∙ ap (λ l. l ++ q) whole ∙ cc (append_assoc (sent_types r) p q);
    }

Sends-check :
    (r : Run) (p : List String) (check : Fields → Result Fields) (m : Step)
    → Sends r p m
    → Sends r p (check_step check m)
Sends-check r p check (err e, r') h = h
Sends-check r p check (ok values, r') h = record {
  unsent = h.unsent;
  begun = h.begun;
  finished = λ out good. h.finished values refl;
}

-- Noting the acknowledgement sends nothing.
Sends-acknowledged :
    (r : Run) (p : List String) (m : Step)
    → Sends (record r { acknowledged = true }) p m
    → Sends r p m
Sends-acknowledged r p m h = record { unsent = h.unsent; begun = h.begun; finished = h.finished }

-- The readback sends nothing more.
Sends-read :
    (starting : Bool) (r : Run) (m : Step)
    → Sends r ("INFO" ∷ []) m
    → Sends r ("INFO" ∷ []) (then_step m (λ after r2. (ok after, read_back starting after r2)))
unfolding read_back
Sends-read starting r (err e, r') h = h
Sends-read starting r (ok values, r') h = record {
  unsent = h.unsent;
  begun = h.begun;
  finished = λ out good. h.finished values refl;
}

abbrev start_plan : List String
start_plan = "INFO" ∷ "WARN" ∷ "MODE" ∷ "INFO" ∷ []

abbrev stop_plan : List String
stop_plan = "MODE" ∷ "INFO" ∷ []

abbrev pub plan : String → List String
plan action = if str_eq action "start_cleaning" then start_plan else stop_plan

module _ (py : Python) (c : Config) (execute : Transport) where
  exchange-Sends :
      (request : Request) (r : Run)
      → Sends r (query_type_of request ∷ []) (exchange py c execute request r)
  unfolding exchange
  exchange-Sends request r = record {
    unsent = [];
    begun = append-nil _ ∙ types-append r.sent request;
    finished = λ values good. types-append r.sent request;
  }

  abbrev built : String → Query
  built name = record {
    checksum_mode = "omit_empty_crc";
    write_mode = "request";
    allow_missing_advertisement = c.allow_missing;
    query_type = name;
    exploratory = false;
  }

  ask_info-Sends : (r : Run) → Sends r ("INFO" ∷ []) (ask py c execute "INFO" r)
  unfolding ask make_query
  ask_info-Sends r = exchange-Sends (query (built "INFO")) r

  ask_warn-Sends : (r : Run) → Sends r ("WARN" ∷ []) (ask py c execute "WARN" r)
  unfolding ask make_query
  ask_warn-Sends r = exchange-Sends (query (built "WARN")) r

  abbrev setter : String → Control
  setter action = record {
    action = action;
    allow_missing_advertisement = c.allow_missing;
    checksum_mode = "nonempty_crc";
    write_mode = "request";
    query_type = "MODE";
  }

  set_mode-Sends :
      (action : String) (r : Run)
      → make_control action (bool c.allow_missing) "nonempty_crc" "request" "MODE"
        ≡ ok (setter action)
      → Sends r ("MODE" ∷ []) (set_mode py c execute action r)
  unfolding set_mode
  set_mode-Sends action r h = rw (set_mode, h) (exchange-Sends (control (setter action)) r)

  accepted :
      (action : String)
      → is_control_action action ≡ true
      → make_control action (bool c.allow_missing) "nonempty_crc" "request" "MODE"
        ≡ ok (setter action)
  unfolding make_control
  accepted action h = ground arith

  apply-Sends :
      (starting : Bool) (action : String) (r : Run)
      → is_control_action action ≡ true
      → Sends r ("MODE" ∷ "INFO" ∷ []) (apply py c execute starting action r)
  unfolding apply
  apply-Sends starting action r h =
      Sends-then r ("MODE" ∷ []) ("INFO" ∷ []) (set_mode py c execute action r) _
        (set_mode-Sends action r (accepted action h))
        λ reply r1. Sends-acknowledged r1 ("INFO" ∷ []) _ (
          Sends-read starting (record r1 { acknowledged = true }) _
            (ask_info-Sends (record r1 { acknowledged = true })))

  preflight-Sends : (r : Run) → Sends r ("INFO" ∷ "WARN" ∷ []) (preflight py c execute r)
  unfolding preflight
  preflight-Sends r =
      Sends-then r ("INFO" ∷ []) ("WARN" ∷ []) _ _
        (Sends-check r ("INFO" ∷ []) check_before _ (ask_info-Sends r))
        λ before r1. Sends-check r1 ("WARN" ∷ []) check_warning _ (ask_warn-Sends r1)

  -- A control sends no more than its plan, in order and each request once, and stops at the first
  -- exchange that fails: a start reads the state and the warnings before it sets the mode, and both
  -- controls read the state back once.
  pub control_steps-Sends :
      (action : String) (r : Run)
      → is_control_action action ≡ true
      → Sends r (plan action) (control_steps py c execute action r)
  unfolding control_steps
  control_steps-Sends action r h = started_or_not (str_eq action "start_cleaning")
    where
      started_or_not :
          (b : Bool)
          → Sends r (if b then start_plan else stop_plan) (
              if b
              then then_step
                  (preflight py c execute r)
                  (λ warning r1. apply py c execute true action r1)
              else apply py c execute false action r)
      started_or_not true =
          Sends-then r ("INFO" ∷ "WARN" ∷ []) stop_plan (preflight py c execute r) _
            (preflight-Sends r) λ warning r1. apply-Sends true action r1 h
      started_or_not false = apply-Sends false action r h
