-- ===== src/Bluez/Permits/Plan.antt =====
-- Whatever is asked of a QueryBluez, in whatever order: what it sends to the characteristic is its plan.
use ha_aiper_ble.Prelude.{
  ◌+◌, String, ◌≡◌, refl, sym, ap, ◌∙◌, ◌⊎◌, inl, inr, Bool, true, false, not, ◌&&◌, Option, none,
  some, List, [], ◌∷◌, ◌++◌, arith, All, All-append, if◌then◌else◌, Bool-cases, str_eq, eq_iff,
  if_elim,
}
use ha_aiper_ble.Prelude.Text.{Text, text_eq_refl, text_eq_sound}
use mathlib.Core.List.{append_assoc}
use ha_aiper_ble.Target.{Target}
use ha_aiper_ble.Bluez.Guards.{Checked}
use ha_aiper_ble.Bluez.Permits.{
  Body, Message, Permits, char_interface, same_message, transmit, is_allowed, is_permitted,
  is_permitted_read, base_call, query_call, next_write, use_plan, no_reply, is_nothing,
  is_query_path, after_plan, exact,
}
use ha_aiper_ble.Bluez.Permits.Messages.{
  writes, calls_of, writes-append, calls_of-append, same_body_refl, other_interface, guarded_some,
  next_write_inversion, write_elim,
}

-- one call, and what the bus replies does not matter
pub data Operation : Type 0 where
  planned : Text → String → String → Body → Operation
  direct : Message → Operation

-- the state after one call, which may be refused
unfoldable pub perform : Option Target → Operation → Permits → Permits
unfolding exact query_call
perform target (planned path member signature body) p =
    (exact {0} {A = Unit} target path member signature body no_reply p).1
perform target (direct m) p = (query_call {0} {A = Unit} target m no_reply p).1

unfoldable pub perform_all : Option Target → List Operation → Permits → Permits
unfolding perform
perform_all target [] p = p
perform_all target (o ∷ os) p = perform_all target os (perform target o p)

-- A message that the robot's allowlist admits, or one to the characteristic of the query.
abbrev pub IsLawful : Option Target → Text → Message → Type 0
IsLawful target path m =
    (is_allowed target m ≡ true) ⊎ ((m.path ≡ path) × (m.interface ≡ char_interface))

pub record IsOrderly (target : Option Target) (path : Text) (plan : List Body) (p : Permits)
    : Type 0 where
  pub idle : p.permit ≡ none
  pub unread : p.read_path ≡ none
  pub query_path : p.query_path ≡ some path
  pub written : writes p.sent ++ p.write_plan ≡ plan
  pub starts : calls_of "StartNotify" p.sent ≡ (if p.start_used then 1 else 0)
  pub stops : calls_of "StopNotify" p.sent ≡ (if p.stop_used then 1 else 0)
  pub started : p.stop_used ≡ true → p.start_used ≡ true
  pub lawful : All (IsLawful target path) p.sent

same_message_refl : (m : Message) → same_message m m ≡ true
unfolding same_message
same_message_refl m = ground (
  arith,
  text_eq_refl m.path,
  (eq_iff m.interface m.interface).1 refl,
  (eq_iff m.member m.member).1 refl,
  (eq_iff m.signature m.signature).1 refl,
  same_body_refl m.body,
)

module _ (target : Option Target) (path : Text) (plan : List Body) where
  -- one more message, and what the plan says of it
  one_sent :
      (m : Message) (p q : Permits)
      → IsOrderly target path plan p
      → q.permit ≡ none
      → q.read_path ≡ p.read_path
      → q.query_path ≡ p.query_path
      → q.sent ≡ p.sent ++ m ∷ []
      → writes (m ∷ []) ++ q.write_plan ≡ p.write_plan
      → (if p.start_used then 1 else 0) + calls_of "StartNotify" (m ∷ [])
        ≡ (if q.start_used then 1 else 0)
      → (if p.stop_used then 1 else 0) + calls_of "StopNotify" (m ∷ [])
        ≡ (if q.stop_used then 1 else 0)
      → (q.stop_used ≡ true → q.start_used ≡ true)
      → IsLawful target path m
      → IsOrderly target path plan q
  one_sent m p q v idle unread query_path more written starts stops started lawful = record {
    idle = idle;
    unread = unread ∙ v.unread;
    query_path = query_path ∙ v.query_path;
    written =
        ap (λ ms. writes ms ++ q.write_plan) more
        ∙ ap (λ ws. ws ++ q.write_plan) (writes-append p.sent m)
        ∙ append_assoc (writes p.sent) (writes (m ∷ [])) q.write_plan
        ∙ ap (λ ws. writes p.sent ++ ws) written
        ∙ v.written;
    starts =
        ap (calls_of "StartNotify") more
        ∙ calls_of-append "StartNotify" p.sent m
        ∙ omega (arith, v.starts, starts);
    stops =
        ap (calls_of "StopNotify") more
        ∙ calls_of-append "StopNotify" p.sent m
        ∙ omega (arith, v.stops, stops);
    started = started;
    lawful = rw more (All-append (IsLawful target path) p.sent (m ∷ []) v.lawful (lawful, tt));
  }

  transmit-IsOrderly :
      (m : Message) (p : Permits)
      → is_allowed target m ≡ true
      → IsOrderly target path plan p
      → IsOrderly target path plan (transmit m p)
  unfolding transmit writes calls_of
  transmit-IsOrderly m p h v =
      let aside = other_interface target m h in
      let none_called : (member : String) → calls_of member (m ∷ []) ≡ 0 =
        λ member. rw aside refl in
      one_sent m p (transmit m p) v v.idle refl refl refl (rw aside refl)
        (omega (arith, none_called "StartNotify")) (omega (arith, none_called "StopNotify"))
        v.started (inl h)

  direct-IsOrderly :
      (m : Message) (p : Permits)
      → IsOrderly target path plan p
      → IsOrderly target path plan (perform target (direct m) p)
  unfolding perform query_call base_call is_permitted is_permitted_read
  direct-IsOrderly m p v =
      let P : Checked Unit × Permits → Type 0 = λ x. IsOrderly target path plan x.1 in
      let permitted : is_permitted p.permit m ≡ false = ap (λ o. is_permitted o m) v.idle in
      let readable : is_permitted_read p.read_path m ≡ false =
        ap (λ o. is_permitted_read o m) v.unread in
      if_elim P (is_permitted p.permit m) (λ h. cc)
        λ h.
          if_elim P (is_permitted_read p.read_path m) (λ k. cc)
            λ k. if_elim P (is_allowed target m) (λ l. transmit-IsOrderly m p l v) (λ l. v)

  -- the message of a planned call
  abbrev planned_message : String → String → Body → Message
  planned_message member signature body = record {
    path = path;
    interface = char_interface;
    member = member;
    signature = signature;
    body = body;
  }

  unfoldable through : String → String → Body → Permits → Option Permits → Permits
  unfolding query_call
  through member signature body p o =
      let m = planned_message member signature body in
      (after_plan {0} {A = Unit} o
        (λ p'. query_call target m no_reply (record p' { permit = some m })) p).1

  let_through :
      (member signature : String) (body : Body) (p q : Permits)
      → through member signature body p (some q)
        ≡ record q { permit = none; sent = q.sent ++ planned_message member signature body ∷ [] }
  unfolding through query_call transmit
  let_through member signature body p q =
      rw (same_message_refl (planned_message member signature body)) refl

  kept_none :
      (member signature : String) (body : Body) (p : Permits)
      → through member signature body p none ≡ p
  unfolding through
  kept_none member signature body p = refl

  planned-IsOrderly :
      (member signature : String) (body : Body) (p : Permits)
      → IsOrderly target path plan p
      → IsOrderly target path plan
          (through member signature body p (use_plan member signature body p))
  unfolding use_plan next_write writes calls_of
  planned-IsOrderly member signature body p v =
      let m = planned_message member signature body in
      let P : Option Permits → Type 0 =
        λ o. IsOrderly target path plan (through member signature body p o) in
      let bare = str_eq signature "" && is_nothing body in
      let writing =
        if str_eq member "WriteValue" && str_eq signature "aya{sv}"
        then next_write p.write_plan body
        else none in
      let sent : (q : Permits)
          → q.read_path ≡ p.read_path
          → q.query_path ≡ p.query_path
          → q.sent ≡ p.sent
          → writes (m ∷ []) ++ q.write_plan ≡ p.write_plan
          → (if p.start_used then 1 else 0) + calls_of "StartNotify" (m ∷ [])
            ≡ (if q.start_used then 1 else 0)
          → (if p.stop_used then 1 else 0) + calls_of "StopNotify" (m ∷ [])
            ≡ (if q.stop_used then 1 else 0)
          → (q.stop_used ≡ true → q.start_used ≡ true)
          → P (some q) =
        λ q unread same kept written starts stops started.
          rw (let_through member signature body p q) (
            one_sent m p (record q { permit = none; sent = q.sent ++ m ∷ [] }) v refl unread same
              (ap (λ ms. ms ++ m ∷ []) kept) written starts stops started (inr (refl, refl))) in
      if_elim P (str_eq member "StartNotify" && bare && not p.start_used)
        (λ h.
          let is = (eq_iff member "StartNotify").0 (ground arith) in
          let unused : p.start_used ≡ false = ground arith in
          sent (record p { start_used = true }) refl refl refl
            (ap (λ s. writes (planned_message s signature body ∷ []) ++ p.write_plan) is)
            (ap
                (λ s.
                  (if p.start_used then 1 else 0)
                  + calls_of "StartNotify" (planned_message s signature body ∷ []))
                is
              ∙ ap (λ (b : Bool). (if b then 1 else 0) + 1) unused)
            (ap
                (λ s.
                  (if p.stop_used then 1 else 0)
                  + calls_of "StopNotify" (planned_message s signature body ∷ []))
                is
              ∙ omega arith)
            (λ a. refl))
        λ h.
          if_elim P (str_eq member "StopNotify" && bare && p.start_used && not p.stop_used)
            (λ k.
              let is = (eq_iff member "StopNotify").0 (ground arith) in
              let unused : p.stop_used ≡ false = ground arith in
              let used : p.start_used ≡ true = ground arith in
              sent (record p { stop_used = true }) refl refl refl
                (ap (λ s. writes (planned_message s signature body ∷ []) ++ p.write_plan) is)
                (ap
                    (λ s.
                      (if p.start_used then 1 else 0)
                      + calls_of "StartNotify" (planned_message s signature body ∷ []))
                    is
                  ∙ omega arith)
                (ap
                    (λ s.
                      (if p.stop_used then 1 else 0)
                      + calls_of "StopNotify" (planned_message s signature body ∷ []))
                    is
                  ∙ ap (λ (b : Bool). (if b then 1 else 0) + 1) unused)
                (λ a. used))
            λ k. write_elim p P writing (rw (kept_none member signature body p) v) λ rest found.
              let (named, next) =
                guarded_some (str_eq member "WriteValue" && str_eq signature "aya{sv}")
                  (next_write p.write_plan body) found in
              let is = (eq_iff member "WriteValue").0 (ground arith) in
              sent (record p { write_plan = rest }) refl refl refl
                (ap (λ s. writes (planned_message s signature body ∷ []) ++ rest) is
                  ∙ sym (next_write_inversion p.write_plan body next))
                (ap
                    (λ s.
                      (if p.start_used then 1 else 0)
                      + calls_of "StartNotify" (planned_message s signature body ∷ []))
                    is
                  ∙ omega arith)
                (ap
                    (λ s.
                      (if p.stop_used then 1 else 0)
                      + calls_of "StopNotify" (planned_message s signature body ∷ []))
                    is
                  ∙ omega arith)
                v.started

  on_path :
      (allowed : Option Text) (observed : Text)
      → allowed ≡ some path
      → is_query_path allowed observed ≡ true
      → observed ≡ path
  on_path none observed h k = cc
  on_path (some allowed) observed h k =
      text_eq_sound observed allowed k
      ∙ ap (λ (o : Option Text). elim o [ none ↦ [] | some s ↦ s ]) h

  at_path :
      (member signature : String) (body : Body) (p : Permits)
      → IsOrderly target path plan p
      → IsOrderly target path plan (perform target (planned path member signature body) p)
  unfolding perform exact through
  at_path member signature body p v =
      if_elim (λ (x : Checked Unit × Permits). IsOrderly target path plan x.1)
        (is_query_path p.query_path path) (λ h. planned-IsOrderly member signature body p v)
        (λ h. v)

  elsewhere :
      (observed : Text) (member signature : String) (body : Body) (p : Permits)
      → is_query_path p.query_path observed ≡ false
      → perform target (planned observed member signature body) p ≡ p
  unfolding perform exact
  elsewhere observed member signature body p h =
      if_elim (λ (x : Checked Unit × Permits). x.1 ≡ p) (is_query_path p.query_path observed)
        (λ k. cc) (λ k. refl)

  -- a call through the plan, at whatever path
  exact-IsOrderly :
      (observed : Text) (member signature : String) (body : Body) (p : Permits)
      → IsOrderly target path plan p
      → IsOrderly target path plan (perform target (planned observed member signature body) p)
  exact-IsOrderly observed member signature body p v =
      elim (Bool-cases (is_query_path p.query_path observed)) [
        | inl h ↦
            rw (on_path p.query_path observed v.query_path h) (at_path member signature body p v)
        | inr h ↦ rw (elsewhere observed member signature body p h) v
      ]

  perform-IsOrderly :
      (o : Operation) (p : Permits)
      → IsOrderly target path plan p
      → IsOrderly target path plan (perform target o p)
  perform-IsOrderly (planned observed member signature body) p v =
      exact-IsOrderly observed member signature body p v
  perform-IsOrderly (direct m) p v = direct-IsOrderly m p v

  -- However often and in whatever order its methods are called, once the path and the plan of the
  -- query are set: of what a QueryBluez sends, the writes are the first bodies of the plan, in order
  -- and each once; StartNotify is sent at most once, StopNotify at most once and not without it; and
  -- any other message is on the allowlist of the robot.
  pub perform_all-IsOrderly :
      (os : List Operation) (p : Permits)
      → IsOrderly target path plan p
      → IsOrderly target path plan (perform_all target os p)
  unfolding perform_all
  perform_all-IsOrderly [] p v = v
  perform_all-IsOrderly (o ∷ os) p v =
      perform_all-IsOrderly os (perform target o p) (perform-IsOrderly o p v)
