-- ===== src/Bluez/Query.antt =====
-- `QueryBluez.query_once` of telemetry.py: one exchange on the robot that `probe` has connected. What
-- BlueZ and the robot do is the parameter `Wire`.
use ha_aiper_ble.Prelude.{
  ℕ, ◌+◌, String, Bool, false, ◌&&◌, Option, none, some, List, [], ◌∷◌, if◌then◌else◌, str_eq,
}
use ha_aiper_ble.Prelude.Int.{ℤ}
use ha_aiper_ble.Prelude.Text.{Text, Bytes, text_eq}
use ha_aiper_ble.Value.{Value, int}
use ha_aiper_ble.Outcome.{Exception, Result, ok, err}
use ha_aiper_ble.Outcome
use ha_aiper_ble.Target.{Target}
use ha_aiper_ble.Protocol.Query.{Request}
use ha_aiper_ble.Protocol.Decoder.{Decoder, Received}
use ha_aiper_ble.Protocol.Reply.{Floats}
use ha_aiper_ble.Coordinator.Report.{Report}
use ha_aiper_ble.Transport.Inbox.{
  Inbox, Item, put_all, Offered, refused, unmatched, matched, take_item, decode,
}
use ha_aiper_ble.Transport.Session.{write_mode_of}
use ha_aiper_ble.Bluez.Objects.{Objects}
use ha_aiper_ble.Bluez.Guards.{
  Fault, protocol_error, timed_out, interrupted, internal, Checked, passed, failed,
}
use ha_aiper_ble.Bluez.Permits.{
  Body, chunk, Permits, answer, exact, char_interface, properties_interface,
}

-- A message on the bus. A body that is no PropertiesChanged of one "Value" has no `value`.
pub record Signal : Type 0 where
  pub is_signal : Bool
  pub sender : Option Text
  pub path : Option Text
  pub interface : String
  pub member : String
  pub changed : String
  pub value : Option Received

-- `handler`: the value that is queued, given the owner of the name and the path of the query
unfoldable pub accepted : Text → Text → Signal → Option Received
unfolding text_eq
accepted owner path m =
    if m.is_signal
      && elim m.sender [ none ↦ false | some s ↦ text_eq s owner ]
      && elim m.path [ none ↦ false | some p ↦ text_eq p path ]
      && str_eq m.interface properties_interface
      && str_eq m.member "PropertiesChanged"
      && str_eq m.changed char_interface
    then m.value
    else none

unfoldable pub accept_all : Text → Text → List Signal → List Received
unfolding accepted
accept_all owner path [] = []
accept_all owner path (m ∷ ms) =
    let rest = accept_all owner path ms in
    elim (accepted owner path m) [ none ↦ rest | some v ↦ v ∷ rest ]

pub data Wait : Type 0 where
  arrive : List Signal → Wait
  stop : Fault → Wait

-- What one exchange meets, each as a whole call with its deadline: what it returns or raises, and the
-- messages that arrive until then. After the last of `waits` the deadline passes.
pub record Wire : Type 0 where
  pub objects : Checked Objects
  pub owner : Checked Text
  pub add_match : Checked {0} Unit
  pub started : Checked {0} Unit
  pub startup : List Signal
  pub fresh : Checked Objects
  pub writes : ℕ → Checked {0} Unit
  pub arrived : ℕ → List Signal
  pub waits : List Wait
  pub stopped : Checked {0} Unit
  pub remove_match : Checked {0} Unit

-- The local variables, and the fields of the object.
pub record Session : Type 0 where
  pub report : Report
  pub stage : Option String
  pub permits : Permits
  pub inbox : Inbox
  pub decoder : Decoder
  pub match_attempted : Bool
  pub notify_attempted : Bool

abbrev pub Run : Type 0
Run = Option Fault × Session

abbrev pub with_checked {ℓ} : {A : Type ℓ} → Checked A → Session → (A → Run) → Run
with_checked (failed e) s next = (some e, s)
with_checked (passed a) s next = next a

abbrev pub then_run : Option Fault → Session → (Session → Run) → Run
then_run (some e) s next = (some e, s)
then_run none s next = next s

-- an exception of the codec
unfoldable pub fault_of : Exception → Fault
fault_of (Outcome.protocol code) = protocol_error code
fault_of Outcome.timeout = timed_out
fault_of Outcome.cancelled = interrupted
fault_of (Outcome.update_failed code) = internal "UpdateFailed"
fault_of Outcome.other = internal "ValueError"

abbrev pub outcome_of : Checked {0} Unit → Checked {0} Unit → Checked {0} Unit
outcome_of (failed e) outcome = failed e
outcome_of (passed u) outcome = outcome

-- await self._exact(path, member, signature, body), given what comes of the message if it is sent
unfoldable pub exactly :
    Option Target
    → Text
    → String
    → String
    → Body
    → Checked {0} Unit
    → Session
    → Checked {0} Unit × Session
unfolding exact
exactly target path member signature body outcome s =
    let (allowed, permits) =
      exact {0} {A = Unit} target path member signature body (answer tt) s.permits in
    (outcome_of allowed outcome, record s { permits = permits })

unfoldable pub arrivals : Text → Text → List Signal → Session → Session
unfolding accept_all put_all
arrivals owner path ms s = record s { inbox = put_all (accept_all owner path ms) s.inbox }

-- a negotiated MTU, if it is an int
unfoldable pub mtu_of : Option Value → Option ℤ
mtu_of (some (int n)) = some n
mtu_of _ = none

unfoldable pub plan_of : Request → List Bytes → List Body
plan_of request [] = []
plan_of request (c ∷ cs) = chunk c (write_mode_of request) ∷ plan_of request cs

unfoldable pub count_write : Session → Session
count_write s = record s {
  report = record s.report {
    write_attempts = some (elim s.report.write_attempts [ none ↦ 1 | some n ↦ n + 1 ]);
  };
}

abbrev pub after_write : Checked {0} Unit × Session → (Session → Run) → Run
after_write (failed e, s) next = (some e, s)
after_write (passed u, s) next = next s

-- while self._write_plan: ..., over the plan as it was set
unfoldable pub write_all : Option Target → Text → Text → Wire → ℕ → List Body → Session → Run
unfolding exactly count_write arrivals
write_all target owner path wire i [] s = (none, s)
write_all target owner path wire i (b ∷ plan) s =
    if s.inbox.overflow
    then (some (protocol_error "notification_queue_overflow"), s)
    else after_write
        (exactly target path "WriteValue" "aya{sv}" b (wire.writes i)
          (arrivals owner path (wire.arrived i) (count_write s)))
        (write_all target owner path wire (i + 1) plan)

-- How the loop over the queue stands.
pub data Progress : Type 0 where
  raised : Fault → Progress
  answered : Progress
  waiting : Progress

unfoldable pub complete : Value → Session → Session
complete response s = record s {
  report = record s.report { status = some "query_complete"; protocol_response = some response };
}

module _ (floats : Floats) (loads : Bytes → Option Value) (request : Request) where
  abbrev pub after_item : Offered → Session → (Session → Progress × Session) → Progress × Session
  after_item (refused e) s next = (raised (fault_of e), s)
  after_item (matched response) s next = (answered, complete response s)
  after_item unmatched s next = next s

  -- decode(value) and the loop over its objects
  unfoldable pub take_one : Item → Session → (Session → Progress × Session) → Progress × Session
  unfolding take_item complete fault_of
  take_one item s next =
      let (offered, decoder) = take_item floats request loads item s.decoder in
      after_item offered (record s { decoder = decoder }) next

  -- The values that are queued, the overflow asked for before each.
  unfoldable pub consume : List Item → Session → Progress × Session
  unfolding take_one
  consume [] s =
      if s.inbox.overflow
      then (raised (protocol_error "notification_queue_overflow"), s)
      else (waiting, record s { inbox = record s.inbox { queue = [] } })
  consume (item ∷ rest) s =
      if s.inbox.overflow
      then (raised (protocol_error "notification_queue_overflow"), s)
      else take_one item (record s { inbox = record s.inbox { queue = rest } })
          (λ s'. consume rest s')

  abbrev pub after_progress : Progress × Session → (Session → Run) → Run
  after_progress (raised e, s) next = (some e, s)
  after_progress (answered, s) next = (none, s)
  after_progress (waiting, s) next = next s

  -- The first value after a wait is taken whatever the overflow.
  unfoldable pub consume_first : List Item → Session → Progress × Session
  unfolding take_one consume
  consume_first [] s = (waiting, s)
  consume_first (item ∷ rest) s =
      take_one item (record s { inbox = record s.inbox { queue = rest } }) (λ s'. consume rest s')

  unfoldable pub await_answer : Text → Text → List Wait → Session → Run
  unfolding consume_first arrivals
  await_answer owner path [] s = (some timed_out, s)
  await_answer owner path (stop e ∷ rest) s = (some e, s)
  await_answer owner path (arrive ms ∷ rest) s =
      let s' = arrivals owner path ms s in
      after_progress (consume_first s'.inbox.queue s') (λ s''. await_answer owner path rest s'')

  -- The startup notifications are decoded, and what they hold is dropped.
  unfoldable pub drain_startup : List Item → Session → Option Fault × Session
  unfolding decode fault_of
  drain_startup [] s = (
    none,
    record s { inbox = record s.inbox { queue = [] }; decoder = record s.decoder { buffer = [] } },
  )
  drain_startup (item ∷ rest) s =
      let (result, decoder) = decode loads item s.decoder in
      let s' = record s { inbox = record s.inbox { queue = rest }; decoder = decoder } in
      let later = drain_startup rest s' in
      elim result [ err e ↦ (some (fault_of e), s') | ok values ↦ later ]
