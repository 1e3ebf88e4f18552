-- ===== src/Transport/Exchange.antt =====
-- The try block of `query_once` (bluetooth_transport.py): the checks, the request and the loop that
-- waits for its answer.
pub mod Keeps
pub mod Sends
use ha_aiper_ble.Prelude.{true, false, not, Option, none, some, List, [], ◌∷◌, ◌==◌, if◌then◌else◌}
use ha_aiper_ble.Prelude.Text.{Bytes}
use ha_aiper_ble.Outcome.{ok, err}
use ha_aiper_ble.Value.{Value}
use ha_aiper_ble.Target.{Target}
use ha_aiper_ble.Protocol.Codec.{chunks}
use ha_aiper_ble.Protocol.Query.{Request, query_frame}
use ha_aiper_ble.Protocol.Reply.{Floats}
use ha_aiper_ble.Transport.Inbox.{Item, Offered, refused, unmatched, matched, take_item}
use ha_aiper_ble.Transport.Routes.{Characteristic, validate_routes, endpoint}
use ha_aiper_ble.Transport.Session.{
  Failure, protocol, timeout, unexpected, failure_of, refusal_of, write_mode_of, allows_missing,
  Wait, arrive, interrupt, Link, Session, Run, guard, phase, arrivals, write_all,
}

-- How the loop over the queue stands: ended by an exception, ended by an answer, or waiting.
pub data Progress : Type 0 where
  raised : Failure → Progress
  answered : Progress
  waiting : Progress

-- report.update(status="query_complete", protocol_response=response)
unfoldable pub complete : Value → Session → Session
complete response s = record s {
  report = record s.report { status = some "query_complete"; protocol_response = some response };
}

module _ (floats : Floats) (loads : Bytes → Option Value) (request : Request) where
  -- what follows one value of the queue
  abbrev after_item : Offered → Session → (Session → Progress × Session) → Progress × Session
  after_item (refused e) s next = (raised (failure_of e), s)
  after_item (matched response) s next = (answered, complete response s)
  after_item unmatched s next = next s

  -- The values that are queued, of which none can be added before the next wait.
  unfoldable pub consume : List Item → Session → Progress × Session
  unfolding phase take_item complete failure_of
  consume [] s = (waiting, record s { inbox = record s.inbox { queue = [] } })
  consume (item ∷ rest) s =
      let decoding = phase "decode" (record s { inbox = record s.inbox { queue = rest } }) in
      let taken = take_item floats request loads item s.decoder in
      if s.inbox.overflow
      then (raised (protocol "notification_queue_overflow"), decoding)
      else after_item taken.0 (record decoding { decoder = taken.1 }) (λ s'. consume rest s')

  abbrev after_progress : Progress × Session → (Session → Run) → Run
  after_progress (raised e, s) next = (some e, s)
  after_progress (answered, s) next = (none, s)
  after_progress (waiting, s) next = next s

  -- the loop from where it waits with an empty queue
  unfoldable pub await_answer : List Wait → Session → Run
  unfolding phase consume arrivals
  await_answer [] s = (some timeout, phase "wait_response" s)
  await_answer (interrupt e ∷ rest) s = (some e, phase "wait_response" s)
  await_answer (arrive values ∷ rest) s =
      let arrived = arrivals values (phase "wait_response" s) in
      after_progress (consume arrived.inbox.queue arrived) (λ s'. await_answer rest s')

  -- the loop, entered with what has arrived during the writes
  unfoldable pub listen : Link → Session → Run
  unfolding consume await_answer
  listen link s = after_progress (consume s.inbox.queue s) (await_answer link.waits)

  -- for chunk in chunks(query_frame(query)): ..., and then the loop
  unfoldable pub send : Link → Option Bytes → Session → Run
  unfolding write_all listen phase
  send link none s = (some unexpected, phase "write" s)
  send link (some frame) s =
      let (failed, s') = write_all link 0 (chunks frame none) (phase "write" s) in
      guard failed s' (listen link)

  -- the checks after the notifications have started
  unfoldable pub revalidate : Target → Link → Characteristic → Session → Run
  unfolding phase validate_routes refusal_of endpoint send failure_of query_frame
  revalidate target link char s =
      guard
        (refusal_of (validate_routes target (allows_missing request) true link.routes_notifying))
        (phase "prewrite_validation" s)
        λ s1. guard link.guard_notifying s1 λ s2.
          elim (endpoint (write_mode_of request) link.services_notifying) [
            | err e ↦ (some (failure_of e), s2)
            | ok fresh ↦
                if not (fresh.handle == char.handle)
                then (some (protocol "notification_endpoint_changed"), s2)
                else if not link.is_connected
                then (some (protocol "disconnected_before_query"), s2)
                else send link (query_frame request) s2
          ]

  -- the connected part of the try block
  unfoldable pub exchange : Target → Link → Session → Run
  unfolding phase validate_routes refusal_of endpoint revalidate failure_of
  exchange target link s =
      guard
        (refusal_of (validate_routes target (allows_missing request) true link.routes_connected))
        (phase "connected_route_validation" s)
        λ s1. guard link.guard_connected s1 λ s2.
          elim (endpoint (write_mode_of request) link.services_connected) [
            | err e ↦ (some (failure_of e), phase "endpoint_validation" s2)
            | ok char ↦
                guard link.started
                  (phase "start_notify" (record (phase "endpoint_validation" s2) {
                    char = some char;
                    notify_attempted = true;
                  }))
                  (revalidate target link char)
          ]

  -- the try block
  unfoldable pub attempt : Target → Link → Session → Run
  unfolding phase validate_routes refusal_of exchange
  attempt target link s =
      guard (refusal_of (validate_routes target (allows_missing request) false link.routes_before))
        s
        λ s1.
          guard link.guard_before s1
            λ s2. guard link.established (phase "connect" s2) (exchange target link)
