-- ===== src/Bluez/Exchange.antt =====
-- `QueryBluez.query_once` of telemetry.py, from its first check to the end of its `finally` block.
pub mod Ends
pub mod Answers
pub mod Closes
use ha_aiper_ble.Prelude.{
  String, Bool, true, false, not, ◌&&◌, ◌||◌, Option, none, some, if◌then◌else◌,
}
use ha_aiper_ble.Prelude.Text.{Text, Bytes, codes, text_eq}
use ha_aiper_ble.Value.{Value}
use ha_aiper_ble.Target.{Target}
use ha_aiper_ble.Protocol.Codec.{chunks}
use ha_aiper_ble.Protocol.Query.{Request, query_frame}
use ha_aiper_ble.Protocol.Decoder.{new_decoder}
use ha_aiper_ble.Protocol.Reply.{Floats}
use ha_aiper_ble.Coordinator.Report.{Report}
use ha_aiper_ble.Transport.Inbox.{empty_inbox}
use ha_aiper_ble.Bluez.Objects.{GattCharacteristic, is_set}
use ha_aiper_ble.Bluez.Guards.{
  Fault, bluez_error, protocol_error, interrupted, internal, Checked, passed, failed, Asked,
  query_endpoint,
}
use ha_aiper_ble.Bluez.Guards
use ha_aiper_ble.Bluez.Permits.{nothing, Permits}
use ha_aiper_ble.Bluez.Release.{clean_up}
use ha_aiper_ble.Bluez.Query.{
  Wire, Session, Run, with_checked, then_run, exactly, arrivals, mtu_of, plan_of, write_all,
  after_progress, consume, await_answer, drain_startup,
}

unfoldable pub set_stage : String → Session → Session
set_stage name s = record s { stage = some name }

-- A StartNotify that is refused since it may be that of another client.
abbrev pub is_uncertain : Text → Bool
is_uncertain name =
    text_eq name (codes "org.bluez.Error.InProgress")
    || text_eq name (codes "org.bluez.Error.AlreadyExists")

unfoldable pub start_failed : Fault → Session → Session
unfolding text_eq
start_failed (bluez_error name) s =
    if is_uncertain name
    then record s {
      notify_attempted = false;
      report = record s.report { notification_cleanup = some "ownership_uncertain" };
    }
    else s
start_failed e s = s

abbrev pub after_start : Checked {0} Unit × Session → (Session → Run) → Run
after_start (failed e, s) next = (some e, start_failed e s)
after_start (passed u, s) next = next s

unfoldable pub set_path : Text → Session → Session
set_path path s = record s { permits = record s.permits { query_path = some path } }

module _ (floats : Floats) (loads : Bytes → Option Value) (t : Target) (request : Request) where
  -- the writes and the loop that waits for the answer
  unfoldable pub send : Wire → Text → Text → GattCharacteristic → Option Bytes → Session → Run
  unfolding set_stage plan_of mtu_of write_all consume await_answer
  send wire owner path c none s = (some (internal "ValueError"), set_stage "query_write" s)
  send wire owner path c (some frame) s =
      let plan = plan_of request (chunks frame (mtu_of c.mtu)) in
      let s1 = set_stage "query_write" s in
      let (failure, s2) =
        write_all (some t) owner path wire 0 plan
          (record s1 { permits = record s1.permits { write_plan = plan } }) in
      then_run failure s2 λ s3.
        let s4 = set_stage "query_response" s3 in
        after_progress floats loads request (consume floats loads request s4.inbox.queue s4)
          (await_answer floats loads request owner path wire.waits)

  -- the checks after the notifications have started
  unfoldable pub revalidate : Wire → Text → Text → Session → Run
  unfolding set_stage arrivals query_endpoint drain_startup send query_frame
  revalidate wire owner path s =
      let s1 = set_stage "query_revalidation" (arrivals owner path wire.startup s) in
      with_checked wire.fresh s1 λ objects.
        with_checked (query_endpoint objects t (Guards.request request) true) s1 λ found.
          if not (text_eq found.0 path && is_set found.1.notifying)
          then (some (protocol_error "notification_endpoint_changed"), s1)
          else let (failure, s2) = drain_startup floats loads request s1.inbox.queue s1 in
            then_run failure s2 (send wire owner path found.1 (query_frame request))

  -- the notifications
  unfoldable pub subscribe : Wire → Text → Text → Session → Run
  unfolding set_stage exactly start_failed revalidate
  subscribe wire owner path s =
      let s1 = record (set_stage "notify_start" s) { notify_attempted = true } in
      after_start (exactly (some t) path "StartNotify" "" nothing wire.started s1)
        (revalidate wire owner path)

  -- the try block
  unfoldable pub attempt : Wire → Session → Run
  unfolding set_stage query_endpoint set_path subscribe
  attempt wire s =
      let s0 = set_stage "query_validation" s in
      with_checked wire.objects s0 λ objects.
        with_checked (query_endpoint objects t (Guards.request request) false) s0 λ found.
          let s1 = set_path found.0 s0 in
          with_checked wire.owner s1 λ owner.
            let s2 = record s1 { match_attempted = true } in
            with_checked wire.add_match s2 λ u. subscribe wire owner found.0 s2

  -- `query_once`, given whether it was called before
  unfoldable pub query_once : Wire → Bool → Permits → Report → Run
  unfolding attempt clean_up
  query_once wire used permits r =
      let s : Session = record {
        report = r;
        stage = none;
        permits = permits;
        inbox = empty_inbox;
        decoder = new_decoder;
        match_attempted = false;
        notify_attempted = false;
      } in
      let (failure, tried) =
        attempt wire (record s { report = record r { write_attempts = some 0 } }) in
      if used
      then (some (protocol_error "query_already_attempted"), s)
      else clean_up t wire failure tried
