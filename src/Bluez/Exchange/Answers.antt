-- ===== src/Bluez/Exchange/Answers.antt =====
-- An exchange of `QueryBluez.query_once` (telemetry.py) that raises nothing and asks for no review was
-- answered, and its notifications were stopped.
use ha_aiper_ble.Prelude.{
  ℕ, ◌+◌, ◌≡◌, refl, ◌∙◌, true, false, not, ◌&&◌, Option, none, some, List, [], ◌∷◌, if_elim,
}
use ha_aiper_ble.Prelude.Text.{Text, Bytes, text_eq}
use ha_aiper_ble.Value.{Value}
use ha_aiper_ble.Target.{Target}
use ha_aiper_ble.Outcome.{Result, ok, err}
use ha_aiper_ble.Protocol.Codec.{chunks}
use ha_aiper_ble.Protocol.Query.{Request, query_frame}
use ha_aiper_ble.Protocol.Reply.{Floats}
use ha_aiper_ble.Transport.Inbox.{Item, decode}
use ha_aiper_ble.Bluez.Guards.{
  Fault, bluez_error, probe_error, protocol_error, timed_out, interrupted, internal, Checked,
  passed, failed, query_endpoint,
}
use ha_aiper_ble.Bluez.Guards
use ha_aiper_ble.Bluez.Permits.{nothing, Body}
use ha_aiper_ble.Bluez.Objects.{GattCharacteristic, is_set}
use ha_aiper_ble.Bluez.Query.{
  Wire, Session, Run, with_checked, then_run, exactly, after_write, write_all, count_write,
  arrivals, drain_startup, consume, await_answer, fault_of, mtu_of, plan_of,
}
use ha_aiper_ble.Bluez.Exchange.{
  set_stage, send, revalidate, after_start, start_failed, subscribe, set_path, attempt,
}
use ha_aiper_ble.Bluez.Exchange.Ends.{
  IsAnswered, after_progress-IsHeard, consume-IsListened, await_answer-IsHeard,
}

with_checked_elim {ℓ κ} :
    {A : Type ℓ} (P : Run → Type κ) (c : Checked A) (s : Session) (next : A → Run)
    → ((e : Fault) → P (some e, s))
    → ((a : A) → P (next a))
    → P (with_checked c s next)
with_checked_elim P (failed e) s next refused goes = refused e
with_checked_elim P (passed a) s next refused goes = goes a

then_run_elim {ℓ} :
    (P : Run → Type ℓ) (o : Option Fault) (s : Session) (next : Session → Run)
    → ((e : Fault) → P (some e, s))
    → P (next s)
    → P (then_run o s next)
then_run_elim P none s next refused goes = goes
then_run_elim P (some e) s next refused goes = refused e

after_write-notify :
    (x : Checked Unit × Session) (next : Session → Run)
    → ((s : Session) → (next s).1.notify_attempted ≡ s.notify_attempted)
    → (after_write x next).1.notify_attempted ≡ x.1.notify_attempted
after_write-notify (failed e, s) next h = refl
after_write-notify (passed u, s) next h = h s

write_all-notify :
    (target : Option Target) (owner path : Text) (wire : Wire) (i : ℕ) (plan : List Body)
    (s : Session)
    → (write_all target owner path wire i plan s).1.notify_attempted ≡ s.notify_attempted
unfolding write_all exactly count_write arrivals
write_all-notify target owner path wire i [] s = refl
write_all-notify target owner path wire i (b ∷ plan) s =
    if_elim (λ (x : Run). x.1.notify_attempted ≡ s.notify_attempted) s.inbox.overflow (λ over. refl)
      (λ fits.
        after_write-notify
          (exactly target path "WriteValue" "aya{sv}" b (wire.writes i)
            (arrivals owner path (wire.arrived i) (count_write s)))
          (write_all target owner path wire (i + 1) plan)
          (write_all-notify target owner path wire (i + 1) plan))

drain_step :
    (r : Result (List Value)) (s : Session) (later : Option Fault × Session)
    → later.1.notify_attempted ≡ s.notify_attempted
    → (elim r as (λ _. Option Fault × Session) [
      | err e ↦ (some (fault_of e), s)
      | ok values ↦ later
    ]).1.notify_attempted
      ≡ s.notify_attempted
drain_step (err e) s later h = refl
drain_step (ok values) s later h = h

module _ (floats : Floats) (loads : Bytes → Option Value) (t : Target) (request : Request) where
  drain_startup-notify :
      (items : List Item) (s : Session)
      → (drain_startup floats loads request items s).1.notify_attempted ≡ s.notify_attempted
  unfolding drain_startup
  drain_startup-notify [] s = refl
  drain_startup-notify (item ∷ rest) s =
      let x = decode loads item s.decoder in
      let s' = record s { inbox = record s.inbox { queue = rest }; decoder = x.1 } in
      drain_step x.0 s' (drain_startup floats loads request rest s') (drain_startup-notify rest s')

  -- What a part of the try block comes to, if it raises nothing.
  abbrev IsTried : Run → Type 0
  IsTried x = x.0 ≡ none → (x.1.notify_attempted ≡ true) × IsAnswered floats request x.1

  fails : (e : Fault) (s : Session) → IsTried (some e, s)
  fails e s a = cc

  send-IsTried :
      (wire : Wire) (owner path : Text) (c : GattCharacteristic) (o : Option Bytes) (s : Session)
      → s.notify_attempted ≡ true
      → IsTried (send floats loads t request wire owner path c o s)
  unfolding send set_stage
  send-IsTried wire owner path c none s on =
      fails (internal "ValueError") (set_stage "query_write" s)
  send-IsTried wire owner path c (some frame) s on =
      let plan = plan_of request (chunks frame (mtu_of c.mtu)) in
      let s1 = set_stage "query_write" s in
      let s2 = record s1 { permits = record s1.permits { write_plan = plan } } in
      let w = write_all (some t) owner path wire 0 plan s2 in
      let s4 = set_stage "query_response" w.1 in
      let heard =
        after_progress-IsHeard floats request loads s4
          (consume floats loads request s4.inbox.queue s4)
          (await_answer floats loads request owner path wire.waits)
          (consume-IsListened floats request loads s4.inbox.queue s4)
          (await_answer-IsHeard floats request loads owner path wire.waits) in
      then_run_elim IsTried w.0 w.1 _ (λ e. fails e w.1)
        (λ a. (heard.0 ∙ write_all-notify (some t) owner path wire 0 plan s2 ∙ on, heard.1 a))

  revalidate-IsTried :
      (wire : Wire) (owner path : Text) (s : Session)
      → s.notify_attempted ≡ true
      → IsTried (revalidate floats loads t request wire owner path s)
  unfolding revalidate set_stage arrivals
  revalidate-IsTried wire owner path s on =
      let s1 = set_stage "query_revalidation" (arrivals owner path wire.startup s) in
      with_checked_elim IsTried wire.fresh s1 _ (λ e. fails e s1)
        λ objects.
          with_checked_elim IsTried (query_endpoint objects t (Guards.request request) true) s1 _
            (λ e. fails e s1)
            λ found.
              if_elim IsTried (not (text_eq found.0 path && is_set found.1.notifying))
                (λ moved. fails (protocol_error "notification_endpoint_changed") s1)
                λ same.
                  let d = drain_startup floats loads request s1.inbox.queue s1 in
                  then_run_elim IsTried d.0 d.1
                    (send floats loads t request wire owner path found.1 (query_frame request))
                    (λ e. fails e d.1)
                    (send-IsTried wire owner path found.1 (query_frame request) d.1
                      (drain_startup-notify s1.inbox.queue s1 ∙ on))

  after_start-IsTried :
      (x : Checked Unit × Session) (next : Session → Run)
      → IsTried (next x.1)
      → IsTried (after_start x next)
  after_start-IsTried (failed e, s) next h = fails e (start_failed e s)
  after_start-IsTried (passed u, s) next h = h

  subscribe-IsTried :
      (wire : Wire) (owner path : Text) (s : Session)
      → IsTried (subscribe floats loads t request wire owner path s)
  unfolding subscribe set_stage exactly
  subscribe-IsTried wire owner path s =
      let s1 = record (set_stage "notify_start" s) { notify_attempted = true } in
      let x = exactly (some t) path "StartNotify" "" nothing wire.started s1 in
      after_start-IsTried x _ (revalidate-IsTried wire owner path x.1 refl)

  pub attempt-IsTried :
      (wire : Wire) (s : Session) → IsTried (attempt floats loads t request wire s)
  unfolding attempt set_stage set_path
  attempt-IsTried wire s =
      let s0 = set_stage "query_validation" s in
      with_checked_elim IsTried wire.objects s0 _ (λ e. fails e s0)
        λ objects.
          with_checked_elim IsTried (query_endpoint objects t (Guards.request request) false) s0 _
            (λ e. fails e s0)
            λ found.
              let s1 = set_path found.0 s0 in
              with_checked_elim IsTried wire.owner s1 _ (λ e. fails e s1)
                λ owner.
                  let s2 = record s1 { match_attempted = true } in
                  with_checked_elim IsTried wire.add_match s2 _ (λ e. fails e s2)
                    λ u. subscribe-IsTried wire owner found.0 s2
