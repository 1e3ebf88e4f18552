-- ===== src/Pinned/Local/Ends.antt =====
-- How a query on the pinned adapter (local_bleak.py) ends.
use ha_aiper_ble.Prelude.{
  String, ◌≡◌, refl, sym, ap, ◌∙◌, ◌≢◌, Bool, true, false, ◌&&◌, ◌||◌, Option, none, some, [],
  arith, both, if_elim,
}
use ha_aiper_ble.Prelude.Text.{Text, Bytes, text_eq_sound}
use ha_aiper_ble.Value.{Value}
use ha_aiper_ble.Target.{Target}
use ha_aiper_ble.Protocol.Query.{Request}
use ha_aiper_ble.Protocol.Reply.{Floats}
use ha_aiper_ble.Coordinator.Report.{Report}
use ha_aiper_ble.Bluez.Objects.{Device, is_false}
use ha_aiper_ble.Transport.Bluetooth.{query_once}
use ha_aiper_ble.Transport.Exchange.Sends.{not_refused}
use ha_aiper_ble.Transport.Bluetooth.Ends.{IsExchanged, query_once-IsExchanged}
use ha_aiper_ble.Pinned.Routes.{is_at}
use ha_aiper_ble.Pinned.Local.{
  is_adapter, Looked, seen, unseen, cut_short, is_gone, unconfirmed_local, doubt, confirm_gone,
  assert_local_backend, LocalWorld, local_link, LocalEnd, local_query,
}

-- What is left as complete after BlueZ was asked: the device was seen, and it is gone.
record IsGone (t : Target) (looked : Looked) (r : Report) (x : LocalEnd) : Type 0 where
  device : Device
  looked_at : looked ≡ seen device
  gone : is_gone t device ≡ true
  report : x.report ≡ r

review_incomplete :
    {o : Option String} → o ≡ some "cleanup_requires_review" → o ≢ some "query_complete"
review_incomplete h bad = cc

unconfirmed_local-status :
    (r : Report) → (unconfirmed_local r).report.status ≢ some "query_complete"
unfolding unconfirmed_local doubt
unconfirmed_local-status r h = review_incomplete refl h

doubt-status : (r : Report) → (doubt r).status ≢ some "query_complete"
unfolding doubt
doubt-status r h = review_incomplete refl h

confirm_gone-IsGone :
    (t : Target) (looked : Looked) (r : Report)
    → (confirm_gone t looked r).report.status ≡ some "query_complete"
    → IsGone t looked r (confirm_gone t looked r)
unfolding confirm_gone
confirm_gone-IsGone t cut_short r h = absurd (doubt-status r h)
confirm_gone-IsGone t unseen r h = absurd (unconfirmed_local-status r h)
confirm_gone-IsGone t (seen d) r h =
    if_elim (λ x. x.report.status ≡ some "query_complete" → IsGone t (seen d) r x) (is_gone t d)
      (λ yes complete. record { device = d; looked_at = refl; gone = yes; report = refl })
      (λ no complete. absurd (unconfirmed_local-status r complete)) h

is_at-eq : (o : Option Text) (s : Text) → is_at o s ≡ true → o ≡ some s
is_at-eq none s h = cc
is_at-eq (some a) s h = ap some (text_eq_sound a s h)

is_false-eq : (o : Option Bool) → is_false o ≡ true → o ≡ some false
is_false-eq none h = cc
is_false-eq (some true) h = cc
is_false-eq (some false) h = refl

is_adapter-eq : (path o : Option Text) → is_adapter path o ≡ true → o ≡ path
is_adapter-eq none o h = cc
is_adapter-eq (some p) o h = is_at-eq o p h

-- The device is the robot, on the adapter, and not connected.
pub record IsAway (t : Target) (d : Device) : Type 0 where
  pub connected : d.connected ≡ some false
  pub address : d.address ≡ some t.address
  pub adapter : d.adapter ≡ t.adapter_path

is_gone-IsAway : (t : Target) (d : Device) → is_gone t d ≡ true → IsAway t d
unfolding is_gone
is_gone-IsAway t d h =
    let (first, adapter) =
      both (is_false d.connected && is_at d.address t.address) (is_adapter t.adapter_path d.adapter)
        h in
    let (off, address) = both (is_false d.connected) (is_at d.address t.address) first in
    record {
      connected = is_false-eq d.connected off;
      address = is_at-eq d.address t.address address;
      adapter = is_adapter-eq t.adapter_path d.adapter adapter;
    }

-- What a complete query on the pinned adapter comes to.
pub record IsPinned (floats : Floats) (loads : Bytes → Option Value) (t : Target)
    (request : Request) (w : LocalWorld) (r : Report) (x : LocalEnd) : Type 0 where
  pub exchanged :
      IsExchanged floats t request
        (local_link t w)
        (query_once floats loads t request (local_link t w) r)
  pub report : x.report ≡ (query_once floats loads t request (local_link t w) r).report
  pub connected : assert_local_backend w.connected t ≡ none
  pub notifying : assert_local_backend w.notifying t ≡ none
  pub device : Device
  pub looked : w.looked ≡ seen device
  pub away : IsAway t device

module _ (floats : Floats) (loads : Bytes → Option Value) (t : Target) (request : Request) where
  connected_query :
      (w : LocalWorld) (r : Report)
      → w.connects ≡ true
      → let x = query_once floats loads t request (local_link t w) r in
        let c = confirm_gone t w.looked x.report in
        local_query floats loads t request w r
        ≡ record c { interrupted = x.interrupted || c.interrupted }
  unfolding local_query
  connected_query w r h = rw h refl

  -- Where the client has called connect, a query on the pinned adapter that is reported complete and
  -- was not interrupted was a complete exchange over a backend that was checked twice to be the
  -- adapter's, before anything was written, and BlueZ says in the end that the robot is not
  -- connected to that adapter.
  pub local_query-IsPinned :
      (w : LocalWorld) (r : Report)
      → w.connects ≡ true
      → w.link.owners ≢ []
      → (local_query floats loads t request w r).interrupted ≡ false
      → (local_query floats loads t request w r).report.status ≡ some "query_complete"
      → IsPinned floats loads t request w r (local_query floats loads t request w r)
  unfolding local_link
  local_query-IsPinned w r connects owned whole complete =
      let x = query_once floats loads t request (local_link t w) r in
      let same = connected_query w r connects in
      let status : (confirm_gone t w.looked x.report).report.status ≡ some "query_complete" =
        ap (λ y. y.report.status) (sym same) ∙ complete in
      let gone = confirm_gone-IsGone t w.looked x.report status in
      let quiet : (x.interrupted || (confirm_gone t w.looked x.report).interrupted) ≡ false =
        ap (λ y. y.interrupted) (sym same) ∙ whole in
      let exchanged =
        query_once-IsExchanged floats loads t request (local_link t w) r owned (ground arith)
          (ap (λ y. y.status) (sym gone.report) ∙ status) in
      record {
        exchanged = exchanged;
        report = ap (λ y. y.report) same ∙ gone.report;
        connected = not_refused _ exchanged.cleared.guard_connected;
        notifying = not_refused _ exchanged.cleared.guard_notifying;
        device = gone.device;
        looked = gone.looked_at;
        away = is_gone-IsAway t gone.device gone.gone;
      }
