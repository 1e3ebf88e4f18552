-- ===== src/Transport/Bluetooth/Ends.antt =====
-- How one call of `query_once` (bluetooth_transport.py) ends, and what the coordinator makes of it.
use ha_aiper_ble.Prelude.{
  ◌≡◌, refl, ap, ◌∙◌, ◌≢◌, ◌⊎◌, Bool, true, false, ◌&&◌, ◌||◌, Option, none, some, List, [], ◌∷◌,
  ◌++◌, arith, All,
}
use ha_aiper_ble.Prelude.Text.{Bytes}
use ha_aiper_ble.Value.{Value, Fields, obj}
use ha_aiper_ble.Outcome.{ok, err, update_failed}
use ha_aiper_ble.Target.{Target}
use ha_aiper_ble.Protocol.Codec.{chunks, chunk_size}
use ha_aiper_ble.Protocol.Codec.Pieces.{FitsWrite, chunks_lem}
use mathlib.Core.List.{flatten}
use ha_aiper_ble.Protocol.Query.{Request, query_frame}
use ha_aiper_ble.Protocol.Reply.{Floats}
use ha_aiper_ble.Protocol.Telemetry.{query_telemetry}
use ha_aiper_ble.Coordinator.Report.{Report}
use ha_aiper_ble.Coordinator.State.{State, set_suspended}
use ha_aiper_ble.Coordinator.Judge.{Exchange, is_complete, judge, suspend_if}
use ha_aiper_ble.Coordinator.Verified.{Python}
use ha_aiper_ble.Transport.Routes.{Characteristic}
use ha_aiper_ble.Transport.Session.{
  Failure, protocol, cancelled, timeout, bleak, connection, os, unexpected, Teardown, Link,
}
use ha_aiper_ble.Transport.Exchange.{attempt}
use ha_aiper_ble.Transport.Exchange.Sends.{IsCleared, attempt-IsTried}
use ha_aiper_ble.Transport.Release.{clean_up}
use ha_aiper_ble.Transport.Release.Owners.{clean_up-IsCleaned, clean_up-unconfirmed}
use ha_aiper_ble.Transport.Bluetooth.{handle, handled, has_char, start, Ended, query_once}

-- What a complete exchange comes to: every check passed, the frame of the request was sent once and
-- whole, an object that answers it is in the report, and the client was released.
pub record IsExchanged (floats : Floats) (target : Target) (request : Request) (link : Link)
    (x : Ended) : Type 0 where
  pub cleared : IsCleared target request link
  pub frame : Bytes
  pub built : query_frame request ≡ some frame
  pub sent : x.written ≡ chunks frame none
  pub fields : Fields
  pub candidates : Fields
  pub kept : x.report.protocol_response ≡ some (obj fields)
  pub matching : query_telemetry floats fields request ≡ ok (some candidates)
  pub complete : is_complete x.report ≡ true

handle_incomplete : (e : Failure) (r : Report) → (handle e r).status ≢ some "query_complete"
unfolding handle
handle_incomplete (protocol code) r h = cc
handle_incomplete cancelled r h = cc
handle_incomplete timeout r h = cc
handle_incomplete bleak r h = cc
handle_incomplete connection r h = cc
handle_incomplete os r h = cc
handle_incomplete unexpected r h = cc

handled_complete :
    (o : Option Failure) (r : Report) → (handled o r).status ≡ some "query_complete" → o ≡ none
handled_complete none r h = refl
handled_complete (some e) r h = absurd (handle_incomplete e r h)

subscribed-true :
    (on : Bool) (o : Option Characteristic) (c : Characteristic)
    → on ≡ true
    → o ≡ some c
    → (on && has_char o) ≡ true
subscribed-true on o c h k = rw (h, k) refl

no_cut : (a b : Bool) → (a || b) ≡ false → b ≡ false
no_cut a b h = ground arith

owned :
    (subscribed : Bool) (owners : List Teardown) (r : Report) (t : Teardown)
    → owners ≡ t ∷ []
    → (t.disconnect ≡ none → t.still_connected ≡ true)
    → (clean_up subscribed owners r).cut_short ≡ false
    → (clean_up subscribed owners r).report.status ≡ some "cleanup_requires_review"
owned subscribed owners r t one gone = rw one (clean_up-unconfirmed subscribed t r gone)

module _ (floats : Floats) (loads : Bytes → Option Value) (target : Target)
    (request : Request) where
  -- An exchange with a retained client that is reported complete, and was not interrupted, passed
  -- every check, sent the frame of the request once and whole, has an answer to the request in its
  -- report, and counts for the coordinator: the notifications were stopped and the client is gone.
  pub query_once-IsExchanged :
      (link : Link) (r : Report)
      → link.owners ≢ []
      → (query_once floats loads target request link r).interrupted ≡ false
      → (query_once floats loads target request link r).report.status ≡ some "query_complete"
      → IsExchanged floats target request link (query_once floats loads target request link r)
  unfolding query_once start chunk_size
  query_once-IsExchanged link r owned whole complete =
      let run = attempt floats loads request target link (start link.diagnostics r) in
      let tried =
        attempt-IsTried floats loads request target link (start link.diagnostics r)
          (record { written = refl; write_attempts = refl }) in
      let cleaned =
        clean_up-IsCleaned (run.1.notify_attempted && has_char run.1.char) link.owners
          (handled run.0 run.1.report) (no_cut _ _ whole) complete in
      let good = handled_complete run.0 run.1.report cleaned.status in
      let answer = tried.answer good in
      let (frame, built, sent) = tried.sent good in
      let (c, on, has) = tried.subscribed good in
      record {
        cleared = tried.checked good;
        frame = frame;
        built = built;
        sent = sent;
        fields = answer.fields;
        candidates = answer.candidates;
        kept =
            cleaned.response
            ∙ ap (λ o. (handled o run.1.report).protocol_response) good
            ∙ answer.kept;
        matching = answer.matching;
        complete = cleaned.complete owned (subscribed-true _ run.1.char c on has);
      }

  -- Whatever is handed to `write_gatt_char` are the first chunks of the request's frame, in order and
  -- each at most once, and every check before the first write has passed if there is one.
  pub query_once-writes :
      (link : Link) (r : Report) (frame : Bytes)
      → query_frame request ≡ some frame
      → let x = query_once floats loads target request link r in
        ((x.written ≡ []) ⊎ IsCleared target request link)
        × ((rest : List Bytes) × (flatten (x.written ++ rest) ≡ frame)
            × All (FitsWrite 20) (x.written ++ rest))
  unfolding query_once start chunk_size
  query_once-writes link r frame built =
      let tried =
        attempt-IsTried floats loads request target link (start link.diagnostics r)
          (record { written = refl; write_attempts = refl }) in
      let (rest, split) = tried.prefix frame built in
      let (whole, fits, small, carried) = chunks_lem frame none in
      (tried.cleared, (rest, ap flatten split ∙ whole, rw split fits))

  judge-review :
      (py : Python) (x : Exchange) (s : State)
      → x.raised ≡ none
      → x.cancel_requested ≡ false
      → x.report.status ≡ some "cleanup_requires_review"
      → ((judge py request x s).0 ≡ err (update_failed "cleanup_requires_review"))
        × ((judge py request x s).1.suspended ≡ true)
  unfolding judge suspend_if set_suspended
  judge-review py x s quiet going review = rw (quiet, going, review) (refl, refl)

  -- Where one client was retained and it is not seen to be disconnected, and the cleanup is not cut
  -- short, the report asks for a review, and the coordinator's checks of that report fail and suspend
  -- the transport.
  pub query_once-suspends :
      (py : Python) (link : Link) (r : Report) (t : Teardown) (x : Exchange) (s : State)
      → link.owners ≡ t ∷ []
      → (t.disconnect ≡ none → t.still_connected ≡ true)
      → (query_once floats loads target request link r).interrupted ≡ false
      → x.report ≡ (query_once floats loads target request link r).report
      → x.raised ≡ none
      → x.cancel_requested ≡ false
      → ((judge py request x s).0 ≡ err (update_failed "cleanup_requires_review"))
        × ((judge py request x s).1.suspended ≡ true)
  unfolding query_once start chunk_size
  query_once-suspends py link r t x s one gone whole same quiet going =
      let run = attempt floats loads request target link (start link.diagnostics r) in
      let subscribed = run.1.notify_attempted && has_char run.1.char in
      let reported = handled run.0 run.1.report in
      judge-review py x s quiet going (
        ap (λ y. y.status) same
        ∙ owned subscribed link.owners reported t one gone (no_cut _ _ whole))
