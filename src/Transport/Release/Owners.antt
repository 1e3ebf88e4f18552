-- ===== src/Transport/Release/Owners.antt =====
-- What the cleanup makes of the clients: a report that counts is one whose every client was released.
use ha_aiper_ble.Prelude.{
  ◌≡◌, refl, sym, ap, ◌∙◌, ◌≢◌, Bool, true, false, ◌&&◌, Option, none, some, List, [], ◌∷◌, arith,
  if◌then◌else◌, if_elim,
}
use ha_aiper_ble.Coordinator.Report.{Report, is_text}
use ha_aiper_ble.Coordinator.Judge.{is_complete}
use ha_aiper_ble.Transport.Session.{Failure, Teardown}
use ha_aiper_ble.Transport.Release.{
  Cleanup, unless_cut, stop_notify, disconnect, release_all, released, conclude, clean_up,
}

unless_cut_elim {ℓ} :
    (P : Cleanup → Type ℓ) (c : Cleanup) (next : Cleanup → Cleanup)
    → (c.cut_short ≡ true → P c)
    → (c.cut_short ≡ false → P (next c))
    → P (unless_cut c next)
unless_cut_elim P c next cut goes = if_elim P c.cut_short cut goes

-- Unless something failed, the notifications are stopped.
abbrev IsStopped : Cleanup → Type 0
IsStopped c =
    c.failed ≡ false → c.cut_short ≡ false → c.report.notification_cleanup ≡ some "stop_confirmed"

-- Unless something failed, the client is released.
pub record IsReleased (c : Cleanup) : Type 0 where
  pub stopped :
      c.failed ≡ false → c.cut_short ≡ false → c.report.notification_cleanup ≡ some "stop_confirmed"
  pub left :
      c.failed ≡ false → c.cut_short ≡ false → c.report.cleanup ≡ some "disconnected_confirmed"

stop_notify-IsStopped : (o : Option Failure) (c : Cleanup) → IsStopped (stop_notify o c)
unfolding stop_notify
stop_notify-IsStopped o c = ground arith

disconnect-IsReleased :
    (o : Option Failure) (b : Bool) (c : Cleanup) → IsStopped c → IsReleased (disconnect o b c)
unfolding disconnect
disconnect-IsReleased o b c h = record { stopped = ground arith; left = ground arith }

-- The status and the answer of the exchange, which no client's release changes.
pub record IsSame (c d : Cleanup) : Type 0 where
  pub status : d.report.status ≡ c.report.status
  pub response : d.report.protocol_response ≡ c.report.protocol_response

IsSame-trans : {c d e : Cleanup} → IsSame c d → IsSame d e → IsSame c e
IsSame-trans h k = record { status = k.status ∙ h.status; response = k.response ∙ h.response }

stop_notify-IsSame : (o : Option Failure) (c : Cleanup) → IsSame c (stop_notify o c)
unfolding stop_notify
stop_notify-IsSame o c = record { status = ground arith; response = ground arith }

disconnect-IsSame : (o : Option Failure) (b : Bool) (c : Cleanup) → IsSame c (disconnect o b c)
unfolding disconnect
disconnect-IsSame o b c = record { status = ground arith; response = ground arith }

-- what one client and those after it come to
owner_elim {ℓ} :
    (P : Cleanup → Type ℓ) (subscribed : Bool) (t : Teardown) (rest : List Teardown) (c : Cleanup)
    → let c1 = if subscribed then stop_notify t.stop c else c in
      let c2 = disconnect t.disconnect t.still_connected c1 in
      (c1.cut_short ≡ true → P c1)
      → (c2.cut_short ≡ true → P c2)
      → P (release_all subscribed rest c2)
      → P (release_all subscribed (t ∷ rest) c)
unfolding release_all
owner_elim P subscribed t rest c cut cut' goes =
    let c1 = if subscribed then stop_notify t.stop c else c in
    let c2 = disconnect t.disconnect t.still_connected c1 in
    unless_cut_elim P c1
      (λ x. unless_cut (disconnect t.disconnect t.still_connected x) (release_all subscribed rest))
      cut (λ a. unless_cut_elim P c2 (release_all subscribed rest) cut' (λ b. goes))

unless_subscribed-IsSame :
    (subscribed : Bool) (o : Option Failure) (c : Cleanup)
    → IsSame c (if subscribed then stop_notify o c else c)
unless_subscribed-IsSame true o c = stop_notify-IsSame o c
unless_subscribed-IsSame false o c = record { status = refl; response = refl }

pub release_all-IsSame :
    (subscribed : Bool) (owners : List Teardown) (c : Cleanup)
    → IsSame c (release_all subscribed owners c)
unfolding release_all
release_all-IsSame subscribed [] c = record { status = refl; response = refl }
release_all-IsSame subscribed (t ∷ rest) c =
    let c1 = if subscribed then stop_notify t.stop c else c in
    let same = unless_subscribed-IsSame subscribed t.stop c in
    let left = IsSame-trans same (disconnect-IsSame t.disconnect t.still_connected c1) in
    owner_elim (IsSame c) subscribed t rest c (λ cut. same) (λ cut. left)
      (IsSame-trans left
        (release_all-IsSame subscribed rest (disconnect t.disconnect t.still_connected c1)))

cut-IsReleased : (c : Cleanup) → c.cut_short ≡ true → IsReleased c
cut-IsReleased c h = record { stopped = λ a b. cc; left = λ a b. cc }

with_owner :
    (t : Teardown) (rest : List Teardown) (c : Cleanup)
    → ((d : Cleanup) → IsReleased d → IsReleased (release_all true rest d))
    → IsReleased (release_all true (t ∷ rest) c)
with_owner t rest c later =
    owner_elim IsReleased true t rest c (cut-IsReleased _) (cut-IsReleased _) (
      later _ (
        disconnect-IsReleased t.disconnect t.still_connected (stop_notify t.stop c)
          (stop_notify-IsStopped t.stop c)))

later_owners :
    (owners : List Teardown) (c : Cleanup) → IsReleased c → IsReleased (release_all true owners c)
unfolding release_all
later_owners [] c h = h
later_owners (t ∷ rest) c h = with_owner t rest c (later_owners rest)

release_all-IsReleased :
    (subscribed : Bool) (owners : List Teardown) (c : Cleanup)
    → subscribed ≡ true
    → owners ≢ []
    → IsReleased (release_all subscribed owners c)
release_all-IsReleased false owners c on h = cc
release_all-IsReleased true [] c on h = absurd (h refl)
release_all-IsReleased true (t ∷ rest) c on h = with_owner t rest c (later_owners rest)

released_complete :
    (c : Cleanup) → (released c).report.status ≡ some "query_complete" → released c ≡ c
unfolding released
released_complete c =
    let b =
      is_text c.report.notification_cleanup "stop_unconfirmed"
      && is_text c.report.cleanup "disconnected_confirmed" in
    if_elim (λ (x : Cleanup). x.report.status ≡ some "query_complete" → x ≡ c) b
      (λ on.
        if_elim
          (λ (r : Report).
            r.status ≡ some "query_complete" → record c { report = r; failed = false } ≡ c)
          (is_text c.report.status "query_complete") (λ yes h. cc) (λ other h. cc))
      (λ off h. refl)

-- A report that is complete at the end was so before, and nothing failed.
pub conclude_complete :
    (c : Cleanup)
    → (conclude c).report.status ≡ some "query_complete"
    → (conclude c ≡ c) × (c.failed ≡ false)
unfolding conclude
conclude_complete c =
    if_elim
      (λ (x : Cleanup). x.report.status ≡ some "query_complete" → (x ≡ c) × (c.failed ≡ false))
      (released c).failed (λ bad h. cc)
      (λ good h. let same = released_complete c h in (same, sym (ap (λ x. x.failed) same) ∙ good))

-- A cleanup that leaves a complete report, and is not cut short, is that of a complete exchange whose
-- clients were all released.
pub record IsCleaned (subscribed : Bool) (owners : List Teardown) (r : Report) (x : Cleanup)
    : Type 0 where
  pub status : r.status ≡ some "query_complete"
  pub response : x.report.protocol_response ≡ r.protocol_response
  pub complete : owners ≢ [] → subscribed ≡ true → is_complete x.report ≡ true

pub complete_report :
    (x : Report)
    → x.status ≡ some "query_complete"
    → x.cleanup ≡ some "disconnected_confirmed"
    → x.notification_cleanup ≡ some "stop_confirmed"
    → is_complete x ≡ true
unfolding is_complete
complete_report x h k l = rw (h, k, l) refl

pub clean_up-IsCleaned :
    (subscribed : Bool) (owners : List Teardown) (r : Report)
    → (clean_up subscribed owners r).cut_short ≡ false
    → (clean_up subscribed owners r).report.status ≡ some "query_complete"
    → IsCleaned subscribed owners r (clean_up subscribed owners r)
unfolding clean_up
clean_up-IsCleaned subscribed owners r =
    let c : Cleanup = record {
      report = r;
      stop_category = none;
      failed = false;
      cut_short = false;
    } in
    let d = release_all subscribed owners c in
    let same = release_all-IsSame subscribed owners c in
    unless_cut_elim
      (λ x.
        x.cut_short ≡ false
        → x.report.status ≡ some "query_complete"
        → IsCleaned subscribed owners r x)
      d conclude (λ cut h complete. cc)
      λ whole h complete.
        let (kept, fine) = conclude_complete d complete in
        let good = ap (λ x. x.report.status) (sym kept) ∙ complete in
        rw kept record {
          status = sym same.status ∙ good;
          response = same.response;
          complete = λ some_owner subscribing.
              let released_all =
                release_all-IsReleased subscribed owners c subscribing some_owner in
              complete_report d.report good (released_all.left fine whole)
                (released_all.stopped fine whole);
        }

disconnect-unconfirmed :
    (o : Option Failure) (b : Bool) (c : Cleanup)
    → (o ≡ none → b ≡ true)
    → (disconnect o b c).cut_short ≡ false
    → ((disconnect o b c).failed ≡ true)
      × ((disconnect o b c).report.cleanup ≡ some "disconnect_unconfirmed")
unfolding disconnect
disconnect-unconfirmed o b c h k = ground arith

not_both {ℓ} : {A : Type ℓ} (b b' : Bool) (x y : A) → b' ≡ false → (if b && b' then x else y) ≡ y
not_both true true x y h = cc
not_both true false x y h = refl
not_both false b' x y h = refl

conclude-unconfirmed :
    (c : Cleanup)
    → c.failed ≡ true
    → c.report.cleanup ≡ some "disconnect_unconfirmed"
    → (conclude c).report.status ≡ some "cleanup_requires_review"
unfolding conclude released
conclude-unconfirmed c h k =
    let kept : released c ≡ c =
      not_both (is_text c.report.notification_cleanup "stop_unconfirmed")
        (is_text c.report.cleanup "disconnected_confirmed") _ c (rw k refl) in
    rw (kept, h) refl

-- A client that is not seen to be disconnected leaves a report that asks for a review.
pub clean_up-unconfirmed :
    (subscribed : Bool) (t : Teardown) (r : Report)
    → (t.disconnect ≡ none → t.still_connected ≡ true)
    → (clean_up subscribed (t ∷ []) r).cut_short ≡ false
    → (clean_up subscribed (t ∷ []) r).report.status ≡ some "cleanup_requires_review"
unfolding clean_up release_all
clean_up-unconfirmed subscribed t r h =
    let c : Cleanup = record {
      report = r;
      stop_category = none;
      failed = false;
      cut_short = false;
    } in
    let c1 = if subscribed then stop_notify t.stop c else c in
    owner_elim
      (λ x.
        (unless_cut x conclude).cut_short ≡ false
        → (unless_cut x conclude).report.status ≡ some "cleanup_requires_review")
      subscribed t [] c
      (λ cut.
        unless_cut_elim
          (λ x. x.cut_short ≡ false → x.report.status ≡ some "cleanup_requires_review") c1 conclude
          (λ a b. cc) (λ a. cc))
      (λ cut.
        unless_cut_elim
          (λ x. x.cut_short ≡ false → x.report.status ≡ some "cleanup_requires_review")
          (disconnect t.disconnect t.still_connected c1) conclude (λ a b. cc) (λ a. cc))
      (unless_cut_elim (λ x. x.cut_short ≡ false → x.report.status ≡ some "cleanup_requires_review")
        (disconnect t.disconnect t.still_connected c1) conclude (λ a b. cc)
        (λ whole b.
          let (bad, left) = disconnect-unconfirmed t.disconnect t.still_connected c1 h whole in
          conclude-unconfirmed (disconnect t.disconnect t.still_connected c1) bad left))
