-- ===== src/Bluez/Probe/Ends.antt =====
-- How one run of `probe` (probe.py) ends: which connections it touches, and how it leaves them.
use ha_aiper_ble.Prelude.{
  ◌+◌, String, ◌≡◌, refl, sym, ap, ◌∙◌, ◌≢◌, Bool, true, false, not, Option, none, some, arith,
  if◌then◌else◌, if_elim,
}
use ha_aiper_ble.Prelude.Optional.{option_elim}
use ha_aiper_ble.Bluez.Objects.{Device, is_false}
use ha_aiper_ble.Bluez.Guards.{
  Fault, probe_error, bluez_error, protocol_error, timed_out, interrupted, internal, Checked,
  passed, failed,
}
use ha_aiper_ble.Bluez.Probe.{
  Bus, Probing, ask_disconnect, Run, set_status, disconnect_fault, same_bonds, cleanup_failed,
  check_after, release, is_doubtful, unless_cut, finish, handle,
}

-- The device as the disconnection leaves it.
pub record IsGone (bus : Bus) (s : Probing) : Type 0 where
  pub asked : disconnect_fault bus.disconnect ≡ none
  pub after : Device
  pub seen : bus.after ≡ passed after
  pub disconnected : is_false after.connected ≡ true
  pub bonds : same_bonds s.before after ≡ true
  pub cleanup : s.report.cleanup ≡ some "disconnected_confirmed"
  pub certain : is_doubtful s.report ≡ false

cleanup_failed_review :
    (named : String → String) (e : Fault) (s : Probing)
    → (cleanup_failed named e s).0 ≡ none
    → (cleanup_failed named e s).1.report.status ≡ some "cleanup_requires_review"
unfolding cleanup_failed
cleanup_failed_review named interrupted s h = cc
cleanup_failed_review named (probe_error m) s h = refl
cleanup_failed_review named (bluez_error name) s h = refl
cleanup_failed_review named (protocol_error code) s h = refl
cleanup_failed_review named timed_out s h = refl
cleanup_failed_review named (internal name) s h = refl

-- the run that leaves the device disconnected
abbrev pub confirmed : Probing → Run
confirmed s =
    (none, record s { report = record s.report { cleanup = some "disconnected_confirmed" } })

-- What the checks after the disconnection come to, unless they ask for a review.
record IsChecked (o : Checked Device) (s : Probing) (x : Run) : Type 0 where
  after : Device
  seen : o ≡ passed after
  disconnected : is_false after.connected ≡ true
  bonds : same_bonds s.before after ≡ true
  whole : x ≡ confirmed s

abbrev Reviewed : Checked Device → Probing → Run → Type 0
Reviewed o s x = x.0 ≡ none → x.1.report.status ≢ some "cleanup_requires_review" → IsChecked o s x

reviewed :
    (named : String → String) (e : Fault) (o : Checked Device) (s u : Probing)
    → Reviewed o s (cleanup_failed named e u)
reviewed named e o s u h k = absurd (k (cleanup_failed_review named e u h))

check_after-Reviewed :
    (named : String → String) (o : Checked Device) (s : Probing)
    → Reviewed o s (check_after named o s)
unfolding check_after
check_after-Reviewed named (failed e) s = reviewed named e (failed e) s s
check_after-Reviewed named (passed after) s =
    if_elim (Reviewed (passed after) s) (not (is_false after.connected))
      (λ bad. reviewed named (probe_error "Disconnection not confirmed.") (passed after) s s)
      λ fine.
        if_elim (Reviewed (passed after) s) (same_bonds s.before after)
          (λ same h k. record {
            after = after;
            seen = refl;
            disconnected = ground arith;
            bonds = same;
            whole = refl;
          })
          (λ other.
            reviewed named (probe_error "changed; stop and review.") (passed after) s
              (confirmed s).1)

-- What `release` comes to, unless it asks for a review.
record IsDropped (bus : Bus) (s : Probing) (x : Run) : Type 0 where
  asked : disconnect_fault bus.disconnect ≡ none
  checked : IsChecked bus.after (ask_disconnect s) x

release_reviewed :
    (named : String → String) (bus : Bus) (s : Probing)
    → (release named bus s).0 ≡ none
    → (release named bus s).1.report.status ≢ some "cleanup_requires_review"
    → IsDropped bus s (release named bus s)
unfolding release
release_reviewed named bus s =
    option_elim
      (λ (x : Run).
        x.0 ≡ none → x.1.report.status ≢ some "cleanup_requires_review" → IsDropped bus s x)
      (disconnect_fault bus.disconnect) (λ e. cleanup_failed named e (ask_disconnect s))
      (check_after named bus.after (ask_disconnect s))
      (λ e raised h k. absurd (k (cleanup_failed_review named e (ask_disconnect s) h)))
      (λ asked h k. record {
        asked = asked;
        checked = check_after-Reviewed named bus.after (ask_disconnect s) h k;
      })

-- the last check of the `finally` block
abbrev concluded : Run → Run
concluded u =
    unless_cut u
      λ s. (none, if is_doubtful s.report then set_status "cleanup_requires_review" s else s)

concluded_inversion :
    (u : Run)
    → (concluded u).0 ≡ none
    → (concluded u).1.report.status ≢ some "cleanup_requires_review"
    → (u.0 ≡ none) × (is_doubtful u.1.report ≡ false) × ((concluded u).1 ≡ u.1)
unfolding set_status
concluded_inversion (some e, s) h k = cc
concluded_inversion (none, s) h k =
    let (sure, same) =
      if_elim
        (λ (x : Probing).
          x.report.status ≢ some "cleanup_requires_review"
          → (is_doubtful s.report ≡ false) × (x ≡ s))
        (is_doubtful s.report) (λ doubt k'. absurd (k' refl)) (λ sure k'. (sure, refl)) k in
    (refl, sure, same)

-- The end of a run that attempted a connection.
pub finish-IsGone :
    (named : String → String) (bus : Bus) (s : Probing)
    → s.attempted ≡ true
    → (finish named bus s).0 ≡ none
    → (finish named bus s).1.report.status ≢ some "cleanup_requires_review"
    → ((finish named bus s).1 ≡ (confirmed (ask_disconnect s)).1)
      × IsGone bus (confirmed (ask_disconnect s)).1
unfolding finish
finish-IsGone named bus s tried =
    if_elim
      (λ (u : Run).
        (concluded u).0 ≡ none
        → (concluded u).1.report.status ≢ some "cleanup_requires_review"
        → ((concluded u).1 ≡ (confirmed (ask_disconnect s)).1)
          × IsGone bus (confirmed (ask_disconnect s)).1)
      s.attempted
      (λ on h k.
        let (whole, sure, same) = concluded_inversion (release named bus s) h k in
        let dropped =
          release_reviewed named bus s whole (λ bad. k (ap (λ x. x.report.status) same ∙ bad)) in
        let left = ap (λ (x : Run). x.1) dropped.checked.whole in
        (
          same ∙ left,
          record {
            asked = dropped.asked;
            after = dropped.checked.after;
            seen = dropped.checked.seen;
            disconnected = dropped.checked.disconnected;
            bonds = dropped.checked.bonds;
            cleanup = refl;
            certain = ap (λ x. is_doubtful x.report) (sym left) ∙ sure;
          },
        ))
      (λ off h k. cc)

pub complete_not_review :
    {o : Option String} → o ≡ some "query_complete" → o ≢ some "cleanup_requires_review"
complete_not_review h bad = cc

-- A run whose report is complete at the end was complete before its `finally` block.
pub finish_complete :
    (named : String → String) (bus : Bus) (s : Probing)
    → (finish named bus s).0 ≡ none
    → (finish named bus s).1.report.status ≡ some "query_complete"
    → s.report.status ≡ some "query_complete"
unfolding finish
finish_complete named bus s =
    if_elim
      (λ (u : Run).
        (concluded u).0 ≡ none
        → (concluded u).1.report.status ≡ some "query_complete"
        → s.report.status ≡ some "query_complete")
      s.attempted
      (λ on h k.
        let (whole, sure, same) = concluded_inversion (release named bus s) h (λ bad. cc) in
        let kept = ap (λ x. x.report.status) (sym same) ∙ k in
        let dropped = release_reviewed named bus s whole (λ bad. cc) in
        ap (λ (x : Run). x.1.report.status) (sym dropped.checked.whole) ∙ kept)
      (λ off h k.
        let (whole, sure, same) = concluded_inversion (none, s) h (complete_not_review k) in
        ap (λ x. x.report.status) (sym same) ∙ k)

pub handle_complete :
    (o : Option Fault) (s : Probing) → (handle o s).report.status ≡ some "query_complete" → o ≡ none
unfolding handle set_status
handle_complete none s h = refl
handle_complete (some interrupted) s h = cc
handle_complete (some (probe_error m)) s h = cc
handle_complete (some (bluez_error name)) s h = cc
handle_complete (some (protocol_error code)) s h = cc
handle_complete (some timed_out) s h = cc
handle_complete (some (internal name)) s h = cc

cleanup_failed_attempted :
    (named : String → String) (e : Fault) (s : Probing)
    → (cleanup_failed named e s).1.attempted ≡ s.attempted
unfolding cleanup_failed
cleanup_failed_attempted named e s = ground arith

release_attempted :
    (named : String → String) (bus : Bus) (s : Probing)
    → (release named bus s).1.attempted ≡ s.attempted
unfolding release check_after cleanup_failed
release_attempted named bus s = ground arith

pub finish_attempted :
    (named : String → String) (bus : Bus) (s : Probing)
    → (finish named bus s).1.attempted ≡ s.attempted
unfolding finish set_status
finish_attempted named bus s = ground (arith, release_attempted named bus s)

pub handle_attempted : (o : Option Fault) (s : Probing) → (handle o s).attempted ≡ s.attempted
unfolding handle set_status
handle_attempted o s = ground arith

cleanup_failed-disconnects :
    (named : String → String) (e : Fault) (s : Probing)
    → (cleanup_failed named e s).1.disconnects ≡ s.disconnects
unfolding cleanup_failed
cleanup_failed-disconnects named e s = ground arith

release-disconnects :
    (named : String → String) (bus : Bus) (s : Probing)
    → (release named bus s).1.disconnects ≡ s.disconnects + 1
unfolding release check_after cleanup_failed
release-disconnects named bus s = ground arith

concluded-disconnects : (u : Run) → (concluded u).1.disconnects ≡ u.1.disconnects
unfolding set_status
concluded-disconnects (some e, s) = refl
concluded-disconnects (none, s) =
    if_elim (λ (x : Probing). x.disconnects ≡ s.disconnects) (is_doubtful s.report) (λ doubt. refl)
      (λ sure. refl)

dropped-disconnects :
    (named : String → String) (bus : Bus) (s : Probing) (b : Bool)
    → (let u : Run = if b then release named bus s else (none, s) in u.1.disconnects)
      ≡ (if b then s.disconnects + 1 else s.disconnects)
dropped-disconnects named bus s true = release-disconnects named bus s
dropped-disconnects named bus s false = refl

-- The end of a run calls api.disconnect once if a connection was attempted, and otherwise not.
pub finish-disconnects :
    (named : String → String) (bus : Bus) (s : Probing)
    → (finish named bus s).1.disconnects
      ≡ (if s.attempted then s.disconnects + 1 else s.disconnects)
unfolding finish
finish-disconnects named bus s =
    concluded-disconnects (if s.attempted then release named bus s else (none, s))
    ∙ dropped-disconnects named bus s s.attempted

pub handle-disconnects : (o : Option Fault) (s : Probing) → (handle o s).disconnects ≡ s.disconnects
unfolding handle set_status
handle-disconnects o s = ground arith
