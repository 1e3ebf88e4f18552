-- ===== src/Bluez/Probe/Attempts.antt =====
-- Which connections a run of `probe` (probe.py) touches, and what a complete exchange has passed.
use ha_aiper_ble.Prelude.{
  String, ◌≡◌, refl, sym, ap, ◌∙◌, true, false, not, ◌&&◌, ◌||◌, Option, none, some, arith, if_elim,
}
use ha_aiper_ble.Prelude.Text.{Text}
use ha_aiper_ble.Target.{Target}
use ha_aiper_ble.Coordinator.Report.{Report}
use ha_aiper_ble.Bluez.Objects.{Device, Objects}
use ha_aiper_ble.Bluez.Guards.{
  Fault, probe_error, bluez_error, protocol_error, timed_out, interrupted, internal, Checked,
  passed, failed, Asked,
}
use ha_aiper_ble.Bluez.Faults.{sample_hex}
use ha_aiper_ble.Bluez.Probe.{
  Bus, Options, Probing, Run, with_checked, set_stage, set_status, check_protocol, look, resolve,
  another_client, connect_failed, ask, read_raw, discover, after_connect, connect_robot, attempt,
  handle, new_probing, probe, is_some,
}
use ha_aiper_ble.Bluez.Probe.Ends.{
  IsGone, finish-IsGone, finish_complete, handle_complete, complete_not_review,
}

-- What is seen before a connection is attempted: two looks at the objects, each of which passes the
-- checks of the robot and of the protocol, and no other client that connects.
pub record IsConnectable (bus : Bus) (t : Target) (query : Option Asked) : Type 0 where
  pub before : Objects × Device
  pub first : look bus.first t ≡ passed before
  pub first_protocol : check_protocol before.0 t query ≡ passed tt
  pub fresh : Objects × Device
  pub second : look bus.second t ≡ passed fresh
  pub second_protocol : check_protocol fresh.0 t query ≡ passed tt
  pub alone : (name : Text) → bus.connect ≡ failed (bluez_error name) → another_client name ≡ false

pub with_checked_elim {ℓ κ} :
    {A : Type ℓ} (P : Run → Type κ) (c : Checked A) (s : Probing) (next : A → Run)
    → ((e : Fault) → P (some e, s))
    → ((a : A) → c ≡ passed a → P (next a))
    → P (with_checked c s next)
with_checked_elim P (failed e) s next refused goes = refused e
with_checked_elim P (passed a) s next refused goes = goes a refl

-- What the try block comes to: whether it may have connected, and what stands behind a query that
-- ends without an exception.
pub record IsTried (bus : Bus) (t : Target) (options : Options) (x : Run) : Type 0 where
  pub connectable : x.1.attempted ≡ true → IsConnectable bus t options.query
  pub exchanged :
      (asked : Asked)
      → options.query ≡ some asked
      → options.connect ≡ true
      → x.0 ≡ none
      → (r : Report) × (x.1.attempted ≡ true)
        × ((bus.exchange r).0 ≡ none)
        × ((bus.exchange r).2 ≡ x.1.report)

untried :
    (bus : Bus) (t : Target) (options : Options) (e : Fault) (s : Probing)
    → s.attempted ≡ false
    → IsTried bus t options (some e, s)
untried bus t options e s h = record { connectable = λ on. cc; exchanged = λ asked q c a. cc }

-- an exception after the connection was attempted
abandoned :
    (bus : Bus) (t : Target) (options : Options) (e : Fault) (s : Probing)
    → IsConnectable bus t options.query
    → IsTried bus t options (some e, s)
abandoned bus t options e s seen = record {
  connectable = λ on. seen;
  exchanged = λ asked q c a. cc;
}

ask-IsTried :
    (bus : Bus) (t : Target) (options : Options) (o : Option Asked) (s : Probing)
    → options.query ≡ o
    → IsConnectable bus t options.query
    → s.attempted ≡ true
    → IsTried bus t options (ask bus o s)
unfolding ask
ask-IsTried bus t options none s same seen on = record {
  connectable = λ a. seen;
  exchanged = λ asked q c a. cc;
}
ask-IsTried bus t options (some asked') s same seen on = record {
  connectable = λ a. seen;
  exchanged = λ asked q c a. (s.report, on, a, refl);
}

module _ (bus : Bus) (t : Target) (options : Options) where
  read_raw-IsTried :
      (s : Probing)
      → IsConnectable bus t options.query
      → s.attempted ≡ true
      → IsTried bus t options (read_raw bus options s)
  unfolding read_raw set_stage set_status
  read_raw-IsTried s seen on =
      let P = IsTried bus t options in
      let reading = set_stage "raw_read" s in
      if_elim P options.read
        (λ read.
          with_checked_elim P bus.sample reading _ (λ e. abandoned bus t options e reading seen)
            λ sample found.
              with_checked_elim P (sample_hex sample) reading _
                (λ e. abandoned bus t options e reading seen)
                λ text good. ask-IsTried bus t options options.query _ refl seen on)
        (λ query. ask-IsTried bus t options options.query s refl seen on)

  discover-IsTried :
      (s : Probing)
      → IsConnectable bus t options.query
      → s.attempted ≡ true
      → IsTried bus t options (discover bus t options s)
  unfolding discover set_stage set_status
  discover-IsTried s seen on =
      let P = IsTried bus t options in
      with_checked_elim P (resolve bus.states) (set_stage "service_resolution" s) _
        (λ e. abandoned bus t options e _ seen)
        λ state found.
          with_checked_elim P bus.third (set_stage "inventory" s) _
            (λ e. abandoned bus t options e _ seen) λ objects listed. read_raw-IsTried _ seen on

  -- what follows `api.connect()`, by what it returns
  after_connect-IsTried :
      (c : Checked Unit) (s : Probing)
      → bus.connect ≡ c
      → (((name : Text) → c ≡ failed (bluez_error name) → another_client name ≡ false)
          → IsConnectable bus t options.query)
      → s.attempted ≡ true
      → IsTried bus t options (after_connect c s (discover bus t options))
  unfolding connect_failed
  after_connect-IsTried (passed u) s same seen on = discover-IsTried s (seen (λ name h. cc)) on
  after_connect-IsTried (failed (bluez_error name)) s same seen on =
      if_elim (λ (u : Probing). IsTried bus t options (some (bluez_error name), u))
        (another_client name) (λ other. untried bus t options (bluez_error name) _ refl)
        (λ own. abandoned bus t options (bluez_error name) s (seen (λ name' h. cc)))
  after_connect-IsTried (failed (probe_error m)) s same seen on =
      abandoned bus t options (probe_error m) s (seen (λ name h. cc))
  after_connect-IsTried (failed (protocol_error m)) s same seen on =
      abandoned bus t options (protocol_error m) s (seen (λ name h. cc))
  after_connect-IsTried (failed timed_out) s same seen on =
      abandoned bus t options timed_out s (seen (λ name h. cc))
  after_connect-IsTried (failed interrupted) s same seen on =
      abandoned bus t options interrupted s (seen (λ name h. cc))
  after_connect-IsTried (failed (internal name)) s same seen on =
      abandoned bus t options (internal name) s (seen (λ name' h. cc))

  pub attempt-IsTried :
      (s : Probing) → s.attempted ≡ false → IsTried bus t options (attempt bus t options s)
  unfolding attempt set_stage set_status connect_robot
  attempt-IsTried s fresh =
      let P = IsTried bus t options in
      let s0 = set_stage "preflight" s in
      let stop : (e : Fault) → P (some e, s0) = λ e. untried bus t options e s0 fresh in
      if_elim P ((options.read || is_some options.query) && not options.connect) (λ h. stop _)
        λ h.
          if_elim P (options.read && is_some options.query) (λ k. stop _)
            λ k. with_checked_elim P (look bus.first t) s0 _ stop λ seen first.
              let s1 = record s0 { before = some seen.1 } in
              let stop1 : (e : Fault) → P (some e, s1) = λ e. untried bus t options e s1 fresh in
              with_checked_elim P (check_protocol seen.0 t options.query) s1 _ stop1 λ u passed1.
                if_elim P (not options.connect)
                  (λ passive. record {
                    connectable = λ on. cc;
                    exchanged = λ asked q c a. ground arith;
                  })
                  λ active. with_checked_elim P (look bus.second t) s1 _ stop1 λ again second.
                    with_checked_elim P (check_protocol again.0 t options.query) s1 _ stop1
                      λ u' passed2.
                        after_connect-IsTried bus.connect _ refl
                          (λ alone. record {
                            before = seen;
                            first = first;
                            first_protocol = passed1;
                            fresh = again;
                            second = second;
                            second_protocol = passed2;
                            alone = alone;
                          })
                          refl

  -- A query over BlueZ that is reported complete, of a run that is not cancelled in its cleanup, has
  -- passed both looks, is that of an exchange without an exception, and has left the robot as it was
  -- found: asked to disconnect, seen disconnected, with the same pairing, and no cleanup in doubt.
  pub probe-IsGone :
      (named : String → String) (r : Report) (asked : Asked)
      → options.query ≡ some asked
      → options.connect ≡ true
      → (probe named bus t options r).0 ≡ none
      → (probe named bus t options r).1.report.status ≡ some "query_complete"
      → IsConnectable bus t options.query
        × IsGone bus (probe named bus t options r).1
        × ((before : Report) × ((bus.exchange before).0 ≡ none)
            × ((probe named bus t options r).1.report
                ≡ record (bus.exchange before).2 { cleanup = some "disconnected_confirmed" }))
  unfolding probe handle
  probe-IsGone named r asked q c h complete =
      let s = new_probing r in
      let tried = attempt-IsTried s refl in
      let run = attempt bus t options s in
      let done = finish_complete named bus (handle run.0 run.1) h complete in
      let fine = handle_complete run.0 run.1 done in
      let (before, on, quiet, exchange) = tried.exchanged asked q c fine in
      let same : handle run.0 run.1 ≡ run.1 = ap (λ o. handle o run.1) fine in
      let (left, gone) =
        finish-IsGone named bus (handle run.0 run.1) (ap (λ x. x.attempted) same ∙ on) h
          (complete_not_review complete) in
      (
        tried.connectable on,
        rw left gone,
        (
          before,
          quiet,
          ap (λ x. x.report) left
              ∙ ap (λ x. record x.report { cleanup = some "disconnected_confirmed" }) same
              ∙ ap (λ (x : Report). record x { cleanup = some "disconnected_confirmed" })
                  (sym exchange),
        ),
      )
