-- ===== src/Bluez/Probe.antt =====
-- `probe` of probe.py: the checks, the connection, one exchange and the disconnection. What BlueZ does
-- is the parameter `Bus`. The entries of the report that nothing reads are left out.
pub mod Ends
pub mod Attempts
pub mod Touches
use ha_aiper_ble.Prelude.{
  ℕ, ◌+◌, String, Bool, true, false, not, ◌&&◌, ◌||◌, Option, none, some, List, [], ◌∷◌, any,
  if◌then◌else◌,
}
use ha_aiper_ble.Prelude.Text.{Text, codes, text_eq}
use ha_aiper_ble.Target.{Target}
use ha_aiper_ble.Coordinator.Report.{Report, is_text, or_default}
use ha_aiper_ble.Bluez.Objects.{
  Device, GattService, Interfaces, Objects, path_of, is_set, is_false, is_path, rssi_dbm,
}
use ha_aiper_ble.Bluez.Guards.{
  Fault, probe_error, bluez_error, protocol_error, timed_out, interrupted, internal, Checked,
  passed, failed, Asked, validate, validate_query_protocol,
}
use ha_aiper_ble.Bluez.Faults.{error_code, fault_category, unconfirmed, Sample, sample_hex}

-- What one run meets, each as a whole call with its deadline. `states` are the replies while services
-- resolve; after the last of them the deadline passes. `exchange` is api.query_once: what it
-- raises, the stage it has reached, if any, and the report it leaves.
pub record Bus : Type 0 where
  pub first : Checked Objects
  pub second : Checked Objects
  pub connect : Checked {0} Unit
  pub states : List (Checked Device)
  pub third : Checked Objects
  pub sample : Checked Sample
  pub exchange : Report → Option Fault × Option String × Report
  pub disconnect : Checked {0} Unit
  pub after : Checked Device

-- what is asked for: connect, read and query
pub record Options : Type 0 where
  pub connect : Bool
  pub read : Bool
  pub query : Option Asked

-- The report, with those of its entries that only `probe` reads, the local `attempted`, and how often
-- api.disconnect has been called.
pub record Probing : Type 0 where
  pub report : Report
  pub stage : Option String
  pub before : Option Device
  pub sample : Option Text
  pub cleanup_error_code : Option String
  pub attempted : Bool
  pub disconnects : ℕ

abbrev pub Run : Type 0
Run = Option Fault × Probing

abbrev pub with_checked {ℓ} : {A : Type ℓ} → Checked A → Probing → (A → Run) → Run
with_checked (failed e) s next = (some e, s)
with_checked (passed a) s next = next a

unfoldable pub set_stage : String → Probing → Probing
set_stage name s = record s { stage = some name }

unfoldable pub set_status : String → Probing → Probing
set_status name s = record s { report = record s.report { status = some name } }

-- whether the inventory has a service of the robot
unfoldable pub has_services : Objects → Target → Bool
unfolding is_path path_of
has_services objects t =
    any (λ o. elim o.1.service [ none ↦ false | some s ↦ is_path s.device (path_of t) ]) objects

-- validate_query_protocol, if there is a query
unfoldable pub check_protocol : Objects → Target → Option Asked → Checked {0} Unit
unfolding validate_query_protocol
check_protocol objects t none = passed tt
check_protocol objects t (some asked) = elim (validate_query_protocol objects t asked) [
  | failed e ↦ failed e
  | passed hint ↦ passed tt
]

-- one look at the objects: they are what `validate` takes, with the device
unfoldable pub look : Checked Objects → Target → Checked (Objects × Device)
unfolding validate
look (failed e) t = failed e
look (passed objects) t = elim (validate objects t) [
  | failed e ↦ failed e
  | passed device ↦ passed (objects, device)
]

-- while True: state = await api.device() ...
unfoldable pub resolve : List (Checked Device) → Checked Device
resolve [] = failed timed_out
resolve (failed e ∷ rest) = failed e
resolve (passed d ∷ rest) =
    let later = resolve rest in
    if not (is_set d.connected)
    then failed (probe_error "Connection lost before service discovery.")
    else if is_set d.services_resolved
    then passed d
    else later

abbrev pub another_client : Text → Bool
another_client name =
    text_eq name (codes "org.bluez.Error.AlreadyConnected")
    || text_eq name (codes "org.bluez.Error.InProgress")

-- the handler of BluezError around api.connect()
unfoldable pub connect_failed : Fault → Probing → Probing
unfolding text_eq
connect_failed (bluez_error name) s =
    if another_client name
    then record s {
      attempted = false;
      report = record s.report { cleanup = some "not_touched_possible_other_client" };
    }
    else s
connect_failed e s = s

abbrev reached : Option String → Option String → Option String
reached none stage = stage
reached (some name) stage = some name

-- the exchange of a query, if there is one
unfoldable pub ask : Bus → Option Asked → Probing → Run
ask bus none s = (none, s)
ask bus (some asked) s =
    let (e, stage, report) = bus.exchange s.report in
    (e, record s { report = report; stage = reached stage s.stage })

-- the raw read, if it is asked for
unfoldable pub read_raw : Bus → Options → Probing → Run
unfolding set_stage set_status sample_hex ask
read_raw bus options s =
    if options.read
    then (with_checked bus.sample (set_stage "raw_read" s) λ sample.
        with_checked (sample_hex sample) (set_stage "raw_read" s) λ text.
          ask bus options.query
            (set_status "read_complete" (record (set_stage "raw_read" s) { sample = some text })))
    else ask bus options.query s

-- from the resolution of the services on
unfoldable pub discover : Bus → Target → Options → Probing → Run
unfolding set_stage set_status has_services resolve read_raw
discover bus t options s =
    with_checked (resolve bus.states) (set_stage "service_resolution" s) λ state.
      with_checked bus.third (set_stage "inventory" s) λ objects. read_raw bus options (
        set_status
          (if has_services objects t then "discovery_complete" else "no_gatt_services_returned")
          (set_stage "inventory" s))

abbrev pub after_connect : Checked {0} Unit → Probing → (Probing → Run) → Run
after_connect (failed e) s next = (some e, connect_failed e s)
after_connect (passed u) s next = next s

-- the connection, after the second look
unfoldable pub connect_robot : Bus → Target → Options → Device → Probing → Run
unfolding set_stage connect_failed discover rssi_dbm
connect_robot bus t options fresh s =
    after_connect bus.connect
      (set_stage "connect" (record s {
        attempted = true;
        report = record s.report { preconnect_rssi_dbm = rssi_dbm fresh };
      }))
      (discover bus t options)

abbrev pub is_some {ℓ} : {A : Type ℓ} → Option A → Bool
is_some none = false
is_some (some a) = true

-- the try block
unfoldable pub attempt : Bus → Target → Options → Probing → Run
unfolding set_stage set_status look check_protocol connect_robot
attempt bus t options s =
    let s0 = set_stage "preflight" s in
    if (options.read || is_some options.query) && not options.connect
    then (some (probe_error "A read requires an explicitly authorised connection."), s0)
    else if options.read && is_some options.query
    then (some (probe_error "Raw read and protocol query cannot be combined."), s0)
    else with_checked (look bus.first t) s0 λ seen.
      let s1 = record s0 { before = some seen.1 } in
      with_checked (check_protocol seen.0 t options.query) s1 λ u.
        if not options.connect
        then (none, set_status "preflight_passed_no_connection" s1)
        else with_checked (look bus.second t) s1 λ again.
          with_checked (check_protocol again.0 t options.query) s1
            λ u'. connect_robot bus t options again.1 s1

-- A name that BlueZ gives a device that is not connected.
abbrev pub not_connected : Text → Bool
not_connected name = text_eq name (codes "org.bluez.Error.NotConnected")

-- what disconnect raises that counts
unfoldable pub disconnect_fault : Checked {0} Unit → Option Fault
unfolding text_eq
disconnect_fault (passed u) = none
disconnect_fault (failed (bluez_error name)) =
    if not_connected name then none else some (bluez_error name)
disconnect_fault (failed e) = some e

abbrev same_flag : Option Bool → Option Bool → Bool
same_flag none none = true
same_flag (some b) (some b') = if b then b' else not b'
same_flag _ _ = false

-- after.get(key) == report["before"].get(key), for a key of the pairing
unfoldable pub same_bonds : Option Device → Device → Bool
same_bonds none after = false
same_bonds (some before) after =
    same_flag after.paired before.paired
    && same_flag after.bonded before.bonded
    && same_flag after.trusted before.trusted

-- the handler of the cleanup; a cancellation passes through it
unfoldable pub cleanup_failed : (String → String) → Fault → Probing → Run
unfolding unconfirmed error_code
cleanup_failed named interrupted s = (some interrupted, s)
cleanup_failed named e s = (
  none,
  record s {
    report = record s.report {
      cleanup = some (unconfirmed named e);
      status = some "cleanup_requires_review";
    };
    cleanup_error_code = some (error_code e);
  },
)

-- the checks of the device after the disconnection
unfoldable pub check_after : (String → String) → Checked Device → Probing → Run
unfolding cleanup_failed same_bonds
check_after named (failed e) s = cleanup_failed named e s
check_after named (passed after) s =
    if not (is_false after.connected)
    then cleanup_failed named (probe_error "Disconnection not confirmed.") s
    else let gone = record s {
      report = record s.report { cleanup = some "disconnected_confirmed" };
    } in
      if same_bonds s.before after
      then (none, gone)
      else cleanup_failed named (probe_error "changed; stop and review.") gone

-- api.disconnect is called
abbrev pub ask_disconnect : Probing → Probing
ask_disconnect s = record s { disconnects = s.disconnects + 1 }

-- the cleanup of a connection that was attempted
unfoldable pub release : (String → String) → Bus → Probing → Run
unfolding disconnect_fault cleanup_failed check_after
release named bus s = elim (disconnect_fault bus.disconnect) [
  | some e ↦ cleanup_failed named e (ask_disconnect s)
  | none ↦ check_after named bus.after (ask_disconnect s)
]

-- whether a cleanup of the exchange is in doubt
unfoldable pub is_doubtful : Report → Bool
is_doubtful r =
    is_text r.notification_cleanup "stop_unconfirmed"
    || is_text r.notification_cleanup "ownership_uncertain"
    || is_text r.signal_cleanup "remove_match_unconfirmed"

abbrev pub unless_cut : Run → (Probing → Run) → Run
unless_cut (some e, s) next = (some e, s)
unless_cut (none, s) next = next s

-- the `finally` block
unfoldable pub finish : (String → String) → Bus → Probing → Run
unfolding release is_doubtful set_status
finish named bus s =
    unless_cut (if s.attempted then release named bus s else (none, s))
      λ s'. (none, if is_doubtful s'.report then set_status "cleanup_requires_review" s' else s')

-- the handlers
unfoldable pub handle : Option Fault → Probing → Probing
unfolding error_code fault_category set_status
handle none s = s
handle (some interrupted) s = set_status "interrupted" s
handle (some e) s = record s {
  report = record s.report {
    status = some "failed";
    error_code = some (error_code e);
    error_category = some (fault_category e);
    failure_stage = or_default s.stage "unknown";
  };
}

-- before the try block
abbrev pub new_probing : Report → Probing
new_probing r = record {
  report = r;
  stage = none;
  before = none;
  sample = none;
  cleanup_error_code = none;
  attempted = false;
  disconnects = 0;
}

-- `probe`; what is raised can only be a cancellation of the cleanup
unfoldable pub probe : (String → String) → Bus → Target → Options → Report → Run
unfolding attempt handle finish
probe named bus t options r =
    let (failure, tried) = attempt bus t options (new_probing r) in
    finish named bus (handle failure tried)
