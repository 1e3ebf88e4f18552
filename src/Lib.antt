-- ===== src/Lib.antt =====
-- The Home Assistant integration for Aiper pool robots over Bluetooth (custom_components/aiper_ble):
-- the legacy wire protocol, the two transports, the polling coordinator, the controls and the services.
--
-- How the parts interact. The coordinator polls on a schedule. A cycle builds one request per query
-- type (`Query`), hands its frame to a transport, and takes the decoded response from the report
-- that the transport fills in. The transport splits the frame into chunks, feeds notifications to a
-- `Decoder`, and offers each decoded object to `query_telemetry`. `verified_values` checks result,
-- checksum and type before any value is published; `info_state` and the vacuum's activity are read
-- off what was published.
-- The services (`handle`) ask for their confirmations, and run a control, a query between two polls, a
-- poll, or a local diagnostic; a query may be pinned to one adapter or to one proxy, whose log is then
-- captured.
--
-- The files:
--   Protocol/Crc          crc16 of protocol.py
--   Protocol/Codec        xor and chunks of protocol.py; base64, which query_frame and feed call
--   Protocol/Query        Query, Control and query_frame of protocol.py
--   Protocol/Decoder      Decoder of protocol.py: feed, and a run of several notifications
--   Protocol/Scan, Protocol/Reply, Protocol/Telemetry
--                         telemetry and query_telemetry of protocol.py, with their patterns
--   Protocol/Hint, Protocol/Evidence
--                         protocol_hint, Listen, response_evidence, exploratory_evidence
--   Protocol/Preview      preview of protocol.py
--   Datapoints            datapoints.py
--   S1States              s1_states.py, and activity of vacuum.py
--   Coordinator/Report    the report of an exchange, last_route and signal_strength
--   Coordinator/State     the fields of AiperCoordinator, its constructor, effective_interval
--   Coordinator/Verified  verified_values of coordinator.py
--   Coordinator/Judge, Coordinator/Settle, Coordinator/Update
--                         _async_update_data of coordinator.py: one query, the end of a cycle, the
--                         loop and the guards
--   Coordinator/Isolated  async_query_isolated
--   Coordinator/Manual    async_poll_now, the poll after a control, mark_stale
--   Signal                SignalMonitor of signal.py, and number of transport_diagnostics.py
--   Controls, Controls/Call
--                         controls.py: the steps of a control, and the whole call
--   Target                model_of and Target of probe.py
--   Transport/Routes      validate_routes and endpoint of bluetooth_transport.py
--   Transport/Inbox       the queue of notifications, and what is made of each value
--   Transport/Session, Transport/Exchange, Transport/Release, Transport/Bluetooth
--                         query_once of bluetooth_transport.py: the writes, the try block, the
--                         finally block, the whole call
--   Transport/Watch       TransportDiagnostics of transport_diagnostics.py
--   Services, Services/Probing, Services/Answers, Services/Serve
--                         handle of __init__.py: the calls and their answers, the local diagnostics
--                         with open_bluez of probe.py, the results, the guards and the dispatch
--   Proxy/Pattern, Proxy/Header, Proxy/Events, Proxy/Lines, Proxy/Capture
--                         EventCapture of proxy_trace.py: its patterns, headers and tables, the
--                         cleaning of a line, what is kept
--   Pinned/Routes, Pinned/Local
--                         local_bleak.py: the selection of a route over the saved adapter, and
--                         query_once with what BlueZ confirms
--   Pinned/Proxy, Pinned/Trace
--                         resolve_proxy, select_route, the guards and query_once of proxy_trace.py
--   Bluez/Objects, Bluez/Guards
--                         the objects of BlueZ, and the checks of probe.py and telemetry.py on them
--   Bluez/Permits         Bluez.call, and call and _exact of QueryBluez
--   Bluez/Query, Bluez/Release, Bluez/Exchange
--                         query_once of telemetry.py: the loops, the finally block, the whole call
--   Bluez/Faults, Bluez/Probe
--                         error_code, sample_hex and probe of probe.py
--   Bluez/Chain           query_once of local_transport.py
--   Value, Value/Json     the values of json.loads, json.dumps with the options in use, UTF-8
--   Outcome               exceptions and results
--   Prelude               shared names, lists, tests, integers, bits, texts
-- The modules below these hold the proofs; the modules Tests below Protocol, Coordinator, Controls,
-- Services, Signal, S1States, Transport, Proxy, Pinned and Bluez hold runs at concrete inputs, with
-- the data of the modules Samples.
--
-- The state. `State` holds the coordinator's mutable fields and the two of the shared `Runtime` that
-- it reads (`task`, as whether it runs, and `closing`). An operation takes the state and returns its
-- result, an exception included, with the state that it leaves. What an awaited call does in between
-- is a value: `Exchange` says what the transport has made of the report, whether it raised, and
-- whether the entry is closing by then; `Meeting` says what the clocks and the passive monitor read.
-- A transport's run is a function of what it meets: `Link` for Home Assistant Bluetooth, `Bus` and
-- `Wire` for BlueZ say what each awaited call returns or raises, its deadline included, and which
-- notifications arrive meanwhile; a run ends with an exception or none, and with the report; the run
-- of `probe` also counts its calls of api.disconnect.
-- `json.loads` is the parameter `loads` of the decoder, floats and `str.isprintable` the record
-- `Python`; what Home Assistant's update coordinator does on an error or on new data is `set_error`
-- and `set_data`. `World` is what a service meets: the clock, the robot, and for the local
-- diagnostics `Local`; `LocalWorld` and `ProxyWorld` are what a pinned query meets. `digit_of` is the
-- value of a decimal digit, `decode` reads a line of a log as UTF-8 with replacements.
--
-- Bounds and fuel. Times of the event loop are counted in milliseconds, so that the second that a
-- tick may come early is exact. `slices` and the printing of decimals recurse on fuel: as many
-- rounds as the frame has bytes, and as the number's value, which is never too few, since each
-- round takes at least one byte or digit. `span` and `strip_ansi` have the length of the text as
-- fuel, and take at least one character a round. All else is structural recursion. Sizes are
-- unbounded natural numbers, as Python's are; the checksum keeps its mask of 16 bits.
--
-- The waits of a transport are finite lists, after which the deadline of the exchange passes.
--
-- Not modelled: D-Bus, Bleak, the ESPHome API and Home Assistant themselves, listener.py, the set-up of
-- an entry, the diagnostics and the entities. Reports keep only what is read again, so the
-- inventory of services, the evidence and the timings leave no trace in them, and signal strengths
-- are only integers. A message that goes to the log leaves no trace.
pub mod Prelude
pub mod Outcome
pub mod Value
pub mod Datapoints
pub mod Protocol
pub mod S1States
pub mod Coordinator
pub mod Controls
pub mod Target
pub mod Transport
pub mod Bluez
pub mod Signal
pub mod Services
pub mod Proxy
pub mod Pinned
