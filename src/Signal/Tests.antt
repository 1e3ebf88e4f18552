-- ===== src/Signal/Tests.antt =====
-- A run at a concrete input.
use ha_aiper_ble.Prelude.{◌≡◌, refl, true, none, some, List, [], ◌∷◌}
use ha_aiper_ble.Prelude.Int.{negsuc}
use ha_aiper_ble.Signal.{Event, Info, new_monitor, start, advertised, sampled, lost}
use ha_aiper_ble.Signal.Runs.{last_told, handle_all, IsTrue}
use ha_aiper_ble.Signal.Heard.{heard_all, handle_all-IsTrue}

abbrev seen : Info
seen = record { rssi = some (negsuc 59); source = none; age = some 500 }

abbrev events : List Event
events = start true ∷ advertised 1000 9000 seen ∷ sampled 2000 10000 (some seen) ∷ lost 3000 ∷ []

handle_all-IsTrue_example :
    ((handle_all events new_monitor).rssi ≡ none) × IsTrue (handle_all events new_monitor)
unfolding heard_all last_told
handle_all-IsTrue_example = handle_all-IsTrue events new_monitor (record {
  told = refl;
  lost_is_published = λ a. refl;
  plausible = λ n h. cc;
  shown_plausible = λ n h. cc;
})
