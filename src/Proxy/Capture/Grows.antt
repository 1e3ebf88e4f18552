-- ===== src/Proxy/Capture/Grows.antt =====
-- What a line adds to a capture of proxy_trace.py: at most one event, of the fixed vocabulary.
use ha_aiper_ble.Prelude.{
  ◌+◌, ◌≤◌, String, ◌≡◌, refl, sym, ap, ◌∙◌, Bool, true, ◌||◌, Option, none, some, List, [], ◌∷◌,
  arith, length, length-append, All, any, All-append, str_eq, if_elim,
}
use ha_aiper_ble.Prelude.Int.{ℤ}
use ha_aiper_ble.Prelude.Text.{Text, codes, text_eq}
use mathlib.Core.Path.{subst}
use ha_aiper_ble.Proxy.Events.{Reading, legacy_events, modern_events}
use ha_aiper_ble.Proxy.Events.Vocabulary.{IsSafe, IsKept}
use ha_aiper_ble.Proxy.Capture.{Event, Counts, Capture, add_event, release_slot, receive_proxy}

-- The event stands in one of the tables, or is the request to connect; every reading is a number or one
-- of the fixed words.
abbrev pub IsKnown : Event → Type 0
IsKnown e =
    (any (λ k. str_eq k.event e.event) legacy_events
        || any (λ k. str_eq k.event e.event) modern_events
        || str_eq "proxy_connect_request" e.event
      ≡ true)
    × All IsSafe e.readings

-- Nothing that is bounded changes.
pub record Keeps (c c' : Capture) : Type 0 where
  pub lines : c'.lines_seen ≡ c.lines_seen
  pub bytes : c'.bytes_seen ≡ c.bytes_seen
  pub accepts : c'.accepting ≡ c.accepting
  pub limit : c'.limit_reached ≡ c.limit_reached
  pub events : c'.events ≡ c.events

-- At most one known event is added, and what has been seen stays as it is.
pub record Grows (c c' : Capture) : Type 0 where
  pub lines : c'.lines_seen ≡ c.lines_seen
  pub bytes : c'.bytes_seen ≡ c.bytes_seen
  pub accepts : c'.accepting ≡ c.accepting
  pub limit : c'.limit_reached ≡ c.limit_reached
  pub few : length c'.events ≤ length c.events + 1
  pub known : All IsKnown c.events → All IsKnown c'.events

pub Keeps→Grows : (c c' : Capture) → Keeps c c' → Grows c c'
Keeps→Grows c c' k = record {
  lines = k.lines;
  bytes = k.bytes;
  accepts = k.accepts;
  limit = k.limit;
  few = omega (arith, ap (λ (l : List Event). length l) k.events);
  known = λ h. subst (All IsKnown) (sym k.events) h;
}

pub Grows-add_event :
    (e : String) (a : Option String) (readings : List (String × Reading)) (c c' : Capture)
    → IsKnown (record { event = e; attribution = a; readings = readings })
    → Keeps c c'
    → Grows c (add_event e a readings c')
unfolding add_event
Grows-add_event e a readings c c' h k =
    let added : List Event = record { event = e; attribution = a; readings = readings } ∷ [] in
    record {
      lines = k.lines;
      bytes = k.bytes;
      accepts = k.accepts;
      limit = k.limit;
      few =
          omega (arith, length-append c'.events added, ap (λ (l : List Event). length l) k.events);
      known = λ old.
          All-append IsKnown c'.events added (subst (All IsKnown) (sym k.events) old) (h, tt);
    }

pub Grows-release_slot : (b : Bool) (c c' : Capture) → Grows c c' → Grows c (release_slot b c')
unfolding release_slot
Grows-release_slot b c c' g = record {
  lines = g.lines;
  bytes = g.bytes;
  accepts = g.accepts;
  limit = g.limit;
  few = g.few;
  known = g.known;
}

pub Grows-trans-Keeps : (c c' c'' : Capture) → Keeps c c' → Grows c' c'' → Grows c c''
Grows-trans-Keeps c c' c'' k g = record {
  lines = g.lines ∙ k.lines;
  bytes = g.bytes ∙ k.bytes;
  accepts = g.accepts ∙ k.accepts;
  limit = g.limit ∙ k.limit;
  few = let more = g.few in omega (arith, ap (λ (l : List Event). length l) k.events);
  known = λ h. g.known (subst (All IsKnown) (sym k.events) h);
}

pub Keeps-set :
    (c : Capture) (slot : Option ℤ) (n : Counts)
    → Keeps c (record c { bound_slot = slot; counts = n })
Keeps-set c slot n = record {
  lines = refl;
  bytes = refl;
  accepts = refl;
  limit = refl;
  events = refl;
}

pub Grows-set :
    (c : Capture) (slot : Option ℤ) (n : Counts)
    → Grows c (record c { bound_slot = slot; counts = n })
Grows-set c slot n = Keeps→Grows c _ (Keeps-set c slot n)

pub Grows-receive_proxy :
    (slot : ℤ) (address : Option Text) (body : Text) (c : Capture)
    → Grows c (receive_proxy slot address body c)
unfolding receive_proxy
Grows-receive_proxy slot none body c = Grows-set c c.bound_slot c.counts
Grows-receive_proxy slot (some address) body c =
    if_elim (Grows c)
      (text_eq body (codes "Connecting v3 with cache")
        || text_eq body (codes "Connecting v3 without cache"))
      (λ connecting.
        Grows-add_event "proxy_connect_request" (some "target_address") [] c
          (record c { bound_slot = some slot }) (refl, tt) (Keeps-set c (some slot) c.counts))
      (λ other. Grows-set c c.bound_slot c.counts)

first_of : (a b c : Bool) → a ≡ true → a || b || c ≡ true
first_of a b c h = ground arith

second_of : (a b c : Bool) → b ≡ true → a || b || c ≡ true
second_of a b c h = ground arith

pub IsKnown-modern :
    (a : Option String) (event : String) (readings : List (String × Reading))
    → IsKept modern_events event readings
    → IsKnown (record { event = event; attribution = a; readings = readings })
IsKnown-modern a event readings k = (second_of _ _ _ k.0, k.1)

pub IsKnown-legacy :
    (a : Option String) (event : String) (readings : List (String × Reading))
    → IsKept legacy_events event readings
    → IsKnown (record { event = event; attribution = a; readings = readings })
IsKnown-legacy a event readings k = (first_of _ _ _ k.0, k.1)
