-- ===== src/Proxy/Capture.antt =====
-- `EventCapture` of proxy_trace.py: what is kept of the lines of a proxy's log. Times are left out. The
-- values of decimal digits (`digit_of`) and `bytes.decode("utf-8", errors="replace")` (`decode`) are
-- parameters.
pub mod Grows
pub mod Steps
pub mod Bounds
pub mod Takes
use ha_aiper_ble.Prelude.{
  ℕ, ◌+◌, String, Bool, true, false, not, ◌&&◌, ◌||◌, Option, none, some, List, [], ◌∷◌, ◌++◌,
  length, ltb, leb, if◌then◌else◌, str_eq,
}
use ha_aiper_ble.Prelude.Int.{ℤ, leb_ℤ}
use ha_aiper_ble.Prelude.Text.{Text, Bytes, codes, text_eq}
use ha_aiper_ble.Bluez.Objects.{upper}
use ha_aiper_ble.Proxy.Lines.{strip_ansi, strip_end, contains}
use ha_aiper_ble.Proxy.Header.{Modern, header, modern_header}
use ha_aiper_ble.Proxy.Events.{Reading, legacy_events, modern_events, decimal_of, recognise}

abbrev pub max_events : ℕ
max_events = 128

abbrev pub max_lines : ℕ
max_lines = 2048

abbrev pub max_bytes : ℕ
max_bytes = 262144

abbrev pub max_line_bytes : ℕ
max_line_bytes = 2048

-- what is kept of a line; `attribution` is none for the older format
pub record Event : Type 0 where
  pub event : String
  pub attribution : Option String
  pub readings : List (String × Reading)

-- format_counts
pub record Counts : Type 0 where
  pub oversized : ℕ
  pub header_unmatched : ℕ
  pub ble_tag_header_unmatched : ℕ
  pub other_device : ℕ
  pub target_header : ℕ
  pub target_message_unmatched : ℕ
  pub modern_header : ℕ
  pub unattributed_slot : ℕ

-- The fields, and the entries of `data` that change.
pub record Capture : Type 0 where
  pub address : Text
  pub bound_slot : Option ℤ
  pub accepting : Bool
  pub events : List Event
  pub lines_seen : ℕ
  pub bytes_seen : ℕ
  pub limit_reached : Bool
  pub counts : Counts

abbrev pub no_counts : Counts
no_counts = record {
  oversized = 0;
  header_unmatched = 0;
  ble_tag_header_unmatched = 0;
  other_device = 0;
  target_header = 0;
  target_message_unmatched = 0;
  modern_header = 0;
  unattributed_slot = 0;
}

unfoldable pub new_capture : Text → Capture
new_capture address = record {
  address = address;
  bound_slot = none;
  accepting = true;
  events = [];
  lines_seen = 0;
  bytes_seen = 0;
  limit_reached = false;
  counts = no_counts;
}

-- the events after which a slot is no longer the target's
unfoldable pub frees_slot : String → Bool
frees_slot event =
    str_eq event "slot_freed"
    || str_eq event "close_timeout"
    || str_eq event "backend_idle"
    || str_eq event "connect_rejected"
    || str_eq event "open_error"

unfoldable pub add_event : String → Option String → List (String × Reading) → Capture → Capture
add_event event attribution readings c = record c {
  events =
      c.events ++ record { event = event; attribution = attribution; readings = readings } ∷ [];
}

unfoldable pub is_slot : Option ℤ → ℤ → Bool
is_slot none slot = false
is_slot (some bound) slot = leb_ℤ bound slot && leb_ℤ slot bound

unfoldable pub is_target : Text → Text → Bool
unfolding upper text_eq
is_target address observed = text_eq (upper observed) address

unfoldable pub release_slot : Bool → Capture → Capture
release_slot b c = record c { bound_slot = if b then none else c.bound_slot }

-- A line of bluetooth_proxy of the target, or with no address
unfoldable pub receive_proxy : ℤ → Option Text → Text → Capture → Capture
unfolding text_eq add_event
receive_proxy slot none body c = c
receive_proxy slot (some address) body c =
    if text_eq body (codes "Connecting v3 with cache")
      || text_eq body (codes "Connecting v3 without cache")
    then add_event "proxy_connect_request" (some "target_address") []
        (record c { bound_slot = some slot })
    else c

module _ (digit_of : ℕ → Option ℕ) where
  -- the loop over MODERN_EVENTS
  unfoldable pub note_modern : String → Text → Capture → Capture
  unfolding recognise add_event frees_slot release_slot
  note_modern attribution body c =
      let counted = record c {
        counts = record c.counts { target_header = c.counts.target_header + 1 };
      } in
      elim (recognise digit_of modern_events body) [
        | some (event, readings) ↦
            release_slot (frees_slot event) (add_event event (some attribution) readings counted)
        | none ↦ record counted {
          counts = record counted.counts {
            target_message_unmatched = counted.counts.target_message_unmatched + 1;
          };
        }
      ]

  unfoldable pub note_other : ℤ → Capture → Capture
  unfolding is_slot release_slot
  note_other slot c =
      release_slot (is_slot c.bound_slot slot)
        (record c { counts = record c.counts { other_device = c.counts.other_device + 1 } })

  unfoldable pub note_bare : ℤ → Text → Capture → Capture
  unfolding is_slot note_modern
  note_bare slot body c =
      if is_slot c.bound_slot slot then note_modern "bound_slot" body c else record c {
        counts = record c.counts { unattributed_slot = c.counts.unattributed_slot + 1 };
      }

  -- `_receive_modern`, of a line whose header matches
  unfoldable pub receive_modern : Modern → Capture → Capture
  unfolding decimal_of is_target note_other receive_proxy note_bare note_modern
  receive_modern m c =
      let slot = decimal_of digit_of m.slot in
      let counted = record c {
        counts = record c.counts { modern_header = c.counts.modern_header + 1 };
      } in
      elim m.address [
        | none ↦
            if m.is_proxy
            then receive_proxy slot none m.body counted
            else note_bare slot m.body counted
        | some address ↦
            if not (is_target c.address address)
            then note_other slot counted
            else if m.is_proxy
            then receive_proxy slot (some address) m.body counted
            else note_modern "target_address" m.body counted
      ]

  -- the loop over EVENTS, of a line of the older format
  unfoldable pub receive_legacy : Text → Text → Capture → Capture
  unfolding is_target recognise add_event
  receive_legacy address message c =
      let counted = record c {
        counts = record c.counts { target_header = c.counts.target_header + 1 };
      } in
      if not (is_target c.address address)
      then record c { counts = record c.counts { other_device = c.counts.other_device + 1 } }
      else elim (recognise digit_of legacy_events message) [
        | some (event, readings) ↦ add_event event none readings counted
        | none ↦ record counted {
          counts = record counted.counts {
            target_message_unmatched = counted.counts.target_message_unmatched + 1;
          };
        }
      ]

  unfoldable pub receive_unmatched : Text → Capture → Capture
  unfolding contains
  receive_unmatched text c = record c {
    counts = record c.counts {
      header_unmatched = c.counts.header_unmatched + 1;
      ble_tag_header_unmatched =
          if contains (codes "[esp32_ble_client:") text
          then c.counts.ble_tag_header_unmatched + 1
          else c.counts.ble_tag_header_unmatched;
    };
  }

  unfoldable pub receive_text : Text → Capture → Capture
  unfolding header receive_legacy modern_header receive_modern receive_unmatched
  receive_text text c = elim (header digit_of text) [
    | some (address, message) ↦ receive_legacy address message c
    | none ↦ elim (modern_header digit_of text) [
      | some m ↦ receive_modern m c
      | none ↦ receive_unmatched text c
    ]
  ]

  -- `receive`
  unfoldable pub receive : (Bytes → Text) → Bytes → Capture → Capture
  unfolding strip_ansi strip_end receive_text
  receive decode raw c =
      let seen = record c {
        lines_seen = c.lines_seen + 1;
        bytes_seen = c.bytes_seen + length raw;
      } in
      let text = decode raw in
      if not c.accepting
      then c
      else if ltb max_lines seen.lines_seen
          || ltb max_bytes seen.bytes_seen
          || leb max_events (length c.events)
      then record seen { limit_reached = true; accepting = false }
      else if ltb max_line_bytes (length raw)
      then record seen { counts = record c.counts { oversized = c.counts.oversized + 1 } }
      else receive_text (strip_end (strip_ansi (length text) text)) seen
