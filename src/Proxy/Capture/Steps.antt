-- ===== src/Proxy/Capture/Steps.antt =====
-- Every way through `receive` of proxy_trace.py adds at most one known event.
use ha_aiper_ble.Prelude.{
  ℕ, ◌+◌, String, ◌≡◌, refl, not, Option, none, some, List, if◌then◌else◌, if_elim,
}
use ha_aiper_ble.Prelude.Int.{ℤ}
use ha_aiper_ble.Prelude.Text.{Text}
use ha_aiper_ble.Proxy.Header.{Modern, header, modern_header}
use ha_aiper_ble.Proxy.Events.{Reading, legacy_events, modern_events, recognise, decimal_of}
use ha_aiper_ble.Proxy.Events.Vocabulary.{legacy_typed, modern_typed, recognise-IsKept}
use ha_aiper_ble.Proxy.Capture.{
  Capture, add_event, release_slot, is_slot, receive_proxy, note_modern, note_other, note_bare,
  receive_modern, receive_legacy, receive_unmatched, receive_text, frees_slot, is_target,
}
use ha_aiper_ble.Proxy.Capture.Grows.{
  Grows, Grows-add_event, Grows-release_slot, Grows-trans-Keeps, Keeps-set, Grows-set,
  Grows-receive_proxy, IsKnown-modern, IsKnown-legacy,
}

module _ (digit_of : ℕ → Option ℕ) where
  Grows-note_modern :
      (a : String) (body : Text) (c : Capture) → Grows c (note_modern digit_of a body c)
  unfolding note_modern
  Grows-note_modern a body c = noted (recognise digit_of modern_events body) refl
    where
      counted : Capture
      counted = record c { counts = record c.counts { target_header = c.counts.target_header + 1 } }

      noted :
          (o : Option (String × List (String × Reading)))
          → recognise digit_of modern_events body ≡ o
          → Grows c (elim o [
            | some (event, readings) ↦
                release_slot (frees_slot event) (add_event event (some a) readings counted)
            | none ↦ record counted {
              counts = record counted.counts {
                target_message_unmatched = counted.counts.target_message_unmatched + 1;
              };
            }
          ])
      noted none h = Grows-set c c.bound_slot _
      noted (some (event, readings)) h = Grows-release_slot (frees_slot event) c _ (
          Grows-add_event event (some a) readings c counted
            (IsKnown-modern (some a) event readings
              (recognise-IsKept digit_of modern_events body event readings modern_typed h))
            (Keeps-set c c.bound_slot _))

  Grows-receive_legacy :
      (address message : Text) (c : Capture) → Grows c (receive_legacy digit_of address message c)
  unfolding receive_legacy
  Grows-receive_legacy address message c =
      if_elim (Grows c) (not (is_target c.address address)) (λ foreign. Grows-set c c.bound_slot _)
        (λ target. noted (recognise digit_of legacy_events message) refl)
    where
      counted : Capture
      counted = record c { counts = record c.counts { target_header = c.counts.target_header + 1 } }

      noted :
          (o : Option (String × List (String × Reading)))
          → recognise digit_of legacy_events message ≡ o
          → Grows c (elim o [
            | some (event, readings) ↦ add_event event none readings counted
            | none ↦ record counted {
              counts = record counted.counts {
                target_message_unmatched = counted.counts.target_message_unmatched + 1;
              };
            }
          ])
      noted none h = Grows-set c c.bound_slot _
      noted (some (event, readings)) h =
          Grows-add_event event none readings c counted
            (IsKnown-legacy none event readings
              (recognise-IsKept digit_of legacy_events message event readings legacy_typed h))
            (Keeps-set c c.bound_slot _)

  Grows-note_other : (slot : ℤ) (c : Capture) → Grows c (note_other digit_of slot c)
  unfolding note_other
  Grows-note_other slot c =
      Grows-release_slot (is_slot c.bound_slot slot) c _ (Grows-set c c.bound_slot _)

  Grows-note_bare :
      (slot : ℤ) (body : Text) (c : Capture) → Grows c (note_bare digit_of slot body c)
  unfolding note_bare
  Grows-note_bare slot body c =
      if_elim (Grows c) (is_slot c.bound_slot slot) (λ bound. Grows-note_modern "bound_slot" body c)
        (λ other. Grows-set c c.bound_slot _)

  Grows-receive_modern : (m : Modern) (c : Capture) → Grows c (receive_modern digit_of m c)
  unfolding receive_modern
  Grows-receive_modern m c =
      Grows-trans-Keeps c counted _ (Keeps-set c c.bound_slot _) (received m.address)
    where
      counted : Capture
      counted = record c { counts = record c.counts { modern_header = c.counts.modern_header + 1 } }

      slot : ℤ
      slot = decimal_of digit_of m.slot

      received :
          (o : Option Text)
          → Grows counted (elim o [
            | none ↦
                if m.is_proxy
                then receive_proxy slot none m.body counted
                else note_bare digit_of slot m.body counted
            | some address ↦
                if not (is_target c.address address)
                then note_other digit_of slot counted
                else if m.is_proxy
                then receive_proxy slot (some address) m.body counted
                else note_modern digit_of "target_address" m.body counted
          ])
      received none =
          if_elim (Grows counted) m.is_proxy (λ a. Grows-receive_proxy slot none m.body counted)
            (λ b. Grows-note_bare slot m.body counted)
      received (some address) =
          if_elim (Grows counted) (not (is_target c.address address))
            (λ a. Grows-note_other slot counted)
            λ b.
              if_elim (Grows counted) m.is_proxy
                (λ d. Grows-receive_proxy slot (some address) m.body counted)
                (λ e. Grows-note_modern "target_address" m.body counted)

  pub Grows-receive_text : (text : Text) (c : Capture) → Grows c (receive_text digit_of text c)
  unfolding receive_text receive_unmatched
  Grows-receive_text text c = received (header digit_of text) (modern_header digit_of text)
    where
      received :
          (o : Option (Text × Text)) (o' : Option Modern)
          → Grows c (elim o [
            | some (address, message) ↦ receive_legacy digit_of address message c
            | none ↦ elim o' [
              | some m ↦ receive_modern digit_of m c
              | none ↦ receive_unmatched digit_of text c
            ]
          ])
      received (some (address, message)) o' = Grows-receive_legacy address message c
      received none (some m) = Grows-receive_modern m c
      received none none = Grows-set c c.bound_slot _
