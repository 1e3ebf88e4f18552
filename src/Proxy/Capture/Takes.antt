-- ===== src/Proxy/Capture/Takes.antt =====
-- How much of a proxy's log a capture of proxy_trace.py takes.
use ha_aiper_ble.Prelude.{
  ℕ, ◌+◌, ◌≤◌, ◌≡◌, ◌⊎◌, Bool, true, false, Option, List, [], ◌∷◌, ◌++◌, length,
}
use ha_aiper_ble.Prelude.Text.{Text, Bytes}
use ha_aiper_ble.Proxy.Capture.{Capture}
use ha_aiper_ble.Proxy.Capture.Grows.{Grows}
use ha_aiper_ble.Proxy.Capture.Bounds.{receive_all}

-- how many bytes the lines have together
unfoldable pub total : List Bytes → ℕ
total [] = 0
total (raw ∷ raws) = length raw + total raws

-- A line is either counted, and the capture goes on, or it ends the capture and adds nothing.
abbrev Counted : Capture → ℕ → Capture → Type 0
Counted c n c' =
    ((c'.accepting ≡ true)
      × (c'.lines_seen ≡ c.lines_seen + 1)
      × (c'.bytes_seen ≡ c.bytes_seen + n))
    ⊎ ((c'.accepting ≡ false) × (c'.events ≡ c.events))

apart : {b : Bool} {A : Type 0} → b ≡ false → b ≡ true → A
apart h k = cc

module _ (digit_of : ℕ → Option ℕ) (decode : Bytes → Text) where
  -- The part of the lines whose events are kept, and the rest.
  pub record IsTaken (c : Capture) (raws : List Bytes) : Type 0 where
    pub used : List Bytes
    pub rest : List Bytes
    pub split : raws ≡ used ++ rest
    pub kept :
        (receive_all digit_of decode raws c).events ≡ (receive_all digit_of decode used c).events
    pub lines : c.lines_seen + length used ≤ 2048
    pub bytes : c.bytes_seen + total used ≤ 262144
    pub whole : (receive_all digit_of decode raws c).accepting ≡ true → rest ≡ []
