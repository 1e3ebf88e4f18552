-- ===== src/Proxy/Lines.antt =====
-- The text of a line of the log, as `EventCapture.receive` of proxy_trace.py cleans and searches it.
-- [0-9;]*m, and what follows
use ha_aiper_ble.Prelude.{
  ℕ, zero, suc, Bool, true, false, ◌&&◌, ◌||◌, Option, none, some, [], ◌∷◌, leb, ◌==◌,
  if◌then◌else◌,
}
use ha_aiper_ble.Prelude.Text.{Text, strip_prefix}

unfoldable pub escape_end : Text → Option Text
escape_end [] = none
escape_end (c ∷ s) =
    let later = escape_end s in
    if c == b'm' then some s else if (leb b'0' c && leb c b'9') || c == b';' then later else none

-- ANSI.sub("", text), of a text no longer than the fuel
unfoldable pub strip_ansi : ℕ → Text → Text
unfolding escape_end
strip_ansi zero s = s
strip_ansi (suc n) [] = []
strip_ansi (suc n) (c ∷ []) = c ∷ []
strip_ansi (suc n) (c ∷ d ∷ s) = elim (if c == 27 && d == b'[' then escape_end s else none) [
  | some rest ↦ strip_ansi n rest
  | none ↦ c ∷ strip_ansi n (d ∷ s)
]

abbrev with_head : ℕ → Text → Text
with_head c [] = if c == 13 || c == 10 then [] else c ∷ []
with_head c (d ∷ rest) = c ∷ d ∷ rest

-- text.rstrip("\r\n")
unfoldable pub strip_end : Text → Text
strip_end [] = []
strip_end (c ∷ s) = with_head c (strip_end s)

-- p in s
unfoldable pub contains : Text → Text → Bool
unfolding strip_prefix
contains p [] = elim (strip_prefix p []) [ none ↦ false | some rest ↦ true ]
contains p (c ∷ s) = elim (strip_prefix p (c ∷ s)) [ none ↦ contains p s | some rest ↦ true ]
