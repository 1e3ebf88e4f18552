-- ===== src/Proxy/Header.antt =====
-- HEADER and MODERN_HEADER of proxy_trace.py: what a line of a proxy's log starts with.
use ha_aiper_ble.Prelude.{
  ℕ, String, Bool, true, false, not, ◌&&◌, ◌||◌, Option, none, some, [], ◌∷◌, length, any, ltb,
  ◌==◌, if◌then◌else◌,
}
use ha_aiper_ble.Prelude.Text.{Text, codes, strip_prefix}
use ha_aiper_ble.Prelude.Optional.{◌>>=◌}
use ha_aiper_ble.Proxy.Pattern.{is_hex_digit, span, is_digit}

abbrev pub after : String → Text → Option Text
after t s = strip_prefix (codes t) s

unfoldable pub is_level : ℕ → Bool
is_level c = c == b'E' || c == b'W' || c == b'I' || c == b'C' || c == b'D' || c == b'V'

abbrev one_letter : Text → Option Text
one_letter [] = none
one_letter (c ∷ rest) = if is_level c then after "]" rest else none

-- \[(?:[EWICDV]|VV)\]
unfoldable pub skip_level : Text → Option Text
unfolding strip_prefix is_level
skip_level s = do
  level ← after "[" s
  elim (after "VV]" level) [ some tag ↦ some tag | none ↦ one_letter level ]

-- [^\[\]\r\n\x00-\x1f]
unfoldable pub is_task_char : ℕ → Bool
is_task_char c = ltb 31 c && not (c == b'[') && not (c == b']')

-- (?:\[…{1,32}\])?
unfoldable pub skip_task : Text → Text
unfolding strip_prefix span is_task_char
skip_task s =
    let closed : Option Text = do
      task ← after "[" s
      let (name, rest) = span 32 is_task_char task
      if ltb 0 (length name) then after "]" rest else none
    in elim closed [ none ↦ s | some rest ↦ rest ]

abbrev is_address_char : ℕ → Bool
is_address_char c = is_hex_digit c || c == b':'

-- \[([0-9A-Fa-f:]{17})\] and the space after it
unfoldable pub address_at : Text → Option (Text × Text)
unfolding strip_prefix span is_hex_digit
address_at s = do
  inner ← after "[" s
  let (address, rest) = span 17 is_address_char inner
  body ← if length address == 17 then after "] " rest else none
  some (address, body)

-- (.*)$
unfoldable pub one_line : Text → Option Text
one_line s = if any (λ c. c == 10) s then none else some s

pub record Modern : Type 0 where
  pub is_proxy : Bool  -- the tag is bluetooth_proxy
  pub slot : Text
  pub address : Option Text
  pub body : Text

module _ (digit_of : ℕ → Option ℕ) where
  -- \d{2}, and what follows
  unfoldable pub two_digits : Text → Option Text
  two_digits (a ∷ b ∷ rest) = if is_digit digit_of a && is_digit digit_of b then some rest else none
  two_digits _ = none

  -- (?:\[\d{2}:\d{2}:\d{2}\])?
  unfoldable pub skip_time : Text → Text
  unfolding strip_prefix two_digits
  skip_time s =
      let clock : Option Text = do
        hours ← after "[" s
        minutes ← two_digits hours
        minutes' ← after ":" minutes
        seconds ← two_digits minutes'
        seconds' ← after ":" seconds
        end ← two_digits seconds'
        after "]" end
      in elim clock [ none ↦ s | some rest ↦ rest ]

  -- \d+, or \d{1,2}, of at most so many
  unfoldable pub some_digits : ℕ → Text → Option (Text × Text)
  unfolding span
  some_digits n s =
      let (run, rest) = span n (is_digit digit_of) s in
      if ltb 0 (length run) then some (run, rest) else none

  -- from the time to the bracket after the tag's line number
  unfoldable pub skip_tag : String → Text → Option Text
  unfolding skip_time skip_level strip_prefix some_digits skip_task
  skip_tag tag s = do
    t ← skip_level (skip_time s)
    named ← after "[" t
    colon ← after tag named
    line ← after ":" colon
    numbered ← some_digits (length line) line
    closed ← after "]" numbered.1
    after ": " (skip_task closed)

  -- HEADER.fullmatch: the address and the message
  unfoldable pub header : Text → Option (Text × Text)
  unfolding skip_tag strip_prefix some_digits address_at one_line
  header s = do
    start ← skip_tag "esp32_ble_client" s
    slot ← after "[" start
    numbered ← some_digits (length slot) slot
    addressed ← after "] " numbered.1
    found ← address_at addressed
    body ← one_line found.1
    some (found.0, body)

  abbrev with_tag : Option Text → Bool → Option (Bool × Text)
  with_tag none is_proxy = none
  with_tag (some rest) is_proxy = some (is_proxy, rest)

  unfoldable pub modern_tag : Text → Option (Bool × Text)
  unfolding skip_tag
  modern_tag s = elim (with_tag (skip_tag "bluetooth_proxy" s) true) [
    | some x ↦ some x
    | none ↦ with_tag (skip_tag "bluetooth_connection" s) false
  ]

  -- MODERN_HEADER.fullmatch
  unfoldable pub modern_header : Text → Option Modern
  unfolding modern_tag strip_prefix some_digits address_at one_line
  modern_header s = do
    tagged ← modern_tag s
    slot ← after "[" tagged.1
    numbered ← some_digits 2 slot
    rest ← after "] " numbered.1
    let addressed = address_at rest
    body ← one_line (elim addressed [ none ↦ rest | some x ↦ x.1 ])
    some (record {
      is_proxy = tagged.0;
      slot = numbered.0;
      address = elim addressed [ none ↦ none | some x ↦ some x.0 ];
      body = body;
    })
