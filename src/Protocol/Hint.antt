-- ===== src/Protocol/Hint.antt =====
-- `protocol_hint` of protocol.py: what an advertisement's manufacturer data says of the protocol, and
-- `Listen`.
use ha_aiper_ble.Prelude.{
  ℕ, String, Bool, false, Option, none, some, List, [], ◌∷◌, all, leb, ◌==◌, if◌then◌else◌,
}
use ha_aiper_ble.Prelude.Int.{ℤ, pos}
use ha_aiper_ble.Outcome.{Result, ok, ◌>>=◌}
use ha_aiper_ble.Value.{Value}
use ha_aiper_ble.Protocol.Query.{require_bool}

-- One value of the dict: None, a sequence (an item that is no int is `none`), or anything else.
pub data Entry : Type 0 where
  nothing : Entry
  sequence : List (Option ℤ) → Entry
  unreadable : Entry

-- device.get("ManufacturerData", {}): its items, with a key that is no int as `none`, or what is no
-- dict. An absent entry has no items.
pub data ManufacturerData : Type 0 where
  items : List (Option ℤ × Entry) → ManufacturerData
  no_dict : ManufacturerData

pub data Hint : Type 0 where
  malformed no_evidence ecdh legacy_xor : Hint

-- type(n) is int and 0 <= n <= limit
unfoldable pub is_within : ℕ → Option ℤ → Bool
is_within limit (some (pos n)) = leb n limit
is_within limit _ = false

unfoldable pub is_zero_key : Option ℤ → Bool
is_zero_key (some (pos n)) = n == 0
is_zero_key _ = false

-- manufacturer.get(0), where an absent key and None are one
unfoldable pub entry_zero : List (Option ℤ × Entry) → Entry
unfolding is_zero_key
entry_zero [] = nothing
entry_zero ((key, entry) ∷ rest) = if is_zero_key key then entry else entry_zero rest

unfoldable pub is_one_byte : Option ℤ → Bool
is_one_byte (some (pos n)) = n == 1
is_one_byte _ = false

unfoldable pub hint_of_bytes : List (Option ℤ) → Hint
unfolding is_one_byte
hint_of_bytes [] = no_evidence
hint_of_bytes (b ∷ rest) = if is_one_byte b then ecdh else legacy_xor

unfoldable pub hint_of_entry : Entry → Hint
unfolding is_within hint_of_bytes
hint_of_entry nothing = no_evidence
hint_of_entry unreadable = malformed
hint_of_entry (sequence bytes) =
    if all (is_within 255) bytes then hint_of_bytes bytes else malformed

unfoldable pub protocol_hint : ManufacturerData → Hint
unfolding is_within entry_zero hint_of_entry
protocol_hint no_dict = malformed
protocol_hint (items entries) =
    if all (λ e. is_within 65535 e.0) entries then hint_of_entry (entry_zero entries) else malformed

-- Listen(allow_missing_advertisement)
pub record Listen : Type 0 where
  pub allow_missing_advertisement : Bool

unfoldable pub make_listen : Value → Result Listen
unfolding require_bool
make_listen allow = require_bool allow >>= λ b. ok (record { allow_missing_advertisement = b })

-- What both transports make of a hint: the code of the refusal, if it is one, given whether the
-- request allows a missing advertisement.
unfoldable pub hint_refusal : Bool → Hint → Option String
hint_refusal allow ecdh = some "ecdh_unsupported"
hint_refusal allow malformed = some "protocol_malformed"
hint_refusal allow no_evidence = if allow then none else some "protocol_unknown"
hint_refusal allow legacy_xor = none
