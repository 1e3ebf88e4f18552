-- ===== src/Target.antt =====
-- `Target`, `MODELS` and `model_of` of probe.py: the one robot that an entry may talk to.
use ha_aiper_ble.Prelude.{
  ℕ, zero, suc, String, Bool, true, false, ◌&&◌, ◌||◌, Option, none, some, List, [], ◌∷◌, ◌++◌,
  length, all, any, leb, ◌==◌, if◌then◌else◌,
}
use ha_aiper_ble.Prelude.Text.{Text, codes, text_eq, strip_prefix}
use ha_aiper_ble.Outcome.{Result, ok, err, other}
use ha_aiper_ble.Protocol.Query.{is_digit}
use ha_aiper_ble.Protocol.Reply.{starts_with}

-- The name's prefixes of each model, in order.
abbrev pub models : List (String × List String)
models =
    ("Surfer S1", "Aiper-Surfer S1-" ∷ "Aiper_Surfer S1_" ∷ [])
    ∷ ("EcoSurfer M2", "Aiper-EcoSurfer M2-" ∷ "Aiper_EcoSurfer M2_" ∷ [])
    ∷ []

-- name.startswith(prefixes)
unfoldable pub starts_with_any : List String → Text → Bool
unfolding starts_with
starts_with_any prefixes name = any (λ p. starts_with (codes p) name) prefixes

unfoldable pub find_model : List (String × List String) → Text → Option String
unfolding starts_with_any
find_model [] name = none
find_model ((model, prefixes) ∷ rest) name =
    if starts_with_any prefixes name then some model else find_model rest name

-- what is no str has no model
unfoldable pub model_of : Option Text → Option String
unfolding find_model
model_of none = none
model_of (some name) = find_model models name

pub record Target : Type 0 where
  pub address : Text
  pub name : Text
  pub adapter_path : Option Text
  pub adapter_address : Option Text

-- self.model
abbrev pub target_model : Target → Option String
target_model t = model_of (some t.name)

-- s.replace(a, b), for single characters
unfoldable pub replace : ℕ → ℕ → Text → Text
replace a b [] = []
replace a b (c ∷ s) = (if c == a then b else c) ∷ replace a b s

unfoldable pub matches_name : Target → Option Text → Bool
unfolding text_eq replace
matches_name t none = false
matches_name t (some observed) = text_eq (replace b'_' b'-' observed) (replace b'_' b'-' t.name)

-- self.device_path; `none` is its ValueError
unfoldable pub device_path : Target → Option Text
unfolding replace
device_path t = elim t.adapter_path [
  | none ↦ none
  | some path ↦ some (path ++ (codes "/dev_" ++ replace b':' b'_' t.address))
]

-- [0-9A-F]
unfoldable pub is_hex : ℕ → Bool
unfolding is_digit
is_hex c = is_digit c || (leb b'A' c && leb c b'F')

-- (?:[0-9A-F]{2}:){pairs}[0-9A-F]{2}
unfoldable pub is_address : ℕ → Text → Bool
unfolding is_hex
is_address zero (a ∷ b ∷ []) = is_hex a && is_hex b
is_address (suc pairs) (a ∷ b ∷ c ∷ rest) =
    is_hex a && is_hex b && c == b':' && is_address pairs rest
is_address _ _ = false

-- The class `\d` of Unicode's decimal digits stands outside the model.
module _ (is_decimal : ℕ → Bool) where
  -- /org/bluez/hci\d+
  unfoldable pub is_adapter_path : Text → Bool
  is_adapter_path path = elim (strip_prefix (codes "/org/bluez/hci") path) [
    | none ↦ false
    | some digits ↦ leb 1 (length digits) && all is_decimal digits
  ]

  -- the checks on the two adapter fields, which stand together or not at all
  unfoldable pub adapter_fits : Option Text → Option Text → Bool
  unfolding is_address is_adapter_path
  adapter_fits none none = true
  adapter_fits (some path) (some address) = is_address 5 address && is_adapter_path path
  adapter_fits _ _ = false

  -- Target(address, name, adapter_path, adapter_address) with its __post_init__
  unfoldable pub make_target : Text → Text → Option Text → Option Text → Result Target
  unfolding adapter_fits is_address starts_with_any
  make_target address name adapter_path adapter_address =
      if is_address 5 address
        && adapter_fits adapter_path adapter_address
        && starts_with_any ("Aiper-" ∷ "Aiper_" ∷ []) name
      then ok (record {
        address = address;
        name = name;
        adapter_path = adapter_path;
        adapter_address = adapter_address;
      })
      else err other
