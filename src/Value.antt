-- ===== src/Value.antt =====
-- The values that `json.loads` makes: Python's None, bool, int, float, str, list and dict. A float
-- stands as its `repr`, which determines it; a dict is the list of its items in order.
pub mod Json
use ha_aiper_ble.Prelude.{String, Bool, Option, none, some, if◌then◌else◌}
use ha_aiper_ble.Prelude.Int.{ℤ}
use ha_aiper_ble.Prelude.Text.{Text, codes, text_eq}

mutual
  pub data Value : Type 0 where
    null : Value
    bool : Bool → Value
    int : ℤ → Value
    float : Text → Value
    str : Text → Value
    arr : Items → Value
    obj : Fields → Value

  pub data Items : Type 0 where
    nil : Items
    cons : Value → Items → Items

  pub data Fields : Type 0 where
    end : Fields
    field : Text → Value → Fields → Fields

-- d.get(key)
unfoldable pub get : Fields → String → Option Value
unfolding text_eq
get end key = none
get (field k v rest) key = if text_eq k (codes key) then some v else get rest key

-- isinstance(x, dict), isinstance(x, str), type(x) is int
abbrev pub as_dict : Option Value → Option Fields
as_dict (some (obj fields)) = some fields
as_dict _ = none

abbrev pub as_str : Option Value → Option Text
as_str (some (str text)) = some text
as_str _ = none

abbrev pub as_int : Option Value → Option ℤ
as_int (some (int n)) = some n
as_int _ = none
