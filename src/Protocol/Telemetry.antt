-- ===== src/Protocol/Telemetry.antt =====
-- `telemetry` and `query_telemetry` of protocol.py.
use ha_aiper_ble.Prelude.{
  String, Bool, true, false, Option, none, some, List, [], ◌∷◌, if◌then◌else◌, str_eq,
}
use ha_aiper_ble.Prelude.Text.{codes, text_eq}
use ha_aiper_ble.Outcome.{Result, ok, err, other, ◌>>=◌}
use ha_aiper_ble.Value.{Value, Fields, obj, int, float, bool, str, end, field, get, as_dict}
use ha_aiper_ble.Value.Json.{is_finite}
use ha_aiper_ble.Datapoints.{machine_fields}
use ha_aiper_ble.Protocol.Query.{Request, query, control}
use ha_aiper_ble.Protocol.Reply.{Floats, lower, machine_reply}

-- an int, a bool or a finite float
unfoldable pub is_scalar : Value → Bool
is_scalar (int n) = true
is_scalar (bool b) = true
is_scalar (float f) = is_finite f
is_scalar _ = false

unfoldable pub add_scalar : String → Option Value → Fields → Fields
unfolding is_scalar
add_scalar key none rest = rest
add_scalar key (some value) rest = if is_scalar value then field (codes key) value rest else rest

unfoldable pub scalars : List String → Fields → Fields
unfolding add_scalar
scalars [] machine = end
scalars (key ∷ keys) machine = add_scalar key (get machine key) (scalars keys machine)

-- telemetry(response), given its "data": `.get` on what is no dict raises
unfoldable pub telemetry : Option Value → Result Fields
unfolding scalars
telemetry none = ok end
telemetry (some (obj data_fields)) = ok (elim (as_dict (get data_fields "Machine")) [
  | none ↦ end
  | some machine ↦ scalars machine_fields machine
])
telemetry (some _) = err other

-- Whether a request is an exploratory query, and whether it is the OpInfo query.
abbrev pub is_exploratory : Request → Bool
is_exploratory (query q) = q.exploratory
is_exploratory (control c) = false

abbrev pub is_opinfo : Request → Bool
is_opinfo (query q) = str_eq q.query_type "OpInfo"
is_opinfo (control c) = str_eq c.query_type "OpInfo"

-- value == text
unfoldable pub is_str : Value → String → Bool
is_str (str s) text = text_eq s (codes text)
is_str _ text = false

-- response["type"].casefold() on what is no str raises
unfoldable pub opinfo_reply : Value → Option Value → Result (Option Fields)
unfolding telemetry lower
opinfo_reply (str type) data_value =
    if text_eq (lower type) (codes "opinfo")
    then (telemetry data_value >>= λ values. ok (some values))
    else ok none
opinfo_reply _ data_value = err other

-- The cases of `query_telemetry`, given the response's "type" and its "data".
unfoldable pub typed_reply : Floats → Request → Value → Option Value → Result (Option Fields)
unfolding is_str opinfo_reply machine_reply
typed_reply floats request type data_value =
    if is_exploratory request
    then ok (if is_str type "Machine" then some end else none)
    else if is_opinfo request
    then opinfo_reply type data_value
    else if is_str type "Machine"
    then elim (as_dict data_value) [
      | none ↦ err other
      | some data_fields ↦ machine_reply floats request data_fields
    ]
    else ok none

-- A KeyError, TypeError or AttributeError is `other`.
unfoldable pub query_telemetry : Floats → Fields → Request → Result (Option Fields)
unfolding typed_reply
query_telemetry floats response request = elim (get response "type") [
  | none ↦ err other
  | some type ↦ typed_reply floats request type (get response "data")
]
