-- ===== src/Coordinator/Verified/Sound.antt =====
-- What `verified_values` of coordinator.py has checked when it returns.
use ha_aiper_ble.Prelude.{◌≡◌, true, some, arith}
use ha_aiper_ble.Prelude.Text.{Bytes}
use ha_aiper_ble.Outcome.{ok}
use ha_aiper_ble.Value.{Fields, obj, get}
use ha_aiper_ble.Protocol.Crc.{crc16}
use ha_aiper_ble.Protocol.Query.{Request}
use ha_aiper_ble.Protocol.Telemetry.{query_telemetry}
use ha_aiper_ble.Coordinator.Verified.{
  Python, is_success, checksum_of, crc_bytes, published, typed_values, checked_values,
  verified_values,
}

-- Values that stand for a response: it reports success, its checksum is that of its own data, and
-- the values are read off that data.
pub record IsSound (py : Python) (fields data_fields : Fields) (request : Request) (values : Fields)
    : Type 0 where
  pub bytes : Bytes
  pub raw : Fields
  pub success : is_success (get fields "res") ≡ true
  pub dumped : crc_bytes (obj data_fields) ≡ some bytes
  pub checksum : checksum_of (get fields "chksum") ≡ some (crc16 bytes)
  pub read : query_telemetry py.floats fields request ≡ ok (some raw)
  pub published_values : values ≡ published py request raw data_fields

-- Values that are returned for a response whose "data" is a dict stand for a success of the robot:
-- its result code is the integer 0, its checksum is the CRC of the data as dumped again, and the
-- values are those that the data, and nothing else, gives for the request.
pub verified_values-IsSound :
    (py : Python) (fields data_fields values : Fields) (request : Request)
    → get fields "data" ≡ some (obj data_fields)
    → verified_values py (some (obj fields)) request ≡ ok values
    → IsSound py fields data_fields request values
unfolding verified_values checked_values typed_values
verified_values-IsSound py fields data_fields values request h good = ground arith
