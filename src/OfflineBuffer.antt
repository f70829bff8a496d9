-- ===== src/OfflineBuffer.antt =====
-- src/gateway/offline_buffer.cpp: the text of a stored row, and what `drain` makes of the rows.
--
-- A time point is in nanoseconds, and the text has its milliseconds. Here the rows that the statement
-- of `drain` gives are an argument; OfflineBuffer/Database has the methods over the database.
pub mod Roundtrip
pub mod Database
pub mod Capacity
pub mod Replay
pub mod Session
use sdv_edge_gateway.Common.{
  ◌>>=◌, ℕ, ◌*◌, ◌/◌, String, Bool, true, Option, none, some, List, [], ◌∷◌,
}
use sdv_edge_gateway.Common.Int.{pos}
use sdv_edge_gateway.Common.Double.{DoubleOps}
use sdv_edge_gateway.Types.{TelemetryMsg}
use sdv_edge_gateway.Timestamp.{ns_per_ms}
use sdv_edge_gateway.Mqtt.{Value, text, number, int, boolean}

-- What the code uses of RapidJSON, which is third-party code, with the types `T` of texts
-- and `Doc` of parsed texts.
pub record RapidJson (W T Doc : Type 0) : Type 0 where
  pub c_str : String → String  -- the characters before the first NUL
  pub written : List (String × Value W) → T  -- GetString after a Writer wrote this object
  pub parse : T → Option Doc  -- `none`: HasParseError
  pub member : Doc → String → Option (Value W)  -- HasMember and operator[]

module _ {W T Doc : Type 0} (double : DoubleOps W) (json : RapidJson W T Doc) where
  open json use {c_str, written, parse, member}

  abbrev pub members : TelemetryMsg W → List (String × Value W)
  members msg =
      ("uin", text (c_str msg.uin))
      ∷ ("speed", number msg.vehicle_speed_kmh)
      ∷ ("rpm", number msg.engine_rpm)
      ∷ ("coolant", number msg.engine_coolant_temp_c)
      ∷ ("batt", number msg.battery_voltage_v)
      ∷ ("gear", text (c_str msg.gear))
      ∷ ("ts_epoch", int (msg.timestamp / ns_per_ms))
      ∷ []

  unfoldable pub to_json : TelemetryMsg W → T
  to_json msg = written (members msg)

  -- IsString and GetString.
  abbrev pub get_string : Value W → Option String
  get_string (text s) = some s
  get_string _ = none

  -- IsNumber and GetDouble, which converts an integer.
  abbrev pub get_double : Value W → Option W
  get_double (number w) = some w
  get_double (int n) = some (double.of_int (pos n))
  get_double _ = none

  -- IsInt64 and GetInt64.
  abbrev pub get_int64 : Value W → Option ℕ
  get_int64 (int n) = some n
  get_int64 _ = none

  -- `none`: returns false. `from_buffer` is what the caller has set.
  unfoldable pub from_json : (from_buffer : Bool) → T → Option (TelemetryMsg W)
  from_json from_buffer payload = do
    doc ← parse payload
    uin ← member doc "uin" >>= get_string
    speed ← member doc "speed" >>= get_double
    rpm ← member doc "rpm" >>= get_double
    coolant ← member doc "coolant" >>= get_double
    batt ← member doc "batt" >>= get_double
    gear ← member doc "gear" >>= get_string
    ts_ms ← member doc "ts_epoch" >>= get_int64
    some (record {
      uin = uin;
      vehicle_speed_kmh = speed;
      engine_rpm = rpm;
      engine_coolant_temp_c = coolant;
      battery_voltage_v = batt;
      gear = gear;
      timestamp = ts_ms * ns_per_ms;
      from_buffer = from_buffer;
    })

  -- A row is kept if its payload is there and is read.
  abbrev pub kept :
      ℕ → Option (TelemetryMsg W) → List (ℕ × TelemetryMsg W) → List (ℕ × TelemetryMsg W)
  kept row_id none result = result
  kept row_id (some msg) result = (row_id, msg) ∷ result

  -- The loop of `drain` over the rows that its statement gives, each an id and a payload.
  unfoldable pub drain_rows : List (ℕ × Option T) → List (ℕ × TelemetryMsg W)
  unfolding from_json
  drain_rows [] = []
  drain_rows ((row_id, payload) ∷ rows) = kept row_id (payload >>= from_json true) (drain_rows rows)
