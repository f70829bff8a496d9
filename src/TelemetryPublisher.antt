-- ===== src/TelemetryPublisher.antt =====
-- src/gateway/telemetry_publisher.cpp and include/gateway/telemetry_publisher.hpp.
--
-- A round of the loop is a function of what the queue gave and of the clocks' readings, in
-- milliseconds. `published` holds the messages handed to the MQTT client, whether or not the broker
-- takes them: the code logs a failure and goes on alike. The debug lines are left out.
pub mod Snapshot
pub mod Timing
pub mod Windows
pub mod Lifecycle
use sdv_edge_gateway.Common.{
  ℕ, ◌-◌, ◌/◌, String, ◌<>◌, str_eq, Bool, true, false, not, ◌&&◌, ◌||◌, Option, none, some, List,
  [], ◌∷◌, ◌++◌, leb, ◌==◌, length, if◌then◌else◌,
}
use sdv_edge_gateway.Common.Int.{ℤ, pos, negsuc}
use sdv_edge_gateway.Common.Double.{DoubleOps}
use sdv_edge_gateway.Common.Assoc.{find, assign}
use sdv_edge_gateway.Types.{DecodedSignal, TelemetryMsg}
use sdv_edge_gateway.Mqtt.{Message, Value, text, number, boolean}
use sdv_edge_gateway.Timestamp.{iso8601_utc}

abbrev pub publish_interval_s : ℕ
publish_interval_s = 5

pub record Publisher (W : Type 0) : Type 0 where
  pub numeric : List (String × W)
  pub gear : String
  pub gear_received : Bool
  pub last_publish : ℕ  -- steady clock
  pub published : List (Message W)

-- `popped` is what pop_for gave; `now` the steady clock at the check, `system_now` the system clock
-- in publish_now, and `reset_now` the steady clock at its end.
pub record Round (W : Type 0) : Type 0 where
  pub popped : Option (DecodedSignal W)
  pub now : ℕ
  pub system_now : ℕ
  pub reset_now : ℕ

unfoldable pub init : {W : Type 0} → ℕ → Publisher W
init now = record {
  numeric = [];
  gear = "";
  gear_received = false;
  last_publish = now;
  published = [];
}

abbrev pub is_empty {ℓ} : {A : Type ℓ} → List A → Bool
is_empty [] = true
is_empty (x ∷ xs) = false

-- The switch over static_cast<int>(raw).
unfoldable pub gear_label : ℤ → String
gear_label (pos code) =
    if code == 0
    then "P"
    else if code == 1
    then "R"
    else if code == 2
    then "N"
    else if code == 3
    then "D"
    else "unknown"
gear_label (negsuc n) = "unknown"

module _ {W : Type 0} (double : DoubleOps W) (uin : String) where
  unfoldable pub gear_code_to_string : W → String
  gear_code_to_string raw = gear_label (double.to_int raw)

  -- `numeric_.count(name) ? numeric_.at(name) : 0.0`.
  abbrev pub or_nought : Option W → W
  or_nought none = double.nought
  or_nought (some v) = v

  unfoldable pub snapshot : Publisher W → ℕ → TelemetryMsg W
  snapshot p system_now = record {
    uin = uin;
    vehicle_speed_kmh = or_nought (find "VEHICLE_SPEED" p.numeric);
    engine_rpm = or_nought (find "ENGINE_RPM" p.numeric);
    engine_coolant_temp_c = or_nought (find "ENGINE_COOLANT_TEMP" p.numeric);
    battery_voltage_v = or_nought (find "BATTERY_VOLTAGE" p.numeric);
    gear = if p.gear_received then p.gear else "unknown";
    timestamp = system_now;
    from_buffer = false;
  }

  unfoldable pub telemetry_message : TelemetryMsg W → Message W
  telemetry_message msg = record {
    topic = "sdv/telemetry/from/uin/" <> uin;
    payload =
        ("uin", text msg.uin)
        ∷ ("timestamp", text (iso8601_utc msg.timestamp))
        ∷ ("vehicle_speed_kmh", number msg.vehicle_speed_kmh)
        ∷ ("engine_rpm", number msg.engine_rpm)
        ∷ ("engine_coolant_temp_c", number msg.engine_coolant_temp_c)
        ∷ ("battery_voltage_v", number msg.battery_voltage_v)
        ∷ ("gear", text msg.gear)
        ∷ ("from_buffer", boolean msg.from_buffer)
        ∷ [];
    qos = 1;
    retained = false;
  }

  unfoldable pub publish_now : Round W → Publisher W → Publisher W
  publish_now r p = record {
    numeric = [];
    gear = "";
    gear_received = false;
    last_publish = r.reset_now;
    published = p.published ++ telemetry_message (snapshot p r.system_now) ∷ [];
  }

  -- A popped signal goes to its accumulator.
  unfoldable pub accumulate : Option (DecodedSignal W) → Publisher W → Publisher W
  accumulate none p = p
  accumulate (some s) p =
      if str_eq s.name "GEAR_SHIFT"
      then record p { gear = gear_code_to_string s.value; gear_received = true }
      else record p { numeric = assign s.name s.value p.numeric }

  -- The publish conditions, with the locals of the source.
  unfoldable pub is_due : Publisher W → ℕ → Bool
  is_due p now =
      let all_signals = length p.numeric == 4 && p.gear_received in
      let elapsed = (now - p.last_publish) / 1000 in
      let timer_fired = leb publish_interval_s elapsed in
      all_signals || (timer_fired && (not (is_empty p.numeric) || p.gear_received))

  unfoldable pub step : Publisher W → Round W → Publisher W
  step p r = let p' = accumulate r.popped p in if is_due p' r.now then publish_now r p' else p'

  -- The rounds of the loop between `start` and `stop`.
  unfoldable pub run : Publisher W → List (Round W) → Publisher W
  run p [] = p
  run p (r ∷ rs) = run (step p r) rs
