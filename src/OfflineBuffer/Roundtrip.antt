-- ===== src/OfflineBuffer/Roundtrip.antt =====
-- Messages stored while the vehicle was offline come back.
use sdv_edge_gateway.Timestamp.{ns_per_ms}
use sdv_edge_gateway.Common.{
  ℕ, ◌*◌, ◌/◌, ◌≡◌, refl, String, true, Option, some, List, [], ◌∷◌, map, ap, All,
}
use sdv_edge_gateway.Common.Double.{DoubleOps}
use sdv_edge_gateway.Common.Assoc.{find}
use sdv_edge_gateway.Types.{TelemetryMsg}
use sdv_edge_gateway.Mqtt.{Value, number}
use sdv_edge_gateway.OfflineBuffer.{RapidJson, members, to_json, from_json, drain_rows}

module _ {W : Type 0} where
  -- A number that the Writer can write: it refuses NaN and the infinities.
  abbrev pub IsWritable : (W → Type 0) → String × Value W → Type 0
  IsWritable IsFinite (key, number w) = IsFinite w
  IsWritable IsFinite (key, _) = Unit {0}

  -- A number is read back as `reread` says: the parser's default is not exact to the last bit.
  abbrev pub read_back : (W → W) → Option (Value W) → Option (Value W)
  read_back reread (some (number w)) = some (number (reread w))
  read_back reread v = v

-- An object of finite numbers is written as a text that is parsed to the same members.
pub record IsJson {W T Doc : Type 0} (json : RapidJson W T Doc) (IsFinite : W → Type 0)
    (reread : W → W) : Type 0 where
  pub parse-written :
      (object : List (String × Value W))
      → All (IsWritable IsFinite) object
      → (doc : Doc) × (json.parse (json.written object) ≡ some doc)
        × ((name : String) → json.member doc name ≡ read_back reread (find name object))

module _ {W T Doc : Type 0} (double : DoubleOps W) (json : RapidJson W T Doc)
    (IsFinite : W → Type 0) (reread : W → W) (is_json : IsJson json IsFinite reread) where
  -- The four numbers of a message are finite.
  pub record IsFiniteMsg (msg : TelemetryMsg W) : Type 0 where
    pub speed : IsFinite msg.vehicle_speed_kmh
    pub rpm : IsFinite msg.engine_rpm
    pub coolant : IsFinite msg.engine_coolant_temp_c
    pub batt : IsFinite msg.battery_voltage_v

  -- The message that comes back: marked as replayed, the numbers as they are read, the texts up to
  -- the first NUL, and the time cut to the millisecond.
  abbrev pub replayed : TelemetryMsg W → TelemetryMsg W
  replayed msg = record {
    uin = json.c_str msg.uin;
    vehicle_speed_kmh = reread msg.vehicle_speed_kmh;
    engine_rpm = reread msg.engine_rpm;
    engine_coolant_temp_c = reread msg.engine_coolant_temp_c;
    battery_voltage_v = reread msg.battery_voltage_v;
    gear = json.c_str msg.gear;
    timestamp = msg.timestamp / ns_per_ms * ns_per_ms;
    from_buffer = true;
  }

  from_json-to_json :
      (msg : TelemetryMsg W)
      → IsFiniteMsg msg
      → from_json double json true (to_json double json msg) ≡ some (replayed msg)
  unfolding from_json to_json find
  from_json-to_json msg h =
      let (doc, parsed, same) =
        is_json.parse-written (members double json msg)
          (tt, (h.speed, (h.rpm, (h.coolant, (h.batt, (tt, (tt, tt))))))) in
      rw (
        parsed,
        same "uin",
        same "speed",
        same "rpm",
        same "coolant",
        same "batt",
        same "gear",
        same "ts_epoch",
      )

  -- The rows that hold the messages, by `to_json`.
  abbrev pub stored : List (ℕ × TelemetryMsg W) → List (ℕ × Option T)
  stored msgs = map (λ (r : ℕ × TelemetryMsg W). (r.0, some (to_json double json r.1))) msgs

  -- Messages with finite numbers that were written to rows all come back from `drain`, once each, in
  -- the order of the rows and under their ids: marked as replayed, with the numbers as the parser
  -- reads them, the texts up to the first NUL, and the time to the millisecond.
  pub drain_rows-stored :
      (msgs : List (ℕ × TelemetryMsg W))
      → All (λ (r : ℕ × TelemetryMsg W). IsFiniteMsg r.1) msgs
      → drain_rows double json (stored msgs)
        ≡ map (λ (r : ℕ × TelemetryMsg W). (r.0, replayed r.1)) msgs
  unfolding drain_rows
  drain_rows-stored [] h = refl
  drain_rows-stored ((row_id, msg) ∷ msgs) h =
      rw (from_json-to_json msg h.0) (ap (◌∷◌ (row_id, replayed msg)) (drain_rows-stored msgs h.1))
