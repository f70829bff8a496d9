-- ===== src/AnomalyDetector.antt =====
-- src/gateway/anomaly_detector.cpp and include/gateway/anomaly_detector.hpp.
--
-- The ONNX session is a parameter: the score that the model gives for one normalised value, `none`
-- where the call throws an Ort::Exception, which nothing catches. `published` holds the alerts
-- handed to the MQTT client, whether or not the broker takes them. The log lines are left out.
pub mod Alerts
pub mod Bands
pub mod Lifecycle
use sdv_edge_gateway.Common.{
  ℕ, String, ◌<>◌, str_eq, Bool, true, false, Option, none, some, List, [], ◌∷◌, ◌++◌,
  if◌then◌else◌,
}
use sdv_edge_gateway.Common.Double.{DoubleOps}
use sdv_edge_gateway.Common.Float.{FloatOps}
use sdv_edge_gateway.Types.{DecodedSignal}
use sdv_edge_gateway.Mqtt.{Message, Value, text, number}
use sdv_edge_gateway.Timestamp.{iso8601_utc}

pub record Detector (W : Type 0) : Type 0 where
  pub published : List (Message W)

-- The thread goes on, or an uncaught exception ends the process.
pub data Outcome (W : Type 0) : Type 0 where
  goes_on : Detector W → Outcome W
  terminated : Detector W → Outcome W

module _ {W F : Type 0} (float : FloatOps W F) where
  open float use {literal, narrow, widen, sub, div, gt}

  -- kNormalBounds.find: the normal band of a signal.
  unfoldable pub normal_bounds : String → Option (F × F)
  normal_bounds name =
      if str_eq name "VEHICLE_SPEED"
      then some (literal "0.0f", literal "140.0f")
      else if str_eq name "ENGINE_RPM"
      then some (literal "600.0f", literal "6500.0f")
      else if str_eq name "ENGINE_COOLANT_TEMP"
      then some (literal "60.0f", literal "105.0f")
      else if str_eq name "BATTERY_VOLTAGE"
      then some (literal "11.5f", literal "14.5f")
      else if str_eq name "GEAR_SHIFT"
      then some (literal "0.0f", literal "4.0f")
      else none

  abbrev pub scaled : F → Option (F × F) → F
  scaled raw none = raw
  scaled raw (some (lo, hi)) = div (sub raw lo) (sub hi lo)

  unfoldable pub normalize : DecodedSignal W → F
  unfolding normal_bounds
  normalize s = scaled (narrow s.value) (normal_bounds s.name)

  unfoldable pub run_inference : (F → Option F) → DecodedSignal W → Option F
  run_inference model s = model (normalize s)

  unfoldable pub severity : F → String
  severity score = if gt score (literal "0.95f") then "CRITICAL" else "WARNING"

module _ {W F : Type 0} (double : DoubleOps W) (float : FloatOps W F) (uin : String)
    (threshold : F) where
  unfoldable pub alert : (now : ℕ) → DecodedSignal W → F → Message W
  unfolding severity
  alert now s score = record {
    topic = "sdv/Analytics/from/uin/" <> uin <> "/anomaly";
    payload =
        ("uin", text uin)
        ∷ ("timestamp", text (iso8601_utc now))
        ∷ ("signal_name", text s.name)
        ∷ ("value", number s.value)
        ∷ ("unit", text s.unit)
        ∷ ("anomaly_score", number (float.widen score))
        ∷ ("anomaly_prob", number (float.widen score))
        ∷ ("threshold", number (float.widen threshold))
        ∷ ("severity", text (severity float score))
        ∷ ("vehicle_speed_kmh", number double.nought)
        ∷ [];
    qos = 1;
    retained = false;
  }

  -- A signal with its score, or with the exception of the session.
  unfoldable pub judge : (now : ℕ) → DecodedSignal W → Option F → Detector W → Outcome W
  judge now s none d = terminated d
  judge now s (some score) d =
      if float.gt score threshold
      then goes_on (record d { published = d.published ++ alert now s score ∷ [] })
      else goes_on d

  -- A round of the loop: what pop_for gave, and the system clock.
  unfoldable pub step : (F → Option F) → Detector W → Option (DecodedSignal W) × ℕ → Outcome W
  step model d (none, now) = goes_on d
  step model d (some s, now) = judge now s (run_inference float model s) d

  abbrev pub and_then : Outcome W → (Detector W → Outcome W) → Outcome W
  and_then (goes_on d) next = next d
  and_then (terminated d) next = terminated d

  unfoldable pub run : (F → Option F) → Detector W → List (Option (DecodedSignal W) × ℕ) → Outcome W
  run model d [] = goes_on d
  run model d (r ∷ rs) = and_then (step model d r) (λ d'. run model d' rs)
