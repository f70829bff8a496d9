-- ===== src/Tests/Telemetry.antt =====
-- The publisher, the detector and the format of a time.
use sdv_edge_gateway.Common.{
  ℕ, ◌<◌, ◌↔◌, ◌+◌, ◌*◌, ◌/◌, ◌≡◌, refl, false, Option, none, some, List, [], ◌∷◌, ◌++◌, arith,
}
use sdv_edge_gateway.Timestamp.{gmtime}
use sdv_edge_gateway.Timestamp.Text.{text_of, iso8601_utc-IsCivil, iso8601_utc_iff}
use sdv_edge_gateway.Timestamp.Calendar.{IsCivil, seconds_of}
use sdv_edge_gateway.Types.{DecodedSignal}
use sdv_edge_gateway.TelemetryPublisher.{Publisher, Round, telemetry_message, step}
use sdv_edge_gateway.TelemetryPublisher
use sdv_edge_gateway.TelemetryPublisher.Windows.{got_by_publisher, IsReported, run-IsReported}
use sdv_edge_gateway.TelemetryPublisher.Timing.{IsTimely, step-IsTimely}
use sdv_edge_gateway.AnomalyDetector.{Detector, goes_on, normalize, run_inference, run}
use sdv_edge_gateway.AnomalyDetector.Alerts.{alerts, run-alerts}
use sdv_edge_gateway.Timestamp.{Tm, ns_per_ms, ns_per_s, iso8601_utc}
use sdv_edge_gateway.Tests.Instances.{whole_double, whole_float, speed, rpm}

abbrev publisher : Publisher ℕ
publisher = record {
  numeric = [];
  gear = "unknown";
  gear_received = false;
  last_publish = 0;
  published = [];
}

-- A speed comes, six seconds after the start.
abbrev round : Round ℕ
round = record { popped = some (speed 50); now = 6000; system_now = 9000; reset_now = 6001 }

-- Then nothing, and then the engine's speed, after which the timer has not yet fired.
abbrev rounds : List (Round ℕ)
rounds =
    round
    ∷ record { popped = none; now = 7000; system_now = 9500; reset_now = 7001 }
    ∷ record { popped = some (rpm 3000); now = 8000; system_now = 9900; reset_now = 8001 }
    ∷ []

run-IsReported_example :
    IsReported whole_double "U" []
      (got_by_publisher rounds)
      (TelemetryPublisher.init 0)
      (TelemetryPublisher.run whole_double "U" (TelemetryPublisher.init 0) rounds)
run-IsReported_example = run-IsReported whole_double "U" 0 rounds

step-IsTimely_example : IsTimely 6000 (step whole_double "U" publisher round)
step-IsTimely_example = step-IsTimely whole_double "U" publisher round

abbrev detector : Detector ℕ
detector = record { published = [] }

abbrev score : DecodedSignal ℕ → ℕ
score s = normalize whole_float s

abbrev incoming : List (Option (DecodedSignal ℕ) × ℕ)
incoming = (some (speed 50), 1) ∷ (none, 2) ∷ (some (speed 400), 3) ∷ []

run_inference-score :
    (s : DecodedSignal ℕ) → run_inference whole_float (λ x. some x) s ≡ some (score s)
unfolding run_inference
run_inference-score s = refl

run-alerts_example :
    run whole_double whole_float "U" 1 (λ x. some x) detector incoming
    ≡ goes_on (record { published = [] ++ alerts whole_double whole_float "U" 1 score incoming })
run-alerts_example =
    run-alerts whole_double whole_float "U" 1 score (λ x. some x) detector incoming
      run_inference-score

epoch : iso8601_utc 0 ≡ "1970-01-01T00:00:00.000Z"
unfolding iso8601_utc
epoch = refl

leap_day : iso8601_utc 1709210096789012345 ≡ "2024-02-29T12:34:56.789Z"
unfolding iso8601_utc
leap_day = refl

abbrev instant : ℕ
instant = 1709210096789012345

iso8601_utc-IsCivil_example :
    (tm : Tm) × (ms : ℕ) × (iso8601_utc instant ≡ text_of tm ms)
    × IsCivil tm
    × (ms < 1000)
    × (seconds_of tm * 1000 + ms ≡ 1709210096789)
iso8601_utc-IsCivil_example = iso8601_utc-IsCivil instant

leap_year : (gmtime (instant / ns_per_s)).year ≡ 2024
unfolding gmtime
leap_year = refl

-- A nanosecond later.
iso8601_utc_iff_example :
    (iso8601_utc instant ≡ iso8601_utc (instant + 1)) ↔ (instant / ns_per_ms ≡ 1709210096789)
iso8601_utc_iff_example =
    iso8601_utc_iff instant (instant + 1) (omega (arith, leap_year)) (omega (arith, leap_year))
