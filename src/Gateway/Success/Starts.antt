-- ===== src/Gateway/Success/Starts.antt =====
-- The starts of the modules with a worker, when they are new.
use sdv_edge_gateway.Common.{ℕ, ◌≡◌, refl, String, Bool, true, false}
use sdv_edge_gateway.Mqtt.{Ack, answered}
use sdv_edge_gateway.Worker.{Worker, idle, returned, spawn}
use sdv_edge_gateway.TelemetryPublisher.Lifecycle as Telemetry
use sdv_edge_gateway.CommandHandler.Lifecycle as Command
use sdv_edge_gateway.OtaAgent
use sdv_edge_gateway.OtaAgent.Lifecycle as Ota
use sdv_edge_gateway.AnomalyDetector.Lifecycle as Anomaly

-- A worker between its start and its stop.
abbrev pub on : Worker
on = record { running = true; has_thread = true }

pub publisher_start :
    (connected : Bool) → connected ≡ true → Telemetry.start connected idle ≡ returned on true
unfolding Telemetry.start spawn
publisher_start connected e = rw e refl

pub handler_start :
    (uin : String) (connected : Bool) (first second : Ack) (n m : ℕ)
    → connected ≡ true
    → first ≡ answered n
    → second ≡ answered m
    → (s : Command.Session) × (Command.start uin connected first second Command.init
        ≡ returned s true)
unfolding Command.start Command.init spawn
handler_start uin connected first second n m c f s = rw (c, f, s) (_, refl)

pub detector_start :
    (loaded : Bool)
    → (s : Anomaly.Session) × (Anomaly.start loaded Anomaly.init ≡ returned s loaded)
unfolding Anomaly.start Anomaly.init spawn
detector_start true = (_, refl)
detector_start false = (_, refl)

pub agent_start :
    (config : OtaAgent.Config)
    → Ota.start (Ota.init config) ≡ returned (record { config = config; worker = on }) true
unfolding Ota.start Ota.init spawn
agent_start config = refl
