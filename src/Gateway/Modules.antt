-- ===== src/Gateway/Modules.antt =====
-- src/main.cpp, steps 5, 6 and 9: the six modules that `main` makes, starts and stops.
use sdv_edge_gateway.Common.{ℕ, String, Bool, true, false, not, ◌&&◌, ◌||◌, List, [], ◌∷◌, ◌++◌}
use sdv_edge_gateway.Mqtt.{Ack}
use sdv_edge_gateway.Socket.{SocketCalls}
use sdv_edge_gateway.Worker.{Worker, idle, Started, returned, hangs, terminated}
use sdv_edge_gateway.CanReader
use sdv_edge_gateway.CanReader.{CanReader}
use sdv_edge_gateway.CanWriter
use sdv_edge_gateway.CanWriter.{CanWriter}
use sdv_edge_gateway.TelemetryPublisher.Lifecycle as Telemetry
use sdv_edge_gateway.CommandHandler.Lifecycle as Command
use sdv_edge_gateway.OtaAgent.Lifecycle as Ota
use sdv_edge_gateway.OtaAgent.Lifecycle.{OtaAgent}
use sdv_edge_gateway.AnomalyDetector.Lifecycle as Anomaly
use sdv_edge_gateway.Gateway.{
  Module, can_writer, can_reader, telemetry_pub, cmd_handler, ota_agent, anomaly_det, Event, starts,
  stops,
}

-- What the modules' `start` and `stop` change, and what `main` has done, in order: a start is noted
-- when it has returned true.
pub record Modules : Type 0 where
  pub writer : CanWriter
  pub reader : CanReader
  pub publisher : Worker
  pub handler : Command.Session
  pub agent : OtaAgent
  pub detector : Anomaly.Session
  pub events : List Event

-- The answers of the kernel, the broker and the ONNX runtime to the starts and the stops. `joins`: the
-- module's thread ends once `running_` is false; it does not while it waits for the broker to
-- acknowledge a publish, since those waits have no limit.
pub record Replies : Type 0 where
  pub tx : SocketCalls
  pub rx : SocketCalls
  pub publisher_connected : Bool
  pub handler_connected : Bool
  pub subscribed : Ack
  pub diagnosis_subscribed : Ack
  pub model_loaded : Bool
  pub joins : Module → Bool
  pub join : ℕ
  pub unsubscribed : Ack
  pub diagnosis_unsubscribed : Ack

-- The constructors of the six modules, with the vehicle's name and those of the two interfaces.
unfoldable pub create : (uin can_iface_rx can_iface_tx : String) → Modules
create uin can_iface_rx can_iface_tx = record {
  writer = CanWriter.init can_iface_tx;
  reader = CanReader.init can_iface_rx;
  publisher = idle;
  handler = Command.init;
  agent = Ota.init (Ota.default_config uin);
  detector = Anomaly.init;
  events = [];
}

-- A start's result, with the module put back.
abbrev pub noted : Module → Modules → Bool → Started Modules
noted m g true = returned (record g { events = g.events ++ starts m ∷ [] }) true
noted m g false = returned g false

abbrev pub put {ℓ} : {A : Type ℓ} → Module → (A → Modules) → Started A → Started Modules
put m back (returned a ok) = noted m (back a) ok
put m back (hangs a) = hangs (back a)
put m back (terminated a) = terminated (back a)

module _ (uin : String) (r : Replies) where
  unfoldable pub start_module : Module → Modules → Started Modules
  start_module can_writer g =
      let (w, ok) = CanWriter.start r.tx g.writer in noted can_writer (record g { writer = w }) ok
  start_module can_reader g =
      put can_reader (λ c. record g { reader = c }) (CanReader.start r.rx g.reader)
  start_module telemetry_pub g =
      put telemetry_pub (λ w. record g { publisher = w })
        (Telemetry.start r.publisher_connected g.publisher)
  start_module cmd_handler g =
      put cmd_handler (λ s. record g { handler = s })
        (Command.start uin r.handler_connected r.subscribed r.diagnosis_subscribed g.handler)
  start_module ota_agent g = put ota_agent (λ a. record g { agent = a }) (Ota.start g.agent)
  start_module anomaly_det g =
      put anomaly_det (λ s. record g { detector = s }) (Anomaly.start r.model_loaded g.detector)

  -- The module's own `stop`.
  unfoldable pub stop_own : Module → Modules → Modules
  stop_own can_writer g = record g { writer = CanWriter.stop g.writer }
  stop_own can_reader g = record g { reader = CanReader.stop g.reader }
  stop_own telemetry_pub g = record g { publisher = Telemetry.stop g.publisher }
  stop_own cmd_handler g = record g {
    handler = (Command.stop uin r.join r.unsubscribed r.diagnosis_unsubscribed g.handler).0;
  }
  stop_own ota_agent g = record g { agent = Ota.stop g.agent }
  stop_own anomaly_det g = record g { detector = Anomaly.stop g.detector }

  unfoldable pub stop_module : Module → Modules → Modules
  unfolding stop_own
  stop_module m g = let g' = stop_own m g in record g' { events = g.events ++ stops m ∷ [] }

  unfoldable pub stop_all : List Module → Modules → Modules
  unfolding stop_module
  stop_all [] g = g
  stop_all (m ∷ ms) g = stop_all ms (stop_module m g)

  -- The module has a thread to join.
  abbrev pub has_thread : Module → Modules → Bool
  has_thread can_writer g = false
  has_thread can_reader g = g.reader.worker.has_thread
  has_thread telemetry_pub g = g.publisher.has_thread
  has_thread cmd_handler g = g.handler.worker.has_thread
  has_thread ota_agent g = g.agent.worker.has_thread
  has_thread anomaly_det g = g.detector.worker.has_thread

  -- All these stops return, one after the other.
  unfoldable pub all_join : List Module → Modules → Bool
  unfolding stop_module
  all_join [] g = true
  all_join (m ∷ ms) g = (not (has_thread m g) || r.joins m) && all_join ms (stop_module m g)
