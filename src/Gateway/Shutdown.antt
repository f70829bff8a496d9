-- ===== src/Gateway/Shutdown.antt =====
-- What `main` leaves behind on each of its paths.
pub mod Events
pub mod Sockets
use Events.{same_module, stops_it, starts_it, any, stops_after, stops_after-append, stop_all-events}
use Sockets.{
  When, IsBalanced, HasNoSocket, IsReaderNew, stop_all-IsBalanced, start_module-IsBalanced,
  start_writer, start_reader,
}
use Prim.Native.Char.{Char}
use sdv_edge_gateway.Common.{
  ℕ, ◌≡◌, refl, sym, ap, ◌∙◌, String, Bool, true, false, ◌&&◌, Option, none, some, List, [], ◌∷◌,
  ◌++◌, map, append-nil, append_assoc, if◌then◌else◌, Bool-cases, inl, inr, Holds, All, arith,
}
use sdv_edge_gateway.Common.Double.{DoubleOps}
use sdv_edge_gateway.Mqtt.{Ack, answered, never, throws}
use sdv_edge_gateway.Worker.{idle, halt, Started, returned, hangs, terminated}
use sdv_edge_gateway.CanReader
use sdv_edge_gateway.CanReader.{CanReader}
use sdv_edge_gateway.CanWriter
use sdv_edge_gateway.CanWriter.{CanWriter, listed}
use sdv_edge_gateway.CommandHandler.Lifecycle.{stop-idle}
use sdv_edge_gateway.TelemetryPublisher.Lifecycle as Telemetry
use sdv_edge_gateway.OtaAgent.Lifecycle as Ota
use sdv_edge_gateway.AnomalyDetector.Lifecycle as Anomaly
use sdv_edge_gateway.SignalDecoder.{SignalDef}
use sdv_edge_gateway.SignalDecoder.Load.{Loaded}
use sdv_edge_gateway.Gateway.{
  Queues, Module, can_writer, can_reader, telemetry_pub, cmd_handler, ota_agent, anomaly_det, Event,
  starts, stops, disconnects, shutdown_order, destructors, fatal_modules,
}
use sdv_edge_gateway.Gateway.Config.{Yaml, Config, config_path, read_config}
use sdv_edge_gateway.Gateway.Modules.{
  Modules, Replies, create, start_module, stop_module, stop_all, all_join,
}
use sdv_edge_gateway.Gateway.Main.{
  Ended, exits, waits_forever, aborts, Run, Inputs, joined, leave, disconnect, loop_stage, required,
  tried, start_all, no_queues, decoder_stage, connect_stage, client_stage, configured, read, main,
}

-- No module runs, no thread is left, and the descriptors handed to ::close are those that ::socket
-- gave, each once and in the same order.
pub record IsQuiet (g : Modules) : Type 0 where
  pub writer_closed : g.writer.closed ≡ g.writer.obtained
  pub writer_stopped : g.writer.is_open ≡ false
  pub reader_closed : g.reader.closed ≡ g.reader.obtained
  pub reader_stopped : g.reader.worker ≡ idle
  pub publisher : g.publisher ≡ idle
  pub handler : g.handler.worker ≡ idle
  pub agent : g.agent.worker ≡ idle
  pub detector : g.detector.worker ≡ idle

writer-stop :
    (w : CanWriter) → ((CanWriter.stop w).socket_fd ≡ none) × ((CanWriter.stop w).is_open ≡ false)
unfolding CanWriter.stop
writer-stop w = (ground arith, ground arith)

reader-stop :
    (c : CanReader) → ((CanReader.stop c).socket_fd ≡ none) × ((CanReader.stop c).worker ≡ idle)
unfolding CanReader.stop halt
reader-stop c = (ground arith, ground arith)

all_closed :
    (obtained closed : List ℕ) (held : Option ℕ)
    → held ≡ none
    → obtained ≡ closed ++ listed held
    → closed ≡ obtained
all_closed obtained closed held e b = sym (b ∙ ap (λ o. closed ++ listed o) e ∙ append-nil closed)

module _ (uin : String) (r : Replies) where
  destructors-IsQuiet : (g : Modules) → IsBalanced g → IsQuiet (stop_all uin r destructors g)
  unfolding stop_all Telemetry.stop Ota.stop Anomaly.stop halt
  destructors-IsQuiet g b =
      let b' = stop_all-IsBalanced uin r destructors g b in
      record {
        writer_closed = all_closed _ _ _ (writer-stop g.writer).0 b'.writer;
        writer_stopped = (writer-stop g.writer).1;
        reader_closed = all_closed _ _ _ (reader-stop g.reader).0 b'.reader;
        reader_stopped = (reader-stop g.reader).1;
        publisher = refl;
        handler = stop-idle uin r.join r.unsubscribed r.diagnosis_unsubscribed g.handler;
        agent = refl;
        detector = refl;
      }

-- What `main` has done when it ends with an exit status.
pub record IsOrderly (g : Modules) : Type 0 where
  pub quiet : IsQuiet g
  pub stopped : (m : Module) → stops_after m g.events ≡ true

-- Nothing is said of a process that waits for ever or is aborted.
abbrev pub EndsOrderly : Option Modules → Ended → Type 0
EndsOrderly o (exits n) = Holds IsOrderly o
EndsOrderly o waits_forever = Unit {0}
EndsOrderly o aborts = Unit {0}

stop_all-IsOrderly :
    (uin : String) (r : Replies) (g : Modules)
    → IsBalanced g
    → IsOrderly (stop_all uin r destructors g)
stop_all-IsOrderly uin r g b = record {
  quiet = destructors-IsQuiet uin r g b;
  stopped =
      λ m. ap (stops_after m) (stop_all-events uin r destructors g) ∙ stops_after-append m g.events;
}

module _ {N F W : Type 0} (yaml : Yaml N F) (stod : List Char → Option W) (double : DoubleOps W)
    (now : String → ℕ) (i : Inputs) where
  IsOrderlyRun : Run W → Type 0
  IsOrderlyRun run = EndsOrderly run.modules run.ended

  joined-IsOrderly :
      (all_end : Bool) (g : Modules) (q : Queues W) (next : Run W)
      → IsOrderlyRun next
      → IsOrderlyRun (joined yaml stod double now i all_end g q next)
  unfolding IsOrderlyRun
  joined-IsOrderly true g q next h = h
  joined-IsOrderly false g q next h = tt

  leave-IsOrderly :
      (uin : String) (n : ℕ) (g : Modules) (q : Queues W)
      → IsBalanced g
      → IsOrderlyRun (leave yaml stod double now i uin n g q)
  unfolding IsOrderlyRun leave
  leave-IsOrderly uin n g q b =
      joined-IsOrderly (all_join uin i.replies destructors g) g q _
        (stop_all-IsOrderly uin i.replies g b)

  disconnect-IsOrderly :
      (ack : Ack) (uin : String) (g : Modules) (q : Queues W)
      → IsBalanced g
      → IsOrderlyRun (disconnect yaml stod double now i ack uin g q)
  unfolding IsOrderlyRun disconnect
  disconnect-IsOrderly (answered n) uin g q b = leave-IsOrderly uin 0 g q b
  disconnect-IsOrderly never uin g q b = tt
  disconnect-IsOrderly (throws n) uin g q b = leave-IsOrderly uin 0 g q b

  required-IsOrderly :
      (P : Modules → Type 0) (uin : String) (q : Queues W) (s : Started Modules)
      (next : Modules → Run W)
      → ((g : Modules) → P g → IsBalanced g)
      → When P s
      → ((g : Modules) → P g → IsOrderlyRun (next g))
      → IsOrderlyRun (required yaml stod double now i uin q s next)
  unfolding IsOrderlyRun
  required-IsOrderly P uin q (returned g true) next b p h = h g p
  required-IsOrderly P uin q (returned g false) next b p h = leave-IsOrderly uin 1 g q (b g p)
  required-IsOrderly P uin q (hangs g) next b p h = tt
  required-IsOrderly P uin q (terminated g) next b p h = tt

  tried-IsOrderly :
      (uin : String) (q : Queues W) (s : Started Modules) (next : Modules → Run W)
      → When IsBalanced s
      → ((g : Modules) → IsBalanced g → IsOrderlyRun (next g))
      → IsOrderlyRun (tried yaml stod double now i uin q s next)
  unfolding IsOrderlyRun
  tried-IsOrderly uin q (returned g ok) next b h = h g b
  tried-IsOrderly uin q (hangs g) next b h = tt
  tried-IsOrderly uin q (terminated g) next b h = tt

  disconnected-IsBalanced :
      (uin : String) (g : Modules)
      → IsBalanced g
      → let g' = stop_all uin i.replies shutdown_order g in
        IsBalanced (record g' { events = g'.events ++ disconnects ∷ [] })
  disconnected-IsBalanced uin g b =
      let b' = stop_all-IsBalanced uin i.replies shutdown_order g b in
      record { writer = b'.writer; reader = b'.reader }

  -- From the modules without a socket on.
  start_rest-IsOrderly :
      (uin : String) (signals : List (String × SignalDef W)) (ms : List Module) (g : Modules)
      (q : Queues W)
      → All (HasNoSocket uin i.replies) ms
      → IsBalanced g
      → IsOrderlyRun (start_all yaml stod double now i uin signals ms g q)
  unfolding start_all loop_stage
  start_rest-IsOrderly uin signals [] g q n b =
      tried-IsOrderly uin q (start_module uin i.replies anomaly_det g) _
        (start_module-IsBalanced uin i.replies anomaly_det g tt b)
        (λ g' b'.
          joined-IsOrderly _ g' _ _
            (disconnect-IsOrderly i.disconnected uin _ _ (disconnected-IsBalanced uin g' b')))
  start_rest-IsOrderly uin signals (m ∷ ms) g q n b =
      required-IsOrderly IsBalanced uin q (start_module uin i.replies m g) _ (λ g' b'. b')
        (start_module-IsBalanced uin i.replies m g n.0 b)
        (λ g' b'. start_rest-IsOrderly uin signals ms g' q n.1 b')

  start_all-IsOrderly :
      (uin : String) (signals : List (String × SignalDef W)) (g : Modules) (q : Queues W)
      → g.writer.socket_fd ≡ none
      → IsReaderNew uin i.replies g
      → IsBalanced g
      → IsOrderlyRun (start_all yaml stod double now i uin signals fatal_modules g q)
  unfolding start_all
  start_all-IsOrderly uin signals g q e n b =
      required-IsOrderly (λ g'. IsBalanced g' × IsReaderNew uin i.replies g') uin q
        (start_module uin i.replies can_writer g) _ (λ g' p. p.0)
        (start_writer uin i.replies g e n b)
        (λ g₁ p.
          required-IsOrderly IsBalanced uin q (start_module uin i.replies can_reader g₁) _
            (λ g' b'. b') (start_reader uin i.replies g₁ p.1 p.0)
            (λ g₂ b₂.
              start_rest-IsOrderly uin signals (telemetry_pub ∷ cmd_handler ∷ ota_agent ∷ []) g₂ q
                (tt, (tt, (tt, tt))) b₂))

  decoder_stage-IsOrderly :
      (cfg : Config F) (l : Loaded W) → IsOrderlyRun (decoder_stage yaml stod double now i cfg l)
  unfolding decoder_stage IsOrderlyRun create CanWriter.init CanReader.init
  decoder_stage-IsOrderly cfg (Loaded.returns false signals) = tt
  decoder_stage-IsOrderly cfg (Loaded.returns true signals) =
      start_all-IsOrderly cfg.uin signals (create cfg.uin cfg.can_iface_rx cfg.can_iface_tx)
        (no_queues yaml stod double now i) refl refl (record { writer = refl; reader = refl })
  decoder_stage-IsOrderly cfg Loaded.throws = tt

  connect_stage-IsOrderly :
      (cfg : Config F) (ack : Ack) → IsOrderlyRun (connect_stage yaml stod double now i cfg ack)
  unfolding connect_stage IsOrderlyRun
  connect_stage-IsOrderly cfg (answered n) = decoder_stage-IsOrderly cfg _
  connect_stage-IsOrderly cfg never = tt
  connect_stage-IsOrderly cfg (throws n) = tt

  client_stage-IsOrderly :
      (cfg : Config F) (made : Bool) → IsOrderlyRun (client_stage yaml stod double now i cfg made)
  unfolding IsOrderlyRun
  client_stage-IsOrderly cfg false = tt
  client_stage-IsOrderly cfg true = connect_stage-IsOrderly cfg i.connected

  configured-IsOrderly :
      (o : Option (Config F)) → IsOrderlyRun (configured yaml stod double now i o)
  unfolding IsOrderlyRun
  configured-IsOrderly none = tt
  configured-IsOrderly (some cfg) = client_stage-IsOrderly cfg i.client_created

  read-IsOrderly : (o : Option N) → IsOrderlyRun (read yaml stod double now i o)
  unfolding IsOrderlyRun
  read-IsOrderly none = tt
  read-IsOrderly (some node) = configured-IsOrderly (read_config yaml node)

  -- On every path on which `main` returns, whatever the configuration, the broker, the DBC file and
  -- the kernel answer, and whatever was decoded before: either the modules were never made, or each
  -- one that was started was stopped afterwards, no thread is left, and the descriptors that the
  -- kernel gave to CanWriter and to CanReader were each handed to ::close exactly once.
  pub main_stops :
      EndsOrderly (main yaml stod double now i).modules (main yaml stod double now i).ended
  unfolding main IsOrderlyRun
  main_stops = read-IsOrderly (yaml.load_file (config_path i.argument))
