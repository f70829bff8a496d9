-- ===== src/Gateway/Success.antt =====
-- The path of `main` on which everything that it needs answers.
pub mod Starts
pub mod Willing
use Willing.{IsWilling, all_join-true, with_five, start_five}
use Starts.{on, publisher_start, handler_start, agent_start, detector_start}
use Prim.Native.Char.{Char}
use sdv_edge_gateway.Common.{
  ℕ, ◌≡◌, refl, sym, ap, ◌∙◌, subst, String, Bool, true, false, not, ◌&&◌, ◌||◌, Option, some, List,
  [], ◌∷◌, ◌++◌, map, if◌then◌else◌,
}
use sdv_edge_gateway.Common.Double.{DoubleOps}
use sdv_edge_gateway.Mqtt.{Ack, answered}
use sdv_edge_gateway.Worker.{Worker, idle, returned, spawn}
use sdv_edge_gateway.CanReader
use sdv_edge_gateway.CanWriter
use sdv_edge_gateway.TelemetryPublisher.Lifecycle as Telemetry
use sdv_edge_gateway.CommandHandler.Lifecycle as Command
use sdv_edge_gateway.OtaAgent
use sdv_edge_gateway.OtaAgent.Lifecycle as Ota
use sdv_edge_gateway.AnomalyDetector.Lifecycle as Anomaly
use sdv_edge_gateway.SignalDecoder.{SignalDef}
use sdv_edge_gateway.SignalDecoder.Load.{Loaded, load}
use sdv_edge_gateway.Gateway.{
  Queues, decode_loop, Module, can_writer, can_reader, telemetry_pub, cmd_handler, ota_agent,
  anomaly_det, Event, starts, stops, disconnects, destructors, shutdown_order, fatal_modules,
}
use sdv_edge_gateway.Gateway.Config.{Yaml, Config, config_path, read_config}
use sdv_edge_gateway.Gateway.Modules.{
  Modules, Replies, create, noted, put, start_module, stop_module, stop_all, has_thread, all_join,
}
use sdv_edge_gateway.Gateway.Main.{
  exits, Run, Inputs, joined, leave, disconnect, loop_stage, required, tried, start_all, no_queues,
  decoder_stage, connect_stage, client_stage, configured, read, main,
}
use sdv_edge_gateway.Gateway.Course.{whole_course}
use sdv_edge_gateway.Types.{CanFrame}
use sdv_edge_gateway.SafeQueue.{empty}
use sdv_edge_gateway.Gateway.FanOut.{all_arrived, decode_all, decode_loop-HandsOut}
use sdv_edge_gateway.Gateway.Shutdown.Events.{stop_all-events}

module _ {N F W : Type 0} (yaml : Yaml N F) (stod : List Char → Option W) (double : DoubleOps W)
    (now : String → ℕ) (i : Inputs) where
  -- The run exits with 0, has decoded the frames of all rounds by these definitions, and has done
  -- these things.
  abbrev pub Succeeds : List (String × SignalDef W) → Queues W → List Event → Run W → Type 0
  Succeeds signals q es run =
      (run.ended ≡ exits 0)
      × (run.queues ≡ some (decode_loop double now signals i.rounds q))
      × (g : Modules) × (run.modules ≡ some g)
      × (g.events ≡ es)

  -- The course of `main` from the events on with which the loop is left.
  abbrev rest_of : List Event → List Event
  rest_of es = ((es ++ map stops shutdown_order) ++ disconnects ∷ []) ++ map stops destructors

  loop_stage-Succeeds :
      (uin : String) (signals : List (String × SignalDef W)) (g : Modules) (q : Queues W) (n : ℕ)
      → ((m : Module) → i.replies.joins m ≡ true)
      → i.disconnected ≡ answered n
      → Succeeds signals q (rest_of g.events) (loop_stage yaml stod double now i uin signals g q)
  unfolding loop_stage disconnect leave
  loop_stage-Succeeds uin signals g q n joins e =
      let g₁ = stop_all uin i.replies shutdown_order g in
      let g₂ : Modules = record g₁ { events = g₁.events ++ disconnects ∷ [] } in
      let q' = decode_loop double now signals i.rounds q in
      let left : Run W = record {
        modules = some (stop_all uin i.replies destructors g₂);
        queues = some q';
        ended = exits 0;
      } in
      subst (Succeeds signals q (rest_of g.events))
        (sym (
          ap
            (λ b.
              joined yaml stod double now i b g q'
                (disconnect yaml stod double now i i.disconnected uin g₂ q'))
            (all_join-true uin i.replies shutdown_order g joins)
          ∙ ap (λ ack. disconnect yaml stod double now i ack uin g₂ q') e
          ∙ ap (λ b. joined yaml stod double now i b g₂ q' left)
              (all_join-true uin i.replies destructors g₂ joins)))
        (
          refl,
          refl,
          stop_all uin i.replies destructors g₂,
          refl,
          stop_all-events uin i.replies destructors g₂
              ∙ ap (λ l. (l ++ disconnects ∷ []) ++ map stops destructors)
                  (stop_all-events uin i.replies shutdown_order g),
        )

  tried-Succeeds :
      (uin : String) (signals : List (String × SignalDef W)) (g : Modules) (q : Queues W) (n : ℕ)
      (loaded : Bool)
      → ((m : Module) → i.replies.joins m ≡ true)
      → i.disconnected ≡ answered n
      → g.events ≡ map starts fatal_modules
      → Succeeds signals q (whole_course loaded) (
          tried yaml stod double now i uin q
            (noted anomaly_det g loaded)
            (λ g'. loop_stage yaml stod double now i uin signals g' q))
  tried-Succeeds uin signals g q n true joins e es =
      subst
        (λ l. Succeeds signals q (rest_of (l ++ starts anomaly_det ∷ [])) (
          loop_stage yaml stod double now i uin signals
            (record g { events = g.events ++ starts anomaly_det ∷ [] }) q))
        es
        (loop_stage-Succeeds uin signals (record g { events = g.events ++ starts anomaly_det ∷ [] })
          q n joins e)
  tried-Succeeds uin signals g q n false joins e es =
      subst
        (λ l. Succeeds signals q (rest_of l) (loop_stage yaml stod double now i uin signals g q)) es
        (loop_stage-Succeeds uin signals g q n joins e)

  last-Succeeds :
      (uin : String) (signals : List (String × SignalDef W)) (g : Modules) (q : Queues W) (n : ℕ)
      → ((m : Module) → i.replies.joins m ≡ true)
      → i.disconnected ≡ answered n
      → g.events ≡ map starts fatal_modules
      → g.detector ≡ Anomaly.init
      → Succeeds signals q
          (whole_course i.replies.model_loaded)
          (start_all yaml stod double now i uin signals [] g q)
  unfolding start_all start_module
  last-Succeeds uin signals g q n joins e es d =
      let (s, started) = detector_start i.replies.model_loaded in
      subst
        (λ t. Succeeds signals q (whole_course i.replies.model_loaded) (
          tried yaml stod double now i uin q (put anomaly_det (λ a. record g { detector = a }) t)
            (λ g'. loop_stage yaml stod double now i uin signals g' q)))
        (sym (ap (Anomaly.start i.replies.model_loaded) d ∙ started))
        (tried-Succeeds uin signals (record g { detector = s }) q n i.replies.model_loaded joins e
          es)

  reached :
      (node : N) (cfg : Config F) (n : ℕ) (signals : List (String × SignalDef W))
      → yaml.load_file (config_path i.argument) ≡ some node
      → read_config yaml node ≡ some cfg
      → i.client_created ≡ true
      → i.connected ≡ answered n
      → load stod cfg.signal_names (i.files cfg.dbc_path) [] ≡ Loaded.returns true signals
      → main yaml stod double now i
        ≡ decoder_stage yaml stod double now i cfg (Loaded.returns true signals)
  unfolding main connect_stage
  reached node cfg n signals file config made connected loaded =
      ap (read yaml stod double now i) file
      ∙ ap (configured yaml stod double now i) config
      ∙ ap (client_stage yaml stod double now i cfg) made
      ∙ ap (connect_stage yaml stod double now i cfg) connected
      ∙ ap (decoder_stage yaml stod double now i cfg) loaded

  -- What the decode loop hands out, from empty queues: some of the frames that came in all rounds, from
  -- the front on, are taken, the others wait, and both consumers' queues hold the signals that these
  -- definitions give for the frames taken, frame by frame.
  pub record HandsOutAll (signals : List (String × SignalDef W)) (q : Queues W) : Type 0 where
    pub taken : List CanFrame
    pub frames : all_arrived i.rounds ≡ taken ++ q.can_frame_q.queue
    pub telemetry : q.telemetry_q.queue ≡ decode_all double now signals taken
    pub anomaly : q.anomaly_q.queue ≡ decode_all double now signals taken

  -- A run that ends with 0, with its queues and with what it has done.
  pub record EndsWell (signals : List (String × SignalDef W)) (es : List Event) (run : Run W)
      : Type 0 where
    pub status : run.ended ≡ exits 0
    pub queues : Queues W
    pub has_queues : run.queues ≡ some queues
    pub handed_out : HandsOutAll signals queues
    pub modules : Modules
    pub has_modules : run.modules ≡ some modules
    pub events : modules.events ≡ es

  Succeeds-EndsWell :
      (signals : List (String × SignalDef W)) (es : List Event) (run : Run W)
      → Succeeds signals (no_queues yaml stod double now i) es run
      → EndsWell signals es run
  unfolding empty
  Succeeds-EndsWell signals es run (status, queues, g, modules, events) =
      let (taken, frames, telemetry, anomaly) =
        decode_loop-HandsOut double now signals i.rounds (no_queues yaml stod double now i) in
      record {
        status = status;
        queues = _;
        has_queues = queues;
        handed_out = record {
          taken = taken;
          frames = frames;
          telemetry = telemetry;
          anomaly = anomaly;
        };
        modules = g;
        has_modules = modules;
        events = events;
      }

  -- When the configuration is read, the client is made, the broker answers the connection and the
  -- disconnection, the DBC file loads, the kernel and the broker let the five modules start, and each
  -- thread ends once it is stopped: `main` returns 0; of the frames that came in all rounds, some from
  -- the front on were taken and the others wait, and the queues of the publisher and of the detector
  -- were given exactly the signals of those taken, by the definitions of that file; and it started the
  -- five in their order, then the anomaly detector if its model loads, stopped the consumers first,
  -- then the reader and the writer, disconnected, and stopped all six again in its destructors.
  pub main_runs :
      (node : N) (cfg : Config F) (n n' : ℕ) (signals : List (String × SignalDef W))
      → yaml.load_file (config_path i.argument) ≡ some node
      → read_config yaml node ≡ some cfg
      → i.client_created ≡ true
      → i.connected ≡ answered n
      → load stod cfg.signal_names (i.files cfg.dbc_path) [] ≡ Loaded.returns true signals
      → IsWilling cfg i.replies
      → ((m : Module) → i.replies.joins m ≡ true)
      → i.disconnected ≡ answered n'
      → EndsWell signals (whole_course i.replies.model_loaded) (main yaml stod double now i)
  unfolding decoder_stage
  main_runs node cfg n n' signals file config made connected loaded willing joins disconnected =
      let (s, five) =
        start_five yaml stod double now i cfg signals (no_queues yaml stod double now i) willing in
      Succeeds-EndsWell signals (whole_course i.replies.model_loaded) (main yaml stod double now i)
        (subst
          (Succeeds signals (no_queues yaml stod double now i)
            (whole_course i.replies.model_loaded))
          (sym (reached node cfg n signals file config made connected loaded ∙ five))
          (last-Succeeds cfg.uin signals (with_five cfg.uin i.replies cfg s) _ n' joins disconnected
            refl refl))
