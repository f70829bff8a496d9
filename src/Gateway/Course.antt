-- ===== src/Gateway/Course.antt =====
-- All that `main` can do: which modules it starts and stops, in which order, and how it ends.
mod Courses
mod Noting
pub use Courses.{
  started, all_started, shut_down, whole_course, IsCourse, refused, halted, stopping, leaving,
  finished, HasCourse,
}
use Noting.{Notes, start_module-Notes}
use Prim.Native.Char.{Char}
use sdv_edge_gateway.Common.{
  ℕ, ◌≤◌, ◌<◌, ◌≡◌, ◌⊎◌, inl, inr, refl, ap, ◌∙◌, String, Bool, true, false, Option, none, some,
  List, [], ◌∷◌, ◌++◌, map, take, if◌then◌else◌, arith,
}
use sdv_edge_gateway.Common.Double.{DoubleOps}
use sdv_edge_gateway.Mqtt.{Ack, answered, never, throws}
use sdv_edge_gateway.Worker.{Started, returned, hangs, terminated}
use sdv_edge_gateway.SignalDecoder.{SignalDef}
use sdv_edge_gateway.SignalDecoder.Load.{Loaded}
use sdv_edge_gateway.Gateway.{
  Queues, Module, can_writer, can_reader, telemetry_pub, cmd_handler, ota_agent, anomaly_det, Event,
  starts, stops, disconnects, destructors, shutdown_order, fatal_modules,
}
use sdv_edge_gateway.Gateway.Config.{Yaml, Config, config_path, read_config}
use sdv_edge_gateway.Gateway.Modules.{Modules, Replies, create, noted, put, start_module, all_join}
use sdv_edge_gateway.Gateway.Main.{
  Ended, exits, waits_forever, aborts, Run, Inputs, leave, disconnect, loop_stage, required, tried,
  start_all, decoder_stage, connect_stage, client_stage, configured, read, main,
}
use sdv_edge_gateway.Gateway.Shutdown.Events.{stop_all-events}

module _ {N F W : Type 0} (yaml : Yaml N F) (stod : List Char → Option W) (double : DoubleOps W)
    (now : String → ℕ) (i : Inputs) where
  HasCourseRun : Run W → Type 0
  HasCourseRun run = HasCourse run.modules run.ended

  -- A module of the five refuses.
  refuse-HasCourse :
      (n : ℕ) (all_end : Bool) (uin : String) (g : Modules) (q : Queues W)
      → n < 5
      → g.events ≡ started n
      → all_join uin i.replies destructors g ≡ all_end
      → HasCourseRun (leave yaml stod double now i uin 1 g q)
  unfolding HasCourseRun leave
  refuse-HasCourse n true uin g q h e j = rw j (
      refused n h
        (stop_all-events uin i.replies destructors g ∙ ap (λ l. l ++ map stops destructors) e) refl)
  refuse-HasCourse n false uin g q h e j = rw j (halted n (omega (arith, h)) e (inl refl))

  required-HasCourse :
      (n : ℕ) (m : Module) (uin : String) (q : Queues W) (s : Started Modules)
      (next : Modules → Run W)
      → n < 5
      → Notes m (started n) s
      → ((g : Modules) → g.events ≡ started n ++ starts m ∷ [] → HasCourseRun (next g))
      → HasCourseRun (required yaml stod double now i uin q s next)
  unfolding HasCourseRun Notes
  required-HasCourse n m uin q (returned g true) next h e k = k g e
  required-HasCourse n m uin q (returned g false) next h e k = refuse-HasCourse n _ uin g q h e refl
  required-HasCourse n m uin q (hangs g) next h e k = halted n (omega (arith, h)) e (inl refl)
  required-HasCourse n m uin q (terminated g) next h e k = halted n (omega (arith, h)) e (inr refl)

  finish-HasCourse :
      (d all_end : Bool) (uin : String) (g : Modules) (q : Queues W)
      → g.events ≡ shut_down d
      → all_join uin i.replies destructors g ≡ all_end
      → HasCourseRun (leave yaml stod double now i uin 0 g q)
  unfolding HasCourseRun leave
  finish-HasCourse d true uin g q e j = rw j (
      finished d
        (stop_all-events uin i.replies destructors g ∙ ap (λ l. l ++ map stops destructors) e) refl)
  finish-HasCourse d false uin g q e j = rw j (leaving d e refl)

  disconnect-HasCourse :
      (ack : Ack) (d : Bool) (uin : String) (g : Modules) (q : Queues W)
      → g.events ≡ shut_down d
      → HasCourseRun (disconnect yaml stod double now i ack uin g q)
  unfolding HasCourseRun disconnect
  disconnect-HasCourse (answered n) d uin g q e = finish-HasCourse d _ uin g q e refl
  disconnect-HasCourse never d uin g q e = leaving d e refl
  disconnect-HasCourse (throws n) d uin g q e = finish-HasCourse d _ uin g q e refl

  loop_stage-HasCourse :
      (d all_end : Bool) (uin : String) (signals : List (String × SignalDef W)) (g : Modules)
      (q : Queues W)
      → g.events ≡ all_started d
      → all_join uin i.replies shutdown_order g ≡ all_end
      → HasCourseRun (loop_stage yaml stod double now i uin signals g q)
  unfolding HasCourseRun loop_stage
  loop_stage-HasCourse d true uin signals g q e j = rw j (
      disconnect-HasCourse i.disconnected d uin _ _ (
        ap (λ l. l ++ disconnects ∷ [])
          (stop_all-events uin i.replies shutdown_order g
            ∙ ap (λ l. l ++ map stops shutdown_order) e)))
  loop_stage-HasCourse d false uin signals g q e j = rw j (stopping d e refl)

  tried-HasCourse :
      (uin : String) (signals : List (String × SignalDef W)) (q : Queues W) (s : Started Modules)
      → Notes anomaly_det (started 5) s
      → HasCourseRun (
          tried yaml stod double now i uin q s
            (λ g. loop_stage yaml stod double now i uin signals g q))
  unfolding HasCourseRun Notes
  tried-HasCourse uin signals q (returned g true) e =
      loop_stage-HasCourse true _ uin signals g q e refl
  tried-HasCourse uin signals q (returned g false) e =
      loop_stage-HasCourse false _ uin signals g q e refl
  tried-HasCourse uin signals q (hangs g) e = halted 5 (omega arith) e (inl refl)
  tried-HasCourse uin signals q (terminated g) e = halted 5 (omega arith) e (inr refl)

  -- The next module of the five, after `n` of them.
  next-HasCourse :
      (n : ℕ) (m : Module) (ms : List Module) (uin : String) (signals : List (String × SignalDef W))
      (g : Modules) (q : Queues W)
      → n < 5
      → g.events ≡ started n
      → ((g' : Modules)
          → g'.events ≡ started n ++ starts m ∷ []
          → HasCourseRun (start_all yaml stod double now i uin signals ms g' q))
      → HasCourseRun (start_all yaml stod double now i uin signals (m ∷ ms) g q)
  unfolding start_all
  next-HasCourse n m ms uin signals g q h e k =
      required-HasCourse n m uin q (start_module uin i.replies m g) _ h
        (start_module-Notes uin i.replies m g (started n) e) k

  last-HasCourse :
      (uin : String) (signals : List (String × SignalDef W)) (g : Modules) (q : Queues W)
      → g.events ≡ started 5
      → HasCourseRun (start_all yaml stod double now i uin signals [] g q)
  unfolding start_all
  last-HasCourse uin signals g q e =
      tried-HasCourse uin signals q (start_module uin i.replies anomaly_det g)
        (start_module-Notes uin i.replies anomaly_det g (started 5) e)

  start_all-HasCourse :
      (uin : String) (signals : List (String × SignalDef W)) (g : Modules) (q : Queues W)
      → g.events ≡ []
      → HasCourseRun (start_all yaml stod double now i uin signals fatal_modules g q)
  start_all-HasCourse uin signals g q e =
      next-HasCourse 0 can_writer _ uin signals g q (omega arith) e λ g₁ e₁.
        next-HasCourse 1 can_reader _ uin signals g₁ q (omega arith) e₁ λ g₂ e₂.
          next-HasCourse 2 telemetry_pub _ uin signals g₂ q (omega arith) e₂ λ g₃ e₃.
            next-HasCourse 3 cmd_handler _ uin signals g₃ q (omega arith) e₃ λ g₄ e₄.
              next-HasCourse 4 ota_agent _ uin signals g₄ q (omega arith) e₄
                λ g₅ e₅. last-HasCourse uin signals g₅ q e₅

  decoder_stage-HasCourse :
      (cfg : Config F) (l : Loaded W) → HasCourseRun (decoder_stage yaml stod double now i cfg l)
  unfolding decoder_stage HasCourseRun create
  decoder_stage-HasCourse cfg (Loaded.returns false signals) = inl refl
  decoder_stage-HasCourse cfg (Loaded.returns true signals) =
      start_all-HasCourse cfg.uin signals _ _ refl
  decoder_stage-HasCourse cfg Loaded.throws = inr (inr refl)

  connect_stage-HasCourse :
      (cfg : Config F) (ack : Ack) → HasCourseRun (connect_stage yaml stod double now i cfg ack)
  unfolding connect_stage HasCourseRun
  connect_stage-HasCourse cfg (answered n) = decoder_stage-HasCourse cfg _
  connect_stage-HasCourse cfg never = inr (inl refl)
  connect_stage-HasCourse cfg (throws n) = inl refl

  client_stage-HasCourse :
      (cfg : Config F) (made : Bool) → HasCourseRun (client_stage yaml stod double now i cfg made)
  unfolding HasCourseRun
  client_stage-HasCourse cfg false = inr (inr refl)
  client_stage-HasCourse cfg true = connect_stage-HasCourse cfg i.connected

  configured-HasCourse :
      (o : Option (Config F)) → HasCourseRun (configured yaml stod double now i o)
  unfolding HasCourseRun
  configured-HasCourse none = inr (inr refl)
  configured-HasCourse (some cfg) = client_stage-HasCourse cfg i.client_created

  read-HasCourse : (o : Option N) → HasCourseRun (read yaml stod double now i o)
  unfolding HasCourseRun
  read-HasCourse none = inl refl
  read-HasCourse (some node) = configured-HasCourse (read_config yaml node)

  -- Whatever the configuration, the broker, the DBC file and the kernel answer, `main` takes one of
  -- these courses: it ends before the modules are made, and then its exit status is 1 if it returns;
  -- a module of the five refuses to start, after the ones before it, and it returns 1 behind the
  -- stops of the destructors; it starts all five, then the anomaly detector or not, stops all six,
  -- disconnects, stops them again in the destructors and returns 0; or it does not return, and has
  -- done the first part of one of these.
  pub main-HasCourse :
      HasCourse (main yaml stod double now i).modules (main yaml stod double now i).ended
  unfolding main HasCourseRun
  main-HasCourse = read-HasCourse (yaml.load_file (config_path i.argument))
