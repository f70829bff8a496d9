-- ===== src/Gateway/Success/Willing.antt =====
-- The five modules start when the kernel and the broker let them.
use sdv_edge_gateway.Gateway.Success.Starts.{on, publisher_start, handler_start, agent_start}
use Prim.Native.Char.{Char}
use sdv_edge_gateway.Common.{
  ℕ, ◌≡◌, refl, ap, ◌∙◌, String, Bool, true, false, not, ◌&&◌, ◌||◌, Option, List, [], ◌∷◌, ◌++◌,
  map,
}
use sdv_edge_gateway.Common.Double.{DoubleOps}
use sdv_edge_gateway.Mqtt.{answered}
use sdv_edge_gateway.Worker.{returned}
use sdv_edge_gateway.CanReader
use sdv_edge_gateway.CanReader.Lifecycle as Reader
use sdv_edge_gateway.CanWriter.{is_some}
use sdv_edge_gateway.CanWriter
use sdv_edge_gateway.CommandHandler.Lifecycle as Command
use sdv_edge_gateway.OtaAgent.Lifecycle as Ota
use sdv_edge_gateway.AnomalyDetector.Lifecycle as Anomaly
use sdv_edge_gateway.SignalDecoder.{SignalDef}
use sdv_edge_gateway.Gateway.{
  Queues, Module, can_writer, can_reader, telemetry_pub, cmd_handler, ota_agent, starts,
  fatal_modules,
}
use sdv_edge_gateway.Gateway.Config.{Yaml, Config}
use sdv_edge_gateway.Gateway.Modules.{
  Modules, Replies, create, noted, put, start_module, stop_module, has_thread, all_join,
}
use sdv_edge_gateway.Gateway.Main.{Inputs, required, start_all}

-- The kernel and the broker let the five modules start.
pub record IsWilling {F : Type 0} (cfg : Config F) (r : Replies) : Type 0 where
  pub writer : (CanWriter.start r.tx (CanWriter.init cfg.can_iface_tx)).1 ≡ true
  pub reader : is_some (CanReader.open_socket r.rx cfg.can_iface_rx).fd ≡ true
  pub publisher : r.publisher_connected ≡ true
  pub handler : r.handler_connected ≡ true
  pub commands : (n : ℕ) × (r.subscribed ≡ answered n)
  pub diagnoses : (n : ℕ) × (r.diagnosis_subscribed ≡ answered n)

module _ (uin : String) (r : Replies) where
  pub all_join-true :
      (ms : List Module) (g : Modules)
      → ((m : Module) → r.joins m ≡ true)
      → all_join uin r ms g ≡ true
  unfolding all_join
  all_join-true [] g joins = refl
  all_join-true (m ∷ ms) g joins =
      rw (joins m, all_join-true ms (stop_module uin r m g) joins)
        (or_true (not (has_thread uin r m g)))
    where
      or_true : (b : Bool) → (b || true) && true ≡ true
      or_true true = refl
      or_true false = refl

  -- The modules once the five have started, with the handler's session.
  abbrev pub with_five : {F : Type 0} → Config F → Command.Session → Modules
  with_five cfg session = record {
    writer = (CanWriter.start r.tx (CanWriter.init cfg.can_iface_tx)).0;
    reader = Reader.opened r.rx cfg.can_iface_rx;
    publisher = on;
    handler = session;
    agent = record { config = Ota.default_config cfg.uin; worker = on };
    detector = Anomaly.init;
    events = map starts fatal_modules;
  }

module _ {N F W : Type 0} (yaml : Yaml N F) (stod : List Char → Option W) (double : DoubleOps W)
    (now : String → ℕ) (i : Inputs) where
  start_next :
      (uin : String) (signals : List (String × SignalDef W)) (m : Module) (ms : List Module)
      (g g' : Modules) (q : Queues W)
      → start_module uin i.replies m g ≡ returned g' true
      → start_all yaml stod double now i uin signals (m ∷ ms) g q
        ≡ start_all yaml stod double now i uin signals ms g' q
  unfolding start_all
  start_next uin signals m ms g g' q e =
      ap
        (λ s.
          required yaml stod double now i uin q s
            (λ g''. start_all yaml stod double now i uin signals ms g'' q))
        e

  pub start_five :
      (cfg : Config F) (signals : List (String × SignalDef W)) (q : Queues W)
      → IsWilling cfg i.replies
      → (s : Command.Session) × (start_all yaml stod double now i cfg.uin signals fatal_modules
            (create cfg.uin cfg.can_iface_rx cfg.can_iface_tx)
            q
          ≡ start_all yaml stod double now i cfg.uin signals []
              (with_five cfg.uin i.replies cfg s)
              q)
  unfolding start_module create
  start_five cfg signals q w =
      let r = i.replies in
      let g₀ = create cfg.uin cfg.can_iface_rx cfg.can_iface_tx in
      let g₁ : Modules = record g₀ {
        writer = (CanWriter.start r.tx (CanWriter.init cfg.can_iface_tx)).0;
        events = starts can_writer ∷ [];
      } in
      let g₂ : Modules = record g₁ {
        reader = Reader.opened r.rx cfg.can_iface_rx;
        events = g₁.events ++ starts can_reader ∷ [];
      } in
      let g₃ : Modules = record g₂ {
        publisher = on;
        events = g₂.events ++ starts telemetry_pub ∷ [];
      } in
      let (s, handled) =
        handler_start cfg.uin r.handler_connected r.subscribed r.diagnosis_subscribed w.commands.0
          w.diagnoses.0 w.handler w.commands.1 w.diagnoses.1 in
      let g₄ : Modules = record g₃ { handler = s; events = g₃.events ++ starts cmd_handler ∷ [] } in
      (
        s,
        start_next cfg.uin signals can_writer _ g₀ g₁ q (ap (noted can_writer _) w.writer)
            ∙ start_next cfg.uin signals can_reader _ g₁ g₂ q (
                ap (put can_reader (λ a. record g₁ { reader = a })) (
                  Reader.start_new r.rx cfg.can_iface_rx
                  ∙ ap (returned (Reader.opened r.rx cfg.can_iface_rx)) w.reader))
            ∙ start_next cfg.uin signals telemetry_pub _ g₂ g₃ q (
                ap (put telemetry_pub (λ a. record g₂ { publisher = a }))
                  (publisher_start r.publisher_connected w.publisher))
            ∙ start_next cfg.uin signals cmd_handler _ g₃ g₄ q
                (ap (put cmd_handler (λ a. record g₃ { handler = a })) handled)
            ∙ start_next cfg.uin signals ota_agent _ g₄ (with_five cfg.uin r cfg s) q (
                ap (put ota_agent (λ a. record g₄ { agent = a }))
                  (agent_start (Ota.default_config cfg.uin))),
      )
