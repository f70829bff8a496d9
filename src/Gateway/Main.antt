-- ===== src/Gateway/Main.antt =====
-- `main` of src/main.cpp, from the configuration to the exit status. It is written from its last step
-- to its first, each as a function that ends the process or goes on. The connection's own members
-- and options are the client's, which is third-party code; the lines for the console are left out.
use Prim.Native.Char.{Char}
use sdv_edge_gateway.Common.{ℕ, String, Bool, true, false, Option, none, some, List, [], ◌∷◌, ◌++◌}
use sdv_edge_gateway.Common.Double.{DoubleOps}
use sdv_edge_gateway.Types.{CanFrame}
use sdv_edge_gateway.Mqtt.{Ack, answered, never, throws}
use sdv_edge_gateway.SafeQueue.{empty}
use sdv_edge_gateway.SignalDecoder.{SignalDef}
use sdv_edge_gateway.SignalDecoder.Load.{Loaded, load}
use sdv_edge_gateway.Worker.{Started, returned, hangs, terminated}
use sdv_edge_gateway.Gateway.{
  Queues, decode_loop, Module, anomaly_det, disconnects, destructors, shutdown_order, fatal_modules,
}
use sdv_edge_gateway.Gateway.Config.{Yaml, Config, config_path, read_config}
use sdv_edge_gateway.Gateway.Modules.{Modules, Replies, create, start_module, stop_all, all_join}

-- How `main` ends: with an exit status, not at all, or by an uncaught exception or std::terminate.
pub data Ended : Type 0 where
  exits : ℕ → Ended
  waits_forever : Ended
  aborts : Ended

-- The modules and the queues, where `main` got as far as making them.
pub record Run (W : Type 0) : Type 0 where
  pub modules : Option Modules
  pub queues : Option (Queues W)
  pub ended : Ended

-- What `main` finds: its argument, whether the client can be made, the broker's answers, the files
-- by their paths, the modules' answers, and the frames that come before each round of the loop until
-- a signal clears `g_running`.
pub record Inputs : Type 0 where
  pub argument : Option String
  pub client_created : Bool
  pub connected : Ack
  pub files : String → Option (List Char)
  pub replies : Replies
  pub rounds : List (List CanFrame)
  pub disconnected : Ack

module _ {N F W : Type 0} (yaml : Yaml N F) (stod : List Char → Option W) (double : DoubleOps W)
    (now : String → ℕ) (i : Inputs) where
  abbrev pub early : Ended → Run W
  early ended = record { modules = none; queues = none; ended = ended }

  -- What comes after some stops, if they all return; if not, the modules are given as the first of
  -- the stops found them.
  abbrev pub joined : Bool → Modules → Queues W → (next : Run W) → Run W
  joined true g q next = next
  joined false g q next = record { modules = some g; queues = some q; ended = waits_forever }

  -- `return` from a point where the modules exist: their destructors run.
  unfoldable pub leave : String → ℕ → Modules → Queues W → Run W
  leave uin status g q = joined (all_join uin i.replies destructors g) g q (record {
    modules = some (stop_all uin i.replies destructors g);
    queues = some q;
    ended = exits status;
  })

  -- The end of step 9: `disconnect()->wait()`, whose exception is caught.
  unfoldable pub disconnect : Ack → String → Modules → Queues W → Run W
  unfolding leave
  disconnect never uin g q = record { modules = some g; queues = some q; ended = waits_forever }
  disconnect _ uin g q = leave uin 0 g q

  -- Steps 8 and 9.
  unfoldable pub loop_stage : String → List (String × SignalDef W) → Modules → Queues W → Run W
  unfolding disconnect
  loop_stage uin signals g q =
      let q' = decode_loop double now signals i.rounds q in
      let g' = stop_all uin i.replies shutdown_order g in
      joined (all_join uin i.replies shutdown_order g) g q'
        (disconnect i.disconnected uin (record g' { events = g'.events ++ disconnects ∷ [] }) q')

  -- A start of step 6 that must succeed, and what comes after it.
  abbrev pub required : String → Queues W → Started Modules → (next : Modules → Run W) → Run W
  required uin q (returned g true) next = next g
  required uin q (returned g false) next = leave uin 1 g q
  required uin q (hangs g) next = record {
    modules = some g;
    queues = some q;
    ended = waits_forever;
  }
  required uin q (terminated g) next = record { modules = some g; queues = some q; ended = aborts }

  -- The anomaly detector's start may fail.
  abbrev pub tried : String → Queues W → Started Modules → (next : Modules → Run W) → Run W
  tried uin q (returned g ok) next = next g
  tried uin q (hangs g) next = record { modules = some g; queues = some q; ended = waits_forever }
  tried uin q (terminated g) next = record { modules = some g; queues = some q; ended = aborts }

  -- Step 6.
  unfoldable pub start_all :
      String → List (String × SignalDef W) → List Module → Modules → Queues W → Run W
  unfolding leave loop_stage
  start_all uin signals [] g q =
      tried uin q (start_module uin i.replies anomaly_det g) λ g'. loop_stage uin signals g' q
  start_all uin signals (m ∷ ms) g q =
      required uin q (start_module uin i.replies m g) λ g'. start_all uin signals ms g' q

  -- Step 3, before the modules that use the queues.
  abbrev pub no_queues : Queues W
  no_queues = record { can_frame_q = empty; telemetry_q = empty; anomaly_q = empty }

  -- Steps 4 to 9, by how the decoder's `load` ended.
  unfoldable pub decoder_stage : Config F → Loaded W → Run W
  unfolding start_all create
  decoder_stage cfg (Loaded.returns false signals) = early (exits 1)
  decoder_stage cfg (Loaded.returns true signals) =
      start_all cfg.uin signals fatal_modules (create cfg.uin cfg.can_iface_rx cfg.can_iface_tx)
        no_queues
  decoder_stage cfg Loaded.throws = early aborts

  -- Step 2: the client's constructor is outside of the try block, `connect()->wait()` within it.
  unfoldable pub connect_stage : Config F → Ack → Run W
  unfolding decoder_stage load
  connect_stage cfg (answered n) =
      decoder_stage cfg (load stod cfg.signal_names (i.files cfg.dbc_path) [])
  connect_stage cfg never = early waits_forever
  connect_stage cfg (throws n) = early (exits 1)

  abbrev pub client_stage : Config F → (created : Bool) → Run W
  client_stage cfg false = early aborts
  client_stage cfg true = connect_stage cfg i.connected

  abbrev pub configured : Option (Config F) → Run W
  configured none = early aborts
  configured (some cfg) = client_stage cfg i.client_created

  -- Step 1.
  abbrev pub read : Option N → Run W
  read none = early (exits 1)
  read (some node) = configured (read_config yaml node)

  unfoldable pub main : Run W
  unfolding connect_stage read_config
  main = read (yaml.load_file (config_path i.argument))
