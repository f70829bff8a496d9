-- ===== src/Gateway.antt =====
-- src/main.cpp: the decode loop, and the names and orders of the modules. The configuration, the
-- modules' states and `main` itself are in the modules below.
pub mod FanOut
pub mod Config
pub mod Modules
pub mod Main
pub mod Interrupt
pub mod Shutdown
pub mod Course
pub mod Status
pub mod Success
pub mod System
pub mod Uplink
pub mod Sent
pub mod Delivery
pub mod Downlink
pub mod Updates
pub mod Completion
use sdv_edge_gateway.Common.{
  ℕ, String, Bool, true, false, Option, none, some, List, [], ◌∷◌, ◌++◌, if◌then◌else◌,
}
use sdv_edge_gateway.Common.Double.{DoubleOps}
use sdv_edge_gateway.Types.{CanFrame, DecodedSignal}
use sdv_edge_gateway.SafeQueue.{SafeQueue, push, pop_for}
use sdv_edge_gateway.SignalDecoder.{SignalDef, decode}

-- The three queues of the decode stage.
pub record Queues (W : Type 0) : Type 0 where
  pub can_frame_q : SafeQueue CanFrame
  pub telemetry_q : SafeQueue (DecodedSignal W)
  pub anomaly_q : SafeQueue (DecodedSignal W)

module _ {W : Type 0} where
  -- The fan-out of one frame's signals.
  unfoldable pub fan_out : List (DecodedSignal W) → Queues W → Queues W
  fan_out [] q = q
  fan_out (s ∷ decoded) q =
      fan_out decoded
        (record q { telemetry_q = push q.telemetry_q s; anomaly_q = push q.anomaly_q s })

  -- What CanReader's thread pushes before a round.
  abbrev pub push_frames : List CanFrame → Queues W → Queues W
  push_frames [] q = q
  push_frames (frame ∷ frames) q =
      push_frames frames (record q { can_frame_q = push q.can_frame_q frame })

module _ {W : Type 0} (double : DoubleOps W) (now : String → ℕ)
    (signals : List (String × SignalDef W)) where
  abbrev pub decode_frame : Option CanFrame → Queues W → Queues W
  decode_frame none q = q
  decode_frame (some frame) q = fan_out (decode double now signals frame) q

  -- One round of the decode loop; a timeout gives no frame.
  unfoldable pub decode_step : Queues W → Queues W
  decode_step q =
      let (frames, popped) = pop_for q.can_frame_q in
      decode_frame popped (record q { can_frame_q = frames })

  -- The rounds of the loop until `g_running` is false, each after the frames that came before it.
  unfoldable pub decode_loop : List (List CanFrame) → Queues W → Queues W
  decode_loop [] q = q
  decode_loop (arrived ∷ rounds) q = decode_loop rounds (decode_step (push_frames arrived q))

pub data Module : Type 0 where
  can_writer can_reader telemetry_pub cmd_handler ota_agent anomaly_det : Module

pub data Event : Type 0 where
  starts stops : Module → Event
  disconnects : Event

-- The modules, the last one made first: the destructors stop them all in this order.
abbrev pub destructors : List Module
destructors = anomaly_det ∷ ota_agent ∷ cmd_handler ∷ telemetry_pub ∷ can_writer ∷ can_reader ∷ []

-- The order of the graceful shutdown, step 9.
abbrev pub shutdown_order : List Module
shutdown_order =
    anomaly_det ∷ ota_agent ∷ cmd_handler ∷ telemetry_pub ∷ can_reader ∷ can_writer ∷ []

-- The modules that must start, in their order.
abbrev pub fatal_modules : List Module
fatal_modules = can_writer ∷ can_reader ∷ telemetry_pub ∷ cmd_handler ∷ ota_agent ∷ []
