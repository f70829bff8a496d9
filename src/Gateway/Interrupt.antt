-- ===== src/Gateway/Interrupt.antt =====
-- `g_running` of src/main.cpp, its signal handler, and the loop of step 8 that tests it. The signal
-- comes, and CanReader's thread pushes frames, between any two of the loop's turns.
pub mod Rounds
pub mod Prompt
use sdv_edge_gateway.Common.{
  ℕ, ◌+◌, ◌*◌, ◌/◌, ◌≤◌, ◌≡◌, ◌≢◌, refl, ap, subst, suc, ◌∙◌, String, Bool, true, false, List, [],
  ◌∷◌, ◌++◌, arith, length, if◌then◌else◌,
}
use sdv_edge_gateway.Common.Double.{DoubleOps}
use sdv_edge_gateway.Types.{CanFrame}
use sdv_edge_gateway.SafeQueue.{push}
use sdv_edge_gateway.SignalDecoder.{SignalDef}
use sdv_edge_gateway.Worker.{Place, testing, in_body, left}
use sdv_edge_gateway.Gateway.{Queues, push_frames, decode_step}

pub record MainLoop (W : Type 0) : Type 0 where
  pub g_running : Bool
  pub place : Place
  pub queues : Queues W

pub data Occurrence : Type 0 where
  interrupts : Occurrence
  arrives : CanFrame → Occurrence
  turns : Occurrence

module _ {W : Type 0} where
  unfoldable pub entered : Queues W → MainLoop W
  entered q = record { g_running = true; place = testing; queues = q }

  unfoldable pub signal_handler : MainLoop W → MainLoop W
  signal_handler s = record s { g_running = false }

module _ {W : Type 0} (double : DoubleOps W) (now : String → ℕ)
    (signals : List (String × SignalDef W)) where
  -- The test, or the body.
  loop_turn : Place → MainLoop W → MainLoop W
  loop_turn testing s = record s { place = if s.g_running then in_body else left }
  loop_turn in_body s = record s {
    place = testing;
    queues = decode_step double now signals s.queues;
  }
  loop_turn left s = s

  unfoldable pub loop_step : Occurrence → MainLoop W → MainLoop W
  unfolding loop_turn signal_handler
  loop_step interrupts s = signal_handler s
  loop_step (arrives frame) s = record s { queues = push_frames (frame ∷ []) s.queues }
  loop_step turns s = loop_turn s.place s

  unfoldable pub loop_run : List Occurrence → MainLoop W → MainLoop W
  loop_run [] s = s
  loop_run (o ∷ os) s = loop_run os (loop_step o s)
