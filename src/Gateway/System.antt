-- ===== src/Gateway/System.antt =====
-- The uplink as the threads that it is: CanReader's thread, the decode loop of src/main.cpp, the
-- publisher's thread and the detector's, joined by the three queues.
--
-- An action is what one thread does between two operations on a queue that others use, so a list of
-- actions is an interleaving of the threads. The fan-out is an action for each signal: between its
-- two pushes no thread reads both queues. What a thread pops is what the queue holds when it pops.
use sdv_edge_gateway.Common.{◌>>=◌, ℕ, String, Option, none, some, List, [], ◌∷◌, ◌++◌}
use sdv_edge_gateway.Common.Double.{DoubleOps}
use sdv_edge_gateway.Common.Float.{FloatOps}
use sdv_edge_gateway.Types.{CanFrame, DecodedSignal}
use sdv_edge_gateway.SafeQueue.{empty, push, pop_for, delivered?}
use sdv_edge_gateway.CanReader
use sdv_edge_gateway.CanReader.Frames.{received}
use sdv_edge_gateway.SignalDecoder.{SignalDef, decode}
use sdv_edge_gateway.TelemetryPublisher as Telemetry
use sdv_edge_gateway.TelemetryPublisher.{Publisher}
use sdv_edge_gateway.AnomalyDetector as Anomaly
use sdv_edge_gateway.AnomalyDetector.{Detector, goes_on, terminated}
use sdv_edge_gateway.Gateway.{Queues}

-- The threads' states and the queues; `in_hand` are the signals that the decode loop has decoded and
-- not yet pushed. The last four fields record what has happened, and nothing reads them.
pub record System (W : Type 0) : Type 0 where
  pub queues : Queues W
  pub in_hand : List (DecodedSignal W)
  pub publisher : Publisher W
  pub detector : Detector W
  pub frames_read : List CanFrame
  pub frames_taken : List CanFrame
  pub publisher_rounds : List (Telemetry.Round W)
  pub detector_rounds : List (Option (DecodedSignal W) × ℕ)

pub data Action : Type 0 where
  reads : CanReader.Round → Action
  decodes : Action
  publishes : (now system_now reset_now : ℕ) → Action
  judges : (now : ℕ) → Action

-- All queues are empty, and the publisher was made at the time `now`.
unfoldable pub initial : {W : Type 0} → (now : ℕ) → System W
initial now = record {
  queues = record { can_frame_q = empty; telemetry_q = empty; anomaly_q = empty };
  in_hand = [];
  publisher = Telemetry.init now;
  detector = record { published = [] };
  frames_read = [];
  frames_taken = [];
  publisher_rounds = [];
  detector_rounds = [];
}

module _ {W F : Type 0} (double : DoubleOps W) (float : FloatOps W F) (uin : String) (threshold : F)
    (model : F → Option F) (clock : String → ℕ) (signals : List (String × SignalDef W)) where
  -- CanReader's thread: a call of ::read, and the push of a whole frame.
  unfoldable pub reader_step : CanReader.Round → System W → System W
  reader_step r s = record s {
    queues = record (s.queues) { can_frame_q = CanReader.step s.queues.can_frame_q r };
    frames_read = s.frames_read ++ received r;
  }

  -- The frame that the decode loop got, if it got one.
  abbrev pub decoded : Option CanFrame → List (DecodedSignal W)
  decoded none = []
  decoded (some frame) = decode double clock signals frame

  -- The decode loop: it pushes the next signal in hand, or takes the next frame and decodes it.
  unfoldable pub decoder_step : List (DecodedSignal W) → System W → System W
  decoder_step [] s =
      let (frames, popped) = pop_for s.queues.can_frame_q in
      record s {
        queues = record (s.queues) { can_frame_q = frames };
        in_hand = decoded popped;
        frames_taken = s.frames_taken ++ delivered? popped;
      }
  decoder_step (signal ∷ rest) s = record s {
    queues = record (s.queues) {
      telemetry_q = push s.queues.telemetry_q signal;
      anomaly_q = push s.queues.anomaly_q signal;
    };
    in_hand = rest;
  }

  -- A round of the publisher's thread.
  unfoldable pub publisher_step : (now system_now reset_now : ℕ) → System W → System W
  publisher_step now system_now reset_now s =
      let (q, popped) = pop_for s.queues.telemetry_q in
      let r : Telemetry.Round W = record {
        popped = popped;
        now = now;
        system_now = system_now;
        reset_now = reset_now;
      } in
      record s {
        queues = record (s.queues) { telemetry_q = q };
        publisher = Telemetry.step double uin s.publisher r;
        publisher_rounds = s.publisher_rounds ++ r ∷ [];
      }

  -- After a round of the detector's thread; `none`: an exception has ended the process.
  abbrev pub judged : System W → Anomaly.Outcome W → Option (System W)
  judged s (goes_on d) = some (record s { detector = d })
  judged s (terminated d) = none

  unfoldable pub detector_step : (now : ℕ) → System W → Option (System W)
  detector_step now s =
      let (q, popped) = pop_for s.queues.anomaly_q in
      judged
        (record s {
          queues = record (s.queues) { anomaly_q = q };
          detector_rounds = s.detector_rounds ++ (popped, now) ∷ [];
        })
        (Anomaly.step double float uin threshold model s.detector (popped, now))

  unfoldable pub system_step : System W → Action → Option (System W)
  system_step s (reads r) = some (reader_step r s)
  system_step s decodes = some (decoder_step s.in_hand s)
  system_step s (publishes now system_now reset_now) =
      some (publisher_step now system_now reset_now s)
  system_step s (judges now) = detector_step now s

  -- The actions of an interleaving, in its order.
  unfoldable pub system_run : System W → List Action → Option (System W)
  system_run s [] = some s
  system_run s (a ∷ actions) = system_step s a >>= λ s'. system_run s' actions
