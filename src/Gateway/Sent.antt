-- ===== src/Gateway/Sent.antt =====
-- From the bus to the cloud: which messages the frames read have led to, in any interleaving.
use sdv_edge_gateway.Common.{
  ℕ, ◌≡◌, ◌≢◌, ap, ◌∙◌, String, Option, List, [], ◌++◌, map, append_assoc, All, Holds, Holds-map,
}
use sdv_edge_gateway.Common.Double.{DoubleOps}
use sdv_edge_gateway.Common.Float.{FloatOps}
use sdv_edge_gateway.Types.{DecodedSignal}
use sdv_edge_gateway.SignalDecoder.{SignalDef}
use sdv_edge_gateway.TelemetryPublisher as Telemetry
use sdv_edge_gateway.TelemetryPublisher.{Publisher}
use sdv_edge_gateway.TelemetryPublisher.Snapshot as Snapshot
use sdv_edge_gateway.TelemetryPublisher.Windows.{
  Window, in_order, covered, message_of, run-IsReported,
}
use sdv_edge_gateway.Gateway.FanOut.{decode_all}
use sdv_edge_gateway.Gateway.System.{System, Action, initial, system_run}
use sdv_edge_gateway.Gateway.Uplink.{IsFaithful, uplink}

module _ {W F : Type 0} (double : DoubleOps W) (float : FloatOps W F) (uin : String) (threshold : F)
    (model : F → Option F) (clock : String → ℕ) (signals : List (String × SignalDef W))
    (start : ℕ) where
  -- The frames read are those decoded and those that wait; the signals decoded are those of the
  -- windows, those in the accumulators, and those on their way; and the messages handed to the client
  -- are those of the windows.
  pub record IsSent (s : System W) : Type 0 where
    pub windows : List (Window W)
    pub rest : List (DecodedSignal W)
    pub frames : s.frames_read ≡ s.frames_taken ++ s.queues.can_frame_q.queue
    pub partition :
        decode_all double clock signals s.frames_taken
        ≡ covered windows ++ (in_order rest ++ (s.queues.telemetry_q.queue ++ s.in_hand))
    pub messages : s.publisher.published ≡ map (message_of double uin) windows
    pub nonempty : All (λ (w : Window W). w.signals ≢ []) windows
    pub held : Snapshot.Holds double uin rest s.publisher

  faithful-IsSent :
      (s : System W) → IsFaithful double float uin threshold model clock signals start s → IsSent s
  unfolding Telemetry.init
  faithful-IsSent s h =
      let told = run-IsReported double uin start s.publisher_rounds in
      record {
        windows = told.windows;
        rest = told.rest;
        frames = h.frames;
        partition =
            h.telemetry
            ∙ ap (λ l. l ++ (s.queues.telemetry_q.queue ++ s.in_hand)) told.partition
            ∙ append_assoc (covered told.windows) (in_order told.rest) _;
        messages = ap (λ (p : Publisher W). p.published) h.publisher ∙ told.messages;
        nonempty = told.nonempty;
        held = rw h.publisher told.held;
      }

  -- Whatever the interleaving of the uplink's threads, unless an exception of the ONNX session has
  -- ended the process: the signals decoded from the frames taken off the bus fall, in order, into
  -- consecutive windows that are not empty, those that the publisher still accumulates, and those on
  -- their way to it; and the telemetry messages handed to the client are those of the windows, one
  -- for each and in order, with the newest value in the window of each signal.
  pub system_run-IsSent :
      (actions : List Action)
      → Holds IsSent
          (system_run double float uin threshold model clock signals (initial start) actions)
  system_run-IsSent actions =
      Holds-map (IsFaithful double float uin threshold model clock signals start) IsSent
        (system_run double float uin threshold model clock signals (initial start) actions)
        (uplink double float uin threshold model clock signals start actions) faithful-IsSent
