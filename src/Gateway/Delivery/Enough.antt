-- ===== src/Gateway/Delivery/Enough.antt =====
-- How many turns are enough to deliver everything.
use sdv_edge_gateway.Gateway.Delivery.Turns.{frame_work, work}
use sdv_edge_gateway.Common.{
  ℕ, ◌+◌, ◌≤◌, ◌≡◌, refl, ap, String, Option, List, [], ◌∷◌, ◌++◌, length, length-append, arith,
}
use sdv_edge_gateway.Common.Double.{DoubleOps}
use sdv_edge_gateway.Common.Float.{FloatOps}
use sdv_edge_gateway.Types.{CanFrame, DecodedSignal}
use sdv_edge_gateway.SignalDecoder.{SignalDef, decode}
use sdv_edge_gateway.Gateway.FanOut.{decode_all, decode_all-append}
use sdv_edge_gateway.Gateway.System.{System}
use sdv_edge_gateway.Gateway.Uplink.{IsFaithful}
use sdv_edge_gateway.Gateway.Uplink.Rounds.{got_by_detector}
use sdv_edge_gateway.TelemetryPublisher.Windows.{got_by_publisher}

module _ {W F : Type 0} (double : DoubleOps W) (float : FloatOps W F) (uin : String) (threshold : F)
    (model : F → Option F) (clock : String → ℕ) (signals : List (String × SignalDef W))
    (start : ℕ) where
  -- Turns that are enough for each thread to deal with all the frames read.
  abbrev pub enough : System W → ℕ
  enough s = length s.frames_read + length (decode_all double clock signals s.frames_read)

  frame_work-decode_all :
      (frames : List CanFrame)
      → frame_work double float uin threshold model clock signals frames
        ≡ length frames + length (decode_all double clock signals frames)
  unfolding frame_work
  frame_work-decode_all [] = refl
  frame_work-decode_all (f ∷ fs) = ground (
    arith,
    frame_work-decode_all fs,
    length-append (decode double clock signals f) (decode_all double clock signals fs),
  )

  -- The parts of the frames read and of their signals, counted.
  lengths :
      (s : System W) (got : List (DecodedSignal W)) (queue : List (DecodedSignal W))
      → s.frames_read ≡ s.frames_taken ++ s.queues.can_frame_q.queue
      → decode_all double clock signals s.frames_taken ≡ got ++ (queue ++ s.in_hand)
      → enough s
        ≡ (length s.frames_taken + length s.queues.can_frame_q.queue)
          + ((length got + (length queue + length s.in_hand))
              + length (decode_all double clock signals s.queues.can_frame_q.queue))
  lengths s got queue e f = ground (
    arith,
    ap (λ l. length l) e,
    ap (λ l. length (decode_all double clock signals l)) e,
    ap (λ l. length l) f,
    length-append s.frames_taken s.queues.can_frame_q.queue,
    ap (λ l. length l)
        (decode_all-append double clock signals s.frames_taken s.queues.can_frame_q.queue),
    length-append (decode_all double clock signals s.frames_taken)
        (decode_all double clock signals s.queues.can_frame_q.queue),
    length-append got (queue ++ s.in_hand),
    length-append queue s.in_hand,
  )

  pub work-enough :
      (s : System W)
      → IsFaithful double float uin threshold model clock signals start s
      → work double float uin threshold model clock signals s ≤ enough s
  unfolding work
  work-enough s h = omega (
    arith,
    lengths s (got_by_publisher s.publisher_rounds) s.queues.telemetry_q.queue h.frames h.telemetry,
    frame_work-decode_all s.queues.can_frame_q.queue,
  )

  pub telemetry-enough :
      (s : System W)
      → IsFaithful double float uin threshold model clock signals start s
      → length s.queues.telemetry_q.queue ≤ enough s
  telemetry-enough s h = omega (
    arith,
    lengths s (got_by_publisher s.publisher_rounds) s.queues.telemetry_q.queue h.frames h.telemetry,
  )

  pub anomalies-enough :
      (s : System W)
      → IsFaithful double float uin threshold model clock signals start s
      → length s.queues.anomaly_q.queue ≤ enough s
  anomalies-enough s h = omega (
    arith,
    lengths s (got_by_detector s.detector_rounds) s.queues.anomaly_q.queue h.frames h.anomalies,
  )
