-- ===== src/Gateway/Uplink.antt =====
-- What becomes of a frame on its way to the cloud, whatever the interleaving of the threads.
pub mod Rounds
use Rounds.{
  got_by_detector, got_by_publisher-snoc, got_by_detector-snoc, split_front, push_back, refill,
  publisher_run-snoc, detector_run-snoc,
}
use mathlib.Core.Path.{fun_ext}
use sdv_edge_gateway.Common.{
  Holds, Holds-bind, ℕ, ◌≡◌, refl, sym, ap, ap₂, ◌∙◌, String, Option, none, some, List, [], ◌∷◌,
  ◌++◌, append-nil, append_assoc,
}
use sdv_edge_gateway.Common.Double.{DoubleOps}
use sdv_edge_gateway.Common.Float.{FloatOps}
use sdv_edge_gateway.Types.{CanFrame, DecodedSignal}
use sdv_edge_gateway.SafeQueue.{empty, push, pop_for, delivered?}
use sdv_edge_gateway.SafeQueue.Fifo.{pop_for-front}
use sdv_edge_gateway.CanReader
use sdv_edge_gateway.CanReader.Frames.{received, step-received}
use sdv_edge_gateway.SignalDecoder.{SignalDef, decode}
use sdv_edge_gateway.TelemetryPublisher as Telemetry
use sdv_edge_gateway.TelemetryPublisher.{Publisher}
use sdv_edge_gateway.TelemetryPublisher.Windows.{got_by_publisher}
use sdv_edge_gateway.AnomalyDetector as Anomaly
use sdv_edge_gateway.AnomalyDetector.{Detector, goes_on, terminated, and_then}
use sdv_edge_gateway.Gateway.FanOut.{decode_all, decode_all-append}
use sdv_edge_gateway.Gateway.System.{
  System, Action, reads, decodes, publishes, judges, initial, reader_step, decoded, decoder_step,
  publisher_step, judged, detector_step, system_step, system_run,
}

module _ {W F : Type 0} (double : DoubleOps W) (float : FloatOps W F) (uin : String) (threshold : F)
    (model : F → Option F) (clock : String → ℕ) (signals : List (String × SignalDef W))
    (start : ℕ) where
  -- No frame and no signal is lost, made up, doubled or reordered between the threads, and each
  -- consumer is in the state that its rounds alone lead to.
  pub record IsFaithful (s : System W) : Type 0 where
    pub frames : s.frames_read ≡ s.frames_taken ++ s.queues.can_frame_q.queue
    pub telemetry :
        decode_all double clock signals s.frames_taken
        ≡ got_by_publisher s.publisher_rounds ++ (s.queues.telemetry_q.queue ++ s.in_hand)
    pub anomalies :
        decode_all double clock signals s.frames_taken
        ≡ got_by_detector s.detector_rounds ++ (s.queues.anomaly_q.queue ++ s.in_hand)
    pub publisher : s.publisher ≡ Telemetry.run double uin (Telemetry.init start) s.publisher_rounds
    pub detector :
        Anomaly.run double float uin threshold model (record { published = [] }) s.detector_rounds
        ≡ goes_on s.detector

  initial-IsFaithful : IsFaithful (initial start)
  unfolding initial empty Telemetry.run Anomaly.run
  initial-IsFaithful = record {
    frames = refl;
    telemetry = refl;
    anomalies = refl;
    publisher = refl;
    detector = refl;
  }

  reader_step-IsFaithful :
      (r : CanReader.Round) (s : System W)
      → IsFaithful s
      → IsFaithful (reader_step double float uin threshold model clock signals r s)
  unfolding reader_step
  reader_step-IsFaithful r s h = record {
    frames =
        ap (λ l. l ++ received r) h.frames
        ∙ append_assoc s.frames_taken s.queues.can_frame_q.queue (received r)
        ∙ ap (◌++◌ s.frames_taken) (sym (step-received s.queues.can_frame_q r));
    telemetry = h.telemetry;
    anomalies = h.anomalies;
    publisher = h.publisher;
    detector = h.detector;
  }

  decoded-decode_all :
      (popped : Option CanFrame)
      → decode_all double clock signals (delivered? popped)
        ≡ decoded double float uin threshold model clock signals popped
  decoded-decode_all none = refl
  decoded-decode_all (some frame) = append-nil (decode double clock signals frame)

  decoder_step-IsFaithful :
      (hand : List (DecodedSignal W)) (s : System W)
      → s.in_hand ≡ hand
      → IsFaithful s
      → IsFaithful (decoder_step double float uin threshold model clock signals hand s)
  unfolding decoder_step push
  decoder_step-IsFaithful [] s e h =
      let popped = (pop_for s.queues.can_frame_q).1 in
      let left = (pop_for s.queues.can_frame_q).0 in
      let next = decode_all-append double clock signals s.frames_taken (delivered? popped) in
      record {
        frames =
            h.frames
            ∙ ap (◌++◌ s.frames_taken) (pop_for-front s.queues.can_frame_q _ refl)
            ∙ sym (append_assoc s.frames_taken (delivered? popped) left.queue);
        telemetry =
            next
            ∙ refill _ (got_by_publisher s.publisher_rounds) s.queues.telemetry_q.queue s.in_hand _
                _ h.telemetry e (decoded-decode_all popped);
        anomalies =
            next
            ∙ refill _ (got_by_detector s.detector_rounds) s.queues.anomaly_q.queue s.in_hand _ _
                h.anomalies e (decoded-decode_all popped);
        publisher = h.publisher;
        detector = h.detector;
      }
  decoder_step-IsFaithful (signal ∷ rest) s e h = record {
    frames = h.frames;
    telemetry =
        push_back _ (got_by_publisher s.publisher_rounds) s.queues.telemetry_q.queue rest s.in_hand
          signal h.telemetry e;
    anomalies =
        push_back _ (got_by_detector s.detector_rounds) s.queues.anomaly_q.queue rest s.in_hand
          signal h.anomalies e;
    publisher = h.publisher;
    detector = h.detector;
  }

  publisher_step-IsFaithful :
      (now system_now reset_now : ℕ) (s : System W)
      → IsFaithful s
      → IsFaithful
          (publisher_step double float uin threshold model clock signals now system_now reset_now s)
  unfolding publisher_step
  publisher_step-IsFaithful now system_now reset_now s h =
      let r : Telemetry.Round W = record {
        popped = (pop_for s.queues.telemetry_q).1;
        now = now;
        system_now = system_now;
        reset_now = reset_now;
      } in
      record {
        frames = h.frames;
        telemetry =
            split_front _ (got_by_publisher s.publisher_rounds) (delivered? r.popped) _ s.in_hand
              s.queues.telemetry_q.queue h.telemetry (pop_for-front s.queues.telemetry_q _ refl)
            ∙ ap (λ l. l ++ ((pop_for s.queues.telemetry_q).0.queue ++ s.in_hand))
                (sym (got_by_publisher-snoc s.publisher_rounds r));
        anomalies = h.anomalies;
        publisher =
            ap (λ p. Telemetry.step double uin p r) h.publisher
            ∙ sym (publisher_run-snoc double uin (Telemetry.init start) s.publisher_rounds r);
        detector = h.detector;
      }

  judged-IsFaithful :
      (now : ℕ) (s : System W) (o : Anomaly.Outcome W)
      → IsFaithful s
      → Anomaly.step double float uin threshold model s.detector
          ((pop_for s.queues.anomaly_q).1, now)
        ≡ o
      → Holds IsFaithful (
          judged double float uin threshold model clock signals
            (record s {
              queues = record (s.queues) { anomaly_q = (pop_for s.queues.anomaly_q).0 };
              detector_rounds = s.detector_rounds ++ ((pop_for s.queues.anomaly_q).1, now) ∷ [];
            })
            o)
  judged-IsFaithful now s (terminated d) h e = tt
  judged-IsFaithful now s (goes_on d) h e =
      let popped = (pop_for s.queues.anomaly_q).1 in
      record {
        frames = h.frames;
        telemetry = h.telemetry;
        anomalies =
            split_front _ (got_by_detector s.detector_rounds) (delivered? popped) _ s.in_hand
              s.queues.anomaly_q.queue h.anomalies (pop_for-front s.queues.anomaly_q _ refl)
            ∙ ap (λ l. l ++ ((pop_for s.queues.anomaly_q).0.queue ++ s.in_hand))
                (sym (got_by_detector-snoc s.detector_rounds popped now));
        publisher = h.publisher;
        detector =
            detector_run-snoc double float uin threshold model (record { published = [] })
              s.detector_rounds (popped, now)
            ∙ ap
                (λ o.
                  and_then double float uin threshold o
                    (λ d'. Anomaly.step double float uin threshold model d' (popped, now)))
                h.detector
            ∙ e;
      }

  system_step-IsFaithful :
      (s : System W) (a : Action)
      → IsFaithful s
      → Holds IsFaithful (system_step double float uin threshold model clock signals s a)
  unfolding system_step detector_step
  system_step-IsFaithful s (reads r) h = reader_step-IsFaithful r s h
  system_step-IsFaithful s decodes h = decoder_step-IsFaithful s.in_hand s refl h
  system_step-IsFaithful s (publishes now system_now reset_now) h =
      publisher_step-IsFaithful now system_now reset_now s h
  system_step-IsFaithful s (judges now) h = judged-IsFaithful now s _ h refl

  pub system_run-IsFaithful :
      (s : System W) (actions : List Action)
      → IsFaithful s
      → Holds IsFaithful (system_run double float uin threshold model clock signals s actions)
  unfolding system_run
  system_run-IsFaithful s [] h = h
  system_run-IsFaithful s (a ∷ actions) h =
      Holds-bind IsFaithful IsFaithful
        (system_step double float uin threshold model clock signals s a) _
        (system_step-IsFaithful s a h) (λ s' h'. system_run-IsFaithful s' actions h')

  -- Whatever the interleaving of CanReader's thread, the decode loop, the publisher's thread and the
  -- detector's, unless an exception of the ONNX session has ended the process: the frames read are
  -- those that were decoded and then those still queued, in order; the decoded signals, frame by frame
  -- and in order, are those that the publisher got and then those on the way to it, and they are those
  -- that the detector got and then those on the way to it; and the publisher and the detector are in
  -- the states that their loops lead to on just the signals that they got.
  pub uplink :
      (actions : List Action)
      → Holds IsFaithful
          (system_run double float uin threshold model clock signals (initial start) actions)
  uplink actions = system_run-IsFaithful (initial start) actions initial-IsFaithful
