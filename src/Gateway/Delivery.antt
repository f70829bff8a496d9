-- ===== src/Gateway/Delivery.antt =====
-- Once no more frames come, the threads of the uplink deliver everything.
pub mod Turns
pub mod Enough
use Enough.{enough, work-enough, telemetry-enough, anomalies-enough}
use Turns.{
  decodes_in, publishes_in, judges_in, ReadsNothing, frame_work, work, IsNearer,
  system_run-IsNearer,
}
use mathlib.Core.Path.{fun_ext}
use sdv_edge_gateway.Common.{
  ◌>>=◌, ℕ, zero, suc, ◌+◌, ◌≤◌, ◌≡◌, ◌⊎◌, inl, inr, refl, sym, ap, ◌∙◌, String, Option, none, some,
  List, [], ◌∷◌, ◌++◌, append-nil, length, length-append, arith, subst, Holds, HasResult,
  HasResult-bind, HasResult-map, HasResult-Holds, bind_assoc,
}
use sdv_edge_gateway.Common.Double.{DoubleOps}
use sdv_edge_gateway.Common.Float.{FloatOps}
use sdv_edge_gateway.Types.{CanFrame, DecodedSignal}
use sdv_edge_gateway.Mqtt.{Message}
use sdv_edge_gateway.SignalDecoder.{SignalDef, decode}
use sdv_edge_gateway.TelemetryPublisher as Telemetry
use sdv_edge_gateway.AnomalyDetector as Anomaly
use sdv_edge_gateway.AnomalyDetector.{Outcome, goes_on, terminated, run_inference}
use sdv_edge_gateway.AnomalyDetector.Alerts.{alerts, run-alerts}
use sdv_edge_gateway.Gateway.FanOut.{decode_all, decode_all-append}
use sdv_edge_gateway.Gateway.System.{System, Action, initial, system_step, system_run}
use sdv_edge_gateway.Gateway.Uplink.{IsFaithful, system_run-IsFaithful, uplink}
use sdv_edge_gateway.Gateway.Uplink.Rounds.{got_by_detector}
use sdv_edge_gateway.TelemetryPublisher.Windows.{got_by_publisher}

module _ {W F : Type 0} (double : DoubleOps W) (float : FloatOps W F) (uin : String) (threshold : F)
    (model : F → Option F) (clock : String → ℕ) (signals : List (String × SignalDef W))
    (start : ℕ) where
  abbrev Faithful : System W → Type 0
  Faithful = IsFaithful double float uin threshold model clock signals start

  abbrev run_system : System W → List Action → Option (System W)
  run_system = system_run double float uin threshold model clock signals

  run_system-append :
      (s : System W) (first second : List Action)
      → run_system s (first ++ second) ≡ (run_system s first >>= λ s'. run_system s' second)
  unfolding system_run
  run_system-append s [] second = refl
  run_system-append s (a ∷ first) second =
      ap (λ k. system_step double float uin threshold model clock signals s a >>= k)
        (fun_ext λ s'. run_system-append s' first second)
      ∙ sym (bind_assoc (system_step double float uin threshold model clock signals s a) _ _)

  -- All that was read is delivered: no frame waits, the publisher and the detector have got exactly
  -- the signals of all frames, and the alerts are those of the signals over the threshold.
  pub record IsDelivered (score : DecodedSignal W → F) (s s' : System W) : Type 0 where
    pub frames : (s'.frames_read ≡ s.frames_read) × (s'.frames_taken ≡ s.frames_read)
    pub telemetry :
        got_by_publisher s'.publisher_rounds ≡ decode_all double clock signals s.frames_read
    pub anomalies :
        got_by_detector s'.detector_rounds ≡ decode_all double clock signals s.frames_read
    pub publisher :
        s'.publisher ≡ Telemetry.run double uin (Telemetry.init start) s'.publisher_rounds
    pub alerted : s'.detector.published ≡ alerts double float uin threshold score s'.detector_rounds

  abbrev alerts_of : Outcome W → List (Message W)
  alerts_of (goes_on d) = d.published
  alerts_of (terminated d) = d.published

  nothing_left : {A : Type 0} (l : List A) → length l ≡ 0 → l ≡ []
  nothing_left [] e = refl
  nothing_left (x ∷ l) e = absurd (ground (arith, e))

  no_frames :
      (frames : List CanFrame)
      → frame_work double float uin threshold model clock signals frames ≡ 0
      → frames ≡ []
  unfolding frame_work
  no_frames [] e = refl
  no_frames (f ∷ fs) e = absurd (ground (arith, e))

  all_got :
      {A : Type 0} (all got queue hand : List A)
      → all ≡ got ++ (queue ++ hand)
      → length queue ≡ 0
      → length hand ≡ 0
      → got ≡ all
  all_got all got queue hand e q h = sym (
      e
      ∙ ap (λ l. got ++ (l ++ hand)) (nothing_left queue q)
      ∙ ap (◌++◌ got) (nothing_left hand h)
      ∙ append-nil got)

  module _ (score : DecodedSignal W → F)
      (answers : (s : DecodedSignal W) → run_inference float model s ≡ some (score s)) where
    settled :
        (s s' : System W)
        → s'.frames_read ≡ s.frames_read
        → work double float uin threshold model clock signals s' ≡ 0
        → length s'.queues.telemetry_q.queue ≡ 0
        → length s'.queues.anomaly_q.queue ≡ 0
        → Faithful s'
        → IsDelivered score s s'
    unfolding work frame_work
    settled s s' same w t a h =
        let idle : length s'.in_hand ≡ 0 = omega (arith, w) in
        let taken : s'.frames_taken ≡ s.frames_read =
          sym (
            h.frames
            ∙ ap (◌++◌ s'.frames_taken) (no_frames s'.queues.can_frame_q.queue (omega (arith, w)))
            ∙ append-nil s'.frames_taken)
          ∙ same in
        record {
          frames = (same, taken);
          telemetry =
              all_got _ (got_by_publisher s'.publisher_rounds) s'.queues.telemetry_q.queue
                s'.in_hand h.telemetry t idle
              ∙ ap (decode_all double clock signals) taken;
          anomalies =
              all_got _ (got_by_detector s'.detector_rounds) s'.queues.anomaly_q.queue s'.in_hand
                h.anomalies a idle
              ∙ ap (decode_all double clock signals) taken;
          publisher = h.publisher;
          alerted = ap alerts_of (
              sym h.detector
              ∙ run-alerts double float uin threshold score model (record { published = [] })
                  s'.detector_rounds answers);
        }

    -- After enough turns of the decode loop, the queues of the consumers hold all that is left.
    decoded_all :
        (s s' : System W) (first : List Action)
        → enough double float uin threshold model clock signals start s ≤ decodes_in first
        → Faithful s
        → IsNearer double float uin threshold model clock signals
            (decodes_in first)
            (publishes_in first)
            (judges_in first)
            s
            s'
        → work double float uin threshold model clock signals s' ≡ 0
    decoded_all s s' first d h n =
        ground
          (arith, work-enough double float uin threshold model clock signals start s h, n.decoding)

    consumed_all :
        (s s' s'' : System W) (first second : List Action)
        → enough double float uin threshold model clock signals start s ≤ decodes_in first
        → enough double float uin threshold model clock signals start s ≤ publishes_in second
        → enough double float uin threshold model clock signals start s ≤ judges_in second
        → Faithful s
        → Faithful s'
        → IsNearer double float uin threshold model clock signals
            (decodes_in first)
            (publishes_in first)
            (judges_in first)
            s
            s'
        → Faithful s''
        → IsNearer double float uin threshold model clock signals
            (decodes_in second)
            (publishes_in second)
            (judges_in second)
            s'
            s''
        → IsDelivered score s s''
    consumed_all s s' s'' first second d p j h h' n h'' m =
        let idle = decoded_all s s' first d h n in
        let same = ap (λ l. length l + length (decode_all double clock signals l)) n.frames in
        settled s s'' (m.frames ∙ n.frames) (ground (arith, idle, m.decoding))
          (ground (
            arith,
            same,
            p,
            telemetry-enough double float uin threshold model clock signals start s' h',
            m.publishing idle,
          ))
          (ground (
            arith,
            same,
            j,
            anomalies-enough double float uin threshold model clock signals start s' h',
            m.judging idle,
          ))
          h''

    both :
        (s : System W) (actions : List Action)
        → ReadsNothing actions
        → Faithful s
        → HasResult
            (λ s'.
              Faithful s'
              × IsNearer double float uin threshold model clock signals
                  (decodes_in actions)
                  (publishes_in actions)
                  (judges_in actions)
                  s
                  s')
            (run_system s actions)
    both s actions quiet h =
        HasResult-Holds _ _ _ (run_system s actions)
          (system_run-IsFaithful double float uin threshold model clock signals start s actions h)
          (system_run-IsNearer double float uin threshold model clock signals score answers s
            actions quiet)
          (λ s' f n. (f, n))

    -- With a model that answers each signal: in any state that the threads can reach, let the reader
    -- get no more frames. Then in every interleaving in which the decode loop first has as many turns
    -- as there were frames and signals in all, and then the publisher and the detector have that many,
    -- whatever else the three do meanwhile: no exception ends the process, no frame waits, the
    -- publisher and the detector have each got exactly the signals of all the frames read, in order,
    -- and the detector has raised the alerts of those with a score over the threshold.
    pub delivery :
        (actions first second : List Action) (s : System W)
        → run_system (initial start) actions ≡ some s
        → ReadsNothing first
        → ReadsNothing second
        → enough double float uin threshold model clock signals start s ≤ decodes_in first
        → enough double float uin threshold model clock signals start s ≤ publishes_in second
        → enough double float uin threshold model clock signals start s ≤ judges_in second
        → HasResult (IsDelivered score s) (run_system s (first ++ second))
    delivery actions first second s reached quiet still d p j =
        let h : Faithful s =
          subst (Holds Faithful) reached
            (uplink double float uin threshold model clock signals start actions) in
        subst (HasResult (IsDelivered score s)) (sym (run_system-append s first second)) (
          HasResult-bind _ _ (run_system s first) _ (both s first quiet h) λ s' (h', n).
            HasResult-map _ _ (run_system s' second) (both s' second still h')
              λ s'' (h'', m). consumed_all s s' s'' first second d p j h h' n h'' m)
