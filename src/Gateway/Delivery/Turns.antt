-- ===== src/Gateway/Delivery/Turns.antt =====
-- The turns of the uplink's threads while no frame comes, and what each turn achieves.
use sdv_edge_gateway.Common.{
  ℕ, suc, ◌+◌, ◌≤◌, ◌≡◌, ◌⊎◌, inl, inr, refl, ◌∙◌, String, Option, some, List, [], ◌∷◌, length,
  arith, HasResult, HasResult-bind, HasResult-map,
}
use sdv_edge_gateway.Common.Double.{DoubleOps}
use sdv_edge_gateway.Common.Float.{FloatOps}
use sdv_edge_gateway.Types.{CanFrame, DecodedSignal}
use sdv_edge_gateway.SafeQueue.{push, pop_for}
use sdv_edge_gateway.SafeQueue.Fifo.{length-pop_for}
use sdv_edge_gateway.SignalDecoder.{SignalDef, decode}
use sdv_edge_gateway.AnomalyDetector.{run_inference}
use sdv_edge_gateway.AnomalyDetector.Alerts.{step_answered}
use sdv_edge_gateway.Gateway.System.{
  System, Action, reads, decodes, publishes, judges, decoder_step, publisher_step, detector_step,
  system_step, system_run,
}

-- How often each thread has its turn.
abbrev pub decodes_in : List Action → ℕ
decodes_in [] = 0
decodes_in (decodes ∷ rest) = suc (decodes_in rest)
decodes_in (a ∷ rest) = decodes_in rest

abbrev pub publishes_in : List Action → ℕ
publishes_in [] = 0
publishes_in (publishes now system_now reset_now ∷ rest) = suc (publishes_in rest)
publishes_in (a ∷ rest) = publishes_in rest

abbrev pub judges_in : List Action → ℕ
judges_in [] = 0
judges_in (judges now ∷ rest) = suc (judges_in rest)
judges_in (a ∷ rest) = judges_in rest

-- The reader has no turn.
abbrev pub ReadsNothing : List Action → Type 0
ReadsNothing [] = Unit {0}
ReadsNothing (reads r ∷ rest) = ⊥
ReadsNothing (a ∷ rest) = ReadsNothing rest

module _ {W F : Type 0} (double : DoubleOps W) (float : FloatOps W F) (uin : String) (threshold : F)
    (model : F → Option F) (clock : String → ℕ) (signals : List (String × SignalDef W)) where
  -- The turns that the decode loop needs for the frames of a queue.
  unfoldable pub frame_work : List CanFrame → ℕ
  frame_work [] = 0
  frame_work (f ∷ fs) = suc (length (decode double clock signals f) + frame_work fs)

  unfoldable pub work : System W → ℕ
  work s = length s.in_hand + frame_work s.queues.can_frame_q.queue

  -- After `d`, `p` and `j` turns of the decode loop, the publisher and the detector, of which at most
  -- one has had one.
  pub record IsNearer (d p j : ℕ) (s s' : System W) : Type 0 where
    pub frames : s'.frames_read ≡ s.frames_read
    pub decoding : (work s' + d ≤ work s) ⊎ (work s' ≡ 0)
    pub publishing :
        (work s ≡ 0)
        → (length s'.queues.telemetry_q.queue + p ≤ length s.queues.telemetry_q.queue)
          ⊎ (length s'.queues.telemetry_q.queue ≡ 0)
    pub judging :
        (work s ≡ 0)
        → (length s'.queues.anomaly_q.queue + j ≤ length s.queues.anomaly_q.queue)
          ⊎ (length s'.queues.anomaly_q.queue ≡ 0)

  decoder_step-IsNearer :
      (hand : List (DecodedSignal W)) (frames : List CanFrame) (s : System W)
      → s.in_hand ≡ hand
      → s.queues.can_frame_q.queue ≡ frames
      → IsNearer 1 0 0 s (decoder_step double float uin threshold model clock signals hand s)
  unfolding decoder_step pop_for push work frame_work
  decoder_step-IsNearer [] [] s e f = record {
    frames = refl;
    decoding = inr (ground (arith, f));
    publishing = λ z. inl (omega arith);
    judging = λ z. inl (omega arith);
  }
  decoder_step-IsNearer [] (frame ∷ frames) s e f = record {
    frames = refl;
    decoding = inl (ground (arith, e, f));
    publishing = λ z. inl (omega arith);
    judging = λ z. inl (omega arith);
  }
  decoder_step-IsNearer (signal ∷ rest) frames s e f = record {
    frames = refl;
    decoding = inl (ground (arith, e));
    publishing = λ z. absurd (ground (arith, z, e));
    judging = λ z. absurd (ground (arith, z, e));
  }

  publisher_step-IsNearer :
      (now system_now reset_now : ℕ) (s : System W)
      → IsNearer 0 1 0 s
          (publisher_step double float uin threshold model clock signals now system_now reset_now s)
  unfolding publisher_step work
  publisher_step-IsNearer now system_now reset_now s = record {
    frames = refl;
    decoding = inl (omega arith);
    publishing = λ z. length-pop_for s.queues.telemetry_q s.queues.telemetry_q.queue refl;
    judging = λ z. inl (omega arith);
  }

  module _ (score : DecodedSignal W → F)
      (answers : (s : DecodedSignal W) → run_inference float model s ≡ some (score s)) where
    detector_step-IsNearer :
        (now : ℕ) (s : System W)
        → HasResult
            (IsNearer 0 0 1 s)
            (detector_step double float uin threshold model clock signals now s)
    unfolding detector_step work
    detector_step-IsNearer now s =
        rw
          (step_answered double float uin threshold score model s.detector
            ((pop_for s.queues.anomaly_q).1, now) answers)
          (record {
            frames = refl;
            decoding = inl (omega arith);
            publishing = λ z. inl (omega arith);
            judging = λ z. length-pop_for s.queues.anomaly_q s.queues.anomaly_q.queue refl;
          })

    system_step-IsNearer :
        (s : System W) (a : Action)
        → ReadsNothing (a ∷ [])
        → HasResult
            (IsNearer (decodes_in (a ∷ [])) (publishes_in (a ∷ [])) (judges_in (a ∷ [])) s)
            (system_step double float uin threshold model clock signals s a)
    unfolding system_step
    system_step-IsNearer s (reads r) n = absurd n
    system_step-IsNearer s decodes n =
        decoder_step-IsNearer s.in_hand s.queues.can_frame_q.queue s refl refl
    system_step-IsNearer s (publishes now system_now reset_now) n =
        publisher_step-IsNearer now system_now reset_now s
    system_step-IsNearer s (judges now) n = detector_step-IsNearer now s

  IsNearer-trans :
      {d p j d' p' j' d'' p'' j'' : ℕ} {s s' s'' : System W}
      → d'' ≡ d + d'
      → p'' ≡ p + p'
      → j'' ≡ j + j'
      → IsNearer d p j s s'
      → IsNearer d' p' j' s' s''
      → IsNearer d'' p'' j'' s s''
  IsNearer-trans e f g h k = record {
    frames = k.frames ∙ h.frames;
    decoding = ground (arith, e, h.decoding, k.decoding);
    publishing = λ z. ground (arith, f, h.decoding, h.publishing z, k.publishing);
    judging = λ z. ground (arith, g, h.decoding, h.judging z, k.judging);
  }

  module _ (score : DecodedSignal W → F)
      (answers : (s : DecodedSignal W) → run_inference float model s ≡ some (score s)) where
    turn_added :
        (a : Action) (rest : List Action) {s s' s'' : System W}
        → IsNearer (decodes_in (a ∷ [])) (publishes_in (a ∷ [])) (judges_in (a ∷ [])) s s'
        → IsNearer (decodes_in rest) (publishes_in rest) (judges_in rest) s' s''
        → IsNearer (decodes_in (a ∷ rest)) (publishes_in (a ∷ rest)) (judges_in (a ∷ rest)) s s''
    turn_added (reads r) rest h k = IsNearer-trans (omega arith) (omega arith) (omega arith) h k
    turn_added decodes rest h k = IsNearer-trans (omega arith) (omega arith) (omega arith) h k
    turn_added (publishes now system_now reset_now) rest h k =
        IsNearer-trans (omega arith) (omega arith) (omega arith) h k
    turn_added (judges now) rest h k = IsNearer-trans (omega arith) (omega arith) (omega arith) h k

    first-ReadsNothing :
        (a : Action) (rest : List Action) → ReadsNothing (a ∷ rest) → ReadsNothing (a ∷ [])
    first-ReadsNothing (reads r) rest n = n
    first-ReadsNothing decodes rest n = tt
    first-ReadsNothing (publishes now system_now reset_now) rest n = tt
    first-ReadsNothing (judges now) rest n = tt

    rest-ReadsNothing :
        (a : Action) (rest : List Action) → ReadsNothing (a ∷ rest) → ReadsNothing rest
    rest-ReadsNothing (reads r) rest n = absurd n
    rest-ReadsNothing decodes rest n = n
    rest-ReadsNothing (publishes now system_now reset_now) rest n = n
    rest-ReadsNothing (judges now) rest n = n

    pub system_run-IsNearer :
        (s : System W) (actions : List Action)
        → ReadsNothing actions
        → HasResult
            (IsNearer (decodes_in actions) (publishes_in actions) (judges_in actions) s)
            (system_run double float uin threshold model clock signals s actions)
    unfolding system_run
    system_run-IsNearer s [] n = record {
      frames = refl;
      decoding = inl (omega arith);
      publishing = λ z. inl (omega arith);
      judging = λ z. inl (omega arith);
    }
    system_run-IsNearer s (a ∷ rest) n =
        HasResult-bind _ _ (system_step double float uin threshold model clock signals s a) _
          (system_step-IsNearer score answers s a (first-ReadsNothing a rest n))
          λ s' h.
            HasResult-map _ _ (system_run double float uin threshold model clock signals s' rest)
              (system_run-IsNearer s' rest (rest-ReadsNothing a rest n))
              (λ s'' k. turn_added a rest h k)
