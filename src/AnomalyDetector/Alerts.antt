-- ===== src/AnomalyDetector/Alerts.antt =====
-- Which signals raise an alert.
use sdv_edge_gateway.Common.{
  ℕ, ◌≡◌, refl, sym, ap, ◌∙◌, String, Option, none, some, List, [], ◌∷◌, ◌++◌, append-nil,
  append_assoc, inl, inr, if◌then◌else◌, Bool-cases,
}
use sdv_edge_gateway.Common.Double.{DoubleOps}
use sdv_edge_gateway.Common.Float.{FloatOps}
use sdv_edge_gateway.Types.{DecodedSignal}
use sdv_edge_gateway.Mqtt.{Message}
use sdv_edge_gateway.AnomalyDetector.{
  Detector, Outcome, goes_on, terminated, and_then, run_inference, alert, judge, step, run,
}

module _ {W F : Type 0} (double : DoubleOps W) (float : FloatOps W F) (uin : String)
    (threshold : F) where
  pub and_then-goes_on :
      (o : Outcome W) → and_then double float uin threshold o (λ d. goes_on d) ≡ o
  and_then-goes_on (goes_on d) = refl
  and_then-goes_on (terminated d) = refl

module _ {W F : Type 0} (double : DoubleOps W) (float : FloatOps W F) (uin : String) (threshold : F)
    (score : DecodedSignal W → F) where
  -- The specification: an alert for each signal whose score is over the threshold, in order.
  abbrev pub alerts : List (Option (DecodedSignal W) × ℕ) → List (Message W)
  alerts [] = []
  alerts ((none, now) ∷ rs) = alerts rs
  alerts ((some s, now) ∷ rs) =
      let rest = alerts rs in
      if float.gt (score s) threshold
      then alert double float uin threshold now s (score s) ∷ rest
      else rest

  -- With a model that answers each signal, the thread hands the client an alert for exactly the
  -- signals whose score is over the threshold, in the order in which they came, and no call ends
  -- it.
  pub run-alerts :
      (model : F → Option F) (d : Detector W) (rs : List (Option (DecodedSignal W) × ℕ))
      → ((s : DecodedSignal W) → run_inference float model s ≡ some (score s))
      → run double float uin threshold model d rs
        ≡ goes_on (record d { published = d.published ++ alerts rs })
  unfolding run step judge
  run-alerts model d [] h =
      ap (λ l. goes_on (record d { published = l })) (sym (append-nil d.published))
  run-alerts model d ((none, now) ∷ rs) h = run-alerts model d rs h
  run-alerts model d ((some s, now) ∷ rs) h = elim (Bool-cases (float.gt (score s) threshold)) [
    | inl over ↦
        let raised = alert double float uin threshold now s (score s) in
        rw (h s) (
          rw over (
            run-alerts model (record d { published = d.published ++ raised ∷ [] }) rs h
            ∙ ap (λ l. goes_on (record d { published = l }))
                (append_assoc d.published (raised ∷ []) (alerts rs))))
    | inr under ↦ rw (h s) (rw under (run-alerts model d rs h))
  ]

  -- One round of such a detector.
  pub step_answered :
      (model : F → Option F) (d : Detector W) (r : Option (DecodedSignal W) × ℕ)
      → ((s : DecodedSignal W) → run_inference float model s ≡ some (score s))
      → step double float uin threshold model d r
        ≡ goes_on (record d { published = d.published ++ alerts (r ∷ []) })
  unfolding run
  step_answered model d r h =
      sym (and_then-goes_on double float uin threshold (step double float uin threshold model d r))
      ∙ run-alerts model d (r ∷ []) h
