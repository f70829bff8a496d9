-- ===== src/Gateway/Uplink/Rounds.antt =====
-- The rounds of the consumers, with one round more, and the queues between the threads.
use mathlib.Core.Path.{fun_ext}
use sdv_edge_gateway.Common.{
  ℕ, ◌≡◌, refl, sym, ap, ap₂, ◌∙◌, String, Option, List, [], ◌∷◌, ◌++◌, append-nil, append_assoc,
}
use sdv_edge_gateway.Common.Double.{DoubleOps}
use sdv_edge_gateway.Common.Float.{FloatOps}
use sdv_edge_gateway.Types.{DecodedSignal}
use sdv_edge_gateway.SafeQueue.{delivered?}
use sdv_edge_gateway.TelemetryPublisher as Telemetry
use sdv_edge_gateway.TelemetryPublisher.{Publisher}
use sdv_edge_gateway.TelemetryPublisher.Windows.{got_by_publisher}
use sdv_edge_gateway.AnomalyDetector as Anomaly
use sdv_edge_gateway.AnomalyDetector.Alerts.{and_then-goes_on}
use sdv_edge_gateway.AnomalyDetector.{Detector, goes_on, terminated, and_then}

-- The signals that the rounds of the detector got.
abbrev pub got_by_detector :
    {W : Type 0} → List (Option (DecodedSignal W) × ℕ) → List (DecodedSignal W)
got_by_detector [] = []
got_by_detector ((popped, now) ∷ rs) = delivered? popped ++ got_by_detector rs

pub got_by_publisher-snoc :
    {W : Type 0} (rs : List (Telemetry.Round W)) (r : Telemetry.Round W)
    → got_by_publisher (rs ++ r ∷ []) ≡ got_by_publisher rs ++ delivered? r.popped
got_by_publisher-snoc [] r = append-nil (delivered? r.popped)
got_by_publisher-snoc (x ∷ rs) r =
    ap (◌++◌ (delivered? x.popped)) (got_by_publisher-snoc rs r)
    ∙ sym (append_assoc (delivered? x.popped) (got_by_publisher rs) (delivered? r.popped))

pub got_by_detector-snoc :
    {W : Type 0} (rs : List (Option (DecodedSignal W) × ℕ)) (popped : Option (DecodedSignal W))
    (now : ℕ)
    → got_by_detector (rs ++ (popped, now) ∷ []) ≡ got_by_detector rs ++ delivered? popped
got_by_detector-snoc [] popped now = append-nil (delivered? popped)
got_by_detector-snoc ((x, t) ∷ rs) popped now =
    ap (◌++◌ (delivered? x)) (got_by_detector-snoc rs popped now)
    ∙ sym (append_assoc (delivered? x) (got_by_detector rs) (delivered? popped))

-- The parts of a chain of lists, moved on by one thread.
pub split_front {ℓ} :
    {A : Type ℓ} (all got front rest hand : List A) (queue : List A)
    → all ≡ got ++ (queue ++ hand)
    → queue ≡ front ++ rest
    → all ≡ (got ++ front) ++ (rest ++ hand)
split_front all got front rest hand queue e f =
    e
    ∙ ap (λ l. got ++ (l ++ hand)) f
    ∙ ap (◌++◌ got) (append_assoc front rest hand)
    ∙ sym (append_assoc got front (rest ++ hand))

pub push_back {ℓ} :
    {A : Type ℓ} (all got queue rest hand : List A) (a : A)
    → all ≡ got ++ (queue ++ hand)
    → hand ≡ a ∷ rest
    → all ≡ got ++ ((queue ++ a ∷ []) ++ rest)
push_back all got queue rest hand a e f =
    e ∙ ap (λ l. got ++ (queue ++ l)) f ∙ ap (◌++◌ got) (sym (append_assoc queue (a ∷ []) rest))

pub refill {ℓ} :
    {A : Type ℓ} (all got queue hand more more' : List A)
    → all ≡ got ++ (queue ++ hand)
    → hand ≡ []
    → more ≡ more'
    → all ++ more ≡ got ++ (queue ++ more')
refill all got queue hand more more' e f m =
    ap₂ ◌++◌ (e ∙ ap (λ l. got ++ (queue ++ l)) f ∙ ap (◌++◌ got) (append-nil queue)) m
    ∙ append_assoc got queue more'

pub publisher_run-snoc :
    {W : Type 0} (double : DoubleOps W) (uin : String) (p : Publisher W)
    (rs : List (Telemetry.Round W)) (r : Telemetry.Round W)
    → Telemetry.run double uin p (rs ++ r ∷ [])
      ≡ Telemetry.step double uin (Telemetry.run double uin p rs) r
unfolding Telemetry.run
publisher_run-snoc double uin p [] r = refl
publisher_run-snoc double uin p (x ∷ rs) r =
    publisher_run-snoc double uin (Telemetry.step double uin p x) rs r

module _ {W F : Type 0} (double : DoubleOps W) (float : FloatOps W F) (uin : String) (threshold : F)
    (model : F → Option F) where
  -- The detector's loop, with one round more.
  and_then_assoc :
      (o : Anomaly.Outcome W) (f g : Detector W → Anomaly.Outcome W)
      → and_then double float uin threshold o (λ d. and_then double float uin threshold (f d) g)
        ≡ and_then double float uin threshold (and_then double float uin threshold o f) g
  and_then_assoc (goes_on d) f g = refl
  and_then_assoc (terminated d) f g = refl

  pub detector_run-snoc :
      (d : Detector W) (rs : List (Option (DecodedSignal W) × ℕ)) (r : Option (DecodedSignal W) × ℕ)
      → Anomaly.run double float uin threshold model d (rs ++ r ∷ [])
        ≡ and_then double float uin threshold
            (Anomaly.run double float uin threshold model d rs)
            (λ d'. Anomaly.step double float uin threshold model d' r)
  unfolding Anomaly.run
  detector_run-snoc d [] r =
      and_then-goes_on double float uin threshold
        (Anomaly.step double float uin threshold model d r)
  detector_run-snoc d (x ∷ rs) r =
      ap (and_then double float uin threshold (Anomaly.step double float uin threshold model d x))
        (fun_ext λ d'. detector_run-snoc d' rs r)
      ∙ and_then_assoc (Anomaly.step double float uin threshold model d x) _ _
