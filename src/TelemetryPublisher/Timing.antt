-- ===== src/TelemetryPublisher/Timing.antt =====
-- When the publisher publishes.
use sdv_edge_gateway.Common.{
  ℕ, ◌+◌, ◌-◌, ◌≤◌, ◌<◌, ◌≡◌, ◌≢◌, ◌⊎◌, inl, inr, refl, String, true, false, ◌&&◌, Option, none,
  some, List, [], ◌∷◌, ◌++◌, arith, length, ◌==◌, Bool-cases,
}
use sdv_edge_gateway.Common.Double.{DoubleOps}
use sdv_edge_gateway.Common.Assoc.{assign}
use sdv_edge_gateway.Types.{DecodedSignal}
use sdv_edge_gateway.Mqtt.{Message}
use sdv_edge_gateway.TelemetryPublisher.Snapshot.{accumulate-published}
use sdv_edge_gateway.TelemetryPublisher.{
  Publisher, Round, publish_now, accumulate, is_due, step, is_empty, telemetry_message, snapshot,
}

-- Something is accumulated.
abbrev pub IsPending : {W : Type 0} → Publisher W → Type 0
IsPending p = (is_empty p.numeric ≡ false) ⊎ (p.gear_received ≡ true)

-- A complete set never waits, and nothing accumulated waits past five seconds after the last
-- publish.
pub record IsTimely {W : Type 0} (now : ℕ) (p : Publisher W) : Type 0 where
  pub complete_sent : (length p.numeric == 4 && p.gear_received) ≡ false
  pub not_late :
      ((is_empty p.numeric ≡ true) × (p.gear_received ≡ false)) ⊎ (now - p.last_publish < 5000)

module _ {W : Type 0} (double : DoubleOps W) (uin : String) where
  published-IsTimely : (r : Round W) (p : Publisher W) → IsTimely r.now (publish_now double uin r p)
  unfolding publish_now
  published-IsTimely r p = ground arith

  held-IsTimely :
      (r : Round W) (p : Publisher W) → is_due double uin p r.now ≡ false → IsTimely r.now p
  unfolding is_due
  held-IsTimely r p e = ground arith

  -- After any round no complete set of four numbers and the gear is held back, and if anything at
  -- all is held back, the last message was sent less than five seconds before the round.
  pub step-IsTimely : (p : Publisher W) (r : Round W) → IsTimely r.now (step double uin p r)
  unfolding step
  step-IsTimely p r =
      let p' = accumulate double uin r.popped p in
      elim (Bool-cases (is_due double uin p' r.now)) [
        | inl due ↦ rw due (published-IsTimely r p')
        | inr waits ↦ rw waits (held-IsTimely r p' waits)
      ]

  assign-nonempty :
      (name : String) (v : W) (m : List (String × W)) → is_empty (assign name v m) ≡ false
  unfolding assign
  assign-nonempty name v [] = refl
  assign-nonempty name v ((key, w) ∷ m) = ground arith

  accumulate-IsPending :
      (o : Option (DecodedSignal W)) (p : Publisher W)
      → IsPending p ⊎ (o ≢ none)
      → IsPending (accumulate double uin o p)
        × ((accumulate double uin o p).last_publish ≡ p.last_publish)
  unfolding accumulate
  accumulate-IsPending none p (inl h) = (h, refl)
  accumulate-IsPending none p (inr h) = absurd (h refl)
  accumulate-IsPending (some s) p h =
      (ground (arith, assign-nonempty s.name s.value p.numeric), ground arith)

  late-due :
      (p : Publisher W) (now : ℕ)
      → IsPending p
      → p.last_publish + 5000 ≤ now
      → is_due double uin p now ≡ true
  unfolding is_due
  late-due p now h late = ground arith

  -- A round that holds or finds something to send, five seconds or more after the last message,
  -- hands the client one message, sets the clock and empties the accumulators.
  step_publishes :
      (p : Publisher W) (r : Round W)
      → IsPending p ⊎ (r.popped ≢ none)
      → p.last_publish + 5000 ≤ r.now
      → let p' = step double uin p r in
        ((m : Message W) × (p'.published ≡ p.published ++ m ∷ []))
        × (p'.last_publish ≡ r.reset_now)
        × ¬ IsPending p'
  unfolding step publish_now
  step_publishes p r h late =
      let q = accumulate double uin r.popped p in
      let (pending, same) = accumulate-IsPending r.popped p h in
      rw (late-due q r.now pending (omega (arith, same))) (
        (
          telemetry_message double uin (snapshot double uin q r.system_now),
          rw (accumulate-published double uin r.popped p),
        ),
        refl,
        λ k. ground arith,
      )
