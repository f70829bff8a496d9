-- ===== src/Tests/Uplink.antt =====
-- The threads of the uplink on frames of the engine.
use sdv_edge_gateway.Common.{
  ℕ, zero, suc, ◌≡◌, refl, Option, none, some, List, [], ◌∷◌, ◌++◌, Holds, HasResult, arith,
}
use sdv_edge_gateway.Types.{DecodedSignal}
use sdv_edge_gateway.CanReader
use sdv_edge_gateway.CanReader.{bytes}
use sdv_edge_gateway.SignalDecoder.{decode}
use sdv_edge_gateway.AnomalyDetector.{run_inference, normalize}
use sdv_edge_gateway.Gateway.System.{
  System, Action, reads, decodes, publishes, judges, initial, reader_step, decoder_step,
  publisher_step, system_step, system_run,
}
use sdv_edge_gateway.Gateway.Uplink.{IsFaithful, uplink}
use sdv_edge_gateway.Gateway.Sent.{IsSent, system_run-IsSent}
use sdv_edge_gateway.Gateway.Delivery.Enough.{enough}
use sdv_edge_gateway.Gateway.Delivery.{IsDelivered, delivery}
use sdv_edge_gateway.Tests.Instances.{whole_float, whole_double, clock}
use sdv_edge_gateway.Tests.Loading.{signals}

-- A frame of the engine as the kernel gives it, and an interleaving of the four threads.
abbrev engine_round : CanReader.Round
engine_round = record {
  read =
      bytes 16
        (record { can_id = 180; can_dlc = 8; bytes = 3 ∷ 0 ∷ 0 ∷ 0 ∷ 0 ∷ 0x88 ∷ 0x13 ∷ 0 ∷ [] });
  stack = [];
  now = 5;
}

abbrev interleaving : List Action
interleaving =
    judges 1
    ∷ reads engine_round
    ∷ decodes
    ∷ reads engine_round
    ∷ decodes
    ∷ publishes 10 20 30
    ∷ decodes
    ∷ decodes
    ∷ judges 2
    ∷ []

uplink_example : Holds (IsFaithful whole_double whole_float "uin" 1 (λ x. some x) clock signals 0) (
    system_run whole_double whole_float "uin" 1
      (λ x. some x)
      clock
      signals
      (initial 0)
      interleaving)
uplink_example = uplink whole_double whole_float "uin" 1 (λ x. some x) clock signals 0 interleaving

system_run-IsSent_example :
    Holds (IsSent whole_double whole_float "uin" 1 (λ x. some x) clock signals 0) (
      system_run whole_double whole_float "uin" 1
        (λ x. some x)
        clock
        signals
        (initial 0)
        interleaving)
system_run-IsSent_example =
    system_run-IsSent whole_double whole_float "uin" 1 (λ x. some x) clock signals 0 interleaving

-- The frames of the interleaving have been read and not all their signals are decoded.
abbrev under_way : List Action
under_way = reads engine_round ∷ decodes ∷ reads engine_round ∷ publishes 10 20 30 ∷ []

abbrev found : Option (System ℕ) → System ℕ
found none = initial 0
found (some s) = s

abbrev reached : System ℕ
reached =
    found (
      system_run whole_double whole_float "uin" 1 (λ x. some x) clock signals (initial 0) under_way)

under_way-reached :
    system_run whole_double whole_float "uin" 1 (λ x. some x) clock signals (initial 0) under_way
    ≡ some reached
unfolding system_run system_step
under_way-reached = refl

abbrev decoding : List Action
decoding =
    decodes
    ∷ judges 5
    ∷ decodes
    ∷ decodes
    ∷ publishes 50 60 70
    ∷ decodes
    ∷ decodes
    ∷ decodes
    ∷ decodes
    ∷ []

abbrev consuming : ℕ → List Action
consuming zero = []
consuming (suc n) = publishes 80 90 100 ∷ judges 9 ∷ consuming n

six_are_enough : enough whole_double whole_float "uin" 1 (λ x. some x) clock signals 0 reached ≡ 6
unfolding system_run system_step decode publisher_step reader_step decoder_step initial
    CanReader.translate
six_are_enough = refl

abbrev score : DecodedSignal ℕ → ℕ
score s = normalize whole_float s

score_lem : (s : DecodedSignal ℕ) → run_inference whole_float (λ x. some x) s ≡ some (score s)
unfolding run_inference
score_lem s = refl

delivery_example :
    HasResult
      (IsDelivered whole_double whole_float "uin" 1 (λ x. some x) clock signals 0 score reached)
      (system_run whole_double whole_float "uin" 1
        (λ x. some x)
        clock
        signals
        reached
        (decoding ++ consuming 6))
delivery_example =
    delivery whole_double whole_float "uin" 1 (λ x. some x) clock signals 0 score score_lem
      under_way decoding (consuming 6) reached under_way-reached tt tt
      (omega (arith, six_are_enough)) (omega (arith, six_are_enough))
      (omega (arith, six_are_enough))
