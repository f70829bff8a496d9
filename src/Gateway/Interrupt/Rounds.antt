-- ===== src/Gateway/Interrupt/Rounds.antt =====
-- The loop of step 8 of src/main.cpp, whatever interrupts it, as rounds of the decode loop.
use sdv_edge_gateway.Common.{
  ℕ, ◌≡◌, refl, ap, subst, suc, String, Bool, false, List, [], ◌∷◌, length, if◌then◌else◌,
}
use sdv_edge_gateway.Common.Double.{DoubleOps}
use sdv_edge_gateway.Types.{CanFrame}
use sdv_edge_gateway.SignalDecoder.{SignalDef}
use sdv_edge_gateway.Gateway.{Queues, push_frames, decode_step, decode_loop}
use sdv_edge_gateway.Worker.{Place, testing, in_body, left}
use sdv_edge_gateway.Gateway.Interrupt.{
  MainLoop, Occurrence, interrupts, arrives, turns, loop_step, loop_run,
}

module _ {W : Type 0} (double : DoubleOps W) (now : String → ℕ)
    (signals : List (String × SignalDef W)) where
  -- The bodies that run.
  abbrev pub counted : Occurrence → Place → ℕ → ℕ
  counted turns in_body n = suc n
  counted _ _ n = n

  abbrev pub bodies : List Occurrence → MainLoop W → ℕ
  bodies [] s = 0
  bodies (o ∷ os) s = counted o s.place (bodies os (loop_step double now signals o s))

  -- The queues are what these rounds of the decode loop make of them, and frames that come later.
  pub record IsDecoded (q : Queues W) (n : ℕ) (q' : Queues W) : Type 0 where
    pub rounds : List (List CanFrame)
    pub late : List CanFrame
    pub as_many : length rounds ≡ n
    pub as_queued : q' ≡ push_frames late (decode_loop double now signals rounds q)

  with_arrival :
      (frame : CanFrame) (q q' : Queues W) (rounds : List (List CanFrame)) (late : List CanFrame)
      → q' ≡ push_frames late (decode_loop double now signals rounds (push_frames (frame ∷ []) q))
      → IsDecoded q (length rounds) q'
  unfolding decode_loop
  with_arrival frame q q' [] late e = record {
    rounds = [];
    late = frame ∷ late;
    as_many = refl;
    as_queued = e;
  }
  with_arrival frame q q' (r ∷ rounds) late e = record {
    rounds = (frame ∷ r) ∷ rounds;
    late = late;
    as_many = refl;
    as_queued = e;
  }

  IsDecoded-arrives :
      (frame : CanFrame) (q q' : Queues W) (n : ℕ)
      → IsDecoded (push_frames (frame ∷ []) q) n q'
      → IsDecoded q n q'
  IsDecoded-arrives frame q q' n d =
      subst (λ k. IsDecoded q k q') d.as_many (with_arrival frame q q' d.rounds d.late d.as_queued)

  IsDecoded-body :
      (q q' : Queues W) (n : ℕ)
      → IsDecoded (decode_step double now signals q) n q'
      → IsDecoded q (suc n) q'
  unfolding decode_loop
  IsDecoded-body q q' n d = record {
    rounds = [] ∷ d.rounds;
    late = d.late;
    as_many = ap suc d.as_many;
    as_queued = d.as_queued;
  }

  abbrev pub at : Bool → Place → Queues W → MainLoop W
  at running place q = record { g_running = running; place = place; queues = q }

  pub loop_run-IsDecoded :
      (os : List Occurrence) (running : Bool) (place : Place) (q : Queues W)
      → IsDecoded q
          (bodies os (at running place q))
          (loop_run double now signals os (at running place q)).queues
  unfolding loop_run loop_step decode_loop
  loop_run-IsDecoded [] running place q = record {
    rounds = [];
    late = [];
    as_many = refl;
    as_queued = refl;
  }
  loop_run-IsDecoded (interrupts ∷ os) running place q = loop_run-IsDecoded os false place q
  loop_run-IsDecoded (arrives f ∷ os) running place q =
      IsDecoded-arrives f q _ _ (loop_run-IsDecoded os running place (push_frames (f ∷ []) q))
  loop_run-IsDecoded (turns ∷ os) running testing q =
      loop_run-IsDecoded os running (if running then in_body else left) q
  loop_run-IsDecoded (turns ∷ os) running in_body q =
      IsDecoded-body q _ _
        (loop_run-IsDecoded os running testing (decode_step double now signals q))
  loop_run-IsDecoded (turns ∷ os) running left q = loop_run-IsDecoded os running left q
