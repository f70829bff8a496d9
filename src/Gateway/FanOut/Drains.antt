-- ===== src/Gateway/FanOut/Drains.antt =====
-- Rounds without new frames empty the decode loop's queue.
use sdv_edge_gateway.Common.{
  ℕ, zero, suc, ◌≤◌, ◌≡◌, refl, sym, ◌∙◌, String, List, [], ◌∷◌, append-nil, arith, length,
}
use sdv_edge_gateway.Common.Double.{DoubleOps}
use sdv_edge_gateway.Types.{CanFrame}
use sdv_edge_gateway.SignalDecoder.{SignalDef}
use sdv_edge_gateway.Gateway.{Queues, decode_step, decode_loop}
use sdv_edge_gateway.Gateway.FanOut.{
  HandsOut, hand_trans, decode_all, decode_step_some, decode_step_none,
}

-- Rounds in which no frame comes.
abbrev quiet : ℕ → List (List CanFrame)
quiet zero = []
quiet (suc n) = [] ∷ quiet n

module _ {W : Type 0} (double : DoubleOps W) (now : String → ℕ)
    (signals : List (String × SignalDef W)) where
  drains_from :
      (n : ℕ) (q : Queues W) (frames : List CanFrame)
      → q.can_frame_q.queue ≡ frames
      → length frames ≤ n
      → HandsOut q frames
          (decode_all double now signals frames)
          (decode_loop double now signals (quiet n) q)
  unfolding decode_loop
  drains_from zero q [] e h = (refl, sym (append-nil _), sym (append-nil _))
  drains_from zero q (frame ∷ rest) e h = absurd (omega (arith, h))
  drains_from (suc n) q [] e h =
      let out = decode_step_none double now signals q e in
      hand_trans q (decode_step double now signals q)
        (decode_loop double now signals (quiet n) (decode_step double now signals q)) [] [] [] []
        out (drains_from n (decode_step double now signals q) [] (sym out.0 ∙ e) (omega arith))
  drains_from (suc n) q (frame ∷ rest) e h =
      let (out, left) = decode_step_some double now signals q frame rest e in
      hand_trans q (decode_step double now signals q)
        (decode_loop double now signals (quiet n) (decode_step double now signals q)) (frame ∷ [])
        rest _ (decode_all double now signals rest) out
        (drains_from n (decode_step double now signals q) rest left (omega (arith, h)))

  -- After quiet rounds, as many as there are frames waiting or more, all frames are decoded: the
  -- signals of all of them, frame by frame and in order, have gone to the publisher's queue, and
  -- the same ones in the same order to the detector's.
  decode_loop_drains :
      (n : ℕ) (q : Queues W)
      → length q.can_frame_q.queue ≤ n
      → HandsOut q q.can_frame_q.queue
          (decode_all double now signals q.can_frame_q.queue)
          (decode_loop double now signals (quiet n) q)
  decode_loop_drains n q h = drains_from n q q.can_frame_q.queue refl h
