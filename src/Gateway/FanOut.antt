-- ===== src/Gateway/FanOut.antt =====
-- What the decode loop hands to the two consumers.
pub mod Drains
use sdv_edge_gateway.Common.{
  ℕ, zero, suc, ◌≤◌, ◌≡◌, refl, sym, ap, ◌∙◌, String, List, [], ◌∷◌, ◌++◌, append-nil, append_assoc,
  arith, length,
}
use sdv_edge_gateway.Common.Double.{DoubleOps}
use sdv_edge_gateway.Types.{CanFrame, DecodedSignal}
use sdv_edge_gateway.SafeQueue.{SafeQueue, push, pop_for}
use sdv_edge_gateway.SignalDecoder.{SignalDef, decode}
use sdv_edge_gateway.Gateway.{Queues, fan_out, decode_step, push_frames, decode_loop}

-- The frames that came before all the rounds, in order.
abbrev pub all_arrived : List (List CanFrame) → List CanFrame
all_arrived [] = []
all_arrived (arrived ∷ rounds) = arrived ++ all_arrived rounds

module _ {W : Type 0} where
  pub fan_out_lem :
      (decoded : List (DecodedSignal W)) (q : Queues W)
      → ((fan_out decoded q).can_frame_q ≡ q.can_frame_q)
        × ((fan_out decoded q).telemetry_q.queue ≡ q.telemetry_q.queue ++ decoded)
        × ((fan_out decoded q).anomaly_q.queue ≡ q.anomaly_q.queue ++ decoded)
  unfolding fan_out push
  fan_out_lem [] q = (refl, sym (append-nil _), sym (append-nil _))
  fan_out_lem (s ∷ decoded) q =
      let (c, t, a) =
        fan_out_lem decoded
          (record q { telemetry_q = push q.telemetry_q s; anomaly_q = push q.anomaly_q s }) in
      (
        c,
        t ∙ append_assoc q.telemetry_q.queue (s ∷ []) decoded,
        a ∙ append_assoc q.anomaly_q.queue (s ∷ []) decoded,
      )

  push_frames_lem :
      (frames : List CanFrame) (q : Queues W)
      → ((push_frames frames q).can_frame_q.queue ≡ q.can_frame_q.queue ++ frames)
        × ((push_frames frames q).telemetry_q ≡ q.telemetry_q)
        × ((push_frames frames q).anomaly_q ≡ q.anomaly_q)
  unfolding push
  push_frames_lem [] q = (sym (append-nil _), refl, refl)
  push_frames_lem (frame ∷ frames) q =
      let (c, t, a) =
        push_frames_lem frames (record q { can_frame_q = push q.can_frame_q frame }) in
      (c ∙ append_assoc q.can_frame_q.queue (frame ∷ []) frames, t, a)

  -- `q'` is `q` after the frames `taken` were taken and the signals `sent` handed to both queues.
  abbrev pub HandsOut : Queues W → List CanFrame → List (DecodedSignal W) → Queues W → Type 0
  HandsOut q taken sent q' =
      (q.can_frame_q.queue ≡ taken ++ q'.can_frame_q.queue)
      × (q'.telemetry_q.queue ≡ q.telemetry_q.queue ++ sent)
      × (q'.anomaly_q.queue ≡ q.anomaly_q.queue ++ sent)

  hand_trans :
      (q₀ q₁ q₂ : Queues W) (t₀ t₁ : List CanFrame) (s₀ s₁ : List (DecodedSignal W))
      → HandsOut q₀ t₀ s₀ q₁
      → HandsOut q₁ t₁ s₁ q₂
      → HandsOut q₀ (t₀ ++ t₁) (s₀ ++ s₁) q₂
  hand_trans q₀ q₁ q₂ t₀ t₁ s₀ s₁ (c, t, a) (c', t', a') = (
    c ∙ ap (◌++◌ t₀) c' ∙ sym (append_assoc t₀ t₁ _),
    t' ∙ ap (λ l. l ++ s₁) t ∙ append_assoc _ s₀ s₁,
    a' ∙ ap (λ l. l ++ s₁) a ∙ append_assoc _ s₀ s₁,
  )

module _ {W : Type 0} (double : DoubleOps W) (now : String → ℕ)
    (signals : List (String × SignalDef W)) where
  -- The signals of a list of frames, frame by frame.
  abbrev pub decode_all : List CanFrame → List (DecodedSignal W)
  decode_all [] = []
  decode_all (frame ∷ frames) = decode double now signals frame ++ decode_all frames

  -- A round with a frame waiting takes it and hands out its signals.
  decode_step_some :
      (q : Queues W) (frame : CanFrame) (rest : List CanFrame)
      → q.can_frame_q.queue ≡ frame ∷ rest
      → HandsOut q (frame ∷ []) (decode double now signals frame) (decode_step double now signals q)
        × ((decode_step double now signals q).can_frame_q.queue ≡ rest)
  unfolding decode_step pop_for
  decode_step_some q frame rest e =
      let (c, t, a) =
        fan_out_lem (decode double now signals frame)
          (record q { can_frame_q = record (q.can_frame_q) { queue = rest } }) in
      let c' = ap (λ (f : SafeQueue CanFrame). f.queue) c in
      rw e ((sym (ap (◌∷◌ frame) c'), t, a), c')

  decode_step_none :
      (q : Queues W)
      → q.can_frame_q.queue ≡ []
      → HandsOut q [] [] (decode_step double now signals q)
  unfolding decode_step pop_for
  decode_step_none q e =
      ground (arith, e, append-nil q.telemetry_q.queue, append-nil q.anomaly_q.queue)

  takes_from :
      (q : Queues W) (frames : List CanFrame)
      → q.can_frame_q.queue ≡ frames
      → (taken : List CanFrame) × HandsOut q taken
          (decode_all taken)
          (decode_step double now signals q)
  takes_from q [] e = ([], decode_step_none q e)
  takes_from q (frame ∷ rest) e = (
    frame ∷ [],
    rw (append-nil (decode double now signals frame)) (decode_step_some q frame rest e).0,
  )

  takes_some :
      (q : Queues W)
      → (taken : List CanFrame) × HandsOut q taken
          (decode_all taken)
          (decode_step double now signals q)
  takes_some q = takes_from q q.can_frame_q.queue refl

  after_arrivals :
      (q q' : Queues W) (arrived taken : List CanFrame) (sent : List (DecodedSignal W))
      → HandsOut (push_frames arrived q) taken sent q'
      → (q.can_frame_q.queue ++ arrived ≡ taken ++ q'.can_frame_q.queue)
        × (q'.telemetry_q.queue ≡ q.telemetry_q.queue ++ sent)
        × (q'.anomaly_q.queue ≡ q.anomaly_q.queue ++ sent)
  after_arrivals q q' arrived taken sent (c, t, a) =
      let (c₀, t₀, a₀) = push_frames_lem arrived q in
      (
        sym c₀ ∙ c,
        t ∙ ap (λ (f : SafeQueue (DecodedSignal W)). f.queue ++ sent) t₀,
        a ∙ ap (λ (f : SafeQueue (DecodedSignal W)). f.queue ++ sent) a₀,
      )

  pub decode_all-append :
      (first second : List CanFrame)
      → decode_all (first ++ second) ≡ decode_all first ++ decode_all second
  decode_all-append [] second = refl
  decode_all-append (frame ∷ first) second =
      ap (◌++◌ (decode double now signals frame)) (decode_all-append first second)
      ∙ sym (append_assoc (decode double now signals frame) (decode_all first) (decode_all second))

  sent_then :
      (q₀ q₁ q₂ : List (DecodedSignal W)) (taken more : List CanFrame)
      → q₁ ≡ q₀ ++ decode_all taken
      → q₂ ≡ q₁ ++ decode_all more
      → q₂ ≡ q₀ ++ decode_all (taken ++ more)
  sent_then q₀ q₁ q₂ taken more e f =
      f
      ∙ ap (λ l. l ++ decode_all more) e
      ∙ append_assoc q₀ (decode_all taken) (decode_all more)
      ∙ ap (◌++◌ q₀) (sym (decode_all-append taken more))

  taken_then :
      (q₀ q₁ q₂ arrived rest taken more : List CanFrame)
      → q₀ ++ arrived ≡ taken ++ q₁
      → q₁ ++ rest ≡ more ++ q₂
      → q₀ ++ (arrived ++ rest) ≡ (taken ++ more) ++ q₂
  taken_then q₀ q₁ q₂ arrived rest taken more e f =
      sym (append_assoc q₀ arrived rest)
      ∙ ap (λ l. l ++ rest) e
      ∙ append_assoc taken q₁ rest
      ∙ ap (◌++◌ taken) f
      ∙ sym (append_assoc taken more q₂)

  -- However the frames come between the rounds: some frames are taken from the front, no frame that
  -- came is lost or reordered, and exactly the signals of the frames taken, frame by frame and in
  -- order, have gone to the publisher's queue and to the detector's.
  pub decode_loop-HandsOut :
      (rounds : List (List CanFrame)) (q : Queues W)
      → let q' = decode_loop double now signals rounds q in
        (taken : List CanFrame) × (q.can_frame_q.queue ++ all_arrived rounds
          ≡ taken ++ q'.can_frame_q.queue)
        × (q'.telemetry_q.queue ≡ q.telemetry_q.queue ++ decode_all taken)
        × (q'.anomaly_q.queue ≡ q.anomaly_q.queue ++ decode_all taken)
  unfolding decode_loop
  decode_loop-HandsOut [] q = ([], append-nil _, sym (append-nil _), sym (append-nil _))
  decode_loop-HandsOut (arrived ∷ rounds) q =
      let p = push_frames arrived q in
      let p' = decode_step double now signals p in
      let (taken, out) = takes_some p in
      let (more, c', t', a') = decode_loop-HandsOut rounds p' in
      let (c, t, a) = after_arrivals q p' arrived taken (decode_all taken) out in
      (
        taken ++ more,
        taken_then q.can_frame_q.queue p'.can_frame_q.queue _ arrived (all_arrived rounds) taken
            more c c',
        sent_then q.telemetry_q.queue p'.telemetry_q.queue _ taken more t t',
        sent_then q.anomaly_q.queue p'.anomaly_q.queue _ taken more a a',
      )
