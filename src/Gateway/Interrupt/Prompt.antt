-- ===== src/Gateway/Interrupt/Prompt.antt =====
-- How the loop of step 8 of src/main.cpp ends after a signal.
use sdv_edge_gateway.Common.{
  ℕ, ◌+◌, ◌*◌, ◌/◌, ◌≤◌, ◌≡◌, ◌≢◌, refl, ap, subst, suc, ◌∙◌, String, true, false, List, [], ◌∷◌,
  ◌++◌, arith,
}
use sdv_edge_gateway.Common.Double.{DoubleOps}
use sdv_edge_gateway.SignalDecoder.{SignalDef}
use sdv_edge_gateway.Gateway.{Queues, push_frames, decode_step}
use sdv_edge_gateway.Gateway.Interrupt.Rounds.{counted, bodies, IsDecoded, at, loop_run-IsDecoded}
use sdv_edge_gateway.Worker.{Place, testing, in_body, left}
use sdv_edge_gateway.Gateway.Interrupt.{
  MainLoop, Occurrence, interrupts, arrives, turns, entered, loop_step, loop_run,
}

module _ {W : Type 0} (double : DoubleOps W) (now : String → ℕ)
    (signals : List (String × SignalDef W)) where
  -- The turns that the main thread gets.
  abbrev pub turns_in : List Occurrence → ℕ
  turns_in [] = 0
  turns_in (turns ∷ os) = suc (turns_in os)
  turns_in (_ ∷ os) = turns_in os

  -- The bodies that are begun, and the turns to the end of the loop when the flag is false.
  abbrev begun : Place → ℕ
  begun testing = 0
  begun in_body = 1
  begun left = 0

  abbrev turns_left : Place → ℕ
  turns_left testing = 1
  turns_left in_body = 2
  turns_left left = 0

  interrupted_from :
      (os : List Occurrence) (place : Place) (q : Queues W)
      → turns_left place ≤ turns_in os
      → (bodies double now signals os (at double now signals false place q) ≡ begun place)
        × ((loop_run double now signals os (at double now signals false place q)).place ≡ left)
  unfolding loop_run loop_step
  interrupted_from [] testing q enough = ground arith
  interrupted_from [] in_body q enough = ground arith
  interrupted_from [] left q enough = (refl, refl)
  interrupted_from (interrupts ∷ os) place q enough = interrupted_from os place q enough
  interrupted_from (arrives f ∷ os) place q enough =
      interrupted_from os place (push_frames (f ∷ []) q) enough
  interrupted_from (turns ∷ os) testing q enough = interrupted_from os left q (omega arith)
  interrupted_from (turns ∷ os) in_body q enough =
      let (b, l) = interrupted_from os testing (decode_step double now signals q) (omega arith) in
      (omega (arith, b), l)
  interrupted_from (turns ∷ os) left q enough = interrupted_from os left q (omega arith)

  abbrev pub signals_in : List Occurrence → ℕ
  signals_in [] = 0
  signals_in (interrupts ∷ os) = suc (signals_in os)
  signals_in (_ ∷ os) = signals_in os

  -- Until a signal comes: the flag, the place, and two turns for each body.
  record GoesOn (place : Place) (os : List Occurrence) (q : Queues W) : Type 0 where
    flag : (loop_run double now signals os (at double now signals true place q)).g_running ≡ true
    within : (loop_run double now signals os (at double now signals true place q)).place ≢ left
    paired :
        begun place + turns_in os
        ≡ bodies double now signals os (at double now signals true place q) * 2
          + begun (loop_run double now signals os (at double now signals true place q)).place

  uninterrupted :
      (os : List Occurrence) (place : Place) (q : Queues W)
      → place ≢ left
      → signals_in os ≡ 0
      → GoesOn place os q
  unfolding loop_run loop_step
  uninterrupted [] place q p none = record { flag = refl; within = p; paired = omega arith }
  uninterrupted (interrupts ∷ os) place q p none = ground arith
  uninterrupted (arrives f ∷ os) place q p none =
      let g = uninterrupted os place (push_frames (f ∷ []) q) p none in
      record { flag = g.flag; within = g.within; paired = g.paired }
  uninterrupted (turns ∷ os) testing q p none =
      let g = uninterrupted os in_body q (λ e. ground (arith, e)) none in
      record { flag = g.flag; within = g.within; paired = omega (arith, g.paired) }
  uninterrupted (turns ∷ os) in_body q p none =
      let g =
        uninterrupted os testing (decode_step double now signals q) (λ e. ground (arith, e)) none in
      record { flag = g.flag; within = g.within; paired = omega (arith, g.paired) }
  uninterrupted (turns ∷ os) left q p none = absurd (p refl)

  loop_run-append :
      (before after : List Occurrence) (s : MainLoop W)
      → loop_run double now signals (before ++ after) s
        ≡ loop_run double now signals after (loop_run double now signals before s)
  unfolding loop_run
  loop_run-append [] after s = refl
  loop_run-append (o ∷ before) after s =
      loop_run-append before after (loop_step double now signals o s)

  counted_add :
      (o : Occurrence) (place : Place) (m n : ℕ)
      → counted double now signals o place (m + n) ≡ counted double now signals o place m + n
  counted_add o place m n = ground arith

  bodies-append :
      (before after : List Occurrence) (s : MainLoop W)
      → bodies double now signals (before ++ after) s
        ≡ bodies double now signals before s
          + bodies double now signals after (loop_run double now signals before s)
  unfolding loop_run
  bodies-append [] after s = omega arith
  bodies-append (o ∷ before) after s =
      ap (counted double now signals o s.place)
        (bodies-append before after (loop_step double now signals o s))
      ∙ counted_add o s.place (bodies double now signals before (loop_step double now signals o s))
          _

  begun_bound : (place : Place) → (begun place ≤ 1) × (turns_left place ≤ 2)
  begun_bound place = ground arith

  -- If the signal comes after some turns of the main thread, frames arriving in between, then two more
  -- turns are enough to end the loop: the round that has begun is finished and no other begins. So
  -- the queues are what the decode loop makes of one round for each two turns before the signal,
  -- the last one counted whole, and of frames that came later.
  pub interrupted :
      (before after : List Occurrence) (q : Queues W)
      → signals_in before ≡ 0
      → 2 ≤ turns_in after
      → let s = loop_run double now signals (before ++ interrupts ∷ after) (entered q) in
        (s.place ≡ left) × IsDecoded double now signals q ((turns_in before + 1) / 2) s.queues
  unfolding entered loop_run loop_step
  interrupted before after q none enough =
      let s = loop_run double now signals before (entered q) in
      let bound = begun_bound s.place in
      let (stopped, out) = interrupted_from after s.place s.queues (omega (arith, bound, enough)) in
      let all = before ++ interrupts ∷ after in
      (
        ap (λ (r : MainLoop W). r.place) (loop_run-append before (interrupts ∷ after) (entered q))
            ∙ out,
        subst
            (λ n.
              IsDecoded double now signals q n (loop_run double now signals all (entered q)).queues)
            (omega (
              arith,
              bound,
              (uninterrupted before testing q (λ e. ground (arith, e)) none).paired,
              stopped,
              bodies-append before (interrupts ∷ after) (entered q),
            ))
            (loop_run-IsDecoded double now signals all true testing q),
      )
