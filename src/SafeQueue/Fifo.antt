-- ===== src/SafeQueue/Fifo.antt =====
-- What goes into a SafeQueue comes out once and in order, and shutdown wakes every waiter.
use sdv_edge_gateway.Common.{
  length, ◌+◌, ◌≤◌, ◌⊎◌, ◌≡◌, ◌≢◌, refl, ap, ap₂, sym, ◌∙◌, true, List, [], ◌∷◌, ◌++◌, append-nil,
  append_assoc, arith,
}
use sdv_edge_gateway.SafeQueue.{
  SafeQueue, shutdown, Op, pushes, pops, try_pops, waits, shuts_down, throws, blocked, pop, pop_for,
  delivered?, step, run, pushed, all_pushed,
}

module _ {ℓ} {A : Type ℓ} where
  step_fifo :
      (q : SafeQueue A) (items : List A) (op : Op A)
      → q.queue ≡ items
      → (step q op).1 ++ (step q op).0.queue ≡ q.queue ++ pushed op
  unfolding step
  step_fifo q items (pushes a) e = refl
  step_fifo q [] pops e = ground (arith, append-nil q.queue)
  step_fifo q (x ∷ xs) pops e = ground (arith, append-nil q.queue)
  step_fifo q [] try_pops e = ground (arith, append-nil q.queue)
  step_fifo q (x ∷ xs) try_pops e = ground (arith, append-nil q.queue)
  step_fifo q [] waits e = ground (arith, append-nil q.queue)
  step_fifo q (x ∷ xs) waits e = ground (arith, append-nil q.queue)
  step_fifo q items shuts_down e = sym (append-nil q.queue)

  -- Whatever the threads do, in any interleaving, the items handed out and then the items still
  -- queued are the items queued at the start and then the items pushed: nothing is lost, made up,
  -- duplicated or reordered, also across a shutdown.
  pub run_fifo :
      (q : SafeQueue A) (ops : List (Op A))
      → (run q ops).1 ++ (run q ops).0.queue ≡ q.queue ++ all_pushed ops
  unfolding run
  run_fifo q [] = sym (append-nil q.queue)
  run_fifo q (op ∷ ops) =
      append_assoc (step q op).1 (run (step q op).0 ops).1 (run (step q op).0 ops).0.queue
      ∙ ap (◌++◌ (step q op).1) (run_fifo (step q op).0 ops)
      ∙ sym (append_assoc (step q op).1 (step q op).0.queue (all_pushed ops))
      ∙ ap (λ l. l ++ all_pushed ops) (step_fifo q q.queue op refl)
      ∙ append_assoc q.queue (pushed op) (all_pushed ops)

  -- After `shutdown` no `pop` blocks, and one throws only if nothing was left in the queue; a `pop`
  -- of any queue throws only if that queue is stopped.
  pop-shutdown :
      (q : SafeQueue A)
      → ((pop (shutdown q)).1 ≢ blocked)
        × (((pop (shutdown q)).1 ≢ throws) ⊎ (q.queue ≡ []))
        × (((pop q).1 ≢ throws) ⊎ (q.is_shutdown ≡ true))
  unfolding pop shutdown
  pop-shutdown q = (λ e. ground arith, ground arith, ground arith)

-- What a pop takes is what the queue had in front.
pub pop_for-front {ℓ} :
    {A : Type ℓ} (q : SafeQueue A) (items : List A)
    → q.queue ≡ items
    → q.queue ≡ delivered? (pop_for q).1 ++ (pop_for q).0.queue
unfolding pop_for
pop_for-front q [] e = ground arith
pop_for-front q (x ∷ xs) e = ground arith

-- A pop shortens a queue that holds something.
pub length-pop_for {ℓ} :
    {A : Type ℓ} (q : SafeQueue A) (items : List A)
    → q.queue ≡ items
    → (length (pop_for q).0.queue + 1 ≤ length q.queue) ⊎ (length (pop_for q).0.queue ≡ 0)
unfolding pop_for
length-pop_for q [] e = ground (arith, e)
length-pop_for q (x ∷ xs) e = ground (arith, e)

-- A pop leaves the queue as it was, but for what it takes from the front.
pop_for-is_shutdown {ℓ} :
    {A : Type ℓ} (q : SafeQueue A) (items : List A)
    → q.queue ≡ items
    → q.is_shutdown ≡ (pop_for q).0.is_shutdown
unfolding pop_for
pop_for-is_shutdown q [] e = ground arith
pop_for-is_shutdown q (x ∷ xs) e = ground arith

pub pop_for-rest {ℓ} :
    {A : Type ℓ} (got : List A) (q : SafeQueue A)
    → record q { queue = got ++ q.queue }
      ≡ record ((pop_for q).0) { queue = (got ++ delivered? (pop_for q).1) ++ (pop_for q).0.queue }
pop_for-rest {A = A} got q =
    ap₂ (λ (l : List A) b. record { queue = l; is_shutdown = b })
      (ap (◌++◌ got) (pop_for-front q q.queue refl)
        ∙ sym (append_assoc got (delivered? (pop_for q).1) (pop_for q).0.queue))
      (pop_for-is_shutdown q q.queue refl)
