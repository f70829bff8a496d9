-- ===== src/SafeQueue/Waiting.antt =====
-- No thread sleeps on an item, and the monitor is a queue of atomic steps.
use sdv_edge_gateway.Common.{
  ◌+◌, ◌≤◌, ◌≡◌, ◌⊎◌, inl, inr, refl, sym, ap, ◌∙◌, false, List, [], ◌∷◌, ◌++◌, append_assoc,
  length, length-append, arith,
}
use sdv_edge_gateway.SafeQueue
use sdv_edge_gateway.SafeQueue.{
  SafeQueue, push, pop, shutdown, may_wake, Op, pushes, pops, step, run,
}
use sdv_edge_gateway.SafeQueue.Monitor
use sdv_edge_gateway.SafeQueue.Monitor.{
  Monitor, new, Step, enqueues, notifies, notifies_nobody, takes, wakes, resumes, waits_again,
  gives_up, Reaches, here, then_step,
}

module _ {ℓ} {A : Type ℓ} where
  -- If a thread waits, each queued item has a woken thread or a notification on its way; and nobody
  -- waits on a stopped queue.
  pub record IsAwake (m : Monitor A) : Type 0 where
    pub covered : (m.waiting ≡ 0) ⊎ (length m.queue ≤ m.woken + m.notifying)
    pub left : (m.is_shutdown ≡ false) ⊎ (m.waiting ≡ 0)

  Step-IsAwake : {m m' : Monitor A} {out : List A} → Step m out m' → IsAwake m → IsAwake m'
  Step-IsAwake (enqueues {q = q} a) h = record {
    covered = ground (arith, h.covered, length-append q (a ∷ []));
    left = h.left;
  }
  Step-IsAwake notifies h = record {
    covered = ground (arith, h.covered);
    left = ground (arith, h.left);
  }
  Step-IsAwake notifies_nobody h = record { covered = inl refl; left = inr refl }
  Step-IsAwake takes h = record { covered = ground (arith, h.covered); left = h.left }
  Step-IsAwake Monitor.waits h = record { covered = inr (omega arith); left = inl refl }
  Step-IsAwake wakes h = record {
    covered = ground (arith, h.covered);
    left = ground (arith, h.left);
  }
  Step-IsAwake resumes h = record { covered = ground (arith, h.covered); left = h.left }
  Step-IsAwake waits_again h = record { covered = inr (omega arith); left = inl refl }
  Step-IsAwake gives_up h = record { covered = inr (omega arith); left = h.left }
  Step-IsAwake Monitor.shuts_down h = record { covered = inl refl; left = inr refl }

  Reaches-IsAwake : {m m' : Monitor A} {out : List A} → Reaches m out m' → IsAwake m → IsAwake m'
  Reaches-IsAwake here h = h
  Reaches-IsAwake (then_step r s) h = Step-IsAwake s (Reaches-IsAwake r h)

  -- The queue as its clients see it: without the threads inside its methods.
  abbrev pub seen : Monitor A → SafeQueue A
  seen m = record { queue = m.queue; is_shutdown = m.is_shutdown }

  -- Some atomic operations of the queue that have the same effect, and hand out the same items.
  abbrev pub IsAtomic : SafeQueue A → List A → SafeQueue A → Type ℓ
  IsAtomic q out q' = (ops : List (Op A)) × (run q ops ≡ (q', out))

  Step-IsAtomic :
      {m m' : Monitor A} {out : List A} → Step m out m' → IsAtomic (seen m) out (seen m')
  unfolding run step push pop shutdown may_wake
  Step-IsAtomic (enqueues a) = (pushes a ∷ [], refl)
  Step-IsAtomic notifies = ([], refl)
  Step-IsAtomic notifies_nobody = ([], refl)
  Step-IsAtomic takes = (pops ∷ [], refl)
  Step-IsAtomic Monitor.waits = ([], refl)
  Step-IsAtomic wakes = ([], refl)
  Step-IsAtomic resumes = (pops ∷ [], refl)
  Step-IsAtomic waits_again = ([], refl)
  Step-IsAtomic gives_up = ([], refl)
  Step-IsAtomic Monitor.shuts_down = (SafeQueue.shuts_down ∷ [], refl)

  run-append :
      (q : SafeQueue A) (ops more : List (Op A))
      → run q (ops ++ more)
        ≡ ((run (run q ops).0 more).0, (run q ops).1 ++ (run (run q ops).0 more).1)
  unfolding run
  run-append q [] more = refl
  run-append q (op ∷ ops) more =
      ap (λ (r : SafeQueue A × List A). (r.0, (step q op).1 ++ r.1))
        (run-append (step q op).0 ops more)
      ∙ ap (λ l. ((run (run (step q op).0 ops).0 more).0, l))
          (sym (append_assoc (step q op).1 (run (step q op).0 ops).1 _))

  IsAtomic-trans :
      (q q' q'' : SafeQueue A) (out more : List A)
      → IsAtomic q out q'
      → IsAtomic q' more q''
      → IsAtomic q (out ++ more) q''
  IsAtomic-trans q q' q'' out more (ops, e) (ops', e') = (
    ops ++ ops',
    run-append q ops ops'
        ∙ ap (λ (r : SafeQueue A × List A). ((run r.0 ops').0, r.1 ++ (run r.0 ops').1)) e
        ∙ ap (λ (r : SafeQueue A × List A). (r.0, out ++ r.1)) e',
  )

  -- Every execution of the monitor, with its threads between two of their steps, has the effect of
  -- some sequence of the queue's atomic operations, and hands out the same items in the same order.
  pub Reaches-IsAtomic :
      {m m' : Monitor A} {out : List A} → Reaches m out m' → IsAtomic (seen m) out (seen m')
  unfolding run
  Reaches-IsAtomic here = ([], refl)
  Reaches-IsAtomic (then_step r s) = IsAtomic-trans _ _ _ _ _ (Reaches-IsAtomic r) (Step-IsAtomic s)

  new-IsAwake : IsAwake new
  unfolding new
  new-IsAwake = record { covered = inl refl; left = inl refl }

  asleep :
      (m : Monitor A) (q : List A)
      → m.queue ≡ q
      → IsAwake m
      → m.notifying ≡ 0
      → m.woken ≡ 0
      → (m.waiting ≡ 0) ⊎ ((m.queue ≡ []) × (m.is_shutdown ≡ false))
  asleep m [] e h n k = ground (arith, h.covered, h.left)
  asleep m (a ∷ q) e h n k = ground (arith, h.covered, h.left)

  -- No wake-up is lost: in every state that the threads of a new queue can reach, once all pushes have
  -- notified and all woken threads have looked, a thread waits only on an empty queue that is not
  -- stopped.
  pub no_lost_wakeup :
      (m : Monitor A) (out : List A)
      → Reaches new out m
      → m.notifying ≡ 0
      → m.woken ≡ 0
      → (m.waiting ≡ 0) ⊎ ((m.queue ≡ []) × (m.is_shutdown ≡ false))
  no_lost_wakeup m out r n k = asleep m m.queue refl (Reaches-IsAwake r new-IsAwake) n k
