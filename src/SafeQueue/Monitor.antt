-- ===== src/SafeQueue/Monitor.antt =====
-- SafeQueue with its mutex and its condition variable: the threads inside its methods.
--
-- Each step is what one thread does while it holds the mutex, or a notification. `push` is two of
-- them, since it notifies after it has let the mutex go; a wait is left when the thread is notified,
-- when its time has run out, or for no reason, and the thread then takes the mutex again and looks.
use sdv_edge_gateway.Common.{ℕ, suc, ◌+◌, Bool, true, false, List, [], ◌∷◌, ◌++◌}

-- `waiting` threads are blocked in the condition variable, `woken` ones have been let go and have not
-- yet looked, and `notifying` ones have pushed and have not yet notified.
pub record Monitor {ℓ} (A : Type ℓ) : Type ℓ where
  pub queue : List A
  pub is_shutdown : Bool
  pub waiting : ℕ
  pub woken : ℕ
  pub notifying : ℕ

module _ {ℓ} {A : Type ℓ} where
  -- A new queue, with no thread in it.
  unfoldable pub new : Monitor A
  new = record { queue = []; is_shutdown = false; waiting = 0; woken = 0; notifying = 0 }

  -- A step of some thread, with the items that it hands to its caller.
  pub data Step : Monitor A → List A → Monitor A → Type ℓ where
    -- push: the locked part, and then notify_one.
    enqueues :
        {q : List A} {s : Bool} {w k n : ℕ} (a : A)
        → Step
            (record { queue = q; is_shutdown = s; waiting = w; woken = k; notifying = n })
            []
            (record {
              queue = q ++ a ∷ [];
              is_shutdown = s;
              waiting = w;
              woken = k;
              notifying = suc n;
            })
    notifies :
        {q : List A} {s : Bool} {w k n : ℕ}
        → Step
            (record { queue = q; is_shutdown = s; waiting = suc w; woken = k; notifying = suc n })
            []
            (record { queue = q; is_shutdown = s; waiting = w; woken = suc k; notifying = n })
    notifies_nobody :
        {q : List A} {s : Bool} {k n : ℕ}
        → Step
            (record { queue = q; is_shutdown = s; waiting = 0; woken = k; notifying = suc n })
            []
            (record { queue = q; is_shutdown = s; waiting = 0; woken = k; notifying = n })
    -- pop, pop_for and try_pop on a queue that holds an item.
    takes :
        {a : A} {q : List A} {s : Bool} {w k n : ℕ}
        → Step
            (record { queue = a ∷ q; is_shutdown = s; waiting = w; woken = k; notifying = n })
            (a ∷ [])
            (record { queue = q; is_shutdown = s; waiting = w; woken = k; notifying = n })
    -- pop and pop_for on an empty queue: the predicate of the wait is false.
    waits :
        {w k n : ℕ}
        → Step
            (record { queue = []; is_shutdown = false; waiting = w; woken = k; notifying = n })
            []
            (record { queue = []; is_shutdown = false; waiting = suc w; woken = k; notifying = n })
    -- A timeout, or a wake-up for no reason.
    wakes :
        {q : List A} {s : Bool} {w k n : ℕ}
        → Step
            (record { queue = q; is_shutdown = s; waiting = suc w; woken = k; notifying = n })
            []
            (record { queue = q; is_shutdown = s; waiting = w; woken = suc k; notifying = n })
    -- A woken thread looks: it takes an item; or it finds nothing, and goes back to wait, or leaves
    -- since its time has run out or the queue is stopped.
    resumes :
        {a : A} {q : List A} {s : Bool} {w k n : ℕ}
        → Step
            (record { queue = a ∷ q; is_shutdown = s; waiting = w; woken = suc k; notifying = n })
            (a ∷ [])
            (record { queue = q; is_shutdown = s; waiting = w; woken = k; notifying = n })
    waits_again :
        {w k n : ℕ}
        → Step
            (record { queue = []; is_shutdown = false; waiting = w; woken = suc k; notifying = n })
            []
            (record { queue = []; is_shutdown = false; waiting = suc w; woken = k; notifying = n })
    gives_up :
        {s : Bool} {w k n : ℕ}
        → Step
            (record { queue = []; is_shutdown = s; waiting = w; woken = suc k; notifying = n })
            []
            (record { queue = []; is_shutdown = s; waiting = w; woken = k; notifying = n })
    -- shutdown: notify_all.
    shuts_down :
        {q : List A} {s : Bool} {w k n : ℕ}
        → Step
            (record { queue = q; is_shutdown = s; waiting = w; woken = k; notifying = n })
            []
            (record { queue = q; is_shutdown = true; waiting = 0; woken = w + k; notifying = n })

  -- The executions, with all the items handed out, in order.
  pub data Reaches (m : Monitor A) : List A → Monitor A → Type ℓ where
    here : Reaches m [] m
    then_step :
        {out more : List A} {m' m'' : Monitor A}
        → Reaches m out m'
        → Step m' more m''
        → Reaches m (out ++ more) m''
