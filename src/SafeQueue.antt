-- ===== src/SafeQueue.antt =====
-- include/common/safe_queue.hpp: the queue that joins the gateway's threads.
--
-- The mutex makes each method one atomic step on the state, so a run of the threads is a list of
-- steps. A wait on the condition variable is modelled at the state in which it is left: `pop`
-- returns `blocked` where its predicate does not hold (the caller keeps waiting, and the same step
-- is tried again later), and `pop_for` is given the state at its wake-up or timeout.
pub mod Fifo
pub mod Monitor
pub mod Waiting
use sdv_edge_gateway.Common.{
  ℕ, Bool, true, false, not, ◌||◌, ◌&&◌, Option, none, some, List, [], ◌∷◌, ◌++◌, length,
  if◌then◌else◌,
}

pub record SafeQueue {ℓ} (A : Type ℓ) : Type ℓ where
  pub queue : List A  -- the front first
  pub is_shutdown : Bool

-- What a call of `pop` gives: an item, the exception after a shutdown, or no return yet.
pub data Popped {ℓ} (A : Type ℓ) : Type ℓ where
  item : A → Popped A
  throws : Popped A
  blocked : Popped A

module _ {ℓ} {A : Type ℓ} where
  unfoldable pub empty : SafeQueue A
  empty = record { queue = []; is_shutdown = false }

  unfoldable pub push : SafeQueue A → A → SafeQueue A
  push q a = record q { queue = q.queue ++ a ∷ [] }

  abbrev pub is_empty : List A → Bool
  is_empty [] = true
  is_empty (a ∷ as') = false

  -- The predicate of both waits.
  unfoldable pub may_wake : SafeQueue A → Bool
  may_wake q = not (is_empty q.queue) || q.is_shutdown

  -- `front` and `pop` of the std::queue, with what the caller does where it is empty.
  abbrev take_front {κ} : {R : Type κ} → SafeQueue A → List A → R → (A → R) → SafeQueue A × R
  take_front q [] otherwise found = (q, otherwise)
  take_front q (a ∷ rest) otherwise found = (record q { queue = rest }, found a)

  unfoldable pub pop : SafeQueue A → SafeQueue A × Popped A
  unfolding may_wake
  pop q = if may_wake q then take_front q q.queue throws item else (q, blocked)

  unfoldable pub try_pop : SafeQueue A → SafeQueue A × Option A
  try_pop q = take_front q q.queue none some

  unfoldable pub pop_for : SafeQueue A → SafeQueue A × Option A
  unfolding may_wake
  pop_for q = if may_wake q then take_front q q.queue none some else (q, none)

  unfoldable pub shutdown : SafeQueue A → SafeQueue A
  shutdown q = record q { is_shutdown = true }

  unfoldable pub size : SafeQueue A → ℕ
  size q = length q.queue

-- A step of some thread. A `pop` that finds nothing to do leaves the queue and is tried again.
pub data Op {ℓ} (A : Type ℓ) : Type ℓ where
  pushes : A → Op A
  pops try_pops waits shuts_down : Op A

module _ {ℓ} {A : Type ℓ} where
  abbrev pub delivered : Popped A → List A
  delivered (item a) = a ∷ []
  delivered throws = []
  delivered blocked = []

  abbrev pub delivered? : Option A → List A
  delivered? none = []
  delivered? (some a) = a ∷ []

  -- The new state, and the items that the step hands to its caller.
  unfoldable pub step : SafeQueue A → Op A → SafeQueue A × List A
  unfolding push pop try_pop pop_for shutdown
  step q (pushes a) = (push q a, [])
  step q pops = let (q', r) = pop q in (q', delivered r)
  step q try_pops = let (q', r) = try_pop q in (q', delivered? r)
  step q waits = let (q', r) = pop_for q in (q', delivered? r)
  step q shuts_down = (shutdown q, [])

  unfoldable pub run : SafeQueue A → List (Op A) → SafeQueue A × List A
  run q [] = (q, [])
  run q (op ∷ ops) = let (q', out) = step q op in let (q'', outs) = run q' ops in (q'', out ++ outs)

  abbrev pub pushed : Op A → List A
  pushed (pushes a) = a ∷ []
  pushed _ = []

  -- The items that a schedule pushes, in its order.
  abbrev pub all_pushed : List (Op A) → List A
  all_pushed [] = []
  all_pushed (op ∷ ops) = pushed op ++ all_pushed ops
