-- ===== src/Worker.antt =====
-- The members `running_` and `thread_` of the modules that run a worker thread, and what `start` and
-- `stop` do with them. `has_thread` is std::thread::joinable: to assign to a joinable std::thread
-- calls std::terminate. That a thread can be made is taken for granted; whether it ends, so that the
-- join returns, is an answer that `main` finds.
use sdv_edge_gateway.Common.{Bool, true, false, if◌then◌else◌}

-- Where a thread is in a loop that tests a flag: before the test, between it and the end of the body,
-- or behind the loop.
pub data Place : Type 0 where
  testing in_body left : Place

pub record Worker : Type 0 where
  pub running : Bool
  pub has_thread : Bool

-- How a `start` ends: it returns, it waits for ever, or the process is terminated.
pub data Started {ℓ} (A : Type ℓ) : Type ℓ where
  returned : A → Bool → Started A
  hangs : A → Started A
  terminated : A → Started A

-- The result of a start, told of the object whose worker was started.
abbrev pub started_as {ℓ κ} : {A : Type ℓ} {B : Type κ} → (A → B) → Started A → Started B
started_as back (returned a ok) = returned (back a) ok
started_as back (hangs a) = hangs (back a)
started_as back (terminated a) = terminated (back a)

abbrev pub idle : Worker
idle = record { running = false; has_thread = false }

-- `running_ = true; thread_ = std::thread(...); return true;`
unfoldable pub spawn : Worker → Started Worker
spawn w =
    if w.has_thread
    then terminated (record w { running = true })
    else returned (record { running = true; has_thread = true }) true

-- `running_ = false; if (thread_.joinable()) thread_.join();`
unfoldable pub halt : Worker → Worker
halt w = record { running = false; has_thread = false }
