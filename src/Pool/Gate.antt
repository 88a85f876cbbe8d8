-- ===== src/Pool/Gate.antt =====
-- The semaphore of src/shared/thread_pool.c, which a submitter signals after the lock, and on which a
-- worker waits before it: finer steps than those of Steps.
use ps.Base.{ℕ, ◌+◌, ◌-◌, Bool, true, false, ◌&&◌, List, [], ◌∷◌, ◌==◌, if◌then◌else◌, is_success}
use ps.Pool.{Pool, enqueue, worker_check}
use ps.Pool.Steps.{
  Step, World, offer, link, check, take_task, load, store, finish, pause, resume, world_step, fresh,
  runs,
}

-- The count of the semaphore, the threads that are about to signal it (submitters that have put a task
-- into the queue, workers that found the pool paused), and the workers whose wait succeeded and that have
-- not read the pause flag yet.
pub record Gate : Type 0 where
  pub world : World
  pub count : ℕ
  pub signalling : ℕ
  pub holding : ℕ

pub data Move : Type 0 where
  step : Step → Move
  signal : Move
  wait : Move

-- A worker with a permit, and whether it goes on to the lock: otherwise it is about to signal again.
unfoldable pub use_permit : Bool → Gate → Gate
unfolding world_step
use_permit true g = record g { world = world_step check g.world; holding = g.holding - 1 }
use_permit false g = record g { signalling = g.signalling + 1; holding = g.holding - 1 }

unfoldable pub check_gated : Gate → Gate
unfolding use_permit worker_check
check_gated g = if g.holding == 0 then g else use_permit (worker_check g.world.pool) g

-- Whether a submitter's part under the lock puts its task into the queue.
abbrev pub is_linked : ℕ → World → Bool
is_linked t w = runs t w.offered && is_success (enqueue t w.pool).0

unfoldable pub gate_step : Move → Gate → Gate
unfolding world_step check_gated enqueue runs
gate_step (step (offer task)) g = record g { world = world_step (offer task) g.world }
gate_step (step (link t)) g = record g {
  world = world_step (link t) g.world;
  signalling = if is_linked t g.world then g.signalling + 1 else g.signalling;
}
gate_step (step check) g = check_gated g
gate_step (step take_task) g = record g { world = world_step take_task g.world }
gate_step (step (load u)) g = record g { world = world_step (load u) g.world }
gate_step (step (store i)) g = record g { world = world_step (store i) g.world }
gate_step (step (finish t)) g = record g { world = world_step (finish t) g.world }
gate_step (step pause) g = record g { world = world_step pause g.world }
gate_step (step resume) g = record g { world = world_step resume g.world }
gate_step signal g =
    if g.signalling == 0 then g else record g { count = g.count + 1; signalling = g.signalling - 1 }
gate_step wait g =
    if g.count == 0 then g else record g { count = g.count - 1; holding = g.holding + 1 }

unfoldable pub gate_run : List Move → Gate → Gate
unfolding gate_step
gate_run [] g = g
gate_run (m ∷ moves) g = gate_run moves (gate_step m g)

-- A new pool, with its semaphore at 0.
abbrev pub closed : Pool → Gate
closed p = record { world = fresh p; count = 0; signalling = 0; holding = 0 }
