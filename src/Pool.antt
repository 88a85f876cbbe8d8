-- ===== src/Pool.antt =====
-- src/shared/thread_pool.c: the bounded queue between submitters and the workers of a pool. A task
-- is known by the number of its node. The queue and its size are read and written under the mutex;
-- the pause flag and the counters of the workers are not.
pub mod Steps
pub mod Fifo
pub mod Gate
pub mod Semaphore
pub mod Looks
pub mod Progress
use ps.Base.{
  ℕ, ◌+◌, ◌-◌, ◌%◌, ◌^◌, Bool, true, false, not, Option, none, some, List, [], ◌∷◌, ◌++◌, leb, ◌==◌,
  if◌then◌else◌, Status, success, unknown, out_of_memory, invalid_argument, resource_exhaustion,
  is_success, add32,
}

pub record Pool : Type 0 where
  pub qs : ℕ
  pub queue : List ℕ
  pub queue_size : ℕ
  pub active_threads : ℕ
  pub completed_tasks : ℕ
  pub paused : Bool

-- Workers and the two events are started by ps14_thread_pool_init; `alloc` tells whether its two calls
-- of malloc gave memory, `created` whether all workers could be created.
unfoldable pub pool_init : ℕ → ℕ → Bool → Bool → Status × Option Pool
pool_init tc qs alloc created =
    if tc == 0
    then (invalid_argument, none)
    else (if not alloc
        then (out_of_memory, none)
        else (if not created then (unknown, none) else (
          success,
          some (record {
            qs = qs;
            queue = [];
            queue_size = 0;
            active_threads = 0;
            completed_tasks = 0;
            paused = false;
          }),
        )))

-- A submission up to the lock; the pause flag is read without it. `task` is the address that malloc
-- gives, `none` if there is no memory.
unfoldable pub submit_check : Bool → Option ℕ → Pool → Status
submit_check false task p = invalid_argument
submit_check true none p = if p.paused then unknown else out_of_memory
submit_check true (some task) p = if p.paused then unknown else success

-- From the lock on: the new task is linked behind the last one.
unfoldable pub enqueue : ℕ → Pool → Status × Pool
enqueue task p =
    if leb p.qs p.queue_size
    then (resource_exhaustion, p)
    else (success, record p { queue = p.queue ++ task ∷ []; queue_size = add32 p.queue_size 1 })

-- A submission that no other thread disturbs.
unfoldable pub pool_submit : Bool → Option ℕ → Pool → Status × Pool
unfolding submit_check enqueue
pool_submit has_function none p = (submit_check has_function none p, p)
pool_submit has_function (some task) p =
    let status = submit_check has_function (some task) p in
    if is_success status then enqueue task p else (status, p)

-- A worker whose wait on the semaphore succeeded goes on to the lock if the pool is not paused, which it
-- reads without the lock; otherwise it signals the semaphore again.
unfoldable pub worker_check : Pool → Bool
worker_check p = not p.paused

-- Under the lock: the first task is taken off the queue, if there is one.
dequeue : List ℕ → Pool → Option ℕ × Pool
dequeue [] p = (none, p)
dequeue (t ∷ q) p =
    (some t, record p { queue = q; queue_size = (p.queue_size + 2 ^ 32 - 1) % 2 ^ 32 })

unfoldable pub worker_take : Pool → Option ℕ × Pool
unfolding dequeue
worker_take p = dequeue p.queue p

-- The changes of the counters around a task: active_threads++ before it, active_threads-- and
-- completed_tasks++ after it. They are made without the lock, and are not atomic: a worker loads the
-- counter and stores the new value later.
pub data Update : Type 0 where
  begin leave complete : Update

unfoldable pub load_counter : Update → Pool → ℕ
load_counter begin p = p.active_threads
load_counter leave p = p.active_threads
load_counter complete p = p.completed_tasks

-- The second argument is the value that was loaded.
unfoldable pub store_counter : Update → ℕ → Pool → Pool
store_counter begin loaded p = record p { active_threads = add32 loaded 1 }
store_counter leave loaded p = record p { active_threads = (loaded + 2 ^ 32 - 1) % 2 ^ 32 }
store_counter complete loaded p = record p { completed_tasks = add32 loaded 1 }

unfoldable pub pool_pause : Pool → Pool
pool_pause p = record p { paused = true }

unfoldable pub pool_resume : Pool → Pool
pool_resume p = record p { paused = false }

unfoldable pub pool_is_paused : Pool → Bool
pool_is_paused p = p.paused

-- Idle, active, total, queued and completed, for a pool of tc workers.
unfoldable pub pool_get_stats : ℕ → Pool → ℕ × ℕ × ℕ × ℕ × ℕ
pool_get_stats tc p = (
  (tc + 2 ^ 32 - p.active_threads) % 2 ^ 32,
  p.active_threads,
  tc,
  p.queue_size,
  p.completed_tasks,
)
