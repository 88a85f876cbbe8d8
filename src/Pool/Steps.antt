-- ===== src/Pool/Steps.antt =====
-- The steps that submitters and workers of src/shared/thread_pool.c take, and what a sequence of them
-- does. What a thread does under the lock is one step; what it does before and after the lock are others.
use ps.Base.{
  ℕ, zero, suc, ◌+◌, Bool, true, false, ◌||◌, Option, none, some, List, [], ◌∷◌, ◌++◌, ◌==◌,
  if◌then◌else◌, get_elem?, Status, success, is_success,
}
use ps.Pool.{
  Pool, submit_check, enqueue, worker_check, worker_take, Update, load_counter, store_counter,
  pool_pause, pool_resume,
}

-- A step of some thread: `offer` is a submission up to the lock, with malloc's answer, and `link` its part
-- under the lock; `check` is a worker whose wait succeeded and that reads the pause flag, and `take_task`
-- its part under the lock; `finish` is the return of the task given. `load` and `store` are the halves of
-- a change of a counter; `store` has the place of the value among those that are loaded and not stored.
-- Which worker changes a counter when is left open.
pub data Step : Type 0 where
  offer : Option ℕ → Step
  link : ℕ → Step
  check : Step
  take_task : Step
  load : Update → Step
  store : ℕ → Step
  finish : ℕ → Step
  pause : Step
  resume : Step

-- The pool; the tasks of submitters before the lock; the tasks accepted and started so far, in the order
-- in which this happened; the number of workers between the check and the lock; the tasks that workers
-- hold; and the loaded values of counters.
pub record World : Type 0 where
  pub pool : Pool
  pub offered : List ℕ
  pub accepted : List ℕ
  pub checked : ℕ
  pub started : List ℕ
  pub running : List ℕ
  pub loaded : List (Update × ℕ)

abbrev pub note : Option ℕ → List ℕ → List ℕ
note none l = l
note (some t) l = l ++ t ∷ []

-- The task that an accepted submission was of.
abbrev pub taken_in : Status → Option ℕ → Option ℕ
taken_in success task = task
taken_in _ task = none

unfoldable pub remove_one : ℕ → List ℕ → List ℕ
remove_one t [] = []
remove_one t (x ∷ l) = if x == t then l else x ∷ remove_one t l

unfoldable pub runs : ℕ → List ℕ → Bool
runs t [] = false
runs t (x ∷ l) = (x == t) || runs t l

abbrev pub remove_nth {ℓ} : {A : Type ℓ} → ℕ → List A → List A
remove_nth i [] = []
remove_nth zero (x ∷ l) = l
remove_nth (suc i) (x ∷ l) = x ∷ remove_nth i l

-- A worker under the lock, if one has passed the check.
unfoldable pub take_checked : ℕ → World → World
unfolding worker_take
take_checked zero w = w
take_checked (suc others) w =
    let r = worker_take w.pool in
    record w {
      pool = r.1;
      checked = others;
      started = note r.0 w.started;
      running = note r.0 w.running;
    }

unfoldable pub store_loaded : Option (Update × ℕ) → ℕ → World → World
unfolding store_counter
store_loaded none i w = w
store_loaded (some (u, v)) i w = record w {
  pool = store_counter u v w.pool;
  loaded = remove_nth i w.loaded;
}

unfoldable pub world_step : Step → World → World
unfolding submit_check enqueue worker_check take_checked load_counter store_loaded remove_one runs
world_step (offer none) w = w
world_step (offer (some t)) w =
    if is_success (submit_check true (some t) w.pool)
    then record w { offered = w.offered ++ t ∷ [] }
    else w
world_step (link t) w =
    let r = enqueue t w.pool in
    if runs t w.offered
    then record w {
      pool = r.1;
      offered = remove_one t w.offered;
      accepted = note (taken_in r.0 (some t)) w.accepted;
    }
    else w
world_step check w = if worker_check w.pool then record w { checked = w.checked + 1 } else w
world_step take_task w = take_checked w.checked w
world_step (load u) w = record w { loaded = w.loaded ++ (u, load_counter u w.pool) ∷ [] }
world_step (store i) w = store_loaded (get_elem? w.loaded i) i w
world_step (finish t) w =
    if runs t w.running then record w { running = remove_one t w.running } else w
world_step pause w = record w { pool = pool_pause w.pool }
world_step resume w = record w { pool = pool_resume w.pool }

unfoldable pub world_run : List Step → World → World
unfolding world_step
world_run [] w = w
world_run (s ∷ steps) w = world_run steps (world_step s w)

-- The world of a pool that was just created.
abbrev pub fresh : Pool → World
fresh p = record {
  pool = p;
  offered = [];
  accepted = [];
  checked = 0;
  started = [];
  running = [];
  loaded = [];
}
