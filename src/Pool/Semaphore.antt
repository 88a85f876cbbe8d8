-- ===== src/Pool/Semaphore.antt =====
-- No permit of the semaphore of src/shared/thread_pool.c is lost.
use ps.Base.{
  ◌≤◌, success, ◌^◌, ℕ, zero, suc, ◌+◌, ◌<◌, ◌≡◌, refl, ap, Bool, true, false, Option, none, some,
  List, [], ◌∷◌, arith, leb, ◌==◌, if◌then◌else◌, inl, inr, Bool-cases, length, length-append,
  is_success, get_elem?,
}
use ps.Pool.{
  Pool, pool_init, submit_check, enqueue, worker_check, worker_take, dequeue, Update, begin, leave,
  complete, store_counter, pool_pause, pool_resume,
}
use ps.Pool.Steps.{
  World, offer, link, check, take_task, load, store, finish, pause, resume, world_step, runs,
  take_checked, store_loaded,
}
use ps.Pool.Fifo.{IsFifo, world_step-IsFifo, fresh-IsFifo}
use ps.Pool.Gate.{
  Gate, Move, step, signal, wait, use_permit, check_gated, is_linked, gate_step, gate_run, closed,
}

-- There is a permit for each task of the queue.
pub record IsGated (g : Gate) : Type 0 where
  pub fifo : IsFifo g.world
  pub permits : g.count + g.signalling + g.holding + g.world.checked ≡ length g.world.pool.queue

-- A step of a world that leaves the queue and the checked workers as they are.
IsGated-same :
    (g : Gate) (w : World)
    → IsFifo w
    → w.pool.queue ≡ g.world.pool.queue
    → w.checked ≡ g.world.checked
    → IsGated g
    → IsGated (record g { world = w })
IsGated-same g w f q c h = record { fifo = f; permits = rw (q, c) h.permits }

offer-kept :
    (task : Option ℕ) (w : World)
    → let w' = world_step (offer task) w in
      (w'.pool.queue ≡ w.pool.queue) × (w'.checked ≡ w.checked)
unfolding world_step
offer-kept none w = (refl, refl)
offer-kept (some t) w = elim (Bool-cases (is_success (submit_check true (some t) w.pool))) [
  | inl e ↦ rw e (refl, refl)
  | inr e ↦ rw e (refl, refl)
]

store_loaded-kept :
    (o : Option (Update × ℕ)) (i : ℕ) (w : World)
    → let w' = store_loaded o i w in (w'.pool.queue ≡ w.pool.queue) × (w'.checked ≡ w.checked)
unfolding store_loaded store_counter
store_loaded-kept none i w = (refl, refl)
store_loaded-kept (some (begin, v)) i w = (refl, refl)
store_loaded-kept (some (leave, v)) i w = (refl, refl)
store_loaded-kept (some (complete, v)) i w = (refl, refl)

finish-kept :
    (t : ℕ) (w : World)
    → let w' = world_step (finish t) w in (w'.pool.queue ≡ w.pool.queue) × (w'.checked ≡ w.checked)
unfolding world_step
finish-kept t w = elim (Bool-cases (runs t w.running)) [
  | inl e ↦ rw e (refl, refl)
  | inr e ↦ rw e (refl, refl)
]

link-length :
    (t : ℕ) (w : World)
    → let w' = world_step (link t) w in
      (length w'.pool.queue
        ≡ (if is_linked t w then length w.pool.queue + 1 else length w.pool.queue))
      × (w'.checked ≡ w.checked)
unfolding world_step enqueue
link-length t w = elim (Bool-cases (runs t w.offered)) [
  | inr e ↦ rw e (refl, refl)
  | inl e ↦ elim (Bool-cases (leb w.pool.qs w.pool.queue_size)) [
    | inl full ↦ rw (e, full) (refl, refl)
    | inr room ↦ rw (e, room) (length-append w.pool.queue (t ∷ []), refl)
  ]
]

link-IsGated : (t : ℕ) (g : Gate) → IsGated g → IsGated (gate_step (step (link t)) g)
unfolding gate_step world_step
link-IsGated t g h = record {
  fifo = world_step-IsFifo (link t) g.world h.fifo;
  permits = elim (Bool-cases (is_linked t g.world)) [
    | inl e ↦ ground (arith, e, link-length t g.world, h.permits)
    | inr e ↦ ground (arith, e, link-length t g.world, h.permits)
  ];
}

dequeue-length :
    (q : List ℕ) (p : Pool) → 0 < length q → length (dequeue q p).1.queue + 1 ≡ length q
unfolding dequeue
dequeue-length [] p h = absurd (omega arith)
dequeue-length (t ∷ q) p h = omega arith

-- A look for a task uses up a worker that has passed the check, and finds a task if there is one for each.
take_checked-length :
    (n : ℕ) (w : World)
    → w.checked ≡ n
    → n ≤ length w.pool.queue
    → let w' = take_checked n w in
      length w'.pool.queue + w.checked ≡ length w.pool.queue + w'.checked
unfolding take_checked worker_take
take_checked-length zero w e h = refl
take_checked-length (suc n) w e h =
    omega (arith, e, dequeue-length w.pool.queue w.pool (omega (arith, h)))

take-IsGated : (g : Gate) → IsGated g → IsGated (gate_step (step take_task) g)
unfolding gate_step world_step
take-IsGated g h = record {
  fifo = world_step-IsFifo take_task g.world h.fifo;
  permits = omega (
    arith,
    h.permits,
    take_checked-length g.world.checked g.world refl (omega (arith, h.permits)),
  );
}

use_permit-IsGated :
    (b : Bool) (g : Gate)
    → worker_check g.world.pool ≡ b
    → 0 < g.holding
    → IsGated g
    → IsGated (use_permit b g)
unfolding use_permit world_step
use_permit-IsGated true g e n h = record {
  fifo = world_step-IsFifo check g.world h.fifo;
  permits = rw e (omega (arith, h.permits));
}
use_permit-IsGated false g e n h = record { fifo = h.fifo; permits = omega (arith, h.permits) }

check_gated-IsGated : (g : Gate) → IsGated g → IsGated (check_gated g)
unfolding check_gated
check_gated-IsGated g h =
    elim (g.holding == 0)
        as (λ b.
          b ≡ (g.holding == 0)
          → IsGated (if b then g else use_permit (worker_check g.world.pool) g)) [
            | true ↦ λ e. h
            | false ↦
                λ e. use_permit-IsGated (worker_check g.world.pool) g refl (ground (arith, e)) h
          ]
      refl

gate_step-IsGated : (m : Move) (g : Gate) → IsGated g → IsGated (gate_step m g)
unfolding gate_step world_step pool_pause pool_resume
gate_step-IsGated (step (offer task)) g h =
    IsGated-same g _ (world_step-IsFifo (offer task) g.world h.fifo) (offer-kept task g.world).0
      (offer-kept task g.world).1 h
gate_step-IsGated (step (link t)) g h = link-IsGated t g h
gate_step-IsGated (step check) g h = check_gated-IsGated g h
gate_step-IsGated (step take_task) g h = take-IsGated g h
gate_step-IsGated (step (load u)) g h =
    IsGated-same g _ (world_step-IsFifo (load u) g.world h.fifo) refl refl h
gate_step-IsGated (step (store i)) g h =
    let kept = store_loaded-kept (get_elem? g.world.loaded i) i g.world in
    IsGated-same g _ (world_step-IsFifo (store i) g.world h.fifo) kept.0 kept.1 h
gate_step-IsGated (step (finish t)) g h =
    IsGated-same g _ (world_step-IsFifo (finish t) g.world h.fifo) (finish-kept t g.world).0
      (finish-kept t g.world).1 h
gate_step-IsGated (step pause) g h =
    IsGated-same g _ (world_step-IsFifo pause g.world h.fifo) refl refl h
gate_step-IsGated (step resume) g h =
    IsGated-same g _ (world_step-IsFifo resume g.world h.fifo) refl refl h
gate_step-IsGated signal g h = elim (Bool-cases (g.signalling == 0)) [
  | inl e ↦ rw e h
  | inr e ↦ rw e (record { fifo = h.fifo; permits = ground (arith, h.permits) })
]
gate_step-IsGated wait g h = elim (Bool-cases (g.count == 0)) [
  | inl e ↦ rw e h
  | inr e ↦ rw e (record { fifo = h.fifo; permits = ground (arith, h.permits) })
]

run-IsGated : (moves : List Move) (g : Gate) → IsGated g → IsGated (gate_run moves g)
unfolding gate_run
run-IsGated [] g h = h
run-IsGated (m ∷ moves) g h = run-IsGated moves (gate_step m g) (gate_step-IsGated m g h)

closed-IsGated :
    (tc qs : ℕ) (p : Pool)
    → qs < 2 ^ 32
    → pool_init tc qs true true ≡ (success, some p)
    → IsGated (closed p)
unfolding pool_init
closed-IsGated tc qs p h e = record {
  fifo = fresh-IsFifo tc qs p h e;
  permits = ap length queue_empty;
}
  where
    queue_empty : [] ≡ p.queue
    queue_empty = ground (arith, e)

-- No wake-up is lost: in every interleaving on a new pool with a queue of at most 2^32 - 1 tasks, where a
-- thread signals at some time after it has put a task into the queue or found the pool paused, and a
-- worker reads the pause flag at some time after its wait and takes the lock at some time after that, the
-- count of the semaphore, the threads that still have to signal, and the workers between their wait and
-- the lock are together the number of tasks in the queue. So a worker whose wait succeeded and that goes
-- on to the lock finds a task, and the count never exceeds the limit of the queue, which is the
-- semaphore's maximum.
pub gate_run-permits :
    (tc qs : ℕ) (p : Pool) (moves : List Move)
    → qs < 2 ^ 32
    → pool_init tc qs true true ≡ (success, some p)
    → let g = gate_run moves (closed p) in
      (g.count + g.signalling + g.holding + g.world.checked ≡ length g.world.pool.queue)
      × (g.holding + g.world.checked ≤ length g.world.pool.queue)
      × (g.count ≤ g.world.pool.qs)
gate_run-permits tc qs p moves h e =
    let i : IsGated (gate_run moves (closed p)) =
      run-IsGated moves (closed p) (closed-IsGated tc qs p h e) in
    (i.permits, omega (arith, i.permits), omega (arith, i.permits, i.fifo.counted, i.fifo.bounded))
