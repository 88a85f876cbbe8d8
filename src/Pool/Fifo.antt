-- ===== src/Pool/Fifo.antt =====
-- The order of tasks in every interleaving of the steps of src/shared/thread_pool.c.
use ps.Base.{
  ℕ, zero, suc, ◌^◌, ◌≤◌, ◌<◌, ◌≡◌, refl, sym, ap, ◌∙◌, inl, inr, true, Option, none, some, List,
  [], ◌∷◌, ◌++◌, arith, leb, Bool-cases, length, length-append, success, get_elem?, is_success,
}
use ps.Pool.{
  Pool, pool_init, submit_check, enqueue, worker_check, worker_take, dequeue, Update, begin, leave,
  complete, store_counter, pool_pause, pool_resume,
}
use ps.Pool.Steps.{
  Step, World, offer, link, check, take_task, load, store, finish, pause, resume, note, runs,
  take_checked, store_loaded, world_step, fresh,
}

-- What holds between any two steps: what was accepted is what was started and then the queue, in this
-- order; the counted size of the queue is its length, and within its limit.
pub record IsFifo (w : World) : Type 0 where
  pub order : w.accepted ≡ w.started ++ w.pool.queue
  pub counted : w.pool.queue_size ≡ length w.pool.queue
  pub bounded : w.pool.queue_size ≤ w.pool.qs
  pub small : w.pool.qs < 2 ^ 32

-- It is a statement on these parts of a world.
IsFifo-same :
    (w w' : World)
    → w'.accepted ≡ w.accepted
    → w'.started ≡ w.started
    → w'.pool.queue ≡ w.pool.queue
    → w'.pool.queue_size ≡ w.pool.queue_size
    → w'.pool.qs ≡ w.pool.qs
    → IsFifo w
    → IsFifo w'
IsFifo-same w w' a b c d e f = record {
  order = rw (a, b, c) f.order;
  counted = rw (c, d) f.counted;
  bounded = rw (d, e) f.bounded;
  small = rw e f.small;
}

append_assoc : (a b c : List ℕ) → (a ++ b) ++ c ≡ a ++ (b ++ c)
append_assoc [] b c = refl
append_assoc (x ∷ a) b c = ap (◌∷◌ x) (append_assoc a b c)

link-IsFifo : (t : ℕ) (w : World) → IsFifo w → IsFifo (world_step (link t) w)
unfolding world_step enqueue
link-IsFifo t w f = elim (Bool-cases (runs t w.offered)) [
  | inr e ↦ rw e f
  | inl e ↦ elim (Bool-cases (leb w.pool.qs w.pool.queue_size)) [
    | inl full ↦
        rw (e, full)
          (record { order = f.order; counted = f.counted; bounded = f.bounded; small = f.small })
    | inr room ↦
        let some_room : w.pool.queue_size < w.pool.qs = ground arith in
        rw (e, room)
          (record {
            order = ap (λ l. l ++ t ∷ []) f.order ∙ append_assoc w.started w.pool.queue (t ∷ []);
            counted =
                omega (arith, some_room, f.small, f.counted, length-append w.pool.queue (t ∷ []));
            bounded = omega (arith, some_room, f.small);
            small = f.small;
          })
  ]
]

take-IsFifo :
    (n : ℕ) (q : List ℕ) (w : World)
    → w.pool.queue ≡ q
    → IsFifo w
    → IsFifo (record w {
      pool = (dequeue q w.pool).1;
      checked = n;
      started = note (dequeue q w.pool).0 w.started;
      running = note (dequeue q w.pool).0 w.running;
    })
unfolding dequeue
take-IsFifo n [] w e f = record {
  order = f.order;
  counted = f.counted;
  bounded = f.bounded;
  small = f.small;
}
take-IsFifo n (t ∷ q) w e f = record {
  order = f.order ∙ ap (λ l. w.started ++ l) e ∙ sym (append_assoc w.started (t ∷ []) q);
  counted = omega (arith, ap length e, f.counted, f.bounded, f.small);
  bounded = omega (arith, ap length e, f.counted, f.bounded, f.small);
  small = f.small;
}

take_checked-IsFifo : (n : ℕ) (w : World) → IsFifo w → IsFifo (take_checked n w)
unfolding take_checked worker_take
take_checked-IsFifo zero w f = f
take_checked-IsFifo (suc n) w f = take-IsFifo n w.pool.queue w refl f

store_loaded-IsFifo :
    (o : Option (Update × ℕ)) (i : ℕ) (w : World) → IsFifo w → IsFifo (store_loaded o i w)
unfolding store_loaded store_counter
store_loaded-IsFifo none i w f = f
store_loaded-IsFifo (some (begin, v)) i w f = IsFifo-same w _ refl refl refl refl refl f
store_loaded-IsFifo (some (leave, v)) i w f = IsFifo-same w _ refl refl refl refl refl f
store_loaded-IsFifo (some (complete, v)) i w f = IsFifo-same w _ refl refl refl refl refl f

pub world_step-IsFifo : (s : Step) (w : World) → IsFifo w → IsFifo (world_step s w)
unfolding world_step pool_pause pool_resume
world_step-IsFifo (offer none) w f = f
world_step-IsFifo (offer (some t)) w f =
    elim (Bool-cases (is_success (submit_check true (some t) w.pool))) [
      | inl e ↦ rw e (IsFifo-same w _ refl refl refl refl refl f)
      | inr e ↦ rw e f
    ]
world_step-IsFifo (link t) w f = link-IsFifo t w f
world_step-IsFifo check w f = elim (Bool-cases (worker_check w.pool)) [
  | inl e ↦ rw e (IsFifo-same w _ refl refl refl refl refl f)
  | inr e ↦ rw e f
]
world_step-IsFifo take_task w f = take_checked-IsFifo w.checked w f
world_step-IsFifo (load u) w f = IsFifo-same w _ refl refl refl refl refl f
world_step-IsFifo (store i) w f = store_loaded-IsFifo (get_elem? w.loaded i) i w f
world_step-IsFifo (finish t) w f = elim (Bool-cases (runs t w.running)) [
  | inl e ↦ rw e (IsFifo-same w _ refl refl refl refl refl f)
  | inr e ↦ rw e f
]
world_step-IsFifo pause w f = IsFifo-same w _ refl refl refl refl refl f
world_step-IsFifo resume w f = IsFifo-same w _ refl refl refl refl refl f

pub fresh-IsFifo :
    (tc qs : ℕ) (p : Pool)
    → qs < 2 ^ 32
    → pool_init tc qs true true ≡ (success, some p)
    → IsFifo (fresh p)
unfolding pool_init
fresh-IsFifo tc qs p h e = record {
  order = queue_empty;
  counted = ground (arith, e);
  bounded = ground (arith, e);
  small = ground (arith, e, h);
}
  where
    queue_empty : [] ≡ p.queue
    queue_empty = ground (arith, e)
