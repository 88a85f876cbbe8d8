-- ===== src/Pool/Looks.antt =====
-- What one step of src/shared/thread_pool.c does to a pool that is not paused.
use ps.Base.{
  ℕ, zero, suc, ◌+◌, ◌≡◌, refl, sym, ◌∙◌, inl, inr, Bool, true, false, ◌||◌, Option, none, some,
  List, [], ◌∷◌, ◌++◌, arith, leb, if◌then◌else◌, Bool-cases, take, ◌-◌, drop, get_elem?,
  is_success,
}
use mathlib.Core.Path.{subst}
use mathlib.Core.List.{append-nil}
use ps.Pool.Steps.{
  Step, offer, link, check, take_task, load, store, finish, pause, resume, World, world_step,
  take_checked, store_loaded, runs, note,
}
use ps.Pool.{
  Update, begin, leave, complete, submit_check, enqueue, dequeue, worker_check, worker_take,
  store_counter, pool_resume,
}

-- Whether a step is a look for a task under the lock, by one of n workers that have passed the check.
abbrev pub is_look : ℕ → Step → Bool
is_look zero s = false
is_look (suc n) take_task = true
is_look (suc n) _ = false

abbrev pub is_pause : Step → Bool
is_pause pause = true
is_pause _ = false

-- The number of workers that have passed the check after a step, in a pool that is not paused.
abbrev pub checked_after : ℕ → Step → ℕ
checked_after n check = n + 1
checked_after n take_task = n - 1
checked_after n _ = n

-- The number of looks for a task, from n workers that have passed the check on, and whether a step pauses
-- the pool.
abbrev pub looks : ℕ → List Step → ℕ
looks n [] = 0
looks n (s ∷ steps) = (if is_look n s then 1 else 0) + looks (checked_after n s) steps

abbrev pub pauses : List Step → Bool
pauses [] = false
pauses (s ∷ steps) = is_pause s || pauses steps

-- What a step does to the queue, the started tasks and the flag, apart from a look.
pub record Keeps (w w' : World) : Type 0 where
  pub new : List ℕ
  pub grown : w'.pool.queue ≡ w.pool.queue ++ new
  pub same : w'.started ≡ w.started
  pub flag : w'.pool.paused ≡ w.pool.paused

Keeps-same :
    (w w' : World)
    → w'.pool.queue ≡ w.pool.queue
    → w'.started ≡ w.started
    → w'.pool.paused ≡ w.pool.paused
    → Keeps w w'
Keeps-same w w' q s p = record {
  new = [];
  grown = q ∙ sym (append-nil w.pool.queue);
  same = s;
  flag = p;
}

link-Keeps : (t : ℕ) (w : World) → Keeps w (world_step (link t) w)
unfolding world_step enqueue
link-Keeps t w = elim (Bool-cases (runs t w.offered)) [
  | inr e ↦ rw e (Keeps-same w w refl refl refl)
  | inl e ↦ elim (Bool-cases (leb w.pool.qs w.pool.queue_size)) [
    | inl full ↦ rw (e, full) (Keeps-same w _ refl refl refl)
    | inr room ↦ rw (e, room) (record { new = t ∷ []; grown = refl; same = refl; flag = refl })
  ]
]

store_loaded-Keeps : (o : Option (Update × ℕ)) (i : ℕ) (w : World) → Keeps w (store_loaded o i w)
unfolding store_loaded store_counter
store_loaded-Keeps none i w = Keeps-same w w refl refl refl
store_loaded-Keeps (some (begin, v)) i w = Keeps-same w _ refl refl refl
store_loaded-Keeps (some (leave, v)) i w = Keeps-same w _ refl refl refl
store_loaded-Keeps (some (complete, v)) i w = Keeps-same w _ refl refl refl

take_checked-Keeps : (n : ℕ) (w : World) → is_look n take_task ≡ false → Keeps w (take_checked n w)
unfolding take_checked
take_checked-Keeps zero w e = Keeps-same w w refl refl refl
take_checked-Keeps (suc n) w e = cc

-- A step that is no look and no pause: it may add a task to the queue.
pub step-Keeps :
    (s : Step) (w : World)
    → w.pool.paused ≡ false
    → is_look w.checked s ≡ false
    → is_pause s ≡ false
    → Keeps w (world_step s w)
unfolding world_step pool_resume
step-Keeps (offer none) w p e h = Keeps-same w w refl refl refl
step-Keeps (offer (some t)) w p e h =
    elim (Bool-cases (is_success (submit_check true (some t) w.pool))) [
      | inl c ↦ rw c (Keeps-same w _ refl refl refl)
      | inr c ↦ rw c (Keeps-same w w refl refl refl)
    ]
step-Keeps (link t) w p e h = link-Keeps t w
step-Keeps check w p e h = elim (Bool-cases (worker_check w.pool)) [
  | inl c ↦ rw c (Keeps-same w _ refl refl refl)
  | inr c ↦ rw c (Keeps-same w w refl refl refl)
]
step-Keeps take_task w p e h = take_checked-Keeps w.checked w e
step-Keeps (load u) w p e h = Keeps-same w _ refl refl refl
step-Keeps (store i) w p e h = store_loaded-Keeps (get_elem? w.loaded i) i w
step-Keeps (finish t) w p e h = elim (Bool-cases (runs t w.running)) [
  | inl c ↦ rw c (Keeps-same w _ refl refl refl)
  | inr c ↦ rw c (Keeps-same w w refl refl refl)
]
step-Keeps pause w p e h = cc
step-Keeps resume w p e h = Keeps-same w _ refl refl (sym p)

store_loaded-checked :
    (o : Option (Update × ℕ)) (i : ℕ) (w : World) → (store_loaded o i w).checked ≡ w.checked
unfolding store_loaded
store_loaded-checked none i w = refl
store_loaded-checked (some u) i w = refl

take_checked-checked : (n : ℕ) (w : World) → w.checked ≡ n → (take_checked n w).checked ≡ n - 1
unfolding take_checked
take_checked-checked zero w e = omega (arith, e)
take_checked-checked (suc n) w e = omega arith

pub step-checked :
    (s : Step) (w : World)
    → w.pool.paused ≡ false
    → (world_step s w).checked ≡ checked_after w.checked s
unfolding world_step worker_check
step-checked (offer none) w p = refl
step-checked (offer (some t)) w p =
    elim (Bool-cases (is_success (submit_check true (some t) w.pool))) [
      | inl c ↦ rw c refl
      | inr c ↦ rw c refl
    ]
step-checked (link t) w p = elim (Bool-cases (runs t w.offered)) [
  | inl c ↦ rw c refl
  | inr c ↦ rw c refl
]
step-checked check w p = ground (arith, p)
step-checked take_task w p = take_checked-checked w.checked w refl
step-checked (load u) w p = refl
step-checked (store i) w p = store_loaded-checked (get_elem? w.loaded i) i w
step-checked (finish t) w p = elim (Bool-cases (runs t w.running)) [
  | inl c ↦ rw c refl
  | inr c ↦ rw c refl
]
step-checked pause w p = refl
step-checked resume w p = refl

-- What a look does to a queue, the started tasks and the flag.
take-look :
    (n : ℕ) (q : List ℕ) (w : World)
    → let r = dequeue q w.pool in
      (r.1.paused ≡ w.pool.paused)
      × (note r.0 w.started ≡ w.started ++ take 1 q)
      × (w.pool.queue ≡ q → r.1.queue ≡ drop 1 q)
unfolding dequeue
take-look n [] w = (refl, sym (append-nil w.started), λ e. e)
take-look n (t ∷ q) w = (refl, refl, λ e. refl)

look-starts :
    (n : ℕ) (w : World)
    → is_look n take_task ≡ true
    → let w' = take_checked n w in
      (w'.pool.paused ≡ w.pool.paused)
      × (w'.started ≡ w.started ++ take 1 w.pool.queue)
      × (w'.pool.queue ≡ drop 1 w.pool.queue)
unfolding take_checked worker_take
look-starts zero w e = cc
look-starts (suc n) w e = let r = take-look n w.pool.queue w in (r.0, r.1, r.2 refl)

is_look-eq : (n : ℕ) (s : Step) → is_look n s ≡ true → s ≡ take_task
is_look-eq zero s e = cc
is_look-eq (suc n) take_task e = refl
is_look-eq (suc n) (offer t) e = cc
is_look-eq (suc n) (link t) e = cc
is_look-eq (suc n) check e = cc
is_look-eq (suc n) (load u) e = cc
is_look-eq (suc n) (store i) e = cc
is_look-eq (suc n) (finish t) e = cc
is_look-eq (suc n) pause e = cc
is_look-eq (suc n) resume e = cc

pub step-look :
    (s : Step) (w : World)
    → is_look w.checked s ≡ true
    → let w' = world_step s w in
      (w'.pool.paused ≡ w.pool.paused)
      × (w'.started ≡ w.started ++ take 1 w.pool.queue)
      × (w'.pool.queue ≡ drop 1 w.pool.queue)
unfolding world_step
step-look s w e =
    let same : s ≡ take_task = is_look-eq w.checked s e in
    rw same (look-starts w.checked w (subst (λ x. is_look w.checked x ≡ true) same e))
