-- ===== src/Pool/Progress.antt =====
-- Tasks of src/shared/thread_pool.c that wait in the queue are started.
use ps.Base.{ℕ, ◌≡◌, List, ◌++◌, take}

-- `final` has `started`, then the first k tasks of a queue, and then perhaps more.
abbrev Starts : List ℕ → List ℕ → ℕ → List ℕ → Type 0
Starts final started k queue = (rest : List ℕ) × (final ≡ started ++ (take k queue ++ rest))
