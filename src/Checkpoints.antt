-- ===== src/Checkpoints.antt =====
-- src/core/repair_system/state_roller.c: the list of state checkpoints, newest first. `none` as the
-- result of a call is the fault of reading through a NULL pointer.
pub mod Retention
pub mod Rollback
use ps.Base.{
  ℕ, zero, suc, ◌%◌, ◌^◌, Bool, true, false, Option, none, some, List, [], ◌∷◌, ltb, ◌==◌,
  if◌then◌else◌, length, Status, success, out_of_memory, invalid_argument, already_initialized,
}
use ps.Chain.{find_first}

-- Ps14RepairResult of include/ps14/repair.h.
pub data RepairResult : Type 0 where
  repaired failed partial skipped : RepairResult

pub record Checkpoint : Type 0 where
  pub sequence : ℕ
  pub timestamp : ℕ
  pub state_data : List ℕ
  pub data_size : ℕ

pub record Roller : Type 0 where
  pub checkpoints : List Checkpoint
  pub initialized : Bool
  pub max_checkpoints : ℕ

-- `max_backups` is the configured repair.max_backups; ps14_config_get never returns NULL.
unfoldable pub init_state_roller : ℕ → Roller → Status × Roller
init_state_roller max_backups r =
    if r.initialized
    then (already_initialized, r)
    else (success, record { checkpoints = []; initialized = true; max_checkpoints = max_backups })

unfoldable pub shutdown_state_roller : Roller → Roller
shutdown_state_roller r =
    if r.initialized then record r { checkpoints = []; initialized = false } else r

-- The inner loop and the removal after it, from `to_remove` on: the walk stops at the last node but
-- one, whose successor is freed. A walk that starts at the last node reads through NULL.
unfoldable pub remove_oldest : List Checkpoint → Option (List Checkpoint)
remove_oldest [] = none
remove_oldest (x ∷ []) = none
remove_oldest (x ∷ y ∷ []) = some (x ∷ [])
remove_oldest (x ∷ y ∷ z ∷ rest) = elim (remove_oldest (y ∷ z ∷ rest)) [
  | none ↦ none
  | some kept ↦ some (x ∷ kept)
]

-- while (count > g_max_checkpoints && g_checkpoints && g_checkpoints->next), on the count.
unfoldable pub trim : ℕ → ℕ → List Checkpoint → Option (List Checkpoint)
trim zero limit l = some l
trim (suc n) limit [] = some []
trim (suc n) limit (c ∷ []) = some (c ∷ [])
trim (suc n) limit (c ∷ d ∷ rest) =
    if ltb limit (suc n)
    then elim (remove_oldest (d ∷ rest)) [ none ↦ none | some kept ↦ trim n limit (c ∷ kept) ]
    else some (c ∷ d ∷ rest)

-- The new checkpoint is put in front, the nodes are counted in a u32, and the list is trimmed.
add_checkpoint : Checkpoint → Roller → Option (Status × Roller)
unfolding trim remove_oldest
add_checkpoint c r =
    elim (trim (length (c ∷ r.checkpoints) % 2 ^ 32) r.max_checkpoints (c ∷ r.checkpoints)) [
      | none ↦ none
      | some kept ↦ some (success, record r { checkpoints = kept })
    ]

-- `node` and `buffer` tell whether the two calls of malloc gave memory; the state data are their
-- bytes, `none` for NULL.
create_with : ℕ → List ℕ → Bool → Bool → ℕ → Roller → Option (Status × Roller)
unfolding add_checkpoint
create_with sequence bytes false buffer tick r = some (out_of_memory, r)
create_with sequence bytes true false tick r = some (out_of_memory, r)
create_with sequence bytes true true tick r =
    add_checkpoint
      (record {
        sequence = sequence;
        timestamp = tick;
        state_data = bytes;
        data_size = length bytes;
      })
      r

unfoldable pub create_checkpoint :
    ℕ → Option (List ℕ) → Bool → Bool → ℕ → ℕ → Roller → Option (Status × Roller)
unfolding create_with init_state_roller
create_checkpoint sequence none node buffer tick max_backups r = some (invalid_argument, r)
create_checkpoint sequence (some []) node buffer tick max_backups r = some (invalid_argument, r)
create_checkpoint sequence (some (x ∷ bytes)) node buffer tick max_backups r =
    create_with sequence (x ∷ bytes) node buffer tick
      (if r.initialized then r else (init_state_roller max_backups r).1)

unfoldable pub find_checkpoint_by_sequence : ℕ → Roller → Option Checkpoint
unfolding find_first
find_checkpoint_by_sequence sequence r = find_first (λ c. c.sequence == sequence) r.checkpoints

unfoldable pub rollback_to_sequence : ℕ → Roller → RepairResult
unfolding find_checkpoint_by_sequence
rollback_to_sequence sequence r = elim (find_checkpoint_by_sequence sequence r) [
  | none ↦ failed
  | some c ↦ repaired
]

head_sequence : List Checkpoint → ℕ
head_sequence [] = 0
head_sequence (c ∷ l) = c.sequence

unfoldable pub get_last_checkpoint_sequence : Roller → ℕ
unfolding head_sequence
get_last_checkpoint_sequence r = head_sequence r.checkpoints

unfoldable pub rollback_to_last_good : Roller → RepairResult
unfolding get_last_checkpoint_sequence rollback_to_sequence
rollback_to_last_good r =
    let last = get_last_checkpoint_sequence r in
    if last == 0 then failed else rollback_to_sequence last r
