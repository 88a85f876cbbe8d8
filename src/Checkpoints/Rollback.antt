-- ===== src/Checkpoints/Rollback.antt =====
-- Rolling back to what src/core/repair_system/state_roller.c took last.
use ps.Base.{
  ℕ, zero, suc, ◌+◌, ◌-◌, ◌^◌, ◌≤◌, ◌<◌, ◌≡◌, refl, ap, ◌∙◌, Bool, true, some, List, ◌∷◌, arith,
  ◌==◌, if◌then◌else◌, length, take, success,
}
use ps.Checkpoints.{
  Checkpoint, Roller, repaired, failed, create_checkpoint, find_checkpoint_by_sequence,
  rollback_to_sequence, get_last_checkpoint_sequence, rollback_to_last_good,
}
use ps.Checkpoints.Retention.{taken, create_checkpoint-take}

-- A roller whose newest checkpoint is `c`.
headed :
    (c : Checkpoint) (rest : List Checkpoint) (initialized : Bool) (limit : ℕ)
    → let r' : Roller = record {
      checkpoints = c ∷ rest;
      initialized = initialized;
      max_checkpoints = limit;
    } in
      (get_last_checkpoint_sequence r' ≡ c.sequence)
      × (rollback_to_sequence c.sequence r' ≡ repaired)
      × (rollback_to_last_good r' ≡ (if c.sequence == 0 then failed else repaired))
unfolding rollback_to_last_good get_last_checkpoint_sequence rollback_to_sequence
    find_checkpoint_by_sequence
headed c rest initialized limit = (refl, ground arith, ground arith)

-- Right after a checkpoint is taken (by an initialised roller with a limit of at least two, with
-- memory), its sequence number is the last one, and rolling back to that number succeeds. Rolling back
-- to the last good state succeeds too, unless the number is 0: then it fails although the checkpoint
-- is there.
pub rollback-create :
    (sequence x : ℕ) (bytes : List ℕ) (tick max_backups : ℕ) (r : Roller)
    → r.initialized ≡ true
    → 2 ≤ r.max_checkpoints
    → length r.checkpoints + 1 < 2 ^ 32
    → (r' : Roller) × (create_checkpoint sequence (some (x ∷ bytes)) true true tick max_backups r
        ≡ some (success, r'))
      × (get_last_checkpoint_sequence r' ≡ sequence)
      × (rollback_to_sequence sequence r' ≡ repaired)
      × (rollback_to_last_good r' ≡ (if sequence == 0 then failed else repaired))
rollback-create sequence x bytes tick max_backups r i h small =
    let rest = take (r.max_checkpoints - 1) r.checkpoints in
    let c = taken sequence x bytes tick in
    let facts = headed c rest r.initialized r.max_checkpoints in
    (
      record {
        checkpoints = c ∷ rest;
        initialized = r.initialized;
        max_checkpoints = r.max_checkpoints;
      },
      create_checkpoint-take sequence x bytes tick max_backups r i h small
          ∙ ap (λ l. some (success, record r { checkpoints = l }))
              (take-pos r.max_checkpoints c r.checkpoints (omega arith)),
      facts.0,
      facts.1,
      facts.2,
    )
  where
    take-pos :
        (n : ℕ) (c : Checkpoint) (l : List Checkpoint) → 1 ≤ n → take n (c ∷ l) ≡ c ∷ take (n - 1) l
    take-pos zero c l h = absurd (omega arith)
    take-pos (suc n) c l h = ap (λ m. c ∷ take m l) (omega arith)
