-- ===== src/Examples/Repairing.antt =====
-- Runs of the repair system, src/core/repair_system/.
use ps.Base.{
  ℕ, ◌+◌, ◌%◌, ◌≤◌, ◌<◌, ◌≡◌, refl, ◌⊎◌, true, false, none, some, [], ◌∷◌, arith, ◌==◌,
  if◌then◌else◌, take, replicate, success, CString,
}
use ps.Chain.{find_first}
use ps.Hash.{Hash, crc32}
use ps.Memory.{Mem, MemoryRegion, is_region, memory_scan_region, read_bytes, write_bytes}
use ps.Repair.{
  MemoryBackup, Process, Repairs, attempt_auto_fix, backup_memory, check_and_fix_all, count_attempt,
  count_success, find_backup_by_address, restore_memory,
}
use ps.Checkpoints.{Checkpoint, Roller, create_checkpoint, failed, repaired, skipped}
use ps.Repair.RoundTrip.{restore_memory-backup}
use ps.Repair.Statistics.{attempt_auto_fix_outcome, check_and_fix_all_counts}
use ps.Checkpoints.Retention.{create_checkpoint-take, create_checkpoint_fault, taken}

abbrev blank : Hash
blank = record { algorithm = crc32; digest = replicate 64 0 }

-- The memory before and after a write to the byte at address 4097.
abbrev clean : Mem
clean x = x % 256

abbrev patched : Mem
patched x = if x == 4097 then 7 else x % 256

-- "code".
abbrev code_name : CString
code_name = 99 ∷ 111 ∷ 100 ∷ 101 ∷ []

abbrev region : MemoryRegion
region = record {
  node = 16;
  name = code_name;
  base_address = 4096;
  size = 3;
  hash = blank;
  last_good_hash = blank;
  is_protected = false;
}

abbrev idle : Repairs
idle = record { backups = []; initialized = false; attempted = 0; successful = 0 }

abbrev process : Process
process = record { mem = patched; regions = region ∷ []; repairs = idle }

abbrev first : Checkpoint
first = record { sequence = 1; timestamp = 10; state_data = 5 ∷ []; data_size = 1 }

abbrev second : Checkpoint
second = record { sequence = 2; timestamp = 20; state_data = 6 ∷ []; data_size = 1 }

abbrev full : Roller
full = record { checkpoints = second ∷ first ∷ []; initialized = true; max_checkpoints = 2 }

abbrev single : Roller
single = record { checkpoints = first ∷ []; initialized = true; max_checkpoints = 1 }

restore_memory-backup_example :
    let saved =
      (backup_memory crc32 blank clean 7
        (some 32)
        true
        (some code_name)
        region.base_address
        region.size
        idle).1 in
    let t =
      restore_memory
        (some region)
        (record { mem = patched; regions = (region ∷ []); repairs = saved }) in
    (t.0 ≡ repaired)
    × (read_bytes t.1.mem region.base_address region.size
        ≡ read_bytes clean region.base_address region.size)
    × ((x : ℕ)
        → (x < region.base_address) ⊎ (region.base_address + region.size ≤ x)
        → t.1.mem x ≡ patched x)
    × (r' : MemoryRegion) × (find_first (is_region region.node) t.1.regions ≡ some r')
    × ((memory_scan_region crc32 blank t.1.mem (some r') t.1.regions).0 ≡ false)
unfolding find_first
restore_memory-backup_example =
    restore_memory-backup crc32 blank blank clean patched 7 32 code_name region (region ∷ []) idle
      refl (ground arith) (ground arith) refl

attempt_auto_fix_outcome_example :
    let tampered = (memory_scan_region crc32 blank process.mem (some region) process.regions).0 in
    let t = attempt_auto_fix crc32 blank (some region) process in
    ((tampered ≡ false)
      × (t.0 ≡ skipped)
      × (t.1.mem ≡ process.mem)
      × (t.1.repairs ≡ process.repairs))
    ⊎ ((tampered ≡ true)
        × (find_backup_by_address region.base_address process.repairs ≡ none)
        × (t.0 ≡ failed)
        × (t.1.mem ≡ process.mem)
        × (t.1.repairs ≡ count_attempt process.repairs))
    ⊎ ((b : MemoryBackup) × (tampered ≡ true)
        × (find_backup_by_address region.base_address process.repairs ≡ some b)
        × (t.0 ≡ repaired)
        × (t.1.mem ≡ write_bytes process.mem region.base_address b.bytes)
        × (t.1.repairs ≡ count_success (count_attempt process.repairs)))
attempt_auto_fix_outcome_example = attempt_auto_fix_outcome crc32 blank region process

check_and_fix_all_counts_example :
    let t = check_and_fix_all crc32 blank process in
    (t.1.repairs.successful ≡ process.repairs.successful + t.0)
    × (t.0 ≤ 64)
    × (t.1.repairs.successful ≤ t.1.repairs.attempted)
    × (t.1.repairs.attempted ≤ process.repairs.attempted + 64)
check_and_fix_all_counts_example =
    check_and_fix_all_counts crc32 blank process (ground arith) (ground arith)

create_checkpoint-take_example :
    create_checkpoint 3 (some (7 ∷ [])) true true 30 10 full
    ≡ some (
      success,
      record full { checkpoints = take full.max_checkpoints (taken 3 7 [] 30 ∷ full.checkpoints) },
    )
create_checkpoint-take_example =
    create_checkpoint-take 3 7 [] 30 10 full refl (ground arith) (ground arith)

create_checkpoint_fault_example : create_checkpoint 2 (some (7 ∷ [])) true true 20 10 single ≡ none
create_checkpoint_fault_example =
    create_checkpoint_fault 2 7 [] 20 10 single first [] refl refl (ground arith) (ground arith)
