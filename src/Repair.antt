-- ===== src/Repair.antt =====
-- src/core/repair_system/memory_repair.c: the backups of memory regions, newest first, and the two
-- repair counters. Regions and memory are those of the memory monitor; a region argument is the
-- region that the pointer leads to, or `none` for NULL, and the address NULL is 0. `a` is the
-- configured hash algorithm, `junk` what an uninitialised hash holds.
pub mod RoundTrip
pub mod Statistics
use ps.Base.{
  ℕ, Bool, true, false, ◌||◌, Option, none, some, List, [], ◌∷◌, ◌==◌, if◌then◌else◌, Status,
  success, already_initialized, CString, add32,
}
use ps.Chain.{find_first, update_first, remove_first}
use ps.Hash.{Algorithm, Hash, hash_compute}
use ps.Memory.{
  Mem, read_bytes, write_bytes, MemoryRegion, is_region, memory_find_region, memory_scan_region,
  memory_scan_all, ScanResult,
}
use ps.Checkpoints.{RepairResult, repaired, failed, skipped}

pub record MemoryBackup : Type 0 where
  pub node : ℕ
  pub address : ℕ
  pub size : ℕ
  pub bytes : List ℕ
  pub hash : Hash
  pub timestamp : ℕ

pub record Repairs : Type 0 where
  pub backups : List MemoryBackup
  pub initialized : Bool
  pub attempted : ℕ
  pub successful : ℕ

-- The process: its memory, the monitored regions and the repair system.
pub record Process : Type 0 where
  pub mem : Mem
  pub regions : List MemoryRegion
  pub repairs : Repairs

unfoldable pub init_memory_backup : Repairs → Status × Repairs
init_memory_backup s =
    if s.initialized
    then (already_initialized, s)
    else (success, record { backups = []; initialized = true; attempted = 0; successful = 0 })

unfoldable pub shutdown_memory_backup : Repairs → Repairs
shutdown_memory_backup s =
    if s.initialized then record s { backups = []; initialized = false } else s

-- The backup that is filled in at address p of the heap.
unfoldable pub new_backup : Algorithm → Hash → Mem → ℕ → ℕ → ℕ → ℕ → MemoryBackup
unfolding hash_compute read_bytes
new_backup a junk mem tick p address size =
    let bytes = read_bytes mem address size in
    record {
      node = p;
      address = address;
      size = size;
      bytes = bytes;
      hash = (hash_compute a (some bytes) junk).1;
      timestamp = tick;
    }

-- `place` and `buffer` are what the two calls of malloc return: an address, and whether there was
-- memory for the bytes.
push_backup :
    Algorithm → Hash → Mem → ℕ → Option ℕ → Bool → ℕ → ℕ → Repairs → Option MemoryBackup × Repairs
unfolding new_backup
push_backup a junk mem tick none buffer address size s = (none, s)
push_backup a junk mem tick (some p) false address size s = (none, s)
push_backup a junk mem tick (some p) true address size s =
    let b = new_backup a junk mem tick p address size in
    (some b, record s { backups = b ∷ s.backups })

unfoldable pub backup_memory :
    Algorithm
    → Hash
    → Mem
    → ℕ
    → Option ℕ
    → Bool
    → Option CString
    → ℕ
    → ℕ
    → Repairs
    → Option MemoryBackup × Repairs
unfolding push_backup init_memory_backup
backup_memory a junk mem tick place buffer none address size s = (none, s)
backup_memory a junk mem tick place buffer (some name) address size s =
    if address == 0 || size == 0
    then (none, s)
    else push_backup a junk mem tick place buffer address size
        (if s.initialized then s else (init_memory_backup s).1)

unfoldable pub find_backup_by_address : ℕ → Repairs → Option MemoryBackup
unfolding find_first
find_backup_by_address address s = find_first (λ b. b.address == address) s.backups

-- The counters are of type u32.
abbrev pub count_attempt : Repairs → Repairs
count_attempt s = record s { attempted = add32 s.attempted 1 }

abbrev pub count_success : Repairs → Repairs
count_success s = record s { successful = add32 s.successful 1 }

-- memcpy of the saved bytes to the region's address, and both hashes of the region.
unfoldable pub restore_from : Option MemoryBackup → MemoryRegion → Process → RepairResult × Process
unfolding write_bytes update_first
restore_from none r p = (failed, p)
restore_from (some b) r p = (
  repaired,
  record {
    mem = write_bytes p.mem r.base_address b.bytes;
    regions =
        update_first (is_region r.node) (λ x. record x { hash = b.hash; last_good_hash = b.hash })
          p.regions;
    repairs = count_success p.repairs;
  },
)

unfoldable pub restore_memory : Option MemoryRegion → Process → RepairResult × Process
unfolding restore_from find_backup_by_address
restore_memory none p = (failed, p)
restore_memory (some r) p =
    restore_from (find_backup_by_address r.base_address p.repairs) r
      (record p { repairs = count_attempt p.repairs })

-- A name that no region has is refused before an attempt is counted.
unfoldable pub restore_memory_by_name : Option CString → Process → RepairResult × Process
unfolding restore_memory memory_find_region
restore_memory_by_name name p = elim (memory_find_region name p.regions) [
  | none ↦ (failed, p)
  | some r ↦ restore_memory (some r) p
]

unfoldable pub free_memory_backup : Option MemoryBackup → Repairs → Repairs
unfolding remove_first
free_memory_backup none s = s
free_memory_backup (some b) s = record s {
  backups = remove_first (λ x. x.node == b.node) s.backups;
}

-- The region is scanned first; only a region that was tampered with is restored.
unfoldable pub attempt_auto_fix :
    Algorithm → Hash → Option MemoryRegion → Process → RepairResult × Process
unfolding memory_scan_region restore_memory
attempt_auto_fix a junk none p = (failed, p)
attempt_auto_fix a junk (some r) p =
    let (tampered, regions) = memory_scan_region a junk p.mem (some r) p.regions in
    let p' = record p { regions = regions } in
    if tampered then restore_memory (some r) p' else (skipped, p')

abbrev is_repaired : RepairResult → Bool
is_repaired repaired = true
is_repaired _ = false

-- The loop over the results; each pointer leads to the region as it is then.
fix_loop : Algorithm → Hash → List ScanResult → ℕ → Process → ℕ × Process
unfolding attempt_auto_fix find_first
fix_loop a junk [] count p = (count, p)
fix_loop a junk (s ∷ results) count p =
    let (result, p') = attempt_auto_fix a junk (find_first (is_region s.region) p.regions) p in
    fix_loop a junk results (if is_repaired result then add32 count 1 else count) p'

unfoldable pub check_and_fix_all : Algorithm → Hash → Process → ℕ × Process
unfolding fix_loop memory_scan_all
check_and_fix_all a junk p =
    let (results, regions) = memory_scan_all a junk p.mem true 64 p.regions in
    fix_loop a junk results 0 (record p { regions = regions })

unfoldable pub get_stats : Repairs → ℕ × ℕ
get_stats s = (s.attempted, s.successful)
