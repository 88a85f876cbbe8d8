-- ===== src/Examples/Auditing.antt =====
-- Runs of the audits and of the thread pool.
use ps.Base.{
  ◌%◌, ◌≡◌, true, false, not, ◌&&◌, none, some, List, [], ◌∷◌, ltb, if◌then◌else◌, length, take,
  replicate, CString, add64,
}
use ps.Chain.{count_all}
use ps.Hash.{Hash, crc32}
use ps.Memory.{Mem, MemoryRegion}
use ps.Memory.Audit.{Monitor, memory_audit_round}
use ps.Memory.Audit.Rounds.{changed, calls_for, memory_audit_round-calls}
use ps.Advanced.Auditor.{Auditor, audit_scan, audit_round}
use ps.Advanced.Auditor.Rounds.{stamped, audit_round-eq}
use ps.Pool.{begin}
use ps.Pool.Steps.{Step, offer, link, check, take_task, load, store, finish, World}

abbrev zero_hash : Hash
zero_hash = record { algorithm = crc32; digest = replicate 64 0 }

abbrev bytes_mem : Mem
bytes_mem x = x % 256

-- "code".
abbrev code_text : CString
code_text = 99 ∷ 111 ∷ 100 ∷ 101 ∷ []

abbrev watched : MemoryRegion
watched = record {
  node = 16;
  name = code_text;
  base_address = 4096;
  size = 3;
  hash = zero_hash;
  last_good_hash = zero_hash;
  is_protected = false;
}

abbrev monitor : Monitor
monitor = record {
  regions = watched ∷ [];
  callbacks = record { callback = 8192; user_data = 1 } ∷ [];
  audit_running = true;
  audit_interval_ms = 100;
  thread_pool = none;
}

memory_audit_round-calls_example :
    (memory_audit_round crc32 zero_hash bytes_mem monitor).0
    ≡ calls_for monitor.callbacks (take 64 (changed crc32 zero_hash bytes_mem monitor.regions))
memory_audit_round-calls_example = memory_audit_round-calls crc32 zero_hash bytes_mem monitor

abbrev auditor : Auditor
auditor = record {
  initialized = true;
  thread_pool = none;
  regions =
      record {
        name = code_text;
        address = 4096;
        size = 3;
        priority = 1;
        last_audit_time = 0;
        audit_count = 0;
      }
      ∷ [];
  priority = 5;
  running = true;
  scans_performed = 0;
  violations_found = 0;
}

audit_round-eq_example :
    let violations = count_all (audit_scan crc32 zero_hash zero_hash bytes_mem) auditor.regions in
    audit_round true crc32 zero_hash zero_hash bytes_mem (λ n. n) auditor ≡ (
      if not true && ltb 0 violations
      then none
      else some (record auditor {
        regions = stamped (λ n. n) 0 auditor.regions;
        scans_performed = add64 auditor.scans_performed (length auditor.regions);
        violations_found = add64 auditor.violations_found violations;
      }))
audit_round-eq_example = audit_round-eq true crc32 zero_hash zero_hash bytes_mem (λ n. n) auditor

abbrev busy : World
busy = record {
  pool = record {
    qs = 4;
    queue = 1 ∷ 2 ∷ [];
    queue_size = 2;
    active_threads = 0;
    completed_tasks = 0;
    paused = false;
  };
  offered = [];
  accepted = 1 ∷ 2 ∷ [];
  checked = 0;
  started = [];
  running = [];
  loaded = [];
}

abbrev pool_steps : List Step
pool_steps =
    offer (some 3)
    ∷ check
    ∷ link 3
    ∷ take_task
    ∷ load begin
    ∷ check
    ∷ store 0
    ∷ finish 1
    ∷ take_task
    ∷ []
