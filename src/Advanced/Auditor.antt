-- ===== src/Advanced/Auditor.antt =====
-- src/core/advanced/async_auditor.c: the list of audited regions, and the rounds that its threads run.
-- A region's node is known by its place in the list. Mutexes, ticks and the thread pool are those of
-- other files; whether a thread may lock a mutex that it holds is an argument of the rounds.
pub mod Rounds
use ps.Base.{
  ℕ, suc, ◌+◌, ◌/◌, ◌%◌, ◌^◌, Bool, true, false, not, ◌&&◌, ◌||◌, Option, none, some, List, [], ◌∷◌,
  ltb, ◌==◌, if◌then◌else◌, length, Status, success, unknown, out_of_memory, invalid_argument,
  already_initialized, CString, max_name, strncpy, str_eq, add32, add64,
}
use ps.Chain.{remove_first}
use ps.Hash.{Algorithm, Hash}
use ps.Memory.{Mem, MemoryRegion, scan_node}
use ps.Pool.{Pool, pool_init, pool_submit}

pub record AuditRegion : Type 0 where
  pub name : CString
  pub address : ℕ
  pub size : ℕ
  pub priority : ℕ
  pub last_audit_time : ℕ
  pub audit_count : ℕ

pub record Auditor : Type 0 where
  pub initialized : Bool
  pub thread_pool : Option Pool
  pub regions : List AuditRegion
  pub priority : ℕ
  pub running : Bool
  pub scans_performed : ℕ
  pub violations_found : ℕ

unfoldable pub auditor_init : Auditor → Status × Auditor
auditor_init s = if s.initialized then (already_initialized, s) else (
  success,
  record s { regions = []; scans_performed = 0; violations_found = 0; initialized = true },
)

unfoldable pub auditor_stop : Auditor → Auditor
auditor_stop s = if not s.running then s else record s { running = false; thread_pool = none }

unfoldable pub auditor_shutdown : Auditor → Auditor
unfolding auditor_stop
auditor_shutdown s =
    if not s.initialized then s else record (auditor_stop s) { regions = []; initialized = false }

-- The local region of a scan. Its hashes are never written: `stack` is what they hold.
temp_region : Hash → AuditRegion → MemoryRegion
temp_region stack r = record {
  node = 0;
  name = strncpy max_name r.name;
  base_address = r.address;
  size = r.size;
  hash = stack;
  last_good_hash = stack;
  is_protected = false;
}

unfoldable pub audit_scan : Algorithm → Hash → Hash → Mem → AuditRegion → Bool
unfolding scan_node temp_region
audit_scan a junk stack mem r = (scan_node a junk mem (temp_region stack r)).0

audited : ℕ → AuditRegion → AuditRegion
audited now r = record r { last_audit_time = now; audit_count = add32 r.audit_count 1 }

-- The loop over the regions under g_regions_mutex: `none` is a thread that waits for the mutex that it
-- holds. The scan of the region behind n others ends at `ticks n`; the loop hands back the regions and
-- the number of violations.
unfoldable pub audit_loop :
    Bool → (AuditRegion → Bool) → (ℕ → ℕ) → ℕ → List AuditRegion → Option (List AuditRegion × ℕ)
unfolding audited
audit_loop recursive tampered ticks n [] = some ([], 0)
audit_loop recursive tampered ticks n (r ∷ regions) =
    let rest = audit_loop recursive tampered ticks (n + 1) regions in
    if tampered r && not recursive then none else elim rest [
      | none ↦ none
      | some (rs, violations) ↦
          some (audited (ticks n) r ∷ rs, (if tampered r then 1 else 0) + violations)
    ]

-- One round of a thread, up to its sleep.
unfoldable pub audit_round :
    Bool → Algorithm → Hash → Hash → Mem → (ℕ → ℕ) → Auditor → Option Auditor
unfolding audit_loop audit_scan
audit_round recursive a junk stack mem ticks s =
    elim (audit_loop recursive (audit_scan a junk stack mem) ticks 0 s.regions) [
      | none ↦ none
      | some (regions, violations) ↦ some (record s {
        regions = regions;
        scans_performed = add64 s.scans_performed (length regions);
        violations_found = add64 s.violations_found violations;
      })
    ]

-- The milliseconds that a thread sleeps between two rounds.
unfoldable pub audit_interval : Auditor → ℕ
audit_interval s =
    let interval = 1000 / add32 s.priority 1 in if ltb interval 10 then 10 else interval

-- The tasks are submitted one after another, with malloc's answer for each; the results are not read.
unfoldable pub submit_audits : List (Option ℕ) → Pool → Pool
unfolding pool_submit
submit_audits [] p = p
submit_audits (t ∷ tasks) p = submit_audits tasks (pool_submit true t p).1

start_threads : List (Option ℕ) → Status × Option Pool → Auditor → Status × Auditor
unfolding submit_audits
start_threads tasks (success, some p) s =
    (success, record s { running = true; thread_pool = some (submit_audits tasks p) })
start_threads tasks _ s = (unknown, s)

-- One task for each of the threads; `alloc` and `created` are the answers that the pool gets.
unfoldable pub auditor_start : List (Option ℕ) → Bool → Bool → Auditor → Status × Auditor
unfolding auditor_init pool_init start_threads
auditor_start tasks alloc created s =
    let s' = if not s.initialized then (auditor_init s).1 else s in
    if s'.running
    then (already_initialized, s')
    else start_threads tasks (pool_init (length tasks) 100 alloc created) s'

unfoldable pub auditor_set_priority : ℕ → Auditor → Auditor
auditor_set_priority priority s = record s { priority = if ltb 10 priority then 10 else priority }

unfoldable pub auditor_add_region : Bool → Option CString → ℕ → ℕ → ℕ → Auditor → Status × Auditor
unfolding auditor_init
auditor_add_region alloc none address size priority s = (invalid_argument, s)
auditor_add_region alloc (some name) address size priority s =
    if address == 0 || size == 0
    then (invalid_argument, s)
    else (let s' = if not s.initialized then (auditor_init s).1 else s in
        if not alloc
        then (out_of_memory, s')
        else (let r : AuditRegion = record {
          name = strncpy max_name name;
          address = address;
          size = size;
          priority = priority;
          last_audit_time = 0;
          audit_count = 0;
        } in
            (success, record s' { regions = r ∷ s'.regions })))

unfoldable pub auditor_remove_region : Option CString → Auditor → Auditor
unfolding remove_first
auditor_remove_region none s = s
auditor_remove_region (some name) s = record s {
  regions = remove_first (λ (r : AuditRegion). str_eq r.name name) s.regions;
}

-- Both counters cut to u32.
unfoldable pub auditor_get_stats : Auditor → ℕ × ℕ
auditor_get_stats s = (s.scans_performed % 2 ^ 32, s.violations_found % 2 ^ 32)
