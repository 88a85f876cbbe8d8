-- ===== src/Memory/Audit.antt =====
-- The audit of src/core/memory_monitor/memory_scanner.c: starting, stopping, and the rounds of its thread.
-- The file ends before the functions that register callbacks.
pub mod Rounds
use ps.Base.{
  ℕ, suc, ◌+◌, Bool, true, false, not, Option, none, some, List, [], ◌∷◌, ◌++◌, ltb, if◌then◌else◌,
  length, Status, success, unknown, already_initialized,
}
use ps.Hash.{Algorithm, Hash}
use ps.Memory.{Mem, MemoryRegion, ScanResult, memory_scan_all}
use ps.Pool.{Pool, pool_init, pool_submit}

-- The function and the user data of a callback.
pub record Callback : Type 0 where
  pub callback : ℕ
  pub user_data : ℕ

pub record Monitor : Type 0 where
  pub regions : List MemoryRegion
  pub callbacks : List Callback
  pub audit_running : Bool
  pub audit_interval_ms : ℕ
  pub thread_pool : Option Pool

-- Only the two mutexes are initialised.
unfoldable pub memory_init : Monitor → Status × Monitor
memory_init m = (success, m)

unfoldable pub memory_stop_audit : Monitor → Monitor
memory_stop_audit m =
    if not m.audit_running then m else record m { audit_running = false; thread_pool = none }

unfoldable pub memory_shutdown : Monitor → Monitor
unfolding memory_stop_audit
memory_shutdown m = record (memory_stop_audit m) { regions = []; callbacks = [] }

-- A call of a callback: the function, the region's node and the user data.
abbrev Call : Type 0
Call = ℕ × ℕ × ℕ

-- for (i = 0; i < tampered_count; i++) if (results[i].tampered) cb->callback(results[i].region, ...).
unfoldable pub call_each : Callback → List ScanResult → List Call
call_each cb [] = []
call_each cb (r ∷ results) =
    let rest = call_each cb results in
    if r.tampered then (cb.callback, r.region, cb.user_data) ∷ rest else rest

unfoldable pub notify_all : List Callback → List ScanResult → List Call
unfolding call_each
notify_all [] results = []
notify_all (cb ∷ callbacks) results = call_each cb results ++ notify_all callbacks results

-- One round of the thread, with room for 64 results: the calls that it makes.
unfoldable pub memory_audit_round : Algorithm → Hash → Mem → Monitor → List Call × Monitor
unfolding memory_scan_all notify_all
memory_audit_round a junk mem m =
    let scanned = memory_scan_all a junk mem true 64 m.regions in
    (
      if ltb 0 (length scanned.0) then notify_all m.callbacks scanned.0 else [],
      record m { regions = scanned.1 },
    )

-- The pool that a start goes on with: the one that is there, or a new one.
pool_for : ℕ → Bool → Bool → Option Pool → Status × Option Pool
unfolding pool_init
pool_for thread_count alloc created (some p) = (success, some p)
pool_for thread_count alloc created none = pool_init thread_count 100 alloc created

submitted : Status × Pool → Monitor → Status × Monitor
submitted (success, p) m = (success, record m { thread_pool = some p })
submitted (_, p) m = (unknown, record m { audit_running = false; thread_pool = some p })

start_on : Option ℕ → Status × Option Pool → Monitor → Status × Monitor
unfolding submitted pool_submit
start_on task (success, some p) m = submitted (pool_submit true task p) m
start_on task _ m = (unknown, record m { audit_running = false })

-- `thread_count` is the configured number, `task` malloc's answer for the task.
unfoldable pub memory_start_audit : ℕ → Bool → Bool → Option ℕ → ℕ → Monitor → Status × Monitor
unfolding start_on pool_for
memory_start_audit thread_count alloc created task interval_ms m =
    if m.audit_running
    then (already_initialized, m)
    else start_on task (pool_for thread_count alloc created m.thread_pool)
        (record m { audit_interval_ms = interval_ms; audit_running = true })
