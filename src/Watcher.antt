-- ===== src/Watcher.antt =====
-- src/kernel/process_watcher.c as built for kernel mode: the bounded log of process events. The log is
-- the array g_event_log with g_event_count, a table of 1024 slots. The spin lock makes each access to
-- it one step. A NULL pointer is `none`.
pub mod Delivery
use ps.Base.{
  ℕ, ◌%◌, ◌^◌, min, Bool, true, false, not, ◌||◌, Option, none, some, List, [], map, ltb, ◌==◌,
  if◌then◌else◌, take, max_path,
}
use ps.Kernel.Status.{NtStatus, status_success, invalid_parameter}
use ps.Server.Table.{Table, append_slot}

pub data EventType : Type 0 where
  process_create process_terminate dll_load dll_unload thread_create thread_terminate : EventType

-- `module_name` has the bytes written to the buffer, which is filled with zeros otherwise.
pub record ProcessEvent : Type 0 where
  pub event_type : EventType
  pub process_id : ℕ
  pub thread_id : ℕ
  pub module_name : List ℕ

pub record Watcher : Type 0 where
  pub log : Table ProcessEvent
  pub enabled : Bool

-- A pointer-sized identifier cut to u32.
abbrev to_u32 : ℕ → ℕ
to_u32 n = n % 2 ^ 32

-- The loop over the wide characters, each cast to char.
abbrev narrow : List ℕ → List ℕ
narrow name = map (λ c. c % 256) (take max_path name)

-- Between the lock and its release.
unfoldable pub record_event : ProcessEvent → Watcher → Watcher
unfolding append_slot
record_event ev w = record w { log = (append_slot ev w.log).1 }

-- `create` is the creation's data, `none` when the process ends: inside it, the image's name.
unfoldable pub process_event : ℕ → Option (Option (List ℕ)) → ProcessEvent
process_event pid none = record {
  event_type = process_terminate;
  process_id = to_u32 pid;
  thread_id = 0;
  module_name = [];
}
process_event pid (some name) = record {
  event_type = process_create;
  process_id = to_u32 pid;
  thread_id = 0;
  module_name = elim name [ none ↦ [] | some n ↦ narrow n ];
}

unfoldable pub process_notify_routine : ℕ → Option (Option (List ℕ)) → Watcher → Watcher
unfolding process_event record_event
process_notify_routine pid create w =
    if w.enabled then record_event (process_event pid create) w else w

unfoldable pub thread_event : ℕ → ℕ → Bool → ProcessEvent
thread_event pid tid create = record {
  event_type = if create then thread_create else thread_terminate;
  process_id = to_u32 pid;
  thread_id = to_u32 tid;
  module_name = [];
}

unfoldable pub thread_notify_routine : ℕ → ℕ → Bool → Watcher → Watcher
unfolding thread_event record_event
thread_notify_routine pid tid create w =
    if w.enabled then record_event (thread_event pid tid create) w else w

-- The source reports an image of the system's mode as unloaded.
unfoldable pub image_event : Option (List ℕ) → ℕ → Bool → ProcessEvent
image_event name pid system = record {
  event_type = if system then dll_unload else dll_load;
  process_id = to_u32 pid;
  thread_id = 0;
  module_name = elim name [ none ↦ [] | some n ↦ narrow n ];
}

-- `info` is the SystemModeImage flag of the image's data.
unfoldable pub image_notify_routine : Option (List ℕ) → ℕ → Option Bool → Watcher → Watcher
unfolding image_event record_event
image_notify_routine name pid none w = w
image_notify_routine name pid (some system) w =
    if w.enabled then record_event (image_event name pid system) w else w

unfoldable pub watcher_init : Watcher → Watcher
watcher_init w = record { log = record { slots = w.log.slots; count = 0 }; enabled = true }

unfoldable pub watcher_shutdown : Watcher → Watcher
watcher_shutdown w = record { log = record { slots = w.log.slots; count = 0 }; enabled = false }

-- The first word of the input, where there is one; the answer is whether the parameter was valid.
unfoldable pub watcher_monitor : ℕ → ℕ → Watcher → Bool × Watcher
watcher_monitor pid size w =
    if ltb size 4 then (false, w) else (true, record w { enabled = not (pid == 0) })

unfoldable pub watcher_stop : Watcher → Watcher
watcher_stop w = record w { enabled = false }

-- for (ULONG i = 0; i < c; i++) out[i] = g_event_log[i], and the count that is returned with them;
-- `none` is STATUS_INVALID_PARAMETER.
unfoldable pub watcher_get_events : Bool → ℕ → Watcher → Option (List ProcessEvent) × Watcher
watcher_get_events has_out oc w = if not has_out || oc == 0 then (none, w) else (
  some (take (min oc w.log.count) w.log.slots),
  record w { log = record { slots = w.log.slots; count = 0 } },
)

-- The fields of Ps14ProcessInfo that are filled in as numbers; the name is the kernel's to write.
pub record ProcessInfo : Type 0 where
  pub process_id : ℕ
  pub parent_process_id : ℕ

-- `lookup` is the parent of a process that the kernel knows, or the status of a failed search.
unfoldable pub watcher_get_info :
    (ℕ → NtStatus × Option ℕ) → Option ℕ → ℕ → Bool → ℕ → NtStatus × Option ProcessInfo
watcher_get_info lookup none size has_out oc = (invalid_parameter, none)
watcher_get_info lookup (some pid) size has_out oc =
    if not has_out || oc == 0 || ltb size 4
    then (invalid_parameter, none)
    else elim (lookup pid).1 [
      | none ↦ ((lookup pid).0, none)
      | some parent ↦
          (status_success, some (record { process_id = pid; parent_process_id = to_u32 parent }))
    ]
