-- ===== src/Kernel/Driver.antt =====
-- src/kernel/driver.c: loading, unloading, and the dispatch of requests to the parts of the driver. The
-- file ends inside the stub for user mode.
pub mod Requests
use ps.Base.{ℕ, ◌/◌, Bool, true, false, not, Option, List, ◌==◌, if◌then◌else◌, unknown}
use ps.Kernel.Status.{NtStatus, status_success, invalid_parameter, invalid_device_request, wait}
use ps.Kernel.Guard.{
  KernelRegion, Guard, VirtualMemory, guard_init, guard_shutdown, guard_protect, guard_unprotect,
  guard_scan,
}
use ps.Kernel.Handlers.{
  KernelCallback, handler_init, handler_shutdown, handler_register, handler_unregister,
}
use ps.Kernel.ShadowPt.{
  Detector, ShadowPtInfo, ShadowPtResult, shadow_init, shadow_shutdown, shadow_check,
}
use ps.Watcher.{
  Watcher, ProcessInfo, watcher_init, watcher_shutdown, watcher_monitor, watcher_stop,
  watcher_get_info,
}

-- The control codes, by the function number in CTL_CODE, with what a handler reads of the buffer and
-- its length; `unknown` is any other code.
pub data Ioctl : Type 0 where
  protect_memory unprotect_memory : Option KernelRegion → ℕ → Ioctl
  scan_memory : Bool → ℕ → Ioctl
  monitor_process : ℕ → ℕ → Ioctl
  stop_monitoring : Ioctl
  get_process_info : Option ℕ → ℕ → ℕ → Ioctl
  register_callback : Option KernelCallback → ℕ → Ioctl
  unregister_callback : Option ℕ → ℕ → Ioctl
  check_shadow_pt : Bool → Ioctl
  unknown_code : ℕ → Ioctl

unfoldable pub function_number : Ioctl → ℕ
function_number (protect_memory r size) = 0x0001
function_number (unprotect_memory r size) = 0x0002
function_number (scan_memory has_out size) = 0x0003
function_number (monitor_process pid size) = 0x0010
function_number stop_monitoring = 0x0011
function_number (get_process_info pid size out_size) = 0x0012
function_number (register_callback cb size) = 0x0020
function_number (unregister_callback address size) = 0x0021
function_number (check_shadow_pt has_out) = 0x0030
function_number (unknown_code n) = n

-- What a handler leaves in the buffer.
pub data Output : Type 0 where
  unchanged : Output
  region : Option KernelRegion → Output
  violations : List KernelRegion → Output
  process : Option ProcessInfo → Output
  shadow : Option ShadowPtInfo → Output

-- The request's IoStatus and its buffer when it is completed.
pub record Completed : Type 0 where
  pub status : NtStatus
  pub information : ℕ
  pub buffer : Output

-- What the processor and the kernel answer: the caller's process, memory from the pool, valid addresses,
-- the search for a process, CR3 and the two CPUID values.
pub record Machine : Type 0 where
  pub caller : ℕ
  pub has_memory : Bool
  pub is_valid : ℕ → Bool
  pub lookup : ℕ → NtStatus × Option ℕ
  pub cr3 : ℕ
  pub features : ℕ
  pub vmx_leaf : ℕ

pub record Driver (S : Type 0) : Type 0 where
  pub guard : Guard
  pub watcher : Watcher
  pub callbacks : List KernelCallback
  pub detector : Detector
  pub initialized : Bool
  pub memory : S

abbrev completed : NtStatus → Output → Completed
completed status buffer = record { status = status; information = 0; buffer = buffer }

-- The enumeration's value as a status.
abbrev shadow_status : ShadowPtResult → NtStatus
shadow_status ShadowPtResult.nothing = status_success
shadow_status ShadowPtResult.detected = wait 1
shadow_status ShadowPtResult.suspicious = wait 2

module _ {S : Type 0} (vm : VirtualMemory S) where
  -- DriverEntry: whether the device and its link could be created, with the statuses of failures.
  unfoldable pub driver_entry : Bool → Bool → NtStatus → ℕ → Driver S → NtStatus × Driver S
  unfolding guard_init watcher_init handler_init shadow_init
  driver_entry created linked failure cr3 d =
      if not created
      then (failure, d)
      else (if not linked then (failure, d) else (
        status_success,
        record d {
          guard = (guard_init d.guard).1;
          watcher = watcher_init d.watcher;
          callbacks = (handler_init d.callbacks).1;
          detector = shadow_init cr3 d.detector;
          initialized = true;
        },
      ))

  unfoldable pub driver_unload : Driver S → Driver S
  unfolding guard_shutdown watcher_shutdown handler_shutdown shadow_shutdown
  driver_unload d =
      let stopped = guard_shutdown vm d.memory d.guard in
      record {
        guard = stopped.2;
        watcher = watcher_shutdown d.watcher;
        callbacks = (handler_shutdown d.callbacks).1;
        detector = shadow_shutdown d.detector;
        initialized = false;
        memory = stopped.1;
      }

  -- ps14_driver_create and ps14_driver_close.
  unfoldable pub driver_create : Completed
  driver_create = completed status_success unchanged

  unfoldable pub driver_close : Completed
  driver_close = completed status_success unchanged

  -- The structures of a 64-bit build have 24 and 544 bytes.
  unfoldable pub driver_ioctl : Machine → Ioctl → Driver S → Completed × Driver S
  unfolding guard_protect guard_unprotect guard_scan watcher_monitor watcher_stop watcher_get_info
      handler_register handler_unregister shadow_check
  driver_ioctl m (protect_memory r size) d =
      let done = guard_protect vm m.has_memory m.caller r size d.memory d.guard in
      (completed done.0 (region done.1), record d { memory = done.2; guard = done.3 })
  driver_ioctl m (unprotect_memory r size) d =
      let done = guard_unprotect vm r size d.memory d.guard in
      (completed done.0 (region done.1), record d { memory = done.2; guard = done.3 })
  driver_ioctl m (scan_memory has_out size) d =
      let done = guard_scan vm has_out (size / 24) d.memory d.guard in
      (completed done.0 (violations done.1), d)
  driver_ioctl m (monitor_process pid size) d =
      let done = watcher_monitor pid size d.watcher in
      (
        completed (if done.0 then status_success else invalid_parameter) unchanged,
        record d { watcher = done.1 },
      )
  driver_ioctl m stop_monitoring d =
      (completed status_success unchanged, record d { watcher = watcher_stop d.watcher })
  driver_ioctl m (get_process_info pid size out_size) d =
      let done = watcher_get_info m.lookup pid size true (out_size / 544) in
      (completed done.0 (process done.1), d)
  driver_ioctl m (register_callback cb size) d =
      let done = handler_register m.is_valid m.has_memory cb size d.callbacks in
      (completed done.0 unchanged, record d { callbacks = done.1 })
  driver_ioctl m (unregister_callback address size) d =
      let done = handler_unregister address size d.callbacks in
      (completed done.0 unchanged, record d { callbacks = done.1 })
  driver_ioctl m (check_shadow_pt has_out) d =
      let done = shadow_check m.cr3 m.features m.vmx_leaf has_out d.detector in
      (completed (shadow_status done.0) (shadow done.1), d)
  driver_ioctl m (unknown_code n) d = (completed invalid_device_request unchanged, d)

-- The stubs of a build for user mode.
unfoldable pub kernel_open : ℕ → ℕ
kernel_open invalid_handle = invalid_handle

-- Whether CloseHandle is called.
unfoldable pub kernel_close : ℕ → ℕ → Bool
kernel_close invalid_handle device = not (device == invalid_handle)
