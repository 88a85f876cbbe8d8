-- ===== src/Kernel/Driver/Requests.antt =====
-- What holds of the driver after any sequence of requests.
use ps.Base.{ℕ, Bool, Option, none, some, List, [], ◌∷◌}
use ps.Kernel.Guard.{VirtualMemory}
use ps.Kernel.Handlers.{KernelCallback, handler_register, handler_unregister}
use ps.Kernel.Handlers.Keys.{IsKeyed, register-IsKeyed, unregister-IsKeyed}
use ps.Kernel.Driver.{
  Ioctl, protect_memory, unprotect_memory, scan_memory, monitor_process, stop_monitoring,
  get_process_info, register_callback, unregister_callback, check_shadow_pt, unknown_code, Machine,
  Driver, driver_ioctl,
}

register_any-IsKeyed :
    (is_valid : ℕ → Bool) (alloc : Bool) (cb : Option KernelCallback) (size : ℕ)
    (callbacks : List KernelCallback)
    → IsKeyed callbacks
    → IsKeyed (handler_register is_valid alloc cb size callbacks).1
register_any-IsKeyed is_valid alloc none size callbacks k = unfold handler_register in k
register_any-IsKeyed is_valid alloc (some cb) size callbacks k =
    register-IsKeyed is_valid alloc cb size callbacks k

unregister_any-IsKeyed :
    (address : Option ℕ) (size : ℕ) (callbacks : List KernelCallback)
    → IsKeyed callbacks
    → IsKeyed (handler_unregister address size callbacks).1
unregister_any-IsKeyed none size callbacks k = unfold handler_unregister in k
unregister_any-IsKeyed (some a) size callbacks k = unregister-IsKeyed a size callbacks k

module _ {S : Type 0} (vm : VirtualMemory S) where
  driver_ioctl-IsKeyed :
      (m : Machine) (request : Ioctl) (d : Driver S)
      → IsKeyed d.callbacks
      → IsKeyed (driver_ioctl vm m request d).1.callbacks
  unfolding driver_ioctl
  driver_ioctl-IsKeyed m (protect_memory r size) d k = k
  driver_ioctl-IsKeyed m (unprotect_memory r size) d k = k
  driver_ioctl-IsKeyed m (scan_memory has_out size) d k = k
  driver_ioctl-IsKeyed m (monitor_process pid size) d k = k
  driver_ioctl-IsKeyed m stop_monitoring d k = k
  driver_ioctl-IsKeyed m (get_process_info pid size out_size) d k = k
  driver_ioctl-IsKeyed m (register_callback cb size) d k =
      register_any-IsKeyed m.is_valid m.has_memory cb size d.callbacks k
  driver_ioctl-IsKeyed m (unregister_callback address size) d k =
      unregister_any-IsKeyed address size d.callbacks k
  driver_ioctl-IsKeyed m (check_shadow_pt has_out) d k = k
  driver_ioctl-IsKeyed m (unknown_code n) d k = k

  -- Requests one after another, each with what the machine then answers.
  unfoldable pub serve : List (Machine × Ioctl) → Driver S → Driver S
  unfolding driver_ioctl
  serve [] d = d
  serve ((m, request) ∷ requests) d = serve requests (driver_ioctl vm m request d).1

  -- After every sequence of requests, whatever the machine answers, a driver whose list held no callback
  -- twice (by address and type) holds none twice.
  pub serve-IsKeyed :
      (requests : List (Machine × Ioctl)) (d : Driver S)
      → IsKeyed d.callbacks
      → IsKeyed (serve requests d).callbacks
  unfolding serve
  serve-IsKeyed [] d k = k
  serve-IsKeyed ((m, request) ∷ requests) d k =
      serve-IsKeyed requests (driver_ioctl vm m request d).1 (driver_ioctl-IsKeyed m request d k)
