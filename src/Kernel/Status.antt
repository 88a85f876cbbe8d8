-- ===== src/Kernel/Status.antt =====
-- The status codes that src/kernel returns, by their names.
use ps.Base.{ℕ}

-- The status codes of the driver's functions. `wait` is the status whose number a function returns
-- that is of another type.
pub data NtStatus : Type 0 where
  status_success invalid_device_request access_violation no_memory : NtStatus
  insufficient_resources already_registered : NtStatus
  invalid_parameter access_denied : NtStatus
  wait : ℕ → NtStatus
