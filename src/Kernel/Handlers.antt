-- ===== src/Kernel/Handlers.antt =====
-- src/kernel/callback_handler.c: the list of registered callbacks, g_callbacks, from the head on.
pub mod Keys
use ps.Base.{ℕ, Bool, not, ◌&&◌, Option, none, some, List, [], ◌∷◌, ltb, ◌==◌, if◌then◌else◌}
use ps.Chain.{find_first, remove_first}
use ps.Kernel.Status.{
  NtStatus, status_success, invalid_parameter, insufficient_resources, already_registered,
}

pub data CallbackType : Type 0 where
  memory_access process_event thread_event module_load : CallbackType

-- The enumeration's values.
unfoldable pub type_number : CallbackType → ℕ
type_number memory_access = 0
type_number process_event = 1
type_number thread_event = 2
type_number module_load = 3

pub record KernelCallback : Type 0 where
  pub callback_type : CallbackType
  pub callback_address : ℕ
  pub context : ℕ

-- The lock is initialised, the list is not touched.
unfoldable pub handler_init : List KernelCallback → NtStatus × List KernelCallback
handler_init callbacks = (status_success, callbacks)

unfoldable pub handler_shutdown : List KernelCallback → NtStatus × List KernelCallback
handler_shutdown callbacks = (status_success, [])

unfoldable pub is_same_callback : KernelCallback → KernelCallback → Bool
unfolding type_number
is_same_callback new cb =
    (cb.callback_address == new.callback_address)
    && (type_number cb.callback_type == type_number new.callback_type)

-- `is_valid` is MmIsAddressValid, `alloc` whether the pool has memory; a structure has 32 bytes.
unfoldable pub handler_register :
    (ℕ → Bool)
    → Bool
    → Option KernelCallback
    → ℕ
    → List KernelCallback
    → NtStatus × List KernelCallback
unfolding find_first is_same_callback
handler_register is_valid alloc none size callbacks = (invalid_parameter, callbacks)
handler_register is_valid alloc (some new) size callbacks =
    if ltb size 32
    then (invalid_parameter, callbacks)
    else (if not (is_valid new.callback_address)
        then (invalid_parameter, callbacks)
        else elim (find_first (is_same_callback new) callbacks) [
          | some cb ↦ (already_registered, callbacks)
          | none ↦
              if not alloc
              then (insufficient_resources, callbacks)
              else (status_success, new ∷ callbacks)
        ])

-- The first callback at the address is unlinked, whatever its type.
unfoldable pub handler_unregister :
    Option ℕ → ℕ → List KernelCallback → NtStatus × List KernelCallback
unfolding remove_first
handler_unregister none size callbacks = (invalid_parameter, callbacks)
handler_unregister (some address) size callbacks =
    if ltb size 8 then (invalid_parameter, callbacks) else (
      status_success,
      remove_first (λ (cb : KernelCallback). cb.callback_address == address) callbacks,
    )

-- The loop finds the callbacks of the type and does nothing with them.
unfoldable pub callback_invoke : CallbackType → List KernelCallback → List KernelCallback
callback_invoke t callbacks = callbacks
