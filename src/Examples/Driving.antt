-- ===== src/Examples/Driving.antt =====
-- Runs of the driver, src/kernel.
use ps.Chain.{find_first}
use ps.Base.{ℕ, ◌-◌, ◌%◌, ◌≡◌, refl, true, false, none, some, List, [], ◌∷◌, arith}
use ps.Kernel.Status.{status_success}
use ps.Kernel.Guard.{
  Page, readonly, readwrite, KernelRegion, Guard, VirtualMemory, convert_flags, guard_protect,
  guard_unprotect,
}
use ps.Kernel.Guard.Restoring.{guard_unprotect-protect}
use ps.Kernel.Handlers.{KernelCallback, memory_access}
use ps.Kernel.Handlers.Keys.{IsKeyed}
use ps.Kernel.Driver.{
  Ioctl, register_callback, unregister_callback, stop_monitoring, Machine, Driver,
}
use ps.Kernel.Driver.Requests.{serve, serve-IsKeyed}

-- A system with one page of 4096 bytes for all addresses, whose state is its protection.
abbrev one_page : VirtualMemory Page
one_page = record {
  is_valid = λ s a. true;
  query = λ s p a. some s;
  change = λ s p a n page. some (page, a - a % 4096, s);
}

one_page_law :
    (a n : ℕ) (t t' page o : Page) (b : ℕ)
    → one_page.change t 4 a n page ≡ some (t', b, o)
    → one_page.query t' 4 a ≡ some page
one_page_law a n t t' page o b e = ground arith

abbrev writable : Page
writable = record { access = readwrite; guard = false }

abbrev read_only : Page
read_only = record { access = readonly; guard = false }

abbrev ready : Guard
ready = record { regions = []; initialized = true }

abbrev whole : KernelRegion
whole = record { address = 8192; size = 64; protection = 1; is_protected = false }

guard_unprotect-protect_example :
    let protected = guard_protect one_page true 4 (some whole) 24 writable ready in
    let back = guard_unprotect one_page protected.1 24 protected.2 protected.3 in
    (protected.0 ≡ status_success)
    × (back.0 ≡ status_success)
    × (one_page.query back.2 4 8192 ≡ some writable)
    × (back.3 ≡ ready)
unfolding convert_flags find_first
guard_unprotect-protect_example =
    guard_unprotect-protect one_page 4 8192 whole writable read_only writable writable ready
      writable 8192 read_only one_page_law refl refl refl refl refl refl

abbrev hook : KernelCallback
hook = record { callback_type = memory_access; callback_address = 4096; context = 0 }

abbrev machine : Machine
machine = record {
  caller = 4;
  has_memory = true;
  is_valid = λ a. true;
  lookup = λ pid. (status_success, none);
  cr3 = 0;
  features = 0;
  vmx_leaf = 0;
}

abbrev driver : Driver Page
driver = record {
  guard = ready;
  watcher = record { log = record { slots = []; count = 0 }; enabled = true };
  callbacks = [];
  detector = record { expected_cr3 = 0; active = true };
  initialized = true;
  memory = writable;
}

abbrev requests : List (Machine × Ioctl)
requests =
    (machine, register_callback (some hook) 32)
    ∷ (machine, register_callback (some hook) 32)
    ∷ (machine, stop_monitoring)
    ∷ (machine, unregister_callback (some 4096) 8)
    ∷ []

serve-IsKeyed_example : IsKeyed (serve one_page requests driver).callbacks
serve-IsKeyed_example = serve-IsKeyed one_page requests driver tt
