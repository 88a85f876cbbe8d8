-- ===== src/Examples/Detecting.antt =====
-- Runs of the detectors of src/core/advanced.
use ps.Advanced.Debugger.{is_prefix, Platform, posix, debugger_is_attached, any_set}
use ps.Base.{
  ℕ, suc, ◌-◌, ◌≡◌, refl, ◌↔◌, true, false, ◌||◌, none, some, List, [], ◌∷◌, arith, ltb, ◌==◌,
  if◌then◌else◌, replicate, CString, add32, sub64,
}
use ps.Memory.{Mem, write_bytes}
use ps.Advanced.Tamper.{tamper_check_nop_sled}
use ps.Advanced.Tamper.Sleds.{HasSled, tamper_check_nop_sled-iff-HasSled}
use ps.Advanced.Hooks.{hook_scan_region}
use ps.Advanced.Hooks.Scan.{sightings, hook_scan_region-eq-sightings}
use ps.Advanced.Overflow.{Overflow, bof_heap_alloc, bof_heap_check}
use ps.Advanced.Overflow.Canaries.{bof_heap_check-alloc}
use ps.Advanced.Debugger.Attached.{tracer_line, debugger_is_attached-posix}
use ps.Advanced.Auditor.{Auditor}
use ps.Chain.{done, fault}
use ps.Advanced.Callbacks.{
  CallbackNode, Nodes, Registry, register_callback, unregister_callback, notify_callbacks,
}
use ps.Advanced.Callbacks.Dangling.{notify_callbacks-unregister}
use ps.Advanced.Events.{Advanced, run_all_checks, debugger_event}
use ps.Advanced.Events.Runs.{run_all_checks-register}

-- Six NOPs from address 4096 on, a jump behind them, and another one at 4105.
abbrev code_mem : Mem
code_mem x =
    if ltb x 4102 then 0x90 else (if x == 4102 then 0xE9 else (if x == 4105 then 0xE9 else 0))

hook_scan_region-eq-sightings_example :
    hook_scan_region code_mem 4096 16 ≡ some (sightings code_mem 4096 16 (16 - 5) 0 false)
hook_scan_region-eq-sightings_example =
    hook_scan_region-eq-sightings code_mem 4096 16 (omega arith) (omega arith) (omega arith)

-- The sled and the second jump; the jump right behind the sled is missed.
scan_run : hook_scan_region code_mem 4096 16 ≡ some 2
unfolding hook_scan_region
scan_run = refl

tamper_check_nop_sled-iff-HasSled_example :
    (tamper_check_nop_sled code_mem 4096 8 ≡ true) ↔ HasSled code_mem 4096 8
tamper_check_nop_sled-iff-HasSled_example =
    tamper_check_nop_sled-iff-HasSled code_mem 4096 8 (omega arith)

abbrev no_checks : Overflow
no_checks = record { initialized = true; stack_canary = 0; bounds_checks = [] }

abbrev malloc : ℕ → ℕ
malloc n = 4096

-- Twenty bytes into a block of sixteen.
abbrev overrun : List ℕ
overrun = replicate 20 65

bof_heap_check-alloc_example :
    let block = bof_heap_alloc 7 9 malloc 0 5 6 16 ((λ x. 0), no_checks) in
    bof_heap_check 7 9 (write_bytes block.1 block.0 overrun) 5 block.0 ≡ (5 == 5)
bof_heap_check-alloc_example =
    bof_heap_check-alloc 7 9 malloc 0 5 6 5 16 overrun (λ x. 0) no_checks (omega arith)
      (omega arith) (omega arith) (omega arith) (omega arith)

-- "Name:".
abbrev name_line : CString
name_line = 78 ∷ 97 ∷ 109 ∷ 101 ∷ 58 ∷ []

debugger_is_attached-posix_example :
    debugger_is_attached (posix (some (name_line ∷ tracer_line (1 ∷ 7 ∷ []) ∷ []))) 10 20
    ≡ (any_set (1 ∷ 7 ∷ []) || ltb 100 (sub64 20 10))
unfolding is_prefix
debugger_is_attached-posix_example =
    debugger_is_attached-posix (name_line ∷ []) [] (1 ∷ 7 ∷ []) 10 20 (refl, tt) (omega arith)
      (omega arith)

abbrev traced : Platform
traced = posix (some (tracer_line (1 ∷ 7 ∷ []) ∷ []))

abbrev new_auditor : Auditor
new_auditor = record {
  initialized = true;
  thread_pool = none;
  regions = [];
  priority = 5;
  running = false;
  scans_performed = 0;
  violations_found = 0;
}

abbrev detection : Advanced
detection = record {
  initialized = true;
  enabled = true;
  debuggers_found = 0;
  hooks_found = 0;
  tampering_found = 0;
  overflows_prevented = 0;
  registry = record { head = 0; nodes = λ p. none };
  subsystems = record {
    debugger = true;
    hook = true;
    tamper = true;
    auditor = new_auditor;
    overflow = no_checks;
  };
}

run_all_checks-register_example :
    let s' = record detection { registry = (register_callback 64 4096 8 detection.registry).1 } in
    run_all_checks 1 30 traced 10 20 s'
    ≡ done (record {
      event = some (debugger_event 30);
      calls = (4096, 8) ∷ [];
      detections = 1;
      state = record s' { debuggers_found = add32 0 1 };
    })
unfolding debugger_is_attached
run_all_checks-register_example =
    run_all_checks-register 1 30 10 20 64 4096 8 traced detection [] refl refl (omega arith)
      (omega arith) refl refl (omega arith)

abbrev newest : CallbackNode
newest = record { callback = 4096; user_data = 1; next = 32 }

abbrev oldest : CallbackNode
oldest = record { callback = 8192; user_data = 2; next = 0 }

abbrev two_nodes : Nodes
two_nodes p = if p == 16 then some newest else (if p == 32 then some oldest else none)

abbrev two_callbacks : Registry
two_callbacks = record { head = 16; nodes = two_nodes }

notify_callbacks-unregister_example :
    (after : Registry) × (unregister_callback (suc 4) 16 two_callbacks ≡ done after)
    × (notify_callbacks (suc 4) after.head after.nodes ≡ fault)
notify_callbacks-unregister_example =
    notify_callbacks-unregister 4 4 16 32 newest oldest two_callbacks []
      (refl, (omega arith), refl, (refl, (omega arith), refl, refl))
