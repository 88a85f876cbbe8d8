-- ===== src/Advanced/Events.antt =====
-- src/core/advanced/advanced.c with include/ps14/advanced.h: the detectors together, their callbacks
-- and the counters.
pub mod Runs
use ps.Base.{
  chars, ℕ, suc, Bool, true, false, not, ◌||◌, Option, none, some, List, [], ltb, if◌then◌else◌,
  Status, success, already_initialized, CString, strncpy, add32,
}
use ps.Chain.{Walk, done, fault, more}
use ps.Advanced.Callbacks.{Registry, free_all, notify_callbacks}
use ps.Advanced.Debugger.{Platform, debugger_init, debugger_shutdown, debugger_is_attached}
use ps.Advanced.Hooks.{hook_init, hook_shutdown}
use ps.Advanced.Tamper.{tamper_init, tamper_shutdown}
use ps.Advanced.Auditor.{Auditor, auditor_init, auditor_shutdown}
use ps.Advanced.Overflow.{Overflow, bof_init, bof_shutdown}

pub data DetectionType : Type 0 where
  nothing debugger hook tamper buffer_overflow : DetectionType

pub data Severity : Type 0 where
  info warning critical : Severity

pub record DetectionEvent : Type 0 where
  pub event_type : DetectionType
  pub severity : Severity
  pub description : CString
  pub address : ℕ
  pub size : ℕ
  pub timestamp : ℕ

pub record Subsystems : Type 0 where
  pub debugger : Bool
  pub hook : Bool
  pub tamper : Bool
  pub auditor : Auditor
  pub overflow : Overflow

pub record Advanced : Type 0 where
  pub initialized : Bool
  pub enabled : Bool
  pub debuggers_found : ℕ
  pub hooks_found : ℕ
  pub tampering_found : ℕ
  pub overflows_prevented : ℕ
  pub registry : Registry
  pub subsystems : Subsystems

-- The calls that start each detector; what they return is not read.
start_all : ℕ → Subsystems → Subsystems
unfolding debugger_init hook_init tamper_init auditor_init bof_init
start_all tick s = record {
  debugger = (debugger_init s.debugger).1;
  hook = (hook_init s.hook).1;
  tamper = (tamper_init s.tamper).1;
  auditor = (auditor_init s.auditor).1;
  overflow = (bof_init tick s.overflow).1;
}

stop_all : Subsystems → Subsystems
unfolding debugger_shutdown hook_shutdown tamper_shutdown auditor_shutdown bof_shutdown
stop_all s = record {
  debugger = debugger_shutdown s.debugger;
  hook = hook_shutdown s.hook;
  tamper = tamper_shutdown s.tamper;
  auditor = auditor_shutdown s.auditor;
  overflow = bof_shutdown s.overflow;
}

unfoldable pub advanced_init : ℕ → Advanced → Status × Advanced
unfolding start_all
advanced_init tick s = if s.initialized then (already_initialized, s) else (
  success,
  record s {
    registry = record s.registry { head = 0 };
    subsystems = start_all tick s.subsystems;
    initialized = true;
    enabled = true;
  },
)

unfoldable pub advanced_shutdown : ℕ → Advanced → Walk Advanced
unfolding free_all stop_all
advanced_shutdown fuel s =
    if not s.initialized then done s else elim (free_all fuel s.registry.head s.registry.nodes) [
      | done nodes ↦ done (record s {
        subsystems = stop_all s.subsystems;
        registry = record { head = 0; nodes = nodes };
        initialized = false;
      })
      | fault ↦ fault
      | more ↦ more
    ]

unfoldable pub debugger_event : ℕ → DetectionEvent
debugger_event tick = record {
  event_type = debugger;
  severity = critical;
  description = strncpy 255 (chars "Debugger attached to process");
  address = 0;
  size = 0;
  timestamp = tick;
}

-- What a run hands to its callbacks and returns, and the state afterwards.
pub record Run : Type 0 where
  pub event : Option DetectionEvent
  pub calls : List (ℕ × ℕ)
  pub detections : ℕ
  pub state : Advanced

quiet : Advanced → Run
quiet s = record { event = none; calls = []; detections = 0; state = s }

-- `attached` is the debugger detector's answer.
unfoldable pub run_checks : ℕ → ℕ → Bool → Advanced → Walk Run
unfolding notify_callbacks debugger_event quiet
run_checks fuel tick false s = done (quiet s)
run_checks fuel tick true s = elim (notify_callbacks fuel s.registry.head s.registry.nodes) [
  | done calls ↦ done (record {
    event = some (debugger_event tick);
    calls = calls;
    detections = 1;
    state = record s { debuggers_found = add32 s.debuggers_found 1 };
  })
  | fault ↦ fault
  | more ↦ more
]

unfoldable pub run_all_checks : ℕ → ℕ → Platform → ℕ → ℕ → Advanced → Walk Run
unfolding run_checks debugger_is_attached quiet
run_all_checks fuel tick p start end s =
    if not s.enabled
    then done (quiet s)
    else run_checks fuel tick (debugger_is_attached p start end) s

unfoldable pub advanced_get_stats : Advanced → ℕ × ℕ × ℕ × ℕ
advanced_get_stats s = (s.debuggers_found, s.hooks_found, s.tampering_found, s.overflows_prevented)

unfoldable pub advanced_set_enabled : Bool → Advanced → Advanced
advanced_set_enabled enabled s = record s { enabled = enabled }

unfoldable pub advanced_is_enabled : Advanced → Bool
advanced_is_enabled s = s.enabled

unfoldable pub advanced_has_detections : Advanced → Bool
advanced_has_detections s =
    ltb 0 s.debuggers_found
    || ltb 0 s.hooks_found
    || ltb 0 s.tampering_found
    || ltb 0 s.overflows_prevented

unfoldable pub advanced_reset_stats : Advanced → Advanced
advanced_reset_stats s = record s {
  debuggers_found = 0;
  hooks_found = 0;
  tampering_found = 0;
  overflows_prevented = 0;
}
