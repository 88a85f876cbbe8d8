-- ===== src/Advanced.antt =====
-- src/core/advanced: the detectors of patched code, hooks, debuggers and overflows, one module for each
-- source file; Events is advanced.c, which runs them.
pub mod Tamper
pub mod Hooks
pub mod Debugger
pub mod Overflow
pub mod Auditor
pub mod Callbacks
pub mod Events
