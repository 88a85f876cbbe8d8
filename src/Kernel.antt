-- ===== src/Kernel.antt =====
-- src/kernel with include/ps14/kernel.h as built for kernel mode, but for process_watcher.c, which is
-- Watcher: the status codes, and one module for each source file.
pub mod Status
pub mod Guard
pub mod Handlers
pub mod ShadowPt
pub mod Driver
