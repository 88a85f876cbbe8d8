-- ===== src/Shared.antt =====
-- src/shared/logger.c, src/shared/config.c and what starts with them: src/core/core.c and the client.
pub mod Logger
pub mod Config
pub mod Launcher
pub mod Client
